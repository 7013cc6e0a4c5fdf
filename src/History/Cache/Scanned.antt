-- ===== src/History/Cache/Scanned.antt =====
-- internal/history/cache.go: the search and the scan of a prefix read no index out of range.
use remnix.Prelude.{
  ◌/◌, get_elem?, get_elem?-of_lt, drop, String, ℕ, zero, suc, Bool, List, [], ◌∷◌, ◌++◌, some,
  arith, ◌≡◌, refl, Bool-cases, inl, inr, All, length, ltb, ◌+◌, ◌≤◌, ◌<◌,
}
use remnix.Prelude.Takes.{All-get_elem?}
use remnix.Prelude.Run.{Run, done, read_found}
use remnix.History.Entry.{Entry}
use remnix.History.Cache.{Cache}
use remnix.History.Cache.Suggest.{entry_from, search_between, sort_search, is_past, scan_prefix}
use remnix.History.Cache.Order.{find_between, find_first, reaches, scan_places}
use remnix.History.Cache.Resorted.{IsPlace, command_at_place}

search_between-find_between :
    (is_past : ℕ → Run Bool) (plain : ℕ → Bool) (n fuel lo hi : ℕ)
    → ((i : ℕ) → i < n → is_past i ≡ done (plain i))
    → hi ≤ n
    → search_between is_past fuel lo hi ≡ done (find_between plain fuel lo hi)
unfolding search_between find_between
search_between-find_between is_past plain n zero lo hi reads top = refl
search_between-find_between is_past plain n (suc fuel) lo hi reads top =
    let mid = (lo + hi) / 2 in
    elim (Bool-cases (ltb lo hi)) [
      | inr e ↦ rw e refl
      | inl e ↦
          let at = reads mid (ground arith) in
          elim (Bool-cases (plain mid)) [
            | inl f ↦
                rw (e, at, f)
                  (search_between-find_between is_past plain n fuel lo mid reads (ground arith))
            | inr f ↦
                rw (e, at, f)
                  (search_between-find_between is_past plain n fuel (mid + 1) hi reads top)
          ]
    ]

pub sort_search-find_first :
    (n : ℕ) (is_past : ℕ → Run Bool) (plain : ℕ → Bool)
    → ((i : ℕ) → i < n → is_past i ≡ done (plain i))
    → sort_search n is_past ≡ done (find_first n plain)
unfolding sort_search find_first
sort_search-find_first n is_past plain reads =
    search_between-find_between is_past plain n n 0 n reads (omega arith)

drop-at :
    {A : Type 0} (xs : List A) (i : ℕ) (x : A)
    → get_elem? xs i ≡ some x
    → drop i xs ≡ x ∷ drop (i + 1) xs
unfolding drop
drop-at [] i x h = cc h
drop-at (y ∷ xs) zero x h = ground arith
drop-at (y ∷ xs) (suc i) x h = ground (arith, drop-at xs i x h)

drop_past : {A : Type 0} (xs : List A) (i : ℕ) → length xs ≤ i → drop i xs ≡ []
unfolding drop
drop_past [] zero h = refl
drop_past [] (suc i) h = refl
drop_past (x ∷ xs) zero h = absurd (omega arith)
drop_past (x ∷ xs) (suc i) h = drop_past xs i (omega arith)

module _ (c : Cache) (prefix : String) (there : All (IsPlace c) c.sorted) where
  pub is_past-reaches :
      (i : ℕ) → i < length c.sorted → is_past c prefix i ≡ done (reaches c prefix i)
  unfolding is_past reaches
  is_past-reaches i inside =
      let (place, at) = get_elem?-of_lt c.sorted i inside in
      rw
        (
          read_found c.sorted i place at,
          command_at_place c place (All-get_elem? (IsPlace c) c.sorted i place there at),
          at,
          reaches,
        )
        refl

  pub scan_prefix-scan_places :
      (fuel i : ℕ) (out : List Entry)
      → length c.sorted ≤ i + fuel
      → scan_prefix c prefix fuel i out ≡ scan_places c prefix (drop i c.sorted) out
  unfolding scan_prefix scan_places
  scan_prefix-scan_places zero i out enough = rw (drop_past c.sorted i (omega arith)) refl
  scan_prefix-scan_places (suc fuel) i out enough = elim (Bool-cases (ltb i (length c.sorted))) [
    | inr e ↦ rw (e, drop_past c.sorted i (ground arith)) refl
    | inl e ↦
        let (place, at) = get_elem?-of_lt c.sorted i (ground arith) in
        let (r, found) = All-get_elem? (IsPlace c) c.sorted i place there at in
        let one = entry_from c.pool r in
        rw
          (
            e,
            read_found c.sorted i place at,
            drop-at c.sorted i place at,
            read_found c.recs place r found,
            scan_prefix-scan_places fuel (i + 1) out (omega arith),
            scan_prefix-scan_places fuel (i + 1) (out ++ one ∷ []) (omega arith),
          )
          refl
  ]
