-- ===== src/History/Cache/Suggested.antt =====
-- internal/history/cache.go: a suggestion lists what the order of the commands says.
use remnix.Prelude.{
  take, drop, get_elem?, get_elem?-lt, get_elem?-of_lt, String, ℕ, zero, suc, false, not, ◌||◌,
  List, [], ◌∷◌, some, ◌==◌, if◌then◌else◌, arith, ◌≡◌, refl, sym, ap, ◌∙◌, Bool-cases, inl, inr,
  All, length, eqb,
}
use remnix.Prelude.Takes.{All-drop}
use remnix.Prelude.Text.{str_ltb, str_ltb_negtrans}
use remnix.Prelude.Run.{done}
use remnix.History.Cache.{Cache}
use remnix.History.Cache.Suggest.{places_from, prefix_entries_locked, suggest}
use remnix.History.Cache.Order.{order_of, find_first, reaches}
use remnix.History.Cache.Resorted.{order-All, IsPlace}
use remnix.History.Cache.Scanned.{sort_search-find_first, is_past-reaches, scan_prefix-scan_places}
use remnix.History.Cache.Search.{IsSorted, in_order-IsSorted, IsMonotone, find_first-IsFirst}
use remnix.History.Cache.Prefixes.{
  listed, command, IsSorted-drop, IsSorted-get_elem?, listed-drop, scan_places-listed,
}

All-drop_of : (P : ℕ → Type 0) (n : ℕ) (xs : List ℕ) → All P xs → All P (drop n xs)
unfolding drop
All-drop_of P zero xs h = h
All-drop_of P (suc n) [] h = tt
All-drop_of P (suc n) (x ∷ xs) h = All-drop_of P n xs h.1

listed_empty :
    (c : Cache) (prefix : String) (is : List ℕ) → length is ≡ 0 → [] ≡ take 64 (listed c prefix is)
unfolding listed take
listed_empty c prefix [] e = refl
listed_empty c prefix (i ∷ is) e = absurd (omega arith)

module _ (c : Cache) (prefix : String) (ordered : c.sorted ≡ order_of c) where
  sorted-IsSorted : IsSorted (command c prefix) c.sorted
  sorted-IsSorted = rw ordered (in_order-IsSorted (command c prefix) (places_from 0 c.recs))

  is_past_at :
      (i place : ℕ)
      → get_elem? c.sorted i ≡ some place
      → reaches c prefix i ≡ not (str_ltb (command c prefix place) prefix)
  unfolding reaches
  is_past_at i place at = rw (at, reaches) refl

  reaches-IsMonotone : IsMonotone (reaches c prefix) (length c.sorted)
  reaches-IsMonotone i j le inside past =
      let (a, at) = get_elem?-of_lt c.sorted i (omega arith) in
      let (b, there) = get_elem?-of_lt c.sorted j inside in
      let up = IsSorted-get_elem? (command c prefix) c.sorted i j a b sorted-IsSorted le at there in
      ground (
        arith,
        is_past_at i a at,
        is_past_at j b there,
        str_ltb_negtrans (command c prefix b) (command c prefix a) prefix up,
      )

  prefix_entries_locked-listed :
      prefix_entries_locked c prefix ≡ done (take 64 (listed c prefix c.sorted))
  unfolding prefix_entries_locked listed take
  prefix_entries_locked-listed =
      let n = length c.sorted in
      let r = find_first n (reaches c prefix) in
      let first = find_first-IsFirst n (reaches c prefix) reaches-IsMonotone in
      let rest = drop r c.sorted in
      let there = All-drop_of (IsPlace c) r c.sorted (rw ordered (order-All c)) in
      let lo =
        All-drop (λ j. str_ltb (command c prefix j) prefix ≡ false) r c.sorted
          (λ i place a at.
            ground
              (arith, is_past_at i place at, first.after i a (get_elem?-lt c.sorted i place at))) in
      let cut =
        listed-drop c prefix r c.sorted
          (λ i place a at. ground (arith, is_past_at i place at, first.before i (omega arith) a)) in
      let places : All (IsPlace c) c.sorted = rw ordered (order-All c) in
      let searched =
        sort_search-find_first n _ (reaches c prefix) (is_past-reaches c prefix places) in
      let looped = scan_prefix-scan_places c prefix places n r [] (omega arith) in
      let scanned =
        scan_places-listed c prefix rest [] (omega arith) there
          (IsSorted-drop (command c prefix) r c.sorted sorted-IsSorted) lo in
      elim (Bool-cases (eqb n 0)) [
        | inl e ↦ rw (e, sym (listed_empty c prefix c.sorted (ground arith))) refl
        | inr e ↦ rw (e, searched) (looped ∙ scanned ∙ ap (λ l. done (take 64 l)) cut)
      ]

-- Where the places are sorted, a suggestion runs without an index out of range. For the empty prefix
-- or a dirty cache it is empty; else it lists, in alphabetical order, every command that begins with
-- the prefix and is longer, the first 64 of them.
pub suggest-listed :
    (c : Cache) (prefix : String)
    → c.sorted ≡ order_of c
    → suggest c prefix
      ≡ (if prefix == "" || c.dirty then done [] else done (take 64 (listed c prefix (order_of c))))
unfolding suggest
suggest-listed c prefix ordered =
    let found =
      prefix_entries_locked-listed c prefix ordered
      ∙ ap (λ l. done (take 64 (listed c prefix l))) ordered in
    elim (Bool-cases (prefix == "" || c.dirty)) [
      | inl e ↦ rw (e, suggest) refl
      | inr e ↦ rw (e, suggest) found
    ]
