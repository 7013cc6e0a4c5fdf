-- ===== src/History/Cache/Prefixes.antt =====
-- internal/history/cache.go: what a suggestion for a prefix lists.
use remnix.Prelude.{
  take, drop, get_elem?, length-append, String, ℕ, zero, suc, true, false, not, ◌&&◌, List, [], ◌∷◌,
  ◌++◌, none, some, ◌==◌, if◌then◌else◌, arith, ◌≡◌, refl, sym, Bool-cases, Option-cases, inl, inr,
  All, length, leb, ◌≤◌, ◌<◌,
}
use mathlib.Core.List.{append_assoc, append-nil}
use remnix.Prelude.Takes.{take_all, take_exact, All-get_elem?}
use remnix.Prelude.Run.{read_found}
use remnix.Prelude.Text.{
  str_ltb, str_ltb_irrefl, has_prefix, has_prefix-str_ltb, has_prefix_between,
}
use remnix.Prelude.Run.{done, read_found}
use remnix.History.Entry.{Entry}
use remnix.History.Cache.Pool.{text_at}
use remnix.History.Cache.{Cache, CacheRec}
use remnix.History.Cache.Suggest.{entry_from}
use remnix.History.Cache.Order.{command_of, scan_places}
use remnix.History.Cache.Resorted.{IsPlace}
use remnix.History.Cache.Search.{IsSorted}

-- The entries of the places whose commands begin with the prefix and are longer.
unfoldable pub listed : Cache → String → List ℕ → List Entry
listed c prefix [] = []
listed c prefix (place ∷ places) =
    let rest = listed c prefix places in
    elim (get_elem? c.recs place) [
      | none ↦ rest
      | some r ↦
          if has_prefix (text_at c.pool r.cmd) prefix && not (text_at c.pool r.cmd == prefix)
          then entry_from c.pool r ∷ rest
          else rest
    ]

module _ (command : ℕ → String) where
  pub IsSorted-drop : (n : ℕ) (is : List ℕ) → IsSorted command is → IsSorted command (drop n is)
  unfolding drop
  IsSorted-drop zero is h = h
  IsSorted-drop (suc n) [] h = tt
  IsSorted-drop (suc n) (i ∷ is) h = IsSorted-drop n is h.1

  pub IsSorted-get_elem? :
      (is : List ℕ) (i j a b : ℕ)
      → IsSorted command is
      → i ≤ j
      → get_elem? is i ≡ some a
      → get_elem? is j ≡ some b
      → str_ltb (command b) (command a) ≡ false
  IsSorted-get_elem? [] i j a b h le at there = cc at
  IsSorted-get_elem? (x ∷ is) zero zero a b h le at there =
      let same : a ≡ b = ground arith in rw (← same) (str_ltb_irrefl (command a))
  IsSorted-get_elem? (x ∷ is) zero (suc j) a b h le at there =
      let same : x ≡ a = ground arith in
      rw (← same) (All-get_elem? (λ k. str_ltb (command k) (command x) ≡ false) is j b h.0 there)
  IsSorted-get_elem? (x ∷ is) (suc i) zero a b h le at there = absurd (omega arith)
  IsSorted-get_elem? (x ∷ is) (suc i) (suc j) a b h le at there =
      IsSorted-get_elem? is i j a b h.1 (omega arith) at there

module _ (c : Cache) (prefix : String) where
  abbrev pub command : ℕ → String
  command = command_of c.pool c.recs

  pub command_found :
      (i : ℕ) (r : CacheRec) → get_elem? c.recs i ≡ some r → command i ≡ text_at c.pool r.cmd
  unfolding command_of
  command_found i r at = rw (at, command_of) refl

  -- Before the prefix, nothing is listed.
  pub listed-drop :
      (n : ℕ) (is : List ℕ)
      → ((i place : ℕ)
          → i < n
          → get_elem? is i ≡ some place
          → str_ltb (command place) prefix ≡ true)
      → listed c prefix (drop n is) ≡ listed c prefix is
  unfolding listed drop
  listed-drop zero is h = refl
  listed-drop (suc n) [] h = refl
  listed-drop (suc n) (place ∷ is) h =
      let later = listed-drop n is (λ i p lt at. h (suc i) p (omega arith) at) in
      elim (Option-cases (get_elem? c.recs place)) [
        | inl e ↦ rw (e, listed) later
        | inr (r, e) ↦
            let low = h 0 place (omega arith) refl in
            let named = command_found place r e in
            let none_here : has_prefix (text_at c.pool r.cmd) prefix ≡ false =
              ground (arith, has_prefix-str_ltb (text_at c.pool r.cmd) prefix, named, low) in
            rw (e, none_here, listed) later
      ]

  -- After a command without the prefix, nothing is listed.
  listed_past :
      (s : String) (is : List ℕ)
      → All (IsPlace c) is
      → All (λ j. str_ltb (command j) s ≡ false) is
      → str_ltb s prefix ≡ false
      → has_prefix s prefix ≡ false
      → listed c prefix is ≡ []
  unfolding listed
  listed_past s [] there above lo other = refl
  listed_past s (place ∷ is) there above lo other =
      let (r, e) = there.0 in
      let named = command_found place r e in
      let none_here : has_prefix (text_at c.pool r.cmd) prefix ≡ false =
        ground (arith, has_prefix_between prefix s (text_at c.pool r.cmd), named, above.0) in
      rw (e, none_here, listed) (listed_past s is there.1 above.1 lo other)

  pub scan_places-listed :
      (is : List ℕ) (out : List Entry)
      → length out < 64
      → All (IsPlace c) is
      → IsSorted command is
      → All (λ j. str_ltb (command j) prefix ≡ false) is
      → scan_places c prefix is out ≡ done (take 64 (out ++ listed c prefix is))
  unfolding scan_places listed
  scan_places-listed [] out few there sorted lo =
      rw (append-nil out, take_all 64 out (omega arith)) refl
  scan_places-listed (place ∷ is) out few there sorted lo =
      let (r, e) = there.0 in
      let text = text_at c.pool r.cmd in
      let named = command_found place r e in
      let low : str_ltb text prefix ≡ false = rw (← named) lo.0 in
      let above : All (λ j. str_ltb (command j) text ≡ false) is = rw (← named) sorted.0 in
      let one = entry_from c.pool r in
      let more = out ++ one ∷ [] in
      let grown : length more ≡ suc (length out) = omega (arith, length-append out (one ∷ [])) in
      elim (Bool-cases (has_prefix text prefix)) [
        | inr f ↦
            rw
              (
                e,
                read_found c.recs place r e,
                f,
                listed,
                listed_past text is there.1 above low f,
                append-nil out,
                take_all 64 out (omega arith),
              )
              refl
        | inl f ↦ elim (Bool-cases (text == prefix)) [
          | inl g ↦
              rw (e, read_found c.recs place r e, f, g, listed)
                (scan_places-listed is out few there.1 sorted.1 lo.1)
          | inr g ↦ elim (Bool-cases (leb 64 (length more))) [
            | inl full ↦
                rw
                  (
                    e,
                    read_found c.recs place r e,
                    f,
                    g,
                    full,
                    listed,
                    sym (append_assoc out (one ∷ []) (listed c prefix is)),
                    take_exact 64 more (listed c prefix is) (ground arith),
                  )
                  refl
            | inr room ↦
                rw
                  (
                    e,
                    read_found c.recs place r e,
                    f,
                    g,
                    room,
                    listed,
                    sym (append_assoc out (one ∷ []) (listed c prefix is)),
                  )
                  (scan_places-listed is more (ground arith) there.1 sorted.1 lo.1)
          ]
        ]
      ]
