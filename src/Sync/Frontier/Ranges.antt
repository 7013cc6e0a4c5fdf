-- ===== src/Sync/Frontier/Ranges.antt =====
-- `Missing` of internal/sync/merge/frontier.go: the ranges of sequence numbers to fetch.
use remnix.Prelude.{
  String, List, [], ◌∷◌, Bool, true, false, ◌≡◌, refl, ◌∙◌, sym, none, some, if◌then◌else◌, ◌==◌,
  eq_iff, arith, Bool-cases, Option-cases, inl, inr, In, ◌⊎◌, ◌↔◌,
}
use remnix.Prelude.Int.{ℤ, pos, ltb_ℤ, ◌≤ℤ◌, ◌<ℤ◌, ◌+ℤ◌, add64, max64, int_laws}
use remnix.Prelude.Dict.{lookup, Distinct}
use mathlib.Core.Bool.{false≢true}
use remnix.Sync.Frontier.Order.{at-nonneg}
use remnix.Sync.Frontier.Score.{add64_small}
use Prim.Native.String.{compare}
use text.Mathlib.Text.{is_lt}
use remnix.Sync.Frontier.{
  NonNeg, Frontier, Range, at, collect_missing, insert_range, sort_ranges, missing,
}

-- Sorting keeps the elements.
In-insert_range : (q r : Range) (rs : List Range) → In q (insert_range r rs) ↔ In q (r ∷ rs)
unfolding insert_range
In-insert_range q r [] = (λ h. h, λ h. h)
In-insert_range q r (s ∷ rs) = elim (Bool-cases (is_lt (compare s.device_id r.device_id))) [
  | inl e ↦ rw e (
      let ih : In q (insert_range r rs) ↔ In q (r ∷ rs) = In-insert_range q r rs in
      (λ h. swap h ih, λ h. back h ih))
  | inr e ↦ rw e (λ h. h, λ h. h)
]
  where
    swap :
        In q (s ∷ insert_range r rs)
        → (In q (insert_range r rs) ↔ In q (r ∷ rs))
        → In q (r ∷ s ∷ rs)
    swap (inl e) ih = inr (inl e)
    swap (inr h) ih = elim (ih.0 h) [ inl e ↦ inl e | inr k ↦ inr (inr k) ]

    back :
        In q (r ∷ s ∷ rs)
        → (In q (insert_range r rs) ↔ In q (r ∷ rs))
        → In q (s ∷ insert_range r rs)
    back (inl e) ih = inr (ih.1 (inl e))
    back (inr (inl e)) ih = inl e
    back (inr (inr k)) ih = inr (ih.1 (inr k))

In-sort_ranges : (q : Range) (rs : List Range) → In q (sort_ranges rs) ↔ In q rs
unfolding sort_ranges
In-sort_ranges q [] = (λ h. h, λ h. h)
In-sort_ranges q (r ∷ rs) =
    let one = In-insert_range q r (sort_ranges rs) in
    let ih : In q (sort_ranges rs) ↔ In q rs = In-sort_ranges q rs in
    (
      λ h. elim (one.0 h) [ inl e ↦ inl e | inr k ↦ inr (ih.0 k) ],
      λ h. elim h [ inl e ↦ one.1 (inl e) | inr k ↦ one.1 (inr (ih.1 k)) ],
    )

-- The range that brings `local` up to the number that `remote` has for a device.
abbrev pub Fetches : Frontier → Frontier → Range → Type 0
Fetches local remote r =
    (lookup r.device_id remote ≡ some r.end)
    × (at local r.device_id <ℤ r.end)
    × (r.start ≡ add64 (at local r.device_id) (pos 1))

-- The range that the loop makes of an entry.
abbrev whole : Frontier → String → ℤ → Range
whole local id seq = record { device_id = id; start = add64 (at local id) (pos 1); end = seq }

module _ (local remote : Frontier) (i : String) (s : ℤ) where
  here-Fetches : ltb_ℤ (at local i) s ≡ true → Fetches local ((i, s) ∷ remote) (whole local i s)
  unfolding lookup
  here-Fetches e = (ground (arith, eq_iff i i), ground arith, refl)

  later-Fetches :
      (r : Range)
      → lookup i remote ≡ none
      → Fetches local remote r
      → Fetches local ((i, s) ∷ remote) r
  unfolding lookup
  later-Fetches r d (found, lt, e) = (ground (arith, eq_iff i r.device_id), lt, e)

  -- The entry that a range stands for is the first one or a later one.
  Fetches-cons :
      (r : Range)
      → Fetches local ((i, s) ∷ remote) r
      → ((ltb_ℤ (at local i) s ≡ true) × (r ≡ whole local i s)) ⊎ Fetches local remote r
  unfolding lookup
  Fetches-cons r (found, lt, e) = elim (Bool-cases (i == r.device_id)) [
    | inl same ↦
        let same' : i ≡ r.device_id = (eq_iff i r.device_id).0 same in
        let end' : s ≡ r.end = ground arith in inl (rw (same', end') (ground arith), cc)
    | inr other ↦ inr (ground arith, lt, e)
  ]

collect_missing_sound :
    (local remote : Frontier) (r : Range)
    → Distinct remote
    → In r (collect_missing local remote)
    → Fetches local remote r
unfolding collect_missing
collect_missing_sound local [] r d h = absurd h
collect_missing_sound local ((i, s) ∷ remote) r d h =
    step (ltb_ℤ (at local i) s) refl h (collect_missing_sound local remote r d.1)
  where
    rest : List Range
    rest = collect_missing local remote

    step :
        (b : Bool)
        → ltb_ℤ (at local i) s ≡ b
        → In r (if b then whole local i s ∷ rest else rest)
        → (In r rest → Fetches local remote r)
        → Fetches local ((i, s) ∷ remote) r
    step true e (inl q) ih = rw q (here-Fetches local remote i s e)
    step true e (inr k) ih = later-Fetches local remote i s r d.0 (ih k)
    step false e k ih = later-Fetches local remote i s r d.0 (ih k)

collect_missing_complete :
    (local remote : Frontier) (r : Range)
    → Fetches local remote r
    → In r (collect_missing local remote)
unfolding collect_missing lookup
collect_missing_complete local [] r f = cc
collect_missing_complete local ((i, s) ∷ remote) r f =
    step (ltb_ℤ (at local i) s) refl (collect_missing_complete local remote r)
      (Fetches-cons local remote i s r f)
  where
    rest : List Range
    rest = collect_missing local remote

    step :
        (b : Bool)
        → ltb_ℤ (at local i) s ≡ b
        → (Fetches local remote r → In r rest)
        → ((ltb_ℤ (at local i) s ≡ true) × (r ≡ whole local i s)) ⊎ Fetches local remote r
        → In r (if b then whole local i s ∷ rest else rest)
    step true e ih (inl (t, q)) = inl q
    step true e ih (inr k) = inr (ih k)
    step false e ih (inl (t, q)) = absurd (false≢true (sym e ∙ t))
    step false e ih (inr k) = ih k

-- The ranges to fetch are exactly those that bring a device with a larger number in `remote` from the
-- number after the local one up to the number of `remote`, for a map `remote`.
pub missing_iff :
    (local remote : Frontier) (r : Range)
    → Distinct remote
    → In r (missing local remote) ↔ Fetches local remote r
unfolding missing
missing_iff local remote r d =
    let sorted = In-sort_ranges r (collect_missing local remote) in
    (
      λ h. collect_missing_sound local remote r d (sorted.0 h),
      λ f. sorted.1 (collect_missing_complete local remote r f),
    )

-- A range of the device `id` in a list holds `n`.
abbrev pub Fetched : List Range → String → ℤ → Type 0
Fetched rs id n = (r : Range) × In r rs × (r.device_id ≡ id) × (r.start ≤ℤ n) × (n ≤ℤ r.end)

-- `Missing` fetches exactly the events that `remote` has and `local` has not: where `local` has no
-- negative number, no device stands twice in `remote` and its number there is at most the largest
-- `int64`, `n` lies in a range of the device `id` exactly when it is larger
-- than the local number of `id` and at most the number that `remote` has.
pub missing_exact :
    (local remote : Frontier) (id : String) (n : ℤ)
    → Distinct remote
    → NonNeg local
    → at remote id ≤ℤ max64
    → Fetched (missing local remote) id n ↔ ((at local id <ℤ n) × (n ≤ℤ at remote id))
missing_exact local remote id n d nn small = (there, back)
  where
    next : at local id <ℤ at remote id → add64 (at local id) (pos 1) ≡ at local id +ℤ pos 1
    next lt =
        add64_small (at local id) (pos 1) (at-nonneg local id nn) (omega arith) (omega int_laws)

    there : Fetched (missing local remote) id n → (at local id <ℤ n) × (n ≤ℤ at remote id)
    there (r, h, same, lo, hi) =
        let (found, lt, e) = (missing_iff local remote r d).0 h in
        let found' : lookup id remote ≡ some r.end = rw (← same) found in
        let lt' : at local id <ℤ at remote id = rw (found', ← same) lt in
        let e' : r.start ≡ at local id +ℤ pos 1 = (rw same at e) ∙ next lt' in
        let lo' : at local id +ℤ pos 1 ≤ℤ n = rw (← e') lo in (omega int_laws, rw found' hi)

    back : (at local id <ℤ n) × (n ≤ℤ at remote id) → Fetched (missing local remote) id n
    back (lo, hi) = elim (Option-cases (lookup id remote)) [
      | inl e ↦
          let z : pos 0 ≤ℤ at local id = at-nonneg local id nn in
          let hi' : n ≤ℤ pos 0 = rw e at hi in absurd (omega arith)
      | inr (seq, e) ↦
          let hi' : n ≤ℤ seq = rw e at hi in
          (
            whole local id seq,
            (missing_iff local remote (whole local id seq) d).1 (e, omega arith, refl),
            refl,
            rw (next (omega arith)) (omega int_laws),
            hi',
          )
    ]
