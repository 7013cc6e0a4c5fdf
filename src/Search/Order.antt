-- ===== src/Search/Order.antt =====
-- internal/search/rank.go: the order of the results.
use remnix.Prelude.{
  All-map, true, false, List, [], ◌∷◌, map, arith, ◌≡◌, Bool-cases, inl, inr, In, ◌⊎◌, ◌↔◌, All,
}
use remnix.History.Entry.{Entry}
use remnix.Search.Rank.{Ranked, is_better, insert_result, sort_results}

-- No later result is better than an earlier one: scores fall, and of equal scores the entry that
-- started later comes first.
abbrev pub IsRanked : List Ranked → Type 0
IsRanked [] = Unit
IsRanked (r ∷ rs) = All (λ s. is_better s r ≡ false) rs × IsRanked rs

is_better_asym : (a b : Ranked) → is_better a b ≡ true → is_better b a ≡ false
unfolding is_better
is_better_asym a b h = ground arith

is_better_negtrans :
    (a b c : Ranked) → is_better a b ≡ false → is_better b c ≡ false → is_better a c ≡ false
unfolding is_better
is_better_negtrans a b c h k = ground arith

insert_result-All :
    (P : Ranked → Type 0) (r : Ranked) (rs : List Ranked)
    → P r
    → All P rs
    → All P (insert_result r rs)
unfolding insert_result
insert_result-All P r [] p h = (p, tt)
insert_result-All P r (s ∷ ss) p h = elim (Bool-cases (is_better s r)) [
  | inl e ↦ rw e (h.0, insert_result-All P r ss p h.1)
  | inr e ↦ rw e (p, h)
]

insert_result-IsRanked :
    (r : Ranked) (rs : List Ranked) → IsRanked rs → IsRanked (insert_result r rs)
unfolding insert_result
insert_result-IsRanked r [] h = (tt, tt)
insert_result-IsRanked r (s ∷ ss) h = elim (Bool-cases (is_better s r)) [
  | inl e ↦ rw e (
    insert_result-All (λ t. is_better t s ≡ false) r ss (is_better_asym s r e) h.0,
    insert_result-IsRanked r ss h.1,
  )
  | inr e ↦ rw e (
    (
      e,
      All-map (λ t. is_better t s ≡ false) (λ t. is_better t r ≡ false) ss
          (λ t k. is_better_negtrans t s r k e) h.0,
    ),
    h,
  )
]

pub sort_results-IsRanked : (rs : List Ranked) → IsRanked (sort_results rs)
unfolding sort_results
sort_results-IsRanked [] = tt
sort_results-IsRanked (r ∷ rs) =
    insert_result-IsRanked r (sort_results rs) (sort_results-IsRanked rs)

abbrev pub entry_of : Ranked → Entry
entry_of r = r.entry

In-insert_result :
    (e : Entry) (r : Ranked) (rs : List Ranked)
    → In e (map entry_of (insert_result r rs)) ↔ ((e ≡ r.entry) ⊎ In e (map entry_of rs))
unfolding insert_result
In-insert_result e r [] = (λ h. h, λ h. h)
In-insert_result e r (s ∷ ss) = elim (Bool-cases (is_better s r)) [
  | inr f ↦ rw f (λ h. h, λ h. h)
  | inl f ↦
      let later = In-insert_result e r ss in
      rw f (
        λ h. elim h [
          | inl k ↦ inr (inl k)
          | inr k ↦ elim (later.0 k) [ inl a ↦ inl a | inr b ↦ inr (inr b) ]
        ],
        λ h. elim h [
          | inl k ↦ inr (later.1 (inl k))
          | inr k ↦ elim k [ inl a ↦ inl a | inr b ↦ inr (later.1 (inr b)) ]
        ],
      )
]

pub In-sort_results :
    (e : Entry) (rs : List Ranked) → In e (map entry_of (sort_results rs)) ↔ In e (map entry_of rs)
unfolding sort_results
In-sort_results e [] = (λ h. h, λ h. h)
In-sort_results e (r ∷ rs) =
    let head = In-insert_result e r (sort_results rs) in
    let later = In-sort_results e rs in
    (
      λ h. elim (head.0 h) [ inl a ↦ inl a | inr b ↦ inr (later.0 b) ],
      λ h. elim h [ inl a ↦ head.1 (inl a) | inr b ↦ head.1 (inr (later.1 b)) ],
    )
