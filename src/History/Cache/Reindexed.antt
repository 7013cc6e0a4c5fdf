-- ===== src/History/Cache/Reindexed.antt =====
-- internal/history/cache.go: the index that compaction makes anew, and the counts after it.
use remnix.Prelude.{
  get_elem?, String, ℕ, zero, suc, List, [], ◌∷◌, some, arith, ◌≡◌, refl, sym, ap, ◌∙◌, subst,
  Bool-cases, inl, inr, eq_iff, ◌⊎◌, ◌≢◌, eqb, ◌+◌, ◌≤◌,
}
use remnix.Prelude.Dict.{Dict, lookup, Distinct}
use remnix.Prelude.IntMap.{IntMap, find, put, find-put}
use remnix.History.Cache.Pool.{
  StringPool, text_at, text_at_found, text_at_injective, IsIndexed, Holds,
}
use remnix.History.Cache.{CacheRec}
use remnix.History.Cache.Owners.{count}
use remnix.History.Cache.Compact.{index_from}
use remnix.History.Cache.Remap.{IdsSame}

-- No command has two records.
abbrev pub IsUnique : List CacheRec → Type 0
IsUnique rs =
    (i j : ℕ) (r s : CacheRec)
    → get_elem? rs i ≡ some r
    → get_elem? rs j ≡ some s
    → r.cmd ≡ s.cmd
    → i ≡ j

tail-IsUnique : (x : CacheRec) (rs : List CacheRec) → IsUnique (x ∷ rs) → IsUnique rs
tail-IsUnique x rs u i j r s at there e =
    let shifted = u (suc i) (suc j) r s at there e in omega arith

find-index_from_absent :
    (k i : ℕ) (rs : List CacheRec) (m : IntMap ℕ)
    → ((j : ℕ) (r : CacheRec) → get_elem? rs j ≡ some r → r.cmd ≢ k)
    → find k (index_from i rs m) ≡ find k m
unfolding index_from
find-index_from_absent k i [] m absent = refl
find-index_from_absent k i (r ∷ rs) m absent =
    find-index_from_absent k (suc i) rs (put r.cmd i m) (λ j s at. absent (suc j) s at)
    ∙ find-put r.cmd k i m
    ∙ ground (arith, absent 0 r refl)

pub find-index_from :
    (i j : ℕ) (rs : List CacheRec) (m : IntMap ℕ) (r : CacheRec)
    → IsUnique rs
    → get_elem? rs j ≡ some r
    → find r.cmd (index_from i rs m) ≡ some (i + j)
unfolding index_from
find-index_from i j [] m r u at = cc at
find-index_from i zero (x ∷ rs) m r u at =
    let it : x ≡ r = ground arith in
    subst (λ y. find y.cmd (index_from (suc i) rs (put x.cmd i m)) ≡ some (i + 0)) it
      (find-index_from_absent x.cmd (suc i) rs (put x.cmd i m)
          (λ j s there e. ground (arith, u (suc j) 0 s x there refl e))
        ∙ ground (arith, find-put x.cmd x.cmd i m))
find-index_from i (suc j) (x ∷ rs) m r u at =
    let later = find-index_from (suc i) j rs (put x.cmd i m) r (tail-IsUnique x rs u) at in
    ground arith

pub index_from_found :
    (k i n : ℕ) (rs : List CacheRec) (m : IntMap ℕ)
    → find k (index_from i rs m) ≡ some n
    → (find k m ≡ some n)
      ⊎ ((j : ℕ) × (r : CacheRec) × (get_elem? rs j ≡ some r) × (r.cmd ≡ k) × (n ≡ i + j))
unfolding index_from
index_from_found k i n [] m f = inl f
index_from_found k i n (x ∷ rs) m f = elim (index_from_found k (suc i) n rs (put x.cmd i m) f) [
  | inl g ↦ elim (Bool-cases (eqb x.cmd k)) [
    | inl e ↦ inr (0, x, refl, ground arith, ground (arith, find-put x.cmd k i m))
    | inr e ↦ inl (ground (arith, find-put x.cmd k i m))
  ]
  | inr (j, r, at, same, place) ↦ inr (suc j, r, at, same, omega arith)
]

-- Each entry's command stands in the pool.
abbrev pub AllHeld : StringPool → Dict ℕ → Type 0
AllHeld p [] = Unit
AllHeld p ((id, k) ∷ ids) = Holds p k × AllHeld p ids

pub all_held :
    (p : StringPool) (ids : Dict ℕ)
    → Distinct ids
    → ((id : String) (k : ℕ) → lookup id ids ≡ some k → Holds p k)
    → AllHeld p ids
unfolding lookup
all_held p [] d h = tt
all_held p ((id, k) ∷ ids) d h = (
  h id k (ground (arith, eq_iff id id)),
  all_held p ids d.1 (λ other l f. h other l (ground (arith, eq_iff id other))),
)

pub count-same :
    (p q : StringPool) (k n : ℕ) (ids news : Dict ℕ)
    → IsIndexed p
    → Holds p k
    → AllHeld p ids
    → IdsSame p q ids news
    → text_at q n ≡ text_at p k
    → count n news ≤ count k ids
unfolding count
count-same p q k n [] [] h held all same e = omega arith
count-same p q k n [] (s ∷ ss) h held all same e = absurd same
count-same p q k n (r ∷ rs) [] h held all same e = absurd same
count-same p q k n ((i, l) ∷ rs) ((j, m) ∷ ss) h held all same e =
    let later = count-same p q k n rs ss h held all.1 same.2 e in
    let text = text_at_found q m (text_at p l) same.1 in
    let law : m ≡ n → l ≡ k =
      λ x. text_at_injective p l k h all.0 held (sym text ∙ ap (text_at q) x ∙ e) in
    ground (arith, law)
