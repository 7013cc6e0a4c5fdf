-- ===== src/History/Cache/Changes.antt =====
-- internal/history/cache.go: what a changed, a new and a removed record do to what the records say.
use remnix.Prelude.{
  set_at, get_elem?, get_elem?-lt, get_elem?-set_at, get_elem?-snoc, get_elem?-append,
  get_elem?-last, String, ℕ, List, [], ◌∷◌, ◌++◌, none, some, ◌==◌, if◌then◌else◌, arith, ◌≡◌, sym,
  ◌∙◌, Bool-cases, inl, inr, eq_iff, length, eqb, ◌-◌,
}
use remnix.Prelude.IntMap.{IntMap, find, put, find-remove}
use remnix.History.Cache.Pool.{
  StringPool, text_at, IsIndexed, Within, text_at-Within, text_at_injective,
}
use remnix.History.Cache.{CacheRec, swap_remove}
use remnix.History.Cache.Shelf.{
  IsStored, IsShelved, set_at-IsShelved, push-IsShelved, swap_remove-IsShelved,
  get_elem?-swap_remove,
}
use remnix.History.Cache.View.{row_of, view, view_none, view_found, view_transfer}

module _ {p : StringPool} {recs : List CacheRec} {by_cmd : IntMap ℕ}
    (h : IsShelved p recs by_cmd) where
  pub view-set_at :
      (q : StringPool) (i : ℕ) (r s : CacheRec) (x : String)
      → get_elem? recs i ≡ some r
      → s.cmd ≡ r.cmd
      → IsIndexed q
      → Within p q
      → IsStored q s
      → view q (set_at i s recs) x
        ≡ (if text_at p r.cmd == x then some (row_of q s) else view p recs x)
  view-set_at q i r s x at same indexed w new =
      let k = set_at-IsShelved p q recs by_cmd i r s h at same indexed w new in
      let law = λ (j : ℕ). get_elem?-set_at i s recs j (get_elem?-lt recs i r at) in
      let text : text_at q s.cmd ≡ text_at p r.cmd =
        rw same (text_at-Within p q r.cmd w (h.stored i r at).cmd) in
      elim (Bool-cases (text_at p r.cmd == x)) [
        | inl t ↦
            rw t
              (view_found k i s x (ground (arith, law i)) (text ∙ (eq_iff (text_at p r.cmd) x).0 t))
        | inr f ↦ rw f (
            view_transfer x h k w
              (λ j t there e. (j, ground (arith, law j, eq_iff (text_at p r.cmd) x)))
              (λ j t there e. (j, ground (arith, law j, eq_iff (text_at p r.cmd) x))))
      ]

  pub view-push :
      (q : StringPool) (s : CacheRec) (x : String)
      → find s.cmd by_cmd ≡ none
      → IsIndexed q
      → Within p q
      → IsStored q s
      → view q (recs ++ s ∷ []) x
        ≡ (if text_at q s.cmd == x then some (row_of q s) else view p recs x)
  view-push q s x fresh indexed w new =
      let k = push-IsShelved p q recs by_cmd s h fresh indexed w new in
      elim (Bool-cases (text_at q s.cmd == x)) [
        | inl t ↦ rw t (
            view_found k (length recs) s x (get_elem?-last recs s)
              ((eq_iff (text_at q s.cmd) x).0 t))
        | inr f ↦ rw f (
            view_transfer x h k w (λ j t there e. (j, get_elem?-append recs s j t there))
              (λ j t there e. elim (get_elem?-snoc recs s j t there) [
                | inl old ↦ (j, old)
                | inr (last, it) ↦ ground (arith, eq_iff (text_at q s.cmd) x)
              ]))
      ]

  pub view-swap_remove :
      (i : ℕ) (r l : CacheRec) (x : String)
      → get_elem? recs i ≡ some r
      → get_elem? recs (length recs - 1) ≡ some l
      → view p (swap_remove i l recs) x ≡ (if text_at p r.cmd == x then none else view p recs x)
  view-swap_remove i r l x at end =
      let last = length recs - 1 in
      let k = swap_remove-IsShelved p recs by_cmd i r l h at end in
      let law = λ (j : ℕ). get_elem?-swap_remove i r l recs j at in
      elim (Bool-cases (text_at p r.cmd == x)) [
        | inl t ↦ rw t (
            view_none p (swap_remove i l recs) x
              (λ j s there e. absent j s there (e ∙ sym ((eq_iff (text_at p r.cmd) x).0 t))))
        | inr f ↦ rw f (
            view_transfer x h k (λ j s there. there)
              (λ j t there e. elim (Bool-cases (eqb j last)) [
                | inl y ↦
                    (i, ground (arith, law i, eq_iff (text_at p r.cmd) x, get_elem?-lt recs i r at))
                | inr n ↦ (
                  j,
                  ground (arith, law j, eq_iff (text_at p r.cmd) x, get_elem?-lt recs j t there),
                )
              ])
              (λ j t there e. elim (Bool-cases (eqb i j)) [
                | inl y ↦ (last, ground (arith, law j))
                | inr n ↦ (j, ground (arith, law j))
              ]))
      ]
    where
      absent :
          (j : ℕ) (s : CacheRec)
          → get_elem? (swap_remove i l recs) j ≡ some s
          → text_at p s.cmd ≡ text_at p r.cmd
          → ⊥
      absent j s there e =
          let last = length recs - 1 in
          let moved = if eqb i last then by_cmd else put l.cmd i by_cmd in
          let k = swap_remove-IsShelved p recs by_cmd i r l h at end in
          let held = k.stored j s there in
          let same : s.cmd ≡ r.cmd =
            text_at_injective p s.cmd r.cmd h.indexed held.cmd (h.stored i r at).cmd e in
          ground (arith, k.found j s there, find-remove r.cmd r.cmd moved)
