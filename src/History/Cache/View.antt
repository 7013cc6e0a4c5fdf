-- ===== src/History/Cache/View.antt =====
-- internal/history/cache.go: what the records say of each command, whatever their places are.
use remnix.Prelude.{
  get_elem?, String, ℕ, zero, suc, false, List, [], ◌∷◌, Option, none, some, ◌==◌, if◌then◌else◌,
  arith, ◌≡◌, refl, sym, ap, ◌∙◌, Bool-cases, inl, inr, eq_iff, ◌⊎◌, ◌≢◌,
}
use remnix.Prelude.IntMap.{IntMap}
use remnix.History.Cache.Pool.{StringPool, text_at, Within, text_at-Within, text_at_injective}
use remnix.History.Cache.{CacheRec}
use remnix.History.Cache.Plain.{Row}
use remnix.History.Cache.Shelf.{IsStored, IsShelved, IsShelved-unique}

unfoldable pub row_of : StringPool → CacheRec → Row
row_of p r = record {
  cwd = text_at p r.cwd;
  device = text_at p r.device;
  session = text_at p r.session;
  last_start = r.last_start;
  last_duration_ms = r.last_duration_ms;
  last_exit = r.last_exit;
  freq = r.freq;
}

unfoldable pub view : StringPool → List CacheRec → String → Option Row
view p [] q = none
view p (r ∷ rs) q =
    let later = view p rs q in if text_at p r.cmd == q then some (row_of p r) else later

pub row_of-Within :
    (p q : StringPool) (r : CacheRec) → Within p q → IsStored p r → row_of q r ≡ row_of p r
unfolding row_of
row_of-Within p q r w s =
    rw
      (
        text_at-Within p q r.cwd w s.cwd,
        text_at-Within p q r.device w s.device,
        text_at-Within p q r.session w s.session,
      )
      refl

view_at :
    (p : StringPool) (recs : List CacheRec) (q : String) (i : ℕ) (r : CacheRec)
    → get_elem? recs i ≡ some r
    → text_at p r.cmd ≡ q
    → ((j : ℕ) (s : CacheRec) → get_elem? recs j ≡ some s → text_at p s.cmd ≡ q → j ≡ i)
    → view p recs q ≡ some (row_of p r)
unfolding view
view_at p [] q i r at e only = cc at
view_at p (x ∷ xs) q zero r at e only = ground (arith, eq_iff (text_at p x.cmd) q)
view_at p (x ∷ xs) q (suc i) r at e only = elim (Bool-cases (text_at p x.cmd == q)) [
  | inl t ↦ ground (arith, only 0 x refl ((eq_iff (text_at p x.cmd) q).0 t))
  | inr f ↦ rw (f, view) (view_at p xs q i r at e (λ j s h k. ground (arith, only (suc j) s h k)))
]

pub view_none :
    (p : StringPool) (recs : List CacheRec) (q : String)
    → ((j : ℕ) (s : CacheRec) → get_elem? recs j ≡ some s → text_at p s.cmd ≢ q)
    → view p recs q ≡ none
unfolding view
view_none p [] q absent = refl
view_none p (x ∷ xs) q absent = elim (Bool-cases (text_at p x.cmd == q)) [
  | inl t ↦ absurd (absent 0 x refl ((eq_iff (text_at p x.cmd) q).0 t))
  | inr f ↦ rw (f, view) (view_none p xs q (λ j s h. absent (suc j) s h))
]

-- A command has a record, or none has it.
pub view_cases :
    (p : StringPool) (recs : List CacheRec) (q : String)
    → ((i : ℕ) × (r : CacheRec) × (get_elem? recs i ≡ some r) × (text_at p r.cmd ≡ q))
      ⊎ ((j : ℕ) (s : CacheRec) → get_elem? recs j ≡ some s → text_at p s.cmd ≢ q)
view_cases p [] q = inr (λ j s h. cc h)
view_cases p (x ∷ xs) q = elim (Bool-cases (text_at p x.cmd == q)) [
  | inl t ↦ inl (0, x, refl, (eq_iff (text_at p x.cmd) q).0 t)
  | inr f ↦ elim (view_cases p xs q) [
    | inl (i, r, at, e) ↦ inl (suc i, r, at, e)
    | inr absent ↦ inr (not_first absent f)
  ]
]
  where
    not_first :
        ((j : ℕ) (s : CacheRec) → get_elem? xs j ≡ some s → text_at p s.cmd ≢ q)
        → (text_at p x.cmd == q) ≡ false
        → (j : ℕ) (s : CacheRec) → get_elem? (x ∷ xs) j ≡ some s
        → text_at p s.cmd ≢ q
    not_first absent f zero s h = λ e. ground (arith, eq_iff (text_at p x.cmd) q)
    not_first absent f (suc j) s h = absent j s h

module _ {p : StringPool} {recs : List CacheRec} {by_cmd : IntMap ℕ}
    (h : IsShelved p recs by_cmd) where
  pub same_cmd :
      (i j : ℕ) (r s : CacheRec)
      → get_elem? recs i ≡ some r
      → get_elem? recs j ≡ some s
      → text_at p s.cmd ≡ text_at p r.cmd
      → s.cmd ≡ r.cmd
  same_cmd i j r s at there e =
      text_at_injective p s.cmd r.cmd h.indexed (h.stored j s there).cmd (h.stored i r at).cmd e

  pub view_found :
      (i : ℕ) (r : CacheRec) (q : String)
      → get_elem? recs i ≡ some r
      → text_at p r.cmd ≡ q
      → view p recs q ≡ some (row_of p r)
  view_found i r q at e = view_at p recs q i r at e (λ j s there k.
      IsShelved-unique p recs by_cmd j i s r h there at (same_cmd i j r s at there (k ∙ sym e)))

-- Where the same records have a command, they say the same of it.
pub view_transfer :
    {p q : StringPool} {recs news : List CacheRec} {m n : IntMap ℕ} (x : String)
    → IsShelved p recs m
    → IsShelved q news n
    → Within p q
    → ((i : ℕ) (r : CacheRec)
        → get_elem? recs i ≡ some r
        → text_at p r.cmd ≡ x
        → (j : ℕ) × (get_elem? news j ≡ some r))
    → ((j : ℕ) (s : CacheRec)
        → get_elem? news j ≡ some s
        → text_at q s.cmd ≡ x
        → (i : ℕ) × (get_elem? recs i ≡ some s))
    → view q news x ≡ view p recs x
view_transfer {p} {q} {recs} {news} x h k w keep back = elim (view_cases p recs x) [
  | inl (i, r, at, e) ↦
      let (j, there) = keep i r at e in
      let stored = h.stored i r at in
      view_found k j r x there (text_at-Within p q r.cmd w stored.cmd ∙ e)
      ∙ row_eq r stored
      ∙ sym (view_found h i r x at e)
  | inr absent ↦
      view_none q news x (λ j s there e.
        let (i, at) = back j s there e in
        absent i s at (sym (text_at-Within p q s.cmd w (h.stored i s at).cmd) ∙ e))
      ∙ sym (view_none p recs x absent)
]
  where
    row_eq : (r : CacheRec) → IsStored p r → some (row_of q r) ≡ some (row_of p r)
    row_eq r s = ap some (row_of-Within p q r w s)
