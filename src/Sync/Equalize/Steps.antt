-- ===== src/Sync/Equalize/Steps.antt =====
-- One endpoint over several copies, for internal/sync/equalize/equalize.go.
use remnix.Prelude.{
  if◌then◌else◌, none, some, String, true, false, List, [], ◌∷◌, Option, ◌==◌, ◌≡◌, inl, inr, refl,
  arith, eq_iff, Bool-cases, ◌∙◌, sym, ap,
}
use remnix.Prelude.Int.{ℤ}
use remnix.Prelude.Result.{Result}
use remnix.Sync.Transport.{Bytes, Transport}
use remnix.Sync.Transport.Laws.{object_of}
use remnix.Sync.Gc.Layout.{is_seen}
use remnix.Sync.Equalize.{Site, source_of}
use remnix.Sync.Equalize.Each.{Each}
use remnix.Sync.Equalize.Copied.{Placed, Kept, object_at, IsPlain}

unseen_both :
    (k key : String) (keys : List String)
    → is_seen k (key ∷ keys) ≡ false
    → (is_seen k (key ∷ []) ≡ false) × (is_seen k keys ≡ false)
unseen_both k key keys h = ground arith

module _ (t : Transport) (read_counter : Bytes → Option ℤ) where
  -- What an endpoint without the object gets, where `object` is what the first one that has it
  -- answers.
  abbrev pub Gets : String → List String → Option Bytes → Site t → Site t → Type 0
  Gets k keys object s s' =
      is_seen k s.have ≡ false
      → is_seen k keys ≡ true
      → (raw : Bytes) × (object ≡ some raw) × Placed t read_counter k raw s s'

  Placed-same :
      (k : String) (raw : Bytes) (x y z : Site t)
      → object_at t read_counter z k ≡ object_at t read_counter y k
      → Placed t read_counter k raw x y
      → Placed t read_counter k raw x z
  Placed-same k raw x y z e (inl p) = inl (e ∙ p)
  Placed-same k raw x y z e (inr (m, old, g, le, p)) = inr (m, old, g, le, e ∙ p)

  Placed-before :
      (k : String) (raw : Bytes) (x y z : Site t)
      → object_at t read_counter y k ≡ object_at t read_counter x k
      → Placed t read_counter k raw y z
      → Placed t read_counter k raw x z
  Placed-before k raw x y z e (inl p) = inl p
  Placed-before k raw x y z e (inr (m, old, g, le, p)) = inr (m, old, sym e ∙ g, le, p)

  pub Gets-later :
      (k key : String) (keys : List String) (a : Option Bytes) (x y z : Site t)
      → IsPlain k
      → key == k ≡ false
      → Kept t read_counter (key ∷ []) x y
      → Gets k keys a y z
      → Gets k (key ∷ keys) a x z
  Gets-later k key keys a x y z p n kept gets new seen =
      let other : is_seen k (key ∷ []) ≡ false = rw n refl in
      let got = gets (ap (is_seen k) kept.1 ∙ new) (ground arith) in
      (got.0, got.1, Placed-before k got.0 x y z (kept.2 k p (inr other)) got.2)

  pub Gets-first :
      (k : String) (keys : List String) (a : Option Bytes) (x y z : Site t)
      → IsPlain k
      → Kept t read_counter (k ∷ []) x y
      → Gets k (k ∷ []) a x y
      → Kept t read_counter keys y z
      → Gets k keys a y z
      → Gets k (k ∷ keys) a x z
  Gets-first k keys a x y z plain kept first later gets new seen =
      let got = first new (ground (arith, eq_iff k k)) in
      elim (Bool-cases (is_seen k keys)) [
        | inr unseen ↦
            (got.0, got.1, Placed-same k got.0 x y z (later.2 k plain (inr unseen)) got.2)
        | inl again ↦
            (let more = gets (ap (is_seen k) kept.1 ∙ new) again in
              elim more.2 [
                | inl p ↦ (more.0, more.1, inl p)
                | inr (m, old, g, le, p) ↦
                    (got.0, got.1, Placed-same k got.0 x y z (p ∙ sym g) got.2)
              ])
      ]

  pub Kept-trans :
      (key : String) (keys : List String) (x y z : Site t)
      → Kept t read_counter (key ∷ []) x y
      → Kept t read_counter keys y z
      → Kept t read_counter (key ∷ keys) x z
  Kept-trans key keys x y z p q = (
    q.0 ∙ p.0,
    q.1 ∙ p.1,
    λ k plain h. elim h [
      | inl seen ↦ q.2 k plain (inl (ap (is_seen k) p.1 ∙ seen)) ∙ p.2 k plain (inl seen)
      | inr unseen ↦
          (let both = unseen_both k key keys unseen in
            q.2 k plain (inr both.1) ∙ p.2 k plain (inr both.0))
    ],
  )

  -- What the first endpoint whose listing shows the object has.
  unfoldable pub first_object : String → List (Site t) → Option (Option Bytes)
  first_object k [] = none
  first_object k (s ∷ ss) =
      let later = first_object k ss in
      if is_seen k s.have then some (object_at t read_counter s k) else later

  pub first_object-Kept :
      (k : String) (keys : List String) (xs ys : List (Site t))
      → IsPlain k
      → Each (Kept t read_counter keys) xs ys
      → first_object k ys ≡ first_object k xs
  unfolding first_object
  first_object-Kept k keys [] [] plain h = refl
  first_object-Kept k keys [] (y ∷ ys) plain h = elim h [ ]
  first_object-Kept k keys (x ∷ xs) [] plain h = elim h [ ]
  first_object-Kept k keys (x ∷ xs) (y ∷ ys) plain h = elim (Bool-cases (is_seen k x.have)) [
    | inl seen ↦ rw (h.0.1, seen) (ap some (h.0.2 k plain (inl seen)))
    | inr unseen ↦ rw (h.0.1, unseen) (first_object-Kept k keys xs ys plain h.1)
  ]

  pub first_object-source :
      (k : String) (sites : List (Site t)) (id : String) (answer : Result Bytes)
      → source_of t k sites ≡ some (id, answer)
      → first_object k sites ≡ some (object_of answer)
  unfolding first_object source_of
  first_object-source k [] id answer h = cc h
  first_object-source k (s ∷ ss) id answer h = elim (Bool-cases (is_seen k s.have)) [
    | inl seen ↦
        (let open_ : source_of t k (s ∷ ss) ≡ some (s.id, (t.view s.remote).get k) = rw seen refl in
          let same : (t.view s.remote).get k ≡ answer = cc (sym open_ ∙ h) in rw (seen, same) refl)
    | inr unseen ↦
        (let open_ : source_of t k (s ∷ ss) ≡ source_of t k ss = rw unseen refl in
          rw unseen (first_object-source k ss id answer (sym open_ ∙ h)))
  ]

  pub source_of-first :
      (k : String) (object : Option Bytes) (sites : List (Site t))
      → first_object k sites ≡ some object
      → (x : String × Result Bytes) × (source_of t k sites ≡ some x)
  unfolding first_object source_of
  source_of-first k object [] h = absurd (cc h)
  source_of-first k object (s ∷ ss) h = elim (Bool-cases (is_seen k s.have)) [
    | inl seen ↦ ((s.id, (t.view s.remote).get k), rw seen refl)
    | inr unseen ↦
        (let open_ : first_object k (s ∷ ss) ≡ first_object k ss = rw unseen refl in
          let found = source_of-first k object ss (sym open_ ∙ h) in (found.0, rw unseen found.1))
  ]
