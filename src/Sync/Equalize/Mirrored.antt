-- ===== src/Sync/Equalize/Mirrored.antt =====
-- What the copies do to all endpoints, for internal/sync/equalize/equalize.go.
use remnix.Sync.Equalize.Steps.{
  Gets-first, Gets-later, first_object, first_object-Kept, first_object-source, source_of-first,
  Kept-trans, Gets,
}
use remnix.Prelude.{
  Option-cases, String, true, false, List, [], ◌∷◌, ◌++◌, Option, some, ◌==◌, ◌≡◌, ◌⊎◌, inl, inr,
  refl, arith, eq_iff, Bool-cases, ◌∙◌, sym, ap, subst, ◌≢◌,
}
use remnix.Prelude.Int.{ℤ}
use remnix.Prelude.Result.{Result, ok, err, Result-cases}
use remnix.Sync.Transport.{Bytes, Transport}
use remnix.Sync.Transport.Laws.{Clean, Lawful, is_clean, object_of}
use remnix.Sync.Gc.Layout.{is_seen}
use remnix.Sync.Equalize.{
  Site, source_of, all_have, copy_to, copy_all, copy_key, copy_keys, get_failed,
}
use remnix.Sync.Equalize.Each.{Each, Each-same, Each-comp, Each-both}
use remnix.Sync.Equalize.Copied.{IsPlain, Kept, copy_to-Copied, copy_to-seen}

pub ++-eq-nil {ℓ} : {A : Type ℓ} (xs ys : List A) → xs ++ ys ≡ [] → (xs ≡ []) × (ys ≡ [])
++-eq-nil [] ys h = (refl, h)
++-eq-nil (x ∷ xs) ys h = cc

other_key :
    (k key : String) (have : List String)
    → is_seen key have ≡ false
    → (is_seen k have ≡ true) ⊎ (is_seen k (key ∷ []) ≡ false)
    → k ≢ key
other_key k key have new (inl seen) e = cc
other_key k key have new (inr other) e = ground (arith, eq_iff key k)

module _ (t : Transport) (read_counter : Bytes → Option ℤ) (lawful : Lawful t) where
  copy_to-Kept :
      (key : String) (raw : Bytes) (s : Site t)
      → is_clean key ≡ true
      → Kept t read_counter (key ∷ []) s (copy_to t read_counter key raw s).1
  copy_to-Kept key raw s clean = elim (Bool-cases (is_seen key s.have)) [
    | inl seen ↦ rw (copy_to-seen t read_counter lawful key raw s seen) (refl, refl, λ k p h. refl)
    | inr new ↦
        (let c = copy_to-Copied t read_counter lawful key raw s clean new in
          (c.0, c.1, λ k p h. c.2 k p (other_key k key s.have new h)))
  ]

  copy_all-Kept :
      (key : String) (raw : Bytes) (sites : List (Site t))
      → is_clean key ≡ true
      → Each (Kept t read_counter (key ∷ [])) sites (copy_all t read_counter key raw sites).1
  unfolding copy_all
  copy_all-Kept key raw [] clean = tt
  copy_all-Kept key raw (s ∷ ss) clean =
      (copy_to-Kept key raw s clean, copy_all-Kept key raw ss clean)

  copy_all-Gets :
      (key : String) (raw : Bytes) (sites : List (Site t))
      → is_clean key ≡ true
      → (copy_all t read_counter key raw sites).0 ≡ []
      → Each
          (Gets t read_counter key (key ∷ []) (some raw))
          sites
          (copy_all t read_counter key raw sites).1
  unfolding copy_all
  copy_all-Gets key raw [] clean h = tt
  copy_all-Gets key raw (s ∷ ss) clean h =
      let both =
        ++-eq-nil (copy_to t read_counter key raw s).0 (copy_all t read_counter key raw ss).0 h in
      (
        λ new seen.
            (raw, refl, (copy_to-Copied t read_counter lawful key raw s clean new).3 both.0),
        copy_all-Gets key raw ss clean both.1,
      )

  copy_key-Kept :
      (key : String) (sites : List (Site t))
      → is_clean key ≡ true
      → Each (Kept t read_counter (key ∷ [])) sites (copy_key t read_counter key sites).1
  unfolding copy_key
  copy_key-Kept key sites clean =
      let same =
        Each-same (Kept t read_counter (key ∷ [])) sites (λ s. (refl, refl, λ k p h. refl)) in
      elim (Bool-cases (all_have t key sites)) [
        | inl all ↦ rw all same
        | inr some_lack ↦ elim (Option-cases (source_of t key sites)) [
          | inl e ↦ rw (some_lack, e) same
          | inr ((id, err f), e) ↦ rw (some_lack, e) same
          | inr ((id, ok raw), e) ↦ rw (some_lack, e) (copy_all-Kept key raw sites clean)
        ]
      ]

  all_have-Gets :
      (key : String) (object : Option Bytes) (sites : List (Site t))
      → all_have t key sites ≡ true
      → Each (Gets t read_counter key (key ∷ []) object) sites sites
  unfolding all_have
  all_have-Gets key object [] h = tt
  all_have-Gets key object (s ∷ ss) h =
      let both : (is_seen key s.have ≡ true) × (all_have t key ss ≡ true) = ground arith in
      (
        λ new seen. (let has : is_seen key s.have ≡ true = both.0 in cc),
        all_have-Gets key object ss both.1,
      )

  copy_key-Gets :
      (key : String) (sites : List (Site t)) (id : String) (answer : Result Bytes)
      → is_clean key ≡ true
      → source_of t key sites ≡ some (id, answer)
      → (copy_key t read_counter key sites).0 ≡ []
      → Each
          (Gets t read_counter key (key ∷ []) (object_of answer))
          sites
          (copy_key t read_counter key sites).1
  unfolding copy_key
  copy_key-Gets key sites id answer clean e h = elim (Bool-cases (all_have t key sites)) [
    | inl all ↦ rw all (all_have-Gets key (object_of answer) sites all)
    | inr some_lack ↦ elim (Result-cases answer) [
      | inl (raw, is_raw) ↦
          (let same : copy_key t read_counter key sites ≡ copy_all t read_counter key raw sites =
              rw (some_lack, e, is_raw) refl in
            rw (same, is_raw) (copy_all-Gets key raw sites clean (ap (λ r. r.0) (sym same) ∙ h)))
      | inr (f, failing) ↦
          (let same : copy_key t read_counter key sites ≡ (get_failed id key f ∷ [], sites) =
              rw (some_lack, e, failing) refl in
            cc)
    ]
  ]

  pub copy_keys-Kept :
      (keys : List String) (sites : List (Site t))
      → Clean keys
      → Each (Kept t read_counter keys) sites (copy_keys t read_counter keys sites).1
  unfolding copy_keys
  copy_keys-Kept [] sites clean =
      Each-same (Kept t read_counter []) sites (λ s. (refl, refl, λ k p h. refl))
  copy_keys-Kept (key ∷ keys) sites clean =
      let one = copy_key t read_counter key sites in
      Each-comp (Kept t read_counter (key ∷ [])) (Kept t read_counter keys)
        (Kept t read_counter (key ∷ keys)) sites one.1 (copy_keys t read_counter keys one.1).1
        (Kept-trans t read_counter key keys) (copy_key-Kept key sites clean.0)
        (copy_keys-Kept keys one.1 clean.1)

  pub copy_keys-Gets :
      (keys : List String) (sites : List (Site t)) (k : String) (object : Option Bytes)
      → Clean keys
      → IsPlain k
      → first_object t read_counter k sites ≡ some object
      → (copy_keys t read_counter keys sites).0 ≡ []
      → Each (Gets t read_counter k keys object) sites (copy_keys t read_counter keys sites).1
  unfolding copy_keys
  copy_keys-Gets [] sites k object clean plain e h =
      Each-same (Gets t read_counter k [] object) sites (λ s new seen. cc)
  copy_keys-Gets (key ∷ keys) sites k object clean plain e h =
      let one = copy_key t read_counter key sites in
      let rest = copy_keys t read_counter keys one.1 in
      let both = ++-eq-nil one.0 rest.0 h in
      let kept = copy_key-Kept key sites clean.0 in
      let later =
        copy_keys-Gets keys one.1 k object clean.1 plain
          (first_object-Kept t read_counter k (key ∷ []) sites one.1 plain kept ∙ e) both.1 in
      elim (Bool-cases (key == k)) [
        | inr other ↦
            Each-comp (Kept t read_counter (key ∷ [])) (Gets t read_counter k keys object)
              (Gets t read_counter k (key ∷ keys) object) sites one.1 rest.1
              (λ x y z. Gets-later t read_counter k key keys object x y z plain other) kept later
        | inl same ↦
            (let is_k = (eq_iff key k).0 same in
              let (x, found) = source_of-first t read_counter k object sites e in
              let read : object_of x.1 ≡ object =
                cc (sym (first_object-source t read_counter k sites x.0 x.1 found) ∙ e) in
              let first : Each (Gets t read_counter key (key ∷ []) object) sites one.1 =
                subst (λ o. Each (Gets t read_counter key (key ∷ []) o) sites one.1) read
                  (copy_key-Gets key sites x.0 x.1 clean.0
                    (ap (λ i. source_of t i sites) is_k ∙ found) both.0) in
              Each-comp
                (λ x y.
                  Kept t read_counter (key ∷ []) x y
                  × Gets t read_counter key (key ∷ []) object x y)
                (λ y z. Kept t read_counter keys y z × Gets t read_counter k keys object y z)
                (Gets t read_counter k (key ∷ keys) object) sites one.1 rest.1
                (λ x y z p q.
                  subst
                    (λ j.
                      Kept t read_counter (j ∷ []) x y
                      → Gets t read_counter j (j ∷ []) object x y
                      → Gets t read_counter k (j ∷ keys) object x z)
                    (sym is_k)
                    (λ kp fp. Gets-first t read_counter k keys object x y z plain kp fp q.0 q.1) p.0
                    p.1)
                (Each-both (Kept t read_counter (key ∷ []))
                  (Gets t read_counter key (key ∷ []) object) sites one.1 kept first)
                (Each-both (Kept t read_counter keys) (Gets t read_counter k keys object) one.1
                  rest.1 (copy_keys-Kept keys one.1 clean.1) later))
      ]
