-- ===== src/History/Cache/Pool.antt =====
-- internal/history/cache.go: the pool of texts, each held once. A place in it is an `int32` of the
-- program and never negative; 2 ^ 31 texts are more than memory holds.
use remnix.Prelude.{
  get_elem?, get_elem?-append, get_elem?-last, get_elem?-snoc, String, ℕ, List, [], ◌∷◌, ◌++◌, none,
  some, ◌==◌, arith, ◌≡◌, refl, sym, ◌∙◌, Bool-cases, Option-cases, inl, inr, eq_iff, ◌↔◌, length,
}
use remnix.Prelude.Dict.{Dict, lookup, insert, lookup-insert}

pub record StringPool : Type 0 where
  pub strs : List String
  pub ids : Dict ℕ

abbrev pub new_string_pool : StringPool
new_string_pool = record { strs = []; ids = [] }

unfoldable pub intern : String → StringPool → ℕ × StringPool
intern s p = elim (lookup s p.ids) [
  | some id ↦ (id, p)
  | none ↦ (length p.strs, record { strs = p.strs ++ s ∷ []; ids = insert s (length p.strs) p.ids })
]

-- A place past the end reads as the empty text.
unfoldable pub text_at : StringPool → ℕ → String
text_at p id = elim (get_elem? p.strs id) [ none ↦ "" | some s ↦ s ]

-- The index gives a text exactly the place where it stands.
abbrev pub IsIndexed : StringPool → Type 0
IsIndexed p = (s : String) (i : ℕ) → (lookup s p.ids ≡ some i) ↔ (get_elem? p.strs i ≡ some s)

abbrev pub Holds : StringPool → ℕ → Type 0
Holds p id = (s : String) × (get_elem? p.strs id ≡ some s)

-- What stands in the first pool stands at the same place in the second.
abbrev pub Within : StringPool → StringPool → Type 0
Within p q = (i : ℕ) (s : String) → get_elem? p.strs i ≡ some s → get_elem? q.strs i ≡ some s

pub text_at_found :
    (p : StringPool) (id : ℕ) (s : String) → get_elem? p.strs id ≡ some s → text_at p id ≡ s
unfolding text_at
text_at_found p id s h = rw (h, text_at) refl

pub text_at-Holds :
    (p : StringPool) (id : ℕ) → Holds p id → get_elem? p.strs id ≡ some (text_at p id)
text_at-Holds p id h = rw (text_at_found p id h.0 h.1) h.1

pub Holds-Within : (p q : StringPool) (id : ℕ) → Within p q → Holds p id → Holds q id
Holds-Within p q id w h = (h.0, w id h.0 h.1)

pub text_at-Within :
    (p q : StringPool) (id : ℕ) → Within p q → Holds p id → text_at q id ≡ text_at p id
text_at-Within p q id w h = text_at_found q id h.0 (w id h.0 h.1) ∙ sym (text_at_found p id h.0 h.1)

-- Two places with one text are one place.
pub text_at_injective :
    (p : StringPool) (i j : ℕ)
    → IsIndexed p
    → Holds p i
    → Holds p j
    → text_at p i ≡ text_at p j
    → i ≡ j
text_at_injective p i j h hi hj e =
    let at_i = (h (text_at p i) i).1 (text_at-Holds p i hi) in
    let at_j = (h (text_at p j) j).1 (text_at-Holds p j hj) in cc (e, at_i, at_j)

pub new_string_pool-IsIndexed : IsIndexed new_string_pool
unfolding lookup
new_string_pool-IsIndexed s i = (λ h. cc h, λ h. cc h)

-- What interning a text gives: the pool with it, at the place returned.
pub record Interned (s : String) (p : StringPool) (r : ℕ × StringPool) : Type 0 where
  pub indexed : IsIndexed r.1
  pub found : get_elem? r.1.strs r.0 ≡ some s
  pub within : Within p r.1

grown-IsIndexed :
    (s : String) (p : StringPool)
    → IsIndexed p
    → lookup s p.ids ≡ none
    → IsIndexed (record { strs = p.strs ++ s ∷ []; ids = insert s (length p.strs) p.ids })
grown-IsIndexed s p h new t i =
    let n = length p.strs in
    let law = lookup-insert s t n p.ids in
    (
      λ f. elim (Bool-cases (s == t)) [
        | inl e ↦
            let same : s ≡ t = (eq_iff s t).0 e in
            let place : n ≡ i = ground arith in rw (← same, ← place) (get_elem?-last p.strs s)
        | inr e ↦
            let old : lookup t p.ids ≡ some i = ground arith in
            get_elem?-append p.strs s i t ((h t i).0 old)
      ],
      λ f. elim (get_elem?-snoc p.strs s i t f) [
        | inl old ↦
            let known = (h t i).1 old in
            elim (Bool-cases (s == t)) [
              | inl e ↦ let same : s ≡ t = (eq_iff s t).0 e in cc (same, known, new)
              | inr e ↦ ground (arith, known)
            ]
        | inr (last, same) ↦ ground (arith, eq_iff s t)
      ],
    )

pub intern-Interned : (s : String) (p : StringPool) → IsIndexed p → Interned s p (intern s p)
unfolding intern
intern-Interned s p h = elim (Option-cases (lookup s p.ids)) [
  | inl e ↦
      rw (e, intern)
        (record {
          indexed = grown-IsIndexed s p h e;
          found = get_elem?-last p.strs s;
          within = λ i t f. get_elem?-append p.strs s i t f;
        })
  | inr (i, e) ↦ rw (e, intern) (record { indexed = h; found = (h s i).0 e; within = λ i t f. f })
]
