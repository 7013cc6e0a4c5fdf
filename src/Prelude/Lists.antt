-- ===== src/Prelude/Lists.antt =====
-- Lists measured and indexed by native numbers, and predicates on all or some of their elements.
use remnix.Prelude.Tests.{if◌then◌else◌, ltb, eqb}
use mathlib.Core.Bool.{Bool, true, false}
use Prim.Native.Nat.{ℕ, zero, suc, ◌+◌, ◌<◌}
use mathlib.Core.Path.{◌≡◌, refl, ◌∙◌}
use mathlib.Core.Logic.{◌⊎◌, inl, inr}
use mathlib.Core.List.{List, [], ◌∷◌, ◌++◌, map}
use mathlib.Core.Option.{Option, none, some}
use native.Mathlib.Omega.{arith}

module _ {ℓ} {A : Type ℓ} where
  abbrev pub length : List A → ℕ
  length [] = 0
  length (x ∷ xs) = suc (length xs)

  abbrev pub get_elem? : List A → ℕ → Option A
  get_elem? [] i = none
  get_elem? (x ∷ xs) zero = some x
  get_elem? (x ∷ xs) (suc i) = get_elem? xs i

  -- Without the first elements; past the end there is nothing.
  unfoldable pub drop : ℕ → List A → List A
  drop zero xs = xs
  drop (suc n) [] = []
  drop (suc n) (x ∷ xs) = drop n xs

  -- The list with the element at a place replaced.
  unfoldable pub set_at : ℕ → A → List A → List A
  set_at n y [] = []
  set_at zero y (x ∷ xs) = y ∷ xs
  set_at (suc n) y (x ∷ xs) = x ∷ set_at n y xs

  pub length-append : (xs ys : List A) → length (xs ++ ys) ≡ length xs + length ys
  length-append [] ys = omega arith
  length-append (x ∷ xs) ys = omega (arith, length-append xs ys)

  -- Every element satisfies the predicate.
  abbrev pub All {κ} : (A → Type κ) → List A → Type κ
  All P [] = Unit
  All P (x ∷ xs) = P x × All P xs

-- The element stands in the list, at a place that the proof names.
abbrev pub In : {A : Type 0} → A → List A → Type 0
In a [] = ⊥
In a (x ∷ xs) = (a ≡ x) ⊎ In a xs

module _ {ℓ κ} {A : Type ℓ} (P : A → Type κ) where
  pub All-append : (xs ys : List A) → All P xs → All P ys → All P (xs ++ ys)
  All-append [] ys hx hy = hy
  All-append (x ∷ xs) ys hx hy = (hx.0, All-append xs ys hx.1 hy)

pub All-In {κ} : {A : Type 0} (P : A → Type κ) (a : A) (xs : List A) → All P xs → In a xs → P a
All-In P a [] h i = absurd i
All-In P a (x ∷ xs) h (inl e) = rw e h.0
All-In P a (x ∷ xs) h (inr i) = All-In P a xs h.1 i

-- The element of a list that a test has put an element in front of.
pub In-cons_if :
    {A : Type 0} (k o : A) (b : Bool) (rest : List A)
    → In k (if b then o ∷ rest else rest)
    → ((b ≡ true) × (k ≡ o)) ⊎ In k rest
In-cons_if k o true rest (inl e) = inl (refl, e)
In-cons_if k o true rest (inr i) = inr i
In-cons_if k o false rest i = inr i

pub All-map {ℓ κ μ} :
    {A : Type ℓ} (P : A → Type κ) (Q : A → Type μ) (xs : List A)
    → ((a : A) → P a → Q a)
    → All P xs
    → All Q xs
All-map P Q [] f h = tt
All-map P Q (x ∷ xs) f h = (f x h.0, All-map P Q xs f h.1)

module _ {ℓ} {A : Type ℓ} where
  pub get_elem?-lt : (xs : List A) (i : ℕ) (x : A) → get_elem? xs i ≡ some x → i < length xs
  get_elem?-lt [] i x h = cc h
  get_elem?-lt (y ∷ ys) zero x h = omega arith
  get_elem?-lt (y ∷ ys) (suc i) x h = omega (arith, get_elem?-lt ys i x h)

  pub get_elem?-of_lt : (xs : List A) (i : ℕ) → i < length xs → (x : A) × (get_elem? xs i ≡ some x)
  get_elem?-of_lt [] i h = elim h [ ]
  get_elem?-of_lt (y ∷ ys) zero h = (y, refl)
  get_elem?-of_lt (y ∷ ys) (suc i) h = get_elem?-of_lt ys i (omega arith)

  pub get_elem?-append :
      (xs : List A) (x : A) (i : ℕ) (y : A)
      → get_elem? xs i ≡ some y
      → get_elem? (xs ++ x ∷ []) i ≡ some y
  get_elem?-append [] x i y h = cc h
  get_elem?-append (z ∷ zs) x zero y h = h
  get_elem?-append (z ∷ zs) x (suc i) y h = get_elem?-append zs x i y h

  pub get_elem?-last : (xs : List A) (x : A) → get_elem? (xs ++ x ∷ []) (length xs) ≡ some x
  get_elem?-last [] x = refl
  get_elem?-last (z ∷ zs) x = get_elem?-last zs x

  pub get_elem?-snoc :
      (xs : List A) (x : A) (i : ℕ) (y : A)
      → get_elem? (xs ++ x ∷ []) i ≡ some y
      → (get_elem? xs i ≡ some y) ⊎ ((i ≡ length xs) × (x ≡ y))
  get_elem?-snoc [] x zero y h = inr (refl, cc h)
  get_elem?-snoc [] x (suc i) y h = cc h
  get_elem?-snoc (z ∷ zs) x zero y h = inl h
  get_elem?-snoc (z ∷ zs) x (suc i) y h = elim (get_elem?-snoc zs x i y h) [
    | inl f ↦ inl f
    | inr (e, f) ↦ inr (omega arith, f)
  ]

  -- A list cut off after its first elements.
  unfoldable pub take : ℕ → List A → List A
  take zero xs = []
  take (suc n) [] = []
  take (suc n) (x ∷ xs) = x ∷ take n xs

  pub get_elem?-take :
      (n : ℕ) (xs : List A) (i : ℕ)
      → get_elem? (take n xs) i ≡ (if ltb i n then get_elem? xs i else none)
  unfolding take
  get_elem?-take zero xs i = ground arith
  get_elem?-take (suc n) [] i = ground arith
  get_elem?-take (suc n) (x ∷ xs) zero = ground arith
  get_elem?-take (suc n) (x ∷ xs) (suc i) = get_elem?-take n xs i ∙ ground arith

  pub get_elem?-set_at :
      (i : ℕ) (y : A) (xs : List A) (j : ℕ)
      → i < length xs
      → get_elem? (set_at i y xs) j ≡ (if eqb i j then some y else get_elem? xs j)
  unfolding set_at
  get_elem?-set_at i y [] j h = elim h [ ]
  get_elem?-set_at zero y (x ∷ xs) zero h = refl
  get_elem?-set_at zero y (x ∷ xs) (suc j) h = ground arith
  get_elem?-set_at (suc i) y (x ∷ xs) zero h = ground arith
  get_elem?-set_at (suc i) y (x ∷ xs) (suc j) h =
      get_elem?-set_at i y xs j (omega arith) ∙ ground arith

module _ {ℓ κ} {A : Type ℓ} {B : Type κ} (f : A → B) where
  pub get_elem?-map :
      (xs : List A) (i : ℕ) (x : A) → get_elem? xs i ≡ some x → get_elem? (map f xs) i ≡ some (f x)
  get_elem?-map [] i x h = cc h
  get_elem?-map (y ∷ ys) zero x h = cc h
  get_elem?-map (y ∷ ys) (suc i) x h = get_elem?-map ys i x h

  pub get_elem?-unmap :
      (xs : List A) (i : ℕ) (y : B)
      → get_elem? (map f xs) i ≡ some y
      → (x : A) × (get_elem? xs i ≡ some x) × (f x ≡ y)
  get_elem?-unmap [] i y h = cc h
  get_elem?-unmap (x ∷ xs) zero y h = (x, refl, cc h)
  get_elem?-unmap (x ∷ xs) (suc i) y h = get_elem?-unmap xs i y h

  pub length-map : (xs : List A) → length (map f xs) ≡ length xs
  length-map [] = refl
  length-map (x ∷ xs) = omega (arith, length-map xs)

  pub map-snoc : (xs : List A) (x : A) → map f (xs ++ x ∷ []) ≡ map f xs ++ f x ∷ []
  map-snoc [] x = refl
  map-snoc (y ∷ ys) x = rw (map-snoc ys x) refl

  pub map-set_at : (i : ℕ) (y : A) (xs : List A) → map f (set_at i y xs) ≡ set_at i (f y) (map f xs)
  unfolding set_at
  map-set_at n y [] = refl
  map-set_at zero y (x ∷ xs) = refl
  map-set_at (suc n) y (x ∷ xs) = rw (map-set_at n y xs) refl

  pub map-take : (n : ℕ) (xs : List A) → map f (take n xs) ≡ take n (map f xs)
  unfolding take
  map-take zero xs = refl
  map-take (suc n) [] = refl
  map-take (suc n) (x ∷ xs) = rw (map-take n xs) refl
