-- ===== src/Terminal/Slices.antt =====
-- A Go slice with a head index, as the queues of internal/terminal use it: what waits is the part from
-- the head on.
use remnix.Prelude.{
  ℕ, zero, suc, List, [], ◌∷◌, ◌++◌, Option, none, some, arith, ◌≡◌, refl, drop, set_at, get_elem?,
  length, ◌≤◌, ◌<◌,
}

module _ {A : Type 0} where
  abbrev pub first? : List A → Option A
  first? [] = none
  first? (x ∷ xs) = some x

  abbrev pub others : List A → List A
  others [] = []
  others (x ∷ xs) = xs

  pub get_elem?-drop : (n : ℕ) (xs : List A) → get_elem? xs n ≡ first? (drop n xs)
  unfolding drop
  get_elem?-drop zero [] = refl
  get_elem?-drop zero (x ∷ xs) = refl
  get_elem?-drop (suc n) [] = refl
  get_elem?-drop (suc n) (x ∷ xs) = get_elem?-drop n xs

  pub drop-set_at :
      (n : ℕ) (y : A) (xs : List A) → drop (suc n) (set_at n y xs) ≡ others (drop n xs)
  unfolding drop set_at
  drop-set_at zero y [] = refl
  drop-set_at zero y (x ∷ xs) = refl
  drop-set_at (suc n) y [] = refl
  drop-set_at (suc n) y (x ∷ xs) = drop-set_at n y xs

  pub empty_of : (xs : List A) → first? xs ≡ none → xs ≡ []
  empty_of [] e = refl
  empty_of (x ∷ xs) e = cc e

  pub cons_of : (xs : List A) (x : A) → first? xs ≡ some x → xs ≡ x ∷ others xs
  cons_of [] x e = cc e
  cons_of (y ∷ xs) x e = cc e

  pub drop-append :
      (n : ℕ) (xs : List A) (x : A) → n ≤ length xs → drop n (xs ++ x ∷ []) ≡ drop n xs ++ x ∷ []
  unfolding drop
  drop-append zero xs x h = refl
  drop-append (suc n) [] x h = absurd (omega arith)
  drop-append (suc n) (y ∷ xs) x h = drop-append n xs x (omega arith)

  pub length-set_at : (n : ℕ) (y : A) (xs : List A) → length (set_at n y xs) ≡ length xs
  unfolding set_at
  length-set_at n y [] = refl
  length-set_at zero y (x ∷ xs) = refl
  length-set_at (suc n) y (x ∷ xs) = cc (length-set_at n y xs)

  -- The head lies inside the slice when something waits.
  pub drop-cons_inside :
      (n : ℕ) (xs : List A) (y : A) (ys : List A) → drop n xs ≡ y ∷ ys → n < length xs
  unfolding drop
  drop-cons_inside zero [] y ys e = cc e
  drop-cons_inside (suc n) [] y ys e = cc e
  drop-cons_inside zero (x ∷ xs) y ys e = omega arith
  drop-cons_inside (suc n) (x ∷ xs) y ys e = omega (arith, drop-cons_inside n xs y ys e)
