-- ===== src/Sync/Equalize/Each.antt =====
-- A relation between the endpoints at one time and at a later one, in their order.
use remnix.Prelude.{List, [], ◌∷◌}

module _ {A : Type 0} where
  abbrev pub Each : (A → A → Type 0) → List A → List A → Type 0
  Each R [] [] = Unit
  Each R [] (y ∷ ys) = ⊥
  Each R (x ∷ xs) [] = ⊥
  Each R (x ∷ xs) (y ∷ ys) = R x y × Each R xs ys

  pub Each-same : (R : A → A → Type 0) (xs : List A) → ((x : A) → R x x) → Each R xs xs
  Each-same R [] h = tt
  Each-same R (x ∷ xs) h = (h x, Each-same R xs h)

  pub Each-comp :
      (R S T : A → A → Type 0) (xs ys zs : List A)
      → ((x y z : A) → R x y → S y z → T x z)
      → Each R xs ys
      → Each S ys zs
      → Each T xs zs
  Each-comp R S T [] [] [] f r s = tt
  Each-comp R S T (x ∷ xs) (y ∷ ys) (z ∷ zs) f r s =
      (f x y z r.0 s.0, Each-comp R S T xs ys zs f r.1 s.1)
  Each-comp R S T [] [] (z ∷ zs) f r s = elim s [ ]
  Each-comp R S T [] (y ∷ ys) zs f r s = elim r [ ]
  Each-comp R S T (x ∷ xs) [] zs f r s = elim r [ ]
  Each-comp R S T (x ∷ xs) (y ∷ ys) [] f r s = elim s [ ]

  pub Each-both :
      (R S : A → A → Type 0) (xs ys : List A)
      → Each R xs ys
      → Each S xs ys
      → Each (λ x y. R x y × S x y) xs ys
  Each-both R S [] [] r s = tt
  Each-both R S (x ∷ xs) (y ∷ ys) r s = ((r.0, s.0), Each-both R S xs ys r.1 s.1)
  Each-both R S [] (y ∷ ys) r s = elim r [ ]
  Each-both R S (x ∷ xs) [] r s = elim r [ ]

  pub Each-map :
      (R S : A → A → Type 0) (xs ys : List A)
      → ((x y : A) → R x y → S x y)
      → Each R xs ys
      → Each S xs ys
  Each-map R S [] [] f r = tt
  Each-map R S (x ∷ xs) (y ∷ ys) f r = (f x y r.0, Each-map R S xs ys f r.1)
  Each-map R S [] (y ∷ ys) f r = elim r [ ]
  Each-map R S (x ∷ xs) [] f r = elim r [ ]
