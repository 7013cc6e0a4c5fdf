-- ===== src/Prelude/Takes.antt =====
-- What is left of a list that is cut.
use remnix.Prelude.Lists.{length, get_elem?, take, drop, All}
use Prim.Native.Nat.{ℕ, zero, suc, ◌≤◌}
use mathlib.Core.Path.{◌≡◌, refl, ap, subst}
use mathlib.Core.List.{List, [], ◌∷◌, ◌++◌}
use mathlib.Core.Option.{some}
use native.Mathlib.Omega.{arith}

pub take_all : {A : Type 0} (n : ℕ) (xs : List A) → length xs ≤ n → take n xs ≡ xs
unfolding take
take_all zero [] h = refl
take_all (suc n) [] h = refl
take_all zero (x ∷ xs) h = absurd (omega arith)
take_all (suc n) (x ∷ xs) h = ap (λ t. x ∷ t) (take_all n xs (omega arith))

pub take_exact : {A : Type 0} (n : ℕ) (xs ys : List A) → length xs ≡ n → take n (xs ++ ys) ≡ xs
unfolding take
take_exact zero [] ys h = refl
take_exact (suc n) [] ys h = absurd (omega arith)
take_exact zero (x ∷ xs) ys h = absurd (omega arith)
take_exact (suc n) (x ∷ xs) ys h = ap (λ t. x ∷ t) (take_exact n xs ys (omega arith))

pub All-drop :
    {A : Type 0} (P : A → Type 0) (n : ℕ) (xs : List A)
    → ((i : ℕ) (x : A) → n ≤ i → get_elem? xs i ≡ some x → P x)
    → All P (drop n xs)
unfolding drop
All-drop P zero [] h = tt
All-drop P zero (x ∷ xs) h =
    (h 0 x (omega arith) refl, All-drop P zero xs (λ i y a at. h (suc i) y (omega arith) at))
All-drop P (suc n) [] h = tt
All-drop P (suc n) (x ∷ xs) h = All-drop P n xs (λ i y a at. h (suc i) y (omega arith) at)

pub All-get_elem? :
    {A : Type 0} (P : A → Type 0) (xs : List A) (i : ℕ) (x : A)
    → All P xs
    → get_elem? xs i ≡ some x
    → P x
All-get_elem? P [] i x h at = cc at
All-get_elem? P (y ∷ ys) zero x h at = subst P (ground arith) h.0
All-get_elem? P (y ∷ ys) (suc i) x h at = All-get_elem? P ys i x h.1 at
