-- ===== src/Prelude/Run.antt =====
-- Code that indexes slices: an index out of range panics.
use Prim.Native.Nat.{ℕ}
use mathlib.Core.Path.{◌≡◌, refl}
use mathlib.Core.List.{List}
use mathlib.Core.Option.{none, some}
use remnix.Prelude.Lists.{get_elem?}

pub data Run {ℓ} (A : Type ℓ) : Type ℓ where
  done : A → Run A
  panic : Run A

infixl 5 ◌>>=◌
abbrev pub ◌>>=◌ {ℓ κ} : {A : Type ℓ} {B : Type κ} → Run A → (A → Run B) → Run B
done a >>= next = next a
panic >>= next = panic

-- The code does not panic, and its result satisfies the predicate.
abbrev pub Returns {ℓ} : {A : Type ℓ} → Run A → (A → Type 0) → Type 0
Returns (done a) P = P a
Returns panic P = ⊥

-- `xs[i]`
unfoldable pub read {ℓ} : {A : Type ℓ} → List A → ℕ → Run A
read xs i = elim (get_elem? xs i) [ none ↦ panic | some x ↦ done x ]

pub read_found {ℓ} :
    {A : Type ℓ} (xs : List A) (i : ℕ) (x : A) → get_elem? xs i ≡ some x → read xs i ≡ done x
unfolding read
read_found xs i x h = rw (h, read) refl

module _ {ℓ κ} {A : Type ℓ} {B : Type κ} where
  pub Returns->>= :
      (r : Run A) (next : A → Run B) (P : A → Type 0) (Q : B → Type 0)
      → Returns r P
      → ((a : A) → P a → Returns (next a) Q)
      → Returns (r >>= next) Q
  Returns->>= (done a) next P Q h k = k a h
  Returns->>= panic next P Q h k = absurd h

pub Returns_map {ℓ} :
    {A : Type ℓ} (r : Run A) (P Q : A → Type 0) → Returns r P → ((a : A) → P a → Q a) → Returns r Q
Returns_map (done a) P Q h f = f a h
Returns_map panic P Q h f = absurd h

pub Returns_done {ℓ} :
    {A : Type ℓ} (r : Run A) (P : A → Type 0) → Returns r P → (a : A) × (r ≡ done a) × P a
Returns_done (done a) P h = (a, refl, h)
Returns_done panic P h = absurd h

pub Returns_both {ℓ} :
    {A : Type ℓ} (r : Run A) (P Q : A → Type 0)
    → Returns r P
    → Returns r Q
    → Returns r (λ a. P a × Q a)
Returns_both (done a) P Q h k = (h, k)
Returns_both panic P Q h k = absurd h
