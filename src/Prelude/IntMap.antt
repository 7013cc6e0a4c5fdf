-- ===== src/Prelude/IntMap.antt =====
-- Go's `map[int32]V` and `map[int]V`, for keys that are not negative: an association list with one
-- entry for a key.
use remnix.Prelude.Tests.{if◌then◌else◌, eqb}
use Prim.Native.Nat.{ℕ}
use mathlib.Core.Path.{◌≡◌, refl}
use mathlib.Core.Option.{Option, none, some}
use mathlib.Core.List.{List, [], ◌∷◌}
use native.Mathlib.Omega.{arith}

abbrev pub IntMap {ℓ} : Type ℓ → Type ℓ
IntMap V = List (ℕ × V)

module _ {ℓ} {V : Type ℓ} where
  unfoldable pub find : ℕ → IntMap V → Option V
  find key [] = none
  find key ((first, found) ∷ more) =
      let later = find key more in if eqb first key then some found else later

  unfoldable pub put : ℕ → V → IntMap V → IntMap V
  put key value [] = (key, value) ∷ []
  put key value ((first, old) ∷ more) =
      let later = put key value more in
      if eqb first key then (key, value) ∷ more else (first, old) ∷ later

  unfoldable pub remove : ℕ → IntMap V → IntMap V
  remove key [] = []
  remove key ((first, old) ∷ more) =
      let rest = remove key more in if eqb first key then rest else (first, old) ∷ rest

  pub find-put :
      (k j : ℕ) (v : V) (m : IntMap V) → find j (put k v m) ≡ (if eqb k j then some v else find j m)
  unfolding find put
  find-put k j v [] = refl
  find-put k j v ((first, old) ∷ more) = ground (arith, find-put k j v more)

  pub find-remove :
      (k j : ℕ) (m : IntMap V) → find j (remove k m) ≡ (if eqb k j then none else find j m)
  unfolding find remove
  find-remove k j [] = ground arith
  find-remove k j ((first, old) ∷ more) = ground (arith, find-remove k j more)
