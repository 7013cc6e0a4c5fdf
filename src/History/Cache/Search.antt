-- ===== src/History/Cache/Search.antt =====
-- internal/history/cache.go: the places in order, and the binary search of a place.
use remnix.Prelude.{
  ◌/◌, All-map, String, ℕ, zero, suc, Bool, true, false, List, [], ◌∷◌, arith, ◌≡◌, Bool-cases, inl,
  inr, All, ltb, ◌+◌, ◌≤◌, ◌<◌,
}
use remnix.Prelude.Text.{str_ltb, str_ltb_negtrans, str_ltb_trans, str_ltb_irrefl}
use remnix.History.Cache.Order.{insert_in_order, in_order, find_between, find_first}

module _ (command : ℕ → String) where
  abbrev pub IsSorted : List ℕ → Type 0
  IsSorted [] = Unit
  IsSorted (i ∷ is) = All (λ j. str_ltb (command j) (command i) ≡ false) is × IsSorted is

  insert_in_order-All :
      (P : ℕ → Type 0) (i : ℕ) (is : List ℕ) → P i → All P is → All P (insert_in_order command i is)
  unfolding insert_in_order
  insert_in_order-All P i [] p h = (p, tt)
  insert_in_order-All P i (j ∷ js) p h = elim (Bool-cases (str_ltb (command j) (command i))) [
    | inl e ↦ rw e (h.0, insert_in_order-All P i js p h.1)
    | inr e ↦ rw e (p, h)
  ]

  str_ltb_asym : (s t : String) → str_ltb s t ≡ true → str_ltb t s ≡ false
  str_ltb_asym s t h = elim (Bool-cases (str_ltb t s)) [
    | inl e ↦ cc (str_ltb_trans s t s h e, str_ltb_irrefl s)
    | inr e ↦ e
  ]

  insert_in_order-IsSorted :
      (i : ℕ) (is : List ℕ) → IsSorted is → IsSorted (insert_in_order command i is)
  unfolding insert_in_order
  insert_in_order-IsSorted i [] h = (tt, tt)
  insert_in_order-IsSorted i (j ∷ js) h = elim (Bool-cases (str_ltb (command j) (command i))) [
    | inl e ↦ rw e (
      insert_in_order-All (λ k. str_ltb (command k) (command j) ≡ false) i js
          (str_ltb_asym (command j) (command i) e) h.0,
      insert_in_order-IsSorted i js h.1,
    )
    | inr e ↦ rw e (
      (
        e,
        All-map (λ k. str_ltb (command k) (command j) ≡ false)
            (λ k. str_ltb (command k) (command i) ≡ false) js
            (λ k g. str_ltb_negtrans (command k) (command j) (command i) g e) h.0,
      ),
      h,
    )
  ]

  pub in_order-IsSorted : (is : List ℕ) → IsSorted (in_order command is)
  unfolding in_order
  in_order-IsSorted [] = tt
  in_order-IsSorted (i ∷ is) =
      insert_in_order-IsSorted i (in_order command is) (in_order-IsSorted is)

  pub in_order-All : (P : ℕ → Type 0) (is : List ℕ) → All P is → All P (in_order command is)
  unfolding in_order
  in_order-All P [] h = tt
  in_order-All P (i ∷ is) h =
      insert_in_order-All P i (in_order command is) h.0 (in_order-All P is h.1)

-- The first index at which the test holds.
pub record IsFirst (reaches : ℕ → Bool) (lo hi r : ℕ) : Type 0 where
  pub inside : r ≤ hi
  pub before : (i : ℕ) → lo ≤ i → i < r → reaches i ≡ false
  pub after : (i : ℕ) → r ≤ i → i < hi → reaches i ≡ true

abbrev pub IsMonotone : (ℕ → Bool) → ℕ → Type 0
IsMonotone reaches n = (i j : ℕ) → i ≤ j → j < n → reaches i ≡ true → reaches j ≡ true

find_between-IsFirst :
    (reaches : ℕ → Bool) (n fuel lo hi : ℕ)
    → IsMonotone reaches n
    → hi ≤ n
    → lo ≤ hi
    → hi ≤ lo + fuel
    → IsFirst reaches lo hi (find_between reaches fuel lo hi)
unfolding find_between
find_between-IsFirst reaches n zero lo hi mono top order enough = record {
  inside = omega arith;
  before = λ i a b. absurd (omega arith);
  after = λ i a b. absurd (omega arith);
}
find_between-IsFirst reaches n (suc fuel) lo hi mono top order enough =
    let mid = (lo + hi) / 2 in
    elim (Bool-cases (ltb lo hi)) [
      | inr e ↦ rw e (record {
        inside = omega arith;
        before = λ i a b. absurd (omega arith);
        after = λ i a b. absurd (ground arith);
      })
      | inl e ↦ elim (Bool-cases (reaches mid)) [
        | inr f ↦
            let t =
              find_between-IsFirst reaches n fuel (mid + 1) hi mono top (ground arith)
                (ground arith) in
            rw (e, f)
              (record {
                inside = t.inside;
                before = λ i a b. elim (Bool-cases (reaches i)) [
                  | inl y ↦ ground (arith, mono i mid, t.before i)
                  | inr no_yet ↦ no_yet
                ];
                after = t.after;
              })
        | inl f ↦
            let t =
              find_between-IsFirst reaches n fuel lo mid mono (ground arith) (ground arith)
                (ground arith) in
            rw (e, f)
              (record {
                inside = ground (arith, t.inside);
                before = t.before;
                after = λ i a b. elim (Bool-cases (ltb i mid)) [
                  | inl y ↦ t.after i a (ground arith)
                  | inr y ↦ mono mid i (ground arith) (ground arith) f
                ];
              })
      ]
    ]

pub find_first-IsFirst :
    (n : ℕ) (reaches : ℕ → Bool) → IsMonotone reaches n → IsFirst reaches 0 n (find_first n reaches)
unfolding find_first
find_first-IsFirst n reaches mono =
    find_between-IsFirst reaches n n 0 n mono (omega arith) (omega arith) (omega arith)
