-- ===== src/Search/Reach.antt =====
-- internal/search/rank.go: how far the inner loop of minSpan reaches.
use remnix.Search.Span.{reach}
use remnix.Prelude.{
  take, drop, ℕ, zero, suc, Bool, true, List, [], ◌∷◌, arith, ◌≡◌, inl, inr, ◌⊎◌, length, ◌+◌, ◌≤◌,
  false, refl, Bool-cases, eqb,
}

-- The characters occur in the text, in order.
abbrev pub IsWithin : List ℕ → List ℕ → Type 0
IsWithin [] w = Unit
IsWithin (k ∷ ks) [] = ⊥
IsWithin (k ∷ ks) (x ∷ xs) = ((x ≡ k) × IsWithin ks xs) ⊎ IsWithin (k ∷ ks) xs

-- They occur in `n` characters of the text, from some place on.
abbrev pub IsStretch : List ℕ → List ℕ → ℕ → Type 0
IsStretch q c n = (s : ℕ) × IsWithin q (take n (drop s c))

IsWithin-cons : (q : List ℕ) (x : ℕ) (xs : List ℕ) → IsWithin q xs → IsWithin q (x ∷ xs)
IsWithin-cons [] x xs h = tt
IsWithin-cons (k ∷ ks) x xs h = inr h

pub IsWithin-tail : (k : ℕ) (ks xs : List ℕ) → IsWithin (k ∷ ks) xs → IsWithin ks xs
IsWithin-tail k ks [] h = absurd h
IsWithin-tail k ks (x ∷ xs) (inl h) = IsWithin-cons ks x xs h.1
IsWithin-tail k ks (x ∷ xs) (inr h) = IsWithin-cons ks x xs (IsWithin-tail k ks xs h)

pub IsWithin-take :
    (q xs : List ℕ) (m n : ℕ) → m ≤ n → IsWithin q (take m xs) → IsWithin q (take n xs)
unfolding take
IsWithin-take [] xs m n le h = tt
IsWithin-take (k ∷ ks) xs zero n le h = absurd h
IsWithin-take (k ∷ ks) [] (suc m) n le h = absurd h
IsWithin-take (k ∷ ks) (x ∷ xs) (suc m) zero le h = absurd (omega arith)
IsWithin-take (k ∷ ks) (x ∷ xs) (suc m) (suc n) le (inl h) =
    inl (h.0, IsWithin-take ks xs m n (omega arith) h.1)
IsWithin-take (k ∷ ks) (x ∷ xs) (suc m) (suc n) le (inr h) =
    inr (IsWithin-take (k ∷ ks) xs m n (omega arith) h)

pub IsWithin-drop-take : (q xs : List ℕ) (n s : ℕ) → IsWithin q (take n (drop s xs)) → IsWithin q xs
unfolding take drop
IsWithin-drop-take [] xs n s h = tt
IsWithin-drop-take (k ∷ ks) [] zero zero h = absurd h
IsWithin-drop-take (k ∷ ks) [] (suc n) zero h = absurd h
IsWithin-drop-take (k ∷ ks) [] zero (suc s) h = absurd h
IsWithin-drop-take (k ∷ ks) [] (suc n) (suc s) h = absurd h
IsWithin-drop-take (k ∷ ks) (x ∷ xs) zero zero h = absurd h
IsWithin-drop-take (k ∷ ks) (x ∷ xs) (suc n) zero (inl h) =
    inl (h.0, IsWithin-drop-take ks xs n zero h.1)
IsWithin-drop-take (k ∷ ks) (x ∷ xs) (suc n) zero (inr h) =
    inr (IsWithin-drop-take (k ∷ ks) xs n zero h)
IsWithin-drop-take (k ∷ ks) (x ∷ xs) n (suc s) h = inr (IsWithin-drop-take (k ∷ ks) xs n s h)

pub within-le_length : (q : List ℕ) (n : ℕ) (xs : List ℕ) → IsWithin q (take n xs) → length q ≤ n
unfolding take
within-le_length [] n xs h = omega arith
within-le_length (k ∷ ks) zero xs h = absurd h
within-le_length (k ∷ ks) (suc n) [] h = absurd h
within-le_length (k ∷ ks) (suc n) (x ∷ xs) (inl h) = omega (arith, within-le_length ks n xs h.1)
within-le_length (k ∷ ks) (suc n) (x ∷ xs) (inr h) = omega (arith, within-le_length (k ∷ ks) n xs h)

-- What the inner loop finds: the shortest beginning that holds the characters.
pub record Reached (ks xs : List ℕ) (pos : ℕ) (r : ℕ × Bool) : Type 0 where
  pub holds : r.1 ≡ true → (n : ℕ) × (r.0 + 1 ≡ pos + n) × IsWithin ks (take n xs)
  pub least : (m : ℕ) → IsWithin ks (take m xs) → (r.1 ≡ true) × (r.0 + 1 ≤ pos + m)

pub reach-Reached :
    (ks xs : List ℕ) (pos end : ℕ)
    → (length ks ≡ 0 → end + 1 ≡ pos)
    → Reached ks xs pos (reach ks xs pos end)
unfolding reach take
reach-Reached [] xs pos end lead = record {
  holds = λ t. (0, omega arith, tt);
  least = λ m h. (refl, omega arith);
}
reach-Reached (k ∷ ks) [] pos end lead = record { holds = λ t. cc t; least = empty_least }
  where
    empty_least : (m : ℕ) → IsWithin (k ∷ ks) (take m []) → (false ≡ true) × (end + 1 ≤ pos + m)
    empty_least zero h = absurd h
    empty_least (suc m) h = absurd h
reach-Reached (k ∷ ks) (x ∷ xs) pos end lead = elim (Bool-cases (eqb x k)) [
  | inl e ↦ rw e (hit (ground arith) (reach-Reached ks xs (suc pos) pos (λ z. omega arith)))
  | inr e ↦ rw e (miss e (reach-Reached (k ∷ ks) xs (suc pos) end (λ z. absurd (omega arith))))
]
  where
    hit : {r : ℕ × Bool} → x ≡ k → Reached ks xs (suc pos) r → Reached (k ∷ ks) (x ∷ xs) pos r
    hit {r} same t = record {
      holds = λ all. let (n, far, inside) = t.holds all in (suc n, omega arith, inl (same, inside));
      least = hit_least;
    }
      where
        hit_least :
            (m : ℕ) → IsWithin (k ∷ ks) (take m (x ∷ xs)) → (r.1 ≡ true) × (r.0 + 1 ≤ pos + m)
        hit_least zero h = absurd h
        hit_least (suc m) (inl h) = let (all, near) = t.least m h.1 in (all, omega arith)
        hit_least (suc m) (inr h) =
            let (all, near) = t.least m (IsWithin-tail k ks (take m xs) h) in (all, omega arith)

    miss :
        {r : ℕ × Bool}
        → eqb x k ≡ false
        → Reached (k ∷ ks) xs (suc pos) r
        → Reached (k ∷ ks) (x ∷ xs) pos r
    miss {r} other t = record {
      holds = λ all. let (n, far, inside) = t.holds all in (suc n, omega arith, inr inside);
      least = miss_least;
    }
      where
        miss_least :
            (m : ℕ) → IsWithin (k ∷ ks) (take m (x ∷ xs)) → (r.1 ≡ true) × (r.0 + 1 ≤ pos + m)
        miss_least zero h = absurd h
        miss_least (suc m) (inl h) = absurd (ground (arith, h.0))
        miss_least (suc m) (inr h) = let (all, near) = t.least m h in (all, omega arith)
