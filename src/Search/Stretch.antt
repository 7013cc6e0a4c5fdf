-- ===== src/Search/Stretch.antt =====
-- internal/search/rank.go: the stretches of a text, and the better one of two.
use remnix.Prelude.Takes.{take_all}
use remnix.Search.Span.{improve}
use remnix.Search.Reach.{IsWithin, IsStretch, IsWithin-drop-take}
use remnix.Prelude.{
  take, drop, ℕ, zero, suc, Bool, true, false, List, ◌∷◌, arith, ◌≡◌, refl, sym, subst, Bool-cases,
  inl, inr, ◌⊎◌, length, ltb, ◌≤◌,
}

pub IsStretch-cases :
    (q : List ℕ) (x : ℕ) (xs : List ℕ) (n : ℕ)
    → IsStretch q (x ∷ xs) n
    → IsWithin q (take n (x ∷ xs)) ⊎ IsStretch q xs n
unfolding drop
IsStretch-cases q x xs n (zero, h) = inl h
IsStretch-cases q x xs n (suc s, h) = inr (s, h)

pub later-IsStretch :
    (q : List ℕ) (x : ℕ) (xs : List ℕ) (n : ℕ) → IsStretch q xs n → IsStretch q (x ∷ xs) n
unfolding drop
later-IsStretch q x xs n (s, h) = (suc s, h)

pub first-IsStretch :
    (q : List ℕ) (x : ℕ) (xs : List ℕ) (n : ℕ)
    → IsWithin q (take n (x ∷ xs))
    → IsStretch q (x ∷ xs) n
unfolding drop
first-IsStretch q x xs n h = (0, h)

pub stretch-IsWithin : (q c : List ℕ) (n : ℕ) → IsStretch q c n → IsWithin q c
stretch-IsWithin q c n h = IsWithin-drop-take q c n h.0 h.1

pub within-IsStretch : (q c : List ℕ) → IsWithin q c → IsStretch q c (length c)
unfolding drop
within-IsStretch q c w = (0, subst (IsWithin q) (sym (take_all (length c) c (omega arith))) w)

pub record Improved (span : ℕ) (so_far r : ℕ × Bool) : Type 0 where
  pub found : r.1 ≡ true
  pub short : r.0 ≤ span
  pub kept : so_far.1 ≡ true → r.0 ≤ so_far.0
  pub one : (r.0 ≡ span) ⊎ ((so_far.1 ≡ true) × (so_far.0 ≡ r.0))

pub improve-Improved :
    (span best : ℕ) (found : Bool) → Improved span (best, found) (improve span (best, found))
improve-Improved span best false = record {
  found = refl;
  short = omega arith;
  kept = λ e. cc e;
  one = inl refl;
}
improve-Improved span best true = elim (Bool-cases (ltb span best)) [
  | inl e ↦
      rw e (record { found = refl; short = omega arith; kept = λ t. ground arith; one = inl refl })
  | inr e ↦ rw e (record {
    found = refl;
    short = ground arith;
    kept = λ t. omega arith;
    one = inr (refl, refl);
  })
]
