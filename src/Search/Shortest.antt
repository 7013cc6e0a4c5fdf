-- ===== src/Search/Shortest.antt =====
-- internal/search/rank.go: the stretch that minSpan finds is the shortest.
use remnix.Search.Stretch.{
  IsStretch-cases, later-IsStretch, first-IsStretch, stretch-IsWithin, within-IsStretch, Improved,
  improve-Improved,
}
use remnix.Prelude.Takes.{take_all}
use remnix.Search.Span.{reach, improve, span_from, min_span}
use remnix.Search.Reach.{
  IsWithin, IsStretch, IsWithin-tail, IsWithin-drop-take, within-le_length, Reached, reach-Reached,
}
use remnix.Prelude.{
  take, drop, ℕ, zero, suc, Bool, true, false, List, [], ◌∷◌, arith, ◌≡◌, refl, sym, subst,
  Bool-cases, inl, inr, ◌⊎◌, length, eqb, ◌≤◌, ◌∙◌, ◌↔◌, ◌+◌, ◌-◌,
}

-- What the outer loop makes of the best stretch so far.
record Best (q c : List ℕ) (so_far r : ℕ × Bool) : Type 0 where
  found : r.1 ≡ true → IsStretch q c r.0 ⊎ ((so_far.1 ≡ true) × (so_far.0 ≡ r.0))
  least : (n : ℕ) → IsStretch q c n → (r.1 ≡ true) × (r.0 ≤ n)
  kept : so_far.1 ≡ true → (r.1 ≡ true) × (r.0 ≤ so_far.0)

module _ (k : ℕ) (ks : List ℕ) where
  abbrev term : List ℕ
  term = k ∷ ks

  empty_Best : (so_far : ℕ × Bool) → Best term [] so_far so_far
  empty_Best so_far = record {
    found = λ t. inr (t, refl);
    least = λ n h. absurd (IsWithin-drop-take term [] n h.0 h.1);
    kept = λ t. (t, omega arith);
  }

  -- A start at another character.
  skipped_Best :
      (x : ℕ) (xs : List ℕ) (so_far r : ℕ × Bool)
      → eqb x k ≡ false
      → Best term xs so_far r
      → Best term (x ∷ xs) so_far r
  unfolding take
  skipped_Best x xs so_far r other b = record {
    found = λ t. elim (b.found t) [ inl h ↦ inl (later-IsStretch term x xs r.0 h) | inr h ↦ inr h ];
    least = λ n h. elim (IsStretch-cases term x xs n h) [ inl w ↦ first n w | inr s ↦ b.least n s ];
    kept = b.kept;
  }
    where
      first : (n : ℕ) → IsWithin term (take n (x ∷ xs)) → (r.1 ≡ true) × (r.0 ≤ n)
      first zero w = absurd w
      first (suc n) (inl w) = absurd (ground (arith, w.0))
      first (suc n) (inr w) = let (t, near) = b.least n (first_at n xs w) in (t, omega arith)
        where
          first_at : (n : ℕ) (xs : List ℕ) → IsWithin term (take n xs) → IsStretch term xs n
          first_at n xs w = unfold drop in (0, w)

  -- A start from which not all characters are found: none are found from here on.
  failed_Best :
      (x : ℕ) (xs : List ℕ) (pos : ℕ) (so_far r : ℕ × Bool)
      → Reached ks xs pos r
      → r.1 ≡ false
      → Best term (x ∷ xs) so_far so_far
  unfolding take
  failed_Best x xs pos so_far r reached failed = record {
    found = λ t. inr (t, refl);
    least = λ n h. elim (IsStretch-cases term x xs n h) [
      | inl w ↦ absurd (first n w)
      | inr s ↦ absurd (later (IsWithin-tail k ks xs (IsWithin-drop-take term xs n s.0 s.1)))
    ];
    kept = λ t. (t, omega arith);
  }
    where
      later : IsWithin ks xs → ⊥
      later w = cc (
        (reached.least (length xs)
            (subst (IsWithin ks) (sym (take_all (length xs) xs (omega arith))) w)).0,
        failed,
      )

      first : (n : ℕ) → IsWithin term (take n (x ∷ xs)) → ⊥
      first zero w = w
      first (suc n) (inl w) = cc ((reached.least n w.1).0, failed)
      first (suc n) (inr w) = cc ((reached.least n (IsWithin-tail k ks (take n xs) w)).0, failed)

  -- A start from which all characters are found, `n` further on.
  within_here :
      (x : ℕ) (xs : List ℕ) (n : ℕ)
      → x ≡ k
      → IsWithin ks (take n xs)
      → IsStretch term (x ∷ xs) (suc n)
  unfolding take
  within_here x xs n same w = first-IsStretch term x xs (suc n) (inl (same, w))

  here_least :
      (x : ℕ) (xs : List ℕ) (start m : ℕ) (r : ℕ × Bool)
      → Reached ks xs (suc start) r
      → IsWithin term (take m (x ∷ xs))
      → r.0 - start + 1 ≤ m
  unfolding take
  here_least x xs start zero r reached w = absurd w
  here_least x xs start (suc m) r reached (inl w) = let near = reached.least m w.1 in omega arith
  here_least x xs start (suc m) r reached (inr w) =
      let near = reached.least m (IsWithin-tail k ks (take m xs) w) in omega arith

  Improved-Best :
      (x : ℕ) (xs : List ℕ) (start : ℕ) (so_far better e r : ℕ × Bool)
      → x ≡ k
      → Reached ks xs (suc start) e
      → e.1 ≡ true
      → Improved (e.0 - start + 1) so_far better
      → Best term xs better r
      → Best term (x ∷ xs) so_far r
  Improved-Best x xs start so_far better e r same reached all new b = record {
    found = λ t. elim (b.found t) [
      | inl h ↦ inl (later-IsStretch term x xs r.0 h)
      | inr h ↦ elim new.one [
        | inl span ↦
            let (n, far, w) = reached.holds all in
            let here : suc n ≡ r.0 = omega (arith, h.1) in
            inl (subst (IsStretch term (x ∷ xs)) here (within_here x xs n same w))
        | inr old ↦ inr (old.0, old.1 ∙ h.1)
      ]
    ];
    least = λ n h. elim (IsStretch-cases term x xs n h) [
      | inl w ↦
          let kept = b.kept new.found in
          (kept.0, omega (arith, here_least x xs start n e reached w, new.short, kept.1))
      | inr s ↦ b.least n s
    ];
    kept = λ t. let kept = b.kept new.found in (kept.0, omega (arith, kept.1, new.kept t));
  }

  -- A stretch no longer than the term cannot be beaten.
  tight_Best :
      (xs : List ℕ) (better : ℕ × Bool)
      → better.1 ≡ true
      → better.0 ≡ suc (length ks)
      → Best term xs better (better.0, true)
  tight_Best xs better found tight = record {
    found = λ t. inr (found, refl);
    least = λ n h. (refl, omega (arith, tight, within-le_length term n (drop h.0 xs) h.1));
    kept = λ t. (refl, omega arith);
  }

  span_from-Best :
      (xs : List ℕ) (start : ℕ) (so_far : ℕ × Bool)
      → Best term xs so_far (span_from k ks xs start so_far)
  unfolding span_from
  span_from-Best [] start so_far = empty_Best so_far
  span_from-Best (x ∷ xs) start so_far =
      let e = reach ks xs (suc start) start in
      let reached = reach-Reached ks xs (suc start) start (λ z. omega arith) in
      let better = improve (e.0 - start + 1) so_far in
      let new = improve-Improved (e.0 - start + 1) so_far.0 so_far.1 in
      elim (Bool-cases (eqb x k)) [
        | inr f ↦ rw f (skipped_Best x xs so_far _ f (span_from-Best xs (suc start) so_far))
        | inl t ↦ elim (Bool-cases e.1) [
          | inr f ↦ rw (t, f) (failed_Best x xs (suc start) so_far e reached f)
          | inl all ↦ elim (Bool-cases (eqb better.0 (suc (length ks)))) [
            | inl tight ↦
                rw (t, all, tight)
                  (Improved-Best x xs start so_far better e (better.0, true) (ground arith) reached
                    all new (tight_Best xs better new.found (ground arith)))
            | inr loose ↦
                rw (t, all, loose)
                  (Improved-Best x xs start so_far better e _ (ground arith) reached all new
                    (span_from-Best xs (suc start) better))
          ]
        ]
      ]

-- The answer of a search for the shortest stretch of the text that holds the characters in order.
pub record IsShortest (q c : List ℕ) (r : ℕ × Bool) : Type 0 where
  pub found_iff : (r.1 ≡ true) ↔ IsWithin q c
  pub occurs : r.1 ≡ true → IsStretch q c r.0
  pub least : (n : ℕ) → IsStretch q c n → r.0 ≤ n

-- `minSpan` finds a term exactly when its characters occur in the text in order. It then returns
-- the length of a stretch of the text in which they do, and no shorter stretch holds them in order.
pub min_span-IsShortest : (q c : List ℕ) → IsShortest q c (min_span q c)
unfolding min_span
min_span-IsShortest [] c = record {
  found_iff = (λ t. tt, λ w. refl);
  occurs = λ t. (0, tt);
  least = λ n h. omega arith;
}
min_span-IsShortest (k ∷ ks) c =
    let b = span_from-Best k ks c 0 (0, false) in
    let stretch : (span_from k ks c 0 (0, false)).1 ≡ true
        → IsStretch (k ∷ ks) c (span_from k ks c 0 (0, false)).0 =
      λ t. elim (b.found t) [ inl h ↦ h | inr h ↦ cc h.0 ] in
    record {
      found_iff = (
        λ t. stretch-IsWithin (k ∷ ks) c _ (stretch t),
        λ w. (b.least (length c) (within-IsStretch (k ∷ ks) c w)).0,
      );
      occurs = stretch;
      least = λ n h. (b.least n h).1;
    }
