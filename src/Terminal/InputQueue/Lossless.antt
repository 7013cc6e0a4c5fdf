-- ===== src/Terminal/InputQueue/Lossless.antt =====
-- Every byte that the input queue of internal/terminal/pty_input.go accepts comes out again, in order.
use remnix.Prelude.{
  ℕ, List, [], ◌∷◌, ◌++◌, none, some, arith, ◌≡◌, refl, sym, ap, ◌∙◌, subst, inl, inr, length,
  length-append, ◌+◌, ◌≤◌, drop,
}
use remnix.Prelude.Int.{ℤ}
use remnix.Terminal.Slices.{others, drop-set_at, drop-append, length-set_at, drop-cons_inside}
use remnix.Terminal.InputQueue.{
  InputQueue, InputError, new_input_queue, push, taken, compact, pop, stop,
}
use remnix.Terminal.InputQueue.Calls.{
  pending, joined, append_assoc, append_nil, joined-append, push-cases, pop-cases, compact-same,
}

-- The count is that of the waiting bytes and within the budget.
pub record IsValid (q : InputQueue) : Type 0 where
  pub counted : q.bytes ≡ length (joined (pending q))
  pub within : q.bytes ≤ q.budget
  pub inside : q.head ≤ length q.chunks

-- The calls on a queue, with the bytes that were accepted and those that came out.
pub data Run (budget : ℤ) : List ℕ → List ℕ → InputQueue → Type 0 where
  created : Run budget [] [] (new_input_queue budget)
  pushed :
      (accepted out chunk : List ℕ) (q : InputQueue)
      → Run budget accepted out q
      → (push chunk q).1 ≡ none
      → Run budget (accepted ++ chunk) out (push chunk q).0
  refused :
      (accepted out chunk : List ℕ) (q : InputQueue) (e : InputError)
      → Run budget accepted out q
      → (push chunk q).1 ≡ some e
      → Run budget accepted out (push chunk q).0
  popped :
      (accepted out chunk : List ℕ) (q : InputQueue)
      → Run budget accepted out q
      → (pop q).1 ≡ some chunk
      → Run budget accepted (out ++ chunk) (pop q).0
  drained :
      (accepted out : List ℕ) (q : InputQueue)
      → Run budget accepted out q
      → (pop q).1 ≡ none
      → Run budget accepted out (pop q).0
  stopped :
      (accepted out : List ℕ) (q : InputQueue)
      → Run budget accepted out q
      → Run budget accepted out (stop q)

-- What holds after the calls of a run.
pub record Holds (accepted out : List ℕ) (q : InputQueue) : Type 0 where
  pub valid : IsValid q
  pub kept : accepted ≡ out ++ joined (pending q)

new-Holds : (budget : ℤ) → Holds [] [] (new_input_queue budget)
unfolding new_input_queue drop joined
new-Holds budget = record {
  valid = record { counted = refl; within = omega arith; inside = omega arith };
  kept = refl;
}

push-Holds :
    (accepted out chunk : List ℕ) (q : InputQueue)
    → Holds accepted out q
    → q.bytes + length chunk ≤ q.budget
    → (r : InputQueue) → r.chunks ≡ q.chunks ++ chunk ∷ []
    → r.head ≡ q.head
    → r.bytes ≡ q.bytes + length chunk
    → r.budget ≡ q.budget
    → Holds (accepted ++ chunk) out r
push-Holds accepted out chunk q h fits r ec eh eb eg =
    let waits : pending r ≡ pending q ++ chunk ∷ [] =
      rw (ec, eh) (drop-append q.head q.chunks chunk h.valid.inside) in
    let bytes : joined (pending r) ≡ joined (pending q) ++ chunk =
      ap joined waits ∙ joined-append (pending q) chunk in
    record {
      valid = record {
        counted =
            omega (
              arith,
              eb,
              h.valid.counted,
              ap length bytes,
              length-append (joined (pending q)) chunk,
            );
        within = omega (arith, eb, eg, fits);
        inside =
            omega (arith, eh, ap length ec, length-append q.chunks (chunk ∷ []), h.valid.inside);
      };
      kept =
          ap (λ a. a ++ chunk) h.kept
          ∙ append_assoc out (joined (pending q)) chunk
          ∙ ap (λ b. out ++ b) (sym bytes);
    }

pop-Holds :
    (accepted out chunk : List ℕ) (q : InputQueue)
    → Holds accepted out q
    → pending q ≡ chunk ∷ others (pending q)
    → Holds accepted (out ++ chunk) (compact (taken chunk q))
unfolding taken joined
pop-Holds accepted out chunk q h e =
    let (waits, bytes, budget, inside) = compact-same (taken chunk q) in
    let rest : pending (compact (taken chunk q)) ≡ others (pending q) =
      waits ∙ drop-set_at q.head [] q.chunks in
    let split : joined (pending q) ≡ chunk ++ joined (others (pending q)) = ap joined e in
    record {
      valid = record {
        counted = omega (
          arith,
          bytes,
          h.valid.counted,
          ap length split,
          ap (λ cs. length (joined cs)) rest,
          length-append chunk (joined (others (pending q))),
        );
        within = omega (arith, bytes, budget, h.valid.within);
        inside = inside (
            omega (
              arith,
              length-set_at q.head [] q.chunks,
              drop-cons_inside q.head q.chunks chunk _ e,
            ));
      };
      kept =
          h.kept
          ∙ ap (λ b. out ++ b) split
          ∙ sym (append_assoc out chunk (joined (others (pending q))))
          ∙ ap (λ cs. (out ++ chunk) ++ joined cs) (sym rest);
    }

stop-Holds :
    (accepted out : List ℕ) (q : InputQueue) → Holds accepted out q → Holds accepted out (stop q)
unfolding stop
stop-Holds accepted out q h = record {
  valid = record { counted = h.valid.counted; within = h.valid.within; inside = h.valid.inside };
  kept = h.kept;
}

-- After any calls on a queue, the bytes that it accepted are those that came out followed by those that
-- wait: none is lost, repeated or moved. The count of waiting bytes is right and within the budget.
pub run-Holds :
    (budget : ℤ) (accepted out : List ℕ) (q : InputQueue)
    → Run budget accepted out q
    → Holds accepted out q
run-Holds budget _ _ _ created = new-Holds budget
run-Holds budget _ _ _ (pushed accepted out chunk q r e) =
    let h = run-Holds budget accepted out q r in
    elim (push-cases chunk q) [
      | inl (none_new, p) ↦ rw p (
          subst (λ a. Holds a out q) (sym (ap (λ c. accepted ++ c) none_new ∙ append_nil accepted))
            h)
      | inr (inl (x, p)) ↦ absurd (cc (sym e ∙ ap (λ r. r.1) p))
      | inr (inr (fits, _, ec, eh, eb, eg)) ↦
          push-Holds accepted out chunk q h fits (push chunk q).0 ec eh eb eg
    ]
run-Holds budget _ _ _ (refused accepted out chunk q x r e) =
    let h = run-Holds budget accepted out q r in
    elim (push-cases chunk q) [
      | inl (_, p) ↦ absurd (cc (sym (ap (λ r. r.1) p) ∙ e))
      | inr (inl (y, p)) ↦ rw p h
      | inr (inr (_, p, _, _, _, _)) ↦ absurd (cc (sym p ∙ e))
    ]
run-Holds budget _ _ _ (popped accepted out chunk q r e) =
    let h = run-Holds budget accepted out q r in
    elim (pop-cases q) [
      | inl p ↦ absurd (cc (sym (ap (λ r. r.1) p) ∙ e))
      | inr (c, waits, p) ↦
          let same : c ≡ chunk = cc (sym (ap (λ r. r.1) p) ∙ e) in
          rw p (
            subst (λ d. Holds accepted (out ++ d) (compact (taken c q))) same
              (pop-Holds accepted out c q h waits))
    ]
run-Holds budget _ _ _ (drained accepted out q r e) =
    let h = run-Holds budget accepted out q r in
    elim (pop-cases q) [
      | inl p ↦ rw p h
      | inr (c, waits, p) ↦ absurd (cc (sym (ap (λ r. r.1) p) ∙ e))
    ]
run-Holds budget _ _ _ (stopped accepted out q r) =
    stop-Holds accepted out q (run-Holds budget accepted out q r)
