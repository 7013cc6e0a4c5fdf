-- ===== src/Terminal/ParseQueue/Drain.antt =====
-- The parser of internal/terminal/session_unix.go catches up with its queue, so `wait` returns.
use remnix.Prelude.{
  ℕ, zero, suc, true, List, [], ◌∷◌, some, arith, ◌≡◌, refl, sym, ap, ◌∙◌, subst, inl, inr, ◌≢◌,
  length, ◌≤◌,
}
use remnix.Terminal.ParseQueue.{
  ParseItem, ParseQueue, compact, taken, pop, mark_parsed, drain, is_reached,
}
use remnix.Terminal.Slices.{others}
use remnix.Terminal.ParseQueue.Refines.{pending, pop-cases, taken-pending}
use remnix.Terminal.ParseQueue.Bounded.{IsValid, taken-IsValid, mark_parsed-IsValid}
use remnix.Terminal.ParseQueue.Numbered.{NumberedFrom, compact-same}

mark_parsed-same :
    (seq : ℕ) (q : ParseQueue)
    → (pending (mark_parsed seq q) ≡ pending q)
      × ((mark_parsed seq q).enqueued_seq ≡ q.enqueued_seq)
      × (q.parsed_seq ≤ seq → (mark_parsed seq q).parsed_seq ≡ seq)
unfolding mark_parsed
mark_parsed-same seq q = ground arith

-- The queue after one round of the parser on the chunk `item`.
abbrev round : ParseItem → ParseQueue → ParseQueue
round item q = mark_parsed item.seq (compact (taken item q))

drain-suc :
    (fuel : ℕ) (q : ParseQueue) (item : ParseItem)
    → pop q ≡ (compact (taken item q), some item)
    → drain (suc fuel) q ≡ drain fuel (round item q)
unfolding drain
drain-suc fuel q item p =
    rw (ap (λ r. r.1) p, drain) (ap (λ r. drain fuel (mark_parsed item.seq r.0)) p)

-- What is left to wait for once the parser has taken everything.
abbrev CaughtUp : ℕ → ParseQueue → Type 0
CaughtUp seq q = (pending q ≡ []) × (q.parsed_seq ≡ seq)

empty_of : (xs : List ParseItem) → length xs ≡ 0 → xs ≡ []
empty_of [] e = refl
empty_of (x ∷ xs) e = absurd (omega arith)

module _ (q : ParseQueue) (item : ParseItem) (e : pending q ≡ item ∷ others (pending q))
    (v : IsValid q) where
  numbered : NumberedFrom v.before (item ∷ others (pending q))
  numbered = subst (NumberedFrom v.before) e v.numbered

  one_less : length (pending q) ≡ suc (length (others (pending q)))
  one_less = ap length e

  enqueued_same : (round item q).enqueued_seq ≡ q.enqueued_seq
  unfolding taken
  enqueued_same =
      (mark_parsed-same item.seq (compact (taken item q))).1 ∙ (compact-same (taken item q)).3

  round-pending : pending (round item q) ≡ others (pending q)
  round-pending = (mark_parsed-same item.seq (compact (taken item q))).0 ∙ taken-pending item q

  round-IsValid : IsValid (round item q)
  unfolding taken
  round-IsValid =
      let given : item.seq ≤ (compact (taken item q)).enqueued_seq =
        omega (arith, numbered.0, v.last, one_less, (compact-same (taken item q)).3) in
      mark_parsed-IsValid item.seq (compact (taken item q)) given (taken-IsValid q item e v)

  -- The last chunk brings the parser to the last number.
  round_last : length (others (pending q)) ≡ 0 → CaughtUp q.enqueued_seq (round item q)
  unfolding taken
  round_last h =
      let top : item.seq ≡ q.enqueued_seq = omega (arith, numbered.0, v.last, one_less, h) in
      let behind : (compact (taken item q)).parsed_seq ≤ item.seq =
        omega (arith, top, v.parsed, (compact-same (taken item q)).4) in
      (
        round-pending ∙ empty_of (others (pending q)) h,
        (mark_parsed-same item.seq (compact (taken item q))).2 behind ∙ top,
      )

drain-CaughtUp :
    (fuel : ℕ) (q : ParseQueue)
    → length (pending q) ≡ suc fuel
    → IsValid q
    → CaughtUp q.enqueued_seq (drain (suc fuel) q)
drain-CaughtUp zero q h v = elim (pop-cases q) [
  | inl (e, p) ↦ absurd (omega (arith, h, ap length e))
  | inr (item, e, p) ↦
      rw (drain-suc zero q item p)
        (unfold drain in round_last q item e v (omega (arith, h, one_less q item e v)))
]
drain-CaughtUp (suc fuel) q h v = elim (pop-cases q) [
  | inl (e, p) ↦ absurd (omega (arith, h, ap length e))
  | inr (item, e, p) ↦
      let fewer : length (pending (round item q)) ≡ suc fuel =
        omega (arith, h, one_less q item e v, ap length (round-pending q item e v)) in
      rw (drain-suc (suc fuel) q item p) (
        subst (λ n. CaughtUp n (drain (suc fuel) (round item q))) (enqueued_same q item e v)
          (drain-CaughtUp fuel (round item q) fewer (round-IsValid q item e v)))
]

-- When chunks wait, as many rounds of the parser as there are of them parse all of them, and then
-- `wait` returns at once for every number that had been given out.
pub drain_caught_up :
    (q : ParseQueue) (target : ℕ)
    → IsValid q
    → pending q ≢ []
    → target ≤ q.enqueued_seq
    → (pending (drain (length (pending q)) q) ≡ [])
      × ((drain (length (pending q)) q).parsed_seq ≡ q.enqueued_seq)
      × (is_reached target (drain (length (pending q)) q) ≡ true)
unfolding is_reached
drain_caught_up q target v some_wait given = elim (pop-cases q) [
  | inl (e, p) ↦ absurd (some_wait e)
  | inr (item, e, p) ↦
      let h = one_less q item e v in
      let (empty, top) =
        subst (λ n. CaughtUp q.enqueued_seq (drain n q)) (sym h)
          (drain-CaughtUp (length (others (pending q))) q h v) in
      (empty, top, ground (arith, top))
]
