-- ===== src/Terminal/ParseQueue/Bounded.antt =====
-- What holds of every parse queue of internal/terminal/parse_queue.go, from its creation on.
use remnix.Prelude.{
  ℕ, suc, Bool, true, false, List, [], ◌∷◌, if◌then◌else◌, arith, ◌≡◌, refl, sym, ap, ◌∙◌, subst,
  Bool-cases, inl, inr, ◌⊎◌, length, ltb, ◌+◌, ◌≤◌, ◌<◌, ◌^◌, drop, length-append,
}
use remnix.Prelude.Int.{ℤ}
use remnix.Terminal.ParseQueue.{
  ParseItem, ParseQueue, zero_item, new_parse_queue, discard, accept, enqueue, compact, taken, pop,
  mark_parsed, stop, next_uint64,
}
use remnix.Terminal.Slices.{others, drop-append, length-set_at, drop-cons_inside}
use remnix.Terminal.ParseQueue.Refines.{pending, pop-cases, taken-pending}
use remnix.Terminal.ParseQueue.Numbered.{
  total, NumberedFrom, total-append, NumberedFrom-append, compact-inside, compact-same,
}

-- The count of bytes is that of the waiting chunks and within the budget, as its record is; the
-- waiting chunks have the last numbers that were given out, in order; none above these is parsed.
pub record IsValid (q : ParseQueue) : Type 0 where
  pub counted : q.queued_bytes ≡ total (pending q)
  pub within : q.queued_bytes ≤ q.budget
  pub recorded : q.max_queued ≤ q.budget
  pub inside : q.head ≤ length q.items
  pub before : ℕ
  pub numbered : NumberedFrom before (pending q)
  pub last : before + length (pending q) ≡ q.enqueued_seq
  pub parsed : q.parsed_seq ≤ q.enqueued_seq
  pub quiet : q.stopped ≡ true → pending q ≡ []

new-IsValid : (budget : ℤ) → IsValid (new_parse_queue budget)
unfolding new_parse_queue drop total
new-IsValid budget = record {
  counted = refl;
  within = omega arith;
  recorded = omega arith;
  inside = omega arith;
  before = 0;
  numbered = tt;
  last = refl;
  parsed = omega arith;
  quiet = λ e. refl;
}

-- The four ends of `enqueue`: nothing is done, the chunk is taken, it is taken by an emptied queue, or
-- the queue is emptied for nothing.
enqueue-cases :
    (chunk : List ℕ) (cpr : Bool) (q : ParseQueue)
    → ((enqueue chunk cpr q).0 ≡ q)
      ⊎ ((q.stopped ≡ false)
          × (((q.queued_bytes + length chunk ≤ q.budget)
                × ((enqueue chunk cpr q).0 ≡ accept chunk cpr q))
              ⊎ (((length chunk ≤ q.budget)
                    × ((enqueue chunk cpr q).0 ≡ accept chunk cpr (discard q)))
                  ⊎ ((enqueue chunk cpr q).0 ≡ discard q))))
unfolding enqueue
enqueue-cases chunk cpr q = ground arith

discard-IsValid : (q : ParseQueue) → q.stopped ≡ false → IsValid q → IsValid (discard q)
unfolding discard drop total
discard-IsValid q e v = record {
  counted = refl;
  within = omega arith;
  recorded = v.recorded;
  inside = omega arith;
  before = q.enqueued_seq;
  numbered = tt;
  last = omega arith;
  parsed = omega arith;
  quiet = λ e. refl;
}

stop-IsValid : (q : ParseQueue) → IsValid q → IsValid (stop q)
unfolding stop drop total
stop-IsValid q v = record {
  counted = refl;
  within = omega arith;
  recorded = v.recorded;
  inside = omega arith;
  before = q.enqueued_seq;
  numbered = tt;
  last = omega arith;
  parsed = omega arith;
  quiet = λ e. refl;
}

accept-IsValid :
    (chunk : List ℕ) (cpr : Bool) (q : ParseQueue)
    → q.stopped ≡ false
    → q.queued_bytes + length chunk ≤ q.budget
    → q.enqueued_seq + 1 < 2 ^ 64
    → IsValid q
    → IsValid (accept chunk cpr q)
unfolding accept
accept-IsValid chunk cpr q e fits small v =
    let item : ParseItem = record { seq = next_uint64 q.enqueued_seq; chunk = chunk; cpr = cpr } in
    let now = drop-append q.head q.items item v.inside in
    record {
      counted = rw (now, total-append (pending q) item) (omega (arith, v.counted));
      within = fits;
      recorded = ground (arith, v.recorded);
      inside = omega (arith, length-append q.items (item ∷ []), v.inside);
      before = v.before;
      numbered =
          rw now (NumberedFrom-append v.before (pending q) item v.numbered (omega (arith, v.last)));
      last = rw now (omega (arith, length-append (pending q) (item ∷ []), v.last));
      parsed = omega (arith, v.parsed);
      quiet = λ t. cc (e, t);
    }

pub taken-IsValid :
    (q : ParseQueue) (item : ParseItem)
    → pending q ≡ item ∷ others (pending q)
    → IsValid q
    → IsValid (compact (taken item q))
unfolding taken total
taken-IsValid q item e v =
    let (bytes, budget, high, enqueued, parsed, stopped) = compact-same (taken item q) in
    let now = taken-pending item q in
    let counted : q.queued_bytes ≡ length item.chunk + total (others (pending q)) =
      v.counted ∙ ap total e in
    let numbered : NumberedFrom v.before (item ∷ others (pending q)) =
      subst (NumberedFrom v.before) e v.numbered in
    let one_less : length (pending q) ≡ suc (length (others (pending q))) = ap length e in
    let last : v.before + suc (length (others (pending q))) ≡ q.enqueued_seq =
      omega (arith, v.last, one_less) in
    record {
      counted = rw (now, bytes) (omega arith);
      within = rw (bytes, budget) (omega (arith, v.within));
      recorded = rw (high, budget) v.recorded;
      inside = compact-inside (taken item q) (
          omega (
            arith,
            length-set_at q.head zero_item q.items,
            drop-cons_inside q.head q.items item _ e,
          ));
      before = suc v.before;
      numbered = rw now numbered.1;
      last = rw (now, enqueued) (omega arith);
      parsed = rw (parsed, enqueued) v.parsed;
      quiet = λ t. cc (v.quiet (sym stopped ∙ t), e);
    }

pub pop-IsValid : (q : ParseQueue) → IsValid q → IsValid (pop q).0
pop-IsValid q v = elim (pop-cases q) [
  | inl (e, p) ↦ rw p v
  | inr (item, e, p) ↦ rw p (taken-IsValid q item e v)
]

pub mark_parsed-IsValid :
    (seq : ℕ) (q : ParseQueue) → seq ≤ q.enqueued_seq → IsValid q → IsValid (mark_parsed seq q)
unfolding mark_parsed
mark_parsed-IsValid seq q h v = step (Bool-cases (ltb q.parsed_seq seq))
  where
    step :
        (ltb q.parsed_seq seq ≡ true) ⊎ (ltb q.parsed_seq seq ≡ false)
        → IsValid (if ltb q.parsed_seq seq then record q { parsed_seq = seq } else q)
    step (inl e) = rw e (record {
      counted = v.counted;
      within = v.within;
      recorded = v.recorded;
      inside = v.inside;
      before = v.before;
      numbered = v.numbered;
      last = v.last;
      parsed = h;
      quiet = v.quiet;
    })
    step (inr e) = rw e v

enqueue-IsValid :
    (chunk : List ℕ) (cpr : Bool) (q : ParseQueue)
    → q.enqueued_seq + 1 < 2 ^ 64
    → IsValid q
    → IsValid (enqueue chunk cpr q).0
enqueue-IsValid chunk cpr q small v = elim (enqueue-cases chunk cpr q) [
  | inl e ↦ rw e v
  | inr (running, inl (fits, e)) ↦ rw e (accept-IsValid chunk cpr q running fits small v)
  | inr (running, inr (inl (fits, e))) ↦ rw e (
      accept-IsValid chunk cpr (discard q) (unfold discard in running)
        (unfold discard in omega arith) (unfold discard in small) (discard-IsValid q running v))
  | inr (running, inr (inr e)) ↦ rw e (discard-IsValid q running v)
]

-- One call of a method, from one holder of the lock to the next. A number that is marked has been
-- given out, and numbers do not wrap around within the life of a queue.
pub data Step : ParseQueue → ParseQueue → Type 0 where
  enqueues :
      (chunk : List ℕ) (cpr : Bool) (q : ParseQueue)
      → q.enqueued_seq + 1 < 2 ^ 64
      → Step q (enqueue chunk cpr q).0
  pops : (q : ParseQueue) → Step q (pop q).0
  marks : (seq : ℕ) (q : ParseQueue) → seq ≤ q.enqueued_seq → Step q (mark_parsed seq q)
  stops : (q : ParseQueue) → Step q (stop q)

pub data Reachable (budget : ℤ) : ParseQueue → Type 0 where
  created : Reachable budget (new_parse_queue budget)
  steps : (q r : ParseQueue) → Reachable budget q → Step q r → Reachable budget r

Step-IsValid : {q r : ParseQueue} → Step q r → IsValid q → IsValid r
Step-IsValid (enqueues chunk cpr q small) v = enqueue-IsValid chunk cpr q small v
Step-IsValid (pops q) v = pop-IsValid q v
Step-IsValid (marks seq q h) v = mark_parsed-IsValid seq q h v
Step-IsValid (stops q) v = stop-IsValid q v

-- Every queue that calls of the methods can reach from a new one is valid: the count of bytes is that
-- of the chunks that wait and within the budget, and these have the last numbers given out, in order.
-- Numbers do not wrap around, and a number that is marked has been given out.
pub reachable-IsValid : (budget : ℤ) (q : ParseQueue) → Reachable budget q → IsValid q
reachable-IsValid budget q created = new-IsValid budget
reachable-IsValid budget q (steps p r h s) = Step-IsValid s (reachable-IsValid budget p h)
