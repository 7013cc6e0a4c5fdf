-- ===== src/Examples/Queues.antt =====
-- Instances for the parse queue of internal/terminal.
use remnix.Prelude.{
  true, false, not, ◌||◌, [], ◌∷◌, arith, ◌≡◌, refl, length, leb, ◌+◌, drop, set_at,
}
use remnix.Prelude.Int.{pos}
use remnix.Terminal.ParseQueue.{ParseQueue, new_parse_queue, enqueue, pop, drain, is_reached}
use remnix.Terminal.Slices.{others, first?}
use remnix.Terminal.ParseQueue.Refines.{pending, pop-pending}
use remnix.Terminal.ParseQueue.Bounded.{
  IsValid, Reachable, created, steps, enqueues, reachable-IsValid,
}
use remnix.Terminal.ParseQueue.Numbered.{total}
use remnix.Terminal.ParseQueue.Drain.{drain_caught_up}
use remnix.Terminal.ParseQueue.Policy.{backlog, next_item, enqueue-backlog}

program : Unit {0}
unfolding new_parse_queue enqueue pop drain is_reached drop set_at backlog total
program = tt

-- A queue of five bytes that has been given two chunks, of which one was taken.
abbrev one_chunk : ParseQueue
one_chunk = (enqueue (1 ∷ 2 ∷ []) false (new_parse_queue (pos 5))).0

abbrev two_chunks : ParseQueue
two_chunks = (enqueue (3 ∷ 4 ∷ []) true one_chunk).0

one_chunk-Reachable : Reachable (pos 5) one_chunk
unfolding program
one_chunk-Reachable =
    steps (new_parse_queue (pos 5)) one_chunk created
      (enqueues (1 ∷ 2 ∷ []) false (new_parse_queue (pos 5)) (omega arith))

two_chunks-Reachable : Reachable (pos 5) two_chunks
unfolding program
two_chunks-Reachable =
    steps one_chunk two_chunks one_chunk-Reachable
      (enqueues (3 ∷ 4 ∷ []) true one_chunk (omega arith))

reachable-IsValid_example : IsValid two_chunks
reachable-IsValid_example = reachable-IsValid (pos 5) two_chunks two_chunks-Reachable

two_chunks-IsValid : IsValid two_chunks
two_chunks-IsValid = reachable-IsValid (pos 5) two_chunks two_chunks-Reachable

pop-pending_example :
    ((pop two_chunks).1 ≡ first? (pending two_chunks))
    × (pending (pop two_chunks).0 ≡ others (pending two_chunks))
pop-pending_example = pop-pending two_chunks

-- Two more bytes do not fit, and replace what waits.
overflow_test :
    pending (enqueue (5 ∷ 6 ∷ []) false two_chunks).0
    ≡ record { seq = 3; chunk = 5 ∷ 6 ∷ []; cpr = false } ∷ []
unfolding program
overflow_test = refl

enqueue-backlog_example :
    (pending (enqueue (5 ∷ 6 ∷ []) false two_chunks).0
      ≡ backlog two_chunks.budget (pending two_chunks) (next_item two_chunks (5 ∷ 6 ∷ []) false))
    × ((enqueue (5 ∷ 6 ∷ []) false two_chunks).2 ≡ leb 2 two_chunks.budget)
    × ((enqueue (5 ∷ 6 ∷ []) false two_chunks).0.dirty
        ≡ (two_chunks.dirty || not (leb (total (pending two_chunks) + 2) two_chunks.budget)))
unfolding program
enqueue-backlog_example = enqueue-backlog (5 ∷ 6 ∷ []) false two_chunks two_chunks-IsValid refl refl

drain_caught_up_example :
    (pending (drain (length (pending two_chunks)) two_chunks) ≡ [])
    × ((drain (length (pending two_chunks)) two_chunks).parsed_seq ≡ two_chunks.enqueued_seq)
    × (is_reached 2 (drain (length (pending two_chunks)) two_chunks) ≡ true)
unfolding program
drain_caught_up_example = drain_caught_up two_chunks 2 two_chunks-IsValid (λ e. cc e) (omega arith)
