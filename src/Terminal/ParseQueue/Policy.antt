-- ===== src/Terminal/ParseQueue/Policy.antt =====
-- What `enqueue` of internal/terminal/parse_queue.go keeps and what it drops.
use remnix.Prelude.{
  ℕ, Bool, false, not, ◌&&◌, ◌||◌, List, [], ◌∷◌, ◌++◌, if◌then◌else◌, arith, ◌≡◌, refl, length,
  leb, ◌+◌, ◌≤◌, drop,
}
use remnix.Terminal.ParseQueue.{
  ParseItem, ParseQueue, is_nil, next_uint64, discard, accept, enqueue,
}
use remnix.Terminal.Slices.{drop-append}
use remnix.Terminal.ParseQueue.Refines.{pending}
use remnix.Terminal.ParseQueue.Bounded.{IsValid}
use remnix.Terminal.ParseQueue.Numbered.{total}

-- The chunks that wait after another one comes: it joins them within the budget, it replaces them if
-- it fits alone, and otherwise nothing waits.
unfoldable pub backlog : ℕ → List ParseItem → ParseItem → List ParseItem
backlog budget waiting item =
    if leb (total waiting + length item.chunk) budget
    then waiting ++ item ∷ []
    else if leb (length item.chunk) budget
    then item ∷ []
    else []

abbrev pub next_item : ParseQueue → List ℕ → Bool → ParseItem
next_item q chunk cpr = record { seq = next_uint64 q.enqueued_seq; chunk = chunk; cpr = cpr }

accept-pending :
    (chunk : List ℕ) (cpr : Bool) (q : ParseQueue)
    → q.head ≤ length q.items
    → pending (accept chunk cpr q) ≡ pending q ++ next_item q chunk cpr ∷ []
unfolding accept
accept-pending chunk cpr q h = drop-append q.head q.items (next_item q chunk cpr) h

discard-pending : (q : ParseQueue) → pending (discard q) ≡ []
unfolding discard drop
discard-pending q = refl

restart-pending :
    (chunk : List ℕ) (cpr : Bool) (q : ParseQueue)
    → pending (accept chunk cpr (discard q)) ≡ next_item q chunk cpr ∷ []
unfolding accept discard drop
restart-pending chunk cpr q = refl

-- On a valid queue that is not stopped, `enqueue` of a chunk that is not empty, or that stands for a
-- cursor report, leaves the backlog of the policy. It reports success exactly when the chunk fits the
-- budget alone, and the queue is dirty afterwards exactly when it was or when something was dropped.
pub enqueue-backlog :
    (chunk : List ℕ) (cpr : Bool) (q : ParseQueue)
    → IsValid q
    → q.stopped ≡ false
    → (is_nil chunk && not cpr) ≡ false
    → (pending (enqueue chunk cpr q).0 ≡ backlog q.budget (pending q) (next_item q chunk cpr))
      × ((enqueue chunk cpr q).2 ≡ leb (length chunk) q.budget)
      × ((enqueue chunk cpr q).0.dirty
          ≡ (q.dirty || not (leb (total (pending q) + length chunk) q.budget)))
unfolding enqueue backlog
enqueue-backlog chunk cpr q v running some_chunk = ground (
  arith,
  v.counted,
  accept-pending chunk cpr q v.inside,
  discard-pending q,
  restart-pending chunk cpr q,
)
