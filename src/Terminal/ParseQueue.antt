-- ===== src/Terminal/ParseQueue.antt =====
-- internal/terminal/parse_queue.go: the bounded backlog of output that the shadow emulator parses.
-- Every method runs under the queue's lock, so an execution is a sequence of them. A nil queue, on
-- which each of them does nothing, is left out. Sizes of memory do not reach the range of `int`; the
-- numbers of the chunks are `uint64` and wrap around.
pub mod Refines
pub mod Numbered
pub mod Bounded
pub mod Drain
pub mod Policy
use remnix.Prelude.{
  ℕ, zero, suc, Bool, true, false, not, ◌&&◌, ◌||◌, List, [], ◌∷◌, ◌++◌, Option, none, some,
  if◌then◌else◌, length, ltb, leb, ◌+◌, ◌-◌, ◌*◌, ◌%◌, ◌^◌, drop, set_at, get_elem?,
}
use remnix.Prelude.Int.{ℤ, pos, pos_part, ltb_ℤ}

abbrev pub max_parse_queued_bytes : ℕ
max_parse_queued_bytes = 1048576

pub record ParseItem : Type 0 where
  pub seq : ℕ
  pub chunk : List ℕ
  pub cpr : Bool

abbrev pub zero_item : ParseItem
zero_item = record { seq = 0; chunk = []; cpr = false }

pub record ParseQueue : Type 0 where
  pub items : List ParseItem
  pub head : ℕ
  pub queued_bytes : ℕ
  pub enqueued_seq : ℕ
  pub parsed_seq : ℕ
  pub dirty : Bool
  pub stopped : Bool
  pub budget : ℕ
  pub max_queued : ℕ
  pub saturations : ℕ

-- `n++` on a `uint64`
abbrev pub next_uint64 : ℕ → ℕ
next_uint64 n = (n + 1) % 2 ^ 64

unfoldable pub new_parse_queue : ℤ → ParseQueue
new_parse_queue budget = record {
  items = [];
  head = 0;
  queued_bytes = 0;
  enqueued_seq = 0;
  parsed_seq = 0;
  dirty = false;
  stopped = false;
  budget = if ltb_ℤ budget (pos 1) then max_parse_queued_bytes else pos_part budget;
  max_queued = 0;
  saturations = 0;
}

-- The backlog goes when the budget would be passed.
unfoldable pub discard : ParseQueue → ParseQueue
discard q = record q {
  saturations = next_uint64 q.saturations;
  dirty = true;
  items = [];
  head = 0;
  queued_bytes = 0;
  parsed_seq = q.enqueued_seq;
}

-- The chunk goes to the end of the queue, under the next number.
unfoldable pub accept : List ℕ → Bool → ParseQueue → ParseQueue
accept chunk cpr q =
    let seq = next_uint64 q.enqueued_seq in
    let queued = q.queued_bytes + length chunk in
    record q {
      enqueued_seq = seq;
      items = q.items ++ record { seq = seq; chunk = chunk; cpr = cpr } ∷ [];
      queued_bytes = queued;
      max_queued = if ltb q.max_queued queued then queued else q.max_queued;
    }

abbrev pub is_nil : List ℕ → Bool
is_nil [] = true
is_nil (b ∷ bs) = false

-- `enqueue`: the queue, and the number and flag that it returns.
unfoldable pub enqueue : List ℕ → Bool → ParseQueue → ParseQueue × ℕ × Bool
unfolding discard accept
enqueue chunk cpr q =
    let accepted = accept chunk cpr q in
    let restarted = accept chunk cpr (discard q) in
    if is_nil chunk && not cpr
    then (q, 0, false)
    else if q.stopped
    then (q, q.enqueued_seq, false)
    else if ltb q.budget (q.queued_bytes + length chunk)
    then (if ltb q.budget (length chunk)
        then (discard q, q.enqueued_seq, false)
        else (restarted, restarted.enqueued_seq, true))
    else (accepted, accepted.enqueued_seq, true)

-- The slots before the head are given back once they are most of the slice.
unfoldable pub compact : ParseQueue → ParseQueue
compact q =
    if ltb 32 q.head && leb (length q.items) (q.head * 2)
    then record q { items = drop q.head q.items; head = 0 }
    else q

-- The queue after its head slot has been taken.
unfoldable pub taken : ParseItem → ParseQueue → ParseQueue
taken item q = record q {
  items = set_at q.head zero_item q.items;
  head = suc q.head;
  queued_bytes = q.queued_bytes - length item.chunk;
}

-- `popLocked`; on ℕ, the subtraction stops at zero as the code makes it.
unfoldable pub pop : ParseQueue → ParseQueue × Option ParseItem
unfolding compact taken
pop q = elim (get_elem? q.items q.head) [
  | none ↦ (q, none)
  | some item ↦ (compact (taken item q), some item)
]

unfoldable pub mark_parsed : ℕ → ParseQueue → ParseQueue
mark_parsed seq q = if ltb q.parsed_seq seq then record q { parsed_seq = seq } else q

unfoldable pub stop : ParseQueue → ParseQueue
stop q = record q {
  stopped = true;
  items = [];
  head = 0;
  queued_bytes = 0;
  parsed_seq = q.enqueued_seq;
}

-- Whether `wait` returns without waiting.
unfoldable pub is_reached : ℕ → ParseQueue → Bool
is_reached target q = not (ltb q.parsed_seq target) || q.stopped

-- The loop of the parser: it takes a chunk, parses it and marks its number, until there is none.
-- `popWait` would then wait. The fuel is the number of rounds.
unfoldable pub drain : ℕ → ParseQueue → ParseQueue
unfolding pop mark_parsed
drain zero q = q
drain (suc fuel) q =
    let r = pop q in elim r.1 [ none ↦ q | some item ↦ drain fuel (mark_parsed item.seq r.0) ]
