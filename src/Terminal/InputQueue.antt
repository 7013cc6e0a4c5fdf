-- ===== src/Terminal/InputQueue.antt =====
-- internal/terminal/pty_input.go: the bounded queue of the bytes that the user types, which loses none.
-- A nil queue, on which each method does nothing, and the counters for diagnosis are left out.
pub mod Calls
pub mod Lossless
use remnix.Prelude.{
  ℕ, zero, suc, Bool, true, false, not, ◌&&◌, List, [], ◌∷◌, ◌++◌, Option, none, some,
  if◌then◌else◌, length, ltb, leb, ◌+◌, ◌-◌, ◌*◌, drop, set_at, get_elem?,
}
use remnix.Prelude.Int.{ℤ, pos, pos_part, ltb_ℤ}

abbrev pub max_pty_input_bytes : ℕ
max_pty_input_bytes = 1048576

pub data InputError : Type 0 where
  stopped_error saturated_error : InputError

pub record InputQueue : Type 0 where
  pub chunks : List (List ℕ)
  pub head : ℕ
  pub bytes : ℕ
  pub budget : ℕ
  pub max_depth : ℕ
  pub stopped : Bool

unfoldable pub new_input_queue : ℤ → InputQueue
new_input_queue budget = record {
  chunks = [];
  head = 0;
  bytes = 0;
  budget = if ltb_ℤ budget (pos 1) then max_pty_input_bytes else pos_part budget;
  max_depth = 0;
  stopped = false;
}

abbrev is_nil : List ℕ → Bool
is_nil [] = true
is_nil (b ∷ bs) = false

-- `push`: the queue and the error.
unfoldable pub push : List ℕ → InputQueue → InputQueue × Option InputError
push chunk q =
    let bytes = q.bytes + length chunk in
    if is_nil chunk
    then (q, none)
    else if q.stopped
    then (q, some stopped_error)
    else if ltb q.budget bytes
    then (q, some saturated_error)
    else (
      record q {
        chunks = q.chunks ++ chunk ∷ [];
        bytes = bytes;
        max_depth = if ltb q.max_depth bytes then bytes else q.max_depth;
      },
      none,
    )

-- The queue after its head slot has been taken.
unfoldable pub taken : List ℕ → InputQueue → InputQueue
taken chunk q = record q {
  chunks = set_at q.head [] q.chunks;
  head = suc q.head;
  bytes = q.bytes - length chunk;
}

-- The slots before the head are given back once they are most of the slice.
unfoldable pub compact : InputQueue → InputQueue
compact q =
    if ltb 32 q.head && leb (length q.chunks) (q.head * 2)
    then record q { chunks = drop q.head q.chunks; head = 0 }
    else q

-- `popWait` once it does not wait: with no chunk, the queue is stopped.
unfoldable pub pop : InputQueue → InputQueue × Option (List ℕ)
unfolding taken compact
pop q = elim (get_elem? q.chunks q.head) [
  | none ↦ (q, none)
  | some chunk ↦ (compact (taken chunk q), some chunk)
]

unfoldable pub stop : InputQueue → InputQueue
stop q = record q { stopped = true }
