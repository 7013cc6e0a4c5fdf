-- ===== src/Sync/Events/Known.antt =====
-- Which sequence numbers the database has seen (internal/sync/event/store.go): compaction forgets
-- none of them, and `NextSeq` is above all of them.
use remnix.Prelude.{
  String, true, List, [], ◌∷◌, Option, none, some, arith, ◌≡◌, Option-cases, inl, inr, eq_iff, ◌⊎◌,
}
use remnix.Prelude.Int.{add64_in_range, ℤ, pos, ◌≤ℤ◌, ◌<ℤ◌, max64, min64, int_laws, eqb_ℤ_iff}
use remnix.Prelude.Dict.{lookup}
use remnix.Sync.Frontier.{Frontier, at}
use remnix.Sync.Db.{Db, EventRow}
use remnix.Sync.Events.{exists_row, max_seq, next_seq, last_seq, compact_rows, compact_up_to_heads}

-- The event has a row, or lies at or below the head of its device.
abbrev pub Known : Db → String → ℤ → Type 0
Known db device_id seq =
    (exists_row device_id seq db.events ≡ true) ⊎ (seq ≤ℤ at db.heads device_id)

compact_rows_known :
    (heads : Frontier) (rows : List EventRow) (device_id : String) (seq : ℤ)
    → exists_row device_id seq rows ≡ true
    → (exists_row device_id seq (compact_rows heads rows) ≡ true) ⊎ (seq ≤ℤ at heads device_id)
unfolding exists_row compact_rows
compact_rows_known heads [] device_id seq h = cc
compact_rows_known heads (r ∷ rows) device_id seq h = ground (
  arith,
  eq_iff r.device_id device_id,
  eqb_ℤ_iff r.seq seq,
  compact_rows_known heads rows device_id seq,
)

-- Compaction forgets no event: what was known before is known after it.
pub compact_up_to_heads-Known :
    (db : Db) (device_id : String) (seq : ℤ)
    → Known db device_id seq
    → Known (compact_up_to_heads db) device_id seq
unfolding compact_up_to_heads
compact_up_to_heads-Known db device_id seq (inl h) =
    compact_rows_known db.heads db.events device_id seq h
compact_up_to_heads-Known db device_id seq (inr h) = inr h

abbrev AtMost : ℤ → Option ℤ → Type 0
AtMost seq none = ⊥
AtMost seq (some m) = seq ≤ℤ m

max_seq_bound :
    (device_id : String) (seq : ℤ) (rows : List EventRow)
    → exists_row device_id seq rows ≡ true
    → AtMost seq (max_seq device_id rows)
unfolding exists_row max_seq
max_seq_bound device_id seq [] h = cc
max_seq_bound device_id seq (r ∷ rows) h = ground (
  arith,
  eq_iff r.device_id device_id,
  eqb_ℤ_iff r.seq seq,
  max_seq_bound device_id seq rows,
  Option-cases (max_seq device_id rows),
)

last_seq_bound :
    (db : Db) (device_id : String) (seq : ℤ)
    → (exists_row device_id seq db.events ≡ true) ⊎ (lookup device_id db.heads ≡ some seq)
    → seq ≤ℤ last_seq db device_id
unfolding last_seq
last_seq_bound db device_id seq h = ground (arith, max_seq_bound device_id seq db.events)

-- Where the largest number of the device's events and head is an `int64` below the largest one,
-- `NextSeq` gives a number above every event of the device and above its head.
pub next_seq-fresh :
    (db : Db) (device_id : String) (seq : ℤ)
    → min64 ≤ℤ last_seq db device_id
    → last_seq db device_id <ℤ max64
    → (exists_row device_id seq db.events ≡ true) ⊎ (lookup device_id db.heads ≡ some seq)
    → seq <ℤ next_seq db device_id
unfolding next_seq
next_seq-fresh db device_id seq lo hi h =
    let bound = last_seq_bound db device_id seq h in
    rw (add64_in_range (last_seq db device_id) (pos 1) (omega int_laws) (omega int_laws))
      (omega int_laws)
