-- ===== src/Examples/Events.antt =====
-- Tests and instances for the event log, the heads, the merge and the pull of internal/sync.
use remnix.Prelude.{
  Bool, true, false, List, [], ◌∷◌, some, ◌==◌, if◌then◌else◌, arith, ◌≡◌, refl, inl, String, In,
  ◌⊎◌,
}
use remnix.Sync.Engine.Replay.{apply_events_replay}
use remnix.Prelude.Int.{int_laws, ℤ, pos, ◌<ℤ◌, add64}
use remnix.Prelude.Dict.{lookup, insert}
use remnix.Prelude.Result.{ok, err, failed}
use remnix.Sync.Frontier.{dominates, Frontier, at, advance}
use remnix.History.Entry.{no_changes, ChangeSet}
use remnix.Sync.Db.{Db, Env, EventRow, is_event}
use remnix.Sync.Event.{
  Event, HistoryCreated, HistoryTombstoned, Cbor, type_history_created, type_history_tombstoned,
}
use remnix.Sync.Events.{exists_row, append, mark_applied, last_seq, next_seq, compact_up_to_heads}
use remnix.Sync.Events.Known.{Known, next_seq-fresh, compact_up_to_heads-Known}
use remnix.Sync.Heads
use remnix.Sync.Heads.{advance_contiguous, applied_row}
use remnix.Sync.Heads.Contiguous.{Advanced, set-eq-advance, advance_contiguous-Advanced}
use remnix.Sync.Merge.{entry_of, create, bury, apply_tracked}
use remnix.Sync.Merge.Live.{live, survivors}
use remnix.Sync.Merge.Converge.{deletion_of, IsCreation, create-bury_converge}
use remnix.History.Table.{get}
use remnix.Sync.Bootstrap.{bootstrap}
use remnix.Sync.Engine.CatchUp.{Settled, Raised, IsCaughtUp, advance_all-Raised}
use remnix.Sync.Engine.{advance_all, apply_events, apply_new, is_known}

program : Unit {0}
unfolding add64 lookup insert is_event exists_row append mark_applied entry_of get bootstrap
    dominates last_seq next_seq compact_up_to_heads Heads.set advance_contiguous applied_row create
    bury apply_tracked live survivors apply_events apply_new is_known
program = tt

abbrev pub created : HistoryCreated
created = record {
  id = "h1";
  command = "ls";
  start_ts = pos 100;
  end_ts = pos 0;
  duration_ms = pos 0;
  exit_status = some (pos 0);
  cwd = "/tmp";
  session_id = "s";
  hostname = "host";
  shell = "zsh";
}

abbrev pub creation : ℤ → Event
creation seq = record {
  version = pos 1;
  type = type_history_created;
  device_id = "d1";
  seq = seq;
  time_unix = pos 100;
  payload = "created";
}

abbrev pub deletion : Event
deletion = record {
  version = pos 1;
  type = type_history_tombstoned;
  device_id = "d2";
  seq = pos 1;
  time_unix = pos 200;
  payload = "tombstoned";
}

-- Payloads are named by short texts.
abbrev cbor : Cbor
cbor = record {
  marshal_event = λ ev. ok ev.payload;
  unmarshal_event = λ b. err (failed "event");
  marshal_created = λ p. ok "created";
  unmarshal_created = λ b. if b == "created" then ok created else err (failed "created");
  marshal_tombstoned = λ p. ok "tombstoned";
  unmarshal_tombstoned = λ b.
      if b == "tombstoned"
      then ok (record { history_id = "h1"; origin_device_id = "d1"; origin_seq = pos 3 })
      else err (failed "tombstoned");
  unmarshal_device_meta = λ b. err (failed "device meta");
}

abbrev pub env : Env
env = record { cbor = cbor; hash_command = λ command. command; print = λ n. "n"; now = pos 300 }

abbrev row : ℤ → Bool → EventRow
row seq applied = record {
  device_id = "d1";
  seq = seq;
  event_type = type_history_created;
  history_id = "h0";
  payload = "";
  applied = applied;
  created_at = pos 100;
}

-- The head of `d1` is 1. Its events 2, 3 and 5 are applied, 6 is not.
abbrev pub db : Db
db = record {
  history = [];
  events = row (pos 2) true ∷ row (pos 3) true ∷ row (pos 5) true ∷ row (pos 6) false ∷ [];
  heads = ("d1", pos 1) ∷ [];
  devices = [];
  transport_state = [];
}

advance_contiguous_test : advance_contiguous db "d1" ≡ some (("d1", pos 3) ∷ [])
unfolding program
advance_contiguous_test = refl

next_seq_test : next_seq db "d1" ≡ pos 7
unfolding program
next_seq_test = refl

compact_up_to_heads_test :
    (compact_up_to_heads (record db { heads = ("d1", pos 3) ∷ [] })).events
    ≡ row (pos 5) true ∷ row (pos 6) false ∷ []
unfolding program
compact_up_to_heads_test = refl

advance_contiguous-Advanced_example :
    (after : Frontier) × (advance_contiguous db "d1" ≡ some after)
    × Advanced "d1" (pos 1) db.events db.heads after
unfolding program
advance_contiguous-Advanced_example =
    advance_contiguous-Advanced db "d1" (omega int_laws) (omega int_laws) (omega int_laws)

set-eq-advance_example :
    at (Heads.set db.heads "d1" (pos 4)) "d1" ≡ at (advance db.heads "d1" (pos 4)) "d1"
set-eq-advance_example = set-eq-advance db.heads "d1" (pos 4) (omega arith) "d1"

next_seq-fresh_example : pos 5 <ℤ next_seq db "d1"
unfolding program
next_seq-fresh_example = next_seq-fresh db "d1" (pos 5) (omega int_laws) (omega int_laws) (inl refl)

compact_up_to_heads-Known_example : Known (compact_up_to_heads db) "d1" (pos 5)
unfolding program
compact_up_to_heads-Known_example = compact_up_to_heads-Known db "d1" (pos 5) (inl refl)

creation-IsCreation : IsCreation (creation (pos 3)) created
creation-IsCreation = record { id_present = refl; device_present = refl; positive = omega arith }

abbrev deleted_record : HistoryTombstoned
deleted_record = deletion_of (creation (pos 3)) created

create-bury_converge_example :
    (live (bury env deleted_record (create env (creation (pos 3)) created []).0).0
      ≡ survivors "h1" "d1" (pos 3) [])
    × (live (create env (creation (pos 3)) created (bury env deleted_record []).0).0
        ≡ survivors "h1" "d1" (pos 3) [])
create-bury_converge_example =
    create-bury_converge env (creation (pos 3)) created [] creation-IsCreation

-- A creation, its deletion by another device, and the creation again.
abbrev pulled : List Event
pulled = creation (pos 7) ∷ deletion ∷ creation (pos 7) ∷ []

apply_events_test : (r : Db × ChangeSet) × (apply_events env pulled db ≡ ok r)
unfolding program
apply_events_test = (_, refl)

abbrev after : Db × ChangeSet
after = apply_events_test.0

apply_events_replay_example :
    (apply_events env pulled after.0 ≡ ok (after.0, no_changes))
    × (apply_events env pulled (compact_up_to_heads after.0)
        ≡ ok (compact_up_to_heads after.0, no_changes))
apply_events_replay_example =
    apply_events_replay env pulled db after after.0.heads apply_events_test.1 (λ id. omega int_laws)

pub db-Settled : Settled db
unfolding program
db-Settled = record {
  rows = omega int_laws;
  nonneg = λ id. ground arith;
  small = λ id. ground arith;
}

advance_all-Raised_example :
    (later : Db) × (advance_all (("d1", pos 3) ∷ ("d2", pos 1) ∷ []) db ≡ some later)
    × Raised db later
    × ((j : String) → In j ("d1" ∷ "d2" ∷ []) ⊎ IsCaughtUp db j → IsCaughtUp later j)
advance_all-Raised_example = advance_all-Raised (("d1", pos 3) ∷ ("d2", pos 1) ∷ []) db db-Settled
