-- ===== src/Sync/Event.antt =====
-- internal/sync/event/event.go: the events that devices exchange.
use remnix.Prelude.{some, String, Option, ◌==◌, ◌||◌, if◌then◌else◌, none}
use remnix.Prelude.Int.{ℤ, pos, eqb_ℤ, leb_ℤ}
use remnix.Prelude.Result.{Result, ok, err, failed, ◌>>=◌}
use remnix.Sync.Transport.{Bytes}
use remnix.History.Entry.{Entry}

pub record HistoryCreated : Type 0 where
  pub id : String
  pub command : String
  pub start_ts : ℤ
  pub end_ts : ℤ
  pub duration_ms : ℤ
  pub exit_status : Option ℤ
  pub cwd : String
  pub session_id : String
  pub hostname : String
  pub shell : String

pub record HistoryTombstoned : Type 0 where
  pub history_id : String
  pub origin_device_id : String
  pub origin_seq : ℤ

pub record DeviceMeta : Type 0 where
  pub name : String
  pub hostname : String
  pub status : String

abbrev pub current_version : ℤ
current_version = pos 1

abbrev pub type_history_created : String
type_history_created = "history-created"

abbrev pub type_history_tombstoned : String
type_history_tombstoned = "history-tombstoned"

abbrev pub type_device_meta : String
type_device_meta = "device-meta"

abbrev pub type_checkpoint_ref : String
type_checkpoint_ref = "checkpoint-ref"

pub record Event : Type 0 where
  pub version : ℤ
  pub type : String
  pub device_id : String
  pub seq : ℤ
  pub time_unix : ℤ
  pub payload : Bytes

-- internal/cborx: the CBOR library, for the values that the event code writes and reads.
pub record Cbor : Type 0 where
  pub marshal_event : Event → Result Bytes
  pub unmarshal_event : Bytes → Result Event
  pub marshal_created : HistoryCreated → Result Bytes
  pub unmarshal_created : Bytes → Result HistoryCreated
  pub marshal_tombstoned : HistoryTombstoned → Result Bytes
  pub unmarshal_tombstoned : Bytes → Result HistoryTombstoned
  pub unmarshal_device_meta : Bytes → Result DeviceMeta

abbrev or_zero : Option ℤ → ℤ
or_zero none = pos 0
or_zero (some n) = n

-- The payload of `NewHistoryCreated`: what the entry lacks is zero, but for the exit status.
unfoldable pub created_of : Entry → HistoryCreated
created_of e = record {
  id = e.id;
  command = e.command;
  start_ts = e.start_ts;
  end_ts = or_zero e.end_ts;
  duration_ms = or_zero e.duration_ms;
  exit_status = e.exit_status;
  cwd = e.cwd;
  session_id = e.session_id;
  hostname = e.hostname;
  shell = e.shell;
}

module _ (c : Cbor) where
  open c use {
    marshal_event, unmarshal_event, marshal_created, marshal_tombstoned, unmarshal_created,
    unmarshal_tombstoned,
  }

  unfoldable pub encode : Event → Result Bytes
  encode ev =
      marshal_event
        (if eqb_ℤ ev.version (pos 0) then record ev { version = current_version } else ev)

  unfoldable pub decode : Bytes → Result Event
  decode b = do
    ev ← unmarshal_event b
    if eqb_ℤ ev.version current_version
        then (if ev.device_id == "" || leb_ℤ ev.seq (pos 0) || ev.type == ""
            then err (failed "malformed event")
            else ok ev)
        else err (failed "unsupported event version")

  abbrev pub decode_history_created : Event → Result HistoryCreated
  decode_history_created ev = unmarshal_created ev.payload

  abbrev pub decode_history_tombstoned : Event → Result HistoryTombstoned
  decode_history_tombstoned ev = unmarshal_tombstoned ev.payload

  -- `NewHistoryCreated`, at the time `now` in milliseconds.
  unfoldable pub new_history_created : String → ℤ → Entry → ℤ → Result Event
  unfolding created_of
  new_history_created device_id seq e now = do
    payload ← marshal_created (created_of e)
    ok (record {
      version = current_version;
      type = type_history_created;
      device_id = device_id;
      seq = seq;
      time_unix = now;
      payload = payload;
    })

  unfoldable pub new_history_tombstoned : String → ℤ → HistoryTombstoned → ℤ → Result Event
  new_history_tombstoned device_id seq p now = do
    payload ← marshal_tombstoned p
    ok (record {
      version = current_version;
      type = type_history_tombstoned;
      device_id = device_id;
      seq = seq;
      time_unix = now;
      payload = payload;
    })
