-- ===== src/Sync/Db.antt =====
-- The local database as the sync code uses it: the tables of internal/db/migrations that
-- internal/sync reads and writes.
use remnix.Prelude.{String, Bool, ◌&&◌, List, ◌==◌}
use remnix.Prelude.Int.{ℤ, eqb_ℤ}
use remnix.Prelude.Dict.{Dict}
use remnix.Sync.Transport.{Bytes}
use remnix.Sync.Frontier.{Frontier}
use remnix.Sync.Event.{Cbor}
use remnix.History.Entry.{Entry}
use remnix.Device.{Device}

-- A row of `sync_events`. The empty id and payload stand for NULL.
pub record EventRow : Type 0 where
  pub device_id : String
  pub seq : ℤ
  pub event_type : String
  pub history_id : String
  pub payload : Bytes
  pub applied : Bool
  pub created_at : ℤ

pub record Db : Type 0 where
  pub history : List Entry
  pub events : List EventRow
  pub heads : Frontier
  pub devices : List Device
  pub transport_state : Dict String

-- The parts that the database code takes from outside: the CBOR library, SHA-256, the decimal
-- printer, and the clock, in milliseconds.
pub record Env : Type 0 where
  pub cbor : Cbor
  pub hash_command : String → Bytes
  pub print : ℤ → String
  pub now : ℤ

-- `device_id = ? AND seq = ?`
unfoldable pub is_event : String → ℤ → EventRow → Bool
is_event device_id seq r = r.device_id == device_id && eqb_ℤ r.seq seq
