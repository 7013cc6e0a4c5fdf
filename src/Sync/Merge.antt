-- ===== src/Sync/Merge.antt =====
-- internal/sync/merge/apply.go: what an event does to the database.
pub mod Live
pub mod Converge
use remnix.Prelude.{
  String, ℕ, zero, suc, Bool, true, false, not, ◌&&◌, ◌||◌, List, [], ◌∷◌, ◌++◌, Option, none, some,
  map, ◌==◌, if◌then◌else◌, arith, ◌≡◌, refl, sym, ap, ◌∙◌, subst, Bool-cases, Option-cases, inl,
  inr, eq_iff, In, ◌⊎◌, ◌↔◌, ◌≢◌, All, length, ltb, leb, eqb, ◌+◌, ◌-◌, ◌≤◌, ◌<◌,
}
use remnix.Prelude.Int.{ℤ, pos, ltb_ℤ}
use remnix.Prelude.Result.{Result, ok, err, failed, ◌>>=◌}
use Prim.Native.String.{◌++◌ as ◌<>◌}
use remnix.History.Entry.{Entry, ChangeSet, no_changes, add_created, add_tombstoned}
use remnix.History.Table.{Table, by_origin, tombstone, tombstone_by_origin, insert}
use remnix.Device
use remnix.Sync.Db.{Db, Env}
use remnix.Sync.Event.{
  Event, HistoryCreated, HistoryTombstoned, DeviceMeta, type_history_created,
  type_history_tombstoned, type_device_meta, type_checkpoint_ref,
}

abbrev pub if_positive : ℤ → Option ℤ
if_positive n = if ltb_ℤ (pos 0) n then some n else none

-- The entry that `applyCreated` inserts.
unfoldable pub entry_of : Event → HistoryCreated → Entry
entry_of ev p = record {
  id = p.id;
  command = p.command;
  start_ts = p.start_ts;
  end_ts = if_positive p.end_ts;
  duration_ms = if_positive p.duration_ms;
  exit_status = p.exit_status;
  cwd = p.cwd;
  session_id = p.session_id;
  hostname = p.hostname;
  device_id = ev.device_id;
  shell = p.shell;
  deleted = false;
  origin_device_id = ev.device_id;
  origin_seq = some ev.seq;
  created_at = none;
}

-- The row that stands for an event that was deleted before it arrived.
unfoldable pub placeholder : String → String → ℤ → Entry
placeholder id device seq = record {
  id = id;
  command = "";
  start_ts = pos 0;
  end_ts = none;
  duration_ms = none;
  exit_status = none;
  cwd = "";
  session_id = "";
  hostname = "";
  device_id = device;
  shell = "";
  deleted = true;
  origin_device_id = device;
  origin_seq = some seq;
  created_at = none;
}

module _ (env : Env) where
  open env use {hash_command, print, now}

  -- `applyCreated` on a decoded payload: an event whose origin has a row, live or not, changes
  -- nothing, and then there is no entry. An insertion that a unique index ignores returns the entry.
  unfoldable pub create : Event → HistoryCreated → Table → Table × Option Entry
  unfolding entry_of
  create ev p rows = elim (by_origin ev.device_id ev.seq rows) [
    | some old ↦ (rows, none)
    | none ↦ ((insert hash_command now (entry_of ev p) rows).0, some (entry_of ev p))
  ]

  abbrev tombstone_id : HistoryTombstoned → String
  tombstone_id p =
      if p.history_id == ""
      then "tombstone:" <> p.origin_device_id <> ":" <> print p.origin_seq
      else p.history_id

  -- The part of `applyTombstone` for an origin: the rows, and the ids that it reports.
  unfoldable pub delete_origin : HistoryTombstoned → Table → Table × List String
  unfolding placeholder
  delete_origin p rows = elim (by_origin p.origin_device_id p.origin_seq rows) [
    | none ↦ (
      (insert hash_command now (placeholder (tombstone_id p) p.origin_device_id p.origin_seq)
          rows).0,
      tombstone_id p ∷ [],
    )
    | some old ↦ (
      tombstone_by_origin p.origin_device_id p.origin_seq rows,
      if p.history_id == ""
          then ("origin:" <> p.origin_device_id <> ":" <> print p.origin_seq) ∷ []
          else [],
    )
  ]

  -- `applyTombstone` on a decoded payload.
  unfoldable pub bury : HistoryTombstoned → Table → Table × List String
  unfolding delete_origin
  bury p rows =
      let by_id = not (p.history_id == "") in
      let rows' = if by_id then tombstone p.history_id rows else rows in
      let ids = if by_id then p.history_id ∷ [] else [] in
      if not (p.origin_device_id == "") && ltb_ℤ (pos 0) p.origin_seq
      then (let r = delete_origin p rows' in (r.0, ids ++ r.1))
      else (rows', ids)

  -- `applyDeviceMeta` on a decoded payload.
  unfoldable pub device_of : Event → DeviceMeta → Device.Device
  device_of ev p = record {
    id = ev.device_id;
    name = p.name;
    hostname = p.hostname;
    status = if p.status == "" then Device.status_active else p.status;
    created_at = some now;
    retired_at = none;
  }

  -- What a creation reports: nothing for an entry with no id, as the zero entry.
  abbrev created_changes : Option Entry → ChangeSet
  created_changes none = no_changes
  created_changes (some e) = if e.id == "" then no_changes else add_created no_changes e

  -- `ApplyTracked`
  unfoldable pub apply_tracked : Event → Db → Result (Db × ChangeSet)
  unfolding create bury device_of
  apply_tracked ev db =
      if ev.type == type_history_created
      then (do
        p ← env.cbor.unmarshal_created ev.payload
        let r = create ev p db.history
        ok (record db { history = r.0 }, created_changes r.1))
      else if ev.type == type_history_tombstoned
      then (do
        p ← env.cbor.unmarshal_tombstoned ev.payload
        let r = bury p db.history
        ok (record db { history = r.0 }, add_tombstoned no_changes r.1))
      else if ev.type == type_device_meta
      then (do
        p ← env.cbor.unmarshal_device_meta ev.payload
        ok (record db { devices = Device.upsert_row (device_of ev p) db.devices }, no_changes))
      else if ev.type == type_checkpoint_ref
      then ok (db, no_changes)
      else err (failed "unknown event type")
