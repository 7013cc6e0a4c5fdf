-- ===== src/Sync/Publish.antt =====
-- internal/sync/syncer/engine.go: publishing the events of the local device.
use remnix.Prelude.{
  String, Bool, true, false, not, ◌&&◌, List, [], ◌∷◌, Option, none, some, ◌==◌, if◌then◌else◌,
}
use remnix.Prelude.Int.{ℤ, pos, leb_ℤ, ltb_ℤ}
use remnix.Prelude.Dict.{lookup, insert}
use remnix.Prelude.Result.{Result, ok, err}
use Prim.Native.String.{◌++◌ as ◌<>◌}
use remnix.History.Entry.{Entry}
use remnix.Sync.Transport.{Bytes, Transport}
use remnix.Prelude.Int.{add64}
use remnix.Sync.Db.{Db, Env}
use remnix.Sync.Event.{Event}
use remnix.Sync.Events.{max_seq, compact_up_to_heads, raise_to}
use remnix.Sync.Events.Range.{range}
use remnix.Sync.Heads
use remnix.Sync.Heads.{advance_contiguous}
use remnix.Sync.Bundle.{Sealing, pack}

-- The options of an engine that the modelled functions read.
pub record Options : Type 0 where
  pub device_id : String
  pub endpoint_id : String

unfoldable pub trust_kind : Options → String
trust_kind o = if o.endpoint_id == "" then "remote" else "remote:" <> o.endpoint_id

unfoldable pub published_seq_key : Options → String
published_seq_key o =
    if o.endpoint_id == ""
    then "published_seq:" <> o.device_id
    else "published_seq:" <> o.endpoint_id <> ":" <> o.device_id

-- `MAX(origin_seq)` of a device.
unfoldable pub max_origin_seq : String → List Entry → Option ℤ
max_origin_seq device_id [] = none
max_origin_seq device_id (e ∷ rows) =
    let rest = max_origin_seq device_id rows in
    if not (device_id == "") && e.origin_device_id == device_id
    then elim e.origin_seq [
      | none ↦ rest
      | some s ↦ elim rest [ none ↦ some s | some m ↦ some (if ltb_ℤ m s then s else m) ]
    ]
    else rest

-- `localMaxSeq`
unfoldable pub local_max_seq : Options → Db → ℤ
unfolding max_origin_seq
local_max_seq o db =
    raise_to (max_origin_seq o.device_id db.history)
      (raise_to (lookup o.device_id db.heads) (raise_to (max_seq o.device_id db.events) (pos 0)))

module _ (env : Env) where
  module _ (s : Sealing) (t : Transport) where
    -- `lastPub`: an absent or unreadable value is zero. `parse` is `strconv.ParseInt`.
    abbrev pub last_published : (String → Option ℤ) → Options → Db → ℤ
    last_published parse o db = elim (lookup (published_seq_key o) db.transport_state) [
      | none ↦ pos 0
      | some v ↦ elim (parse v) [ none ↦ pos 0 | some n ↦ n ]
    ]

    abbrev is_nil : List Event → Bool
    is_nil [] = true
    is_nil (ev ∷ evs) = false

    -- The end of `publishLocal`, once the bundle is written.
    unfoldable pub mark_published : Options → ℤ → Db → Db
    mark_published o max db = compact_up_to_heads (record db {
      transport_state = insert (published_seq_key o) (env.print max) db.transport_state;
      heads = Heads.set db.heads o.device_id max;
    })

    -- Writing the bundle of `publishLocal` and marking it; `filename` is `bundle.Filename`.
    unfoldable pub put_bundle :
        (Bytes → String) → Options → ℤ → Bytes → t.Remote → Db → Result (Unit {0}) × t.Remote × Db
    unfolding mark_published
    put_bundle filename o max raw remote db =
        let w = t.put_atomic remote ("events/" <> o.device_id <> "/" <> filename raw) raw in
        elim w.0 [ ok u ↦ (ok tt, w.1, mark_published o max db) | err e ↦ (err e, w.1, db) ]

    -- `publishLocal`. The events above the last published number, up to the largest local one, go out
    -- as one bundle.
    unfoldable pub publish_local :
        (String → Option ℤ)
        → (Bytes → String)
        → Options
        → Bytes
        → String
        → Result Bytes
        → t.Remote
        → Db
        → Result (Unit {0}) × t.Remote × Db
    publish_local parse filename o smk generation_id nonce remote db =
        let max = local_max_seq o db in
        let last = last_published parse o db in
        if leb_ℤ max last
        then (ok tt, remote, db)
        else elim (range env db o.device_id (add64 last (pos 1)) max) [
          | err e ↦ (err e, remote, db)
          | ok evs ↦
              if is_nil evs
              then (ok tt, remote, db)
              else elim (pack s o.device_id generation_id evs smk nonce) [
                | err e ↦ (err e, remote, db)
                | ok (raw, h) ↦ put_bundle filename o max raw remote db
              ]
        ]
