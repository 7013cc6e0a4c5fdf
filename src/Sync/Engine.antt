-- ===== src/Sync/Engine.antt =====
-- internal/sync/syncer/engine.go: pulling the events of other devices, and publishing one's own.
pub mod Replay
pub mod CatchUp
use remnix.Prelude.{
  String, ℕ, zero, suc, Bool, true, false, not, ◌&&◌, ◌||◌, List, [], ◌∷◌, ◌++◌, Option, none, some,
  map, ◌==◌, if◌then◌else◌, arith, ◌≡◌, refl, sym, ap, ◌∙◌, subst, Bool-cases, Option-cases, inl,
  inr, eq_iff, In, ◌⊎◌, ◌↔◌, ◌≢◌, All, length, ltb, leb, eqb, ◌+◌, ◌-◌, ◌≤◌, ◌<◌,
}
use remnix.Prelude.Int.{ℤ, pos, leb_ℤ, ltb_ℤ}
use remnix.Prelude.Dict.{Dict, lookup, insert}
use remnix.Prelude.Text.{split_slash}
use remnix.Prelude.Result.{Result, ok, err, failed, ◌>>=◌}
use Prim.Native.String.{◌++◌ as ◌<>◌}
use remnix.History.Entry.{Entry, ChangeSet, no_changes, merge}
use remnix.Sync.Transport.{Bytes, View, Transport}
use remnix.Sync.Frontier.{Frontier, at, advance, clone}
use remnix.Sync.Gc.Layout.{list_dirs_shallow}
use remnix.Prelude.Int.{add64}
use remnix.Sync.Db.{Db, Env, EventRow}
use remnix.Sync.Event.{Event}
use remnix.Sync.Events.{exists_row, append, mark_applied, max_seq, compact_up_to_heads, raise_to}
use remnix.Sync.Events.Range.{range}
use remnix.Sync.Heads
use remnix.Sync.Heads.{advance_contiguous}
use remnix.Sync.Merge.{apply_tracked}
use remnix.Sync.Bundle.{Sealing, Header, pack, unpack, peek_header}

device_part : List String → String
device_part (p ∷ id ∷ f ∷ rest) = if p == "events" then id else ""
device_part ps = ""

unfoldable pub bundle_device : String → String
unfolding device_part
bundle_device key = device_part (split_slash key)

unfoldable pub bundle_pulled : Db → String → Bool
bundle_pulled db key = elim (lookup ("pulled:" <> key) db.transport_state) [
  | none ↦ false
  | some v ↦ not (v == "")
]

unfoldable pub mark_bundle_pulled : String → Db → Db
mark_bundle_pulled key db = record db {
  transport_state = insert ("pulled:" <> key) "1" db.transport_state;
}

-- `listEventBundles`
unfoldable pub list_event_bundles : View → Result (List String)
list_event_bundles v = elim v.list_shallow [
  | none ↦ v.list "events/"
  | some shallow ↦ (do
    files ← shallow "events"
    dirs ← v.list_dirs "events"
    list_dirs_shallow shallow files dirs)
]

-- An event is skipped that has a row, or lies at or below the head of its device.
unfoldable pub is_known : Db → Event → Bool
is_known db ev = exists_row ev.device_id ev.seq db.events || leb_ℤ ev.seq (at db.heads ev.device_id)

-- `AdvanceContiguous` for each device of the map. `none` stands for fuel that ran out.
unfoldable pub advance_all : Frontier → Db → Option Db
advance_all [] db = some db
advance_all ((id, seq) ∷ remote_heads) db = elim (advance_contiguous db id) [
  | none ↦ none
  | some heads ↦ advance_all remote_heads (record db { heads = heads })
]

abbrev compacted : Result Frontier × Db → Option (Result (Unit {0}) × Db)
compacted (err e, db) = some (err e, db)
compacted (ok remote_heads, db) = elim (advance_all remote_heads db) [
  | none ↦ none
  | some db' ↦ some (ok tt, compact_up_to_heads db')
]

module _ (env : Env) where
  -- The body of the loop of `applyEvents` for an event that is new.
  unfoldable pub apply_new : Event → Db → Result (Db × ChangeSet)
  apply_new ev db = do
    rows ← append env.cbor ev db.events
    r ← apply_tracked env ev (record db { events = rows })
    let db' = r.0
    ok (record db' { events = mark_applied ev.device_id ev.seq db'.events }, r.1)

  -- `applyEvents` in its transaction: an error leaves the database as it was. The changes are those of
  -- the events that were applied.
  unfoldable pub apply_events : List Event → Db → Result (Db × ChangeSet)
  unfolding apply_new is_known
  apply_events [] db = ok (db, no_changes)
  apply_events (ev ∷ evs) db =
      let skip = apply_events evs db in
      let take = (do r ← apply_new ev db; s ← apply_events evs r.0; ok (s.0, merge r.1 s.1)) in
      if is_known db ev then skip else take

  module _ (s : Sealing) (smks : Dict Bytes) where
    -- The first key of the keyring that opens the bundle.
    unfoldable pub find_smk : Bytes → Dict Bytes → Option Bytes
    find_smk raw [] = none
    find_smk raw ((id, smk) ∷ keys) =
        let rest = find_smk raw keys in elim (unpack s raw smk) [ ok r ↦ some smk | err e ↦ rest ]

    abbrev peek_generation : Bytes → String
    peek_generation raw = elim (peek_header s raw) [ ok h ↦ h.generation_id | err e ↦ "" ]

    unfoldable pub smk_for : Bytes → Option Bytes
    unfolding find_smk
    smk_for raw = elim (lookup (peek_generation raw) smks) [
      | some smk ↦ some smk
      | none ↦ find_smk raw smks
    ]

    -- One bundle of `pullBundles`: its events, under the key that was found.
    unfoldable pub open_bundle : Bytes → Result (Header × List Event)
    unfolding smk_for
    open_bundle raw = elim (smk_for raw) [
      | none ↦ err (failed "no key for bundle")
      | some smk ↦ unpack s raw smk
    ]

    -- The loop of `pullBundles`. What earlier bundles changed stays, so the database comes back
    -- beside an error too. `remote_heads` is the map that the loop raises.
    unfoldable pub pull_loop : View → List String → Frontier → Db → Result Frontier × Db
    unfolding apply_events open_bundle
    pull_loop v [] remote_heads db = (ok remote_heads, db)
    pull_loop v (key ∷ keys) remote_heads db =
        let skip = pull_loop v keys remote_heads db in
        let pull : Result Frontier × Db = elim (v.get key >>= open_bundle) [
          | err e ↦ (err e, db)
          | ok (h, evs) ↦ elim (apply_events evs db) [
            | err e ↦ (err e, db)
            | ok (db', cs) ↦
                pull_loop v keys (advance remote_heads h.device_id h.seq_end)
                  (mark_bundle_pulled key db')
          ]
        ] in
        if bundle_device key == "" || bundle_pulled db key then skip else pull

    -- `pullBundles`
    unfoldable pub pull_bundles : View → Db → Option (Result (Unit {0}) × Db)
    unfolding pull_loop advance_all
    pull_bundles v db = elim (list_event_bundles v) [
      | err e ↦ some (err e, db)
      | ok objs ↦ compacted (pull_loop v objs (clone db.heads) db)
    ]
