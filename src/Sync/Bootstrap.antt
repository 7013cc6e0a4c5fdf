-- ===== src/Sync/Bootstrap.antt =====
-- internal/sync/syncer/checkpoint.go: writing checkpoints, and starting from one.
pub mod Effects
pub mod Pull
use remnix.Prelude.{
  String, ℕ, zero, suc, Bool, true, false, not, ◌&&◌, ◌||◌, List, [], ◌∷◌, ◌++◌, Option, none, some,
  map, ◌==◌, if◌then◌else◌, arith, ◌≡◌, refl, sym, ap, ◌∙◌, subst, Bool-cases, Option-cases, inl,
  inr, eq_iff, In, ◌⊎◌, ◌↔◌, ◌≢◌, All, length, ltb, leb, eqb, ◌+◌, ◌-◌, ◌≤◌, ◌<◌,
}
use remnix.Prelude.Int.{ℤ, pos, ltb_ℤ}
use remnix.Prelude.Dict.{Dict, lookup, insert}
use remnix.Prelude.Result.{Result, ok, err, failed, ◌>>=◌}
use remnix.History.Entry.{Entry}
use remnix.History.Table.{Table, same_seq}
use remnix.History.Table
use remnix.Sync.Transport.{Bytes, View}
use remnix.Sync.Frontier.{Frontier, at, dominates}
use remnix.Sync.Checkpoint.{Manifest, decode_manifest}
use remnix.Sync.Db.{Db, Env}
use remnix.Sync.Heads
use remnix.Sync.Gc.Layout.{Codec}
use remnix.Sync.Gc.Plan.{newest_checkpoint}
use remnix.Sync.Gc.Plan.Parts.{join_child}
use remnix.Sync.Snapshot.Payload.{Codecs, unpack_snapshot}
use remnix.Sync.Snapshot.File.{decode_file}

-- The database beside the `trusted_manifests` table, as the checkpoint that each kind trusts; a kind
-- with no row has no entry, and the empty id stands for NULL.
pub record Local : Type 0 where
  pub db : Db
  pub trusted : Dict String

-- The libraries that a snapshot is read with: those of its payload, `decodeJSONFile`, and the bytes of
-- a content as numbers and back.
pub record Reader : Type 0 where
  pub codecs : Codecs
  pub json_file : List ℕ → Result (List ℕ × List ℕ)
  pub to_numbers : Bytes → List ℕ
  pub of_numbers : List ℕ → Bytes

-- `TrustedCheckpointID` and `SetTrustedCheckpoint` of internal/crypto/keys/store.go.
unfoldable pub trusted_checkpoint_id : String → Dict String → String
trusted_checkpoint_id kind trusted = elim (lookup kind trusted) [ none ↦ "" | some id ↦ id ]

unfoldable pub set_trusted_checkpoint : String → String → Dict String → Dict String
set_trusted_checkpoint kind id trusted =
    if id == ""
    then trusted
    else elim (lookup kind trusted) [ none ↦ trusted | some old ↦ insert kind id trusted ]

-- `tombstonedIndex`, asked for an id and for an origin. The key of an origin is the device and the
-- number with a NUL between them.
unfoldable pub tombstoned_id : String → Table → Bool
tombstoned_id id [] = false
tombstoned_id id (r ∷ rows) = (r.deleted && r.id == id) || tombstoned_id id rows

unfoldable pub tombstoned_origin : String → ℤ → Table → Bool
tombstoned_origin device seq [] = false
tombstoned_origin device seq (r ∷ rows) =
    (r.deleted
      && not (r.origin_device_id == "")
      && r.origin_device_id == device
      && same_seq r.origin_seq (some seq))
    || tombstoned_origin device seq rows

abbrev origin_buried : Entry → Table → Bool
origin_buried e rows = elim e.origin_seq [
  | none ↦ false
  | some seq ↦ not (e.origin_device_id == "") && tombstoned_origin e.origin_device_id seq rows
]

-- The entry as it is inserted: deleted where the device knows a tombstone for it.
unfoldable pub buried : Table → Entry → Entry
unfolding tombstoned_id tombstoned_origin
buried rows e = record e { deleted = e.deleted || tombstoned_id e.id rows || origin_buried e rows }

-- The heads of `m` that are above those of `local`.
unfoldable pub raise_heads : Frontier → Frontier → Frontier → Frontier
raise_heads local [] heads = heads
raise_heads local ((id, seq) ∷ f) heads =
    raise_heads local f (if ltb_ℤ (at local id) seq then Heads.set heads id seq else heads)

module _ (env : Env) where
  open env use {hash_command, now}

  -- The loop over the entries; `known` is the table before it.
  unfoldable pub insert_entries : Table → List Entry → Table → Table
  unfolding buried
  insert_entries known [] rows = rows
  insert_entries known (e ∷ es) rows =
      insert_entries known es (Table.insert hash_command now (buried known e) rows).0

  -- `BootstrapFromCheckpoint`, once the snapshot is open. The statements are assumed not to fail.
  unfoldable pub bootstrap : String → Manifest → List Entry → Local → Local
  unfolding insert_entries raise_heads set_trusted_checkpoint
  bootstrap kind m es s =
      let db = s.db in
      record {
        db = record db {
          history = insert_entries db.history es db.history;
          heads = raise_heads db.heads m.frontier db.heads;
        };
        trusted = set_trusted_checkpoint kind m.id s.trusted;
      }

  module _ (r : Reader) where
    unfoldable pub open_snapshot : Bytes → Bytes → Result (List Entry)
    open_snapshot smk snap = do
      f ← decode_file r.json_file (r.to_numbers snap)
      unpack_snapshot r.codecs smk (r.of_numbers f.0) (r.of_numbers f.1)

    unfoldable pub bootstrap_from_checkpoint :
        String → Bytes → Manifest → Bytes → Local → Result Local
    unfolding bootstrap open_snapshot
    bootstrap_from_checkpoint kind smk m snap s = do
      es ← open_snapshot smk snap
      ok (bootstrap kind m es s)

    -- The loop of `pullCheckpoint` over the other keys; `last` is the last error, if there was one.
    unfoldable pub try_keys :
        String → Manifest → Bytes → Dict Bytes → Option (Result Local) → Local → Result Local
    unfolding bootstrap_from_checkpoint
    try_keys kind m snap [] none s = err (failed "no key for checkpoint")
    try_keys kind m snap [] (some last) s = last
    try_keys kind m snap ((id, smk) ∷ smks) last s =
        let skip = try_keys kind m snap smks last s in
        let after = bootstrap_from_checkpoint kind smk m snap s in
        let next = try_keys kind m snap smks (some after) s in
        if id == m.generation_id then skip else elim after [ ok s' ↦ ok s' | err e ↦ next ]

    -- `skipStaleCheckpoint`
    unfoldable pub skip_stale_checkpoint : View → Codec → String → Manifest → Local → Bool
    unfolding trusted_checkpoint_id
    skip_stale_checkpoint v c kind m s =
        let id = trusted_checkpoint_id kind s.trusted in
        if id == "" || id == m.id
        then false
        else elim (v.get (join_child (join_child "checkpoints" id) "manifest")
            >>= decode_manifest c.manifest) [
              | err e ↦ false
              | ok tm ↦ dominates tm.frontier m.frontier && not (dominates m.frontier tm.frontier)
            ]

    -- The end of `pullCheckpoint`, with the snapshot: the key of its generation first.
    unfoldable pub pull_snapshot : String → Manifest → Bytes → Dict Bytes → Local → Result Local
    unfolding try_keys
    pull_snapshot kind m snap smks s = elim (lookup m.generation_id smks) [
      | none ↦ try_keys kind m snap smks none s
      | some smk ↦
          let first = bootstrap_from_checkpoint kind smk m snap s in
          let next = try_keys kind m snap smks (some first) s in
          if smk == ""
          then try_keys kind m snap smks none s
          else elim first [ ok s' ↦ ok s' | err e ↦ next ]
    ]

    unfoldable pub pull_newest :
        View → Codec → String → Dict Bytes → Manifest → Local → Result Local
    unfolding pull_snapshot skip_stale_checkpoint set_trusted_checkpoint
    pull_newest v c kind smks m s =
        let trust : Local = record s { trusted = set_trusted_checkpoint kind m.id s.trusted } in
        let pull = (do
          snap ← v.get (join_child (join_child "checkpoints" m.id) "snapshot")
          pull_snapshot kind m snap smks s) in
        if skip_stale_checkpoint v c kind m s
        then ok s
        else if dominates s.db.heads m.frontier
        then ok trust
        else pull

    unfoldable pub pull_checkpoint : View → Codec → String → Dict Bytes → Local → Result Local
    unfolding pull_newest
    pull_checkpoint v c kind smks s = do
      newest ← newest_checkpoint v c
      elim newest [ none ↦ ok s | some m ↦ pull_newest v c kind smks m s ]

-- `behindNewestCheckpoint`, for an engine with a transport.
unfoldable pub behind_newest_checkpoint : View → Codec → Db → Result Bool
behind_newest_checkpoint v c db = do
  newest ← newest_checkpoint v c
  ok (elim newest [ none ↦ false | some m ↦ not (dominates db.heads m.frontier) ])
