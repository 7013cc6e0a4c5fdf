-- ===== src/Sync/Generations.antt =====
-- internal/sync/syncer/engine.go: pulling the metadata, with the key generations that the storage
-- holds.
pub mod Trusted
pub mod NoRollback
pub mod Rows
pub mod Unique
pub mod Pulled
use remnix.Prelude.{
  String, ℕ, zero, suc, Bool, true, false, not, ◌&&◌, ◌||◌, List, [], ◌∷◌, ◌++◌, Option, none, some,
  map, ◌==◌, if◌then◌else◌, arith, ◌≡◌, refl, sym, ap, ◌∙◌, subst, Bool-cases, Option-cases, inl,
  inr, eq_iff, In, ◌⊎◌, ◌↔◌, ◌≢◌, All, length, ltb, leb, eqb, ◌+◌, ◌-◌, ◌≤◌, ◌<◌,
}
use remnix.Prelude.Int.{ℤ, ltb_ℤ, eqb_ℤ}
use remnix.Prelude.Dict.{Dict}
use remnix.Prelude.Text.{has_suffix}
use remnix.Prelude.Result.{Result, Error, ok, err, failed, not_exist, ◌>>=◌}
use remnix.Sync.Transport.{Bytes, View}
use remnix.Sync.Publish.{Options, trust_kind}
use remnix.Sync.Gc.Layout.{Codec}
use remnix.Device
use remnix.Keys.{
  KeyStore, Generation, GenerationRow, id_of_seq, put_generation, delete_generation,
  trusted_counter, set_trusted,
}
use remnix.Sync.Metadata.{
  RemoteManifest, Decoders, State, read_all, apply_remote_roster, apply_retired, apply_pruned,
  import_wanted_devices,
}

-- The generations with one number, of which there is at least one.
pub record Group : Type 0 where
  pub seq : ℤ
  pub first : Generation
  pub others : List Generation

unfoldable pub add_to_group : Generation → List Group → List Group
add_to_group m [] = record { seq = m.seq; first = m; others = [] } ∷ []
add_to_group m (g ∷ gs) =
    let rest = add_to_group m gs in
    if eqb_ℤ g.seq m.seq then record g { others = g.others ++ m ∷ [] } ∷ gs else g ∷ rest

-- `bySeq`, from the objects whose key ends in `/manifest`.
unfoldable pub group_generations : Decoders → Dict Bytes → List Group → Result (List Group)
group_generations d [] groups = ok groups
group_generations d ((key, body) ∷ more) groups =
    let skipped = group_generations d more groups in
    let read = (do m ← d.generation body; group_generations d more (add_to_group m groups)) in
    if has_suffix key "/manifest" then read else skipped

unfoldable pub with_id : String → List Generation → Option Generation
with_id id [] = none
with_id id (m ∷ ms) = let rest = with_id id ms in if m.generation_id == id then some m else rest

unfoldable pub choose_generation : Group → String → String → Generation
choose_generation g active_id local_id = elim (with_id active_id (g.first ∷ g.others)) [
  | some m ↦ m
  | none ↦ elim (with_id local_id (g.first ∷ g.others)) [ some m ↦ m | none ↦ g.first ]
]

abbrev pub or_empty : Option String → String
or_empty none = ""
or_empty (some id) = id

abbrev pub rollback : Error
rollback = failed "remote manifest rollback detected"

-- The state that an import leaves, and whether it failed.
abbrev pub settled : KeyStore → Result KeyStore → Result (Unit {0}) × KeyStore
settled before (ok k) = (ok tt, k)
settled before (err e) = (err e, before)

module _ (now : ℤ) (manifest : Option RemoteManifest) where
  abbrev pub active_id : String
  active_id = elim manifest [ none ↦ "" | some rm ↦ rm.active_generation ]

  abbrev pub marked : Generation → Generation
  marked m = elim manifest [
    | none ↦ m
    | some rm ↦ record m { active = m.generation_id == rm.active_generation }
  ]

  abbrev pub put_marked : Generation → KeyStore → Result (Unit {0}) × KeyStore
  put_marked m k = settled k (put_generation now (marked m) k)

  -- `localBySeq[seq]` is the id that the table had for the number before the loop.
  unfoldable pub import_group : Option String → Group → KeyStore → Result (Unit {0}) × KeyStore
  import_group none g k = put_marked (choose_generation g active_id "") k
  import_group (some existing) g k =
      let m = choose_generation g active_id existing in
      if existing == m.generation_id
      then put_marked m k
      else if m.generation_id == active_id
      then put_marked m (delete_generation existing k)
      else (ok tt, k)

  unfoldable pub import_groups :
      List GenerationRow → List Group → KeyStore → Result (Unit {0}) × KeyStore
  import_groups local [] k = (ok tt, k)
  import_groups local (g ∷ gs) k =
      let done = import_group (id_of_seq g.seq local) g k in
      let rest = import_groups local gs done.1 in
      elim done.0 [ ok u ↦ rest | err e ↦ (err e, done.1) ]

module _ (v : View) (c : Codec) (d : Decoders) (now : ℤ) (o : Options) where
  abbrev pub mark_devices : Option RemoteManifest → Device.Table → Device.Table
  mark_devices none rows = rows
  mark_devices (some rm) rows =
      apply_pruned o.device_id rm.pruned (apply_retired now rm.retired rows)

  -- From the import of the devices on.
  unfoldable pub pull_rest : Option RemoteManifest → State → Result (Unit {0}) × State
  pull_rest manifest s = elim (import_wanted_devices v c d now o s.devices) [
    | err e ↦ (err e, s)
    | ok rows ↦
        let marked_state : State = record s { devices = mark_devices manifest rows } in
        elim (read_all v "keys/generations" >>= λ raw. group_generations d raw []) [
          | err e ↦ (err e, marked_state)
          | ok groups ↦
              let imported = import_groups now manifest s.keys.generations groups s.keys in
              (imported.0, record marked_state { keys = imported.1 })
        ]
  ]

  unfoldable pub accept_manifest : Bytes → RemoteManifest → State → Result (Unit {0}) × State
  accept_manifest b rm s =
      let rest = pull_rest (some rm) (record {
        keys = set_trusted (trust_kind o) rm.active_generation rm.counter "" b s.keys;
        devices = apply_remote_roster now rm s.devices;
      }) in
      if ltb_ℤ rm.counter (trusted_counter (trust_kind o) s.keys) then (err rollback, s) else rest

  unfoldable pub pull_metadata : State → Result (Unit {0}) × State
  pull_metadata s = elim (v.get "metadata/manifest") [
    | ok b ↦ elim (d.manifest b) [ err e ↦ (err e, s) | ok rm ↦ accept_manifest b rm s ]
    | err not_exist ↦ pull_rest none s
    | err (failed e) ↦ (err (failed e), s)
  ]
