-- ===== src/Sync/Metadata.antt =====
-- internal/sync/syncer/engine.go and recover.go: what Sync takes from the metadata of the storage.
-- Each statement on the database stands by itself, so an error keeps what was written before it.
use remnix.Prelude.{
  String, Bool, false, not, ◌||◌, List, [], ◌∷◌, ◌++◌, Option, none, some, ◌==◌, if◌then◌else◌,
}
use remnix.Prelude.Int.{ℤ}
use remnix.Prelude.Dict.{Dict, lookup}
use remnix.Prelude.Text.{has_suffix, path_base}
use remnix.Prelude.Result.{Result, ok, err, ◌>>=◌}
use remnix.Sync.Transport.{Bytes, View}
use remnix.Sync.Publish.{Options}
use remnix.Sync.Checkpoint.{Manifest}
use remnix.Sync.Gc.Layout.{Codec}
use remnix.Sync.Gc.Plan.{newest_checkpoint}
use remnix.Device.{Device, status_active, status_retired, upsert, get, delete}
use remnix.Device
use remnix.Keys.{KeyStore, Generation}

pub record RemoteManifest : Type 0 where
  pub version : ℤ
  pub counter : ℤ
  pub active_generation : String
  pub devices : List String
  pub retired : List String
  pub pruned : List String
  pub updated_at : ℤ
  pub mac : String

pub record DeviceFile : Type 0 where
  pub version : ℤ
  pub id : String
  pub name : String
  pub hostname : String
  pub status : String
  pub head : ℤ

-- The decoders of encoding/json, and `strings.CutSuffix(name, ".ack")`.
pub record Decoders : Type 0 where
  pub manifest : Bytes → Result RemoteManifest
  pub generation : Bytes → Result Generation
  pub device_file : Bytes → Result DeviceFile
  pub cut_ack : String → Option String

pub record State : Type 0 where
  pub keys : KeyStore
  pub devices : Device.Table

abbrev pub mem : String → List String → Bool
mem s [] = false
mem s (t ∷ ts) = t == s || mem s ts

unfoldable pub read_objects : View → List String → Dict Bytes → Result (Dict Bytes)
read_objects v [] out = ok out
read_objects v (key ∷ keys) out =
    let rest = read_objects v keys out in
    let read = (do b ← v.get key; read_objects v keys (out ++ (key, b) ∷ [])) in
    elim (lookup key out) [ some b ↦ rest | none ↦ read ]

-- `readAll`: every object below the prefix.
unfoldable pub read_all : View → String → Result (Dict Bytes)
read_all v prefix = do keys ← v.list prefix; read_objects v keys []

abbrev pub named_or : String → String → String
named_or name other = if name == "" then other else name

abbrev pub new_device : String → String → String → String → Option ℤ → Device
new_device id name hostname status retired_at = record {
  id = id;
  name = name;
  hostname = hostname;
  status = status;
  created_at = none;
  retired_at = retired_at;
}

module _ (now : ℤ) where
  abbrev add_absent : String → Device.Table → Option Device → Device.Table
  add_absent id rows (some d) = rows
  add_absent id rows none = upsert now (new_device id id "" status_active none) rows

  unfoldable pub roster_from : List String → List String → Device.Table → Device.Table
  roster_from skip [] rows = rows
  roster_from skip (id ∷ ids) rows =
      roster_from skip ids
        (if id == "" || mem id skip then rows else add_absent id rows (get id rows))

  unfoldable pub apply_remote_roster : RemoteManifest → Device.Table → Device.Table
  apply_remote_roster rm rows = roster_from (rm.retired ++ rm.pruned) rm.devices rows

  abbrev pub retired_of : Option ℤ → Option ℤ
  retired_of none = some now
  retired_of (some at) = some at

  abbrev retire_known : String → Device.Table → Option Device → Device.Table
  retire_known id rows (some d) =
      upsert now (new_device id d.name d.hostname status_retired (retired_of d.retired_at)) rows
  retire_known id rows none = upsert now (new_device id id "" status_retired (some now)) rows

  unfoldable pub apply_retired : List String → Device.Table → Device.Table
  apply_retired [] rows = rows
  apply_retired (id ∷ ids) rows =
      apply_retired ids (if id == "" then rows else retire_known id rows (get id rows))

-- A device that is not there makes `Delete` fail, which is ignored.
abbrev or_same : Device.Table → Result Device.Table → Device.Table
or_same rows (ok left) = left
or_same rows (err e) = rows

unfoldable pub apply_pruned : String → List String → Device.Table → Device.Table
apply_pruned own [] rows = rows
apply_pruned own (id ∷ ids) rows =
    apply_pruned own ids (if id == "" || id == own then rows else or_same rows (delete id rows))

-- The devices whose files are read: the local one, those with an ack, and those of the newest
-- checkpoint's frontier.
unfoldable pub acked_ids : Decoders → List String → List String
acked_ids d [] = []
acked_ids d (key ∷ keys) =
    let rest = acked_ids d keys in
    elim (d.cut_ack (path_base key)) [
      | none ↦ rest
      | some id ↦ if id == "" then rest else id ∷ rest
    ]

abbrev pub keys_of {ℓ} : {V : Type ℓ} → Dict V → List String
keys_of [] = []
keys_of ((k, x) ∷ m) = k ∷ keys_of m

abbrev listed_acks : Decoders → Result (List String) → List String
listed_acks d (ok keys) = acked_ids d keys
listed_acks d (err e) = []

abbrev frontier_ids : Result (Option Manifest) → List String
frontier_ids (ok (some m)) = keys_of m.frontier
frontier_ids (ok none) = []
frontier_ids (err e) = []

module _ (v : View) (c : Codec) (d : Decoders) (now : ℤ) (o : Options) where
  unfoldable pub wanted_devices : List String
  wanted_devices =
      o.device_id ∷ listed_acks d (v.list "acks/") ++ frontier_ids (newest_checkpoint v c)

  abbrev pub device_of_file : DeviceFile → Device
  device_of_file f =
      new_device f.id (named_or f.name f.id) f.hostname (named_or f.status status_active) none

  abbrev pub import_device : Result DeviceFile → Device.Table → Device.Table
  import_device (err e) rows = rows
  import_device (ok f) rows =
      if f.id == "" || not (mem f.id wanted_devices)
      then rows
      else upsert now (device_of_file f) rows

  unfoldable pub import_files : Dict Bytes → Device.Table → Device.Table
  import_files [] rows = rows
  import_files ((key, body) ∷ more) rows =
      import_files more
        (if has_suffix key ".json" then import_device (d.device_file body) rows else rows)

  unfoldable pub import_wanted_devices : Device.Table → Result Device.Table
  import_wanted_devices rows = do raw ← read_all v "metadata/devices"; ok (import_files raw rows)
