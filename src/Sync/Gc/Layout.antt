-- ===== src/Sync/Gc/Layout.antt =====
-- How internal/sync/gc/gc.go reads the storage: its layout, acks and checkpoint manifests.
use remnix.Prelude.{
  String, Bool, false, ◌||◌, List, [], ◌∷◌, ◌++◌, Option, none, some, ◌==◌, if◌then◌else◌,
}
use remnix.Prelude.Dict.{Dict, insert}
use remnix.Prelude.Result.{Result, ok, err, ◌>>=◌}
use remnix.Prelude.Text.{has_suffix, split_slash, trim_slash}
use remnix.Sync.Transport.{Bytes, View}
use remnix.Sync.Ack
use remnix.Sync.Checkpoint.{Manifest, decode_manifest}
use remnix.Sync.Gc.Best.{sort_checkpoints}
use remnix.Sync.Bundle.{Header}

-- The decoders of encoding/json and internal/cborx that garbage collection calls.
pub record Codec : Type 0 where
  pub ack : Bytes → Result Ack.File
  pub manifest : Bytes → Result Manifest
  pub header : Bytes → Result Header

first_two : List String → String
first_two (p ∷ id ∷ ps) = if p == "checkpoints" then id else ""
first_two ps = ""

unfoldable pub checkpoint_id_from_key : String → String
unfolding first_two
checkpoint_id_from_key key = first_two (split_slash (trim_slash key))

-- The loop of `listEventObjects` over the directories.
unfoldable pub list_dirs_shallow :
    (String → Result (List String)) → List String → List String → Result (List String)
list_dirs_shallow shallow files [] = ok files
list_dirs_shallow shallow files (d ∷ dirs) = do
  more ← shallow d
  list_dirs_shallow shallow (files ++ more) dirs

abbrev pub is_seen : String → List String → Bool
is_seen k [] = false
is_seen k (j ∷ js) = j == k || is_seen k js

-- The closure `add` of `ListLayoutObjects`: `out` holds what has been seen.
unfoldable pub add_unseen : List String → List String → List String
add_unseen out [] = out
add_unseen out (k ∷ keys) = add_unseen (if is_seen k out then out else out ++ k ∷ []) keys

module _ (v : View) where
  open v use {list, list_dirs, list_shallow, get}

  unfoldable pub list_event_objects : Result (List String)
  unfolding list_dirs_shallow
  list_event_objects = elim list_shallow [
    | none ↦ list "events"
    | some shallow ↦ (do
      files ← shallow "events"
      dirs ← list_dirs "events"
      list_dirs_shallow shallow files dirs)
  ]

  unfoldable pub list_layout_from : List String → List String → Result (List String)
  unfolding list_event_objects add_unseen
  list_layout_from out [] = ok out
  list_layout_from out (p ∷ ps) = do
    objs ← if p == "events" then list_event_objects else list p
    list_layout_from (add_unseen out objs) ps

  unfoldable pub list_layout_objects : Result (List String)
  unfolding list_layout_from
  list_layout_objects =
      list_layout_from [] ("metadata" ∷ "keys" ∷ "events" ∷ "checkpoints" ∷ "acks" ∷ [])

  module _ (c : Codec) where
    open c use {ack, manifest}

    -- The loop of `loadAcks`: the last file of a device wins.
    unfoldable pub load_acks_from :
        Dict Ack.File → List String → List String → Result (Dict Ack.File)
    load_acks_from out seen [] = ok out
    load_acks_from out seen (k ∷ objs) =
        let skip = load_acks_from out seen objs in
        let load = (do
          b ← get k
          f ← ack b
          load_acks_from (insert f.device_id f out) (k ∷ seen) objs) in
        if is_seen k seen then skip else load

    unfoldable pub load_acks : Result (Dict Ack.File)
    unfolding load_acks_from
    load_acks = do objs ← list "acks/"; load_acks_from [] [] objs

    -- A manifest that cannot be read or decoded is passed over.
    abbrev pub read_manifest : String → Option Manifest
    read_manifest k = elim (get k >>= decode_manifest manifest) [ ok m ↦ some m | err e ↦ none ]

    unfoldable pub collect_manifests : List String → List Manifest
    collect_manifests [] = []
    collect_manifests (k ∷ objs) =
        let rest = collect_manifests objs in
        if has_suffix k "/manifest"
        then elim (read_manifest k) [ none ↦ rest | some m ↦ m ∷ rest ]
        else rest

    unfoldable pub list_checkpoints : Result (List Manifest)
    unfolding collect_manifests
    list_checkpoints = do objs ← list "checkpoints/"; ok (sort_checkpoints (collect_manifests objs))
