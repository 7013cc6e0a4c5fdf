-- ===== src/Sync/Gc/Plan/Parts.antt =====
-- The loops of `Evaluate` in internal/sync/gc/gc.go, one function for each.
use remnix.Prelude.{
  String, ℕ, Bool, true, false, not, ◌&&◌, ◌||◌, List, [], ◌∷◌, Option, none, some, ◌==◌, ◌+◌,
  length, if◌then◌else◌,
}
use remnix.Prelude.Result.{Result, ok, err, ◌>>=◌}
use remnix.Prelude.Dict.{Dict, lookup, insert}
use remnix.Prelude.Int.{ltb_ℤ}
use remnix.Prelude.Text.{str_ltb, has_prefix, has_suffix, contains, path_base}
use Prim.Native.String.{◌++◌ as ◌<>◌}
use remnix.Sync.Frontier.{Frontier, dominates, covers}
use remnix.Sync.Transport.{View}
use remnix.Sync.Ack
use remnix.Sync.Checkpoint.{Manifest, decode_manifest}
use remnix.Sync.Gc.Layout.{Codec, checkpoint_id_from_key, list_checkpoints}

pub record Plan : Type 0 where
  pub bundles : List String
  pub checkpoints : List String
  pub generations : List String
  pub tmp_orphans : List String
  pub blocked_by : List String
  pub checkpoint : String
  pub eligible : Bool

unfoldable pub deleted_count : Plan → ℕ
deleted_count p =
    length p.bundles + length p.checkpoints + length p.tmp_orphans + length p.generations

-- `keepID`, and `keepMeta` where `haveKeep`.
pub record Keep : Type 0 where
  pub id : String
  pub meta : Option Manifest

abbrev pub is_empty : List String → Bool
is_empty [] = true
is_empty (k ∷ ks) = false

-- `path.Join(dir, name)` for a directory's name, or `.`, and a `name` with no slash.
unfoldable pub join_child : String → String → String
join_child dir name =
    if name == "" || name == "."
    then dir
    else if dir == "."
    then name
    else if name == ".."
    then "."
    else dir <> "/" <> name

abbrev ack_covers : Ack.File → String → Bool
ack_covers a checkpoint_id = a.checkpoint_id == checkpoint_id

-- The device has no ack, or its ack is for another checkpoint than the one asked for.
unfoldable pub is_blocked : Option Ack.File → String → Bool
is_blocked none checkpoint_id = true
is_blocked (some a) checkpoint_id =
    not (checkpoint_id == "")
    && not (a.checkpoint_id == checkpoint_id)
    && not (ack_covers a checkpoint_id)

unfoldable pub blocked_by : Dict Ack.File → String → List String → List String
unfolding is_blocked
blocked_by acks checkpoint_id [] = []
blocked_by acks checkpoint_id (id ∷ required) =
    let rest = blocked_by acks checkpoint_id required in
    if is_blocked (lookup id acks) checkpoint_id then id ∷ rest else rest

unfoldable pub is_tmp : String → Bool
is_tmp key = let base = path_base key in contains base ".tmp-" || has_suffix base ".tmp"

unfoldable pub tmp_orphans : List String → List String
unfolding is_tmp
tmp_orphans [] = []
tmp_orphans (k ∷ objs) = let rest = tmp_orphans objs in if is_tmp k then k ∷ rest else rest

unfoldable pub add_id : String → Dict Bool → Dict Bool
add_id id ids = if id == "" then ids else insert id true ids

-- `ckptObjs` after the objects, and after the directories where these could be listed.
unfoldable pub checkpoint_ids : List String → Dict Bool → Dict Bool
unfolding is_tmp add_id
checkpoint_ids [] ids = ids
checkpoint_ids (k ∷ objs) ids =
    checkpoint_ids objs (if is_tmp k then ids else add_id (checkpoint_id_from_key k) ids)

unfoldable pub add_dirs : List String → Dict Bool → Dict Bool
unfolding add_id
add_dirs [] ids = ids
add_dirs (d ∷ dirs) ids = add_dirs dirs (add_id (checkpoint_id_from_key (d <> "/")) ids)

unfoldable pub all_dominate : Dict Ack.File → List String → Frontier → Bool
all_dominate acks [] frontier = true
all_dominate acks (id ∷ required) frontier =
    let rest = all_dominate acks required frontier in
    elim (lookup id acks) [
      | none ↦ false
      | some a ↦ if dominates a.frontier frontier then rest else false
    ]

-- The first checkpoint, in their order of rank, that every required device has reached.
unfoldable pub first_reached : Dict Ack.File → List String → List Manifest → Option Manifest
first_reached acks required [] = none
first_reached acks required (m ∷ ms) =
    let rest = first_reached acks required ms in
    if all_dominate acks required m.frontier && not (is_empty required) then some m else rest

abbrev pub checkpoint_id_of : Option Manifest → String
checkpoint_id_of none = ""
checkpoint_id_of (some m) = m.id

module _ (v : View) (c : Codec) where
  open v use {list_dirs, get}
  open c use {manifest, header}

  unfoldable pub dir_ids : Dict Bool → Dict Bool
  unfolding add_dirs
  dir_ids ids = elim (list_dirs "checkpoints/") [ ok dirs ↦ add_dirs dirs ids | err e ↦ ids ]

  -- `none` stands for the zero manifest, whose id is empty.
  unfoldable pub resolve_checkpoint :
      Dict Ack.File → List String → String → Result (Option Manifest)
  unfolding first_reached all_dominate join_child
  resolve_checkpoint acks required checkpoint_id =
      if not (checkpoint_id == "")
      then elim (get (join_child (join_child "checkpoints" checkpoint_id) "manifest")
          >>= decode_manifest manifest) [ ok m ↦ ok (some m) | err e ↦ ok none ]
      else (do all ← list_checkpoints v c; ok (first_reached acks required all))

  unfoldable pub is_covered : Frontier → String → Bool
  is_covered frontier key = elim (get key >>= header) [
    | ok h ↦ covers frontier h.device_id h.seq_end
    | err e ↦ false
  ]

  -- The bundles below the frontier of the chosen checkpoint, if one with an id was chosen.
  unfoldable pub covered_bundles : Option Manifest → List String → List String
  unfolding is_covered
  covered_bundles none objs = []
  covered_bundles (some m) [] = []
  covered_bundles (some m) (k ∷ objs) =
      let rest = covered_bundles (some m) objs in
      if has_prefix k "events/" && not (m.id == "") && is_covered m.frontier k
      then k ∷ rest
      else rest

  unfoldable pub manifests_by_id : List String → Dict Manifest → Dict Manifest
  manifests_by_id [] meta = meta
  manifests_by_id (k ∷ objs) meta = manifests_by_id objs (
      if has_suffix k "/manifest" && not (checkpoint_id_from_key k == "")
      then elim (get k >>= decode_manifest manifest) [
        | ok m ↦ insert (checkpoint_id_from_key k) m meta
        | err e ↦ meta
      ]
      else meta)

-- The body of the loop over `ckptObjs`: whether the checkpoint `id` goes.
unfoldable pub is_deletable : Option Manifest → Keep → Bool → String → Bool
is_deletable meta keep can_delete_full id = if id == "" || id == keep.id then false else elim meta [
  | none ↦ true
  | some m ↦ elim keep.meta [
    | none ↦ can_delete_full
    | some k ↦
        let keep_dom = dominates k.frontier m.frontier in
        let cand_dom = dominates m.frontier k.frontier in
        if cand_dom && not keep_dom
        then false
        else if keep_dom
        then true
        else if ltb_ℤ k.created_at m.created_at
        then false
        else can_delete_full
  ]
]

unfoldable pub deletable : Dict Manifest → Keep → Bool → Dict Bool → List String
unfolding is_deletable join_child
deletable meta keep can_delete_full [] = []
deletable meta keep can_delete_full ((id, b) ∷ ids) =
    let rest = deletable meta keep can_delete_full ids in
    if is_deletable (lookup id meta) keep can_delete_full id
    then join_child "checkpoints" id ∷ rest
    else rest

unfoldable pub insert_string : String → List String → List String
insert_string s [] = s ∷ []
insert_string s (t ∷ ts) = if str_ltb t s then t ∷ insert_string s ts else s ∷ t ∷ ts

-- `sort.Strings`
unfoldable pub sort_strings : List String → List String
unfolding insert_string
sort_strings [] = []
sort_strings (s ∷ ss) = insert_string s (sort_strings ss)
