-- ===== src/Sync/Gc/Plan.antt =====
-- `Evaluate` and `Execute` of internal/sync/gc/gc.go: the plan of a collection, and its deletions.
pub mod Parts
pub mod Safety
pub mod Kept
pub mod Deletion
use remnix.Prelude.{
  String, ℕ, Bool, true, false, not, ◌&&◌, ◌||◌, List, [], ◌∷◌, ◌++◌, Option, none, some, ◌==◌, ◌+◌,
  length, if◌then◌else◌,
}
use remnix.Prelude.Result.{Result, ok, err, ◌>>=◌}
use remnix.Prelude.Dict.{Dict, lookup, insert}
use remnix.Prelude.Int.{ℤ, pos, leb_ℤ}
use remnix.Device.{Device, status_retired}
use remnix.Sync.Transport.{View, Transport, delete_if_exists}
use remnix.Sync.Ack
use remnix.Sync.Checkpoint.{Manifest}
use remnix.Sync.Gc.Best.{head?, pick_best_checkpoint}
use remnix.Sync.Gc.Layout.{Codec, list_layout_objects, load_acks, list_checkpoints}
use Parts.{
  Plan, Keep, is_empty, blocked_by, tmp_orphans, checkpoint_ids, dir_ids, resolve_checkpoint,
  checkpoint_id_of, covered_bundles, manifests_by_id, deletable, sort_strings,
}

module _ (v : View) (c : Codec) where
  newest_checkpoint_of : Result (List Manifest) → Result (Option Manifest)
  newest_checkpoint_of all = do ms ← all; ok (head? ms)

  unfoldable pub newest_checkpoint : Result (Option Manifest)
  unfolding newest_checkpoint_of
  newest_checkpoint = newest_checkpoint_of (list_checkpoints v c)

  -- Which checkpoint stays: the best of those with a readable manifest, else the one of the plan
  -- (whose manifest is then not among those read), else the newest that another listing shows.
  unfoldable pub choose_keep : Dict Manifest → String → Keep
  choose_keep meta plan_checkpoint = elim (pick_best_checkpoint meta) [
    | some best ↦ record { id = best.id; meta = some best }
    | none ↦
        if not (plan_checkpoint == "")
        then record { id = plan_checkpoint; meta = lookup plan_checkpoint meta }
        else elim newest_checkpoint [
          | ok (some m) ↦ record { id = m.id; meta = some m }
          | ok none ↦ record { id = ""; meta = none }
          | err e ↦ record { id = ""; meta = none }
        ]
  ]

  -- The bundles that an eligible plan deletes, and its checkpoint.
  unfoldable pub plan_bundles :
      Dict Ack.File → List String → String → Bool → List String → Result (String × List String)
  plan_bundles acks required checkpoint_id false objs = ok ("", [])
  plan_bundles acks required checkpoint_id true objs = do
    ckpt ← resolve_checkpoint v c acks required checkpoint_id
    ok (checkpoint_id_of ckpt, covered_bundles v c ckpt objs)

  -- The rest of `Evaluate`, from the acks and the listing on.
  unfoldable pub plan_from : List String → String → Dict Ack.File → List String → Result Plan
  unfolding plan_bundles choose_keep
  plan_from required checkpoint_id acks objs = do
    let blocked = blocked_by acks checkpoint_id required
    let eligible = is_empty blocked && not (is_empty required)
    chosen ← plan_bundles acks required checkpoint_id eligible objs
    let meta = manifests_by_id v c objs []
    let ids = dir_ids v c (checkpoint_ids objs [])
    let keep = choose_keep meta chosen.0
    ok (record {
      bundles = chosen.1;
      checkpoints = sort_strings (deletable meta keep (eligible && not (chosen.0 == "")) ids);
      generations = [];
      tmp_orphans = tmp_orphans objs;
      blocked_by = blocked;
      checkpoint = chosen.0;
      eligible = eligible;
    })

  unfoldable pub evaluate : List String → String → Result Plan
  unfolding plan_from
  evaluate required checkpoint_id = do
    acks ← load_acks v c
    objs ← list_layout_objects v
    plan_from required checkpoint_id acks objs

module _ (t : Transport) where
  -- The loop of `Execute`: the first error ends it, and what was deleted before stays deleted.
  unfoldable pub delete_keys : t.Remote → List String → Result (Unit {0}) × t.Remote
  delete_keys s [] = (ok tt, s)
  delete_keys s (k ∷ keys) =
      let r = delete_if_exists t s k in
      elim r.0 [ ok u ↦ delete_keys r.1 keys | err e ↦ (err e, r.1) ]

  unfoldable pub execute : t.Remote → Plan → Bool → Result (Unit {0}) × t.Remote
  unfolding delete_keys
  execute s plan true = (ok tt, s)
  execute s plan false = delete_keys s (
      plan.tmp_orphans
      ++ (plan.checkpoints ++ (if plan.eligible then plan.bundles ++ plan.generations else [])))

unfoldable pub required_devices : List Device → List String
required_devices [] = []
required_devices (d ∷ devs) =
    let ids = required_devices devs in if d.status == status_retired then ids else d.id ∷ ids

-- `CheckpointDue`; `since` is `time.Since` of a time in milliseconds, and durations are nanoseconds.
unfoldable pub checkpoint_due : View → Codec → (ℤ → ℤ) → ℤ → Result Bool
unfolding newest_checkpoint
checkpoint_due v c since interval = do
  newest ← newest_checkpoint v c
  ok (elim newest [
    | none ↦ true
    | some m ↦
        leb_ℤ (if leb_ℤ interval (pos 0) then pos 3600000000000 else interval) (since m.created_at)
  ])
