-- ===== src/Examples/Collection.antt =====
-- Tests and instances for internal/sync/gc/gc.go, on a storage in memory.
use remnix.Prelude.{
  eq_iff, String, true, false, List, [], ◌∷◌, some, ◌==◌, if◌then◌else◌, arith, ◌≡◌, refl, inl, inr,
  eq_iff,
}
use remnix.Prelude.Int.{ℤ, pos, ◌≤ℤ◌, add64}
use remnix.Prelude.Dict.{Dict, lookup, insert}
use remnix.Prelude.Text.{
  str_ltb, has_prefix, has_suffix, contains, split_slash, trim_slash, path_base,
}
use remnix.Prelude.Result.{ok, err, failed}
use remnix.Sync.Frontier.{Frontier, at, dominates, covers, score}
use remnix.Sync.Transport.{Bytes, delete_if_exists}
use remnix.Sync.Transport.Laws.{
  Clean, is_clean, covers_key, object_of, delete_below, memory_view, memory, memory-Lawful,
}
use remnix.Sync.Ack
use remnix.Sync.Checkpoint.{Manifest, decode_manifest}
use remnix.Sync.Bundle.{Header}
use remnix.Sync.Gc.Best.{better_checkpoint, pick_best_checkpoint, sort_checkpoints}
use remnix.Sync.Gc.Layout.{
  Codec, load_acks, list_layout_objects, list_checkpoints, checkpoint_id_from_key,
}
use remnix.Sync.Gc.Plan.{evaluate, execute, choose_keep}
use remnix.Sync.Gc.Plan.Parts.{
  blocked_by, resolve_checkpoint, covered_bundles, tmp_orphans, dir_ids, checkpoint_ids,
  manifests_by_id, Plan, join_child, sort_strings, deletable,
}
use remnix.Sync.Gc.Plan.Safety.{evaluate_bundles_seen}
use remnix.Sync.Gc.Plan.Kept.{
  IsNamed, IsOther, Superseded, readable, evaluate_checkpoints-Superseded,
}
use remnix.Sync.Gc.Plan.Deletion.{doomed, execute_keeps}

program : Unit {0}
unfolding evaluate execute load_acks list_layout_objects list_checkpoints str_ltb covers score add64
    delete_below is_clean covers_key delete_if_exists decode_manifest lookup insert contains
    has_prefix has_suffix split_slash trim_slash path_base memory_view blocked_by resolve_checkpoint
    covered_bundles sort_strings tmp_orphans sort_checkpoints better_checkpoint dominates deletable
    dir_ids checkpoint_ids checkpoint_id_from_key pick_best_checkpoint manifests_by_id
program = tt

abbrev old_frontier : Frontier
old_frontier = ("d1", pos 2) ∷ []

abbrev new_frontier : Frontier
new_frontier = ("d1", pos 5) ∷ []

abbrev ack_file : Ack.File
ack_file = record {
  version = 1;
  device_id = "d1";
  frontier = ("d1", pos 6) ∷ [];
  checkpoint_id = "c1";
  updated_at = pos 0;
}

abbrev manifest_of : String → Frontier → ℤ → Manifest
manifest_of id f created_at = record {
  version = pos 1;
  id = id;
  generation_id = "g";
  frontier = f;
  created_at = created_at;
}

abbrev bundle_header : Header
bundle_header = record {
  version = pos 1;
  device_id = "d1";
  seq_start = pos 1;
  seq_end = pos 3;
  event_count = pos 3;
  generation_id = "g";
  nonce = "n";
}

-- Contents are named by short texts.
abbrev codec : Codec
codec = record {
  ack = λ b. if b == "ack" then ok ack_file else err (failed "ack");
  manifest = λ b.
      if b == "old"
      then ok (manifest_of "c0" old_frontier (pos 1))
      else if b == "new"
      then ok (manifest_of "c1" new_frontier (pos 2))
      else err (failed "manifest");
  header = λ b. if b == "bundle" then ok bundle_header else err (failed "header");
}

abbrev storage : Dict Bytes
storage =
    ("acks/d1.ack", "ack")
    ∷ ("checkpoints/c0/manifest", "old")
    ∷ ("checkpoints/c1/manifest", "new")
    ∷ ("events/d1/a.bundle", "bundle")
    ∷ ("events/d1/.tmp-1", "")
    ∷ ("keys/root", "k")
    ∷ []

abbrev plan : Plan
plan = record {
  bundles = "events/d1/a.bundle" ∷ [];
  checkpoints = "checkpoints/c0" ∷ [];
  generations = [];
  tmp_orphans = "events/d1/.tmp-1" ∷ [];
  blocked_by = [];
  checkpoint = "c1";
  eligible = true;
}

evaluate_test : evaluate (memory_view storage) codec ("d1" ∷ []) "" ≡ ok plan
unfolding program
evaluate_test = refl

-- Two checkpoints of which none dominates the other: the required device has reached `c1`, whose
-- covered bundle goes, and so does `c1` itself, since `c2` ranks above it and is not older.
abbrev other_frontier : Frontier
other_frontier = ("d2", pos 9) ∷ []

abbrev forked_codec : Codec
forked_codec = record codec {
  manifest = λ b.
      if b == "new"
      then ok (manifest_of "c1" new_frontier (pos 2))
      else if b == "other"
      then ok (manifest_of "c2" other_frontier (pos 3))
      else err (failed "manifest");
}

abbrev forked_storage : Dict Bytes
forked_storage =
    ("acks/d1.ack", "ack")
    ∷ ("checkpoints/c1/manifest", "new")
    ∷ ("checkpoints/c2/manifest", "other")
    ∷ ("events/d1/a.bundle", "bundle")
    ∷ []

abbrev forked_plan : Plan
forked_plan = record {
  bundles = "events/d1/a.bundle" ∷ [];
  checkpoints = "checkpoints/c1" ∷ [];
  generations = [];
  tmp_orphans = [];
  blocked_by = [];
  checkpoint = "c1";
  eligible = true;
}

forked_test : evaluate (memory_view forked_storage) forked_codec ("d1" ∷ []) "" ≡ ok forked_plan
unfolding program
forked_test = refl

storage-acks : load_acks (memory_view storage) codec ≡ ok (("d1", ack_file) ∷ [])
unfolding program
storage-acks = refl

evaluate_bundles_seen_example :
    (acks : Dict Ack.File) × (a : Ack.File) × (load_acks (memory_view storage) codec ≡ ok acks)
    × (lookup "d1" acks ≡ some a)
    × (pos 3 ≤ℤ at a.frontier "d1")
unfolding program
evaluate_bundles_seen_example =
    evaluate_bundles_seen (memory_view storage) codec ("d1" ∷ []) plan "events/d1/a.bundle" "d1"
      bundle_header evaluate_test (inl refl) refl (omega arith) (inl refl)

-- The only checkpoint stays, but its manifest states another id than that of its directory, which is
-- then planned for deletion.
misnamed_test :
    evaluate (memory_view (("checkpoints/d/manifest", "old") ∷ [])) codec [] ""
    ≡ ok (record {
      bundles = [];
      checkpoints = "checkpoints/d" ∷ [];
      generations = [];
      tmp_orphans = [];
      blocked_by = [];
      checkpoint = "";
      eligible = false;
    })
unfolding program
misnamed_test = refl

abbrev storage_keys : List String
storage_keys =
    "keys/root" ∷ "events/d1/a.bundle" ∷ "events/d1/.tmp-1" ∷ "checkpoints/c0/manifest"
    ∷ "checkpoints/c1/manifest" ∷ "acks/d1.ack" ∷ []

storage-IsNamed : IsNamed (readable (memory_view storage) codec storage_keys)
unfolding program
storage-IsNamed d m e = ground (arith, eq_iff "c0" d, eq_iff "c1" d)

evaluate_checkpoints-Superseded_example :
    (id : String) × ("checkpoints/c0" ≡ join_child "checkpoints" id)
    × IsOther
        (readable (memory_view storage) codec storage_keys)
        (choose_keep
          (memory_view storage)
          codec
          (readable (memory_view storage) codec storage_keys)
          "c1")
        id
    × Superseded
        (readable (memory_view storage) codec storage_keys)
        (choose_keep
          (memory_view storage)
          codec
          (readable (memory_view storage) codec storage_keys)
          "c1")
        true
        id
unfolding program
evaluate_checkpoints-Superseded_example =
    evaluate_checkpoints-Superseded (memory_view storage) codec ("d1" ∷ []) "" plan "checkpoints/c0"
      storage_keys refl storage-IsNamed evaluate_test (inl refl)

plan-clean : Clean (doomed plan)
unfolding program
plan-clean = (refl, (refl, (refl, tt)))

execute_keeps_example :
    object_of ((memory_view (execute memory storage plan false).1).get "keys/root")
    ≡ object_of ((memory_view storage).get "keys/root")
unfolding program
execute_keeps_example =
    execute_keeps memory memory-Lawful storage plan false "keys/root" plan-clean refl
      (inr (refl, (refl, (refl, tt))))
