-- ===== src/Examples/Bootstraps.antt =====
-- Tests and instances for starting from a checkpoint.
use remnix.Prelude.{String, true, List, [], ◌∷◌, none, some, ◌==◌, if◌then◌else◌, ◌≡◌, refl, ◌⊎◌}
use remnix.Prelude.Int.{pos, ◌≤ℤ◌}
use remnix.Prelude.Dict.{Dict, lookup, insert}
use remnix.Prelude.Text.{has_prefix}
use remnix.Prelude.Result.{ok, err, failed, not_exist}
use remnix.History.Entry.{Entry, no_changes}
use remnix.History.Table.{get}
use remnix.Sync.Transport.{Bytes, View}
use remnix.Sync.Frontier.{at, dominates}
use remnix.Sync.Checkpoint.{Manifest}
use remnix.Sync.Heads
use remnix.Sync.Merge.{entry_of}
use remnix.Sync.Engine.{apply_events, is_known}
use remnix.Sync.Gc.Layout.{Codec}
use remnix.Sync.Gc.Plan.Parts.{join_child}
use remnix.Sync.Snapshot.Payload.{unpack_snapshot}
use remnix.Sync.Snapshot.File.{decode_file, take}
use remnix.Sync.Bootstrap.{
  Local, Reader, bootstrap, pull_newest, skip_stale_checkpoint, set_trusted_checkpoint,
}
use remnix.Sync.Bootstrap.Effects.{bootstrap_keeps_rows, bootstrap_heads}
use remnix.Sync.Bootstrap.Pull.{pull_newest-Reached}
use remnix.Examples.Events.{created, creation, deletion, env, db, db-Settled}

program : Unit {0}
unfolding remnix.Sync.Events.exists_row lookup insert remnix.History.Table.insert get Heads.set
    entry_of bootstrap dominates is_known apply_events pull_newest skip_stale_checkpoint
    set_trusted_checkpoint unpack_snapshot decode_file join_child has_prefix take
program = tt

-- `d1` made the entry, which is live here; `d2` deleted it, which a checkpoint covers.
abbrev live_entry : Entry
live_entry = entry_of (creation (pos 3)) created

abbrev behind : Local
behind = record { db = record db { history = live_entry ∷ [] }; trusted = ("remote", "old") ∷ [] }

abbrev covering : Manifest
covering = record {
  version = pos 1;
  id = "new";
  generation_id = "g";
  frontier = ("d1", pos 3) ∷ ("d2", pos 1) ∷ [];
  created_at = pos 250;
}

abbrev snapshot_entries : List Entry
snapshot_entries = record live_entry { deleted = true } ∷ []

abbrev started : Local
started = bootstrap env "remote" covering snapshot_entries behind

-- The entry stays live after the checkpoint is pulled, and the bundle with its deletion is skipped.
missed_deletion_test :
    (started.db.history ≡ live_entry ∷ [])
    × (is_known started.db deletion ≡ true)
    × (apply_events env (deletion ∷ []) started.db ≡ ok (started.db, no_changes))
unfolding program
missed_deletion_test = (refl, refl, refl)

bootstrap_keeps_rows_example : get "h1" started.db.history ≡ some live_entry
unfolding program
bootstrap_keeps_rows_example =
    bootstrap_keeps_rows env "remote" covering snapshot_entries behind "h1" live_entry refl

bootstrap_heads_example :
    ((j : String) → at behind.db.heads j ≤ℤ at started.db.heads j)
    × (dominates started.db.heads covering.frontier ≡ true)
unfolding program
bootstrap_heads_example =
    bootstrap_heads env "remote" covering snapshot_entries behind (λ j. db-Settled.nonneg j)
      (refl, (refl, tt))

-- The snapshot file holds a nonce of one byte, and its payload has the older layout.
abbrev reader : Reader
reader = record {
  codecs = record {
    marshal = λ s. err (failed "cbor");
    unmarshal = λ b. err (failed "cbor");
    unmarshal_v1 = λ b. ok (record { version = pos 1; entries = snapshot_entries });
    json_list = λ b. err (failed "json");
    json_wrapped = λ b. err (failed "json");
    json_snapshot = λ b. err (failed "json");
    gzip = λ b. err (failed "gzip");
    gunzip = λ b. err (failed "gzip");
    seal = λ key nonce plain. ok plain;
    unseal = λ key nonce cipher. if key == "key" then ok cipher else err (failed "open");
  };
  json_file = λ b. err (failed "json");
  to_numbers = λ b. 83 ∷ 83 ∷ 99 ∷ 112 ∷ 1 ∷ 1 ∷ 7 ∷ 8 ∷ [];
  of_numbers = λ b. "bytes";
}

abbrev view : View
view = record {
  list = λ p. ok [];
  list_dirs = λ p. ok [];
  list_shallow = none;
  get = λ k. if k == "checkpoints/new/snapshot" then ok "snapshot" else err not_exist;
}

abbrev codec : Codec
codec = record {
  ack = λ b. err (failed "ack");
  manifest = λ b. err (failed "manifest");
  header = λ b. err (failed "header");
}

-- The first key does not open the snapshot.
abbrev keys : Dict Bytes
keys = ("g", "wrong") ∷ ("h", "key") ∷ []

pull_newest_test : pull_newest env reader view codec "remote" keys covering behind ≡ ok started
unfolding program
pull_newest_test = refl

pull_newest-Reached_example :
    ((skip_stale_checkpoint env reader view codec "remote" covering behind ≡ true)
      × (started ≡ behind))
    ⊎ (dominates started.db.heads covering.frontier ≡ true)
unfolding program
pull_newest-Reached_example =
    pull_newest-Reached env reader "remote" covering behind (λ j. db-Settled.nonneg j)
      (refl, (refl, tt)) view codec keys started pull_newest_test
