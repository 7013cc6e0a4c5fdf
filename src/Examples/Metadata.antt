-- ===== src/Examples/Metadata.antt =====
-- Tests and instances for pulling metadata.
use remnix.Prelude.{true, false, [], ◌∷◌, none, some, ◌==◌, if◌then◌else◌, ◌≡◌, refl}
use remnix.Prelude.Int.{pos}
use remnix.Prelude.Dict.{insert, lookup}
use remnix.Prelude.Text.{has_suffix}
use remnix.Prelude.Result.{ok, err, failed, not_exist}
use remnix.Sync.Transport.{View}
use remnix.Sync.Publish.{Options, trust_kind}
use remnix.Sync.Gc.Layout.{Codec}
use remnix.Keys.{
  set_trusted, put_generation, delete_generation, Generation, trusted_counter, id_of_seq,
}
use remnix.Sync.Metadata.{
  RemoteManifest, Decoders, State, read_all, read_objects, import_wanted_devices, import_files,
}
use remnix.Sync.Generations.{
  import_groups, import_group, choose_generation, with_id, pull_metadata, pull_rest,
  accept_manifest, group_generations, add_to_group, rollback,
}
use remnix.Sync.Generations.NoRollback.{KeepsTrust, pull_metadata-KeepsTrust}
use remnix.Sync.Generations.Rows.{IsRows, has_id}
use remnix.Sync.Generations.Pulled.{pull_rest_unique}

abbrev new_generation : Generation
new_generation = record {
  version = pos 1;
  generation_id = "g2";
  seq = pos 2;
  counter = pos 2;
  active = false;
  slots = [];
  mac = "";
}

abbrev remote_manifest : RemoteManifest
remote_manifest = record {
  version = pos 1;
  counter = pos 4;
  active_generation = "g2";
  devices = "d1" ∷ [];
  retired = [];
  pruned = [];
  updated_at = pos 8;
  mac = "not a mac";
}

-- A storage with a manifest and one generation; nothing else can be read.
abbrev storage : View
storage = record {
  list = λ p. if p == "keys/generations" then ok ("keys/generations/g2/manifest" ∷ []) else ok [];
  list_dirs = λ p. ok [];
  list_shallow = none;
  get = λ k.
      if k == "metadata/manifest"
      then ok "m"
      else if k == "keys/generations/g2/manifest"
      then ok "g"
      else err not_exist;
}

abbrev no_codec : Codec
no_codec = record {
  ack = λ b. err (failed "json");
  manifest = λ b. err (failed "json");
  header = λ b. err (failed "cbor");
}

abbrev decoders : Decoders
decoders = record {
  manifest = λ b. if b == "m" then ok remote_manifest else err (failed "json");
  generation = λ b. if b == "g" then ok new_generation else err (failed "json");
  device_file = λ b. err (failed "json");
  cut_ack = λ name. none;
}

abbrev options : Options
options = record { device_id = "d1"; endpoint_id = "" }

-- The counter 5 is trusted, so the manifest with the counter 4 is refused.
abbrev trusting : State
trusting = record {
  keys = record {
    generations = record { id = "g1"; seq = pos 2; active = true } ∷ [];
    slots = [];
    trusted =
        (
          "remote",
          record { generation_id = "g1"; counter = pos 5; checkpoint_id = ""; payload = "" },
        )
        ∷ [];
  };
  devices = [];
}

pull_metadata-KeepsTrust_example :
    KeepsTrust storage no_codec decoders
      (pos 9)
      options
      trusting
      (pull_metadata storage no_codec decoders (pos 9) options trusting)
pull_metadata-KeepsTrust_example =
    pull_metadata-KeepsTrust storage no_codec decoders (pos 9) options trusting

refused_test :
    pull_metadata storage no_codec decoders (pos 9) options trusting ≡ (err rollback, trusting)
unfolding pull_metadata accept_manifest trusted_counter lookup trust_kind
refused_test = refl

-- The active generation replaces the one that has its number.
pull_rest_unique_example :
    ((pull_rest storage no_codec decoders (pos 9) options (some remote_manifest) trusting).0
      ≡ ok tt)
    × IsRows
        (pull_rest storage no_codec decoders
          (pos 9)
          options
          (some remote_manifest)
          trusting).1.keys.generations
unfolding import_wanted_devices read_all read_objects import_files lookup group_generations
    add_to_group has_suffix id_of_seq has_id
pull_rest_unique_example =
    pull_rest_unique storage no_codec decoders (pos 9) options (some remote_manifest) trusting []
      (record { seq = pos 2; first = new_generation; others = [] } ∷ []) (refl, refl, tt) refl refl

-- A manifest with a higher counter is trusted, although its MAC is none.
forged_test :
    trusted_counter "remote"
      (pull_metadata storage no_codec decoders
        (pos 9)
        options
        (record trusting { keys = record trusting.keys { trusted = [] } })).1.keys
    ≡ pos 4
unfolding pull_metadata accept_manifest pull_rest trusted_counter set_trusted lookup insert
    trust_kind import_wanted_devices read_all read_objects import_files group_generations
    add_to_group has_suffix id_of_seq import_groups import_group choose_generation with_id
    put_generation delete_generation remnix.Keys.without_generation
forged_test = refl
