-- ===== src/Examples/Endpoints.antt =====
-- Tests and instances for internal/sync/equalize/equalize.go, on two storages in memory.
use remnix.Prelude.{
  String, true, false, List, [], ◌∷◌, Option, none, some, ◌==◌, if◌then◌else◌, ◌≡◌, refl,
}
use remnix.Prelude.Int.{ℤ, pos}
use remnix.Prelude.Dict.{lookup, insert}
use remnix.Prelude.Text.{contains, has_prefix, has_suffix, split_slash}
use remnix.Prelude.Result.{ok, err, failed}
use remnix.Sync.Transport.{Bytes}
use remnix.Sync.Transport.Laws.{is_clean, memory_view, memory, memory-Lawful}
use remnix.Sync.Gc.Layout.{list_layout_objects}
use remnix.Sync.Equalize.{
  Site, list_sites, Sessions, mirror, equalize, copy_to, skip_key, list_site, keep_keys, all_have,
  source_of, copy_all, begin_failed,
}
use remnix.Sync.Equalize.Each.{Each}
use remnix.Sync.Equalize.Shared.{Shares, Spares, mirror-Spares, mirror-Shares}

abbrev read_counter : Bytes → Option ℤ
read_counter b = if b == "low" then some (pos 1) else if b == "high" then some (pos 9) else none

abbrev site : String → List (String × Bytes) → Site memory
site id objects = record { id = id; remote = objects; opened = false; have = [] }

abbrev pair_of_sites : List (Site memory)
pair_of_sites =
    site "a"
      (("metadata/manifest", "low") ∷ ("acks/dev-a.ack", "ack") ∷ ("acks/x.tmp-1", "half") ∷ [])
    ∷ site "b" (("metadata/manifest", "high") ∷ [])
    ∷ []

mirror-Spares_example :
    Each
      (λ s s'. (s'.id ≡ s.id) × (s'.remote ≡ s.remote))
      pair_of_sites
      (list_sites memory pair_of_sites).1
    × Each
        (Spares memory read_counter "metadata/manifest" (list_sites memory pair_of_sites).1)
        (list_sites memory pair_of_sites).1
        (mirror memory read_counter pair_of_sites).1
unfolding is_clean split_slash contains
mirror-Spares_example =
    mirror-Spares memory read_counter memory-Lawful pair_of_sites "metadata/manifest" (refl, refl)

-- The second endpoint has no ack.
mirror-Shares_example :
    Each
      (Shares memory read_counter "acks/dev-a.ack" (ok "ack"))
      (list_sites memory pair_of_sites).1
      (mirror memory read_counter pair_of_sites).1
unfolding mirror list_layout_objects copy_to memory_view skip_key contains has_prefix has_suffix
    split_slash insert lookup list_site keep_keys all_have source_of copy_all is_clean
mirror-Shares_example =
    mirror-Shares memory read_counter memory-Lawful pair_of_sites "acks/dev-a.ack" "a" (ok "ack")
      (refl, refl) refl refl

-- The second endpoint gets the ack, not the temporary file, and keeps its manifest.
mirror_test :
    ((mirror memory read_counter pair_of_sites).0 ≡ [])
    × ((mirror memory read_counter pair_of_sites).1
        ≡ record (site "a" (
            ("metadata/manifest", "low")
            ∷ ("acks/dev-a.ack", "ack")
            ∷ ("acks/x.tmp-1", "half")
            ∷ [])) { have = "metadata/manifest" ∷ "acks/dev-a.ack" ∷ [] }
          ∷ record (site "b" (("metadata/manifest", "high") ∷ ("acks/dev-a.ack", "ack") ∷ [])) {
            have = "metadata/manifest" ∷ [];
          }
          ∷ [])
unfolding mirror list_layout_objects copy_to memory_view skip_key contains has_prefix has_suffix
    split_slash insert lookup list_site keep_keys all_have source_of copy_all is_clean
mirror_test = (refl, refl)

skip_key_test :
    (skip_key "metadata/health/dev" ≡ true)
    × (skip_key "acks/dev.tmp" ≡ true)
    × (skip_key "a.tmp/dev.ack" ≡ false)
unfolding skip_key contains has_prefix has_suffix split_slash
skip_key_test = (refl, refl, refl)

abbrev refusing : Sessions memory
refusing = record {
  is_session = λ m. true;
  begin = λ m. (err (failed "rsync"), m);
  finish = λ m. (ok tt, m);
}

-- A session that does not begin ends the run.
equalize_test :
    equalize memory read_counter refusing pair_of_sites
    ≡ (begin_failed "a" (failed "rsync") ∷ [], pair_of_sites)
unfolding equalize
equalize_test = refl
