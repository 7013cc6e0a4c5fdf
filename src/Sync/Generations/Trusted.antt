-- ===== src/Sync/Generations/Trusted.antt =====
-- internal/sync/syncer/engine.go: what a pull leaves of the trusted manifests.
use remnix.Prelude.{
  String, List, [], ◌∷◌, Option, none, some, ◌==◌, ◌≡◌, refl, ◌∙◌, Bool-cases, Option-cases, inl,
  inr,
}
use remnix.Prelude.Int.{ℤ}
use remnix.Prelude.Result.{Result-cases, ◌>>=◌}
use remnix.Sync.Transport.{View}
use remnix.Sync.Publish.{Options}
use remnix.Sync.Gc.Layout.{Codec}
use remnix.Keys.{KeyStore, Generation, GenerationRow, put_generation, delete_generation, id_of_seq}
use remnix.Sync.Metadata.{RemoteManifest, Decoders, State, read_all, import_wanted_devices}
use remnix.Sync.Generations.{
  Group, settled, import_group, import_groups, active_id, choose_generation, group_generations,
  pull_rest,
}

-- Generations do not touch what is trusted.
put_generation-trusted :
    (now : ℤ) (m : Generation) (k : KeyStore)
    → (settled k (put_generation now m k)).1.trusted ≡ k.trusted
unfolding put_generation
put_generation-trusted now m k = elim (Option-cases (id_of_seq m.seq k.generations)) [
  | inl e ↦ rw (e, put_generation) refl
  | inr (id, e) ↦ elim (Bool-cases (id == m.generation_id)) [
    | inl f ↦ rw (e, f, put_generation) refl
    | inr f ↦ rw (e, f, put_generation) refl
  ]
]

import_group-trusted :
    (now : ℤ) (manifest : Option RemoteManifest) (local : Option String) (g : Group) (k : KeyStore)
    → (import_group now manifest local g k).1.trusted ≡ k.trusted
unfolding import_group delete_generation
import_group-trusted now manifest none g k = put_generation-trusted now _ k
import_group-trusted now manifest (some id) g k =
    let m = choose_generation g (active_id now manifest) id in
    elim (Bool-cases (id == m.generation_id)) [
      | inl e ↦ rw e (put_generation-trusted now _ k)
      | inr e ↦ elim (Bool-cases (m.generation_id == active_id now manifest)) [
        | inl f ↦ rw (e, f) (put_generation-trusted now _ (delete_generation id k))
        | inr f ↦ rw (e, f) refl
      ]
    ]

import_groups-trusted :
    (now : ℤ) (manifest : Option RemoteManifest) (local : List GenerationRow) (gs : List Group)
    (k : KeyStore)
    → (import_groups now manifest local gs k).1.trusted ≡ k.trusted
unfolding import_groups
import_groups-trusted now manifest local [] k = refl
import_groups-trusted now manifest local (g ∷ gs) k =
    let one = import_group now manifest (id_of_seq g.seq local) g k in
    let first = import_group-trusted now manifest (id_of_seq g.seq local) g k in
    elim (Result-cases one.0) [
      | inl (u, e) ↦
          rw (e, import_groups) (import_groups-trusted now manifest local gs one.1 ∙ first)
      | inr (x, e) ↦ rw (e, import_groups) first
    ]

module _ (v : View) (c : Codec) (d : Decoders) (now : ℤ) (o : Options) where
  pub pull_rest-trusted :
      (manifest : Option RemoteManifest) (s : State)
      → (pull_rest v c d now o manifest s).1.keys.trusted ≡ s.keys.trusted
  unfolding pull_rest
  pull_rest-trusted manifest s = elim (Result-cases (import_wanted_devices v c d now o s.devices)) [
    | inr (x, e) ↦ rw (e, pull_rest) refl
    | inl (rows, e) ↦
        elim (Result-cases (read_all v "keys/generations" >>= λ raw. group_generations d raw [])) [
          | inr (x, f) ↦ rw (e, f, pull_rest) refl
          | inl (groups, f) ↦
              rw (e, f, pull_rest)
                (import_groups-trusted now manifest s.keys.generations groups s.keys)
        ]
  ]
