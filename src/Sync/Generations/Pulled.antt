-- ===== src/Sync/Generations/Pulled.antt =====
-- internal/sync/syncer/engine.go: what is left of a pull once the storage has answered.
use remnix.Prelude.{
  All-append, List, [], ◌∷◌, Option, arith, ◌≡◌, refl, sym, subst, Bool-cases, inl, inr, ◌≢◌, All,
}
use remnix.Prelude.Int.{ℤ, eqb_ℤ, eqb_ℤ_iff}
use remnix.Prelude.Text.{has_suffix}
use remnix.Prelude.Dict.{Dict}
use remnix.Prelude.Result.{ok, ◌>>=◌, >>=-eq-ok}
use remnix.Sync.Transport.{View, Bytes}
use remnix.Sync.Publish.{Options}
use remnix.Sync.Gc.Layout.{Codec}
use remnix.Device
use remnix.Keys.{Generation}
use remnix.Sync.Metadata.{RemoteManifest, Decoders, State, read_all, import_wanted_devices}
use remnix.Sync.Generations.{Group, add_to_group, group_generations, pull_rest}
use remnix.Sync.Generations.Rows.{IsRows}
use remnix.Sync.Generations.Unique.{HasSeq, IsGroups, import_groups_unique}

add_to_group_apart :
    (n : ℤ) (m : Generation) (gs : List Group)
    → n ≢ m.seq
    → All (λ (h : Group). n ≢ h.seq) gs
    → All (λ (h : Group). n ≢ h.seq) (add_to_group m gs)
unfolding add_to_group
add_to_group_apart n m [] apart h = (apart, tt)
add_to_group_apart n m (g ∷ gs) apart h = elim (Bool-cases (eqb_ℤ g.seq m.seq)) [
  | inl e ↦ rw e h
  | inr e ↦ rw e (h.0, add_to_group_apart n m gs apart h.1)
]

add_to_group-IsGroups :
    (m : Generation) (gs : List Group) → IsGroups gs → IsGroups (add_to_group m gs)
unfolding add_to_group
add_to_group-IsGroups m [] w = ((refl, tt), tt, tt)
add_to_group-IsGroups m (g ∷ gs) w = elim (Bool-cases (eqb_ℤ g.seq m.seq)) [
  | inl e ↦
      let same : m.seq ≡ g.seq = sym ((eqb_ℤ_iff g.seq m.seq).0 e) in
      rw e ((w.0.0, All-append (HasSeq g) g.others (m ∷ []) w.0.1 (same, tt)), w.1, w.2)
  | inr e ↦
      let apart : g.seq ≢ m.seq = λ same. ground (arith, eqb_ℤ_iff g.seq m.seq) in
      rw e (w.0, add_to_group_apart g.seq m gs apart w.1, add_to_group-IsGroups m gs w.2)
]

group_generations-IsGroups :
    (d : Decoders) (raw : Dict Bytes) (gs out : List Group)
    → IsGroups gs
    → group_generations d raw gs ≡ ok out
    → IsGroups out
unfolding group_generations
group_generations-IsGroups d [] gs out w h = let same : gs ≡ out = cc h in subst IsGroups same w
group_generations-IsGroups d ((key, body) ∷ more) gs out w h =
    elim (Bool-cases (has_suffix key "/manifest")) [
      | inr e ↦ group_generations-IsGroups d more gs out w (rw e at h)
      | inl e ↦
          let read : (d.generation body >>= λ m. group_generations d more (add_to_group m gs))
              ≡ ok out =
            rw e at h in
          let (m, got, rest) =
            >>=-eq-ok (d.generation body) (λ m. group_generations d more (add_to_group m gs))
              read in
          group_generations-IsGroups d more (add_to_group m gs) out (add_to_group-IsGroups m gs w)
            rest
    ]

-- Where the numbers and ids of the stored generations are unique, and the device files can be read
-- and the generations read and decoded, the rest of a pull ends well, so no generation of the storage
-- is refused because another holds its number, and numbers and ids are unique afterwards.
pub pull_rest_unique :
    (v : View) (c : Codec) (d : Decoders) (now : ℤ) (o : Options) (manifest : Option RemoteManifest)
    (s : State) (rows : Device.Table) (groups : List Group)
    → IsRows s.keys.generations
    → import_wanted_devices v c d now o s.devices ≡ ok rows
    → (read_all v "keys/generations" >>= λ raw. group_generations d raw []) ≡ ok groups
    → ((pull_rest v c d now o manifest s).0 ≡ ok tt)
      × IsRows (pull_rest v c d now o manifest s).1.keys.generations
unfolding pull_rest
pull_rest_unique v c d now o manifest s rows groups u devices read =
    let (raw, got, grouped) =
      >>=-eq-ok (read_all v "keys/generations") (λ raw. group_generations d raw []) read in
    let sound = group_generations-IsGroups d raw [] groups tt grouped in
    rw (devices, read, pull_rest) (import_groups_unique now manifest groups s.keys sound u)
