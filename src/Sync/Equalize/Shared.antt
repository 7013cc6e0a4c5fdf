-- ===== src/Sync/Equalize/Shared.antt =====
-- What a run of internal/sync/equalize/equalize.go does to its endpoints.
use remnix.Prelude.{
  String, true, false, List, [], ◌∷◌, Option, some, ◌≡◌, ◌⊎◌, inl, inr, refl, Bool-cases,
  Option-cases,
}
use remnix.Prelude.Int.{ℤ}
use remnix.Prelude.Result.{Result, Result-cases}
use remnix.Sync.Transport.{Bytes, Transport}
use remnix.Sync.Transport.Laws.{Lawful, object_of}
use remnix.Sync.Gc.Layout.{is_seen, list_layout_objects}
use remnix.Sync.Equalize.{Site, source_of, copy_keys, union_from, mirror, list_sites, list_site}
use remnix.Sync.Equalize.Each.{Each, Each-map, Each-both}
use remnix.Sync.Equalize.Mirrored.{copy_keys-Kept, copy_keys-Gets, ++-eq-nil}
use remnix.Sync.Equalize.Steps.{Gets, first_object-source}
use remnix.Sync.Equalize.Copied.{Placed, Kept, object_at, IsPlain}
use remnix.Sync.Equalize.Listed.{union-Clean}
use remnix.Sync.Equalize.Union.{union_from-some, union_from-none}

module _ (t : Transport) (read_counter : Bytes → Option ℤ) where
  list_site-remote :
      (s : Site t) → ((list_site t s).1.id ≡ s.id) × ((list_site t s).1.remote ≡ s.remote)
  unfolding list_site list_layout_objects
  list_site-remote s = elim (Result-cases (list_layout_objects (t.view s.remote))) [
    | inl (objs, e) ↦ rw e (refl, refl)
    | inr (f, e) ↦ rw e (refl, refl)
  ]

  list_sites-remote :
      (sites : List (Site t))
      → Each (λ s s'. (s'.id ≡ s.id) × (s'.remote ≡ s.remote)) sites (list_sites t sites).1
  unfolding list_sites
  list_sites-remote [] = tt
  list_sites-remote (s ∷ ss) = (list_site-remote s, list_sites-remote ss)

  -- What becomes of an object at an endpoint, where the first endpoint that showed the object answers
  -- `answer`: it was shown there and is as it was, or it was not and is in place.
  abbrev pub Shares : String → Result Bytes → Site t → Site t → Type 0
  Shares k answer s s' =
      ((is_seen k s.have ≡ true) × (object_at t read_counter s' k ≡ object_at t read_counter s k))
      ⊎ (is_seen k s.have ≡ false)
        × (raw : Bytes) × (object_of answer ≡ some raw)
        × Placed t read_counter k raw s s'

  -- An object is as it was, or the endpoint did not show it and another did.
  abbrev pub Spares : String → List (Site t) → Site t → Site t → Type 0
  Spares k listed s s' =
      (object_at t read_counter s' k ≡ object_at t read_counter s k)
      ⊎ (is_seen k s.have ≡ false) × (x : String × Result Bytes) × (source_of t k listed ≡ some x)

  -- On a lawful storage, what `Equalize` does between the beginning and the end of the sessions leaves
  -- every object of every endpoint as it was, or the endpoint's listing did not show the object and
  -- another's did; this holds whatever fails. The object is no temporary one and its key is clean.
  -- Listing changes no endpoint.
  pub mirror-Spares :
      Lawful t
      → (sites : List (Site t)) (k : String) → IsPlain k
      → Each (λ s s'. (s'.id ≡ s.id) × (s'.remote ≡ s.remote)) sites (list_sites t sites).1
        × Each
            (Spares k (list_sites t sites).1)
            (list_sites t sites).1
            (mirror t read_counter sites).1
  unfolding mirror
  mirror-Spares lawful sites k plain =
      let listed = (list_sites t sites).1 in
      let keys = union_from t [] listed in
      (
        list_sites-remote sites,
        Each-map (Kept t read_counter keys) (Spares k listed) listed (mirror t read_counter sites).1
            (λ s s' kept. elim (Bool-cases (is_seen k s.have)) [
              | inl seen ↦ inl (kept.2 k plain (inl seen))
              | inr unseen ↦ elim (Option-cases (source_of t k listed)) [
                | inl n ↦ inl (kept.2 k plain (inr (union_from-none t k [] listed n refl)))
                | inr (x, e) ↦ inr (unseen, x, e)
              ]
            ])
            (copy_keys-Kept t read_counter lawful keys listed (union-Clean t lawful sites)),
      )

  -- On a lawful storage, when what `Equalize` does between the beginning and the end of the sessions
  -- reports no failure, and an object, which is no temporary one and has a clean key, is one that some
  -- listing showed, then at every endpoint either
  -- the listing showed the object, and it is as it was, or it is now what the first endpoint that
  -- showed it has; for the manifest, the endpoint may instead keep one of its own whose counter is no
  -- lower.
  pub mirror-Shares :
      Lawful t
      → (sites : List (Site t)) (k id : String) (answer : Result Bytes) → IsPlain k
      → source_of t k (list_sites t sites).1 ≡ some (id, answer)
      → (mirror t read_counter sites).0 ≡ []
      → Each (Shares k answer) (list_sites t sites).1 (mirror t read_counter sites).1
  unfolding mirror
  mirror-Shares lawful sites k id answer plain e fine =
      let listed = list_sites t sites in
      let keys = union_from t [] listed.1 in
      let copied = copy_keys t read_counter keys listed.1 in
      Each-map
        (λ s s'. Kept t read_counter keys s s' × Gets t read_counter k keys (object_of answer) s s')
        (Shares k answer) listed.1 copied.1
        (λ s s' both. elim (Bool-cases (is_seen k s.have)) [
          | inl seen ↦ inl (seen, both.0.2 k plain (inl seen))
          | inr unseen ↦
              (let got = both.1 unseen (union_from-some t k [] listed.1 (id, answer) e) in
                inr (unseen, got.0, got.1, got.2))
        ])
        (Each-both (Kept t read_counter keys) (Gets t read_counter k keys (object_of answer))
          listed.1 copied.1
          (copy_keys-Kept t read_counter lawful keys listed.1 (union-Clean t lawful sites))
          (copy_keys-Gets t read_counter lawful keys listed.1 k (object_of answer)
            (union-Clean t lawful sites) plain
            (first_object-source t read_counter k listed.1 id answer e)
            (++-eq-nil listed.0 copied.0 fine).1))
