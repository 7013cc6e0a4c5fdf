-- ===== src/Sync/Generations/Unique.antt =====
-- internal/sync/syncer/engine.go: importing generations keeps their numbers unique, and meets no
-- number that another generation holds.
use remnix.Prelude.{
  String, List, [], ◌∷◌, Option, none, some, ◌==◌, arith, ◌≡◌, refl, ap, ◌∙◌, subst, Bool-cases,
  Option-cases, inl, inr, eq_iff, ◌⊎◌, ◌≢◌, All,
}
use remnix.Prelude.Int.{ℤ}
use remnix.Prelude.Result.{Result, ok}
use remnix.Keys.{
  KeyStore, Generation, GenerationRow, id_of_seq, without_generation, put_generation,
  delete_generation,
}
use remnix.Sync.Metadata.{RemoteManifest}
use remnix.Sync.Generations.{
  Group, settled, with_id, choose_generation, import_group, import_groups, put_marked, marked,
  active_id,
}
use remnix.Sync.Generations.Rows.{
  IsRows, id_of_seq-has_id, id_of_seq_injective, upsert_generation_other, upsert_generation-IsRows,
  without_generation-IsRows, without_generation_seq,
}

-- The generations of a group have its number, and no two groups have one number.
abbrev pub HasSeq : Group → Generation → Type 0
HasSeq g m = m.seq ≡ g.seq

abbrev pub IsGroups : List Group → Type 0
IsGroups [] = Unit
IsGroups (g ∷ gs) =
    All (HasSeq g) (g.first ∷ g.others) × All (λ (h : Group). g.seq ≢ h.seq) gs × IsGroups gs

with_id-All :
    (P : Generation → Type 0) (id : String) (ms : List Generation) (m : Generation)
    → All P ms
    → with_id id ms ≡ some m
    → P m
unfolding with_id
with_id-All P id [] m h e = cc e
with_id-All P id (x ∷ ms) m h e = elim (Bool-cases (x.generation_id == id)) [
  | inl t ↦ subst P (ground arith) h.0
  | inr f ↦ with_id-All P id ms m h.1 (ground arith)
]

choose_generation-All :
    (P : Generation → Type 0) (g : Group) (active local : String)
    → All P (g.first ∷ g.others)
    → P (choose_generation g active local)
unfolding choose_generation
choose_generation-All P g active local h =
    elim (Option-cases (with_id active (g.first ∷ g.others))) [
      | inr (m, e) ↦ rw (e, choose_generation) (with_id-All P active (g.first ∷ g.others) m h e)
      | inl e ↦ elim (Option-cases (with_id local (g.first ∷ g.others))) [
        | inr (m, f) ↦ rw (e, f, choose_generation) (with_id-All P local (g.first ∷ g.others) m h f)
        | inl f ↦ rw (e, f, choose_generation) h.0
      ]
    ]

-- An import that succeeds, and leaves the other numbers as they were.
record Imported (seq : ℤ) (rows : List GenerationRow) (r : Result (Unit {0}) × KeyStore)
    : Type 0 where
  fine : r.0 ≡ ok tt
  unique : IsRows r.1.generations
  others : (q : ℤ) → seq ≢ q → id_of_seq q r.1.generations ≡ id_of_seq q rows

put_generation-Imported :
    (now : ℤ) (m : Generation) (k : KeyStore)
    → IsRows k.generations
    → (id_of_seq m.seq k.generations ≡ none)
      ⊎ (id_of_seq m.seq k.generations ≡ some m.generation_id)
    → Imported m.seq k.generations (settled k (put_generation now m k))
unfolding put_generation
put_generation-Imported now m k u (inl fresh) =
    rw (fresh, put_generation)
      (record {
        fine = refl;
        unique = upsert_generation-IsRows m k.generations u (inr fresh);
        others = λ q other. upsert_generation_other m q k.generations other;
      })
put_generation-Imported now m k u (inr known) =
    let same = (eq_iff m.generation_id m.generation_id).1 refl in
    rw (known, same, put_generation)
      (record {
        fine = refl;
        unique =
            upsert_generation-IsRows m k.generations u
              (inl (id_of_seq-has_id m.seq m.generation_id k.generations known));
        others = λ q other. upsert_generation_other m q k.generations other;
      })

module _ (now : ℤ) (manifest : Option RemoteManifest) where
  marked_same :
      (m : Generation)
      → ((marked now manifest m).seq ≡ m.seq)
        × ((marked now manifest m).generation_id ≡ m.generation_id)
  marked_same m = mark_cases manifest
    where
      mark_cases :
          (o : Option RemoteManifest)
          → ((marked now o m).seq ≡ m.seq) × ((marked now o m).generation_id ≡ m.generation_id)
      mark_cases none = (refl, refl)
      mark_cases (some rm) = (refl, refl)

  put_marked-Imported :
      (seq : ℤ) (m : Generation) (k : KeyStore)
      → m.seq ≡ seq
      → IsRows k.generations
      → (id_of_seq seq k.generations ≡ none) ⊎ (id_of_seq seq k.generations ≡ some m.generation_id)
      → Imported seq k.generations (put_marked now manifest m k)
  put_marked-Imported seq m k at u free =
      let n = marked now manifest m in
      let (same_seq, same_id) = marked_same m in
      let number : n.seq ≡ seq = same_seq ∙ at in
      subst (λ s. Imported s k.generations (put_marked now manifest m k)) number
        (put_generation-Imported now n k u
          (elim free [ inl e ↦ inl (rw number e) | inr e ↦ inr (rw (number, same_id) e) ]))

  -- The generation that was there goes, and the active one takes its number.
  replaced-Imported :
      (existing : String) (seq : ℤ) (m : Generation) (k : KeyStore)
      → m.seq ≡ seq
      → IsRows k.generations
      → id_of_seq seq k.generations ≡ some existing
      → Imported seq k.generations (put_marked now manifest m (delete_generation existing k))
  unfolding delete_generation
  replaced-Imported existing seq m k number u at =
      let law = λ (q : ℤ). without_generation_seq existing q k.generations u in
      let gone : id_of_seq seq (without_generation existing k.generations) ≡ none =
        ground (arith, law seq, eq_iff existing existing) in
      let i =
        put_marked-Imported seq m (delete_generation existing k) number
          (without_generation-IsRows existing k.generations u) (inl gone) in
      record {
        fine = i.fine;
        unique = i.unique;
        others = λ q other.
            let kept : id_of_seq q (without_generation existing k.generations)
                ≡ id_of_seq q k.generations =
              elim (Option-cases (id_of_seq q k.generations)) [
                | inl e ↦ ground (arith, law q)
                | inr (j, e) ↦
                    let apart : j ≢ existing = λ same.
                      other (
                        id_of_seq_injective seq q existing k.generations u at (e ∙ ap some same)) in
                    ground (arith, law q, eq_iff j existing)
              ] in
            i.others q other ∙ kept;
      }

  import_group-Imported :
      (local : Option String) (g : Group) (k : KeyStore)
      → All (HasSeq g) (g.first ∷ g.others)
      → IsRows k.generations
      → id_of_seq g.seq k.generations ≡ local
      → Imported g.seq k.generations (import_group now manifest local g k)
  unfolding import_group
  import_group-Imported none g k all u at =
      put_marked-Imported g.seq (choose_generation g (active_id now manifest) "") k
        (choose_generation-All (HasSeq g) g (active_id now manifest) "" all) u (inl at)
  import_group-Imported (some existing) g k all u at =
      let m = choose_generation g (active_id now manifest) existing in
      let number = choose_generation-All (HasSeq g) g (active_id now manifest) existing all in
      elim (Bool-cases (existing == m.generation_id)) [
        | inl e ↦
            let same : existing ≡ m.generation_id = (eq_iff existing m.generation_id).0 e in
            rw e (put_marked-Imported g.seq m k number u (inr (at ∙ ap some same)))
        | inr e ↦ elim (Bool-cases (m.generation_id == active_id now manifest)) [
          | inr f ↦ rw (e, f) (record { fine = refl; unique = u; others = λ q other. refl })
          | inl f ↦ rw (e, f) (replaced-Imported existing g.seq m k number u at)
        ]
      ]

  abbrev Agrees : List GenerationRow → List GenerationRow → Group → Type 0
  Agrees local rows g = id_of_seq g.seq rows ≡ id_of_seq g.seq local

  agree_after :
      (seq : ℤ) (local before after : List GenerationRow) (gs : List Group)
      → ((q : ℤ) → seq ≢ q → id_of_seq q after ≡ id_of_seq q before)
      → All (λ (h : Group). seq ≢ h.seq) gs
      → All (Agrees local before) gs
      → All (Agrees local after) gs
  agree_after seq local before after [] same apart h = tt
  agree_after seq local before after (g ∷ gs) same apart h =
      (same g.seq apart.0 ∙ h.0, agree_after seq local before after gs same apart.1 h.1)

  import_groups-fine :
      (local : List GenerationRow) (gs : List Group) (k : KeyStore)
      → IsGroups gs
      → IsRows k.generations
      → All (Agrees local k.generations) gs
      → ((import_groups now manifest local gs k).0 ≡ ok tt)
        × IsRows (import_groups now manifest local gs k).1.generations
  unfolding import_groups
  import_groups-fine local [] k w u h = (refl, u)
  import_groups-fine local (g ∷ gs) k w u h =
      let r = import_group now manifest (id_of_seq g.seq local) g k in
      let i = import_group-Imported (id_of_seq g.seq local) g k w.0 u h.0 in
      let rest =
        import_groups-fine local gs r.1 w.2 i.unique
          (agree_after g.seq local k.generations r.1.generations gs i.others w.1 h.1) in
      rw (i.fine, import_groups) rest

Agrees-at_start :
    (now : ℤ) (manifest : Option RemoteManifest) (local : List GenerationRow) (gs : List Group)
    → All (Agrees now manifest local local) gs
Agrees-at_start now manifest local [] = tt
Agrees-at_start now manifest local (g ∷ gs) = (refl, Agrees-at_start now manifest local gs)

-- No import fails on a number that another generation holds.
pub import_groups_unique :
    (now : ℤ) (manifest : Option RemoteManifest) (gs : List Group) (k : KeyStore)
    → IsGroups gs
    → IsRows k.generations
    → ((import_groups now manifest k.generations gs k).0 ≡ ok tt)
      × IsRows (import_groups now manifest k.generations gs k).1.generations
import_groups_unique now manifest gs k w u =
    import_groups-fine now manifest k.generations gs k w u
      (Agrees-at_start now manifest k.generations gs)
