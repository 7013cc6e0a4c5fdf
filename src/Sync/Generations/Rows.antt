-- ===== src/Sync/Generations/Rows.antt =====
-- internal/crypto/keys/store.go: the rows of `key_generations` under the changes that a pull makes.
use remnix.Prelude.{
  String, Bool, true, false, ◌||◌, List, [], ◌∷◌, none, some, ◌==◌, if◌then◌else◌, arith, ◌≡◌, refl,
  ◌∙◌, Bool-cases, inl, inr, eq_iff, ◌⊎◌, ◌≢◌,
}
use remnix.Prelude.Int.{ℤ, eqb_ℤ_iff}
use remnix.Keys.{Generation, GenerationRow, id_of_seq, upsert_generation, without_generation}

unfoldable pub has_id : String → List GenerationRow → Bool
has_id id [] = false
has_id id (r ∷ rows) = r.id == id || has_id id rows

-- The constraints of the table: no two rows have one number, or one id.
abbrev pub IsRows : List GenerationRow → Type 0
IsRows [] = Unit
IsRows (r ∷ rows) = (id_of_seq r.seq rows ≡ none) × (has_id r.id rows ≡ false) × IsRows rows

-- A row that is found by its number has its id in the table.
pub id_of_seq-has_id :
    (seq : ℤ) (id : String) (rows : List GenerationRow)
    → id_of_seq seq rows ≡ some id
    → has_id id rows ≡ true
unfolding id_of_seq has_id
id_of_seq-has_id seq id [] h = cc h
id_of_seq-has_id seq id (r ∷ rows) h = ground (arith, eq_iff r.id id, id_of_seq-has_id seq id rows)

-- One id, one number.
pub id_of_seq_injective :
    (s t : ℤ) (id : String) (rows : List GenerationRow)
    → IsRows rows
    → id_of_seq s rows ≡ some id
    → id_of_seq t rows ≡ some id
    → s ≡ t
unfolding id_of_seq
id_of_seq_injective s t id [] u h k = cc h
id_of_seq_injective s t id (r ∷ rows) u h k = ground (
  arith,
  eqb_ℤ_iff r.seq s,
  eqb_ℤ_iff r.seq t,
  id_of_seq-has_id s id rows,
  id_of_seq-has_id t id rows,
  id_of_seq_injective s t id rows u.2,
)

pub upsert_generation_other :
    (m : Generation) (seq : ℤ) (rows : List GenerationRow)
    → m.seq ≢ seq
    → id_of_seq seq (upsert_generation m rows) ≡ id_of_seq seq rows
unfolding id_of_seq upsert_generation
upsert_generation_other m seq [] other = ground (arith, eqb_ℤ_iff m.seq seq)
upsert_generation_other m seq (r ∷ rows) other = ground (arith, upsert_generation_other m seq rows)

-- The update of a row leaves the numbers of all rows.
upsert_generation_known :
    (m : Generation) (seq : ℤ) (rows : List GenerationRow)
    → has_id m.generation_id rows ≡ true
    → id_of_seq seq (upsert_generation m rows) ≡ id_of_seq seq rows
unfolding id_of_seq upsert_generation has_id
upsert_generation_known m seq [] known = cc known
upsert_generation_known m seq (r ∷ rows) known = ground (arith, upsert_generation_known m seq rows)

has_id-upsert_generation :
    (m : Generation) (id : String) (rows : List GenerationRow)
    → has_id id (upsert_generation m rows) ≡ (has_id id rows || m.generation_id == id)
unfolding upsert_generation has_id
has_id-upsert_generation m id [] = ground arith
has_id-upsert_generation m id (r ∷ rows) =
    ground (arith, eq_iff r.id m.generation_id, eq_iff r.id id, has_id-upsert_generation m id rows)

pub upsert_generation-IsRows :
    (m : Generation) (rows : List GenerationRow)
    → IsRows rows
    → (has_id m.generation_id rows ≡ true) ⊎ (id_of_seq m.seq rows ≡ none)
    → IsRows (upsert_generation m rows)
unfolding upsert_generation id_of_seq has_id
upsert_generation-IsRows m [] u free = (refl, refl, tt)
upsert_generation-IsRows m (r ∷ rows) u free = elim (Bool-cases (r.id == m.generation_id)) [
  | inl e ↦ rw e u
  | inr e ↦ elim (Bool-cases (has_id m.generation_id rows)) [
    | inl known ↦ rw e (
      upsert_generation_known m r.seq rows known ∙ u.0,
      ground (
        arith,
        has_id-upsert_generation m r.id rows,
        eq_iff r.id m.generation_id,
        eq_iff m.generation_id r.id,
      ),
      upsert_generation-IsRows m rows u.2 (inl known),
    )
    | inr fresh ↦
        let none_there : (id_of_seq m.seq rows ≡ none) × (m.seq ≢ r.seq) = new_seq fresh free e in
        rw e (
          upsert_generation_other m r.seq rows none_there.1 ∙ u.0,
          ground (
            arith,
            has_id-upsert_generation m r.id rows,
            eq_iff r.id m.generation_id,
            eq_iff m.generation_id r.id,
          ),
          upsert_generation-IsRows m rows u.2 (inr none_there.0),
        )
  ]
]
  where
    new_seq :
        has_id m.generation_id rows ≡ false
        → (has_id m.generation_id (r ∷ rows) ≡ true) ⊎ (id_of_seq m.seq (r ∷ rows) ≡ none)
        → (r.id == m.generation_id) ≡ false
        → (id_of_seq m.seq rows ≡ none) × (m.seq ≢ r.seq)
    new_seq fresh (inl h) e = ground arith
    new_seq fresh (inr h) e = (ground arith, λ same. ground (arith, eqb_ℤ_iff r.seq m.seq))

has_id-without_generation :
    (id other : String) (rows : List GenerationRow)
    → has_id other rows ≡ false
    → has_id other (without_generation id rows) ≡ false
unfolding has_id without_generation
has_id-without_generation id other [] h = refl
has_id-without_generation id other (r ∷ rows) h =
    ground (arith, has_id-without_generation id other rows)

without_generation-none :
    (id : String) (seq : ℤ) (rows : List GenerationRow)
    → id_of_seq seq rows ≡ none
    → id_of_seq seq (without_generation id rows) ≡ none
unfolding id_of_seq without_generation
without_generation-none id seq [] h = refl
without_generation-none id seq (r ∷ rows) h = ground (arith, without_generation-none id seq rows)

pub without_generation-IsRows :
    (id : String) (rows : List GenerationRow) → IsRows rows → IsRows (without_generation id rows)
unfolding without_generation
without_generation-IsRows id [] u = tt
without_generation-IsRows id (r ∷ rows) u = elim (Bool-cases (r.id == id)) [
  | inl e ↦ rw e (without_generation-IsRows id rows u.2)
  | inr e ↦ rw e (
    without_generation-none id r.seq rows u.0,
    has_id-without_generation id r.id rows u.1,
    without_generation-IsRows id rows u.2,
  )
]

-- Removing an id removes its number and no other.
pub without_generation_seq :
    (id : String) (seq : ℤ) (rows : List GenerationRow)
    → IsRows rows
    → id_of_seq seq (without_generation id rows)
      ≡ elim (id_of_seq seq rows) [ none ↦ none | some j ↦ if j == id then none else some j ]
unfolding id_of_seq without_generation
without_generation_seq id seq [] u = refl
without_generation_seq id seq (r ∷ rows) u = ground (
  arith,
  eqb_ℤ_iff r.seq seq,
  without_generation-none id seq rows,
  without_generation_seq id seq rows u.2,
)
