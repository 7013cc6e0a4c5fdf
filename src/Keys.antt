-- ===== src/Keys.antt =====
-- internal/crypto/keys/store.go, generations/generations.go and slots/slots.go: the tables of key
-- generations, key slots and trusted manifests.
use remnix.Prelude.{
  String, Bool, List, [], ◌∷◌, Option, none, some, ◌==◌, if◌then◌else◌, ◌≡◌, refl, Bool-cases, inl,
  inr,
}
use remnix.Prelude.Int.{ℤ, pos, eqb_ℤ}
use remnix.Prelude.Dict.{Dict, lookup, insert, lookup-insert}
use remnix.Prelude.Result.{Result, ok, err, failed}
use remnix.Sync.Transport.{Bytes}

pub record Slot : Type 0 where
  pub id : String
  pub slot_type : String
  pub generation_id : String
  pub wrap_params : Bytes
  pub wrapped_smk : Bytes
  pub status : String
  pub created_at : ℤ
  pub label : String

-- `generations.Manifest`
pub record Generation : Type 0 where
  pub version : ℤ
  pub generation_id : String
  pub seq : ℤ
  pub counter : ℤ
  pub active : Bool
  pub slots : List Slot
  pub mac : String

-- A row of `key_generations`; its status is whether it is active.
pub record GenerationRow : Type 0 where
  pub id : String
  pub seq : ℤ
  pub active : Bool

-- A row of `trusted_manifests`, whose key is the kind.
pub record Trusted : Type 0 where
  pub generation_id : String
  pub counter : ℤ
  pub checkpoint_id : String
  pub payload : Bytes

pub record KeyStore : Type 0 where
  pub generations : List GenerationRow
  pub slots : List Slot
  pub trusted : Dict Trusted

-- `SELECT id FROM key_generations WHERE seq = ?`
unfoldable pub id_of_seq : ℤ → List GenerationRow → Option String
id_of_seq seq [] = none
id_of_seq seq (r ∷ rows) =
    let rest = id_of_seq seq rows in if eqb_ℤ r.seq seq then some r.id else rest

-- `INSERT … ON CONFLICT(id) DO UPDATE SET status`
unfoldable pub upsert_generation : Generation → List GenerationRow → List GenerationRow
upsert_generation m [] = record { id = m.generation_id; seq = m.seq; active = m.active } ∷ []
upsert_generation m (r ∷ rows) =
    let rest = upsert_generation m rows in
    if r.id == m.generation_id then record r { active = m.active } ∷ rows else r ∷ rest

unfoldable pub put_slot : ℤ → Slot → List Slot → List Slot
put_slot now s [] =
    record s { created_at = if eqb_ℤ s.created_at (pos 0) then now else s.created_at; label = "" }
    ∷ []
put_slot now s (old ∷ rows) =
    let rest = put_slot now s rows in
    if old.id == s.id
    then record old { status = s.status; wrap_params = s.wrap_params; wrapped_smk = s.wrapped_smk }
      ∷ rows
    else old ∷ rest

unfoldable pub put_slots : ℤ → String → List Slot → List Slot → List Slot
put_slots now id [] rows = rows
put_slots now id (s ∷ ss) rows =
    put_slots now id ss (put_slot now (record s { generation_id = id }) rows)

abbrev pub stored : ℤ → Generation → KeyStore → KeyStore
stored now m k = record k {
  generations = upsert_generation m k.generations;
  slots = put_slots now m.generation_id m.slots k.slots;
}

unfoldable pub put_generation : ℤ → Generation → KeyStore → Result KeyStore
put_generation now m k = elim (id_of_seq m.seq k.generations) [
  | none ↦ ok (stored now m k)
  | some existing ↦
      if existing == m.generation_id
      then ok (stored now m k)
      else err (failed "store key generation: seq already held")
]

unfoldable pub without_slots : String → List Slot → List Slot
without_slots id [] = []
without_slots id (s ∷ ss) =
    let rest = without_slots id ss in if s.generation_id == id then rest else s ∷ rest

unfoldable pub without_generation : String → List GenerationRow → List GenerationRow
without_generation id [] = []
without_generation id (r ∷ rows) =
    let rest = without_generation id rows in if r.id == id then rest else r ∷ rest

unfoldable pub delete_generation : String → KeyStore → KeyStore
delete_generation id k = record k {
  generations = without_generation id k.generations;
  slots = without_slots id k.slots;
}

-- A kind that is not there has the counter zero.
unfoldable pub trusted_counter : String → KeyStore → ℤ
trusted_counter kind k = elim (lookup kind k.trusted) [ none ↦ pos 0 | some t ↦ t.counter ]

abbrev pub old_checkpoint : Option Trusted → String → String
old_checkpoint none id = id
old_checkpoint (some t) id = if id == "" then t.checkpoint_id else id

-- An empty checkpoint keeps the one that the row has.
unfoldable pub set_trusted : String → String → ℤ → String → Bytes → KeyStore → KeyStore
set_trusted kind generation_id counter checkpoint_id payload k = record k {
  trusted =
      insert kind
        (record {
          generation_id = generation_id;
          counter = counter;
          checkpoint_id = old_checkpoint (lookup kind k.trusted) checkpoint_id;
          payload = payload;
        })
        k.trusted;
}

pub trusted_counter-set_trusted :
    (kind other g : String) (counter : ℤ) (checkpoint : String) (payload : Bytes) (k : KeyStore)
    → trusted_counter other (set_trusted kind g counter checkpoint payload k)
      ≡ (if kind == other then counter else trusted_counter other k)
unfolding trusted_counter set_trusted
trusted_counter-set_trusted kind other g counter checkpoint payload k =
    let row : Trusted = record {
      generation_id = g;
      counter = counter;
      checkpoint_id = old_checkpoint (lookup kind k.trusted) checkpoint;
      payload = payload;
    } in
    elim (Bool-cases (kind == other)) [
      | inl e ↦ rw (lookup-insert kind other row k.trusted, e, trusted_counter) refl
      | inr e ↦ rw (lookup-insert kind other row k.trusted, e, trusted_counter) refl
    ]
