-- ===== src/Device/Rows.antt =====
-- What the statements of internal/device/device.go leave in the rows of the table.
use remnix.Prelude.{
  String, [], ◌∷◌, Option, none, some, ◌==◌, if◌then◌else◌, arith, ◌≡◌, refl, ap, ◌∙◌, inl, inr,
  eq_iff, ◌⊎◌, ◌≢◌,
}
use remnix.Prelude.Int.{ℤ}
use remnix.Device.{
  Device, Table, status_active, status_retired, or_now, update_row, upsert_row, upsert, get,
}

-- The row that an upsert leaves: the new one, or the old one updated.
abbrev pub merged : Device → Option Device → Device
merged new none = new
merged new (some old) = update_row new old

update_row-id : (new old : Device) → (update_row new old).id ≡ old.id
unfolding update_row
update_row-id new old = refl

get-upsert_row :
    (new : Device) (rows : Table) (id : String)
    → get id (upsert_row new rows)
      ≡ (if new.id == id then some (merged new (get new.id rows)) else get id rows)
unfolding get upsert_row
get-upsert_row new [] id = ground arith
get-upsert_row new (old ∷ rows) id = ground (
  arith,
  eq_iff old.id new.id,
  eq_iff new.id id,
  eq_iff old.id id,
  ap (λ i. i == id) (update_row-id new old),
  get-upsert_row new rows id,
)

-- What an active row does to a retired one.
update_row-retired :
    (new old : Device)
    → new.status ≡ status_active
    → old.status ≡ status_retired
    → ((update_row new old).status ≡ status_retired)
      × ((update_row new old).retired_at ≡ old.retired_at)
      × ((update_row new old).name ≡ new.name)
unfolding update_row
update_row-retired new old active retired =
    (rw (retired, active) refl, rw (retired, active) refl, refl)

-- `Upsert` writes one row. A device that is retired stays so, with the time of its retirement, when it
-- is written as active or with no status; every other device keeps its row.
pub upsert-retired :
    (now : ℤ) (dev old : Device) (rows : Table) (id : String)
    → get dev.id rows ≡ some old
    → old.status ≡ status_retired
    → (dev.status ≡ status_active) ⊎ (dev.status ≡ "")
    → ((d : Device) × (get dev.id (upsert now dev rows) ≡ some d)
        × (d.status ≡ status_retired)
        × (d.retired_at ≡ old.retired_at)
        × (d.name ≡ dev.name))
      × (dev.id ≢ id → get id (upsert now dev rows) ≡ get id rows)
unfolding upsert
upsert-retired now dev old rows id e retired h =
    let new : Device = record dev {
      created_at = or_now dev.created_at now;
      status = if dev.status == "" then status_active else dev.status;
    } in
    let active : new.status ≡ status_active = elim h [ inl t ↦ rw t refl | inr t ↦ rw t refl ] in
    let (status, since, name) = update_row-retired new old active retired in
    (
      (
        update_row new old,
        get-upsert_row new rows dev.id ∙ rw ((eq_iff dev.id dev.id).1 refl, e) refl,
        status,
        since,
        name,
      ),
      λ other. get-upsert_row new rows id ∙ ground (arith, eq_iff dev.id id, other),
    )
