-- ===== src/Device.antt =====
-- internal/device/device.go: the `devices` table.
pub mod Rows
use remnix.Prelude.{
  String, Bool, true, false, ◌&&◌, List, [], ◌∷◌, Option, none, some, ◌==◌, if◌then◌else◌,
}
use remnix.Prelude.Int.{ℤ}
use remnix.Prelude.Result.{Result, ok, err, failed}

abbrev pub status_active : String
status_active = "active"

abbrev pub status_retired : String
status_retired = "retired"

pub record Device : Type 0 where
  pub id : String
  pub name : String
  pub hostname : String
  pub status : String
  pub created_at : Option ℤ
  pub retired_at : Option ℤ

abbrev pub Table : Type 0
Table = List Device

-- The new row's name and host always win. A retired device stays retired, with its time, when it is
-- written as active.
unfoldable pub update_row : Device → Device → Device
update_row new old =
    let stays = old.status == status_retired && new.status == status_active in
    record old {
      name = new.name;
      hostname = new.hostname;
      status = if stays then old.status else new.status;
      retired_at = if stays then old.retired_at else new.retired_at;
    }

-- `INSERT … ON CONFLICT(id) DO UPDATE`
unfoldable pub upsert_row : Device → Table → Table
unfolding update_row
upsert_row new [] = new ∷ []
upsert_row new (old ∷ rows) =
    if old.id == new.id then update_row new old ∷ rows else old ∷ upsert_row new rows

abbrev pub or_now : Option ℤ → ℤ → Option ℤ
or_now none now = some now
or_now (some t) now = some t

unfoldable pub upsert : ℤ → Device → Table → Table
unfolding upsert_row
upsert now dev rows =
    upsert_row
      (record dev {
        created_at = or_now dev.created_at now;
        status = if dev.status == "" then status_active else dev.status;
      })
      rows

unfoldable pub get : String → Table → Option Device
get id [] = none
get id (d ∷ rows) = if d.id == id then some d else get id rows

set_retired : String → ℤ → Table → Table
set_retired id at [] = []
set_retired id at (d ∷ rows) =
    (if d.id == id then record d { status = status_retired; retired_at = some at } else d)
    ∷ set_retired id at rows

has_row : Option Device → Bool
has_row none = false
has_row (some d) = true

-- The update has changed no row exactly when the device is not there.
unfoldable pub retire : String → ℤ → Table → Result Table
unfolding set_retired has_row
retire id at rows =
    if has_row (get id rows) then ok (set_retired id at rows) else err (failed "device not found")

unfoldable pub delete_if_exists : String → Table → Table
delete_if_exists id [] = []
delete_if_exists id (d ∷ rows) =
    let rest = delete_if_exists id rows in if d.id == id then rest else d ∷ rest

unfoldable pub delete : String → Table → Result Table
unfolding delete_if_exists has_row
delete id rows =
    if has_row (get id rows) then ok (delete_if_exists id rows) else err (failed "device not found")

unfoldable pub active_ids : Table → List String
active_ids [] = []
active_ids (d ∷ rows) =
    let rest = active_ids rows in if d.status == status_active then d.id ∷ rest else rest
