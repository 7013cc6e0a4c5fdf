-- ===== src/Examples/Devices.antt =====
-- Instances for the devices table.
use remnix.Prelude.{some, none, [], ◌∷◌, ◌≡◌, refl, inl, ◌≢◌}
use remnix.Prelude.Int.{pos}
use remnix.Device.{Device, Table, get, upsert, status_active, status_retired}
use remnix.Device.Rows.{upsert-retired}

abbrev laptop : Device
laptop = record {
  id = "d1";
  name = "laptop";
  hostname = "host";
  status = status_retired;
  created_at = some (pos 1);
  retired_at = some (pos 5);
}

abbrev desktop : Device
desktop = record {
  id = "d2";
  name = "desktop";
  hostname = "other";
  status = status_active;
  created_at = some (pos 2);
  retired_at = none;
}

abbrev rows : Table
rows = desktop ∷ laptop ∷ []

abbrev renamed : Device
renamed = record laptop { name = "old laptop"; status = status_active; retired_at = none }

upsert-retired_example :
    ((d : Device) × (get "d1" (upsert (pos 9) renamed rows) ≡ some d)
      × (d.status ≡ status_retired)
      × (d.retired_at ≡ some (pos 5))
      × (d.name ≡ "old laptop"))
    × (renamed.id ≢ "d2" → get "d2" (upsert (pos 9) renamed rows) ≡ get "d2" rows)
unfolding get
upsert-retired_example = upsert-retired (pos 9) renamed laptop rows "d2" refl refl (inl refl)
