-- ===== src/Sync/Ack.antt =====
-- internal/sync/ack/ack.go: what a device has seen, as it tells the others.
use remnix.Prelude.{String, ℕ}
use remnix.Prelude.Int.{ℤ}
use remnix.Sync.Frontier.{Frontier, clone}

pub record File : Type 0 where
  pub version : ℕ
  pub device_id : String
  pub frontier : Frontier
  pub checkpoint_id : String
  pub updated_at : ℤ

abbrev pub current_version : ℕ
current_version = 1

-- `New`, at the time `now` in milliseconds.
unfoldable pub new : String → Frontier → String → ℤ → File
new device_id f checkpoint_id now = record {
  version = current_version;
  device_id = device_id;
  frontier = clone f;
  checkpoint_id = checkpoint_id;
  updated_at = now;
}
