-- ===== src/Sync/Checkpoint.antt =====
-- internal/sync/checkpoint/checkpoint.go: the manifest of a checkpoint.
use remnix.Prelude.{String, if◌then◌else◌}
use remnix.Prelude.Int.{ℤ, pos, eqb_ℤ}
use remnix.Prelude.Result.{Result, ok, err, failed, ◌>>=◌}
use remnix.Sync.Frontier.{Frontier, clone}
use remnix.Sync.Transport.{Bytes}

pub record Manifest : Type 0 where
  pub version : ℤ
  pub id : String
  pub generation_id : String
  pub frontier : Frontier
  pub created_at : ℤ

abbrev pub current_version : ℤ
current_version = pos 1

-- `NewManifest`, at the time `now` in milliseconds.
unfoldable pub new_manifest : String → String → Frontier → ℤ → Manifest
new_manifest id generation_id f now = record {
  version = current_version;
  id = id;
  generation_id = generation_id;
  frontier = clone f;
  created_at = now;
}

-- `DecodeManifest`; `unmarshal` is `json.Unmarshal` into a `Manifest`.
unfoldable pub decode_manifest : (Bytes → Result Manifest) → Bytes → Result Manifest
decode_manifest unmarshal b = do
  m ← unmarshal b
  if eqb_ℤ m.version current_version then ok m else err (failed "unsupported checkpoint version")
