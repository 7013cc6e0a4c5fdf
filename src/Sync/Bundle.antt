-- ===== src/Sync/Bundle.antt =====
-- internal/sync/bundle/bundle.go: a run of events, sealed under the key of a generation.
pub mod RoundTrip
use remnix.Prelude.{String, List, [], ◌∷◌, Bool, ◌&&◌, ◌==◌, length, if◌then◌else◌}
use remnix.Prelude.Int.{ℤ, pos, eqb_ℤ}
use remnix.Prelude.Result.{Result, ok, err, failed, ◌>>=◌}
use remnix.Sync.Transport.{Bytes}
use remnix.Sync.Event.{Event}

pub record Header : Type 0 where
  pub version : ℤ
  pub device_id : String
  pub seq_start : ℤ
  pub seq_end : ℤ
  pub event_count : ℤ
  pub generation_id : String
  pub nonce : Bytes

pub record File : Type 0 where
  pub header : Header
  pub ciphertext : Bytes

abbrev pub current_version : ℤ
current_version = pos 1

-- internal/cborx for these types, and internal/crypto/envelope: an authenticated cipher whose key,
-- nonce and additional data come first.
pub record Sealing : Type 0 where
  pub marshal_events : List Event → Result Bytes
  pub unmarshal_events : Bytes → Result (List Event)
  pub marshal_header : Header → Result Bytes
  pub marshal_file : File → Result Bytes
  pub unmarshal_file : Bytes → Result File
  pub seal : Bytes → Bytes → Bytes → Bytes → Result Bytes
  pub unseal : Bytes → Bytes → Bytes → Bytes → Result Bytes

-- `events[len(events)-1]` of `first ∷ rest`
abbrev pub last_event : Event → List Event → Event
last_event first [] = first
last_event first (ev ∷ evs) = last_event ev evs

-- The header that `Pack` writes.
abbrev pub header_of : String → String → Event → List Event → Bytes → Header
header_of device_id generation_id first rest nonce = record {
  version = current_version;
  device_id = device_id;
  seq_start = first.seq;
  seq_end = (last_event first rest).seq;
  event_count = pos (length (first ∷ rest));
  generation_id = generation_id;
  nonce = nonce;
}

abbrev pub equal_header : Header → Header → Bool
equal_header a b =
    a.device_id == b.device_id
    && eqb_ℤ a.seq_start b.seq_start
    && eqb_ℤ a.seq_end b.seq_end
    && a.nonce == b.nonce

module _ (s : Sealing) where
  open s use {
    marshal_events, unmarshal_events, marshal_header, marshal_file, unmarshal_file, seal, unseal,
  }

  -- `Pack`, with the nonce that `RandomNonce` draws or its error.
  unfoldable pub pack :
      String → String → List Event → Bytes → Result Bytes → Result (Bytes × Header)
  pack device_id generation_id [] smk random_nonce = err (failed "empty bundle")
  pack device_id generation_id (first ∷ rest) smk random_nonce = do
    payload ← marshal_events (first ∷ rest)
    nonce ← random_nonce
    let h = header_of device_id generation_id first rest nonce
    ad ← marshal_header h
    ct ← seal smk nonce payload ad
    raw ← marshal_file (record { header = h; ciphertext = ct })
    ok (raw, h)

  unfoldable pub peek_header : Bytes → Result Header
  peek_header raw = do f ← unmarshal_file raw; ok f.header

  unfoldable pub unpack : Bytes → Bytes → Result (Header × List Event)
  unpack raw smk = do
    f ← unmarshal_file raw
    if eqb_ℤ f.header.version current_version
        then (do
          ad ← marshal_header f.header
          pt ← unseal smk f.header.nonce f.ciphertext ad
          events ← unmarshal_events pt
          if eqb_ℤ (pos (length events)) f.header.event_count
              then ok (f.header, events)
              else err (failed "event count mismatch"))
        else err (failed "unsupported bundle version")
