-- ===== src/Examples/RoundTrips.antt =====
-- Instances of the round trips of bundles and snapshots, with libraries that know one value each.
use remnix.Sync.Bundle.RoundTrip.{FaithfulSealing, Describes, unpack-pack}
use remnix.Sync.Snapshot.RoundTrip.{entries-encode_snapshot, IsTimed}
use remnix.History.Entry.{Entry}
use remnix.Sync.Snapshot.File.{decode_file-encode_file, encode_file, decode_file}
use remnix.Prelude.Text.{has_prefix}
use remnix.Sync.Snapshot.Payload.{
  FaithfulCodecs, unpack_snapshot-pack_snapshot, unpack_snapshot, pack_snapshot, Codecs,
}
use remnix.Sync.Bundle.{File as BundleFile, peek_header, unpack, pack, Sealing, Header}
use remnix.Sync.Event.{Event}
use remnix.Sync.Snapshot.{encode_snapshot, entries, Snapshot}
use remnix.Prelude.{
  arith, false, inr, none, [], some, inl, Bool-cases, ◌∷◌, List, String, All, ◌==◌, if◌then◌else◌,
  ◌≡◌, refl, eq_iff,
}
use remnix.Prelude.Int.{pos, ℤ}
use remnix.Prelude.Result.{Result, ok, err, failed}
use remnix.Sync.Transport.{Bytes}
use native.Mathlib.Decide.{ℕ_discrete}

module _ {A : Type 0} (d : Discrete A) (known : A) (name : Bytes) where
  -- A library that writes `known` as `name`, and refuses everything else.
  write : A → Result Bytes
  write x = elim (d x known) [ yes e ↦ ok name | no n ↦ err (failed "write") ]

  read : Bytes → Result A
  read b = if b == name then ok known else err (failed "read")

  write_name : (x : A) (b : Bytes) → write x ≡ ok b → b ≡ name
  unfolding write
  write_name x b h = step (d x known) h
    where
      step :
          (t : Dec (x ≡ known))
          → (elim t [ yes e ↦ ok name | no n ↦ err (failed "write") ]) ≡ ok b
          → b ≡ name
      step (yes e) h = cc h
      step (no n) h = cc h

  write_known : write known ≡ ok name
  unfolding write
  write_known = step (d known known)
    where
      step :
          (t : Dec (known ≡ known))
          → (elim t [ yes e ↦ ok name | no n ↦ err (failed "write") ]) ≡ ok name
      step (yes e) = refl
      step (no n) = absurd (n refl)

  read-write : (x : A) (b : Bytes) → write x ≡ ok b → read b ≡ ok x
  unfolding write read
  read-write x b h = step (d x known) h
    where
      step :
          (t : Dec (x ≡ known))
          → (elim t [ yes e ↦ ok name | no n ↦ err (failed "write") ]) ≡ ok b
          → (if b == name then ok known else err (failed "read")) ≡ ok x
      step (yes e) h = let same : name ≡ b = cc h in rw (e, ← same, (eq_iff name name).1 refl) refl
      step (no n) h = cc h

ℤ-discrete : Discrete ℤ
ℤ-discrete = hlevel ℕ_discrete

String-discrete : Discrete String
String-discrete s t = elim (Bool-cases (s == t)) [
  | inl e ↦ yes ((eq_iff s t).0 e)
  | inr e ↦ no (λ same. ground (arith, eq_iff s t))
]

ruleset discrete_laws = (ℕ_discrete, String-discrete, ℤ-discrete)

events-discrete : Discrete (List Event)
events-discrete = hlevel discrete_laws

file-discrete : Discrete BundleFile
file-discrete = hlevel discrete_laws

snapshot-discrete : Discrete Snapshot
snapshot-discrete = hlevel discrete_laws

abbrev event : Event
event = record {
  version = pos 1;
  type = "history-created";
  device_id = "d1";
  seq = pos 4;
  time_unix = pos 100;
  payload = "p";
}

abbrev two_events : List Event
two_events = event ∷ record event { seq = pos 5 } ∷ []

abbrev header : Header
header = record {
  version = pos 1;
  device_id = "d1";
  seq_start = pos 4;
  seq_end = pos 5;
  event_count = pos 2;
  generation_id = "g";
  nonce = "n";
}

abbrev file : BundleFile
file = record { header = header; ciphertext = "events" }

-- The cipher that leaves texts as they are.
abbrev sealing : Sealing
sealing = record {
  marshal_events = write events-discrete two_events "events";
  unmarshal_events = read events-discrete two_events "events";
  marshal_header = λ h. ok h.device_id;
  marshal_file = write file-discrete file "file";
  unmarshal_file = read file-discrete file "file";
  seal = λ key nonce plain ad. ok plain;
  unseal = λ key nonce cipher ad. ok cipher;
}

sealing-FaithfulSealing : FaithfulSealing sealing
sealing-FaithfulSealing = record {
  events = read-write events-discrete two_events "events";
  file = read-write file-discrete file "file";
  opened = λ key nonce plain ad cipher e. cc e;
}

packed : pack sealing "d1" "g" two_events "key" (ok "n") ≡ ok ("file", header)
unfolding pack
packed =
    rw (write_known events-discrete two_events "events", write_known file-discrete file "file") refl

unpack-pack_example :
    (unpack sealing "file" "key" ≡ ok (header, two_events))
    × (peek_header sealing "file" ≡ ok header)
    × Describes "d1" "g" two_events header
unpack-pack_example =
    unpack-pack sealing "d1" "g" two_events "key" (ok "n") "file" header sealing-FaithfulSealing
      packed

abbrev entry : String → String → Entry
entry id host = record {
  id = id;
  command = "ls";
  start_ts = pos 100;
  end_ts = some (pos 150);
  duration_ms = some (pos 50);
  exit_status = none;
  cwd = "/tmp";
  session_id = "s";
  hostname = host;
  device_id = "d1";
  shell = "zsh";
  deleted = false;
  origin_device_id = "d1";
  origin_seq = some (pos 4);
  created_at = some (pos 160);
}

abbrev two_entries : List Entry
two_entries = entry "h1" "host" ∷ entry "h2" "other" ∷ []

two_entries-IsTimed : All IsTimed two_entries
two_entries-IsTimed = (λ e. cc e, (λ e. cc e, tt))

entries-encode_snapshot_example : entries (encode_snapshot two_entries) ≡ ok two_entries
entries-encode_snapshot_example = entries-encode_snapshot two_entries two_entries-IsTimed

abbrev snapshot : Snapshot
snapshot = encode_snapshot two_entries

abbrev codecs : Codecs
codecs = record {
  marshal = write snapshot-discrete snapshot "snapshot";
  unmarshal = read snapshot-discrete snapshot "snapshot";
  unmarshal_v1 = λ b. err (failed "cbor");
  json_list = λ b. err (failed "json");
  json_wrapped = λ b. err (failed "json");
  json_snapshot = λ b. err (failed "json");
  gzip = λ b. ok b;
  gunzip = λ b. ok b;
  seal = λ key nonce plain. ok plain;
  unseal = λ key nonce cipher. ok cipher;
}

codecs-FaithfulCodecs : FaithfulCodecs codecs
unfolding has_prefix
codecs-FaithfulCodecs = record {
  decoded = read-write snapshot-discrete snapshot "snapshot";
  no_json = λ s b e. rw (write_name snapshot-discrete snapshot "snapshot" s b e) refl;
  unzips = λ b z e. cc e;
  opened = λ key nonce plain cipher e. cc e;
}

sealed : pack_snapshot codecs two_entries "key" (ok "n") ≡ ok ("n", "snapshot")
unfolding pack_snapshot
sealed = rw (write_known snapshot-discrete snapshot "snapshot") refl

unpack_snapshot-pack_snapshot_example : unpack_snapshot codecs "key" "n" "snapshot" ≡ ok two_entries
unpack_snapshot-pack_snapshot_example =
    unpack_snapshot-pack_snapshot codecs two_entries "key" (ok "n") "n" "snapshot"
      codecs-FaithfulCodecs two_entries-IsTimed sealed

decode_file-encode_file_example :
    decode_file (λ b. err (failed "json")) (encode_file (7 ∷ 8 ∷ []) (1 ∷ 2 ∷ 3 ∷ []))
    ≡ ok (7 ∷ 8 ∷ [], 1 ∷ 2 ∷ 3 ∷ [])
decode_file-encode_file_example =
    decode_file-encode_file (λ b. err (failed "json")) (7 ∷ 8 ∷ []) (1 ∷ 2 ∷ 3 ∷ []) (omega arith)
      (omega arith)
