-- ===== src/Sync/Snapshot/Payload.antt =====
-- The sealed form of a snapshot in internal/sync/checkpoint/snapshot.go.
use remnix.Prelude.{
  Bool, true, false, not, ◌||◌, List, [], ◌∷◌, if◌then◌else◌, ◌≡◌, refl, ap, ◌∙◌, subst, All,
}
use remnix.Prelude.Int.{ℤ, pos, eqb_ℤ}
use remnix.Prelude.Text.{has_prefix}
use remnix.Prelude.Result.{Result, ok, err, failed, ◌>>=◌, >>=-eq-ok}
use remnix.Sync.Transport.{Bytes}
use remnix.History.Entry.{Entry}
use remnix.Sync.Snapshot.RoundTrip.{IsTimed, entries-encode_snapshot}
use remnix.Sync.Snapshot.{Snapshot, entries, encode_snapshot, snapshot_version}

-- The two older layouts that are still read.
pub record SnapshotV1 : Type 0 where
  pub version : ℤ
  pub entries : List Entry

pub record Wrapped : Type 0 where
  pub entries : List Entry
  pub rows : List Entry

-- gzip, CBOR, JSON and the cipher with the additional data of checkpoints.
pub record Codecs : Type 0 where
  pub marshal : Snapshot → Result Bytes
  pub unmarshal : Bytes → Result Snapshot
  pub unmarshal_v1 : Bytes → Result SnapshotV1
  pub json_list : Bytes → Result (List Entry)
  pub json_wrapped : Bytes → Result Wrapped
  pub json_snapshot : Bytes → Result Snapshot
  pub gzip : Bytes → Result Bytes
  pub gunzip : Bytes → Result Bytes
  pub seal : Bytes → Bytes → Bytes → Result Bytes
  pub unseal : Bytes → Bytes → Bytes → Result Bytes

is_nil {ℓ} : {A : Type ℓ} → List A → Bool
is_nil [] = true
is_nil (x ∷ xs) = false

module _ (c : Codecs) where
  open c use {
    marshal, unmarshal, unmarshal_v1, json_list, json_wrapped, json_snapshot, gzip, gunzip, seal,
    unseal,
  }

  -- The end of `decodeCBORSnapshot`, where the current layout does not serve.
  unfoldable pub decode_v1 : Bytes → Result Snapshot → Result (List Entry)
  unfolding is_nil
  decode_v1 body current =
      let refuse : Result (List Entry) = elim current [
        | err e ↦ err e
        | ok s ↦ err (failed "unsupported snapshot version")
      ] in
      elim (unmarshal_v1 body) [
        | err e ↦ refuse
        | ok v1 ↦
            if eqb_ℤ v1.version (pos 1) || not (is_nil v1.entries) then ok v1.entries else refuse
      ]

  unfoldable pub decode_cbor_snapshot : Bytes → Result (List Entry)
  unfolding decode_v1
  decode_cbor_snapshot body = elim (unmarshal body) [
    | err e ↦ decode_v1 body (err e)
    | ok s ↦ if eqb_ℤ s.version snapshot_version then entries s else decode_v1 body (ok s)
  ]

  unfoldable pub decode_json_snapshot : Bytes → Result (List Entry)
  unfolding is_nil
  decode_json_snapshot body = if has_prefix body "[" then json_list body else (do
    wrap ← json_wrapped body
    if not (is_nil wrap.entries)
        then ok wrap.entries
        else if not (is_nil wrap.rows)
        then ok wrap.rows
        else (do
          s ← json_snapshot body
          if eqb_ℤ s.version snapshot_version || not (is_nil s.rows)
              then entries s
              else err (failed "json snapshot empty")))

  abbrev unzipped : Bytes → Bytes
  unzipped pt = elim (gunzip pt) [ ok body ↦ body | err e ↦ pt ]

  -- The rest of `decodeSnapshotPayload`, once the body is unzipped.
  unfoldable pub decode_body : Bytes → Result (List Entry)
  unfolding decode_cbor_snapshot decode_json_snapshot
  decode_body body =
      if has_prefix body "{" || has_prefix body "["
      then decode_json_snapshot body
      else decode_cbor_snapshot body

  unfoldable pub decode_snapshot_payload : Bytes → Result (List Entry)
  unfolding decode_body
  decode_snapshot_payload pt = decode_body (unzipped pt)

  -- `PackSnapshot`, with the nonce that `RandomNonce` draws or its error.
  unfoldable pub pack_snapshot : List Entry → Bytes → Result Bytes → Result (Bytes × Bytes)
  pack_snapshot es smk random_nonce = do
    raw ← marshal (encode_snapshot es)
    gz ← gzip raw
    nonce ← random_nonce
    ct ← seal smk nonce gz
    ok (nonce, ct)

  unfoldable pub unpack_snapshot : Bytes → Bytes → Bytes → Result (List Entry)
  unfolding decode_snapshot_payload
  unpack_snapshot smk nonce ct = do pt ← unseal smk nonce ct; decode_snapshot_payload pt

-- What the libraries promise: they read what they wrote, and the CBOR of a snapshot, which is a map,
-- begins with neither bracket of JSON.
pub record FaithfulCodecs (c : Codecs) : Type 0 where
  pub decoded : (s : Snapshot) (b : Bytes) → c.marshal s ≡ ok b → c.unmarshal b ≡ ok s
  pub no_json :
      (s : Snapshot) (b : Bytes)
      → c.marshal s ≡ ok b
      → (has_prefix b "{" || has_prefix b "[") ≡ false
  pub unzips : (b z : Bytes) → c.gzip b ≡ ok z → c.gunzip z ≡ ok b
  pub opened :
      (key nonce plain cipher : Bytes)
      → c.seal key nonce plain ≡ ok cipher
      → c.unseal key nonce cipher ≡ ok plain

decode_cbor-current :
    (c : Codecs) (s : Snapshot) (b : Bytes)
    → c.unmarshal b ≡ ok s
    → eqb_ℤ s.version snapshot_version ≡ true
    → decode_cbor_snapshot c b ≡ entries s
unfolding decode_cbor_snapshot
decode_cbor-current c s b decoded current = rw (decoded, decode_cbor_snapshot) (rw current refl)

decode_zipped :
    (c : Codecs) (s : Snapshot) (b z : Bytes)
    → c.gunzip z ≡ ok b
    → (has_prefix b "{" || has_prefix b "[") ≡ false
    → c.unmarshal b ≡ ok s
    → eqb_ℤ s.version snapshot_version ≡ true
    → decode_snapshot_payload c z ≡ entries s
unfolding decode_snapshot_payload
decode_zipped c s b z e no_json decoded current =
    let body : unzipped c z ≡ b = rw (e, unzipped) refl in
    ap (decode_body c) body ∙ rw (no_json, decode_body) (decode_cbor-current c s b decoded current)

-- `UnpackSnapshot` gives back the entries that `PackSnapshot` sealed under the same key, where none of
-- them was created at the zero time written out.
pub unpack_snapshot-pack_snapshot :
    (c : Codecs) (es : List Entry) (smk : Bytes) (random_nonce : Result Bytes) (nonce ct : Bytes)
    → FaithfulCodecs c
    → All IsTimed es
    → pack_snapshot c es smk random_nonce ≡ ok (nonce, ct)
    → unpack_snapshot c smk nonce ct ≡ ok es
unfolding pack_snapshot unpack_snapshot
unpack_snapshot-pack_snapshot c es smk random_nonce nonce ct l timed h =
    let (raw, e1, f1) = >>=-eq-ok (c.marshal (encode_snapshot es)) _ h in
    let (gz, e2, f2) = >>=-eq-ok (c.gzip raw) _ f1 in
    let (n, e3, f3) = >>=-eq-ok random_nonce _ f2 in
    let (ct', e4, f4) = >>=-eq-ok (c.seal smk n gz) _ f3 in
    let same : ◌≡◌ {A = Bytes × Bytes} (n, ct') (nonce, ct) = cc f4 in
    let sealed : c.seal smk nonce gz ≡ ok ct = subst (λ r. c.seal smk r.0 gz ≡ ok r.1) same e4 in
    rw (l.opened smk nonce gz ct sealed) (
      decode_zipped c (encode_snapshot es) raw gz (l.unzips raw gz e2)
        (l.no_json (encode_snapshot es) raw e1) (l.decoded (encode_snapshot es) raw e1)
        (unfold encode_snapshot in refl)
      ∙ entries-encode_snapshot es timed)
