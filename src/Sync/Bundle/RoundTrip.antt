-- ===== src/Sync/Bundle/RoundTrip.antt =====
-- What `Pack` of internal/sync/bundle/bundle.go writes, `Unpack` reads back.
use remnix.Prelude.{
  List, [], ◌∷◌, String, arith, ◌≡◌, refl, true, length, subst, ap, get_elem?, some, ◌-◌,
}
use remnix.Prelude.Int.{ℤ, pos, eqb_ℤ}
use remnix.Prelude.Result.{Result, ok, >>=-eq-ok}
use remnix.Sync.Transport.{Bytes}
use remnix.Sync.Event.{Event}
use remnix.Sync.Bundle.{Sealing, File, Header, header_of, last_event, pack, unpack, peek_header}

-- The CBOR library decodes what it encoded, and the cipher opens what it sealed under the same key,
-- nonce and additional data.
pub record FaithfulSealing (s : Sealing) : Type 0 where
  pub events :
      (evs : List Event) (b : Bytes) → s.marshal_events evs ≡ ok b → s.unmarshal_events b ≡ ok evs
  pub file : (f : File) (b : Bytes) → s.marshal_file f ≡ ok b → s.unmarshal_file b ≡ ok f
  pub opened :
      (key nonce plain ad cipher : Bytes)
      → s.seal key nonce plain ad ≡ ok cipher
      → s.unseal key nonce cipher ad ≡ ok plain

eqb_refl : (n : ℤ) → eqb_ℤ n n ≡ true
eqb_refl n = ground arith

module _ (s : Sealing) (device_id generation_id : String) (first : Event) (rest : List Event)
    (smk : Bytes) where
  -- The parts of a bundle and its header.
  record Packed (r : Bytes × Header) : Type 0 where
    payload : Bytes
    nonce : Bytes
    ad : Bytes
    cipher : Bytes
    marshalled : s.marshal_events (first ∷ rest) ≡ ok payload
    header : r.1 ≡ header_of device_id generation_id first rest nonce
    added : s.marshal_header r.1 ≡ ok ad
    sealed : s.seal smk nonce payload ad ≡ ok cipher
    written : s.marshal_file (record { header = r.1; ciphertext = cipher }) ≡ ok r.0

  pack-Packed :
      (random_nonce : Result Bytes) (r : Bytes × Header)
      → pack s device_id generation_id (first ∷ rest) smk random_nonce ≡ ok r
      → Packed r
  unfolding pack
  pack-Packed random_nonce r e =
      let (payload, e1, f1) = >>=-eq-ok (s.marshal_events (first ∷ rest)) _ e in
      let (n, e2, f2) = >>=-eq-ok random_nonce _ f1 in
      let h = header_of device_id generation_id first rest n in
      let (ad, e3, f3) = >>=-eq-ok (s.marshal_header h) _ f2 in
      let (ct, e4, f4) = >>=-eq-ok (s.seal smk n payload ad) _ f3 in
      let (raw, e5, f5) =
        >>=-eq-ok (s.marshal_file (record { header = h; ciphertext = ct })) _ f4 in
      let same : (raw, h) ≡ r = cc f5 in
      subst Packed same (record {
        payload = payload;
        nonce = n;
        ad = ad;
        cipher = ct;
        marshalled = e1;
        header = refl;
        added = e3;
        sealed = e4;
        written = e5;
      })

  unpack-Packed :
      (raw : Bytes) (h : Header)
      → FaithfulSealing s
      → Packed (raw, h)
      → (unpack s raw smk ≡ ok (h, first ∷ rest)) × (peek_header s raw ≡ ok h)
  unfolding unpack peek_header
  unpack-Packed raw h l p =
      let file = l.file (record { header = h; ciphertext = p.cipher }) raw p.written in
      let opened : s.unseal smk h.nonce p.cipher p.ad ≡ ok p.payload =
        rw (ap (λ h. h.nonce) p.header) (l.opened smk p.nonce p.payload p.ad p.cipher p.sealed) in
      let version : eqb_ℤ h.version (pos 1) ≡ true = ap (λ h. eqb_ℤ h.version (pos 1)) p.header in
      let count : eqb_ℤ (pos (length (first ∷ rest))) h.event_count ≡ true =
        rw (ap (λ h. h.event_count) p.header) (eqb_refl (pos (length (first ∷ rest)))) in
      let events = l.events (first ∷ rest) p.payload p.marshalled in
      (rw (file, version, p.added, opened, events, count) refl, rw file refl)

-- The last event of a list stands at its last index.
last_event-get_elem? :
    (first : Event) (rest : List Event)
    → get_elem? (first ∷ rest) (length rest) ≡ some (last_event first rest)
last_event-get_elem? first [] = refl
last_event-get_elem? first (ev ∷ evs) = last_event-get_elem? ev evs

-- The header says which device and generation the events are of, how many they are, and which
-- numbers the first and the last of them have.
pub record Describes (device_id generation_id : String) (evs : List Event) (h : Header)
    : Type 0 where
  pub device : h.device_id ≡ device_id
  pub generation : h.generation_id ≡ generation_id
  pub count : h.event_count ≡ pos (length evs)
  pub first : Event
  pub last : Event
  pub first_at : get_elem? evs 0 ≡ some first
  pub last_at : get_elem? evs (length evs - 1) ≡ some last
  pub start : h.seq_start ≡ first.seq
  pub end_ : h.seq_end ≡ last.seq

-- Where the libraries read back what they wrote, a bundle that `Pack` makes can be opened with the
-- same key: `Unpack` returns its header and its events, and `PeekHeader` the header without the key.
-- The header carries the device, the generation, the count of the events, and the numbers of the first
-- event and of the last one.
pub unpack-pack :
    (s : Sealing) (device_id generation_id : String) (evs : List Event) (smk : Bytes)
    (nonce : Result Bytes) (raw : Bytes) (h : Header)
    → FaithfulSealing s
    → pack s device_id generation_id evs smk nonce ≡ ok (raw, h)
    → (unpack s raw smk ≡ ok (h, evs))
      × (peek_header s raw ≡ ok h)
      × Describes device_id generation_id evs h
unfolding pack
unpack-pack s device_id generation_id [] smk nonce raw h l e = cc
unpack-pack s device_id generation_id (first ∷ rest) smk nonce raw h l e =
    let p = pack-Packed s device_id generation_id first rest smk nonce (raw, h) e in
    let (unpacked, peeked) = unpack-Packed s device_id generation_id first rest smk raw h l p in
    let at : length rest ≡ length (first ∷ rest) - 1 = omega arith in
    (
      unpacked,
      peeked,
      record {
        device = ap (λ h. h.device_id) p.header;
        generation = ap (λ h. h.generation_id) p.header;
        count = ap (λ h. h.event_count) p.header;
        first = first;
        last = last_event first rest;
        first_at = refl;
        last_at =
            subst (λ n. get_elem? (first ∷ rest) n ≡ some (last_event first rest)) at
              (last_event-get_elem? first rest);
        start = ap (λ h. h.seq_start) p.header;
        end_ = ap (λ h. h.seq_end) p.header;
      },
    )
