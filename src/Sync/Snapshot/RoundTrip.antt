-- ===== src/Sync/Snapshot/RoundTrip.antt =====
-- A snapshot of internal/sync/checkpoint/snapshot.go gives back the entries that it was made of.
use remnix.Prelude.{
  String, ℕ, List, [], ◌∷◌, ◌++◌, Option, none, some, ◌==◌, arith, ◌≡◌, refl, ap, Bool-cases,
  Option-cases, inl, inr, eq_iff, ◌≢◌, All, length, get_elem?, get_elem?-append, get_elem?-last,
}
use remnix.Prelude.Int.{ℤ, pos, eqb_ℤ, eqb_ℤ_iff}
use remnix.Prelude.Dict.{lookup, insert, lookup-insert}
use remnix.Prelude.Result.{ok}
use remnix.History.Entry.{Entry}
use remnix.Sync.Snapshot.{
  Snapshot, Intern, Tables, new_intern, new_tables, add, zero_time, created_ms_of, time_of,
  encode_row, encode_rows, encode_snapshot, at, decode_row, decode_rows, entries,
}

-- The place that the index gives a text is its place in the list.
abbrev IsSound : Intern → Type 0
IsSound t = (s : String) (i : ℕ) → lookup s t.index ≡ some i → get_elem? t.list i ≡ some s

-- What stands in the first list stands at the same place in the second.
abbrev Grows : List String → List String → Type 0
Grows a b = (i : ℕ) (s : String) → get_elem? a i ≡ some s → get_elem? b i ≡ some s

-- `add` keeps a table sound, and the text stands at the place that it returns.
record Added (s : String) (t : Intern) (r : ℕ × Intern) : Type 0 where
  sound : IsSound r.1
  found : get_elem? r.1.list r.0 ≡ some s
  grows : Grows t.list r.1.list

insert-IsSound :
    (s : String) (t : Intern)
    → IsSound t
    → IsSound (record { index = insert s (length t.list) t.index; list = t.list ++ s ∷ [] })
insert-IsSound s t h r i f = elim (Bool-cases (s == r)) [
  | inl e ↦
      let same : s ≡ r = (eq_iff s r).0 e in
      let place : length t.list ≡ i = ground (arith, lookup-insert s r (length t.list) t.index) in
      rw (← same, ← place) (get_elem?-last t.list s)
  | inr e ↦
      let old : lookup r t.index ≡ some i =
        ground (arith, lookup-insert s r (length t.list) t.index) in
      get_elem?-append t.list s i r (h r i old)
]

add-Added : (s : String) (t : Intern) → IsSound t → Added s t (add s t)
unfolding add
add-Added s t h = elim (Option-cases (lookup s t.index)) [
  | inl e ↦
      rw (e, add)
        (record {
          sound = insert-IsSound s t h;
          found = get_elem?-last t.list s;
          grows = get_elem?-append t.list s;
        })
  | inr (i, e) ↦ rw (e, add) (record { sound = h; found = h s i e; grows = λ j r f. f })
]

new_intern-IsSound : IsSound new_intern
unfolding new_intern lookup
new_intern-IsSound s i f = elim (Bool-cases ("" == s)) [
  | inl e ↦
      let same : "" ≡ s = (eq_iff "" s).0 e in
      let place : 0 ≡ i = ground arith in rw (← same, ← place) refl
  | inr e ↦ ground arith
]

record AllSound (t : Tables) : Type 0 where
  sessions : IsSound t.sessions
  hosts : IsSound t.hosts
  devices : IsSound t.devices
  shells : IsSound t.shells

-- What the tables hold, the snapshot holds at the same places.
record Within (t : Tables) (s : Snapshot) : Type 0 where
  sessions : Grows t.sessions.list s.sessions
  hosts : Grows t.hosts.list s.hosts
  devices : Grows t.devices.list s.devices
  shells : Grows t.shells.list s.shells

encode_row-AllSound : (e : Entry) (t : Tables) → AllSound t → AllSound (encode_row e t).1
unfolding encode_row
encode_row-AllSound e t h = record {
  sessions = (add-Added e.session_id t.sessions h.sessions).sound;
  hosts = (add-Added e.hostname t.hosts h.hosts).sound;
  devices =
      (add-Added e.origin_device_id (add e.device_id t.devices).1
        (add-Added e.device_id t.devices h.devices).sound).sound;
  shells = (add-Added e.shell t.shells h.shells).sound;
}

encode_row-Within :
    (e : Entry) (t : Tables) (s : Snapshot) → AllSound t → Within (encode_row e t).1 s → Within t s
unfolding encode_row
encode_row-Within e t s h w =
    let dev = add-Added e.device_id t.devices h.devices in
    let origin = add-Added e.origin_device_id (add e.device_id t.devices).1 dev.sound in
    record {
      sessions =
          λ i x f. w.sessions i x ((add-Added e.session_id t.sessions h.sessions).grows i x f);
      hosts = λ i x f. w.hosts i x ((add-Added e.hostname t.hosts h.hosts).grows i x f);
      devices = λ i x f. w.devices i x (origin.grows i x (dev.grows i x f));
      shells = λ i x f. w.shells i x ((add-Added e.shell t.shells h.shells).grows i x f);
    }

at_found :
    (list : List String) (i : ℕ) (x : String) → get_elem? list i ≡ some x → at list (pos i) ≡ ok x
unfolding at
at_found list i x f = rw f refl

-- The time of creation is not one that stands for the zero time.
abbrev pub IsTimed : Entry → Type 0
IsTimed e = e.created_at ≢ some zero_time

time_of-created : (t : Option ℤ) → t ≢ some zero_time → time_of (created_ms_of t) ≡ t
time_of-created none h = refl
time_of-created (some t) h = elim (Bool-cases (eqb_ℤ t zero_time)) [
  | inl e ↦ absurd (h (ap some ((eqb_ℤ_iff t zero_time).0 e)))
  | inr e ↦ rw e refl
]

decode_row-encode :
    (e : Entry) (t : Tables) (s : Snapshot)
    → AllSound t
    → IsTimed e
    → Within (encode_row e t).1 s
    → decode_row s (encode_row e t).0 ≡ ok e
unfolding decode_row encode_row
decode_row-encode e t s h timed w =
    let session = add-Added e.session_id t.sessions h.sessions in
    let host = add-Added e.hostname t.hosts h.hosts in
    let dev = add-Added e.device_id t.devices h.devices in
    let origin = add-Added e.origin_device_id (add e.device_id t.devices).1 dev.sound in
    let shell = add-Added e.shell t.shells h.shells in
    rw
      (
        at_found s.sessions (add e.session_id t.sessions).0 e.session_id
            (w.sessions _ _ session.found),
        at_found s.hosts (add e.hostname t.hosts).0 e.hostname (w.hosts _ _ host.found),
        at_found s.devices (add e.device_id t.devices).0 e.device_id
            (w.devices _ _ (origin.grows _ _ dev.found)),
        at_found s.devices (add e.origin_device_id (add e.device_id t.devices).1).0
            e.origin_device_id (w.devices _ _ origin.found),
        at_found s.shells (add e.shell t.shells).0 e.shell (w.shells _ _ shell.found),
        time_of-created e.created_at timed,
      )
      refl

encode_rows-Within :
    (es : List Entry) (t : Tables) (s : Snapshot)
    → AllSound t
    → Within (encode_rows es t).1 s
    → Within t s
unfolding encode_rows
encode_rows-Within [] t s h w = w
encode_rows-Within (e ∷ es) t s h w =
    encode_row-Within e t s h
      (encode_rows-Within es (encode_row e t).1 s (encode_row-AllSound e t h) w)

decode_rows-encode :
    (es : List Entry) (t : Tables) (s : Snapshot)
    → AllSound t
    → All IsTimed es
    → Within (encode_rows es t).1 s
    → decode_rows s (encode_rows es t).0 ≡ ok es
unfolding decode_rows encode_rows
decode_rows-encode [] t s h timed w = refl
decode_rows-encode (e ∷ es) t s h timed w =
    let sound = encode_row-AllSound e t h in
    rw
      (
        decode_row-encode e t s h timed.0 (encode_rows-Within es (encode_row e t).1 s sound w),
        decode_rows-encode es (encode_row e t).1 s sound timed.1 w,
      )
      refl

-- Decoding the snapshot of a list of entries gives the entries back, in their order and with every
-- field, where none of them was created at the zero time written out.
pub entries-encode_snapshot :
    (es : List Entry) → All IsTimed es → entries (encode_snapshot es) ≡ ok es
unfolding entries encode_snapshot
entries-encode_snapshot es timed =
    decode_rows-encode es new_tables (encode_snapshot es)
      (record {
        sessions = new_intern-IsSound;
        hosts = new_intern-IsSound;
        devices = new_intern-IsSound;
        shells = new_intern-IsSound;
      })
      timed
      (record {
        sessions = λ i x f. f;
        hosts = λ i x f. f;
        devices = λ i x f. f;
        shells = λ i x f. f;
      })
