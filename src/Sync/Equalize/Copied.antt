-- ===== src/Sync/Equalize/Copied.antt =====
-- What copying one object does to an endpoint, for internal/sync/equalize/equalize.go.
use remnix.Prelude.{
  ap, some, String, true, false, List, [], Option, ◌==◌, ◌≡◌, ◌⊎◌, inl, inr, refl, eq_iff,
  Bool-cases, sym, subst, ◌≢◌,
}
use remnix.Prelude.Int.{ℤ, pos, leb_ℤ}
use remnix.Prelude.Result.{Result-cases}
use remnix.Sync.Transport.{Bytes, Transport}
use remnix.Sync.Transport.Laws.{Lawful, is_clean, object_of}
use remnix.Sync.Gc.Layout.{is_seen}
use remnix.Sync.Equalize.{
  contains, Site, Failure, manifest_key, manifest_counter, put, put_newer, copy_to,
}

-- A key that backends resolve as it is written and that is no temporary file.
abbrev pub IsPlain : String → Type 0
IsPlain k = (is_clean k ≡ true) × (contains k ".tmp-" ≡ false)

module _ (t : Transport) (read_counter : Bytes → Option ℤ) where
  -- What can be read at a key of the endpoint.
  abbrev pub object_at : Site t → String → Option Bytes
  object_at s k = object_of ((t.view s.remote).get k)

  -- The endpoint has the object, or it has a manifest with a counter that is no lower and keeps it.
  abbrev pub Placed : String → Bytes → Site t → Site t → Type 0
  Placed key raw s s' =
      (object_at s' key ≡ some raw)
      ⊎ (key ≡ manifest_key)
        × (old : Bytes) × (object_at s key ≡ some old)
        × (leb_ℤ (manifest_counter t read_counter raw) (manifest_counter t read_counter old) ≡ true)
        × (object_at s' key ≡ some old)

  -- Objects that the listing showed, and those of other keys, are what they were.
  abbrev pub Kept : List String → Site t → Site t → Type 0
  Kept keys s s' =
      (s'.id ≡ s.id)
      × (s'.have ≡ s.have)
      × ((k : String)
          → IsPlain k
          → (is_seen k s.have ≡ true) ⊎ (is_seen k keys ≡ false)
          → object_at s' k ≡ object_at s k)

  -- One endpoint after the copy of one object, with the failures.
  abbrev pub Copied : String → Bytes → Site t → List (Failure) × Site t → Type 0
  Copied key raw s r =
      (r.1.id ≡ s.id)
      × (r.1.have ≡ s.have)
      × ((k : String) → IsPlain k → k ≢ key → object_at r.1 k ≡ object_at s k)
      × (r.0 ≡ [] → Placed key raw s r.1)

  module _ (lawful : Lawful t) where
    put-Copied :
        (key : String) (raw : Bytes) (s : Site t)
        → is_clean key ≡ true
        → Copied key raw s (put t key raw s)
    unfolding put
    put-Copied key raw s clean =
        let other = λ (k : String) (p : IsPlain k) (n : k ≢ key).
          lawful.put_other s.remote key k raw clean p.0 p.1 (λ e. n (sym e)) in
        elim (Result-cases (t.put_atomic s.remote key raw).0) [
          | inl (u, e) ↦
              rw (e, put)
                (
                  refl,
                  refl,
                  other,
                  λ none_failed. inl (ap object_of (lawful.put_ok s.remote key raw e)),
                )
          | inr (f, e) ↦ rw (e, put) (refl, refl, other, λ none_failed. cc)
        ]

    put_newer-Copied :
        (raw : Bytes) (s : Site t)
        → is_clean manifest_key ≡ true
        → Copied manifest_key raw s (put_newer t read_counter raw s)
    unfolding put_newer
    put_newer-Copied raw s clean =
        let by_put = λ (same : put_newer t read_counter raw s ≡ put t manifest_key raw s).
          subst (Copied manifest_key raw s) (sym same) (put-Copied manifest_key raw s clean) in
        elim (Result-cases ((t.view s.remote).get manifest_key)) [
          | inr (f, e) ↦ by_put (rw (e, put_newer) refl)
          | inl (old, e) ↦
              elim (Bool-cases (
                leb_ℤ (manifest_counter t read_counter raw)
                  (manifest_counter t read_counter old))) [
                    | inl newer ↦
                        rw (e, put_newer, newer)
                          (
                            refl,
                            refl,
                            λ k p n. refl,
                            λ none_failed. inr (refl, old, refl, newer, ap object_of e),
                          )
                    | inr older ↦ by_put (rw (e, put_newer, older) refl)
                  ]
        ]

    pub copy_to-Copied :
        (key : String) (raw : Bytes) (s : Site t)
        → is_clean key ≡ true
        → is_seen key s.have ≡ false
        → Copied key raw s (copy_to t read_counter key raw s)
    unfolding copy_to
    copy_to-Copied key raw s clean h =
        let plain = put-Copied key raw s clean in
        elim (Bool-cases (key == manifest_key)) [
          | inr other ↦ rw (h, other) plain
          | inl is_manifest ↦
              elim (Bool-cases (leb_ℤ (pos 0) (manifest_counter t read_counter raw))) [
                | inr unread ↦ rw (h, is_manifest, unread) plain
                | inl counted ↦
                    (let same = (eq_iff key manifest_key).0 is_manifest in
                      rw (h, is_manifest, counted, same)
                        (put_newer-Copied raw s (subst (λ k. is_clean k ≡ true) same clean)))
              ]
        ]

    pub copy_to-seen :
        (key : String) (raw : Bytes) (s : Site t)
        → is_seen key s.have ≡ true
        → copy_to t read_counter key raw s ≡ ([], s)
    unfolding copy_to
    copy_to-seen key raw s h = rw h refl
