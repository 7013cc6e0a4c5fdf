-- ===== src/Sync/Generations/NoRollback.antt =====
-- internal/sync/syncer/engine.go: the counter of the trusted manifest never falls.
use remnix.Prelude.{
  String, none, some, ◌==◌, if◌then◌else◌, arith, ◌≡◌, refl, sym, ap, ◌∙◌, subst, Bool-cases, inl,
  inr, eq_iff,
}
use remnix.Prelude.Int.{ℤ, ltb_ℤ, ltb_ℤ_true, ltb_ℤ_false, ◌≤ℤ◌, ◌<ℤ◌}
use remnix.Prelude.Result.{Result-cases, Error, Result, ok, err, failed, not_exist}
use remnix.Sync.Transport.{View, Bytes}
use remnix.Sync.Publish.{Options, trust_kind}
use remnix.Sync.Gc.Layout.{Codec}
use remnix.Keys.{KeyStore, trusted_counter, set_trusted, trusted_counter-set_trusted}
use remnix.Sync.Metadata.{RemoteManifest, Decoders, State, apply_remote_roster}
use remnix.Sync.Generations.{pull_rest, accept_manifest, rollback, pull_metadata}
use remnix.Sync.Generations.Trusted.{pull_rest-trusted}

same_counter :
    (kind : String) (k j : KeyStore)
    → k.trusted ≡ j.trusted
    → trusted_counter kind k ≡ trusted_counter kind j
unfolding trusted_counter
same_counter kind k j e = rw (e, trusted_counter) refl

lower_bound :
    (kind k : String) (s : KeyStore) (n x : ℤ)
    → x ≡ (if kind == k then n else trusted_counter k s)
    → trusted_counter kind s ≤ℤ n
    → trusted_counter k s ≤ℤ x
lower_bound kind k s n x h le = elim (Bool-cases (kind == k)) [
  | inl e ↦
      let same : kind ≡ k = (eq_iff kind k).0 e in
      let it : x ≡ n = h ∙ rw e refl in rw (← same, it) le
  | inr e ↦ let it : x ≡ trusted_counter k s = h ∙ rw e refl in rw it (omega arith)
]

module _ (v : View) (c : Codec) (d : Decoders) (now : ℤ) (o : Options) where
  -- The counters after the pull, and what it answers.
  pub record KeepsTrust (s : State) (r : Result (Unit {0}) × State) : Type 0 where
    pub never_lower : (kind : String) → trusted_counter kind s.keys ≤ℤ trusted_counter kind r.1.keys
    pub refused :
        (b : Bytes) (rm : RemoteManifest)
        → v.get "metadata/manifest" ≡ ok b
        → d.manifest b ≡ ok rm
        → rm.counter <ℤ trusted_counter (trust_kind o) s.keys
        → r ≡ (err rollback, s)
    pub accepted :
        (b : Bytes) (rm : RemoteManifest)
        → v.get "metadata/manifest" ≡ ok b
        → d.manifest b ≡ ok rm
        → trusted_counter (trust_kind o) s.keys ≤ℤ rm.counter
        → trusted_counter (trust_kind o) r.1.keys ≡ rm.counter
    pub unreadable :
        (b : Bytes) (e : Error)
        → v.get "metadata/manifest" ≡ ok b
        → d.manifest b ≡ err e
        → r ≡ (err e, s)
    pub unreachable :
        (why : String) → v.get "metadata/manifest" ≡ err (failed why) → r ≡ (err (failed why), s)

  accept_manifest-KeepsTrust :
      (b : Bytes) (rm : RemoteManifest) (s : State)
      → v.get "metadata/manifest" ≡ ok b
      → d.manifest b ≡ ok rm
      → KeepsTrust s (accept_manifest v c d now o b rm s)
  unfolding accept_manifest
  accept_manifest-KeepsTrust b rm s at read =
      let kind = trust_kind o in
      let known : (b' : Bytes) (rm' : RemoteManifest)
          → v.get "metadata/manifest" ≡ ok b'
          → d.manifest b' ≡ ok rm'
          → rm' ≡ rm =
        λ b' rm' f g. cc (at, read, f, g) in
      let other : (b' : Bytes) (e : Error)
          → v.get "metadata/manifest" ≡ ok b'
          → d.manifest b' ≡ err e
          → ⊥ =
        λ b' e f g. cc (at, read, f, g) in
      elim (Bool-cases (ltb_ℤ rm.counter (trusted_counter kind s.keys))) [
        | inl low ↦
            rw (low, accept_manifest)
              (record {
                never_lower = λ k. omega arith;
                refused = λ b' rm' f g lt. refl;
                accepted = λ b' rm' f g le.
                    let same = known b' rm' f g in
                    absurd
                      (ground (arith, ltb_ℤ_true rm.counter (trusted_counter kind s.keys) low));
                unreadable = λ b' e f g. absurd (other b' e f g);
                unreachable = λ why f. cc (at, f);
              })
        | inr high ↦
            let next : State = record {
              keys = set_trusted kind rm.active_generation rm.counter "" b s.keys;
              devices = apply_remote_roster now rm s.devices;
            } in
            let r = pull_rest v c d now o (some rm) next in
            let kept : (k : String)
                → trusted_counter k r.1.keys
                  ≡ (if kind == k then rm.counter else trusted_counter k s.keys) =
              λ k.
                same_counter k r.1.keys next.keys (pull_rest-trusted v c d now o (some rm) next)
                ∙ trusted_counter-set_trusted kind k rm.active_generation rm.counter "" b s.keys in
            let le = ltb_ℤ_false rm.counter (trusted_counter kind s.keys) high in
            rw (high, accept_manifest)
              (record {
                never_lower = λ k.
                    lower_bound kind k s.keys rm.counter (trusted_counter k r.1.keys) (kept k) le;
                refused = λ b' rm' f g lt.
                    let lower =
                      subst (λ (m : RemoteManifest). m.counter <ℤ trusted_counter kind s.keys)
                        (known b' rm' f g) lt in
                    absurd (omega arith);
                accepted = λ b' rm' f g up.
                    kept kind
                    ∙ rw ((eq_iff kind kind).1 refl) refl
                    ∙ ap (λ (m : RemoteManifest). m.counter) (sym (known b' rm' f g));
                unreadable = λ b' e f g. absurd (other b' e f g);
                unreachable = λ why f. cc (at, f);
              })
      ]

  pull_rest-KeepsTrust :
      (s : State)
      → v.get "metadata/manifest" ≡ err not_exist
      → KeepsTrust s (pull_rest v c d now o none s)
  pull_rest-KeepsTrust s missing = record {
    never_lower = λ k.
        let same =
          same_counter k (pull_rest v c d now o none s).1.keys s.keys
            (pull_rest-trusted v c d now o none s) in
        rw same (omega arith);
    refused = λ b rm f g lt. cc (missing, f);
    accepted = λ b rm f g le. cc (missing, f);
    unreadable = λ b e f g. cc (missing, f);
    unreachable = λ why f. cc (missing, f);
  }

  failed-KeepsTrust :
      (why : Error) (s : State)
      → ((b : Bytes) (rm : RemoteManifest)
          → v.get "metadata/manifest" ≡ ok b
          → d.manifest b ≡ ok rm
          → ⊥)
      → ((b : Bytes) (e : Error)
          → v.get "metadata/manifest" ≡ ok b
          → d.manifest b ≡ err e
          → why ≡ e)
      → ((e : String) → v.get "metadata/manifest" ≡ err (failed e) → why ≡ failed e)
      → KeepsTrust s (err why, s)
  failed-KeepsTrust why s unread bad lost = record {
    never_lower = λ k. omega arith;
    refused = λ b rm f g lt. absurd (unread b rm f g);
    accepted = λ b rm f g le. absurd (unread b rm f g);
    unreadable = λ b e f g. rw (bad b e f g) refl;
    unreachable = λ e f. rw (lost e f) refl;
  }

  -- Pulling the metadata lowers the trusted counter of no endpoint, whatever the storage answers and
  -- however the pull ends. A manifest with a counter below the trusted one is refused, and nothing has
  -- changed; any other that can be decoded sets the counter to its own. A manifest that cannot be read
  -- or decoded is an error, and nothing has changed.
  pub pull_metadata-KeepsTrust : (s : State) → KeepsTrust s (pull_metadata v c d now o s)
  unfolding pull_metadata
  pull_metadata-KeepsTrust s = elim (Result-cases (v.get "metadata/manifest")) [
    | inl (b, at) ↦ elim (Result-cases (d.manifest b)) [
      | inl (rm, read) ↦ rw (at, read, pull_metadata) (accept_manifest-KeepsTrust b rm s at read)
      | inr (e, read) ↦
          rw (at, read, pull_metadata)
            (failed-KeepsTrust e s (λ b' rm f g. cc (at, read, f, g))
              (λ b' e' f g. cc (at, read, f, g)) (λ why f. cc (at, f)))
    ]
    | inr (why, at) ↦ answer why at
  ]
    where
      answer :
          (why : Error)
          → v.get "metadata/manifest" ≡ err why
          → KeepsTrust s (pull_metadata v c d now o s)
      answer not_exist at = rw (at, pull_metadata) (pull_rest-KeepsTrust s at)
      answer (failed e) at =
          rw (at, pull_metadata)
            (failed-KeepsTrust (failed e) s (λ b rm f g. cc (at, f)) (λ b e' f g. cc (at, f))
              (λ why f. cc (at, f)))
