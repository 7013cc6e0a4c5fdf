-- ===== src/Sync/Bootstrap/Pull.antt =====
-- What `pullCheckpoint` of internal/sync/syncer/checkpoint.go leaves when it ends well.
use remnix.Prelude.{
  String, Bool, true, false, [], ◌∷◌, Option, none, some, ◌==◌, if◌then◌else◌, arith, ◌≡◌,
  Bool-cases, Option-cases, inl, inr, ◌⊎◌,
}
use remnix.Prelude.Int.{pos, ◌≤ℤ◌}
use remnix.Prelude.Dict.{Dict, lookup, Distinct}
use remnix.Prelude.Result.{Result, ok, err, ◌>>=◌, >>=-eq-ok}
use remnix.Sync.Transport.{Bytes, View}
use remnix.Sync.Frontier.{at, dominates}
use remnix.Sync.Checkpoint.{Manifest}
use remnix.Sync.Db.{Env}
use remnix.Sync.Gc.Layout.{Codec}
use remnix.Sync.Gc.Plan.Parts.{join_child}
use remnix.Sync.Bootstrap.{
  Local, Reader, bootstrap, open_snapshot, bootstrap_from_checkpoint, try_keys,
  skip_stale_checkpoint, pull_snapshot, pull_newest,
}
use remnix.Sync.Bootstrap.Effects.{bootstrap_heads}

module _ (env : Env) (r : Reader) (kind : String) (m : Manifest) (s : Local)
    (nn : (j : String) → pos 0 ≤ℤ at s.db.heads j) (d : Distinct m.frontier) where
  -- On success, the heads dominate the frontier of the checkpoint.
  abbrev Reached : Result Local → Type 0
  Reached result = (after : Local) → result ≡ ok after → dominates after.db.heads m.frontier ≡ true

  bootstrap-Reached :
      (smk snap : Bytes) → Reached (bootstrap_from_checkpoint env r kind smk m snap s)
  unfolding bootstrap_from_checkpoint
  bootstrap-Reached smk snap after e =
      let (es, e1, f1) = >>=-eq-ok (open_snapshot env r smk snap) _ e in
      let same : bootstrap env kind m es s ≡ after = cc f1 in
      rw (← same) (bootstrap_heads env kind m es s nn d).1

  -- What comes after a first try that may have failed.
  or_next :
      (first next : Result Local)
      → Reached first
      → Reached next
      → Reached (elim first [ ok s' ↦ ok s' | err e ↦ next ])
  or_next (ok s') next hf hn = hf
  or_next (err e) next hf hn = hn

  either : {a b : Result Local} (c : Bool) → Reached a → Reached b → Reached (if c then a else b)
  either true ha hb = ha
  either false ha hb = hb

  abbrev LastReached : Option (Result Local) → Type 0
  LastReached none = Unit
  LastReached (some result) = Reached result

  try_keys-Reached :
      (snap : Bytes) (smks : Dict Bytes) (last : Option (Result Local))
      → LastReached last
      → Reached (try_keys env r kind m snap smks last s)
  unfolding try_keys
  try_keys-Reached snap [] none h = λ after e. cc e
  try_keys-Reached snap [] (some last) h = h
  try_keys-Reached snap ((id, smk) ∷ smks) last h =
      either (id == m.generation_id) (try_keys-Reached snap smks last h) (
        or_next (bootstrap_from_checkpoint env r kind smk m snap s) _ (bootstrap-Reached smk snap) (
          try_keys-Reached snap smks (some (bootstrap_from_checkpoint env r kind smk m snap s))
            (bootstrap-Reached smk snap)))

  pull_snapshot-Reached :
      (snap : Bytes) (smks : Dict Bytes) → Reached (pull_snapshot env r kind m snap smks s)
  unfolding pull_snapshot
  pull_snapshot-Reached snap smks = elim (Option-cases (lookup m.generation_id smks)) [
    | inl e ↦ rw (e, pull_snapshot) (try_keys-Reached snap smks none tt)
    | inr (smk, e) ↦
        rw (e, pull_snapshot)
          (either (smk == "") (try_keys-Reached snap smks none tt) (
            or_next (bootstrap_from_checkpoint env r kind smk m snap s) _
              (bootstrap-Reached smk snap)
              (try_keys-Reached snap smks (some (bootstrap_from_checkpoint env r kind smk m snap s))
                (bootstrap-Reached smk snap))))
  ]

  -- When pulling the newest checkpoint ends well, either the checkpoint was stale, below the one that is
  -- trusted, and nothing has changed, or the heads dominate its frontier. The heads before are not
  -- negative, and the frontier has one entry for a device.
  pub pull_newest-Reached :
      (v : View) (c : Codec) (smks : Dict Bytes) (after : Local)
      → pull_newest env r v c kind smks m s ≡ ok after
      → ((skip_stale_checkpoint env r v c kind m s ≡ true) × (after ≡ s))
        ⊎ (dominates after.db.heads m.frontier ≡ true)
  unfolding pull_newest
  pull_newest-Reached v c smks after e =
      elim (Bool-cases (skip_stale_checkpoint env r v c kind m s)) [
        | inl t ↦ inl (t, ground arith)
        | inr t ↦ inr (elim (Bool-cases (dominates s.db.heads m.frontier)) [
          | inl h ↦ ground arith
          | inr h ↦
              let pulled : (v.get (join_child (join_child "checkpoints" m.id) "snapshot")
                    >>= λ snap. pull_snapshot env r kind m snap smks s)
                  ≡ ok after =
                ground arith in
              let (snap, e1, f1) =
                >>=-eq-ok (v.get (join_child (join_child "checkpoints" m.id) "snapshot")) _
                  pulled in
              pull_snapshot-Reached snap smks after f1
        ])
      ]
