-- ===== src/Sync/Gc/Plan/Deletion.antt =====
-- `Execute` of internal/sync/gc/gc.go: what it deletes, and what it leaves.
use remnix.Prelude.{
  String, Bool, true, false, List, [], ◌∷◌, ◌++◌, if◌then◌else◌, ◌≡◌, refl, ◌∙◌, inl, inr, All, ◌⊎◌,
  Option,
}
use remnix.Prelude.Result.{Result-cases, Error, ok, err, not_exist}
use remnix.Sync.Transport.{Bytes, Transport, delete_if_exists}
use remnix.Sync.Transport.Laws.{Clean, Lawful, is_clean, covers_key, object_of}
use remnix.Sync.Gc.Plan.{delete_keys, execute}
use remnix.Sync.Gc.Plan.Parts.{Plan}

-- The keys that `Execute` deletes, in its order.
abbrev pub doomed : Plan → List String
doomed plan =
    plan.tmp_orphans
    ++ (plan.checkpoints ++ (if plan.eligible then plan.bundles ++ plan.generations else []))

module _ (t : Transport) (l : Lawful t) where
  -- What can be read at a key.
  abbrev pub object_at : t.Remote → String → Option Bytes
  object_at s k = object_of ((t.view s).get k)

  abbrev Gone : t.Remote → String → Type 0
  Gone s k = (t.view s).get k ≡ err not_exist

  delete_other :
      (s : t.Remote) (k j : String)
      → is_clean k ≡ true
      → is_clean j ≡ true
      → covers_key k j ≡ false
      → object_at (delete_if_exists t s k).1 j ≡ object_at s j
  unfolding delete_if_exists
  delete_other s k j ck cj h = l.remove_other s k j ck cj h

  -- One round of the loop: the deletion fails and ends it, or the rest follows.
  delete_keys-cons :
      (s : t.Remote) (k : String) (keys : List String)
      → ((e : Error) × ((delete_if_exists t s k).0 ≡ err e)
          × (delete_keys t s (k ∷ keys) ≡ (err e, (delete_if_exists t s k).1)))
        ⊎ (((delete_if_exists t s k).0 ≡ ok tt)
            × (delete_keys t s (k ∷ keys) ≡ delete_keys t (delete_if_exists t s k).1 keys))
  unfolding delete_keys
  delete_keys-cons s k keys = elim (Result-cases (delete_if_exists t s k).0) [
    | inl (u, e) ↦ inr (e, rw (e, delete_keys))
    | inr (x, e) ↦ inl (x, e, rw (e, delete_keys))
  ]

  delete_keys_keeps :
      (s : t.Remote) (keys : List String) (j : String)
      → Clean keys
      → is_clean j ≡ true
      → All (λ k. covers_key k j ≡ false) keys
      → object_at (delete_keys t s keys).1 j ≡ object_at s j
  delete_keys_keeps s [] j clean cj apart = unfold delete_keys in refl
  delete_keys_keeps s (k ∷ keys) j clean cj apart =
      let one = delete_other s k j clean.0 cj apart.0 in
      elim (delete_keys-cons s k keys) [
        | inl (e, _, same) ↦ rw same one
        | inr (_, same) ↦
            rw same (delete_keys_keeps (delete_if_exists t s k).1 keys j clean.1 cj apart.1 ∙ one)
      ]

  -- On a lawful storage, for a plan of clean keys, `Execute` leaves every object that the plan does not
  -- name and that lies in no directory that it names, whether it ends well or not. A dry run leaves all
  -- of them.
  pub execute_keeps :
      (s : t.Remote) (plan : Plan) (dry_run : Bool) (j : String)
      → Clean (doomed plan)
      → is_clean j ≡ true
      → (dry_run ≡ true) ⊎ All (λ k. covers_key k j ≡ false) (doomed plan)
      → object_of ((t.view (execute t s plan dry_run).1).get j) ≡ object_of ((t.view s).get j)
  unfolding execute
  execute_keeps s plan true j clean cj apart = refl
  execute_keeps s plan false j clean cj (inl wet) = cc wet
  execute_keeps s plan false j clean cj (inr apart) =
      delete_keys_keeps s (doomed plan) j clean cj apart
