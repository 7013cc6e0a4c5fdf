-- ===== src/Sync/Gc/Plan/Kept.antt =====
-- Which checkpoints a plan of internal/sync/gc/gc.go deletes.
use remnix.Prelude.Text.{str_ltb}
use remnix.Prelude.{
  ◌∙◌, sym, In-cons_if, String, Bool, true, false, not, ◌&&◌, List, [], ◌∷◌, some, ◌==◌,
  if◌then◌else◌, arith, ◌≡◌, subst, inl, inr, eq_iff, In, ◌⊎◌, ◌≢◌,
}
use remnix.Prelude.Int.{ltb_ℤ}
use remnix.Prelude.Dict.{Dict, lookup}
use remnix.Prelude.Result.{ok, >>=-eq-ok}
use remnix.Sync.Frontier.{dominates}
use remnix.Sync.Transport.{View}
use remnix.Sync.Ack
use remnix.Sync.Checkpoint.{Manifest}
use remnix.Sync.Gc.Layout.{Codec, list_layout_objects}
use remnix.Sync.Gc.Plan.{evaluate, plan_from, plan_bundles, choose_keep}
use remnix.Sync.Gc.Plan.Safety.{evaluate_parts}
use remnix.Sync.Gc.Plan.Parts.{
  Plan, Keep, is_empty, blocked_by, manifests_by_id, dir_ids, checkpoint_ids, is_deletable,
  deletable, sort_strings, insert_string, join_child,
}

In-insert_string : (p s : String) (ss : List String) → In p (insert_string s ss) → In p (s ∷ ss)
unfolding insert_string
In-insert_string p s [] i = i
In-insert_string p s (t ∷ ts) i = step (str_ltb t s) i (In-insert_string p s ts)
  where
    step :
        (b : Bool)
        → In p (if b then t ∷ insert_string s ts else s ∷ t ∷ ts)
        → (In p (insert_string s ts) → In p (s ∷ ts))
        → In p (s ∷ t ∷ ts)
    step true (inl e) ih = inr (inl e)
    step true (inr k) ih = elim (ih k) [ inl e ↦ inl e | inr j ↦ inr (inr j) ]
    step false k ih = k

In-sort_strings : (p : String) (ss : List String) → In p (sort_strings ss) → In p ss
unfolding sort_strings
In-sort_strings p [] i = i
In-sort_strings p (s ∷ ss) i = elim (In-insert_string p s (sort_strings ss) i) [
  | inl e ↦ inl e
  | inr k ↦ inr (In-sort_strings p ss k)
]

-- The checkpoint `id` of `meta` goes and `keep` stays: another id, and what is known of both frontiers.
abbrev pub Superseded : Dict Manifest → Keep → Bool → String → Type 0
Superseded meta keep can_delete_full id =
    (id ≢ keep.id)
    × ((m k : Manifest)
        → lookup id meta ≡ some m
        → keep.meta ≡ some k
        → ((dominates m.frontier k.frontier ≡ true → dominates k.frontier m.frontier ≡ true)
            × ((dominates k.frontier m.frontier ≡ true)
                ⊎ ((can_delete_full ≡ true) × (ltb_ℤ k.created_at m.created_at ≡ false)))))

-- Each manifest that can be read names the directory that it stands in.
abbrev pub IsNamed : Dict Manifest → Type 0
IsNamed meta = (d : String) (m : Manifest) → lookup d meta ≡ some m → m.id ≡ d

-- The directory `id` does not hold the kept manifest.
abbrev pub IsOther : Dict Manifest → Keep → String → Type 0
IsOther meta keep id = (k : Manifest) → keep.meta ≡ some k → lookup id meta ≡ some k → ⊥

is_deletable-Superseded :
    (meta : Dict Manifest) (keep : Keep) (can_delete_full : Bool) (id : String)
    → is_deletable (lookup id meta) keep can_delete_full id ≡ true
    → Superseded meta keep can_delete_full id
unfolding is_deletable
is_deletable-Superseded meta keep can id h =
    (λ e. ground (arith, eq_iff id keep.id), λ m k em ek. (ground arith, ground arith))

deletable-In :
    (meta : Dict Manifest) (keep : Keep) (can_delete_full : Bool) (ids : Dict Bool) (p : String)
    → In p (deletable meta keep can_delete_full ids)
    → (id : String) × (p ≡ join_child "checkpoints" id) × Superseded meta keep can_delete_full id
unfolding deletable
deletable-In meta keep can [] p i = absurd i
deletable-In meta keep can ((id, b) ∷ ids) p i =
    elim (In-cons_if p (join_child "checkpoints" id) _ (deletable meta keep can ids) i) [
      | inl (t, e) ↦ (id, e, is_deletable-Superseded meta keep can id t)
      | inr k ↦ deletable-In meta keep can ids p k
    ]

module _ (v : View) (c : Codec) where
  abbrev pub readable : List String → Dict Manifest
  readable objs = manifests_by_id v c objs []

  plan_from_checkpoints :
      (required : List String) (checkpoint_id : String) (acks : Dict Ack.File) (objs : List String)
      (plan : Plan)
      → plan_from v c required checkpoint_id acks objs ≡ ok plan
      → plan.checkpoints
        ≡ sort_strings (
            deletable
              (readable objs)
              (choose_keep v c (readable objs) plan.checkpoint)
              (plan.eligible && not (plan.checkpoint == ""))
              (dir_ids v c (checkpoint_ids objs [])))
  unfolding plan_from
  plan_from_checkpoints required checkpoint_id acks objs plan h =
      let eligible = is_empty (blocked_by acks checkpoint_id required) && not (is_empty required) in
      let (chosen, e, f) =
        >>=-eq-ok (plan_bundles v c acks required checkpoint_id eligible objs) _ h in
      ground arith

  choose_keep-id :
      (meta : Dict Manifest) (checkpoint : String) (k : Manifest)
      → IsNamed meta
      → (choose_keep v c meta checkpoint).meta ≡ some k
      → (choose_keep v c meta checkpoint).id ≡ k.id
  unfolding choose_keep
  choose_keep-id meta checkpoint k named e = ground (arith, named checkpoint k)

  choose_keep-IsOther :
      (meta : Dict Manifest) (checkpoint : String)
      → IsNamed meta
      → (id : String) → id ≢ (choose_keep v c meta checkpoint).id
      → IsOther meta (choose_keep v c meta checkpoint) id
  choose_keep-IsOther meta checkpoint named id other k e at =
      other (sym (choose_keep-id meta checkpoint k named e ∙ named id k at))

  -- Where each readable manifest names its own directory, a checkpoint directory that a plan deletes
  -- is not one that holds the manifest of the checkpoint that stays, nor the one that the choice of
  -- what stays names. If both manifests can be read, the frontier of the deleted one does not strictly
  -- dominate the other, and it is dominated by it unless the plan is eligible, has a checkpoint and the
  -- deleted one is no newer.
  pub evaluate_checkpoints-Superseded :
      (required : List String) (checkpoint_id : String) (plan : Plan) (p : String)
      (objs : List String)
      → list_layout_objects v ≡ ok objs
      → IsNamed (readable objs)
      → evaluate v c required checkpoint_id ≡ ok plan
      → In p plan.checkpoints
      → (id : String) × (p ≡ join_child "checkpoints" id)
        × IsOther (readable objs) (choose_keep v c (readable objs) plan.checkpoint) id
        × Superseded
            (readable objs)
            (choose_keep v c (readable objs) plan.checkpoint)
            (plan.eligible && not (plan.checkpoint == ""))
            id
  evaluate_checkpoints-Superseded required checkpoint_id plan p objs listing named h i =
      let (acks, found, _, eo, ep) = evaluate_parts v c required checkpoint_id plan h in
      let same : found ≡ objs = cc (sym eo ∙ listing) in
      let planned : plan_from v c required checkpoint_id acks objs ≡ ok plan =
        subst (λ l. plan_from v c required checkpoint_id acks l ≡ ok plan) same ep in
      let listed = plan_from_checkpoints required checkpoint_id acks objs plan planned in
      let keep = choose_keep v c (readable objs) plan.checkpoint in
      let (id, e, why) =
        deletable-In (readable objs) keep _ _ p (In-sort_strings p _ (subst (In p) listed i)) in
      (id, e, choose_keep-IsOther (readable objs) plan.checkpoint named id why.0, why)
