-- ===== src/Sync/Gc/Plan/Safety.antt =====
-- What a plan of internal/sync/gc/gc.go deletes has been seen by every required device.
use remnix.Prelude.{
  In-cons_if, String, Bool, true, false, not, ◌&&◌, List, [], ◌∷◌, Option, none, some, ◌==◌, arith,
  ◌≡◌, refl, sym, subst, Option-cases, inl, inr, In, ◌⊎◌,
}
use remnix.Prelude.Text.{has_prefix}
use remnix.Prelude.Int.{pos, ◌≤ℤ◌, ◌<ℤ◌}
use remnix.Prelude.Dict.{Dict, lookup}
use remnix.Prelude.Result.{ok, ◌>>=◌, >>=-eq-ok}
use remnix.Sync.Frontier.{Frontier, at, dominates, covers}
use remnix.Sync.Frontier.Order.{Reaches-of_dominates}
use remnix.Sync.Transport.{View}
use remnix.Sync.Ack
use remnix.Sync.Checkpoint.{Manifest}
use remnix.Sync.Bundle.{Header}
use remnix.Sync.Gc.Layout.{Codec, load_acks, list_layout_objects, list_checkpoints}
use remnix.Sync.Gc.Plan.{evaluate, plan_from, plan_bundles}
use remnix.Sync.Gc.Plan.Parts.{
  Plan, is_empty, blocked_by, first_reached, all_dominate, resolve_checkpoint, covered_bundles,
  is_covered, checkpoint_id_of,
}

-- The ack of `id` is there and its frontier dominates `frontier`.
abbrev HasReached : Dict Ack.File → Frontier → String → Type 0
HasReached acks frontier id =
    (a : Ack.File) × (lookup id acks ≡ some a) × (dominates a.frontier frontier ≡ true)

all_dominate-In :
    (acks : Dict Ack.File) (frontier : Frontier) (id : String) (required : List String)
    → all_dominate acks required frontier ≡ true
    → In id required
    → HasReached acks frontier id
unfolding all_dominate
all_dominate-In acks frontier id [] h i = absurd i
all_dominate-In acks frontier id (r ∷ required) h i = elim (Option-cases (lookup r acks)) [
  | inl e ↦ cc
  | inr (a, e) ↦ elim i [
    | inl same ↦ (a, rw same e, ground arith)
    | inr later ↦ all_dominate-In acks frontier id required (ground arith) later
  ]
]

first_reached_all :
    (acks : Dict Ack.File) (required : List String) (ms : List Manifest) (m : Manifest)
    → first_reached acks required ms ≡ some m
    → all_dominate acks required m.frontier ≡ true
unfolding first_reached
first_reached_all acks required [] m h = cc
first_reached_all acks required (n ∷ ms) m h = ground (arith, first_reached_all acks required ms m)

-- A positive number that a dominated frontier has reached, the dominating one has reached too.
passes :
    (a : Ack.File) (m : Manifest) (h : Header)
    → h.seq_end ≤ℤ at m.frontier h.device_id
    → pos 0 <ℤ h.seq_end
    → dominates a.frontier m.frontier ≡ true
    → h.seq_end ≤ℤ at a.frontier h.device_id
passes a m h end positive dom = elim (Option-cases (lookup h.device_id m.frontier)) [
  | inl e ↦ let end' : h.seq_end ≤ℤ pos 0 = rw e at end in absurd (omega arith)
  | inr (seq, e) ↦
      let end' : h.seq_end ≤ℤ seq = rw e at end in
      let up : seq ≤ℤ at a.frontier h.device_id =
        Reaches-of_dominates a.frontier m.frontier dom h.device_id seq e in
      omega arith
]

module _ (v : View) (c : Codec) where
  resolve_reached :
      (acks : Dict Ack.File) (required : List String) (m : Manifest)
      → resolve_checkpoint v c acks required "" ≡ ok (some m)
      → all_dominate acks required m.frontier ≡ true
  unfolding resolve_checkpoint
  resolve_reached acks required m h =
      let (all, e, f) =
        >>=-eq-ok (list_checkpoints v c) (λ all. ok (first_reached acks required all)) h in
      first_reached_all acks required all m (ground arith)

  covered_In :
      (chosen : Option Manifest) (k : String) (objs : List String)
      → In k (covered_bundles v c chosen objs)
      → (m : Manifest) × (chosen ≡ some m) × (is_covered v c m.frontier k ≡ true)
  unfolding covered_bundles
  covered_In none k objs i = absurd i
  covered_In (some m) k [] i = absurd i
  covered_In (some m) k (o ∷ objs) i =
      step (In-cons_if k o _ (covered_bundles v c (some m) objs) i) (covered_In (some m) k objs)
    where
      Found : Type 0
      Found = (n : Manifest) × (some m ≡ some n) × (is_covered v c n.frontier k ≡ true)

      step :
          (((has_prefix o "events/" && not (m.id == "") && is_covered v c m.frontier o) ≡ true)
              × (k ≡ o))
            ⊎ In k (covered_bundles v c (some m) objs)
          → (In k (covered_bundles v c (some m) objs) → Found)
          → Found
      step (inl (t, same)) ih = (m, refl, rw same (ground arith))
      step (inr later) ih = ih later

  covered_header :
      (frontier : Frontier) (k : String) (h : Header)
      → is_covered v c frontier k ≡ true
      → (v.get k >>= c.header) ≡ ok h
      → h.seq_end ≤ℤ at frontier h.device_id
  unfolding is_covered covers
  covered_header frontier k h t e = ground arith

  -- The parts of a successful `Evaluate`.
  pub evaluate_parts :
      (required : List String) (checkpoint_id : String) (plan : Plan)
      → evaluate v c required checkpoint_id ≡ ok plan
      → (acks : Dict Ack.File) × (objs : List String) × (load_acks v c ≡ ok acks)
        × (list_layout_objects v ≡ ok objs)
        × (plan_from v c required checkpoint_id acks objs ≡ ok plan)
  unfolding evaluate
  evaluate_parts required checkpoint_id plan h =
      let (acks, e, f) =
        >>=-eq-ok (load_acks v c)
          (λ acks. list_layout_objects v >>= λ objs. plan_from v c required checkpoint_id acks objs)
          h in
      let (objs, e', g) =
        >>=-eq-ok (list_layout_objects v) (λ objs. plan_from v c required checkpoint_id acks objs)
          f in
      (acks, objs, e, e', g)

  -- The bundles of a plan, with the checkpoint that was chosen for an eligible one.
  plan_bundles-In :
      (required : List String) (acks : Dict Ack.File) (objs : List String) (eligible : Bool)
      (chosen : String × List String) (k : String)
      → plan_bundles v c acks required "" eligible objs ≡ ok chosen
      → In k chosen.1
      → (eligible ≡ true)
        × (m : Manifest) × (all_dominate acks required m.frontier ≡ true)
        × (is_covered v c m.frontier k ≡ true)
  unfolding plan_bundles
  plan_bundles-In required acks objs false chosen k h i =
      let none_chosen : [] ≡ chosen.1 = ground arith in absurd (subst (In k) (sym none_chosen) i)
  plan_bundles-In required acks objs true chosen k h i =
      let (ckpt, e, f) =
        >>=-eq-ok (resolve_checkpoint v c acks required "")
          (λ ckpt. ok (checkpoint_id_of ckpt, covered_bundles v c ckpt objs)) h in
      let covered : covered_bundles v c ckpt objs ≡ chosen.1 = ground arith in
      let (m, same, t) = covered_In ckpt k objs (subst (In k) (sym covered) i) in
      let e' : resolve_checkpoint v c acks required "" ≡ ok (some m) = rw (← same) e in
      (refl, m, resolve_reached acks required m e', t)

  plan_from_bundles :
      (required : List String) (acks : Dict Ack.File) (objs : List String) (plan : Plan)
      (k : String)
      → plan_from v c required "" acks objs ≡ ok plan
      → In k plan.bundles
      → (m : Manifest) × (all_dominate acks required m.frontier ≡ true)
        × (is_covered v c m.frontier k ≡ true)
  unfolding plan_from
  plan_from_bundles required acks objs plan k h i =
      let eligible = is_empty (blocked_by acks "" required) && not (is_empty required) in
      let (chosen, e, f) = >>=-eq-ok (plan_bundles v c acks required "" eligible objs) _ h in
      let same : chosen.1 ≡ plan.bundles = ground arith in
      let (t, m, reached, covered) =
        plan_bundles-In required acks objs eligible chosen k e (subst (In k) (sym same) i) in
      (m, reached, covered)

  -- Every event of a bundle that a plan deletes has been seen by every required device, for a plan with
  -- no given checkpoint: the device has an ack, and this ack's frontier reaches the end of the bundle.
  -- The bundle's header can be read and its last sequence number is positive.
  pub evaluate_bundles_seen :
      (required : List String) (plan : Plan) (k id : String) (h : Header)
      → evaluate v c required "" ≡ ok plan
      → In k plan.bundles
      → (v.get k >>= c.header) ≡ ok h
      → pos 0 <ℤ h.seq_end
      → In id required
      → (acks : Dict Ack.File) × (a : Ack.File) × (load_acks v c ≡ ok acks)
        × (lookup id acks ≡ some a)
        × (h.seq_end ≤ℤ at a.frontier h.device_id)
  evaluate_bundles_seen required plan k id h e i he positive r =
      let (acks, objs, ea, _, ep) = evaluate_parts required "" plan e in
      let (m, reached, covered) = plan_from_bundles required acks objs plan k ep i in
      let (a, found, dom) = all_dominate-In acks m.frontier id required reached r in
      let end : h.seq_end ≤ℤ at m.frontier h.device_id = covered_header m.frontier k h covered he in
      (acks, a, ea, found, passes a m h end positive dom)
