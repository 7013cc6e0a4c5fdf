-- ===== src/Sync/Gc/Best/Pick.antt =====
-- The checkpoint that `pickBestCheckpoint` of internal/sync/gc/gc.go picks.
use remnix.Prelude.{
  All-In, Bool, true, false, List, [], ◌∷◌, some, map, if◌then◌else◌, arith, ◌≡◌, sym, ◌∙◌,
  Bool-cases, inl, inr, In, All,
}
use remnix.Prelude.Dict.{Dict}
use remnix.Sync.Checkpoint.{Manifest}
use remnix.Sync.Frontier.{dominates}
use remnix.Sync.Gc.Best.{
  better_checkpoint, insert_checkpoint, sort_checkpoints, pick_best_checkpoint, head?,
}
use remnix.Sync.Gc.Best.Rank.{
  IsSound, outranks, unbeaten, outranks_irrefl, outranks_trans, outranks_negtrans,
  better_checkpoint-eq-outranks,
}

insert_checkpoint-All {ℓ} :
    (P : Manifest → Type ℓ) (m : Manifest) (ms : List Manifest)
    → P m
    → All P ms
    → All P (insert_checkpoint m ms)
unfolding insert_checkpoint
insert_checkpoint-All P m [] h hs = (h, tt)
insert_checkpoint-All P m (n ∷ ns) h (k, ks) = elim (Bool-cases (better_checkpoint n m)) [
  | inl e ↦ rw e (k, insert_checkpoint-All P m ns h ks)
  | inr e ↦ rw e (h, (k, ks))
]

sort_checkpoints-All {ℓ} :
    (P : Manifest → Type ℓ) (ms : List Manifest) → All P ms → All P (sort_checkpoints ms)
unfolding sort_checkpoints
sort_checkpoints-All P [] h = tt
sort_checkpoints-All P (m ∷ ms) h =
    insert_checkpoint-All P m (sort_checkpoints ms) h.0 (sort_checkpoints-All P ms h.1)

-- The first of the list is the best, as far as the list is sound.
abbrev HeadIsBest : List Manifest → Type 0
HeadIsBest [] = Unit
HeadIsBest (m ∷ ms) = All (λ n. outranks n m ≡ false) ms

below-All :
    (m n : Manifest) (ns : List Manifest)
    → outranks n m ≡ false
    → All (λ k. outranks k n ≡ false) ns
    → All (λ k. outranks k m ≡ false) ns
below-All m n [] h ks = tt
below-All m n (k ∷ ns) h ks = (outranks_negtrans k n m ks.0 h, below-All m n ns h ks.1)

insert_checkpoint_head :
    (m : Manifest) (ns : List Manifest)
    → IsSound m
    → All IsSound ns
    → HeadIsBest ns
    → HeadIsBest (insert_checkpoint m ns)
unfolding insert_checkpoint
insert_checkpoint_head m [] sm sn h = tt
insert_checkpoint_head m (n ∷ ns) sm sn h = elim (Bool-cases (better_checkpoint n m)) [
  | inl e ↦ rw e (insert_checkpoint-All (λ k. outranks k n ≡ false) m ns (after (agree e)) h)
  | inr e ↦ rw e (agree e, below-All m n ns (agree e) h)
]
  where
    agree : {b : Bool} → better_checkpoint n m ≡ b → outranks n m ≡ b
    agree e = sym (better_checkpoint-eq-outranks n m sn.0 sm) ∙ e

    after : outranks n m ≡ true → outranks m n ≡ false
    after e = elim (Bool-cases (outranks m n)) [
      | inl f ↦ cc (outranks_trans n m n e f, outranks_irrefl n)
      | inr f ↦ f
    ]

sort_checkpoints_head : (ms : List Manifest) → All IsSound ms → HeadIsBest (sort_checkpoints ms)
unfolding sort_checkpoints
sort_checkpoints_head [] h = tt
sort_checkpoints_head (m ∷ ms) h =
    insert_checkpoint_head m (sort_checkpoints ms) h.0 (sort_checkpoints-All IsSound ms h.1)
      (sort_checkpoints_head ms h.1)

In-insert_checkpoint :
    (q m : Manifest) (ns : List Manifest) → In q (m ∷ ns) → In q (insert_checkpoint m ns)
unfolding insert_checkpoint
In-insert_checkpoint q m [] h = h
In-insert_checkpoint q m (n ∷ ns) h =
    move h (λ a. In-insert_checkpoint q m ns (inl a)) (λ a. In-insert_checkpoint q m ns (inr a))
  where
    move :
        In q (m ∷ n ∷ ns)
        → (q ≡ m → In q (insert_checkpoint m ns))
        → (In q ns → In q (insert_checkpoint m ns))
        → In q (if better_checkpoint n m then n ∷ insert_checkpoint m ns else m ∷ n ∷ ns)
    move a f g = elim (Bool-cases (better_checkpoint n m)) [
      | inl e ↦ rw e (elim a [ inl b ↦ inr (f b) | inr (inl b) ↦ inl b | inr (inr b) ↦ inr (g b) ])
      | inr e ↦ rw e a
    ]

In-sort_checkpoints : (q : Manifest) (ms : List Manifest) → In q ms → In q (sort_checkpoints ms)
unfolding sort_checkpoints
In-sort_checkpoints q (m ∷ ms) h =
    In-insert_checkpoint q m (sort_checkpoints ms)
      (elim h [ inl e ↦ inl e | inr k ↦ inr (In-sort_checkpoints q ms k) ])
In-sort_checkpoints q [] h = h

pick_head :
    (best q : Manifest) (ms : List Manifest)
    → HeadIsBest ms
    → head? ms ≡ some best
    → In q ms
    → outranks q best ≡ false
pick_head best q [] h e i = absurd i
pick_head best q (m ∷ ms) h e (inl same) =
    let e' : m ≡ best = ground arith in rw (same, e') (outranks_irrefl best)
pick_head best q (m ∷ ms) h e (inr i) =
    let e' : m ≡ best = ground arith in rw (← e') (All-In (λ n. outranks n m ≡ false) q ms h i)

head-All {ℓ} :
    (P : Manifest → Type ℓ) (best : Manifest) (ms : List Manifest)
    → All P ms
    → head? ms ≡ some best
    → P best
head-All P best [] h e = cc
head-All P best (m ∷ ms) h e = let e' : m ≡ best = ground arith in rw (← e') h.0

-- Every checkpoint that the dictionary holds.
abbrev pub values : Dict Manifest → List Manifest
values = map (λ e. e.1)

-- The checkpoint that `pickBestCheckpoint` picks from sound checkpoints is outranked by none of them.
-- So a checkpoint whose frontier dominates that of the picked one is itself dominated by it.
pub pick_best_maximal :
    (by_id : Dict Manifest) (best q : Manifest)
    → All IsSound (values by_id)
    → pick_best_checkpoint by_id ≡ some best
    → In q (values by_id)
    → (better_checkpoint q best ≡ false)
      × (dominates q.frontier best.frontier ≡ true → dominates best.frontier q.frontier ≡ true)
unfolding pick_best_checkpoint
pick_best_maximal by_id best q sound e h = (top, λ d. undominated d top)
  where
    sq : IsSound q
    sq = All-In IsSound q (values by_id) sound h

    sb : IsSound best
    sb =
        head-All IsSound best (sort_checkpoints (values by_id))
          (sort_checkpoints-All IsSound (values by_id) sound) e

    top : better_checkpoint q best ≡ false
    top =
        better_checkpoint-eq-outranks q best sq sb
        ∙ pick_head best q (sort_checkpoints (values by_id))
            (sort_checkpoints_head (values by_id) sound) e (In-sort_checkpoints q (values by_id) h)

    undominated :
        dominates q.frontier best.frontier ≡ true
        → better_checkpoint q best ≡ false
        → dominates best.frontier q.frontier ≡ true
    undominated d t = unbeaten q best d t
