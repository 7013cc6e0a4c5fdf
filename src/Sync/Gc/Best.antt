-- ===== src/Sync/Gc/Best.antt =====
-- The ranking of checkpoints in internal/sync/gc/gc.go.
pub mod Rank
pub mod Pick
use remnix.Prelude.{
  Bool, true, false, not, ◌&&◌, List, [], ◌∷◌, Option, none, some, map, if◌then◌else◌,
}
use remnix.Prelude.Int.{ltb_ℤ, eqb_ℤ}
use remnix.Prelude.Dict.{Dict}
use remnix.Prelude.Text.{str_ltb}
use remnix.Sync.Frontier.{dominates, score}
use remnix.Sync.Checkpoint.{Manifest}

-- `a` ranks before `b`.
unfoldable pub better_checkpoint : Manifest → Manifest → Bool
better_checkpoint a b =
    let a_dom = dominates a.frontier b.frontier in
    let b_dom = dominates b.frontier a.frontier in
    let sa = score a.frontier in
    let sb = score b.frontier in
    if a_dom && not b_dom
    then true
    else if b_dom && not a_dom
    then false
    else if not (eqb_ℤ sa sb)
    then ltb_ℤ sb sa
    else if not (eqb_ℤ a.created_at b.created_at)
    then ltb_ℤ b.created_at a.created_at
    else str_ltb b.id a.id

-- `sort.Slice` by `betterCheckpoint`.
unfoldable pub insert_checkpoint : Manifest → List Manifest → List Manifest
insert_checkpoint m [] = m ∷ []
insert_checkpoint m (n ∷ ns) =
    if better_checkpoint n m then n ∷ insert_checkpoint m ns else m ∷ n ∷ ns

unfoldable pub sort_checkpoints : List Manifest → List Manifest
unfolding insert_checkpoint
sort_checkpoints [] = []
sort_checkpoints (m ∷ ms) = insert_checkpoint m (sort_checkpoints ms)

abbrev pub head? : List Manifest → Option Manifest
head? [] = none
head? (m ∷ ms) = some m

unfoldable pub pick_best_checkpoint : Dict Manifest → Option Manifest
unfolding sort_checkpoints
pick_best_checkpoint by_id = head? (sort_checkpoints (map (λ e. e.1) by_id))
