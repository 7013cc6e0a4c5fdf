-- ===== src/Sync/Gc/Best/Rank.antt =====
-- `betterCheckpoint` of internal/sync/gc/gc.go is a strict total order on checkpoints.
use remnix.Prelude.{Bool, true, false, if◌then◌else◌, arith, ◌≡◌}
use remnix.Prelude.Int.{ℤ, ltb_ℤ}
use remnix.Prelude.Dict.{Distinct}
use remnix.Prelude.Text.{str_ltb_negtrans, str_ltb, str_ltb_irrefl, str_ltb_trans, str_ltb_total}
use remnix.Sync.Frontier.{dominates, score, NonNeg}
use remnix.Sync.Frontier.Score.{score_strict, IsSmall}
use remnix.Sync.Checkpoint.{Manifest}
use remnix.Sync.Gc.Best.{better_checkpoint}

-- The frontier is a map of device heads whose sum does not overflow.
pub record IsSound (m : Manifest) : Type 0 where
  pub nonneg : NonNeg m.frontier
  pub distinct : Distinct m.frontier
  pub small : IsSmall m.frontier

-- The larger number first; `rest` decides between equal ones.
abbrev pub descending : ℤ → ℤ → Bool → Bool
descending x y rest = if ltb_ℤ y x then true else if ltb_ℤ x y then false else rest

descending_trans :
    (x y z : ℤ) (p q r : Bool)
    → descending x y p ≡ true
    → descending y z q ≡ true
    → (p ≡ true → q ≡ true → r ≡ true)
    → descending x z r ≡ true
descending_trans x y z p q r h k f = ground (arith, f)

descending_negtrans :
    (x y z : ℤ) (p q r : Bool)
    → descending x y p ≡ false
    → descending y z q ≡ false
    → (p ≡ false → q ≡ false → r ≡ false)
    → descending x z r ≡ false
descending_negtrans x y z p q r h k f = ground (arith, f)

pub unbeaten :
    (q best : Manifest)
    → dominates q.frontier best.frontier ≡ true
    → better_checkpoint q best ≡ false
    → dominates best.frontier q.frontier ≡ true
unfolding better_checkpoint
unbeaten q best d t = ground arith

-- The order by score, then time of creation, then id, each from the largest down.
unfoldable pub outranks : Manifest → Manifest → Bool
outranks a b =
    descending (score a.frontier) (score b.frontier)
      (descending a.created_at b.created_at (str_ltb b.id a.id))

-- The tests on domination never decide against the score, so `betterCheckpoint` ranks sound
-- checkpoints by score, then time of creation, then id.
pub better_checkpoint-eq-outranks :
    (a b : Manifest) → IsSound a → IsSound b → better_checkpoint a b ≡ outranks a b
unfolding better_checkpoint outranks
better_checkpoint-eq-outranks a b sa sb = ground (
  arith,
  score_strict a.frontier b.frontier sa.nonneg sa.distinct sa.small sb.nonneg sb.distinct sb.small,
  score_strict b.frontier a.frontier sb.nonneg sb.distinct sb.small sa.nonneg sa.distinct sa.small,
)

pub outranks_irrefl : (a : Manifest) → outranks a a ≡ false
unfolding outranks
outranks_irrefl a = ground (arith, str_ltb_irrefl a.id)

pub outranks_trans :
    (a b c : Manifest) → outranks a b ≡ true → outranks b c ≡ true → outranks a c ≡ true
unfolding outranks
outranks_trans a b c h k =
    descending_trans (score a.frontier) (score b.frontier) (score c.frontier) _ _ _ h k (λ h' k'.
      descending_trans a.created_at b.created_at c.created_at _ _ _ h' k'
        (λ p q. str_ltb_trans c.id b.id a.id q p))

pub outranks_negtrans :
    (a b c : Manifest) → outranks a b ≡ false → outranks b c ≡ false → outranks a c ≡ false
unfolding outranks
outranks_negtrans a b c h k =
    descending_negtrans (score a.frontier) (score b.frontier) (score c.frontier) _ _ _ h k (λ h' k'.
      descending_negtrans a.created_at b.created_at c.created_at _ _ _ h' k'
        (λ p q. str_ltb_negtrans c.id b.id a.id q p))

outranks_total :
    (a b : Manifest)
    → outranks a b ≡ false
    → outranks b a ≡ false
    → (score a.frontier ≡ score b.frontier) × (a.created_at ≡ b.created_at) × (a.id ≡ b.id)
unfolding outranks
outranks_total a b h k = ground (arith, str_ltb_total a.id b.id)

-- `betterCheckpoint` is a strict order of sound checkpoints, and two of them that it does not order
-- have the same id: the order that `sort.Slice` asks for, with no ties between checkpoints.
pub better_checkpoint_strict :
    (a b c : Manifest)
    → IsSound a
    → IsSound b
    → IsSound c
    → (better_checkpoint a a ≡ false)
      × (better_checkpoint a b ≡ true → better_checkpoint b c ≡ true → better_checkpoint a c ≡ true)
      × (better_checkpoint a b ≡ false → better_checkpoint b a ≡ false → a.id ≡ b.id)
better_checkpoint_strict a b c sa sb sc =
    rw
      (
        better_checkpoint-eq-outranks a a sa sa,
        better_checkpoint-eq-outranks a b sa sb,
        better_checkpoint-eq-outranks b c sb sc,
        better_checkpoint-eq-outranks a c sa sc,
        better_checkpoint-eq-outranks b a sb sa,
      )
      (outranks_irrefl a, outranks_trans a b c, λ h k. (outranks_total a b h k).2)
