-- ===== src/Examples/Frontiers.antt =====
-- Tests and instances for internal/sync/merge/frontier.go and the checkpoint ranking.
use remnix.Prelude.{true, false, [], ◌∷◌, arith, ◌≡◌, refl, inl, ◌↔◌}
use remnix.Prelude.Int.{int_laws, add64, pos, ◌≤ℤ◌, ◌<ℤ◌}
use remnix.Prelude.Dict.{Dict, lookup, insert, Distinct}
use remnix.Prelude.Text.{str_ltb}
use remnix.Sync.Frontier.{Frontier, at, missing, dominates, score, union, NonNeg}
use remnix.Sync.Frontier.Order.{Reaches, dominates_iff, union_least}
use remnix.Sync.Frontier.Ranges.{Fetched, missing_exact}
use remnix.Sync.Frontier.Score.{total, IsSmall, score_strict}
use remnix.Sync.Checkpoint.{Manifest}
use remnix.Sync.Gc.Best.{better_checkpoint, pick_best_checkpoint}
use remnix.Sync.Gc.Best.Rank.{
  IsSound, outranks, better_checkpoint-eq-outranks, better_checkpoint_strict,
}
use remnix.Sync.Gc.Best.Pick.{pick_best_maximal}

program : Unit {0}
unfolding total lookup insert add64 missing dominates score union str_ltb better_checkpoint
    pick_best_checkpoint
program = tt

-- The maps of `TestMissingRanges`.
abbrev local_map : Frontier
local_map = ("a", pos 3) ∷ ("b", pos 1) ∷ []

abbrev remote_map : Frontier
remote_map = ("a", pos 5) ∷ ("b", pos 1) ∷ ("c", pos 2) ∷ []

missing_test :
    missing local_map remote_map
    ≡ record { device_id = "a"; start = pos 4; end = pos 5 }
      ∷ record { device_id = "c"; start = pos 1; end = pos 2 }
      ∷ []
unfolding program
missing_test = refl

-- `TestDominates` and `TestScore`.
dominates_test :
    (dominates (("x", pos 3) ∷ ("y", pos 2) ∷ []) (("x", pos 2) ∷ ("y", pos 2) ∷ []) ≡ true)
    × (dominates (("x", pos 2) ∷ ("y", pos 2) ∷ []) (("x", pos 3) ∷ ("y", pos 2) ∷ []) ≡ false)
    × (score (("a", pos 3) ∷ ("b", pos 7) ∷ []) ≡ pos 10)
unfolding program
dominates_test = (refl, refl, refl)

remote_map-Distinct : Distinct remote_map
unfolding program
remote_map-Distinct = (refl, (refl, (refl, tt)))

local_map-Distinct : Distinct local_map
unfolding program
local_map-Distinct = (refl, (refl, tt))

local_map-NonNeg : NonNeg local_map
local_map-NonNeg = omega arith

remote_map-NonNeg : NonNeg remote_map
remote_map-NonNeg = omega arith

dominates_iff_example : (dominates remote_map local_map ≡ true) ↔ Reaches remote_map local_map
dominates_iff_example = dominates_iff remote_map local_map local_map-Distinct

union-Distinct : Distinct (union local_map remote_map)
unfolding program
union-Distinct = (refl, (refl, (refl, tt)))

union_least_example :
    (dominates (union local_map remote_map) local_map ≡ true)
    × (dominates (union local_map remote_map) remote_map ≡ true)
    × (dominates remote_map local_map ≡ true
        → dominates remote_map remote_map ≡ true
        → dominates remote_map (union local_map remote_map) ≡ true)
union_least_example =
    union_least local_map remote_map remote_map local_map-NonNeg remote_map-NonNeg
      local_map-Distinct remote_map-Distinct union-Distinct

missing_exact_example :
    Fetched (missing local_map remote_map) "a" (pos 4)
    ↔ ((at local_map "a" <ℤ pos 4) × (pos 4 ≤ℤ at remote_map "a"))
unfolding program
missing_exact_example =
    missing_exact local_map remote_map "a" (pos 4) remote_map-Distinct local_map-NonNeg
      (omega arith)

local_map-IsSmall : IsSmall local_map
unfolding program
local_map-IsSmall = omega int_laws

remote_map-IsSmall : IsSmall remote_map
unfolding program
remote_map-IsSmall = omega int_laws

score_strict_example : score local_map <ℤ score remote_map
unfolding program
score_strict_example =
    score_strict remote_map local_map remote_map-NonNeg remote_map-Distinct remote_map-IsSmall
      local_map-NonNeg local_map-Distinct local_map-IsSmall refl refl

abbrev old_checkpoint : Manifest
old_checkpoint = record {
  version = pos 1;
  id = "old";
  generation_id = "g";
  frontier = local_map;
  created_at = pos 20;
}

abbrev new_checkpoint : Manifest
new_checkpoint = record {
  version = pos 1;
  id = "new";
  generation_id = "g";
  frontier = remote_map;
  created_at = pos 10;
}

old_checkpoint-IsSound : IsSound old_checkpoint
old_checkpoint-IsSound = record {
  nonneg = local_map-NonNeg;
  distinct = local_map-Distinct;
  small = local_map-IsSmall;
}

new_checkpoint-IsSound : IsSound new_checkpoint
new_checkpoint-IsSound = record {
  nonneg = remote_map-NonNeg;
  distinct = remote_map-Distinct;
  small = remote_map-IsSmall;
}

better_checkpoint-eq-outranks_example :
    better_checkpoint new_checkpoint old_checkpoint ≡ outranks new_checkpoint old_checkpoint
better_checkpoint-eq-outranks_example =
    better_checkpoint-eq-outranks new_checkpoint old_checkpoint new_checkpoint-IsSound
      old_checkpoint-IsSound

better_checkpoint_strict_example :
    (better_checkpoint new_checkpoint new_checkpoint ≡ false)
    × (better_checkpoint new_checkpoint old_checkpoint ≡ true
        → better_checkpoint old_checkpoint old_checkpoint ≡ true
        → better_checkpoint new_checkpoint old_checkpoint ≡ true)
    × (better_checkpoint new_checkpoint old_checkpoint ≡ false
        → better_checkpoint old_checkpoint new_checkpoint ≡ false
        → new_checkpoint.id ≡ old_checkpoint.id)
better_checkpoint_strict_example =
    better_checkpoint_strict new_checkpoint old_checkpoint old_checkpoint new_checkpoint-IsSound
      old_checkpoint-IsSound old_checkpoint-IsSound

abbrev by_id : Dict Manifest
by_id = ("old", old_checkpoint) ∷ ("new", new_checkpoint) ∷ []

pick_best_maximal_example :
    (better_checkpoint old_checkpoint new_checkpoint ≡ false)
    × (dominates local_map remote_map ≡ true → dominates remote_map local_map ≡ true)
unfolding program
pick_best_maximal_example =
    pick_best_maximal by_id new_checkpoint old_checkpoint
      (old_checkpoint-IsSound, (new_checkpoint-IsSound, tt)) refl (inl refl)
