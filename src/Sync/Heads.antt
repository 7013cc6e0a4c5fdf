-- ===== src/Sync/Heads.antt =====
-- internal/sync/merge/heads.go: the `sync_heads` table.
pub mod Contiguous
use remnix.Prelude.{
  String, ℕ, zero, suc, Bool, true, false, not, ◌&&◌, ◌||◌, List, [], ◌∷◌, ◌++◌, Option, none, some,
  map, ◌==◌, if◌then◌else◌, arith, ◌≡◌, refl, sym, ap, ◌∙◌, subst, Bool-cases, Option-cases, inl,
  inr, eq_iff, In, ◌⊎◌, ◌↔◌, ◌≢◌, All, length, ltb, leb, eqb, ◌+◌, ◌-◌, ◌≤◌, ◌<◌,
}
use remnix.Prelude.Int.{ℤ, pos, ltb_ℤ, add64}
use remnix.Prelude.Dict.{lookup, insert}
use remnix.Sync.Frontier.{Frontier, at}
use remnix.Sync.Db.{Db, EventRow, is_event}

-- `Set`: an upsert that never lowers a head. A new row takes whatever it is given.
unfoldable pub set : Frontier → String → ℤ → Frontier
set heads device_id seq = elim (lookup device_id heads) [
  | none ↦ insert device_id seq heads
  | some old ↦ if ltb_ℤ old seq then insert device_id seq heads else heads
]

-- `… AND applied = 1`
unfoldable pub applied_row : String → ℤ → List EventRow → Bool
unfolding is_event
applied_row device_id seq [] = false
applied_row device_id seq (r ∷ rows) =
    (is_event device_id seq r && r.applied) || applied_row device_id seq rows

-- The loop of `AdvanceContiguous`, on fuel: `none` means that the fuel ran out.
unfoldable pub advance_from : ℕ → String → ℤ → List EventRow → Frontier → Option Frontier
unfolding set applied_row
advance_from zero device_id head rows heads = none
advance_from (suc fuel) device_id head rows heads =
    let next = add64 head (pos 1) in
    let rest = advance_from fuel device_id next rows (set heads device_id next) in
    if applied_row device_id next rows then rest else some heads

-- Each round finds another row, so one round more than there are rows is enough.
unfoldable pub advance_contiguous : Db → String → Option Frontier
unfolding advance_from
advance_contiguous db device_id =
    advance_from (suc (length db.events)) device_id (at db.heads device_id) db.events db.heads
