-- ===== src/History/Cache/Methods.antt =====
-- internal/history/cache.go: the methods that change the cache. Each sorts the commands again, and
-- compacts the pool when more than half of its texts are out of use.
use remnix.Prelude.{String, true, List, none, some}
use remnix.Prelude.Run.{Run, done, ◌>>=◌}
use remnix.Prelude.Dict.{lookup}
use remnix.Prelude.IntMap.{find}
use remnix.Prelude.Int.{ℤ}
use remnix.Prelude.Result.{Result, ok, err}
use remnix.History.Entry.{Entry, ChangeSet, CompletionChange}
use remnix.History.Cache.{
  Cache, new_cache, apply_created_locked, apply_completed_locked, tombstone_id,
  apply_tombstone_command_unlocked, each,
}
use remnix.History.Cache.Suggest.{resort_locked}
use remnix.History.Cache.Compact.{maybe_compact_locked, compact_pool_locked}

abbrev pub settle : Cache → Run Cache
settle c = do sorted ← resort_locked c; done (maybe_compact_locked sorted)

unfoldable pub apply_created : Entry → Cache → Run Cache
apply_created e c = do added ← apply_created_locked e c; settle added

unfoldable pub apply_completed : String → ℤ → ℤ → Cache → Run Cache
apply_completed id end_ms exit c = apply_completed_locked id end_ms exit c

unfoldable pub apply_tombstoned : List String → Cache → Run Cache
apply_tombstoned ids c = do left ← each tombstone_id ids c; settle left

-- Where the command is not known the method returns before it sorts.
unfoldable pub apply_tombstone_command : String → Cache → Run Cache
apply_tombstone_command command c = elim (lookup command c.pool.ids) [
  | none ↦ done c
  | some cmd_id ↦ elim (find cmd_id c.by_cmd) [
    | none ↦ done c
    | some idx ↦ do left ← apply_tombstone_command_unlocked command c; settle left
  ]
]

abbrev pub complete_change : CompletionChange → Cache → Run Cache
complete_change change c = apply_completed_locked change.id change.end change.exit c

unfoldable pub apply_batch : ChangeSet → Cache → Run Cache
apply_batch cs c = do
  created ← each apply_created_locked cs.created c
  completed ← each complete_change cs.completed created
  tombstoned ← each tombstone_id cs.tombstoned completed
  left ← each apply_tombstone_command_unlocked cs.commands tombstoned
  settle left

unfoldable pub mark_dirty : Cache → Cache
mark_dirty c = record c { dirty = true }

unfoldable pub compact : Cache → Cache
compact c = compact_pool_locked c

-- From the live rows of the table, or from the error that reading them ended with. An error leaves
-- the cache as it is.
unfoldable pub rebuild : Result (List Entry) → Cache → Run Cache
rebuild (err e) c = done c
rebuild (ok rows) c = do next ← each apply_created_locked rows new_cache; resort_locked next

pub data Operation : Type 0 where
  created : Entry → Operation
  completed : String → ℤ → ℤ → Operation
  tombstoned : List String → Operation
  tombstoned_command : String → Operation
  batch : ChangeSet → Operation
  marked_dirty : Operation
  compacted : Operation
  rebuilt : Result (List Entry) → Operation

unfoldable pub perform : Operation → Cache → Run Cache
perform (created e) c = apply_created e c
perform (completed id end_ms exit) c = apply_completed id end_ms exit c
perform (tombstoned ids) c = apply_tombstoned ids c
perform (tombstoned_command command) c = apply_tombstone_command command c
perform (batch cs) c = apply_batch cs c
perform marked_dirty c = done (mark_dirty c)
perform compacted c = done (compact c)
perform (rebuilt rows) c = rebuild rows c
