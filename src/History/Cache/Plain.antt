-- ===== src/History/Cache/Plain.antt =====
-- What internal/history/cache.go promises: for each command its last run and the number of its
-- entries, and for each entry its command, with no pool, places or order.
use remnix.Prelude.{
  String, ℕ, Bool, true, false, ◌||◌, List, [], ◌∷◌, Option, none, some, ◌==◌, if◌then◌else◌, leb,
  ◌+◌, ◌-◌,
}
use remnix.Prelude.Int.{ℤ, leb_ℤ}
use remnix.Prelude.Result.{ok, err}
use remnix.History.Entry.{Entry, ChangeSet, CompletionChange}
use remnix.History.Cache.{duration_ms_of, complete_duration_ms, exit_of, int32}
use remnix.History.Cache.Methods.{
  Operation, created, completed, tombstoned, tombstoned_command, batch, marked_dirty, compacted,
  rebuilt,
}

pub record Row : Type 0 where
  pub cwd : String
  pub device : String
  pub session : String
  pub last_start : ℤ
  pub last_duration_ms : ℤ
  pub last_exit : ℤ
  pub freq : ℕ

pub record Plain : Type 0 where
  pub rows : String → Option Row
  pub owner : String → Option String
  pub dirty : Bool

abbrev pub new_plain : Plain
new_plain = record { rows = λ q. none; owner = λ id. none; dirty = false }

abbrev pub update {ℓ} : {B : Type ℓ} → String → B → (String → B) → String → B
update k v f q = if k == q then v else f q

abbrev pub row_of_entry : Entry → ℕ → Row
row_of_entry e count = record {
  cwd = e.cwd;
  device = e.device_id;
  session = e.session_id;
  last_start = e.start_ts;
  last_duration_ms = duration_ms_of e;
  last_exit = exit_of e;
  freq = count;
}

abbrev pub count_run : Entry → Option Row → Row
count_run e none = row_of_entry e 1
count_run e (some r) =
    if leb_ℤ r.last_start e.start_ts
    then row_of_entry e (r.freq + 1)
    else record r { freq = r.freq + 1 }

-- An entry counts for its command, and gives the last run unless it started earlier.
unfoldable pub plain_created : Entry → Plain → Plain
plain_created e m = if e.deleted || e.command == "" then m else record m {
  rows = update e.command (some (count_run e (m.rows e.command))) m.rows;
  owner = update e.id (some e.command) m.owner;
}

abbrev pub finish_run : ℤ → ℤ → Option Row → Option Row
finish_run end_ms exit none = none
finish_run end_ms exit (some r) = some (record r {
  last_exit = int32 exit;
  last_duration_ms = complete_duration_ms r.last_start end_ms;
})

unfoldable pub plain_completed : String → ℤ → ℤ → Plain → Plain
plain_completed id end_ms exit m = elim (m.owner id) [
  | none ↦ m
  | some command ↦ record m {
    rows = update command (finish_run end_ms exit (m.rows command)) m.rows;
  }
]

-- A command whose last entry goes is gone.
abbrev pub lessen : Option Row → Option Row
lessen none = none
lessen (some r) = if leb (r.freq - 1) 0 then none else some (record r { freq = r.freq - 1 })

unfoldable pub plain_tombstoned : String → Plain → Plain
plain_tombstoned id m = elim (m.owner id) [
  | none ↦ record m { dirty = true }
  | some command ↦ record m {
    rows = update command (lessen (m.rows command)) m.rows;
    owner = update id none m.owner;
  }
]

abbrev pub unless_of : String → Option String → Option String
unless_of command none = none
unless_of command (some owned) = if owned == command then none else some owned

unfoldable pub plain_tombstoned_command : String → Plain → Plain
plain_tombstoned_command command m = record m {
  rows = update command none m.rows;
  owner = λ id. unless_of command (m.owner id);
}

abbrev pub plain_each {ℓ} : {A : Type ℓ} → (A → Plain → Plain) → List A → Plain → Plain
plain_each body [] m = m
plain_each body (x ∷ xs) m = plain_each body xs (body x m)

abbrev pub plain_completion : CompletionChange → Plain → Plain
plain_completion change m = plain_completed change.id change.end change.exit m

unfoldable pub plain_batch : ChangeSet → Plain → Plain
plain_batch cs m = plain_each plain_tombstoned_command cs.commands (
    plain_each plain_tombstoned cs.tombstoned
      (plain_each plain_completion cs.completed (plain_each plain_created cs.created m)))

-- Compaction and a failed rebuild change nothing.
unfoldable pub plain_perform : Operation → Plain → Plain
plain_perform (created e) m = plain_created e m
plain_perform (completed id end_ms exit) m = plain_completed id end_ms exit m
plain_perform (tombstoned ids) m = plain_each plain_tombstoned ids m
plain_perform (tombstoned_command command) m = plain_tombstoned_command command m
plain_perform (batch cs) m = plain_batch cs m
plain_perform marked_dirty m = record m { dirty = true }
plain_perform compacted m = m
plain_perform (rebuilt (err e)) m = m
plain_perform (rebuilt (ok rows)) m = plain_each plain_created rows new_plain
