-- ===== src/History/Entry.antt =====
-- internal/history/entry.go and changes.go. Times are milliseconds since the epoch, as the database
-- stores them; the zero time of `CreatedAt` is `none`.
use remnix.Prelude.{String, Bool, true, false, ◌&&◌, List, [], ◌∷◌, ◌++◌, Option}
use remnix.Prelude.Int.{ℤ}

pub record Entry : Type 0 where
  pub id : String
  pub command : String
  pub start_ts : ℤ
  pub end_ts : Option ℤ
  pub duration_ms : Option ℤ
  pub exit_status : Option ℤ
  pub cwd : String
  pub session_id : String
  pub hostname : String
  pub device_id : String
  pub shell : String
  pub deleted : Bool
  pub origin_device_id : String
  pub origin_seq : Option ℤ
  pub created_at : Option ℤ

pub record CompletionChange : Type 0 where
  pub id : String
  pub end : ℤ
  pub exit : ℤ

pub record ChangeSet : Type 0 where
  pub created : List Entry
  pub completed : List CompletionChange
  pub tombstoned : List String
  pub commands : List String

abbrev pub no_changes : ChangeSet
no_changes = record { created = []; completed = []; tombstoned = []; commands = [] }

unfoldable pub add_created : ChangeSet → Entry → ChangeSet
add_created c e = record c { created = c.created ++ e ∷ [] }

unfoldable pub add_completed : ChangeSet → CompletionChange → ChangeSet
add_completed c d = record c { completed = c.completed ++ d ∷ [] }

unfoldable pub add_tombstoned : ChangeSet → List String → ChangeSet
add_tombstoned c ids = record c { tombstoned = c.tombstoned ++ ids }

unfoldable pub merge : ChangeSet → ChangeSet → ChangeSet
merge c other = record {
  created = c.created ++ other.created;
  completed = c.completed ++ other.completed;
  tombstoned = c.tombstoned ++ other.tombstoned;
  commands = c.commands ++ other.commands;
}

is_nil {ℓ} : {A : Type ℓ} → List A → Bool
is_nil [] = true
is_nil (x ∷ xs) = false

unfoldable pub empty : ChangeSet → Bool
unfolding is_nil
empty c = is_nil c.created && is_nil c.completed && is_nil c.tombstoned && is_nil c.commands
