-- ===== src/History/Table.antt =====
-- The `history` table and the statements of internal/history/store.go on it. The unique indexes are
-- those that internal/db/migrate_hooks.go leaves: a row has its own id; its own origin, where it has
-- one; and, while it is live and has a directory, its own command hash, start, directory and device.
use remnix.Prelude.{
  ◌≡◌, String, Bool, true, false, not, ◌&&◌, ◌||◌, List, [], ◌∷◌, ◌++◌, Option, none, some, ◌==◌,
  if◌then◌else◌,
}
use remnix.Prelude.Int.{ℤ, eqb_ℤ, leb_ℤ, ◌-ℤ◌}
use remnix.Sync.Transport.{Bytes}
use remnix.History.Entry.{Entry}

abbrev pub Table : Type 0
Table = List Entry

abbrev pub same_seq : Option ℤ → Option ℤ → Bool
same_seq none s = false
same_seq (some r) none = false
same_seq (some r) (some s) = eqb_ℤ r s

-- `origin_device_id = ? AND origin_seq = ?`; an empty device is NULL, which equals nothing.
unfoldable pub has_origin : String → Option ℤ → Entry → Bool
has_origin device seq e =
    not (device == "") && e.origin_device_id == device && same_seq e.origin_seq seq

-- `WHERE origin_device_id = ? AND origin_seq = ?`
unfoldable pub by_origin : String → ℤ → Table → Option Entry
unfolding has_origin
by_origin device seq [] = none
by_origin device seq (e ∷ rows) =
    if has_origin device (some seq) e then some e else by_origin device seq rows

-- `WHERE h.id = ?`
unfoldable pub get : String → Table → Option Entry
get id [] = none
get id (e ∷ rows) = if e.id == id then some e else get id rows

-- `WHERE h.origin_device_id = ? AND h.origin_seq >= ? AND h.origin_seq <= ?`, before the sorting.
abbrev seq_between : ℤ → ℤ → Option ℤ → Bool
seq_between start end none = false
seq_between start end (some s) = leb_ℤ start s && leb_ℤ s end

unfoldable pub by_origin_range : String → ℤ → ℤ → Table → List Entry
by_origin_range device start end [] = []
by_origin_range device start end (e ∷ rows) =
    let rest = by_origin_range device start end rows in
    if not (device == "") && e.origin_device_id == device && seq_between start end e.origin_seq
    then e ∷ rest
    else rest

-- `UPDATE history SET deleted = 1 WHERE id = ?`
unfoldable pub tombstone : String → Table → Table
tombstone id [] = []
tombstone id (e ∷ rows) =
    (if e.id == id then record e { deleted = true } else e) ∷ tombstone id rows

-- `UPDATE history SET deleted = 1 WHERE origin_device_id = ? AND origin_seq = ?`
unfoldable pub tombstone_by_origin : String → ℤ → Table → Table
unfolding has_origin
tombstone_by_origin device seq [] = []
tombstone_by_origin device seq (e ∷ rows) =
    (if has_origin device (some seq) e then record e { deleted = true } else e)
    ∷ tombstone_by_origin device seq rows

-- The `UPDATE` of `Complete`: `start_ts` is never NULL.
unfoldable pub complete : String → ℤ → ℤ → Table → Table
complete id end exit_status [] = []
complete id end exit_status (e ∷ rows) =
    (if e.id == id
      then record e {
        end_ts = some end;
        exit_status = some exit_status;
        duration_ms = some (end -ℤ e.start_ts);
      }
      else e)
    ∷ complete id end exit_status rows

-- `time.Now()` where `CreatedAt` is the zero time.
abbrev pub or_now : Option ℤ → ℤ → Option ℤ
or_now none now = some now
or_now (some t) now = some t

-- The entry that `InsertExec` writes.
abbrev pub stamped : ℤ → Entry → Entry
stamped now e = record e { created_at = or_now e.created_at now }

module _ (hash_command : String → Bytes) where
  -- Two rows that one unique index forbids to stand together.
  unfoldable pub conflicts : Entry → Entry → Bool
  unfolding has_origin
  conflicts new old =
      old.id == new.id
      || has_origin new.origin_device_id new.origin_seq old
      || (not new.deleted
          && not old.deleted
          && hash_command old.command == hash_command new.command
          && eqb_ℤ old.start_ts new.start_ts
          && not (new.cwd == "")
          && old.cwd == new.cwd
          && old.device_id == new.device_id)

  unfoldable pub conflicts_any : Entry → Table → Bool
  unfolding conflicts
  conflicts_any new [] = false
  conflicts_any new (old ∷ rows) = conflicts new old || conflicts_any new rows

  -- `InsertExec`: `INSERT OR IGNORE`, and whether a row was added. The statement itself is assumed
  -- not to fail.
  unfoldable pub insert : ℤ → Entry → Table → Table × Bool
  unfolding conflicts_any
  insert now e rows =
      if conflicts_any (stamped now e) rows
      then (rows, false)
      else (rows ++ stamped now e ∷ [], true)

  pub insert_ignored :
      (now : ℤ) (e : Entry) (rows : Table)
      → conflicts_any (stamped now e) rows ≡ true
      → insert now e rows ≡ (rows, false)
  unfolding insert
  insert_ignored now e rows h = rw h

  pub insert_added :
      (now : ℤ) (e : Entry) (rows : Table)
      → conflicts_any (stamped now e) rows ≡ false
      → insert now e rows ≡ (rows ++ stamped now e ∷ [], true)
  unfolding insert
  insert_added now e rows h = rw h
