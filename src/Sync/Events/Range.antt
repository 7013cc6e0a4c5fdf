-- ===== src/Sync/Events/Range.antt =====
-- internal/sync/event/store.go: events are read back from their rows, and from the `history` table
-- where a row has lost its payload or is gone.
use remnix.Prelude.{
  String, Bool, false, not, ◌&&◌, ◌||◌, List, [], ◌∷◌, Option, none, some, map, ◌==◌, if◌then◌else◌,
}
use remnix.Prelude.Int.{ℤ, pos, leb_ℤ, ltb_ℤ, eqb_ℤ}
use remnix.Prelude.Result.{Result, ok, err, failed, ◌>>=◌}
use remnix.History.Entry.{Entry}
use remnix.History.Table
use remnix.Sync.Db.{Db, Env, EventRow, is_event}
use remnix.Sync.Event.{
  Event, HistoryTombstoned, decode, new_history_created, new_history_tombstoned,
  type_history_created, type_history_tombstoned,
}

abbrev created_ms : Entry → ℤ
created_ms e = elim e.created_at [ none ↦ pos 0 | some t ↦ t ]

abbrev or_else : Option Entry → Option Entry → Option Entry
or_else none o = o
or_else (some e) o = some e

module _ (env : Env) where
  -- `rebuildCreated`; no entry is the zero event.
  unfoldable pub rebuild_created : String → ℤ → String → List Entry → Result (Option Event)
  rebuild_created device_id seq history_id history =
      let by_id = if history_id == "" then none else Table.get history_id history in
      elim (or_else by_id (Table.by_origin device_id seq history)) [
        | none ↦ ok none
        | some e ↦ (do
          ev ← new_history_created env.cbor device_id seq e env.now
          ok (some (record ev { time_unix = created_ms e })))
      ]

  abbrev origin_seq_of : Entry → ℤ
  origin_seq_of e = elim e.origin_seq [ none ↦ pos 0 | some s ↦ s ]

  -- The payload of `rebuildTombstone`.
  unfoldable pub tombstone_payload : String → Option Entry → HistoryTombstoned
  tombstone_payload history_id none = record {
    history_id = history_id;
    origin_device_id = "";
    origin_seq = pos 0;
  }
  tombstone_payload history_id (some e) = record {
    history_id = if history_id == "" then e.id else history_id;
    origin_device_id = e.origin_device_id;
    origin_seq = origin_seq_of e;
  }

  unfoldable pub rebuild_tombstone : String → ℤ → String → ℤ → List Entry → Result Event
  unfolding tombstone_payload
  rebuild_tombstone device_id seq history_id created_at history = do
    ev ←
        new_history_tombstoned env.cbor device_id seq
          (tombstone_payload history_id (Table.get history_id history)) env.now
    ok (if eqb_ℤ created_at (pos 0) then ev else record ev { time_unix = created_at })

  -- The zero event, which `rebuildCreated` returns for a missing entry.
  abbrev pub zero_event : Event
  zero_event = record {
    version = pos 0;
    type = "";
    device_id = "";
    seq = pos 0;
    time_unix = pos 0;
    payload = "";
  }

  abbrev or_zero_event : Option Event → Event
  or_zero_event none = zero_event
  or_zero_event (some ev) = ev

  -- `hydrate`
  unfoldable pub hydrate : List Entry → EventRow → Result Event
  unfolding rebuild_created rebuild_tombstone
  hydrate history r =
      if not (r.payload == "")
      then decode env.cbor r.payload
      else if r.event_type == type_history_created
      then (do
        found ← rebuild_created r.device_id r.seq r.history_id history
        let ev = or_zero_event found
        ok (if eqb_ℤ r.created_at (pos 0) then ev else record ev { time_unix = r.created_at }))
      else if r.event_type == type_history_tombstoned
      then rebuild_tombstone r.device_id r.seq r.history_id r.created_at history
      else err (failed "missing payload")

  unfoldable pub find_row : String → ℤ → List EventRow → Option EventRow
  find_row device_id seq [] = none
  find_row device_id seq (r ∷ rows) =
      if is_event device_id seq r then some r else find_row device_id seq rows

  -- `Get`: `none` where there is no event.
  unfoldable pub get : Db → String → ℤ → Result (Option Event)
  unfolding hydrate find_row
  get db device_id seq = elim (find_row device_id seq db.events) [
    | some r ↦ (do ev ← hydrate db.history r; ok (some ev))
    | none ↦ rebuild_created device_id seq "" db.history
  ]

  -- `bySeq[ev.Seq] = ev`
  unfoldable pub put_seq : ℤ → Event → List (ℤ × Event) → List (ℤ × Event)
  put_seq seq ev [] = (seq, ev) ∷ []
  put_seq seq ev ((s, old) ∷ m) = if eqb_ℤ s seq then (seq, ev) ∷ m else (s, old) ∷ put_seq seq ev m

  unfoldable pub has_seq : ℤ → List (ℤ × Event) → Bool
  has_seq seq [] = false
  has_seq seq ((s, ev) ∷ m) = eqb_ℤ s seq || has_seq seq m

  -- The rows of the query, hydrated into `bySeq`.
  unfoldable pub stored_range :
      List Entry → String → ℤ → ℤ → List EventRow → List (ℤ × Event) → Result (List (ℤ × Event))
  unfolding put_seq
  stored_range history device_id start end [] by_seq = ok by_seq
  stored_range history device_id start end (r ∷ rows) by_seq =
      let skip = stored_range history device_id start end rows by_seq in
      let take = (do
        ev ← hydrate history r
        stored_range history device_id start end rows (put_seq ev.seq ev by_seq)) in
      if r.device_id == device_id && leb_ℤ start r.seq && leb_ℤ r.seq end then take else skip

  -- The loop over the entries of `ListByOriginRange`: a stored event wins.
  unfoldable pub add_rebuilt : String → List Entry → List (ℤ × Event) → Result (List (ℤ × Event))
  unfolding put_seq has_seq
  add_rebuilt device_id [] by_seq = ok by_seq
  add_rebuilt device_id (e ∷ entries) by_seq =
      let skip = add_rebuilt device_id entries by_seq in
      elim e.origin_seq [
        | none ↦ skip
        | some seq ↦
            let add = (do
              ev ← new_history_created env.cbor device_id seq e env.now
              add_rebuilt device_id entries
                  (put_seq seq (record ev { time_unix = created_ms e }) by_seq)) in
            if has_seq seq by_seq then skip else add
      ]

  -- `sort.Slice` by number; the numbers are distinct.
  insert_seq : ℤ × Event → List (ℤ × Event) → List (ℤ × Event)
  insert_seq p [] = p ∷ []
  insert_seq p (q ∷ qs) = if ltb_ℤ q.0 p.0 then q ∷ insert_seq p qs else p ∷ q ∷ qs

  unfoldable pub sort_seq : List (ℤ × Event) → List (ℤ × Event)
  unfolding insert_seq
  sort_seq [] = []
  sort_seq (p ∷ ps) = insert_seq p (sort_seq ps)

  unfoldable pub range : Db → String → ℤ → ℤ → Result (List Event)
  unfolding stored_range add_rebuilt sort_seq
  range db device_id start end = do
    stored ← stored_range db.history device_id start end db.events []
    all ← add_rebuilt device_id (Table.by_origin_range device_id start end db.history) stored
    ok (map (λ p. p.1) (sort_seq all))
