-- ===== src/Sync/Events.antt =====
-- internal/sync/event/store.go: the `sync_events` table.
pub mod Known
pub mod Range
use remnix.Prelude.{
  String, ℕ, zero, suc, Bool, true, false, not, ◌&&◌, ◌||◌, List, [], ◌∷◌, ◌++◌, Option, none, some,
  map, ◌==◌, if◌then◌else◌, arith, ◌≡◌, refl, sym, ap, ◌∙◌, subst, Bool-cases, Option-cases, inl,
  inr, eq_iff, In, ◌⊎◌, ◌↔◌, ◌≢◌, All, length, ltb, leb, eqb, ◌+◌, ◌-◌, ◌≤◌, ◌<◌,
}
use remnix.Prelude.Int.{ℤ, pos, leb_ℤ, ltb_ℤ, ◌+ℤ◌, add64}
use remnix.Prelude.Dict.{lookup}
use remnix.Prelude.Result.{Result, ok, err, failed, ◌>>=◌}
use remnix.Sync.Transport.{Bytes}
use remnix.Sync.Frontier.{Frontier, at, or_zero}
use remnix.Sync.Db.{Db, EventRow, Env, is_event}
use remnix.Sync.Event.{Event, Cbor, encode, type_history_created, type_history_tombstoned}

-- `SELECT COUNT(*) … WHERE device_id = ? AND seq = ?`, tested against zero.
unfoldable pub exists_row : String → ℤ → List EventRow → Bool
unfolding is_event
exists_row device_id seq [] = false
exists_row device_id seq (r ∷ rows) = is_event device_id seq r || exists_row device_id seq rows

-- `SELECT MAX(seq) … WHERE device_id = ?`
unfoldable pub max_seq : String → List EventRow → Option ℤ
max_seq device_id [] = none
max_seq device_id (r ∷ rows) =
    let rest = max_seq device_id rows in
    if r.device_id == device_id
    then elim rest [ none ↦ some r.seq | some m ↦ some (if ltb_ℤ m r.seq then r.seq else m) ]
    else rest

-- One `if v.Valid && v.Int64 > n { n = v.Int64 }`
abbrev pub raise_to : Option ℤ → ℤ → ℤ
raise_to none n = n
raise_to (some v) n = if ltb_ℤ n v then v else n

abbrev or_zero_seq : Option ℤ → ℤ
or_zero_seq none = pos 0
or_zero_seq (some m) = m

-- The number `n` of `NextSeq`: the largest one in use.
unfoldable pub last_seq : Db → String → ℤ
unfolding max_seq
last_seq db device_id =
    raise_to (lookup device_id db.heads) (or_zero_seq (max_seq device_id db.events))

-- `NextSeq`
unfoldable pub next_seq : Db → String → ℤ
unfolding last_seq
next_seq db device_id = add64 (last_seq db device_id) (pos 1)

-- `historyIDOf`: an event whose payload cannot be decoded has no id.
unfoldable pub history_id_of : Cbor → Event → String
history_id_of c ev =
    if ev.type == type_history_created
    then elim (c.unmarshal_created ev.payload) [ ok p ↦ p.id | err e ↦ "" ]
    else if ev.type == type_history_tombstoned
    then elim (c.unmarshal_tombstoned ev.payload) [ ok p ↦ p.history_id | err e ↦ "" ]
    else ""

-- History events are stored without their payload: it is rebuilt from the `history` table.
unfoldable pub stored_payload : Cbor → Event → Result Bytes
stored_payload c ev =
    if not (ev.type == type_history_created) && not (ev.type == type_history_tombstoned)
    then encode c ev
    else ok ""

abbrev pub row_of : Cbor → Event → Bytes → EventRow
row_of c ev payload = record {
  device_id = ev.device_id;
  seq = ev.seq;
  event_type = ev.type;
  history_id = history_id_of c ev;
  payload = payload;
  applied = false;
  created_at = ev.time_unix;
}

-- `AppendExec`: the primary key refuses a second row.
unfoldable pub append : Cbor → Event → List EventRow → Result (List EventRow)
unfolding exists_row stored_payload
append c ev rows = do
  payload ← stored_payload c ev
  if exists_row ev.device_id ev.seq rows
      then err (failed "append event")
      else ok (rows ++ row_of c ev payload ∷ [])

-- `MarkAppliedTx`
unfoldable pub mark_applied : String → ℤ → List EventRow → List EventRow
unfolding is_event
mark_applied device_id seq [] = []
mark_applied device_id seq (r ∷ rows) =
    (if is_event device_id seq r then record r { applied = true } else r)
    ∷ mark_applied device_id seq rows

-- `CompactUpToHeads`: applied creations up to the head of their device go.
unfoldable pub is_compactable : Frontier → EventRow → Bool
is_compactable heads r =
    r.event_type == type_history_created && r.applied && leb_ℤ r.seq (at heads r.device_id)

unfoldable pub compact_rows : Frontier → List EventRow → List EventRow
unfolding is_compactable
compact_rows heads [] = []
compact_rows heads (r ∷ rows) =
    let rest = compact_rows heads rows in if is_compactable heads r then rest else r ∷ rest

unfoldable pub compact_up_to_heads : Db → Db
unfolding compact_rows
compact_up_to_heads db = record db { events = compact_rows db.heads db.events }

-- `CompactCreated`
unfoldable pub compact_created : String → ℤ → List EventRow → List EventRow
compact_created device_id through_seq [] = []
compact_created device_id through_seq (r ∷ rows) =
    let rest = compact_created device_id through_seq rows in
    if r.device_id == device_id
      && leb_ℤ r.seq through_seq
      && r.event_type == type_history_created
      && r.applied
    then rest
    else r ∷ rest
