-- ===== src/Sync/Engine/Replay.antt =====
-- `applyEvents` of internal/sync/syncer/engine.go: a bundle that has been applied changes nothing when
-- it comes again, not even after the event log has been compacted.
use remnix.Prelude.{
  All-map, String, true, ◌&&◌, ◌||◌, List, [], ◌∷◌, ◌++◌, ◌==◌, arith, ◌≡◌, refl, ◌∙◌, subst,
  Bool-cases, inl, inr, eq_iff, ◌⊎◌, All,
}
use remnix.Prelude.Int.{eqb_ℤ, ℤ, ◌≤ℤ◌}
use remnix.Prelude.Result.{ok, >>=-eq-ok}
use remnix.History.Entry.{ChangeSet, no_changes}
use remnix.Sync.Transport.{Bytes}
use remnix.Sync.Frontier.{Frontier, at}
use remnix.Sync.Db.{Db, Env, EventRow, is_event}
use remnix.Sync.Event.{Event}
use remnix.Sync.Events.{
  exists_row, append, mark_applied, compact_up_to_heads, row_of, stored_payload,
}
use remnix.Sync.Events.Known.{Known, compact_up_to_heads-Known}
use remnix.Sync.Merge.{apply_tracked}
use remnix.Sync.Engine.{apply_new, is_known, apply_events}

exists_row-mark_applied :
    (device_id : String) (seq : ℤ) (d : String) (n : ℤ) (rows : List EventRow)
    → exists_row d n (mark_applied device_id seq rows) ≡ exists_row d n rows
unfolding exists_row mark_applied
exists_row-mark_applied device_id seq d n [] = refl
exists_row-mark_applied device_id seq d n (r ∷ rows) =
    ground (arith, exists_row-mark_applied device_id seq d n rows)

exists_row-snoc :
    (d : String) (n : ℤ) (rows : List EventRow) (r : EventRow)
    → exists_row d n (rows ++ r ∷ []) ≡ (exists_row d n rows || is_event d n r)
unfolding exists_row
exists_row-snoc d n [] r = ground arith
exists_row-snoc d n (q ∷ rows) r = ground (arith, exists_row-snoc d n rows r)

is_known-eq-Known : (db : Db) (ev : Event) → is_known db ev ≡ true → Known db ev.device_id ev.seq
unfolding is_known
is_known-eq-Known db ev h = ground arith

is_known_of_Known : (db : Db) (ev : Event) → Known db ev.device_id ev.seq → is_known db ev ≡ true
unfolding is_known
is_known_of_Known db ev h = ground arith

module _ (env : Env) where
  -- `ApplyTracked` leaves the event log and the heads alone.
  apply_tracked_log :
      (ev : Event) (db : Db) (r : Db × ChangeSet)
      → apply_tracked env ev db ≡ ok r
      → (r.0.events ≡ db.events) × (r.0.heads ≡ db.heads)
  unfolding apply_tracked
  apply_tracked_log ev db r h = ground arith

  append_row :
      (ev : Event) (rows after : List EventRow)
      → append env.cbor ev rows ≡ ok after
      → (payload : Bytes) × (after ≡ rows ++ row_of env.cbor ev payload ∷ [])
  unfolding append
  append_row ev rows after h =
      let (payload, e, f) = >>=-eq-ok (stored_payload env.cbor ev) _ h in (payload, ground arith)

  exists_row-append :
      (ev : Event) (rows after : List EventRow) (d : String) (n : ℤ)
      → append env.cbor ev rows ≡ ok after
      → exists_row d n after ≡ (exists_row d n rows || (ev.device_id == d && eqb_ℤ ev.seq n))
  unfolding is_event
  exists_row-append ev rows after d n h =
      let (payload, e) = append_row ev rows after h in
      rw e (exists_row-snoc d n rows (row_of env.cbor ev payload))

  -- What a new event leaves: its row, every row from before, and the heads.
  apply_new_log :
      (ev : Event) (db : Db) (r : Db × ChangeSet)
      → apply_new env ev db ≡ ok r
      → (r.0.heads ≡ db.heads)
        × ((d : String) (n : ℤ)
            → exists_row d n r.0.events
              ≡ (exists_row d n db.events || (ev.device_id == d && eqb_ℤ ev.seq n)))
  unfolding apply_new
  apply_new_log ev db r h =
      let (rows, e, f) = >>=-eq-ok (append env.cbor ev db.events) _ h in
      let (q, e', g) = >>=-eq-ok (apply_tracked env ev (record db { events = rows })) _ f in
      let (same_events, same_heads) = apply_tracked_log ev (record db { events = rows }) q e' in
      let marked : r.0.events ≡ mark_applied ev.device_id ev.seq q.0.events = ground arith in
      let heads : r.0.heads ≡ q.0.heads = ground arith in
      (
        heads ∙ same_heads,
        λ d n.
            rw (marked, same_events)
              (exists_row-mark_applied ev.device_id ev.seq d n rows
                ∙ exists_row-append ev db.events rows d n e),
      )

  apply_new-Known :
      (ev : Event) (db : Db) (r : Db × ChangeSet) (d : String) (n : ℤ)
      → apply_new env ev db ≡ ok r
      → Known db d n
      → Known r.0 d n
  apply_new-Known ev db r d n h (inl k) =
      let (heads, log) = apply_new_log ev db r h in inl (log d n ∙ rw k)
  apply_new-Known ev db r d n h (inr k) =
      let (heads, log) = apply_new_log ev db r h in inr (rw heads k)

  apply_new-Known_self :
      (ev : Event) (db : Db) (r : Db × ChangeSet)
      → apply_new env ev db ≡ ok r
      → Known r.0 ev.device_id ev.seq
  apply_new-Known_self ev db r h =
      let (heads, log) = apply_new_log ev db r h in
      inl (log ev.device_id ev.seq ∙ ground (arith, eq_iff ev.device_id ev.device_id))

  -- Everything known stays known, and each event of the bundle is known afterwards.
  abbrev Covers : List Event → Db → Db → Type 0
  Covers evs db after =
      ((d : String) (n : ℤ) → Known db d n → Known after d n)
      × All (λ ev. Known after ev.device_id ev.seq) evs

  -- An event is skipped, or applied before the rest.
  apply_events-cons :
      (ev : Event) (evs : List Event) (db : Db) (r : Db × ChangeSet)
      → apply_events env (ev ∷ evs) db ≡ ok r
      → ((is_known db ev ≡ true) × (apply_events env evs db ≡ ok r))
        ⊎ ((q : Db × ChangeSet) × (rest : Db × ChangeSet) × (apply_new env ev db ≡ ok q)
            × (apply_events env evs q.0 ≡ ok rest)
            × (rest.0 ≡ r.0))
  unfolding apply_events
  apply_events-cons ev evs db r h = elim (Bool-cases (is_known db ev)) [
    | inl known ↦ inl (known, rw known at h)
    | inr new ↦
        let (q, e, f) = >>=-eq-ok (apply_new env ev db) _ (rw new at h) in
        let (rest, e', g) = >>=-eq-ok (apply_events env evs q.0) _ f in
        inr (q, rest, e, e', ground arith)
  ]

  apply_events-Covers :
      (evs : List Event) (db : Db) (r : Db × ChangeSet)
      → apply_events env evs db ≡ ok r
      → Covers evs db r.0
  apply_events-Covers [] db r h =
      unfold apply_events in
      (let same : db ≡ r.0 = ground arith in (λ d n k. subst (λ x. Known x d n) same k, tt))
  apply_events-Covers (ev ∷ evs) db r h =
      step (apply_events-cons ev evs db r h) (λ db' r' h'. apply_events-Covers evs db' r' h')
    where
      step :
          ((is_known db ev ≡ true) × (apply_events env evs db ≡ ok r))
            ⊎ ((q : Db × ChangeSet) × (rest : Db × ChangeSet) × (apply_new env ev db ≡ ok q)
                × (apply_events env evs q.0 ≡ ok rest)
                × (rest.0 ≡ r.0))
          → ((db' : Db) (r' : Db × ChangeSet)
              → apply_events env evs db' ≡ ok r'
              → Covers evs db' r'.0)
          → Covers (ev ∷ evs) db r.0
      step (inl (known, h')) ih =
          let (mono, all) = ih db r h' in
          (mono, (mono ev.device_id ev.seq (is_known-eq-Known db ev known), all))
      step (inr (q, rest, e, h', same)) ih =
          let (mono, all) = ih q.0 rest h' in
          subst (Covers (ev ∷ evs) db) same (
            λ d n k. mono d n (apply_new-Known ev db q d n e k),
            (mono ev.device_id ev.seq (apply_new-Known_self ev db q e), all),
          )

  apply_events-Known :
      (evs : List Event) (db : Db)
      → All (λ ev. Known db ev.device_id ev.seq) evs
      → apply_events env evs db ≡ ok (db, no_changes)
  unfolding apply_events
  apply_events-Known [] db h = refl
  apply_events-Known (ev ∷ evs) db h =
      rw (is_known_of_Known db ev h.0) (apply_events-Known evs db h.1)

  -- A bundle that has been applied changes nothing, and reports no change, when it is applied again:
  -- not at once, and not after heads have moved up and the event log has been compacted.
  pub apply_events_replay :
      (evs : List Event) (db : Db) (r : Db × ChangeSet) (heads : Frontier)
      → apply_events env evs db ≡ ok r
      → ((id : String) → at r.0.heads id ≤ℤ at heads id)
      → let later = compact_up_to_heads (record r.0 { heads = heads }) in
        (apply_events env evs r.0 ≡ ok (r.0, no_changes))
        × (apply_events env evs later ≡ ok (later, no_changes))
  apply_events_replay evs db r heads h up =
      let known = (apply_events-Covers evs db r h).1 in
      (
        apply_events-Known evs r.0 known,
        apply_events-Known evs _ (All-map _ _ evs (λ ev k. later ev k) known),
      )
    where
      later :
          (ev : Event)
          → Known r.0 ev.device_id ev.seq
          → Known (compact_up_to_heads (record r.0 { heads = heads })) ev.device_id ev.seq
      later ev k =
          compact_up_to_heads-Known (record r.0 { heads = heads }) ev.device_id ev.seq (raised k)
        where
          raised :
              Known r.0 ev.device_id ev.seq
              → Known (record r.0 { heads = heads }) ev.device_id ev.seq
          raised (inl e) = inl e
          raised (inr le) = let le' = up ev.device_id in inr (omega arith)
