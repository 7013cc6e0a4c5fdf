-- ===== src/Sync/Merge/Converge.antt =====
-- A creation and its deletion, in either order (internal/sync/merge/apply.go).
use remnix.Sync.Merge.Live.{
  survivors-snoc_id, live-bury_none, live-snoc_deleted, by_origin-snoc, conflict_id, live-bury_some,
  survivors, live, conflict_deleted, has_id,
}
use remnix.Prelude.{
  Bool-cases, ap, inr, inl, Option-cases, String, true, false, [], ◌∷◌, ◌++◌, none, some, ◌==◌,
  arith, ◌≡◌, refl, eq_iff, ◌∙◌,
}
use remnix.Sync.Merge.{entry_of, placeholder, delete_origin, bury, create}
use remnix.Sync.Db.{Env}
use remnix.Sync.Event.{HistoryCreated, Event, HistoryTombstoned}
use remnix.Prelude.Int.{◌<ℤ◌, pos, ℤ}
use remnix.History.Entry.{Entry}
use remnix.History.Table.{
  insert_added, insert_ignored, stamped, Table, has_origin, by_origin, tombstone,
  tombstone_by_origin, conflicts_any,
}

-- The tombstone of a created entry, by its id and by its origin.
abbrev pub deletion_of : Event → HistoryCreated → HistoryTombstoned
deletion_of ev c = record {
  history_id = c.id;
  origin_device_id = ev.device_id;
  origin_seq = ev.seq;
}

-- A created entry has an id, a device and a positive number.
pub record IsCreation (ev : Event) (c : HistoryCreated) : Type 0 where
  pub id_present : (c.id == "") ≡ false
  pub device_present : (ev.device_id == "") ≡ false
  pub positive : pos 0 <ℤ ev.seq

by_origin-tombstoned :
    (device : String) (seq : ℤ) (rows : Table) (old : Entry)
    → by_origin device seq rows ≡ some old
    → by_origin device seq (tombstone_by_origin device seq rows) ≡ none
    → ⊥
unfolding by_origin tombstone_by_origin
by_origin-tombstoned device seq [] old h n = cc
by_origin-tombstoned device seq (r ∷ rows) old h n =
    ground (arith, by_origin-tombstoned device seq rows old)

module _ (env : Env) (ev : Event) (c : HistoryCreated) where
  create_unchanged :
      (rows : Table)
      → (by_origin ev.device_id ev.seq rows ≡ none → has_id c.id rows ≡ true)
      → (create env ev c rows).0 ≡ rows
  unfolding create
  create_unchanged rows h = elim (Option-cases (by_origin ev.device_id ev.seq rows)) [
    | inl e ↦
        rw (e, create)
          (ap (λ r. r.0)
            (insert_ignored env.hash_command env.now (entry_of ev c) rows
              (conflict_id env.hash_command (stamped env.now (entry_of ev c)) rows (h e))))
    | inr (old, e) ↦ rw (e, create)
  ]

  bury-delete_origin :
      (rows : Table)
      → IsCreation ev c
      → (bury env (deletion_of ev c) rows).0
        ≡ (delete_origin env (deletion_of ev c) (tombstone c.id rows)).0
  unfolding bury
  bury-delete_origin rows w = rw (w.id_present, w.device_present) (ground arith)

  -- The row that the tombstone leaves where the entry is not there yet.
  abbrev mark : Entry
  mark = stamped env.now (placeholder c.id ev.device_id ev.seq)

  -- What the tombstone leaves: the entry's row marked, a placeholder, or, where that met a row with
  -- the id of the entry, nothing.
  data Buried (rows after : Table) : Type 0 where
    marked :
        (old : Entry)
        → by_origin ev.device_id ev.seq rows ≡ some old
        → after ≡ tombstone_by_origin ev.device_id ev.seq rows
        → Buried rows after
    placed :
        by_origin ev.device_id ev.seq rows ≡ none → after ≡ rows ++ mark ∷ [] → Buried rows after
    ignored :
        by_origin ev.device_id ev.seq rows ≡ none
        → has_id c.id rows ≡ true
        → after ≡ rows
        → Buried rows after

  mark_origin : IsCreation ev c → has_origin ev.device_id (some ev.seq) mark ≡ true
  unfolding placeholder has_origin
  mark_origin w = ground (arith, eq_iff ev.device_id ev.device_id)

  delete_origin-Buried :
      (rows : Table) → IsCreation ev c → Buried rows (delete_origin env (deletion_of ev c) rows).0
  unfolding delete_origin
  delete_origin-Buried rows w = elim (Option-cases (by_origin ev.device_id ev.seq rows)) [
    | inr (old, e) ↦ marked old e (rw (e, delete_origin))
    | inl e ↦ elim (Bool-cases (conflicts_any env.hash_command mark rows)) [
      | inl k ↦
          ignored e
            (conflict_deleted env.hash_command mark ev.device_id ev.seq rows refl refl refl e k)
            (rw (e, delete_origin)
              (rw w.id_present (
                ap (λ r. r.0)
                  (insert_ignored env.hash_command env.now (placeholder c.id ev.device_id ev.seq)
                    rows k))))
      | inr k ↦ placed e (
          rw (e, delete_origin)
            (rw w.id_present (
              ap (λ r. r.0)
                (insert_added env.hash_command env.now (placeholder c.id ev.device_id ev.seq) rows
                  k))))
    ]
  ]

  -- After its tombstone, a creation changes nothing.
  pub create-bury :
      (rows : Table)
      → IsCreation ev c
      → (create env ev c (bury env (deletion_of ev c) rows).0).0
        ≡ (bury env (deletion_of ev c) rows).0
  create-bury rows w =
      create_unchanged _ (rw (bury-delete_origin rows w) (arrived (delete_origin-Buried _ w)))
    where
      arrived :
          {before after : Table}
          → Buried before after
          → by_origin ev.device_id ev.seq after ≡ none
          → has_id c.id after ≡ true
      arrived {before} (marked old e q) n =
          absurd (by_origin-tombstoned ev.device_id ev.seq before old e (rw q at n))
      arrived {before} (placed e q) n =
          absurd (by_origin-snoc ev.device_id ev.seq before mark (mark_origin w) (rw q at n))
      arrived (ignored e i q) n = rw q i

  live-bury :
      (rows : Table)
      → IsCreation ev c
      → live (bury env (deletion_of ev c) rows).0 ≡ survivors c.id ev.device_id ev.seq rows
  live-bury rows w =
      rw (bury-delete_origin rows w) (seen (delete_origin-Buried (tombstone c.id rows) w))
    where
      seen :
          {after : Table}
          → Buried (tombstone c.id rows) after
          → live after ≡ survivors c.id ev.device_id ev.seq rows
      seen (marked old e q) = rw q (live-bury_some c.id ev.device_id ev.seq rows)
      seen (placed e q) = rw q (
          live-snoc_deleted (tombstone c.id rows) mark (unfold placeholder in refl)
          ∙ live-bury_none c.id ev.device_id ev.seq rows e)
      seen (ignored e i q) = rw q (live-bury_none c.id ev.device_id ev.seq rows e)

  survivors-create :
      (rows : Table)
      → survivors c.id ev.device_id ev.seq (create env ev c rows).0
        ≡ survivors c.id ev.device_id ev.seq rows
  unfolding create
  survivors-create rows = elim (Option-cases (by_origin ev.device_id ev.seq rows)) [
    | inr (old, e) ↦ rw (e, create)
    | inl e ↦
        rw (e, create)
          (elim (Bool-cases
            (conflicts_any env.hash_command (stamped env.now (entry_of ev c)) rows)) [
              | inl k ↦ rw (insert_ignored env.hash_command env.now (entry_of ev c) rows k)
              | inr k ↦ rw (insert_added env.hash_command env.now (entry_of ev c) rows k) (
                  survivors-snoc_id c.id ev.device_id ev.seq rows (stamped env.now (entry_of ev c))
                    refl)
            ])
  ]

  -- A creation and its tombstone leave the same live rows in either order: those that were live before,
  -- but for the rows with the id or the origin of the deleted entry. In particular the entry is gone,
  -- also when the tombstone comes first.
  pub create-bury_converge :
      (rows : Table)
      → IsCreation ev c
      → (live (bury env (deletion_of ev c) (create env ev c rows).0).0
          ≡ survivors c.id ev.device_id ev.seq rows)
        × (live (create env ev c (bury env (deletion_of ev c) rows).0).0
            ≡ survivors c.id ev.device_id ev.seq rows)
  create-bury_converge rows w = (
    live-bury (create env ev c rows).0 w ∙ survivors-create rows,
    ap live (create-bury rows w) ∙ live-bury rows w,
  )
