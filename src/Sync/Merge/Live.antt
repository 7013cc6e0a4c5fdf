-- ===== src/Sync/Merge/Live.antt =====
-- The rows that a user sees, and the rows that a deletion leaves of them.
use remnix.Prelude.{
  String, Bool, true, false, ◌||◌, List, [], ◌∷◌, ◌++◌, none, some, ◌==◌, if◌then◌else◌, arith, ◌≡◌,
  refl, eq_iff,
}
use remnix.Prelude.Int.{ℤ}
use remnix.History.Entry.{Entry}
use remnix.History.Table.{
  Table, has_origin, by_origin, tombstone, tombstone_by_origin, conflicts_any,
}

-- The rows that a user sees.
unfoldable pub live : Table → List Entry
live [] = []
live (e ∷ rows) = let rest = live rows in if e.deleted then rest else e ∷ rest

-- The live rows but those with the id or the origin of a deleted entry.
unfoldable pub survivors : String → String → ℤ → Table → List Entry
survivors id device seq [] = []
survivors id device seq (e ∷ rows) =
    let rest = survivors id device seq rows in
    if e.deleted || e.id == id || has_origin device (some seq) e then rest else e ∷ rest

unfoldable pub has_id : String → Table → Bool
has_id id [] = false
has_id id (e ∷ rows) = e.id == id || has_id id rows

pub live-bury_some :
    (id device : String) (seq : ℤ) (rows : Table)
    → live (tombstone_by_origin device seq (tombstone id rows)) ≡ survivors id device seq rows
unfolding live survivors tombstone tombstone_by_origin
live-bury_some id device seq [] = refl
live-bury_some id device seq (e ∷ rows) = ground (arith, live-bury_some id device seq rows)

pub live-bury_none :
    (id device : String) (seq : ℤ) (rows : Table)
    → by_origin device seq (tombstone id rows) ≡ none
    → live (tombstone id rows) ≡ survivors id device seq rows
unfolding live survivors tombstone by_origin
live-bury_none id device seq [] h = refl
live-bury_none id device seq (e ∷ rows) h = ground (arith, live-bury_none id device seq rows)

pub live-snoc_deleted :
    (rows : Table) (e : Entry) → e.deleted ≡ true → live (rows ++ e ∷ []) ≡ live rows
unfolding live
live-snoc_deleted [] e h = ground arith
live-snoc_deleted (r ∷ rows) e h = ground (arith, live-snoc_deleted rows e h)

pub survivors-snoc_id :
    (id device : String) (seq : ℤ) (rows : Table) (e : Entry)
    → e.id ≡ id
    → survivors id device seq (rows ++ e ∷ []) ≡ survivors id device seq rows
unfolding survivors
survivors-snoc_id id device seq [] e h = ground (arith, eq_iff e.id id)
survivors-snoc_id id device seq (r ∷ rows) e h =
    ground (arith, survivors-snoc_id id device seq rows e h)

pub by_origin-snoc :
    (device : String) (seq : ℤ) (rows : Table) (e : Entry)
    → has_origin device (some seq) e ≡ true
    → by_origin device seq (rows ++ e ∷ []) ≡ none
    → ⊥
unfolding by_origin
by_origin-snoc device seq [] e h n = ground arith
by_origin-snoc device seq (r ∷ rows) e h n = ground (arith, by_origin-snoc device seq rows e h)

module _ (hash_command : String → String) where
  pub conflict_id :
      (new : Entry) (rows : Table)
      → has_id new.id rows ≡ true
      → conflicts_any hash_command new rows ≡ true
  unfolding has_id conflicts_any
  conflict_id new [] h = cc
  conflict_id new (r ∷ rows) h = ground (arith, conflict_id new rows)

  -- A deleted row can only meet a row of its id, or of its origin.
  pub conflict_deleted :
      (new : Entry) (device : String) (seq : ℤ) (rows : Table)
      → new.deleted ≡ true
      → new.origin_device_id ≡ device
      → new.origin_seq ≡ some seq
      → by_origin device seq rows ≡ none
      → conflicts_any hash_command new rows ≡ true
      → has_id new.id rows ≡ true
  unfolding has_id conflicts_any by_origin
  conflict_deleted new device seq [] d o s n h = cc
  conflict_deleted new device seq (r ∷ rows) d o s n h =
      ground (arith, conflict_deleted new device seq rows d o s)
