-- ===== src/History/Cache/Completed.antt =====
-- internal/history/cache.go: an entry that is completed keeps the cache true to the plain one.
use remnix.Prelude.{
  set_at, get_elem?, String, ℕ, none, some, ◌≡◌, refl, sym, ap, ◌∙◌, Option-cases, inl, inr,
}
use remnix.Prelude.Run.{Returns, read_found}
use remnix.Prelude.Int.{ℤ}
use remnix.Prelude.Dict.{lookup}
use remnix.Prelude.IntMap.{find}
use remnix.History.Cache.Pool.{text_at}
use remnix.History.Cache.{Cache, CacheRec, apply_completed_locked, int32, complete_duration_ms}
use remnix.History.Cache.Plain.{Plain, update, plain_completed, finish_run}
use remnix.History.Cache.Shelf.{IsStored, set_at-IsShelved}
use remnix.History.Cache.View.{row_of, view_found}
use remnix.History.Cache.Changes.{view-set_at}
use remnix.History.Cache.Owners.{change-IsOwned}
use remnix.History.Cache.Tracks.{owner_of, Tracks}

-- An entry with a command has a record, and the plain cache knows both.
pub owner-found :
    {m : Plain} {c : Cache} (id : String) (k : ℕ)
    → Tracks m c
    → lookup id c.id_to_cmd ≡ some k
    → (i : ℕ) × (r : CacheRec) × (find k c.by_cmd ≡ some i)
      × (get_elem? c.recs i ≡ some r)
      × (r.cmd ≡ k)
      × (m.owner id ≡ some (text_at c.pool k))
      × (m.rows (text_at c.pool k) ≡ some (row_of c.pool r))
unfolding owner_of
owner-found {m} {c} id k h e =
    let (i, place) = h.owned.owned id k e in
    let (r, at, same) = h.shelved.placed k i place in
    let known : owner_of c.pool c.id_to_cmd id ≡ some (text_at c.pool k) = rw (e, owner_of) refl in
    (
      i,
      r,
      place,
      at,
      same,
      sym (h.owners id) ∙ known,
      sym (h.rows (text_at c.pool k))
          ∙ view_found h.shelved i r (text_at c.pool k) at (ap (text_at c.pool) same),
    )

pub owner-unknown :
    {m : Plain} {c : Cache} (id : String)
    → Tracks m c
    → lookup id c.id_to_cmd ≡ none
    → m.owner id ≡ none
unfolding owner_of
owner-unknown {m} {c} id h e =
    let unknown : owner_of c.pool c.id_to_cmd id ≡ none = rw (e, owner_of) refl in
    sym (h.owners id) ∙ unknown

module _ {m : Plain} {c : Cache} (id : String) (end_ms exit : ℤ) (h : Tracks m c) where
  finished-Tracks :
      (i : ℕ) (r : CacheRec)
      → get_elem? c.recs i ≡ some r
      → m.rows (text_at c.pool r.cmd) ≡ some (row_of c.pool r)
      → Tracks
          (record m {
            rows =
                update
                  (text_at c.pool r.cmd)
                  (finish_run end_ms exit (m.rows (text_at c.pool r.cmd)))
                  m.rows;
          })
          (record c {
            recs =
                set_at i
                  (record r {
                    last_exit = int32 exit;
                    last_duration_ms = complete_duration_ms r.last_start end_ms;
                  })
                  c.recs;
          })
  unfolding row_of
  finished-Tracks i r at before =
      let held = h.shelved.stored i r at in
      let s : CacheRec = record r {
        last_exit = int32 exit;
        last_duration_ms = complete_duration_ms r.last_start end_ms;
      } in
      let stored : IsStored c.pool s = record {
        cmd = held.cmd;
        cwd = held.cwd;
        device = held.device;
        session = held.session;
      } in
      record {
        shelved =
            set_at-IsShelved c.pool c.pool c.recs c.by_cmd i r s h.shelved at refl h.shelved.indexed
              (λ j t f. f) stored;
        owned = change-IsOwned h.shelved h.owned i r s at refl refl;
        rows = λ q.
            view-set_at h.shelved c.pool i r s q at refl h.shelved.indexed (λ j t f. f) stored
            ∙ rw (before, h.rows q) refl;
        owners = h.owners;
        dirty = h.dirty;
      }

  pub apply_completed_locked-Tracks :
      Returns (apply_completed_locked id end_ms exit c) (Tracks (plain_completed id end_ms exit m))
  unfolding apply_completed_locked plain_completed
  apply_completed_locked-Tracks = elim (Option-cases (lookup id c.id_to_cmd)) [
    | inl e ↦ rw (e, owner-unknown id h e, apply_completed_locked, plain_completed) h
    | inr (k, e) ↦
        let (i, r, place, at, same, owner, row) = owner-found id k h e in
        let before : m.rows (text_at c.pool r.cmd) ≡ some (row_of c.pool r) = rw same row in
        let known : m.owner id ≡ some (text_at c.pool r.cmd) = rw same owner in
        rw (e, known, place, apply_completed_locked, plain_completed, read_found c.recs i r at)
          (finished-Tracks i r at before)
  ]
