-- ===== src/History/Cache/Tombstoned.antt =====
-- internal/history/cache.go: entries and commands that are tombstoned keep the cache true to the
-- plain one.
use remnix.Prelude.{
  set_at, get_elem?, get_elem?-lt, get_elem?-of_lt, get_elem?-set_at, String, ℕ, zero, suc, false,
  List, [], ◌∷◌, none, some, ◌==◌, if◌then◌else◌, arith, ◌≡◌, refl, ap, ◌∙◌, Bool-cases,
  Option-cases, inl, inr, length, leb, ◌-◌,
}
use remnix.Prelude.Run.{Returns, read_found}
use remnix.Prelude.Dict.{Dict, lookup, delete, lookup-delete}
use remnix.Prelude.IntMap.{find}
use remnix.History.Cache.Pool.{StringPool, text_at}
use remnix.History.Cache.{Cache, CacheRec, remove_at_locked, release, tombstone_id}
use remnix.History.Cache.Plain.{Plain, update, lessen, plain_tombstoned}
use remnix.History.Cache.Shelf.{IsStored, set_at-IsShelved, swap_remove-IsShelved}
use remnix.History.Cache.View.{row_of}
use remnix.History.Cache.Changes.{view-set_at, view-swap_remove}
use remnix.History.Cache.Owners.{lessen-IsOwned}
use remnix.History.Cache.Removal.{Left, swap_remove-IsOwned, delete-Left}
use remnix.History.Cache.Tracks.{owner_of, Tracks}
use remnix.History.Cache.Completed.{owner-found, owner-unknown}

abbrev pub recount : CacheRec → ℕ → CacheRec
recount r count = record r { freq = count }

recount-IsStored :
    (p : StringPool) (r : CacheRec) (count : ℕ) → IsStored p r → IsStored p (recount r count)
recount-IsStored p r count s = record {
  cmd = s.cmd;
  cwd = s.cwd;
  device = s.device;
  session = s.session;
}

length-set_at : {A : Type 0} (i : ℕ) (y : A) (xs : List A) → length (set_at i y xs) ≡ length xs
unfolding set_at
length-set_at i y [] = refl
length-set_at zero y (x ∷ xs) = refl
length-set_at (suc i) y (x ∷ xs) = omega (arith, length-set_at i y xs)

pub set_at_same :
    {A : Type 0} (i : ℕ) (y : A) (xs : List A) → get_elem? xs i ≡ some y → set_at i y xs ≡ xs
unfolding set_at
set_at_same i y [] h = refl
set_at_same zero y (x ∷ xs) h = cc h
set_at_same (suc i) y (x ∷ xs) h = ap (λ t. x ∷ t) (set_at_same i y xs h)

module _ {m : Plain} {c : Cache} (h : Tracks m c) where
  -- Removing the record of a command, whatever count it shows, with all its entries.
  pub removal-Tracks :
      (i : ℕ) (r : CacheRec) (n : ℕ) (rest : Dict ℕ) (next : Plain)
      → get_elem? c.recs i ≡ some r
      → Left r.cmd c.id_to_cmd rest
      → ((q : String) → (if text_at c.pool r.cmd == q then none else m.rows q) ≡ next.rows q)
      → ((id : String) → owner_of c.pool rest id ≡ next.owner id)
      → m.dirty ≡ next.dirty
      → Returns
          (remove_at_locked i (record c { id_to_cmd = rest; recs = set_at i (recount r n) c.recs }))
          (Tracks next)
  unfolding remove_at_locked
  removal-Tracks i r n rest next at left rows owners dirty =
      let s = recount r n in
      let news = set_at i s c.recs in
      let inside = get_elem?-lt c.recs i r at in
      let there : get_elem? news i ≡ some s =
        ground (arith, get_elem?-set_at i s c.recs i inside) in
      let stored = recount-IsStored c.pool r n (h.shelved.stored i r at) in
      let shelved =
        set_at-IsShelved c.pool c.pool c.recs c.by_cmd i r s h.shelved at refl h.shelved.indexed
          (λ j t f. f) stored in
      let (l, end) =
        get_elem?-of_lt news (length news - 1) (omega (arith, length-set_at i s c.recs)) in
      let result : Tracks next _ = record {
        shelved = swap_remove-IsShelved c.pool news c.by_cmd i s l shelved there end;
        owned =
            swap_remove-IsOwned c.pool c.recs c.by_cmd c.id_to_cmd rest i r s l shelved h.owned at
              refl end left;
        rows = λ q.
            view-swap_remove shelved i s l q there end
            ∙ rw
                (
                  view-set_at h.shelved c.pool i r s q at refl h.shelved.indexed (λ j t f. f)
                      stored,
                  h.rows q,
                )
                (ground (arith, rows q));
        owners = owners;
        dirty = h.dirty ∙ dirty;
      } in
      rw (read_found news i s there, read_found news (length news - 1) l end) result

  owner_of-delete :
      (id other : String)
      → owner_of c.pool (delete id c.id_to_cmd) other ≡ update id none m.owner other
  unfolding owner_of
  owner_of-delete id other =
      let known = h.owners other in ground (arith, lookup-delete id other c.id_to_cmd)

  lessened-Tracks :
      (id : String) (i : ℕ) (r : CacheRec)
      → get_elem? c.recs i ≡ some r
      → lookup id c.id_to_cmd ≡ some r.cmd
      → m.rows (text_at c.pool r.cmd) ≡ some (row_of c.pool r)
      → leb (r.freq - 1) 0 ≡ false
      → Tracks
          (record m {
            rows = update (text_at c.pool r.cmd) (lessen (m.rows (text_at c.pool r.cmd))) m.rows;
            owner = update id none m.owner;
          })
          (record c {
            id_to_cmd = delete id c.id_to_cmd;
            recs = set_at i (recount r (r.freq - 1)) c.recs;
          })
  unfolding row_of
  lessened-Tracks id i r at mine before left =
      let s = recount r (r.freq - 1) in
      let stored = recount-IsStored c.pool r (r.freq - 1) (h.shelved.stored i r at) in
      record {
        shelved =
            set_at-IsShelved c.pool c.pool c.recs c.by_cmd i r s h.shelved at refl h.shelved.indexed
              (λ j t f. f) stored;
        owned =
            lessen-IsOwned h.shelved h.owned id i r s at mine refl (ground arith) (ground arith);
        rows = λ q.
            view-set_at h.shelved c.pool i r s q at refl h.shelved.indexed (λ j t f. f) stored
            ∙ rw (before, h.rows q, left) refl;
        owners = owner_of-delete id;
        dirty = h.dirty;
      }

  release-Tracks :
      (id : String) (i : ℕ) (r : CacheRec)
      → find r.cmd c.by_cmd ≡ some i
      → get_elem? c.recs i ≡ some r
      → lookup id c.id_to_cmd ≡ some r.cmd
      → m.rows (text_at c.pool r.cmd) ≡ some (row_of c.pool r)
      → Returns (release r.cmd (record c { id_to_cmd = delete id c.id_to_cmd })) (
          Tracks (record m {
            rows = update (text_at c.pool r.cmd) (lessen (m.rows (text_at c.pool r.cmd))) m.rows;
            owner = update id none m.owner;
          }))
  unfolding release row_of
  release-Tracks id i r place at mine before = elim (Bool-cases (leb (r.freq - 1) 0)) [
    | inl t ↦
        rw (place, release, read_found c.recs i r at, t)
          (removal-Tracks i r (r.freq - 1) (delete id c.id_to_cmd) _ at
            (delete-Left c.recs c.by_cmd c.id_to_cmd id i r h.owned at mine (ground arith))
            (λ q. rw (before, t) refl) (owner_of-delete id) refl)
    | inr f ↦
        rw (place, release, read_found c.recs i r at, f) (lessened-Tracks id i r at mine before f)
  ]

  pub tombstone_id-Tracks :
      (id : String) → Returns (tombstone_id id c) (Tracks (plain_tombstoned id m))
  unfolding tombstone_id plain_tombstoned
  tombstone_id-Tracks id = elim (Option-cases (lookup id c.id_to_cmd)) [
    | inl e ↦
        rw (e, owner-unknown id h e, tombstone_id, plain_tombstoned)
          (record {
            shelved = h.shelved;
            owned = h.owned;
            rows = h.rows;
            owners = h.owners;
            dirty = refl;
          })
    | inr (k, e) ↦
        let (i, r, place, at, same, owner, row) = owner-found id k h e in
        let before : m.rows (text_at c.pool r.cmd) ≡ some (row_of c.pool r) = rw same row in
        let known : m.owner id ≡ some (text_at c.pool r.cmd) = rw same owner in
        let mine : lookup id c.id_to_cmd ≡ some r.cmd = rw same e in
        let there : find r.cmd c.by_cmd ≡ some i = rw same place in
        rw (mine, known, tombstone_id, plain_tombstoned)
          (release-Tracks id i r there at mine before)
  ]
