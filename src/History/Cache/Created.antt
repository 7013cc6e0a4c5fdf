-- ===== src/History/Cache/Created.antt =====
-- internal/history/cache.go: an entry that is created or completed keeps the cache true to the
-- plain one.
use remnix.Prelude.{
  set_at, get_elem?, String, ℕ, ◌||◌, List, [], ◌∷◌, ◌++◌, none, some, ◌==◌, if◌then◌else◌, arith,
  ◌≡◌, refl, sym, ◌∙◌, Bool-cases, Option-cases, inl, inr, length,
}
use remnix.Prelude.Run.{Returns, read_found}
use remnix.Prelude.Dict.{Dict, insert, lookup-insert}
use remnix.Prelude.IntMap.{IntMap, find, put}
use remnix.History.Entry.{Entry}
use remnix.History.Cache.Pool.{
  StringPool, intern, text_at, text_at_found, IsIndexed, Within, intern-Interned, text_at_injective,
}
use remnix.History.Cache.{Cache, CacheRec, latest, touch, add_entry, apply_created_locked}
use remnix.History.Cache.Plain.{Plain, update, count_run, plain_created}
use remnix.History.Cache.Shelf.{IsShelved, set_at-IsShelved, push-IsShelved}
use remnix.History.Cache.View.{row_of, view, view_found, view_none}
use remnix.History.Cache.Changes.{view-set_at, view-push}
use remnix.History.Cache.Owners.{count_more-IsOwned, push-IsOwned}
use remnix.History.Cache.Tracks.{
  owner_of, Tracks, grow-IsShelved, view-grow, owner_of-grow, latest-Recorded, touch-Recorded,
}

owner_of-insert :
    (p : StringPool) (id other : String) (k : ℕ) (ids : Dict ℕ)
    → owner_of p (insert id k ids) other
      ≡ (if id == other then some (text_at p k) else owner_of p ids other)
unfolding owner_of
owner_of-insert p id other k ids = ground (arith, lookup-insert id other k ids)

-- Without a record for the text, the records say nothing of it.
pub view_unknown :
    {p : StringPool} {recs : List CacheRec} {by_cmd : IntMap ℕ} (k : ℕ) (s : String)
    → IsShelved p recs by_cmd
    → get_elem? p.strs k ≡ some s
    → find k by_cmd ≡ none
    → view p recs s ≡ none
view_unknown {p} {recs} {by_cmd} k s h at fresh = view_none p recs s (λ j t there e.
    let same : t.cmd ≡ k =
      text_at_injective p t.cmd k h.indexed (h.stored j t there).cmd (s, at)
        (e ∙ sym (text_at_found p k s at)) in
    cc (h.found j t there, same, fresh))

module _ {m : Plain} {c : Cache} (e : Entry) (h : Tracks m c) where
  abbrev grown : StringPool
  grown = (intern e.command c.pool).1

  abbrev counted : Plain
  counted = record m {
    rows = update e.command (some (count_run e (m.rows e.command))) m.rows;
    owner = update e.id (some e.command) m.owner;
  }

  owner-eq :
      (q : StringPool) (k : ℕ) (id : String)
      → IsIndexed q
      → Within c.pool q
      → get_elem? q.strs k ≡ some e.command
      → owner_of q (insert e.id k c.id_to_cmd) id ≡ counted.owner id
  owner-eq q k id indexed w at =
      owner_of-insert q e.id id k c.id_to_cmd
      ∙ rw
          (
            text_at_found q k e.command at,
            owner_of-grow c.pool q h.shelved indexed w c.id_to_cmd id h.owned,
            h.owners id,
          )
          refl

  known-Tracks :
      (i : ℕ) (old : CacheRec)
      → get_elem? c.recs i ≡ some old
      → (intern e.command c.pool).0 ≡ old.cmd
      → let (r, p) = touch e old grown in
        Tracks counted (record c {
          pool = p;
          id_to_cmd = insert e.id old.cmd c.id_to_cmd;
          recs = set_at i r c.recs;
        })
  known-Tracks i old at same =
      let it = intern-Interned e.command c.pool h.shelved.indexed in
      let shelved = grow-IsShelved c.pool grown h.shelved it.indexed it.within in
      let stored = shelved.stored i old at in
      let new = touch-Recorded e old grown it.indexed stored in
      let r = (touch e old grown).0 in
      let p = (touch e old grown).1 in
      let command : get_elem? grown.strs old.cmd ≡ some e.command = rw (← same) it.found in
      let text = text_at_found grown old.cmd e.command command in
      let before : m.rows e.command ≡ some (row_of grown old) =
        sym (h.rows e.command)
        ∙ sym (view-grow c.pool grown h.shelved it.indexed it.within e.command)
        ∙ view_found shelved i old e.command at text in
      record {
        shelved =
            set_at-IsShelved grown p c.recs c.by_cmd i old r shelved at new.cmd new.indexed
              new.within new.stored;
        owned = count_more-IsOwned h.shelved h.owned e.id i old r at new.cmd new.freq;
        rows = λ q.
            view-set_at shelved p i old r q at new.cmd new.indexed new.within new.stored
            ∙ rw
                (
                  text,
                  new.row_eq,
                  view-grow c.pool grown h.shelved it.indexed it.within q,
                  h.rows q,
                  before,
                )
                refl;
        owners = λ id.
            owner-eq p old.cmd id new.indexed (λ j s f. new.within j s (it.within j s f))
              (new.within old.cmd e.command command);
        dirty = h.dirty;
      }

  new-Tracks :
      find (intern e.command c.pool).0 c.by_cmd ≡ none
      → let (r, p) = latest e (intern e.command c.pool).0 1 grown in
        Tracks counted (record c {
          pool = p;
          id_to_cmd = insert e.id (intern e.command c.pool).0 c.id_to_cmd;
          by_cmd = put (intern e.command c.pool).0 (length c.recs) c.by_cmd;
          recs = c.recs ++ r ∷ [];
        })
  unfolding latest
  new-Tracks fresh =
      let k = (intern e.command c.pool).0 in
      let it = intern-Interned e.command c.pool h.shelved.indexed in
      let shelved = grow-IsShelved c.pool grown h.shelved it.indexed it.within in
      let new = latest-Recorded e k 1 grown it.indexed (e.command, it.found) in
      let r = (latest e k 1 grown).0 in
      let p = (latest e k 1 grown).1 in
      let before : m.rows e.command ≡ none =
        sym (h.rows e.command)
        ∙ sym (view-grow c.pool grown h.shelved it.indexed it.within e.command)
        ∙ view_unknown k e.command shelved it.found fresh in
      let command = new.within k e.command it.found in
      record {
        shelved =
            push-IsShelved grown p c.recs c.by_cmd r shelved fresh new.indexed new.within
              new.stored;
        owned = push-IsOwned h.shelved h.owned e.id r fresh refl;
        rows = λ q.
            view-push shelved p r q fresh new.indexed new.within new.stored
            ∙ rw
                (
                  text_at_found p k e.command command,
                  new.row_eq,
                  view-grow c.pool grown h.shelved it.indexed it.within q,
                  h.rows q,
                  before,
                )
                refl;
        owners =
            λ id. owner-eq p k id new.indexed (λ j s f. new.within j s (it.within j s f)) command;
        dirty = h.dirty;
      }

  add_entry-Tracks : Returns (add_entry e c) (Tracks counted)
  unfolding add_entry
  add_entry-Tracks = elim (Option-cases (find (intern e.command c.pool).0 c.by_cmd)) [
    | inl fresh ↦ rw (fresh, add_entry) (new-Tracks fresh)
    | inr (i, place) ↦
        let (old, at, same) = h.shelved.placed _ i place in
        let k : (intern e.command c.pool).0 ≡ old.cmd = sym same in
        rw (place, add_entry, read_found c.recs i old at, k) (known-Tracks i old at k)
  ]

  pub apply_created_locked-Tracks : Returns (apply_created_locked e c) (Tracks (plain_created e m))
  unfolding apply_created_locked plain_created
  apply_created_locked-Tracks = elim (Bool-cases (e.deleted || e.command == "")) [
    | inl t ↦ rw (t, apply_created_locked, plain_created) h
    | inr f ↦ rw (f, apply_created_locked, plain_created) add_entry-Tracks
  ]
