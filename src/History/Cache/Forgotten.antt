-- ===== src/History/Cache/Forgotten.antt =====
-- internal/history/cache.go: a command that is tombstoned goes with all its entries.
use remnix.Prelude.{
  get_elem?, String, ℕ, none, some, arith, ◌≡◌, refl, sym, ◌∙◌, subst, Option-cases, inl, inr,
  eq_iff,
}
use remnix.Prelude.Run.{Returns}
use remnix.Prelude.Dict.{lookup}
use remnix.Prelude.IntMap.{find}
use remnix.History.Cache.Pool.{text_at, text_at_found, text_at_injective, text_at-Holds, Holds}
use remnix.History.Cache.{
  Cache, CacheRec, remove_at_locked, forget_command, apply_tombstone_command_unlocked,
}
use remnix.History.Cache.Plain.{Plain, unless_of, plain_tombstoned_command}
use remnix.History.Cache.View.{view, view_none}
use remnix.History.Cache.Owners.{lookup-forget_command}
use remnix.History.Cache.Removal.{Left, forget_command-Left}
use remnix.History.Cache.Tracks.{owner_of, Tracks}
use remnix.History.Cache.Created.{view_unknown}
use remnix.History.Cache.Completed.{owner-found, owner-unknown}
use remnix.History.Cache.Tombstoned.{removal-Tracks, set_at_same}

module _ {m : Plain} {c : Cache} (h : Tracks m c) (command : String) where
  -- A command without a record has no entries either.
  unowned : (id : String) → m.rows command ≡ none → unless_of command (m.owner id) ≡ m.owner id
  unowned id gone = elim (Option-cases (lookup id c.id_to_cmd)) [
    | inl e ↦ rw (owner-unknown id h e) refl
    | inr (k, e) ↦
        let (i, r, place, at, same, owner, row) = owner-found id k h e in
        ground (arith, eq_iff (text_at c.pool k) command)
  ]

  unchanged-Tracks :
      view c.pool c.recs command ≡ none → Tracks (plain_tombstoned_command command m) c
  unfolding plain_tombstoned_command
  unchanged-Tracks absent =
      let gone : m.rows command ≡ none = sym (h.rows command) ∙ absent in
      record {
        shelved = h.shelved;
        owned = h.owned;
        rows = λ q. h.rows q ∙ ground (arith, eq_iff command q);
        owners = λ id. h.owners id ∙ sym (unowned id gone);
        dirty = h.dirty;
      }

  view_not_pooled : lookup command c.pool.ids ≡ none → view c.pool c.recs command ≡ none
  view_not_pooled e = view_none c.pool c.recs command (λ j s there same.
      let at = text_at-Holds c.pool s.cmd (h.shelved.stored j s there).cmd in
      let known = (h.shelved.indexed (text_at c.pool s.cmd) s.cmd).1 at in cc (known, same, e))

  owner_of-forget_command :
      (k : ℕ) (id : String)
      → get_elem? c.pool.strs k ≡ some command
      → owner_of c.pool (forget_command k c.id_to_cmd) id ≡ unless_of command (m.owner id)
  unfolding owner_of
  owner_of-forget_command k id at = elim (Option-cases (lookup id c.id_to_cmd)) [
    | inl e ↦
        rw
          (
            lookup-forget_command k id c.id_to_cmd h.owned.distinct,
            owner_of,
            e,
            owner-unknown id h e,
          )
          refl
    | inr (j, e) ↦
        let (i, r, place, there, same, owner, row) = owner-found id j h e in
        let held : Holds c.pool j = rw (← same) ((h.shelved.stored i r there).cmd) in
        let law = text_at_injective c.pool j k h.shelved.indexed held (command, at) in
        let text = text_at_found c.pool k command at in
        rw (lookup-forget_command k id c.id_to_cmd h.owned.distinct, owner_of, e, owner)
          (ground (arith, law, text, eq_iff (text_at c.pool j) command))
  ]

  forgotten-Tracks :
      (k i : ℕ) (r : CacheRec)
      → get_elem? c.pool.strs k ≡ some command
      → get_elem? c.recs i ≡ some r
      → r.cmd ≡ k
      → Returns
          (remove_at_locked i (record c { id_to_cmd = forget_command k c.id_to_cmd }))
          (Tracks (plain_tombstoned_command command m))
  unfolding plain_tombstoned_command
  forgotten-Tracks k i r pooled at same =
      let text : text_at c.pool r.cmd ≡ command = rw same (text_at_found c.pool k command pooled) in
      let left : Left r.cmd c.id_to_cmd (forget_command k c.id_to_cmd) =
        rw same (forget_command-Left k c.id_to_cmd h.owned.distinct) in
      subst
        (λ recs.
          Returns
            (remove_at_locked i
              (record c { id_to_cmd = forget_command k c.id_to_cmd; recs = recs }))
            (Tracks (plain_tombstoned_command command m)))
        (set_at_same i r c.recs at)
        (removal-Tracks h i r r.freq (forget_command k c.id_to_cmd)
          (plain_tombstoned_command command m) at left (λ q. rw text refl)
          (λ id. owner_of-forget_command k id pooled) refl)

  pub apply_tombstone_command_unlocked-Tracks :
      Returns
        (apply_tombstone_command_unlocked command c)
        (Tracks (plain_tombstoned_command command m))
  unfolding apply_tombstone_command_unlocked
  apply_tombstone_command_unlocked-Tracks = elim (Option-cases (lookup command c.pool.ids)) [
    | inl e ↦ rw (e, apply_tombstone_command_unlocked) (unchanged-Tracks (view_not_pooled e))
    | inr (k, e) ↦
        let pooled = (h.shelved.indexed command k).0 e in
        elim (Option-cases (find k c.by_cmd)) [
          | inl f ↦
              rw (e, f, apply_tombstone_command_unlocked)
                (unchanged-Tracks (view_unknown k command h.shelved pooled f))
          | inr (i, f) ↦
              let (r, at, same) = h.shelved.placed k i f in
              rw (e, f, apply_tombstone_command_unlocked) (forgotten-Tracks k i r pooled at same)
        ]
  ]
