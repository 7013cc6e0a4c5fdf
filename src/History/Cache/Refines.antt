-- ===== src/History/Cache/Refines.antt =====
-- internal/history/cache.go: every sequence of methods does what it does to the plain cache.
use remnix.Prelude.{
  set_at, get_elem?, String, ℕ, zero, suc, List, [], ◌∷◌, some, arith, ◌≡◌, refl, ap, ◌∙◌,
  Option-cases, inl, inr,
}
use mathlib.Core.Path.{fun_ext}
use remnix.Prelude.Run.{Returns, Returns->>=, read_found, Returns_both, Returns_map}
use remnix.Prelude.Result.{Result, ok, err}
use remnix.Prelude.Int.{ℤ}
use remnix.Prelude.Dict.{lookup}
use remnix.Prelude.IntMap.{find}
use remnix.History.Entry.{Entry, ChangeSet}
use remnix.History.Cache.Pool.{StringPool, text_at}
use remnix.History.Cache.{
  new_cache, Cache, CacheRec, each, apply_created_locked, apply_completed_locked, tombstone_id,
  apply_tombstone_command_unlocked,
}
use remnix.History.Cache.Suggest.{places_from}
use remnix.History.Cache.Resorted.{resort_locked-resorted}
use remnix.History.Cache.Order.{in_order, command_of, order_of}
use remnix.History.Cache.Methods.{
  Operation, created, completed, tombstoned, tombstoned_command, batch, marked_dirty, compacted,
  rebuilt, apply_created, apply_completed, apply_tombstoned, apply_tombstone_command,
  complete_change, apply_batch, mark_dirty, compact, rebuild, perform,
}
use remnix.History.Cache.Plain.{
  new_plain, plain_perform, Plain, plain_each, plain_created, plain_completion, plain_tombstoned,
  plain_tombstoned_command, plain_batch,
}
use remnix.History.Cache.Tracks.{new_cache-Tracks, Tracks}
use remnix.History.Cache.Created.{apply_created_locked-Tracks}
use remnix.History.Cache.Completed.{apply_completed_locked-Tracks, owner-found}
use remnix.History.Cache.Tombstoned.{tombstone_id-Tracks}
use remnix.History.Cache.Forgotten.{apply_tombstone_command_unlocked-Tracks}
use remnix.History.Cache.Settled.{
  compact-IsFaithful, resort-IsFaithful, each-Returns, IsFaithful, settled-Returns,
}

command_of-set_at :
    (p : StringPool) (i : ℕ) (r s : CacheRec) (recs : List CacheRec) (j : ℕ)
    → get_elem? recs i ≡ some r
    → s.cmd ≡ r.cmd
    → command_of p (set_at i s recs) j ≡ command_of p recs j
unfolding command_of set_at
command_of-set_at p i r s [] j at e = refl
command_of-set_at p zero r s (x ∷ xs) zero at e = ap (text_at p) (ground arith)
command_of-set_at p zero r s (x ∷ xs) (suc j) at e = refl
command_of-set_at p (suc i) r s (x ∷ xs) zero at e = refl
command_of-set_at p (suc i) r s (x ∷ xs) (suc j) at e = command_of-set_at p i r s xs j at e

places_from-set_at :
    (k i : ℕ) (s : CacheRec) (recs : List CacheRec)
    → places_from k (set_at i s recs) ≡ places_from k recs
unfolding places_from set_at
places_from-set_at k i s [] = refl
places_from-set_at k zero s (x ∷ xs) = refl
places_from-set_at k (suc i) s (x ∷ xs) = rw (places_from-set_at (suc k) i s xs) refl

set_at-ordered :
    (c : Cache) (i : ℕ) (r s : CacheRec)
    → get_elem? c.recs i ≡ some r
    → s.cmd ≡ r.cmd
    → c.sorted ≡ order_of c
    → c.sorted ≡ order_of (record c { recs = set_at i s c.recs })
set_at-ordered c i r s at e h =
    h
    ∙ rw
        (
          fun_ext (λ j. command_of-set_at c.pool i r s c.recs j at e),
          places_from-set_at 0 i s c.recs,
        )
        refl

-- Completing an entry leaves the commands and their order.
apply_completed_locked_ordered :
    (m : Plain) (c : Cache) (id : String) (end_ms exit : ℤ)
    → IsFaithful m c
    → Returns (apply_completed_locked id end_ms exit c) (λ d. d.sorted ≡ order_of d)
unfolding apply_completed_locked
apply_completed_locked_ordered m c id end_ms exit h = elim (Option-cases (lookup id c.id_to_cmd)) [
  | inl e ↦ rw (e, apply_completed_locked) h.ordered
  | inr (k, e) ↦
      let (i, r, place, at, same, owner, row) = owner-found id k h.tracks e in
      rw (e, place, apply_completed_locked, read_found c.recs i r at)
        (set_at-ordered c i r _ at refl h.ordered)
]

module _ {m : Plain} {c : Cache} (h : IsFaithful m c) where
  apply_tombstone_command-IsFaithful :
      (command : String)
      → Returns
          (apply_tombstone_command command c)
          (IsFaithful (plain_tombstoned_command command m))
  unfolding apply_tombstone_command apply_tombstone_command_unlocked
  apply_tombstone_command-IsFaithful command =
      let locked = apply_tombstone_command_unlocked-Tracks h.tracks command in
      elim (Option-cases (lookup command c.pool.ids)) [
        | inl e ↦
            rw (e, apply_tombstone_command)
              (record {
                tracks = rw (e, apply_tombstone_command_unlocked) at locked;
                ordered = h.ordered;
              })
        | inr (k, e) ↦ elim (Option-cases (find k c.by_cmd)) [
          | inl f ↦
              rw (e, f, apply_tombstone_command)
                (record {
                  tracks = rw (e, f, apply_tombstone_command_unlocked) at locked;
                  ordered = h.ordered;
                })
          | inr (i, f) ↦ rw (e, f, apply_tombstone_command) (settled-Returns _ _ locked)
        ]
      ]

  apply_batch-IsFaithful :
      (cs : ChangeSet) → Returns (apply_batch cs c) (IsFaithful (plain_batch cs m))
  unfolding apply_batch plain_batch
  apply_batch-IsFaithful cs =
      let m₁ = plain_each plain_created cs.created m in
      let m₂ = plain_each plain_completion cs.completed m₁ in
      let m₃ = plain_each plain_tombstoned cs.tombstoned m₂ in
      let m₄ = plain_each plain_tombstoned_command cs.commands m₃ in
      Returns->>= (each apply_created_locked cs.created c) _ (Tracks m₁) (IsFaithful m₄)
        (each-Returns Tracks apply_created_locked plain_created cs.created m c
          (λ e n d k. apply_created_locked-Tracks e k) h.tracks)
        (λ c₁ h₁.
          Returns->>= (each complete_change cs.completed c₁) _ (Tracks m₂) (IsFaithful m₄)
            (each-Returns Tracks complete_change plain_completion cs.completed m₁ c₁
              (λ e n d k. apply_completed_locked-Tracks e.id e.end e.exit k) h₁)
            (λ c₂ h₂.
              Returns->>= (each tombstone_id cs.tombstoned c₂) _ (Tracks m₃) (IsFaithful m₄)
                (each-Returns Tracks tombstone_id plain_tombstoned cs.tombstoned m₂ c₂
                  (λ id n d k. tombstone_id-Tracks k id) h₂)
                (λ c₃ h₃.
                  settled-Returns m₄ (each apply_tombstone_command_unlocked cs.commands c₃) (
                    each-Returns Tracks apply_tombstone_command_unlocked plain_tombstoned_command
                      cs.commands m₃ c₃
                      (λ command n d k. apply_tombstone_command_unlocked-Tracks k command) h₃))))

  rebuild-IsFaithful :
      (rows : Result (List Entry))
      → Returns (rebuild rows c) (IsFaithful (plain_perform (rebuilt rows) m))
  unfolding rebuild plain_perform
  rebuild-IsFaithful (err e) = h
  rebuild-IsFaithful (ok rows) =
      let next = plain_each plain_created rows new_plain in
      Returns->>= (each apply_created_locked rows new_cache) _ (Tracks next) (IsFaithful next)
        (each-Returns Tracks apply_created_locked plain_created rows new_plain new_cache
          (λ e n d k. apply_created_locked-Tracks e k) new_cache-Tracks)
        (λ d k. rw (resort_locked-resorted d) (resort-IsFaithful next d k))

  perform-IsFaithful : (op : Operation) → Returns (perform op c) (IsFaithful (plain_perform op m))
  unfolding perform plain_perform apply_created apply_completed apply_tombstoned mark_dirty compact
  perform-IsFaithful (created e) = settled-Returns _ _ (apply_created_locked-Tracks e h.tracks)
  perform-IsFaithful (completed id end_ms exit) =
      Returns_map (apply_completed_locked id end_ms exit c) _ _
        (Returns_both (apply_completed_locked id end_ms exit c) _ _
          (apply_completed_locked-Tracks id end_ms exit h.tracks)
          (apply_completed_locked_ordered m c id end_ms exit h))
        (λ d k. record { tracks = k.0; ordered = k.1 })
  perform-IsFaithful (tombstoned ids) = settled-Returns _ _ (
      each-Returns Tracks tombstone_id plain_tombstoned ids m c
        (λ id n d k. tombstone_id-Tracks k id) h.tracks)
  perform-IsFaithful (tombstoned_command command) = apply_tombstone_command-IsFaithful command
  perform-IsFaithful (batch cs) = apply_batch-IsFaithful cs
  perform-IsFaithful marked_dirty =
      let t = h.tracks in
      record {
        tracks = record {
          shelved = t.shelved;
          owned = t.owned;
          rows = t.rows;
          owners = t.owners;
          dirty = refl;
        };
        ordered = h.ordered;
      }
  perform-IsFaithful compacted = compact-IsFaithful m c h
  perform-IsFaithful (rebuilt rows) = rebuild-IsFaithful rows

new_cache-IsFaithful : IsFaithful new_plain new_cache
unfolding in_order places_from
new_cache-IsFaithful = record { tracks = new_cache-Tracks; ordered = refl }

-- From a new cache, every sequence of methods runs without an index out of range. The cache then
-- says of each command what the plain cache says after the same methods: its last run and its count
-- of entries, or that it is gone; it says of each entry which command it ran, and whether it is
-- dirty; and its commands are sorted. Each entry's command has a record that counts at least the
-- command's entries.
pub perform-refines :
    (ops : List Operation)
    → Returns (each perform ops new_cache) (IsFaithful (plain_each plain_perform ops new_plain))
perform-refines ops =
    each-Returns IsFaithful perform plain_perform ops new_plain new_cache
      (λ op n d k. perform-IsFaithful k op) new_cache-IsFaithful
