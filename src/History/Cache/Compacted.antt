-- ===== src/History/Cache/Compacted.antt =====
-- internal/history/cache.go: compaction keeps the cache true to the plain one, and in order.
use remnix.Prelude.{get_elem?, String, ℕ, List, [], some, arith, ◌≡◌, sym, ap, ◌∙◌, subst, inl, inr}
use mathlib.Core.Path.{fun_ext}
use remnix.Prelude.Dict.{Dict, lookup}
use remnix.Prelude.IntMap.{IntMap, find}
use remnix.History.Cache.Pool.{
  StringPool, text_at, text_at_found, text_at_injective, IsIndexed, Holds,
}
use remnix.History.Cache.{Cache, CacheRec}
use remnix.History.Cache.Plain.{Plain}
use remnix.History.Cache.Shelf.{IsShelved, IsShelved-unique}
use remnix.History.Cache.Owners.{IsOwned}
use remnix.History.Cache.Order.{command_of}
use remnix.History.Cache.Compact.{new_move, remap_recs, remap_ids, index_from, compact_pool_locked}
use remnix.History.Cache.Tracks.{Tracks}
use remnix.History.Cache.Remap.{
  new_move-IsMoved, AllSame, AllSame-Within, IdsSame, remap_recs-RemappedRecs,
  remap_ids-RemappedIds,
}
use remnix.History.Cache.Carried.{
  IsSame-before, IsSame-after, view-same, command_of-same, lookup-same, Distinct-same,
  owner_of-same,
}
use remnix.History.Cache.Reindexed.{
  IsUnique, find-index_from, index_from_found, all_held, count-same,
}

module _ (p q : StringPool) (recs news : List CacheRec) (by_cmd : IntMap ℕ)
    (h : IsShelved p recs by_cmd) (same : AllSame p q recs news) (indexed : IsIndexed q) where
  news-IsUnique : IsUnique news
  news-IsUnique i j s t at there e =
      let (r, before, kept) = IsSame-before p q recs news i s same at in
      let (u, earlier, held) = IsSame-before p q recs news j t same there in
      let text : text_at p r.cmd ≡ text_at p u.cmd =
        sym kept.command ∙ ap (text_at q) e ∙ held.command in
      let cmd =
        text_at_injective p r.cmd u.cmd h.indexed (h.stored i r before).cmd
          (h.stored j u earlier).cmd text in
      IsShelved-unique p recs by_cmd i j r u h before earlier cmd

  reindexed-IsShelved : IsShelved q news (index_from 0 news [])
  unfolding find
  reindexed-IsShelved = record {
    indexed = indexed;
    stored =
        λ i s at. let (r, before, kept) = IsSame-before p q recs news i s same at in kept.stored;
    placed = λ k i f. elim (index_from_found k 0 i news [] f) [
      | inl none_yet ↦ cc none_yet
      | inr (j, r, at, cmd, place) ↦
          let here : j ≡ i = omega arith in (r, subst (λ x. get_elem? news x ≡ some r) here at, cmd)
    ];
    found = λ i s at. find-index_from 0 i news [] s news-IsUnique at ∙ ap some (omega arith);
  }

  module _ (ids moved : Dict ℕ) (o : IsOwned recs by_cmd ids)
      (carried : IdsSame p q ids moved) where
    known-Holds : (id : String) (k : ℕ) → lookup id ids ≡ some k → Holds p k
    known-Holds id k f =
        let (i, place) = o.owned id k f in
        let (r, at, cmd) = h.placed k i place in rw (← cmd) ((h.stored i r at).cmd)

    reindexed-IsOwned : IsOwned news (index_from 0 news []) moved
    reindexed-IsOwned = record {
      owned = λ id n f.
          let (k, before, at) = lookup-same p q ids moved id n carried f in
          let (i, place) = o.owned id k before in
          let (r, there, cmd) = h.placed k i place in
          let (s, now, kept) = IsSame-after p q recs news i r same there in
          let text : text_at q s.cmd ≡ text_at q n =
            kept.command ∙ ap (text_at p) cmd ∙ sym (text_at_found q n (text_at p k) at) in
          let here : s.cmd ≡ n =
            text_at_injective q s.cmd n indexed kept.stored.cmd (text_at p k, at) text in
          (
            i,
            subst (λ x. find x (index_from 0 news []) ≡ some i) here
                (reindexed-IsShelved.found i s now),
          );
      counted = λ i s at.
          let (r, before, kept) = IsSame-before p q recs news i s same at in
          let held = (h.stored i r before).cmd in
          let fewer =
            count-same p q r.cmd s.cmd ids moved h.indexed held
              (all_held p ids o.distinct known-Holds) carried kept.command in
          let equal = kept.freq in let enough = o.counted i r before in omega arith;
      distinct = Distinct-same p q ids moved carried o.distinct;
    }

-- The cache says the same after compaction, and its commands keep their places.
pub record Compacted (m : Plain) (c d : Cache) : Type 0 where
  pub tracks : Tracks m d
  pub commands : command_of d.pool d.recs ≡ command_of c.pool c.recs
  pub same : AllSame c.pool d.pool c.recs d.recs

pub compact_pool_locked-Compacted :
    {m : Plain} {c : Cache} → Tracks m c → Compacted m c (compact_pool_locked c)
unfolding compact_pool_locked
compact_pool_locked-Compacted {m} {c} h =
    let first = remap_recs-RemappedRecs c.pool c.recs new_move (new_move-IsMoved c.pool) in
    let m₁ = (remap_recs c.pool c.recs new_move).1 in
    let news = (remap_recs c.pool c.recs new_move).0 in
    let later = remap_ids-RemappedIds c.pool c.id_to_cmd m₁ first.moved in
    let q = (remap_ids c.pool c.id_to_cmd m₁).1.next in
    let ids = (remap_ids c.pool c.id_to_cmd m₁).0 in
    let same = AllSame-Within c.pool m₁.next q c.recs news later.within first.same in
    record {
      tracks = record {
        shelved =
            reindexed-IsShelved c.pool q c.recs news c.by_cmd h.shelved same later.moved.indexed;
        owned =
            reindexed-IsOwned c.pool q c.recs news c.by_cmd h.shelved same later.moved.indexed
              c.id_to_cmd ids h.owned later.same;
        rows = λ x. view-same c.pool q c.recs news x same ∙ h.rows x;
        owners = λ id. owner_of-same c.pool q c.id_to_cmd ids id later.same ∙ h.owners id;
        dirty = h.dirty;
      };
      commands = fun_ext (λ i. command_of-same c.pool q c.recs news i same);
      same = same;
    }
