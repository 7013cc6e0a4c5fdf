-- ===== src/History/Cache/Remap.antt =====
-- internal/history/cache.go: moving records and entries to a new pool keeps what they say.
use remnix.Prelude.{
  get_elem?, ℕ, List, [], ◌∷◌, some, arith, ◌≡◌, refl, ◌∙◌, Bool-cases, Option-cases, inl, inr, eqb,
}
use remnix.Prelude.Dict.{Dict}
use remnix.Prelude.IntMap.{find, find-put}
use remnix.History.Cache.Pool.{
  StringPool, intern, text_at, text_at_found, IsIndexed, Within, intern-Interned, text_at-Within,
  new_string_pool-IsIndexed,
}
use remnix.History.Cache.{CacheRec}
use remnix.History.Cache.Shelf.{IsStored, IsStored-Within}
use remnix.History.Cache.View.{row_of, row_of-Within}
use remnix.History.Cache.Compact.{Move, new_move, remap, remap_rec, remap_recs, remap_ids}

-- What was moved from the pool `p` stands in the new one.
pub record IsMoved (p : StringPool) (m : Move) : Type 0 where
  pub indexed : IsIndexed m.next
  pub moved :
      (k j : ℕ) → find k m.old_to_new ≡ some j → get_elem? m.next.strs j ≡ some (text_at p k)

pub new_move-IsMoved : (p : StringPool) → IsMoved p new_move
unfolding find
new_move-IsMoved p = record { indexed = new_string_pool-IsIndexed; moved = λ k j f. cc f }

record Remapped (p : StringPool) (k : ℕ) (m : Move) (r : ℕ × Move) : Type 0 where
  moved : IsMoved p r.1
  found : get_elem? r.1.next.strs r.0 ≡ some (text_at p k)
  within : Within m.next r.1.next

remap-Remapped : (p : StringPool) (k : ℕ) (m : Move) → IsMoved p m → Remapped p k m (remap p k m)
unfolding remap
remap-Remapped p k m h = elim (Option-cases (find k m.old_to_new)) [
  | inr (j, e) ↦ rw (e, remap) (record { moved = h; found = h.moved k j e; within = λ i s f. f })
  | inl e ↦
      let it = intern-Interned (text_at p k) m.next h.indexed in
      let id = (intern (text_at p k) m.next).0 in
      rw (e, remap)
        (record {
          moved = record {
            indexed = it.indexed;
            moved = λ l j f. elim (Bool-cases (eqb k l)) [
              | inl y ↦
                  let same : k ≡ l = ground arith in
                  let place : id ≡ j = ground (arith, find-put k l id m.old_to_new) in
                  rw (← same, ← place) it.found
              | inr n ↦
                  it.within j (text_at p l)
                    (h.moved l j (ground (arith, find-put k l id m.old_to_new)))
            ];
          };
          found = it.found;
          within = it.within;
        })
]

-- The record says in the new pool what it said in the old one.
pub record IsSame (p q : StringPool) (r s : CacheRec) : Type 0 where
  pub stored : IsStored q s
  pub command : text_at q s.cmd ≡ text_at p r.cmd
  pub row : row_of q s ≡ row_of p r
  pub freq : s.freq ≡ r.freq

IsSame-Within :
    {p q : StringPool} (next : StringPool) {r s : CacheRec}
    → Within q next
    → IsSame p q r s
    → IsSame p next r s
IsSame-Within {p} {q} next {r} {s} w h = record {
  stored = IsStored-Within q next s w h.stored;
  command = text_at-Within q next s.cmd w h.stored.cmd ∙ h.command;
  row = row_of-Within q next s w h.stored ∙ h.row;
  freq = h.freq;
}

record RemappedRec (p : StringPool) (r : CacheRec) (m : Move) (o : CacheRec × Move) : Type 0 where
  moved : IsMoved p o.1
  same : IsSame p o.1.next r o.0
  within : Within m.next o.1.next

remap_rec-RemappedRec :
    (p : StringPool) (r : CacheRec) (m : Move) → IsMoved p m → RemappedRec p r m (remap_rec p r m)
unfolding remap_rec row_of
remap_rec-RemappedRec p r m h =
    let one = remap-Remapped p r.cmd m h in
    let m₁ = (remap p r.cmd m).1 in
    let two = remap-Remapped p r.cwd m₁ one.moved in
    let m₂ = (remap p r.cwd m₁).1 in
    let three = remap-Remapped p r.device m₂ two.moved in
    let m₃ = (remap p r.device m₂).1 in
    let four = remap-Remapped p r.session m₃ three.moved in
    let q = (remap p r.session m₃).1.next in
    let cmd = four.within _ _ (three.within _ _ (two.within _ _ one.found)) in
    let cwd = four.within _ _ (three.within _ _ two.found) in
    let device = four.within _ _ three.found in
    record {
      moved = four.moved;
      same = record {
        stored = record {
          cmd = (_, cmd);
          cwd = (_, cwd);
          device = (_, device);
          session = (_, four.found);
        };
        command = text_at_found q _ _ cmd;
        row =
            rw (text_at_found q _ _ cwd, text_at_found q _ _ device, text_at_found q _ _ four.found)
              refl;
        freq = refl;
      };
      within = λ i s f. four.within i s (three.within i s (two.within i s (one.within i s f)));
    }

abbrev pub AllSame : StringPool → StringPool → List CacheRec → List CacheRec → Type 0
AllSame p q [] [] = Unit
AllSame p q [] (s ∷ ss) = ⊥
AllSame p q (r ∷ rs) [] = ⊥
AllSame p q (r ∷ rs) (s ∷ ss) = IsSame p q r s × AllSame p q rs ss

pub AllSame-Within :
    (p q next : StringPool) (rs ss : List CacheRec)
    → Within q next
    → AllSame p q rs ss
    → AllSame p next rs ss
AllSame-Within p q next [] [] w h = tt
AllSame-Within p q next [] (s ∷ ss) w h = absurd h
AllSame-Within p q next (r ∷ rs) [] w h = absurd h
AllSame-Within p q next (r ∷ rs) (s ∷ ss) w h =
    (IsSame-Within next w h.0, AllSame-Within p q next rs ss w h.1)

pub record RemappedRecs (p : StringPool) (rs : List CacheRec) (m : Move) (o : List CacheRec × Move)
    : Type 0 where
  pub moved : IsMoved p o.1
  pub same : AllSame p o.1.next rs o.0
  pub within : Within m.next o.1.next

pub remap_recs-RemappedRecs :
    (p : StringPool) (rs : List CacheRec) (m : Move)
    → IsMoved p m
    → RemappedRecs p rs m (remap_recs p rs m)
unfolding remap_recs
remap_recs-RemappedRecs p [] m h = record { moved = h; same = tt; within = λ i s f. f }
remap_recs-RemappedRecs p (r ∷ rs) m h =
    let first = remap_rec-RemappedRec p r m h in
    let m₁ = (remap_rec p r m).1 in
    let later = remap_recs-RemappedRecs p rs m₁ first.moved in
    record {
      moved = later.moved;
      same = (IsSame-Within _ later.within first.same, later.same);
      within = λ i s f. later.within i s (first.within i s f);
    }

-- The entries have the commands that they had.
abbrev pub IdsSame : StringPool → StringPool → Dict ℕ → Dict ℕ → Type 0
IdsSame p q [] [] = Unit
IdsSame p q [] (s ∷ ss) = ⊥
IdsSame p q (r ∷ rs) [] = ⊥
IdsSame p q ((i, k) ∷ rs) ((j, n) ∷ ss) =
    (i ≡ j) × (get_elem? q.strs n ≡ some (text_at p k)) × IdsSame p q rs ss

pub record RemappedIds (p : StringPool) (ids : Dict ℕ) (m : Move) (o : Dict ℕ × Move) : Type 0 where
  pub moved : IsMoved p o.1
  pub same : IdsSame p o.1.next ids o.0
  pub within : Within m.next o.1.next

pub remap_ids-RemappedIds :
    (p : StringPool) (ids : Dict ℕ) (m : Move)
    → IsMoved p m
    → RemappedIds p ids m (remap_ids p ids m)
unfolding remap_ids
remap_ids-RemappedIds p [] m h = record { moved = h; same = tt; within = λ i s f. f }
remap_ids-RemappedIds p ((id, k) ∷ ids) m h =
    let first = remap-Remapped p k m h in
    let m₁ = (remap p k m).1 in
    let later = remap_ids-RemappedIds p ids m₁ first.moved in
    record {
      moved = later.moved;
      same = (refl, later.within _ _ first.found, later.same);
      within = λ i s f. later.within i s (first.within i s f);
    }
