-- ===== src/History/Cache/Settled.antt =====
-- internal/history/cache.go: sorting and compacting after a change.
use remnix.Prelude.{
  ◌*◌, ℕ, suc, ◌||◌, List, [], ◌∷◌, ◌≡◌, refl, ◌∙◌, Bool-cases, inl, inr, length, ltb, eqb,
}
use remnix.Prelude.Run.{Run, Returns, Returns->>=, ◌>>=◌}
use remnix.History.Cache.Pool.{StringPool}
use remnix.History.Cache.{Cache, CacheRec, each}
use remnix.History.Cache.Suggest.{places_from}
use remnix.History.Cache.Order.{order_of, resorted}
use remnix.History.Cache.Resorted.{resort_locked-resorted}
use remnix.History.Cache.Compact.{
  compact_pool_locked, maybe_compact_locked, referenced_string_count_locked,
}
use remnix.History.Cache.Methods.{settle}
use remnix.History.Cache.Plain.{Plain, plain_each}
use remnix.History.Cache.Tracks.{Tracks}
use remnix.History.Cache.Remap.{AllSame}
use remnix.History.Cache.Compacted.{compact_pool_locked-Compacted}

pub each-Returns :
    {A : Type 0} (R : Plain → Cache → Type 0) (body : A → Cache → Run Cache)
    (plain : A → Plain → Plain) (xs : List A) (m : Plain) (c : Cache)
    → ((x : A) (n : Plain) (d : Cache) → R n d → Returns (body x d) (R (plain x n)))
    → R m c
    → Returns (each body xs c) (R (plain_each plain xs m))
unfolding each
each-Returns R body plain [] m c step h = h
each-Returns R body plain (x ∷ xs) m c step h =
    Returns->>= (body x c) (each body xs) (R (plain x m)) (R (plain_each plain xs (plain x m)))
      (step x m c h) (λ d k. each-Returns R body plain xs (plain x m) d step k)

-- The cache says what the plain one says, and its commands are in order.
pub record IsFaithful (m : Plain) (c : Cache) : Type 0 where
  pub tracks : Tracks m c
  pub ordered : c.sorted ≡ order_of c

places_from-same :
    (p q : StringPool) (i : ℕ) (rs ss : List CacheRec)
    → AllSame p q rs ss
    → places_from i ss ≡ places_from i rs
unfolding places_from
places_from-same p q i [] [] h = refl
places_from-same p q i [] (s ∷ ss) h = absurd h
places_from-same p q i (r ∷ rs) [] h = absurd h
places_from-same p q i (r ∷ rs) (s ∷ ss) h = rw (places_from-same p q (suc i) rs ss h.1) refl

pub compact-IsFaithful :
    (m : Plain) (c : Cache) → IsFaithful m c → IsFaithful m (compact_pool_locked c)
compact-IsFaithful m c h =
    let moved = compact_pool_locked-Compacted h.tracks in
    let d = compact_pool_locked c in
    let places = places_from-same c.pool d.pool 0 c.recs d.recs moved.same in
    let sorted : d.sorted ≡ c.sorted = sorted_kept c in
    record {
      tracks = moved.tracks;
      ordered = sorted ∙ h.ordered ∙ rw (moved.commands, places) refl;
    }
  where
    sorted_kept : (c : Cache) → (compact_pool_locked c).sorted ≡ c.sorted
    sorted_kept c = unfold compact_pool_locked in refl

pub resort-IsFaithful : (m : Plain) (c : Cache) → Tracks m c → IsFaithful m (resorted c)
resort-IsFaithful m c h = record {
  tracks = record {
    shelved = h.shelved;
    owned = h.owned;
    rows = h.rows;
    owners = h.owners;
    dirty = h.dirty;
  };
  ordered = refl;
}

maybe_compact_locked-IsFaithful :
    (m : Plain) (c : Cache) → IsFaithful m c → IsFaithful m (maybe_compact_locked c)
unfolding maybe_compact_locked
maybe_compact_locked-IsFaithful m c h = elim (Bool-cases (eqb (length c.pool.strs) 0)) [
  | inl e ↦ rw (e, maybe_compact_locked) h
  | inr e ↦
      let live = referenced_string_count_locked c in
      elim (Bool-cases (eqb live 0 || ltb (live * 2) (length c.pool.strs))) [
        | inl f ↦ rw (e, f, maybe_compact_locked) (compact-IsFaithful m c h)
        | inr f ↦ rw (e, f, maybe_compact_locked) h
      ]
]

pub settle-IsFaithful : (m : Plain) (c : Cache) → Tracks m c → Returns (settle c) (IsFaithful m)
settle-IsFaithful m c h =
    rw (resort_locked-resorted c)
      (maybe_compact_locked-IsFaithful m (resorted c) (resort-IsFaithful m c h))

pub settled-Returns :
    (m : Plain) (r : Run Cache) → Returns r (Tracks m) → Returns (r >>= settle) (IsFaithful m)
settled-Returns m r h = Returns->>= r settle (Tracks m) (IsFaithful m) h (settle-IsFaithful m)
