-- ===== src/History/Cache/Tracks.antt =====
-- internal/history/cache.go: a cache that says what the plain one says, and how an entry that is
-- created or completed keeps it so.
use remnix.Prelude.{
  String, ℕ, List, Option, none, some, ◌≡◌, refl, ap, Bool-cases, Option-cases, inl, inr, ◌+◌,
}
use remnix.Prelude.Int.{leb_ℤ}
use remnix.Prelude.Dict.{Dict, lookup}
use remnix.Prelude.IntMap.{IntMap, find}
use remnix.History.Entry.{Entry}
use remnix.History.Cache.Pool.{
  StringPool, intern, text_at, text_at_found, IsIndexed, Holds, Within, intern-Interned,
  text_at-Within, new_string_pool-IsIndexed,
}
use remnix.History.Cache.{Cache, CacheRec, new_cache, latest, touch}
use remnix.History.Cache.Plain.{Plain, Row, row_of_entry, count_run, new_plain}
use remnix.History.Cache.Shelf.{IsStored, IsStored-Within, IsShelved}
use remnix.History.Cache.View.{row_of, view, view_transfer}
use remnix.History.Cache.Owners.{IsOwned}

unfoldable pub owner_of : StringPool → Dict ℕ → String → Option String
owner_of p ids id = elim (lookup id ids) [ none ↦ none | some k ↦ some (text_at p k) ]

pub record Tracks (m : Plain) (c : Cache) : Type 0 where
  pub shelved : IsShelved c.pool c.recs c.by_cmd
  pub owned : IsOwned c.recs c.by_cmd c.id_to_cmd
  pub rows : (q : String) → view c.pool c.recs q ≡ m.rows q
  pub owners : (id : String) → owner_of c.pool c.id_to_cmd id ≡ m.owner id
  pub dirty : c.dirty ≡ m.dirty

pub new_cache-Tracks : Tracks new_plain new_cache
unfolding view owner_of lookup find
new_cache-Tracks = record {
  shelved = record {
    indexed = new_string_pool-IsIndexed;
    stored = λ i r f. cc f;
    placed = λ k i f. cc f;
    found = λ i r f. cc f;
  };
  owned = record { owned = λ id k f. cc f; counted = λ i r f. cc f; distinct = tt };
  rows = λ q. refl;
  owners = λ id. refl;
  dirty = refl;
}

module _ {recs : List CacheRec} {by_cmd : IntMap ℕ} (p q : StringPool) (h : IsShelved p recs by_cmd)
    (indexed : IsIndexed q) (w : Within p q) where
  pub grow-IsShelved : IsShelved q recs by_cmd
  grow-IsShelved = record {
    indexed = indexed;
    stored = λ i r f. IsStored-Within p q r w (h.stored i r f);
    placed = h.placed;
    found = h.found;
  }

  pub view-grow : (x : String) → view q recs x ≡ view p recs x
  view-grow x = view_transfer x h grow-IsShelved w (λ i r at e. (i, at)) (λ i r at e. (i, at))

  pub owner_of-grow :
      (ids : Dict ℕ) (id : String) → IsOwned recs by_cmd ids → owner_of q ids id ≡ owner_of p ids id
  unfolding owner_of
  owner_of-grow ids id o = elim (Option-cases (lookup id ids)) [
    | inl e ↦ rw (e, owner_of) refl
    | inr (k, e) ↦
        let (i, place) = o.owned id k e in
        let (r, at, same) = h.placed k i place in
        let held : Holds p k = rw (← same) ((h.stored i r at).cmd) in
        rw (e, owner_of) (ap some (text_at-Within p q k w held))
  ]

-- The record that an entry leaves, and the pool after it.
pub record Recorded (p : StringPool) (cmd_id count : ℕ) (row : Row) (r : CacheRec × StringPool)
    : Type 0 where
  pub indexed : IsIndexed r.1
  pub within : Within p r.1
  pub cmd : r.0.cmd ≡ cmd_id
  pub freq : r.0.freq ≡ count
  pub stored : IsStored r.1 r.0
  pub row_eq : row_of r.1 r.0 ≡ row

pub latest-Recorded :
    (e : Entry) (k n : ℕ) (p : StringPool)
    → IsIndexed p
    → Holds p k
    → Recorded p k n (row_of_entry e n) (latest e k n p)
unfolding latest row_of
latest-Recorded e k n p h held =
    let one = intern-Interned e.cwd p h in
    let p₁ = (intern e.cwd p).1 in
    let two = intern-Interned e.device_id p₁ one.indexed in
    let p₂ = (intern e.device_id p₁).1 in
    let three = intern-Interned e.session_id p₂ two.indexed in
    let p₃ = (intern e.session_id p₂).1 in
    let cwd = three.within _ _ (two.within _ _ one.found) in
    let device = three.within _ _ two.found in
    let session = three.found in
    record {
      indexed = three.indexed;
      within = λ i s f. three.within i s (two.within i s (one.within i s f));
      cmd = refl;
      freq = refl;
      stored = record {
        cmd = (held.0, three.within _ _ (two.within _ _ (one.within _ _ held.1)));
        cwd = (e.cwd, cwd);
        device = (e.device_id, device);
        session = (e.session_id, session);
      };
      row_eq =
          rw
            (
              text_at_found p₃ _ e.cwd cwd,
              text_at_found p₃ _ e.device_id device,
              text_at_found p₃ _ e.session_id session,
            )
            refl;
    }

pub touch-Recorded :
    (e : Entry) (r : CacheRec) (p : StringPool)
    → IsIndexed p
    → IsStored p r
    → Recorded p r.cmd (r.freq + 1) (count_run e (some (row_of p r))) (touch e r p)
unfolding touch row_of
touch-Recorded e r p h s = elim (Bool-cases (leb_ℤ r.last_start e.start_ts)) [
  | inl t ↦ rw (t, touch) (latest-Recorded e r.cmd (r.freq + 1) p h s.cmd)
  | inr f ↦
      rw (f, touch)
        (record {
          indexed = h;
          within = λ i s f. f;
          cmd = refl;
          freq = refl;
          stored = record { cmd = s.cmd; cwd = s.cwd; device = s.device; session = s.session };
          row_eq = refl;
        })
]
