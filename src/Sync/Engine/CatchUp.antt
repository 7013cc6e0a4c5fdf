-- ===== src/Sync/Engine/CatchUp.antt =====
-- The heads at the end of `pullBundles` in internal/sync/syncer/engine.go.
use remnix.Prelude.{
  map, true, In, List, String, false, [], ◌∷◌, some, ◌==◌, arith, ◌≡◌, refl, ◌∙◌, Bool-cases, inl,
  inr, eq_iff, sym, ◌⊎◌,
}
use remnix.Prelude.Int.{ℤ, pos, ◌≤ℤ◌, ◌<ℤ◌, ◌+ℤ◌, max64, ltb_ℤ}
use remnix.Sync.Frontier.{Frontier, at}
use remnix.Sync.Db.{Db}
use remnix.Sync.Heads.{advance_contiguous, applied_row}
use remnix.Sync.Heads.Contiguous.{applied_bounded, Bounded, Advanced, advance_contiguous-Advanced}
use remnix.Sync.Engine.{advance_all}

-- Numbers are not negative and stay below the last `int64`.
pub record Settled (db : Db) : Type 0 where
  pub rows : Bounded db.events
  pub nonneg : (id : String) → pos 0 ≤ℤ at db.heads id
  pub small : (id : String) → at db.heads id <ℤ max64

-- One device's head after it has been advanced, and all others.
advanced_head :
    (db : Db) (id j : String) (after : Frontier)
    → Settled db
    → Advanced id (at db.heads id) db.events db.heads after
    → (at db.heads j ≤ℤ at after j) × (at after j <ℤ max64)
advanced_head db id j after s a = elim (Bool-cases (id == j)) [
  | inl e ↦ let same : id ≡ j = (eq_iff id j).0 e in rw (← same) (a.grows, own)
  | inr e ↦
      let kept : at after j ≡ at db.heads j = a.others j (λ same. ground (arith, eq_iff id j)) in
      rw kept (omega arith, s.small j)
]
  where
    own : at after id <ℤ max64
    own = elim (Bool-cases (ltb_ℤ (at db.heads id) (at after id))) [
      | inl e ↦
          applied_bounded id (at after id) db.events s.rows
            (a.filled (at after id) (ground arith) (omega arith))
      | inr e ↦ let low : at after id ≤ℤ at db.heads id = ground arith in omega (arith, s.small id)
    ]

Advanced-Settled :
    (db : Db) (id : String) (after : Frontier)
    → Settled db
    → Advanced id (at db.heads id) db.events db.heads after
    → Settled (record db { heads = after })
Advanced-Settled db id after s a = record {
  rows = s.rows;
  nonneg = λ j. omega (arith, s.nonneg j, (advanced_head db id j after s a).0);
  small = λ j. (advanced_head db id j after s a).1;
}

-- The heads after the loop: nothing but heads has changed, none is lower, each is still within bounds
-- and has only passed applied events.
pub record Raised (db after : Db) : Type 0 where
  pub settled : Settled after
  pub events : after.events ≡ db.events
  pub history : after.history ≡ db.history
  pub higher : (j : String) → at db.heads j ≤ℤ at after.heads j
  pub passed :
      (j : String) (seq : ℤ)
      → at db.heads j <ℤ seq
      → seq ≤ℤ at after.heads j
      → applied_row j seq db.events ≡ true

-- The device has no applied event right above its head.
abbrev pub IsCaughtUp : Db → String → Type 0
IsCaughtUp db id = applied_row id (at db.heads id +ℤ pos 1) db.events ≡ false

advance_all-cons :
    (id : String) (seq : ℤ) (remote : Frontier) (db : Db) (heads : Frontier)
    → advance_contiguous db id ≡ some heads
    → advance_all ((id, seq) ∷ remote) db ≡ advance_all remote (record db { heads = heads })
unfolding advance_all
advance_all-cons id seq remote db heads e = rw (e, advance_all) refl

-- What one step of the loop passes, and the devices that it leaves caught up.
Advanced-passed :
    (db : Db) (id j : String) (after : Frontier) (seq : ℤ)
    → Advanced id (at db.heads id) db.events db.heads after
    → at db.heads j <ℤ seq
    → seq ≤ℤ at after j
    → applied_row j seq db.events ≡ true
Advanced-passed db id j after seq a lo hi = elim (Bool-cases (id == j)) [
  | inl e ↦
      let same : id ≡ j = (eq_iff id j).0 e in
      rw (← same) (a.filled seq (rw (← same) at lo) (rw (← same) at hi))
  | inr e ↦
      let kept : at after j ≡ at db.heads j = a.others j (λ same. ground (arith, eq_iff id j)) in
      absurd (omega (arith, rw kept at hi, lo))
]

Advanced-IsCaughtUp :
    (db : Db) (id j : String) (after : Frontier)
    → Advanced id (at db.heads id) db.events db.heads after
    → (id ≡ j) ⊎ IsCaughtUp db j
    → IsCaughtUp (record db { heads = after }) j
Advanced-IsCaughtUp db id j after a (inl same) = rw (← same) a.stops
Advanced-IsCaughtUp db id j after a (inr h) = elim (Bool-cases (id == j)) [
  | inl e ↦ let same : id ≡ j = (eq_iff id j).0 e in rw (← same) a.stops
  | inr e ↦ rw (a.others j (λ same. ground (arith, eq_iff id j))) h
]

abbrev pub devices : Frontier → List String
devices = map (λ e. e.0)

-- The loop that advances the heads ends. It raises heads only, over applied events only, and leaves no
-- device of the map with an applied event right above its head. The numbers of the database are not
-- negative and stay below the last `int64`.
pub advance_all-Raised :
    (remote : Frontier) (db : Db)
    → Settled db
    → (after : Db) × (advance_all remote db ≡ some after)
      × Raised db after
      × ((j : String) → In j (devices remote) ⊎ IsCaughtUp db j → IsCaughtUp after j)
advance_all-Raised [] db s = (
  db,
  unfold advance_all in refl,
  record {
    settled = s;
    events = refl;
    history = refl;
    higher = λ j. omega arith;
    passed = λ j seq lo hi. absurd (omega arith);
  },
  λ j h. elim h [ inl i ↦ absurd i | inr c ↦ c ],
)
advance_all-Raised ((id, seq) ∷ remote) db s =
    let (heads, e, a) = advance_contiguous-Advanced db id s.rows (s.nonneg id) (s.small id) in
    let (after, e', r, up) =
      advance_all-Raised remote (record db { heads = heads }) (Advanced-Settled db id heads s a) in
    (
      after,
      advance_all-cons id seq remote db heads e ∙ e',
      record {
        settled = r.settled;
        events = r.events;
        history = r.history;
        higher = λ j. omega (arith, r.higher j, (advanced_head db id j heads s a).0);
        passed = λ j n lo hi. elim (Bool-cases (ltb_ℤ (at heads j) n)) [
          | inl t ↦ r.passed j n (ground arith) hi
          | inr t ↦ Advanced-passed db id j heads n a lo (ground arith)
        ];
      },
      λ j h. up j (elim h [
        | inl (inl same) ↦ inr (Advanced-IsCaughtUp db id j heads a (inl (sym same)))
        | inl (inr i) ↦ inl i
        | inr c ↦ inr (Advanced-IsCaughtUp db id j heads a (inr c))
      ]),
    )
