-- ===== src/History/Cache/Carried.antt =====
-- internal/history/cache.go: what records and entries say when each is moved to a new pool.
use remnix.Prelude.{
  get_elem?, String, ℕ, zero, suc, List, [], ◌∷◌, none, some, ◌==◌, arith, ◌≡◌, refl, ap, subst,
  Bool-cases, inl, inr,
}
use remnix.Prelude.Dict.{Dict, lookup, Distinct}
use remnix.History.Cache.Pool.{StringPool, text_at, text_at_found}
use remnix.History.Cache.{CacheRec}
use remnix.History.Cache.View.{view}
use remnix.History.Cache.Order.{command_of}
use remnix.History.Cache.Tracks.{owner_of}
use remnix.History.Cache.Remap.{IsSame, AllSame, IdsSame}

module _ (p q : StringPool) where
  pub IsSame-before :
      (rs ss : List CacheRec) (i : ℕ) (s : CacheRec)
      → AllSame p q rs ss
      → get_elem? ss i ≡ some s
      → (r : CacheRec) × (get_elem? rs i ≡ some r) × IsSame p q r s
  IsSame-before [] [] i s h at = cc at
  IsSame-before [] (t ∷ ss) i s h at = absurd h
  IsSame-before (r ∷ rs) [] i s h at = absurd h
  IsSame-before (r ∷ rs) (t ∷ ss) zero s h at = (r, refl, subst (IsSame p q r) (ground arith) h.0)
  IsSame-before (r ∷ rs) (t ∷ ss) (suc i) s h at = IsSame-before rs ss i s h.1 at

  pub IsSame-after :
      (rs ss : List CacheRec) (i : ℕ) (r : CacheRec)
      → AllSame p q rs ss
      → get_elem? rs i ≡ some r
      → (s : CacheRec) × (get_elem? ss i ≡ some s) × IsSame p q r s
  IsSame-after [] [] i r h at = cc at
  IsSame-after [] (t ∷ ss) i r h at = absurd h
  IsSame-after (t ∷ rs) [] i r h at = absurd h
  IsSame-after (t ∷ rs) (s ∷ ss) zero r h at =
      (s, refl, subst (λ x. IsSame p q x s) (ground arith) h.0)
  IsSame-after (t ∷ rs) (s ∷ ss) (suc i) r h at = IsSame-after rs ss i r h.1 at

  pub view-same :
      (rs ss : List CacheRec) (x : String) → AllSame p q rs ss → view q ss x ≡ view p rs x
  unfolding view
  view-same [] [] x h = refl
  view-same [] (s ∷ ss) x h = absurd h
  view-same (r ∷ rs) [] x h = absurd h
  view-same (r ∷ rs) (s ∷ ss) x h = rw (h.0.command, h.0.row, view-same rs ss x h.1) refl

  pub command_of-same :
      (rs ss : List CacheRec) (i : ℕ) → AllSame p q rs ss → command_of q ss i ≡ command_of p rs i
  unfolding command_of
  command_of-same [] [] i h = refl
  command_of-same [] (s ∷ ss) i h = absurd h
  command_of-same (r ∷ rs) [] i h = absurd h
  command_of-same (r ∷ rs) (s ∷ ss) zero h = h.0.command
  command_of-same (r ∷ rs) (s ∷ ss) (suc i) h = command_of-same rs ss i h.1

  pub lookup-same :
      (ids news : Dict ℕ) (id : String) (n : ℕ)
      → IdsSame p q ids news
      → lookup id news ≡ some n
      → (k : ℕ) × (lookup id ids ≡ some k) × (get_elem? q.strs n ≡ some (text_at p k))
  unfolding lookup
  lookup-same [] [] id n h e = cc e
  lookup-same [] (s ∷ ss) id n h e = absurd h
  lookup-same (r ∷ rs) [] id n h e = absurd h
  lookup-same ((i, k) ∷ rs) ((j, m) ∷ ss) id n h e = elim (Bool-cases (j == id)) [
    | inl y ↦ let it : m ≡ n = ground arith in (k, rw (h.0, y) refl, rw (← it) h.1)
    | inr f ↦
        let (l, found, at) = lookup-same rs ss id n h.2 (ground arith) in (l, rw (h.0, f) found, at)
  ]

  lookup-none-same :
      (ids news : Dict ℕ) (id : String)
      → IdsSame p q ids news
      → lookup id ids ≡ none
      → lookup id news ≡ none
  unfolding lookup
  lookup-none-same [] [] id h e = refl
  lookup-none-same [] (s ∷ ss) id h e = absurd h
  lookup-none-same (r ∷ rs) [] id h e = absurd h
  lookup-none-same ((i, k) ∷ rs) ((j, m) ∷ ss) id h e =
      ground (arith, lookup-none-same rs ss id h.2)

  pub Distinct-same : (ids news : Dict ℕ) → IdsSame p q ids news → Distinct ids → Distinct news
  Distinct-same [] [] h d = tt
  Distinct-same [] (s ∷ ss) h d = absurd h
  Distinct-same (r ∷ rs) [] h d = absurd h
  Distinct-same ((i, k) ∷ rs) ((j, m) ∷ ss) h d = (
    lookup-none-same rs ss j h.2 (subst (λ x. lookup x rs ≡ none) h.0 d.0),
    Distinct-same rs ss h.2 d.1,
  )

  pub owner_of-same :
      (ids news : Dict ℕ) (id : String)
      → IdsSame p q ids news
      → owner_of q news id ≡ owner_of p ids id
  unfolding owner_of lookup
  owner_of-same [] [] id h = refl
  owner_of-same [] (s ∷ ss) id h = absurd h
  owner_of-same (r ∷ rs) [] id h = absurd h
  owner_of-same ((i, k) ∷ rs) ((j, m) ∷ ss) id h =
      let head : text_at q m ≡ text_at p k = text_at_found q m (text_at p k) h.1 in
      let later = owner_of-same rs ss id h.2 in rw h.0 (owner_step j id k m rs ss head later)
    where
      owner_step :
          (j id : String) (k m : ℕ) (rs ss : Dict ℕ)
          → text_at q m ≡ text_at p k
          → owner_of q ss id ≡ owner_of p rs id
          → owner_of q ((j, m) ∷ ss) id ≡ owner_of p ((j, k) ∷ rs) id
      owner_step j id k m rs ss head later = elim (Bool-cases (j == id)) [
        | inl y ↦ rw (y, owner_of) (ap some head)
        | inr f ↦ rw (f, owner_of) later
      ]
