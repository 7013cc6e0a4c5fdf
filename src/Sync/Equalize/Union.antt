-- ===== src/Sync/Equalize/Union.antt =====
-- Which keys internal/sync/equalize/equalize.go copies.
use remnix.Prelude.{
  String, true, false, ◌||◌, List, [], ◌∷◌, ◌++◌, none, some, ◌==◌, ◌≡◌, inl, inr, refl, arith,
  eq_iff, Bool-cases, ◌∙◌, sym, subst,
}
use remnix.Prelude.Result.{Result}
use remnix.Sync.Transport.{Bytes, Transport}
use remnix.Sync.Gc.Layout.{is_seen, add_unseen}
use remnix.Sync.Equalize.{Site, source_of, union_from}

is_seen-append :
    (k j : String) (out : List String) → is_seen k (out ++ j ∷ []) ≡ is_seen k out || j == k
is_seen-append k j [] = ground arith
is_seen-append k j (i ∷ out) = ground (arith, is_seen-append k j out)

is_seen-add_unseen :
    (k : String) (out keys : List String)
    → is_seen k (add_unseen out keys) ≡ is_seen k out || is_seen k keys
unfolding add_unseen
is_seen-add_unseen k out [] = ground arith
is_seen-add_unseen k out (j ∷ keys) = elim (Bool-cases (is_seen j out)) [
  | inl seen ↦ rw seen (elim (Bool-cases (j == k)) [
    | inl same ↦
        (let has : is_seen k out ≡ true =
            subst (λ i. is_seen i out ≡ true) ((eq_iff j k).0 same) seen in
          ground (arith, is_seen-add_unseen k out keys))
    | inr other ↦ ground (arith, is_seen-add_unseen k out keys)
  ])
  | inr new ↦
      rw new (ground (arith, is_seen-add_unseen k (out ++ j ∷ []) keys, is_seen-append k j out))
]

module _ (t : Transport) where
  union_from-seen :
      (k : String) (out : List String) (sites : List (Site t))
      → is_seen k out ≡ true
      → is_seen k (union_from t out sites) ≡ true
  unfolding union_from
  union_from-seen k out [] h = h
  union_from-seen k out (s ∷ ss) h =
      union_from-seen k (add_unseen out s.have) ss (rw (is_seen-add_unseen k out s.have, h) refl)

  pub union_from-some :
      (k : String) (out : List String) (sites : List (Site t)) (x : String × Result Bytes)
      → source_of t k sites ≡ some x
      → is_seen k (union_from t out sites) ≡ true
  unfolding union_from source_of
  union_from-some k out [] x h = cc
  union_from-some k out (s ∷ ss) x h = elim (Bool-cases (is_seen k s.have)) [
    | inl seen ↦
        union_from-seen k (add_unseen out s.have) ss
          (rw (is_seen-add_unseen k out s.have, seen) (ground arith))
    | inr unseen ↦
        (let later : source_of t k ss ≡ some x =
            (let open_ : source_of t k (s ∷ ss) ≡ source_of t k ss = rw unseen refl in
              sym open_ ∙ h) in
          union_from-some k (add_unseen out s.have) ss x later)
  ]

  pub union_from-none :
      (k : String) (out : List String) (sites : List (Site t))
      → source_of t k sites ≡ none
      → is_seen k out ≡ false
      → is_seen k (union_from t out sites) ≡ false
  unfolding union_from source_of
  union_from-none k out [] h new = new
  union_from-none k out (s ∷ ss) h new = elim (Bool-cases (is_seen k s.have)) [
    | inl seen ↦
        (let open_ : source_of t k (s ∷ ss) ≡ some (s.id, (t.view s.remote).get k) = rw seen refl in
          cc)
    | inr unseen ↦
        (let later : source_of t k ss ≡ none =
            (let open_ : source_of t k (s ∷ ss) ≡ source_of t k ss = rw unseen refl in
              sym open_ ∙ h) in
          union_from-none k (add_unseen out s.have) ss later
            (rw (is_seen-add_unseen k out s.have, new, unseen) refl))
  ]
