-- ===== src/Sync/Equalize/Listed.antt =====
-- What internal/sync/equalize/equalize.go copies has a clean key.
use remnix.Prelude.{
  String, true, List, [], ◌∷◌, ◌++◌, some, ◌==◌, ◌≡◌, inl, inr, refl, Bool-cases, Option-cases,
  subst, sym, ◌∙◌, All, All-append, if◌then◌else◌,
}
use remnix.Prelude.Text.{split_slash}
use remnix.Prelude.Result.{Result, ok, Result-cases, >>=-eq-ok, ◌>>=◌}
use remnix.Sync.Transport.{Transport}
use remnix.Sync.Transport.Laws.{Clean, Lawful, is_clean}
use remnix.Sync.Gc.Layout.{
  is_seen, add_unseen, list_dirs_shallow, list_event_objects, list_layout_from, list_layout_objects,
}
use remnix.Sync.Equalize.{Site, skip_key, keep_keys, list_site, list_sites, union_from}

add_unseen-Clean : (out keys : List String) → Clean out → Clean keys → Clean (add_unseen out keys)
unfolding add_unseen
add_unseen-Clean out [] h g = h
add_unseen-Clean out (k ∷ keys) h g = elim (Bool-cases (is_seen k out)) [
  | inl seen ↦ rw seen (add_unseen-Clean out keys h g.1)
  | inr new ↦ rw new (
      add_unseen-Clean (out ++ k ∷ []) keys
        (All-append (λ j. is_clean j ≡ true) out (k ∷ []) h (g.0, tt)) g.1)
]

keep_keys-Clean : (keys : List String) → Clean keys → Clean (keep_keys keys)
unfolding keep_keys
keep_keys-Clean [] h = tt
keep_keys-Clean (k ∷ keys) h = elim (Bool-cases (skip_key k)) [
  | inl skipped ↦ rw skipped (keep_keys-Clean keys h.1)
  | inr kept ↦ rw kept (h.0, keep_keys-Clean keys h.1)
]

module _ (t : Transport) (lawful : Lawful t) where
  module _ (s : t.Remote) where
    list_dirs_shallow-Clean :
        (shallow : String → Result (List String)) (files dirs keys : List String)
        → (t.view s).list_shallow ≡ some shallow
        → Clean files
        → Clean dirs
        → list_dirs_shallow shallow files dirs ≡ ok keys
        → Clean keys
    unfolding list_dirs_shallow
    list_dirs_shallow-Clean shallow files [] keys e h g r =
        (let same : files ≡ keys = cc r in subst Clean same h)
    list_dirs_shallow-Clean shallow files (d ∷ dirs) keys e h g r =
        let (more, at, rest) = >>=-eq-ok (shallow d) _ r in
        list_dirs_shallow-Clean shallow (files ++ more) dirs keys e
          (All-append (λ j. is_clean j ≡ true) files more h
            (lawful.listed_shallow s shallow d more e g.0 at))
          g.1 rest

    list_event_objects-Clean :
        (keys : List String) → list_event_objects (t.view s) ≡ ok keys → Clean keys
    unfolding list_event_objects is_clean split_slash
    list_event_objects-Clean keys r = elim (Option-cases (t.view s).list_shallow) [
      | inl e ↦
          (let open_ : list_event_objects (t.view s) ≡ (t.view s).list "events" =
              rw (e, list_event_objects) refl in
            lawful.listed s "events" keys (sym open_ ∙ r))
      | inr (shallow, e) ↦
          (let open_ : list_event_objects (t.view s) ≡ (
                shallow "events" >>= λ files.
                (t.view s).list_dirs "events" >>= list_dirs_shallow shallow files) =
              rw (e, list_event_objects) refl in
            let (files, at, rest) = >>=-eq-ok (shallow "events") _ (sym open_ ∙ r) in
            let (dirs, there, last) = >>=-eq-ok ((t.view s).list_dirs "events") _ rest in
            list_dirs_shallow-Clean shallow files dirs keys e
              (lawful.listed_shallow s shallow "events" files e refl at)
              (lawful.listed_dirs s "events" dirs refl there) last)
    ]

    list_layout_from-Clean :
        (out ps keys : List String)
        → Clean out
        → list_layout_from (t.view s) out ps ≡ ok keys
        → Clean keys
    unfolding list_layout_from
    list_layout_from-Clean out [] keys h r = (let same : out ≡ keys = cc r in subst Clean same h)
    list_layout_from-Clean out (p ∷ ps) keys h r =
        let (objs, at, rest) =
          >>=-eq-ok (if p == "events" then list_event_objects (t.view s) else (t.view s).list p) _
            r in
        let clean : Clean objs = elim (Bool-cases (p == "events")) [
          | inl is_events ↦ list_event_objects-Clean objs (rw is_events at at)
          | inr other ↦ lawful.listed s p objs (rw other at at)
        ] in
        list_layout_from-Clean (add_unseen out objs) ps keys (add_unseen-Clean out objs h clean)
          rest

  list_site-Clean : (s : Site t) → Clean (list_site t s).1.have
  unfolding list_site list_layout_objects
  list_site-Clean s = elim (Result-cases (list_layout_objects (t.view s.remote))) [
    | inl (objs, e) ↦ rw e (
        keep_keys-Clean objs (
          list_layout_from-Clean s.remote []
            ("metadata" ∷ "keys" ∷ "events" ∷ "checkpoints" ∷ "acks" ∷ []) objs tt e))
    | inr (f, e) ↦ rw e tt
  ]

  list_sites-Clean : (sites : List (Site t)) → All (λ s. Clean s.have) (list_sites t sites).1
  unfolding list_sites
  list_sites-Clean [] = tt
  list_sites-Clean (s ∷ ss) = (list_site-Clean s, list_sites-Clean ss)

  union_from-Clean :
      (out : List String) (sites : List (Site t))
      → Clean out
      → All (λ s. Clean s.have) sites
      → Clean (union_from t out sites)
  unfolding union_from
  union_from-Clean out [] h g = h
  union_from-Clean out (s ∷ ss) h g =
      union_from-Clean (add_unseen out s.have) ss (add_unseen-Clean out s.have h g.0) g.1

  pub union-Clean : (sites : List (Site t)) → Clean (union_from t [] (list_sites t sites).1)
  union-Clean sites = union_from-Clean [] (list_sites t sites).1 tt (list_sites-Clean sites)
