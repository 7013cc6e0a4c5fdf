-- ===== src/Sync/Equalize.antt =====
-- internal/sync/equalize/equalize.go: every endpoint gets the objects that another one has.
pub mod Each
pub mod Copied
pub mod Steps
pub mod Mirrored
pub mod Union
pub mod Listed
pub mod Shared
use remnix.Prelude.{
  String, Bool, true, false, ◌||◌, List, [], ◌∷◌, ◌++◌, Option, none, some, ◌==◌, if◌then◌else◌,
  ltb, length, ℕ,
}
use remnix.Prelude.Int.{ℤ, pos, negsuc, leb_ℤ}
use remnix.Prelude.Text.{contains, has_suffix, has_prefix, split_slash}
use remnix.Prelude.Result.{Result, ok, err, Error}
use remnix.Sync.Transport.{Bytes, Transport}
use remnix.Sync.Gc.Layout.{is_seen, add_unseen, list_layout_objects}

-- The errors that `Equalize` joins, each with the id of its endpoint.
pub data Failure : Type 0 where
  begin_failed : String → Error → Failure
  list_failed : String → Error → Failure
  get_failed : String → String → Error → Failure
  put_failed : String → String → Error → Failure

last_part : String → List String → String
last_part d [] = d
last_part d (p ∷ ps) = last_part p ps

unfoldable pub skip_key : String → Bool
unfolding last_part
skip_key key =
    let base = last_part "" (split_slash key) in
    contains base ".tmp-" || has_suffix base ".tmp" || has_prefix key "metadata/health/"

abbrev pub manifest_key : String
manifest_key = "metadata/manifest"

unfoldable pub keep_keys : List String → List String
keep_keys [] = []
keep_keys (k ∷ ks) = let rest = keep_keys ks in if skip_key k then rest else k ∷ rest

-- The optional `Session` of a transport: which endpoints have one, and its two methods.
pub record Sessions (t : Transport) : Type 0 where
  pub is_session : t.Remote → Bool
  pub begin : t.Remote → Result (Unit {0}) × t.Remote
  pub finish : t.Remote → Result (Unit {0}) × t.Remote

module _ (t : Transport) where
  -- `Named`, with the endpoint's entries of `closers` and `have`, none before a call of `Equalize`.
  -- The endpoints share no storage.
  pub record Site : Type 0 where
    pub id : String
    pub remote : t.Remote
    pub opened : Bool
    pub have : List String

  unfoldable pub list_site : Site → List Failure × Site
  list_site s = elim (list_layout_objects (t.view s.remote)) [
    | err e ↦ (list_failed s.id e ∷ [], record s { have = [] })
    | ok objs ↦ ([], record s { have = keep_keys objs })
  ]

  unfoldable pub list_sites : List Site → List Failure × List Site
  list_sites [] = ([], [])
  list_sites (s ∷ ss) =
      let one = list_site s in let rest = list_sites ss in (one.0 ++ rest.0, one.1 ∷ rest.1)

  unfoldable pub union_from : List String → List Site → List String
  union_from out [] = out
  union_from out (s ∷ ss) = union_from (add_unseen out s.have) ss

  -- `endpoints[sources[0]]`, as its id and what it answers for the key.
  unfoldable pub source_of : String → List Site → Option (String × Result Bytes)
  source_of key [] = none
  source_of key (s ∷ ss) =
      let later = source_of key ss in
      if is_seen key s.have then some (s.id, (t.view s.remote).get key) else later

  -- `len(dests) == 0`
  unfoldable pub all_have : String → List Site → Bool
  all_have key [] = true
  all_have key (s ∷ ss) = let rest = all_have key ss in if is_seen key s.have then rest else false

  unfoldable pub put : String → Bytes → Site → List Failure × Site
  put key raw s =
      let r = t.put_atomic s.remote key raw in
      let s' : Site = record s { remote = r.1 } in
      elim r.0 [ ok u ↦ ([], s') | err e ↦ (put_failed s.id key e ∷ [], s') ]

  -- `json.Unmarshal` and the field `Counter` are the parameter `read_counter`.
  module _ (read_counter : Bytes → Option ℤ) where
    unfoldable pub manifest_counter : Bytes → ℤ
    manifest_counter raw = elim (read_counter raw) [ none ↦ negsuc 0 | some c ↦ c ]

    unfoldable pub put_newer : Bytes → Site → List Failure × Site
    unfolding put manifest_counter
    put_newer raw s = elim ((t.view s.remote).get manifest_key) [
      | err e ↦ put manifest_key raw s
      | ok old ↦
          if leb_ℤ (manifest_counter raw) (manifest_counter old)
          then ([], s)
          else put manifest_key raw s
    ]

    unfoldable pub copy_to : String → Bytes → Site → List Failure × Site
    unfolding put_newer
    copy_to key raw s =
        if is_seen key s.have
        then ([], s)
        else if key == manifest_key
        then (if leb_ℤ (pos 0) (manifest_counter raw) then put_newer raw s else put key raw s)
        else put key raw s

    -- The loop over `dests`.
    unfoldable pub copy_all : String → Bytes → List Site → List Failure × List Site
    copy_all key raw [] = ([], [])
    copy_all key raw (s ∷ ss) =
        let one = copy_to key raw s in
        let rest = copy_all key raw ss in (one.0 ++ rest.0, one.1 ∷ rest.1)

    unfoldable pub copy_key : String → List Site → List Failure × List Site
    copy_key key sites = if all_have key sites then ([], sites) else elim (source_of key sites) [
      | none ↦ ([], sites)
      | some (id, err e) ↦ (get_failed id key e ∷ [], sites)
      | some (id, ok raw) ↦ copy_all key raw sites
    ]

    -- The loop over `union`.
    unfoldable pub copy_keys : List String → List Site → List Failure × List Site
    unfolding copy_key
    copy_keys [] sites = ([], sites)
    copy_keys (key ∷ keys) sites =
        let one = copy_key key sites in let rest = copy_keys keys one.1 in (one.0 ++ rest.0, rest.1)

    -- What `Equalize` does between the calls of `Begin` and of `End`.
    unfoldable pub mirror : List Site → List Failure × List Site
    unfolding list_sites union_from copy_keys
    mirror sites =
        let listed = list_sites sites in
        let copied = copy_keys (union_from [] listed.1) listed.1 in (listed.0 ++ copied.0, copied.1)

    module _ (sessions : Sessions t) where
      open sessions use {is_session, begin, finish}

      -- The first `Begin` that fails ends the loop.
      unfoldable pub begin_all : List Site → List Failure × List Site
      begin_all [] = ([], [])
      begin_all (s ∷ ss) =
          let rest = begin_all ss in
          let r = begin s.remote in
          let failing : Site = record s { remote = r.1 } in
          let begun : Site = record s { remote = r.1; opened = true } in
          if is_session s.remote
          then elim r.0 [
            | err e ↦ (begin_failed s.id e ∷ [], failing ∷ ss)
            | ok u ↦ (rest.0, begun ∷ rest.1)
          ]
          else (rest.0, s ∷ rest.1)

      -- The deferred `closers`. What `End` answers is dropped.
      unfoldable pub end_all : List Site → List Site
      end_all [] = []
      end_all (s ∷ ss) =
          let ended : Site = record s { remote = (finish s.remote).1 } in
          (if s.opened then ended else s) ∷ end_all ss

      unfoldable pub equalize : List Site → List Failure × List Site
      unfolding begin_all end_all mirror
      equalize sites =
          if ltb (length sites) 2
          then ([], sites)
          else (let started = begin_all sites in
              elim started.0 [
                | f ∷ fs ↦ (f ∷ fs, end_all started.1)
                | [] ↦ (let r = mirror started.1 in (r.0, end_all r.1))
              ])
