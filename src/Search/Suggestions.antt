-- ===== src/Search/Suggestions.antt =====
-- internal/search/rank.go: which commands are suggested.
use remnix.Prelude.Int.{ℤ, pos, pos_part, leb_ℤ}
use remnix.History.Entry.{Entry}
use remnix.Prelude.{
  length-append, String, ℕ, Bool, List, [], ◌∷◌, ◌++◌, none, some, ◌≡◌, refl, sym, inl, inr, In,
  ◌⊎◌, ◌≢◌, length, ◌≤◌, ◌<◌, true, false, map, ◌==◌, if◌then◌else◌, arith, ◌∙◌, subst, Bool-cases,
  Option-cases, eq_iff, leb,
}
use remnix.Prelude.Dict.{Dict, lookup, insert, lookup-insert}
use remnix.Search.Rank.{Ranked, Context, rank_with, collect, suggestions}

-- No command stands twice.
abbrev pub IsDistinct : List String → Type 0
IsDistinct [] = Unit
IsDistinct (s ∷ ss) = (In s ss → ⊥) × IsDistinct ss

abbrev pub command_of : Ranked → String
command_of r = r.entry.command

In-append_left : (s : String) (xs ys : List String) → In s xs → In s (xs ++ ys)
In-append_left s [] ys h = absurd h
In-append_left s (x ∷ xs) ys (inl e) = inl e
In-append_left s (x ∷ xs) ys (inr h) = inr (In-append_left s xs ys h)

In-append_last : (s : String) (xs : List String) → In s (xs ++ s ∷ [])
In-append_last s [] = inl refl
In-append_last s (x ∷ xs) = inr (In-append_last s xs)

In-append_cases : (s t : String) (xs : List String) → In s (xs ++ t ∷ []) → In s xs ⊎ (s ≡ t)
In-append_cases s t [] (inl e) = inr e
In-append_cases s t [] (inr h) = absurd h
In-append_cases s t (x ∷ xs) (inl e) = inl (inl e)
In-append_cases s t (x ∷ xs) (inr h) = elim (In-append_cases s t xs h) [
  | inl k ↦ inl (inr k)
  | inr e ↦ inr e
]

append-IsDistinct :
    (t : String) (xs : List String) → (In t xs → ⊥) → IsDistinct xs → IsDistinct (xs ++ t ∷ [])
append-IsDistinct t [] fresh d = (λ h. h, tt)
append-IsDistinct t (x ∷ xs) fresh d = (
  λ h. elim (In-append_cases x t xs h) [ inl k ↦ d.0 k | inr e ↦ fresh (inl (sym e)) ],
  append-IsDistinct t xs (λ h. fresh (inr h)) d.1,
)

-- What the loop keeps: the commands seen are the ones suggested.
record Collected (limit : ℕ) (prefix : String) (ranked : List String) (out : List String)
    : Type 0 where
  distinct : IsDistinct out
  longer : (s : String) → In s out → s ≢ prefix
  bounded : length out ≤ limit
  ranked_only : (s : String) → In s out → In s ranked

record IsSeen (seen : Dict Bool) (out : List String) : Type 0 where
  known : (s : String) (b : Bool) → lookup s seen ≡ some b → In s out
  fresh : (s : String) → lookup s seen ≡ none → In s out → ⊥

-- The commands are distinct, none is the prefix, they are at most as many as the limit, each is that
-- of a ranked entry, and if there are fewer than the limit, none of those is missing.
pub record IsSuggested (limit : ℕ) (prefix : String) (ranked out : List String) : Type 0 where
  pub distinct : IsDistinct out
  pub not_prefix : (s : String) → In s out → s ≢ prefix
  pub bounded : length out ≤ limit
  pub ranked_only : (s : String) → In s out → In s ranked
  pub complete : length out < limit → (s : String) → In s ranked → s ≢ prefix → In s out

added-IsSeen :
    (t : String) (seen : Dict Bool) (out : List String)
    → IsSeen seen out
    → IsSeen (insert t true seen) (out ++ t ∷ [])
added-IsSeen t seen out h = record {
  known = λ s b f. elim (Bool-cases (t == s)) [
    | inl e ↦
        let same : t ≡ s = (eq_iff t s).0 e in
        subst (λ u. In u (out ++ t ∷ [])) same (In-append_last t out)
    | inr e ↦
        In-append_left s out (t ∷ []) (h.known s b (ground (arith, lookup-insert t s true seen)))
  ];
  fresh = λ s f i. elim (Bool-cases (t == s)) [
    | inl e ↦ ground (arith, lookup-insert t s true seen)
    | inr e ↦ elim (In-append_cases s t out i) [
      | inl old ↦ h.fresh s (ground (arith, lookup-insert t s true seen)) old
      | inr same ↦ ground (arith, eq_iff t s)
    ]
  ];
}

module _ (limit : ℕ) (prefix : String) (all : List String) where
  -- What is still to come, and what has been seen.
  record Remains (rs : List Ranked) (out : List String) : Type 0 where
    covered : (s : String) → In s all → s ≢ prefix → In s out ⊎ In s (map command_of rs)
    within : (s : String) → In s (map command_of rs) → In s all

  skip-Remains :
      (r : Ranked) (rs : List Ranked) (out : List String)
      → (command_of r ≢ prefix → In (command_of r) out)
      → Remains (r ∷ rs) out
      → Remains rs out
  skip-Remains r rs out known h = record {
    covered = λ s i n. elim (h.covered s i n) [
      | inl o ↦ inl o
      | inr (inl e) ↦ inl (rw e (known (λ p. n (e ∙ p))))
      | inr (inr later) ↦ inr later
    ];
    within = λ s i. h.within s (inr i);
  }

  added-Collected :
      (r : Ranked) (out : List String)
      → Collected limit prefix all out
      → length out < limit
      → (In (command_of r) out → ⊥)
      → command_of r ≢ prefix
      → In (command_of r) all
      → Collected limit prefix all (out ++ command_of r ∷ [])
  added-Collected r out c few fresh other listed = record {
    distinct = append-IsDistinct (command_of r) out fresh c.distinct;
    longer = λ s i. elim (In-append_cases s (command_of r) out i) [
      | inl o ↦ c.longer s o
      | inr e ↦ λ p. other (sym e ∙ p)
    ];
    bounded = omega (arith, length-append out (command_of r ∷ []));
    ranked_only = λ s i. elim (In-append_cases s (command_of r) out i) [
      | inl o ↦ c.ranked_only s o
      | inr e ↦ rw e listed
    ];
  }

  collect-IsSuggested :
      (rs : List Ranked) (seen : Dict Bool) (out : List String)
      → Collected limit prefix all out
      → length out < limit
      → IsSeen seen out
      → Remains rs out
      → IsSuggested limit prefix all (collect limit prefix rs seen out)
  unfolding collect
  collect-IsSuggested [] seen out c few s m = record {
    distinct = c.distinct;
    not_prefix = c.longer;
    bounded = c.bounded;
    ranked_only = c.ranked_only;
    complete = λ less t i n. elim (m.covered t i n) [ inl o ↦ o | inr later ↦ absurd later ];
  }
  collect-IsSuggested (r ∷ rs) seen out c few s m =
      let t = command_of r in
      elim (Bool-cases (t == prefix)) [
        | inl e ↦ rw e (
            collect-IsSuggested rs seen out c few s
              (skip-Remains r rs out (λ n. absurd (n ((eq_iff t prefix).0 e))) m))
        | inr e ↦ elim (Option-cases (lookup t seen)) [
          | inr (b, f) ↦
              rw (e, f)
                (collect-IsSuggested rs seen out c few s
                  (skip-Remains r rs out (λ n. s.known t b f) m))
          | inl f ↦
              let other : t ≢ prefix = λ p. ground (arith, eq_iff t prefix) in
              let more = out ++ t ∷ [] in
              let kept = added-Collected r out c few (s.fresh t f) other (m.within t (inl refl)) in
              elim (Bool-cases (leb limit (length more))) [
                | inl full ↦
                    rw (e, f, full)
                      (record {
                        distinct = kept.distinct;
                        not_prefix = kept.longer;
                        bounded = kept.bounded;
                        ranked_only = kept.ranked_only;
                        complete = λ less. absurd (ground arith);
                      })
                | inr room ↦
                    let rest = Remains-added r rs out m in
                    rw (e, f, room)
                      (collect-IsSuggested rs (insert t true seen) more kept (ground arith)
                        (added-IsSeen t seen out s) rest)
              ]
        ]
      ]
    where
      Remains-added :
          (r : Ranked) (rs : List Ranked) (out : List String)
          → Remains (r ∷ rs) out
          → Remains rs (out ++ command_of r ∷ [])
      Remains-added r rs out h = record {
        covered = λ s i n. elim (h.covered s i n) [
          | inl o ↦ inl (In-append_left s out (command_of r ∷ []) o)
          | inr (inl e) ↦ inl (rw e (In-append_last (command_of r) out))
          | inr (inr later) ↦ inr later
        ];
        within = λ s i. h.within s (inr i);
      }

abbrev pub bound_of : ℤ → ℕ
bound_of limit = if leb_ℤ limit (pos 0) then 8 else pos_part limit

bound_of_positive : (limit : ℤ) → 0 < bound_of limit
bound_of_positive limit = ground arith

-- The commands suggested for a prefix are distinct, none is the prefix itself, and they are at most
-- as many as the limit, which is 8 where none is given. Each is the command of an entry ranked for
-- the prefix, and where they are fewer than the limit, no command of such an entry is left out but
-- the prefix.
pub suggestions-IsSuggested :
    (lower : String → String) (clock : ℤ) (prefix : String) (entries : List Entry) (ctx : Context)
    (limit : ℤ)
    → IsSuggested
        (bound_of limit)
        prefix
        (map command_of (rank_with lower clock prefix entries false ctx))
        (suggestions lower clock prefix entries ctx limit)
unfolding suggestions
suggestions-IsSuggested lower clock prefix entries ctx limit =
    let ranked = rank_with lower clock prefix entries false ctx in
    collect-IsSuggested (bound_of limit) prefix (map command_of ranked) ranked [] []
      (record {
        distinct = tt;
        longer = λ s i. absurd i;
        bounded = omega arith;
        ranked_only = λ s i. absurd i;
      })
      (bound_of_positive limit) (record { known = λ s b f. nothing_seen s b f; fresh = λ s f i. i })
      (record { covered = λ s i n. inr i; within = λ s i. i })
  where
    nothing_seen : (s : String) (b : Bool) → lookup s [] ≡ some b → In s []
    nothing_seen s b f = unfold lookup in cc f
