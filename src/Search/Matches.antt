-- ===== src/Search/Matches.antt =====
-- internal/search/rank.go: which entries are ranked for a query.
use remnix.Prelude.{
  String, ℕ, false, List, [], ◌∷◌, none, map, arith, ◌≡◌, refl, sym, subst, Bool-cases,
  Option-cases, inl, inr, In, ◌⊎◌, ◌↔◌, ◌≢◌, All, length, eqb, ◌==◌, eq_iff,
}
use remnix.Prelude.Int.{ℤ}
use remnix.History.Entry.{Entry}
use remnix.Search.Span.{min_span}
use remnix.Search.Reach.{IsWithin}
use remnix.Search.Shortest.{min_span-IsShortest}
use remnix.Search.Words.{trim_space, runes, fields}
use remnix.Search.Rank.{
  Ranked, Context, fuzzy_terms, fuzzy_score, rank_all, rank_fuzzy, rank_with, class_prefix,
}
use remnix.Search.Order.{IsRanked, entry_of, sort_results-IsRanked, In-sort_results}

In-rank_all :
    (e : Entry) (now : ℤ) (ctx : Context) (es : List Entry)
    → In e (map entry_of (rank_all now ctx es)) ↔ In e es
unfolding rank_all
In-rank_all e now ctx [] = (λ h. h, λ h. h)
In-rank_all e now ctx (x ∷ es) =
    let later = In-rank_all e now ctx es in
    (
      λ h. elim h [ inl a ↦ inl a | inr b ↦ inr (later.0 b) ],
      λ h. elim h [ inl a ↦ inl a | inr b ↦ inr (later.1 b) ],
    )

-- A term counts if its characters occur in the text in order.
abbrev pub Occurs : String → String → Type 0
Occurs text term = IsWithin (runes term) (runes text)

fuzzy_terms-found :
    (cl : String) (terms : List String) (class span : ℕ)
    → (fuzzy_terms cl terms class span ≢ none) ↔ All (Occurs cl) terms
unfolding fuzzy_terms
fuzzy_terms-found cl [] class span = (λ h. tt, λ h e. cc e)
fuzzy_terms-found cl (term ∷ terms) class span =
    let s = min_span-IsShortest (runes term) (runes cl) in
    elim (Bool-cases (min_span (runes term) (runes cl)).1) [
      | inl t ↦
          let later = fuzzy_terms-found cl terms _ _ in
          rw t (λ h. (s.found_iff.0 t, later.0 h), λ h. later.1 h.1)
      | inr f ↦ rw f (λ h. absurd (h refl), λ h e. cc (s.found_iff.1 h.0, f))
    ]

module _ (lower : String → String) where
  -- Every term of the query occurs in the command, both in lower case.
  abbrev pub IsMatch : String → Entry → Type 0
  IsMatch q e = All (Occurs (lower e.command)) (fields (lower q))

  fuzzy_score-found :
      (q : String) (e : Entry) → (fuzzy_score lower q e.command ≢ none) ↔ IsMatch q e
  unfolding fuzzy_score
  fuzzy_score-found q e = elim (Bool-cases (eqb (length (fields (lower q))) 0)) [
    | inl z ↦ rw z (λ h. no_terms (fields (lower q)) (ground arith), λ h g. cc g)
    | inr n ↦ rw n (fuzzy_terms-found (lower e.command) (fields (lower q)) class_prefix 0)
  ]
    where
      no_terms : (ts : List String) → length ts ≡ 0 → All (Occurs (lower e.command)) ts
      no_terms [] z = tt
      no_terms (t ∷ ts) z = absurd (omega arith)

  In-rank_fuzzy :
      (e : Entry) (q : String) (now : ℤ) (ctx : Context) (es : List Entry)
      → In e (map entry_of (rank_fuzzy lower q now ctx es)) ↔ (In e es × IsMatch q e)
  unfolding rank_fuzzy
  In-rank_fuzzy e q now ctx [] = (λ h. absurd h, λ h. h.0)
  In-rank_fuzzy e q now ctx (x ∷ es) =
      let later = In-rank_fuzzy e q now ctx es in
      let law = fuzzy_score-found q x in
      elim (Option-cases (fuzzy_score lower q x.command)) [
        | inl f ↦
            rw (f, rank_fuzzy, In, map)
              (
                λ h. let k = later.0 h in (inr k.0, k.1),
                λ h. elim h.0 [
                  | inl same ↦ absurd (law.1 (subst (IsMatch q) same h.1) f)
                  | inr k ↦ later.1 (k, h.1)
                ],
              )
        | inr (score, f) ↦
            rw (f, rank_fuzzy, In, map)
              (
                λ h. elim h [
                  | inl same ↦ (inl same, subst (IsMatch q) (sym same) (law.0 (λ n. cc (f, n))))
                  | inr k ↦ let g = later.0 k in (inr g.0, g.1)
                ],
                λ h. elim h.0 [ inl same ↦ inl same | inr k ↦ inr (later.1 (k, h.1)) ],
              )
      ]

abbrev pub IsKept : (String → String) → String → Entry → Type 0
IsKept lower q e = (q ≡ "") ⊎ IsMatch lower q e

-- The results are in order, and are those of the entries that are kept.
pub record IsRanking (kept : Entry → Type 0) (entries : List Entry) (out : List Ranked)
    : Type 0 where
  pub ordered : IsRanked out
  pub listed : (e : Entry) → In e (map entry_of out) ↔ (In e entries × kept e)

-- A search that is not exact ranks just the entries in whose command every word of the query occurs,
-- its characters in order, both in lower case, or all entries when the query is blank. No result
-- scores less than a later one, and of two with one score the earlier result has not started before
-- the later.
pub rank_with-IsRanking :
    (lower : String → String) (clock : ℤ) (query : String) (entries : List Entry) (ctx : Context)
    → IsRanking
        (IsKept lower (trim_space query))
        entries
        (rank_with lower clock query entries false ctx)
unfolding rank_with
rank_with-IsRanking lower clock query entries ctx =
    let q = trim_space query in
    elim (Bool-cases (q == "")) [
      | inl t ↦
          rw (t, rank_with)
            (record {
              ordered = sort_results-IsRanked _;
              listed = λ e.
                  let sorted = In-sort_results e _ in
                  let all = In-rank_all e _ _ entries in
                  (λ h. (all.0 (sorted.0 h), inl ((eq_iff q "").0 t)), λ h. sorted.1 (all.1 h.0));
            })
      | inr f ↦
          rw (f, rank_with)
            (record {
              ordered = sort_results-IsRanked _;
              listed = λ e.
                  let sorted = In-sort_results e _ in
                  let some_of = In-rank_fuzzy lower e q _ _ entries in
                  (
                    λ h. let k = some_of.0 (sorted.0 h) in (k.0, inr k.1),
                    λ h. elim h.1 [
                      | inl blank ↦ ground (arith, eq_iff q "")
                      | inr k ↦ sorted.1 (some_of.1 (h.0, k))
                    ],
                  );
            })
    ]
