-- ===== src/Search/Rank.antt =====
-- internal/search/rank.go: the score of an entry, the ranking of entries and the commands that are
-- suggested for a prefix. `strings.ToLower` and the clock are parameters.
use remnix.Prelude.{
  ◌/◌, ◌*◌, String, ℕ, Bool, true, false, not, ◌&&◌, List, [], ◌∷◌, ◌++◌, Option, none, some, ◌==◌,
  if◌then◌else◌, length, ltb, leb, eqb, ◌+◌, ◌-◌,
}
use remnix.Prelude.Int.{ℤ, pos, pos_part, ◌+ℤ◌, ◌-ℤ◌, ltb_ℤ, leb_ℤ, eqb_ℤ}
use remnix.Prelude.Dict.{Dict, lookup, insert}
use remnix.Prelude.Text.{has_prefix, contains}
use remnix.History.Entry.{Entry}
use remnix.Search.Span.{min_span}
use remnix.Search.Words.{runes, fields, trim_space}

pub record ScoreParts : Type 0 where
  pub matched : ℤ
  pub recency : ℤ
  pub frequency : ℤ
  pub cwd : ℤ
  pub device : ℤ
  pub session : ℤ

abbrev pub no_parts : ScoreParts
no_parts = record {
  matched = pos 0;
  recency = pos 0;
  frequency = pos 0;
  cwd = pos 0;
  device = pos 0;
  session = pos 0;
}

-- `Result` of the program.
pub record Ranked : Type 0 where
  pub entry : Entry
  pub score : ℤ
  pub parts : ScoreParts

-- The zero time and the nil map are `none`.
pub record Context : Type 0 where
  pub now : Option ℤ
  pub cwd : String
  pub device_id : String
  pub session_id : String
  pub freq : Option (Dict ℕ)

abbrev pub class_fuzzy : ℕ
class_fuzzy = 1

abbrev pub class_substring : ℕ
class_substring = 2

abbrev pub class_prefix : ℕ
class_prefix = 3

-- `m[command]++`
unfoldable pub count_command : String → Dict ℕ → Dict ℕ
count_command command m = elim (lookup command m) [
  | none ↦ insert command 1 m
  | some n ↦ insert command (n + 1) m
]

unfoldable pub frequency_from : Dict ℕ → List Entry → Dict ℕ
frequency_from m [] = m
frequency_from m (e ∷ es) = frequency_from (count_command e.command m) es

unfoldable pub frequency_of : List Entry → Dict ℕ
frequency_of entries = frequency_from [] entries

-- The full days between the entry and now, from milliseconds; none when the entry is later.
unfoldable pub days_since : ℤ → ℤ → ℕ
days_since start now =
    let age = now -ℤ start in if ltb_ℤ age (pos 0) then 0 else pos_part age / 86400000

abbrev pub bonus : String → String → ℕ → ℤ
bonus wanted found weight = if not (wanted == "") && found == wanted then pos weight else pos 0

abbrev pub capped : Option ℕ → ℕ
capped none = 0
capped (some n) = if ltb 20 n then 20 else n

abbrev pub frequency_part : Option (Dict ℕ) → String → ℤ
frequency_part none command = pos 0
frequency_part (some m) command = pos (capped (lookup command m) * 80)

unfoldable pub context_parts : ℤ → Entry → Context → ScoreParts
context_parts now e ctx = record {
  matched = pos 0;
  recency = pos ((30 - days_since e.start_ts now) * 200);
  frequency = frequency_part ctx.freq e.command;
  cwd = bonus ctx.cwd e.cwd 400;
  device = bonus ctx.device_id e.device_id 80;
  session = bonus ctx.session_id e.session_id 120;
}

-- `out[i]` comes before `out[j]`.
unfoldable pub is_better : Ranked → Ranked → Bool
is_better a b =
    if not (eqb_ℤ a.score b.score)
    then ltb_ℤ b.score a.score
    else ltb_ℤ b.entry.start_ts a.entry.start_ts

-- `sort.SliceStable`
unfoldable pub insert_result : Ranked → List Ranked → List Ranked
insert_result r [] = r ∷ []
insert_result r (s ∷ ss) =
    let later = insert_result r ss in if is_better s r then s ∷ later else r ∷ s ∷ ss

unfoldable pub sort_results : List Ranked → List Ranked
sort_results [] = []
sort_results (r ∷ rs) = insert_result r (sort_results rs)

unfoldable pub match_class : String → String → ℕ
match_class term candidate =
    if has_prefix candidate term
    then class_prefix
    else if contains candidate term
    then class_substring
    else class_fuzzy

-- The loop over the terms: the lowest class and the sum of the spans; nothing if a term is missing.
unfoldable pub fuzzy_terms : String → List String → ℕ → ℕ → Option ℤ
fuzzy_terms cl [] best_class span_sum = some (pos (best_class * 1000000) -ℤ pos span_sum)
fuzzy_terms cl (term ∷ terms) best_class span_sum =
    let (span, found) = min_span (runes term) (runes cl) in
    let class = match_class term cl in
    let lowest = if ltb class best_class then class else best_class in
    let rest = fuzzy_terms cl terms lowest (span_sum + span) in if not found then none else rest

abbrev pub total : ScoreParts → ℤ
total p = p.matched +ℤ p.recency +ℤ p.frequency +ℤ p.cwd +ℤ p.device +ℤ p.session

abbrev pub with_match : ℤ → ScoreParts → ScoreParts
with_match score p = record p { matched = score }

abbrev pub given_or {ℓ} : {A : Type ℓ} → Option A → A → A
given_or none d = d
given_or (some a) d = a

-- The results of all entries, for an empty query.
unfoldable pub rank_all : ℤ → Context → List Entry → List Ranked
rank_all now ctx [] = []
rank_all now ctx (e ∷ es) =
    let parts = context_parts now e ctx in
    record { entry = e; score = total parts; parts = parts } ∷ rank_all now ctx es

unfoldable pub collect : ℕ → String → List Ranked → Dict Bool → List String → List String
collect limit prefix [] seen out = out
collect limit prefix (r ∷ rs) seen out =
    let command = r.entry.command in
    let more = out ++ command ∷ [] in
    let skipped = collect limit prefix rs seen out in
    let further = collect limit prefix rs (insert command true seen) more in
    let added = if leb limit (length more) then more else further in
    if command == prefix
    then skipped
    else elim (lookup command seen) [ none ↦ added | some b ↦ skipped ]

module _ (lower : String → String) where
  unfoldable pub fuzzy_score : String → String → Option ℤ
  fuzzy_score query candidate =
      let terms = fields (lower query) in
      let scored = fuzzy_terms (lower candidate) terms class_prefix 0 in
      if eqb (length terms) 0 then some (pos 0) else scored

  unfoldable pub rank_exact : String → List Entry → List Ranked
  rank_exact ql [] = []
  rank_exact ql (e ∷ es) =
      let rest = rank_exact ql es in
      if contains (lower e.command) ql
      then record { entry = e; score = pos 1; parts = with_match (pos 1) no_parts } ∷ rest
      else rest

  unfoldable pub rank_fuzzy : String → ℤ → Context → List Entry → List Ranked
  rank_fuzzy q now ctx [] = []
  rank_fuzzy q now ctx (e ∷ es) =
      let rest = rank_fuzzy q now ctx es in
      elim (fuzzy_score q e.command) [
        | none ↦ rest
        | some score ↦
            let parts = with_match score (context_parts now e ctx) in
            record { entry = e; score = total parts; parts = parts } ∷ rest
      ]

  module _ (clock : ℤ) where
    unfoldable pub rank_with : String → List Entry → Bool → Context → List Ranked
    rank_with query entries exact ctx =
        let now = given_or ctx.now clock in
        let freq = given_or ctx.freq (frequency_of entries) in
        let full = record ctx { now = some now; freq = some freq } in
        let q = trim_space query in
        if q == ""
        then sort_results (rank_all now full entries)
        else if exact
        then rank_exact (lower q) entries
        else sort_results (rank_fuzzy q now full entries)

    unfoldable pub suggestions : String → List Entry → Context → ℤ → List String
    suggestions prefix entries ctx limit =
        let bound = if leb_ℤ limit (pos 0) then 8 else pos_part limit in
        collect bound prefix (rank_with prefix entries false ctx) [] []

    unfoldable pub best_suggestion : String → List Entry → Context → String
    best_suggestion prefix entries ctx = elim (suggestions prefix entries ctx (pos 1)) [
      | [] ↦ ""
      | s ∷ more ↦ s
    ]
