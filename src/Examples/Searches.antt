-- ===== src/Examples/Searches.antt =====
-- Instances for the ranking of internal/search.
use remnix.Prelude.Dict.{lookup, insert}
use remnix.Prelude.Text.{contains, has_prefix}
use remnix.Prelude.{true, false, List, [], ◌∷◌, none, some, map, ◌≡◌, refl}
use remnix.Prelude.Int.{pos, ◌-ℤ◌, ◌+ℤ◌}
use remnix.History.Entry.{Entry}
use remnix.Search.Span.{min_span, span_from, reach}
use remnix.Search.Shortest.{IsShortest, min_span-IsShortest}
use remnix.Search.Words.{runes, trim_space, is_space, fields, drop_empty, split_space}
use remnix.Search.Rank.{
  Context, rank_with, suggestions, rank_fuzzy, days_since, match_class, sort_results, count_command,
  frequency_of, is_better, fuzzy_terms, rank_all, frequency_from, context_parts, insert_result,
  fuzzy_score, collect,
}
use remnix.Search.Suggestions.{IsSuggested, command_of, suggestions-IsSuggested, bound_of}
use remnix.Search.Matches.{IsRanking, IsKept, rank_with-IsRanking}

abbrev git_log : Entry
git_log = record {
  id = "1";
  command = "git log";
  start_ts = pos 86400000;
  end_ts = none;
  duration_ms = none;
  exit_status = none;
  cwd = "/src";
  session_id = "s";
  hostname = "h";
  device_id = "d";
  shell = "zsh";
  deleted = false;
  origin_device_id = "d";
  origin_seq = none;
  created_at = none;
}

abbrev entries : List Entry
entries = git_log ∷ record git_log { id = "2"; command = "go tool" } ∷ git_log ∷ []

abbrev here : Context
here = record {
  now = some (pos 259200000);
  cwd = "/src";
  device_id = "";
  session_id = "s";
  freq = none;
}

min_span-IsShortest_example :
    IsShortest (runes "gl") (runes "go git log") (min_span (runes "gl") (runes "go git log"))
min_span-IsShortest_example = min_span-IsShortest (runes "gl") (runes "go git log")

min_span_test : min_span (runes "gl") (runes "go git log") ≡ (5, true)
unfolding min_span span_from reach runes
min_span_test = refl

rank_with-IsRanking_example :
    IsRanking
      (IsKept (λ s. s) (trim_space "gl"))
      entries
      (rank_with (λ s. s) (pos 0) "gl" entries false here)
rank_with-IsRanking_example = rank_with-IsRanking (λ s. s) (pos 0) "gl" entries here

suggestions-IsSuggested_example :
    IsSuggested
      (bound_of (pos 3))
      "g"
      (map command_of (rank_with (λ s. s) (pos 0) "g" entries false here))
      (suggestions (λ s. s) (pos 0) "g" entries here (pos 3))
suggestions-IsSuggested_example = suggestions-IsSuggested (λ s. s) (pos 0) "g" entries here (pos 3)

suggestions_test :
    suggestions (λ s. s) (pos 0) "g" entries here (pos 3) ≡ "git log" ∷ "go tool" ∷ []
unfolding suggestions collect rank_with trim_space is_space sort_results rank_fuzzy fuzzy_score
    fields drop_empty split_space fuzzy_terms min_span runes span_from reach insert_result is_better
    insert lookup ◌+ℤ◌ ◌-ℤ◌ contains has_prefix context_parts count_command days_since
    frequency_from frequency_of match_class rank_all
suggestions_test = refl
