-- ===== src/Examples/Caches.antt =====
-- Instances for the cache of commands of internal/history.
use remnix.Prelude.{drop, take, String, ℕ, false, List, [], ◌∷◌, none, some, map, ◌≡◌, refl}
use remnix.Prelude.Int.{pos, negsuc}
use remnix.Prelude.Run.{Returns, done, read}
use remnix.Prelude.Text.{str_ltb, has_prefix}
use remnix.History.Entry.{Entry}
use remnix.History.Cache.Pool.{text_at}
use remnix.History.Cache.{Cache, new_cache, each}
use remnix.History.Cache.Suggest.{
  places_from, command_at, suggest, entry_from, prefix_entries_locked, scan_prefix, sort_search,
  search_between, is_past,
}
use remnix.History.Cache.Methods.{Operation, created, tombstoned, compacted, perform}
use remnix.History.Cache.Plain.{new_plain, plain_each, plain_perform}
use remnix.History.Cache.Settled.{IsFaithful}
use remnix.History.Cache.Order.{order_of, in_order, insert_in_order, command_of}
use remnix.History.Cache.Prefixes.{listed}
use remnix.History.Cache.Refines.{perform-refines}
use remnix.History.Cache.Suggested.{suggest-listed}

abbrev run_of : String → String → ℕ → Entry
run_of id command start = record {
  id = id;
  command = command;
  start_ts = pos start;
  end_ts = none;
  duration_ms = some (pos 5);
  exit_status = some (pos 0);
  cwd = "/src";
  session_id = "s1";
  hostname = "h";
  device_id = "d1";
  shell = "zsh";
  deleted = false;
  origin_device_id = "d1";
  origin_seq = none;
  created_at = none;
}

-- Three commands, of which one ran twice; the first record goes, so the last one takes its place.
abbrev work : List Operation
work =
    created (run_of "1" "make" 10)
    ∷ created (run_of "2" "git status" 20)
    ∷ created (run_of "3" "git commit" 30)
    ∷ created (run_of "4" "git status" 40)
    ∷ tombstoned ("1" ∷ [])
    ∷ compacted
    ∷ []

perform-refines_example :
    Returns (each perform work new_cache) (IsFaithful (plain_each plain_perform work new_plain))
perform-refines_example = perform-refines work

-- Two commands, sorted.
abbrev two_commands : Cache
two_commands = record {
  pool = record {
    strs = "git status" ∷ "git commit" ∷ [];
    ids = ("git status", 0) ∷ ("git commit", 1) ∷ [];
  };
  recs =
      record {
        cmd = 0;
        cwd = 0;
        device = 0;
        session = 0;
        last_start = pos 10;
        last_duration_ms = pos 0;
        last_exit = negsuc 0;
        freq = 1;
      }
      ∷ record {
        cmd = 1;
        cwd = 1;
        device = 1;
        session = 1;
        last_start = pos 20;
        last_duration_ms = pos 0;
        last_exit = pos 1;
        freq = 2;
      }
      ∷ [];
  by_cmd = (0, 0) ∷ (1, 1) ∷ [];
  id_to_cmd = ("1", 0) ∷ ("2", 1) ∷ [];
  sorted = 1 ∷ 0 ∷ [];
  dirty = false;
}

suggest-listed_example :
    suggest two_commands "git" ≡ done (take 64 (listed two_commands "git" (order_of two_commands)))
unfolding in_order places_from insert_in_order str_ltb command_of text_at
suggest-listed_example = suggest-listed two_commands "git" refl

suggest_test :
    suggest two_commands "git c"
    ≡ done (map (entry_from two_commands.pool) (drop 1 two_commands.recs))
unfolding suggest prefix_entries_locked scan_prefix sort_search search_between is_past str_ltb
    command_at text_at drop has_prefix read
suggest_test = refl
