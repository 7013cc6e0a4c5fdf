-- ===== src/History/Cache/Suggest.antt =====
-- internal/history/cache.go: the order of the commands, and the commands that begin with a prefix.
use remnix.Prelude.{
  ◌/◌, String, ℕ, zero, suc, Bool, false, not, ◌||◌, List, [], ◌∷◌, ◌++◌, none, some, map, ◌==◌,
  if◌then◌else◌, length, ltb, leb, eqb, ◌+◌,
}
use remnix.Prelude.Text.{str_ltb, has_prefix}
use remnix.Prelude.Run.{Run, done, ◌>>=◌, read}
use remnix.Prelude.Int.{pos, leb_ℤ, ltb_ℤ}
use remnix.History.Entry.{Entry}
use remnix.History.Cache.Pool.{StringPool, text_at}
use remnix.History.Cache.{Cache, CacheRec}

unfoldable pub entry_from : StringPool → CacheRec → Entry
entry_from p r = record {
  id = "";
  command = text_at p r.cmd;
  start_ts = r.last_start;
  end_ts = none;
  duration_ms = if ltb_ℤ (pos 0) r.last_duration_ms then some r.last_duration_ms else none;
  exit_status = if leb_ℤ (pos 0) r.last_exit then some r.last_exit else none;
  cwd = text_at p r.cwd;
  session_id = text_at p r.session;
  hostname = "";
  device_id = text_at p r.device;
  shell = "";
  deleted = false;
  origin_device_id = "";
  origin_seq = none;
  created_at = none;
}

-- `c.pool.get(c.recs[i].cmd)`
unfoldable pub command_at : StringPool → List CacheRec → ℕ → Run String
command_at p recs i = do r ← read recs i; done (text_at p r.cmd)

unfoldable pub places_from {ℓ} : {A : Type ℓ} → ℕ → List A → List ℕ
places_from i [] = []
places_from i (x ∷ xs) = i ∷ places_from (suc i) xs

unfoldable pub insert_place : (ℕ → Run String) → ℕ → List ℕ → Run (List ℕ)
insert_place command i [] = done (i ∷ [])
insert_place command i (j ∷ js) =
    let later = insert_place command i js in
    command j >>= λ a. command i >>= λ b.
    if str_ltb a b then later >>= (λ places. done (j ∷ places)) else done (i ∷ j ∷ js)

-- `sort.Slice` by command. It is not stable, but no command stands at two places.
unfoldable pub sort_places : (ℕ → Run String) → List ℕ → Run (List ℕ)
unfolding insert_place
sort_places command [] = done []
sort_places command (i ∷ is) = sort_places command is >>= insert_place command i

unfoldable pub resort_locked : Cache → Run Cache
unfolding command_at sort_places
resort_locked c = do
  places ← sort_places (command_at c.pool c.recs) (places_from 0 c.recs)
  done (record c { sorted = places })

-- `sort.Search`: each round halves the range, which is no longer than the fuel.
unfoldable pub search_between : (ℕ → Run Bool) → ℕ → ℕ → ℕ → Run ℕ
search_between is_past zero lo hi = done lo
search_between is_past (suc fuel) lo hi =
    let mid = (lo + hi) / 2 in
    let above = search_between is_past fuel (mid + 1) hi in
    let below = search_between is_past fuel lo mid in
    let halved = is_past mid >>= (λ past. if not past then above else below) in
    if ltb lo hi then halved else done lo

unfoldable pub sort_search : ℕ → (ℕ → Run Bool) → Run ℕ
unfolding search_between
sort_search n is_past = search_between is_past n 0 n

-- `c.pool.get(c.recs[c.sorted[i]].cmd) >= prefix`
unfoldable pub is_past : Cache → String → ℕ → Run Bool
unfolding command_at
is_past c prefix i = do
  place ← read c.sorted i
  command ← command_at c.pool c.recs place
  done (not (str_ltb command prefix))

-- The loop from `i` on, with a round for each of the places as fuel.
unfoldable pub scan_prefix : Cache → String → ℕ → ℕ → List Entry → Run (List Entry)
scan_prefix c prefix zero i out = done out
scan_prefix c prefix (suc fuel) i out =
    let round = (do
      place ← read c.sorted i
      r ← read c.recs place
      let more = out ++ entry_from c.pool r ∷ []
      let skipped = scan_prefix c prefix fuel (i + 1) out
      let further = scan_prefix c prefix fuel (i + 1) more
      let kept = if leb 64 (length more) then done more else further
      let command = text_at c.pool r.cmd
      if not (has_prefix command prefix)
          then done out
          else if command == prefix
          then skipped
          else kept) in
    if ltb i (length c.sorted) then round else done out

unfoldable pub prefix_entries_locked : Cache → String → Run (List Entry)
unfolding sort_search is_past scan_prefix
prefix_entries_locked c prefix =
    let found = (do
      first ← sort_search (length c.sorted) (is_past c prefix)
      scan_prefix c prefix (length c.sorted) first []) in
    if eqb (length c.sorted) 0 then done [] else found

unfoldable pub suggest : Cache → String → Run (List Entry)
suggest c prefix =
    let found = prefix_entries_locked c prefix in if prefix == "" || c.dirty then done [] else found

unfoldable pub all_unique : Cache → List Entry
all_unique c = if c.dirty then [] else map (entry_from c.pool) c.recs
