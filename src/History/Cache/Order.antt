-- ===== src/History/Cache/Order.antt =====
-- internal/history/cache.go: the order of the places, the binary search and the scan, as functions of
-- places that are known to be those of records.
use remnix.Prelude.{
  ◌/◌, get_elem?, String, ℕ, zero, suc, Bool, true, not, List, [], ◌∷◌, ◌++◌, none, some, ◌==◌,
  if◌then◌else◌, length, ltb, leb, ◌+◌,
}
use remnix.Prelude.Text.{str_ltb, has_prefix}
use remnix.Prelude.Run.{Run, done, ◌>>=◌, read}
use remnix.History.Entry.{Entry}
use remnix.History.Cache.Pool.{StringPool, text_at}
use remnix.History.Cache.{Cache, CacheRec}
use remnix.History.Cache.Suggest.{entry_from, places_from}

-- The command of the record at a place; the places that are sorted are those of records.
unfoldable pub command_of : StringPool → List CacheRec → ℕ → String
command_of p recs i = elim (get_elem? recs i) [ none ↦ "" | some r ↦ text_at p r.cmd ]

unfoldable pub insert_in_order : (ℕ → String) → ℕ → List ℕ → List ℕ
insert_in_order command i [] = i ∷ []
insert_in_order command i (j ∷ js) =
    let later = insert_in_order command i js in
    if str_ltb (command j) (command i) then j ∷ later else i ∷ j ∷ js

unfoldable pub in_order : (ℕ → String) → List ℕ → List ℕ
in_order command [] = []
in_order command (i ∷ is) = insert_in_order command i (in_order command is)

unfoldable pub find_between : (ℕ → Bool) → ℕ → ℕ → ℕ → ℕ
find_between reaches zero lo hi = lo
find_between reaches (suc fuel) lo hi =
    let mid = (lo + hi) / 2 in
    let above = find_between reaches fuel (mid + 1) hi in
    let below = find_between reaches fuel lo mid in
    if ltb lo hi then (if not (reaches mid) then above else below) else lo

unfoldable pub find_first : ℕ → (ℕ → Bool) → ℕ
find_first n reaches = find_between reaches n 0 n

unfoldable pub reaches : Cache → String → ℕ → Bool
reaches c prefix i = elim (get_elem? c.sorted i) [
  | none ↦ true
  | some place ↦ not (str_ltb (command_of c.pool c.recs place) prefix)
]

unfoldable pub scan_places : Cache → String → List ℕ → List Entry → Run (List Entry)
scan_places c prefix [] out = done out
scan_places c prefix (place ∷ places) out = do
  r ← read c.recs place
  let more = out ++ entry_from c.pool r ∷ []
  let skipped = scan_places c prefix places out
  let further = scan_places c prefix places more
  let kept = if leb 64 (length more) then done more else further
  let command = text_at c.pool r.cmd
  if not (has_prefix command prefix) then done out else if command == prefix then skipped else kept

abbrev pub order_of : Cache → List ℕ
order_of c = in_order (command_of c.pool c.recs) (places_from 0 c.recs)

abbrev pub resorted : Cache → Cache
resorted c = record c { sorted = order_of c }
