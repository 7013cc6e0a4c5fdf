-- ===== src/History/Cache.antt =====
-- internal/history/cache.go: the commands of the history, one record for each, for suggestions while
-- typing. `by_cmd` says where the record of a command stands and `id_to_cmd` which command an entry
-- ran. Every method holds the lock throughout. The statistics are left out; `freq` counts entries,
-- fewer than 2 ^ 31.
pub mod Pool
pub mod Suggest
pub mod Order
pub mod Compact
pub mod Methods
pub mod Plain
pub mod Shelf
pub mod View
pub mod Changes
pub mod Owners
pub mod Removal
pub mod Tracks
pub mod Created
pub mod Completed
pub mod Tombstoned
pub mod Forgotten
pub mod Remap
pub mod Carried
pub mod Reindexed
pub mod Compacted
pub mod Settled
pub mod Search
pub mod Resorted
pub mod Scanned
pub mod Prefixes
pub mod Suggested
pub mod Refines
use remnix.Prelude.{
  ◌%◌, ◌^◌, take, set_at, get_elem?, String, ℕ, zero, suc, Bool, true, false, not, ◌&&◌, ◌||◌, List,
  [], ◌∷◌, ◌++◌, Option, none, some, map, ◌==◌, if◌then◌else◌, arith, ◌≡◌, refl, sym, ap, ◌∙◌,
  subst, Bool-cases, Option-cases, inl, inr, eq_iff, In, ◌⊎◌, ◌↔◌, ◌≢◌, All, length, ltb, leb, eqb,
  ◌+◌, ◌-◌, ◌≤◌, ◌<◌,
}
use remnix.Prelude.Run.{Run, done, panic, ◌>>=◌, read}
use remnix.Prelude.IntMap.{IntMap, find, put, remove}
use remnix.Prelude.Dict.{Dict, lookup, insert, delete}
use remnix.Prelude.Int.{ℤ, pos, negsuc, ◌-ℤ◌, ltb_ℤ, leb_ℤ}
use remnix.History.Entry.{Entry}
use remnix.History.Cache.Pool.{StringPool, new_string_pool, intern, text_at}

pub record CacheRec : Type 0 where
  pub cmd : ℕ
  pub cwd : ℕ
  pub device : ℕ
  pub session : ℕ
  pub last_start : ℤ
  pub last_duration_ms : ℤ
  pub last_exit : ℤ
  pub freq : ℕ

pub record Cache : Type 0 where
  pub pool : StringPool
  pub recs : List CacheRec
  pub by_cmd : IntMap ℕ
  pub id_to_cmd : Dict ℕ
  pub sorted : List ℕ
  pub dirty : Bool

abbrev pub new_cache : Cache
new_cache = record {
  pool = new_string_pool;
  recs = [];
  by_cmd = [];
  id_to_cmd = [];
  sorted = [];
  dirty = false;
}

-- `int32(x)`
unfoldable pub int32 : ℤ → ℤ
int32 (pos n) = let m = n % 2 ^ 32 in if ltb m (2 ^ 31) then pos m else negsuc (2 ^ 32 - 1 - m)
int32 (negsuc n) = let m = n % 2 ^ 32 in if ltb m (2 ^ 31) then negsuc m else pos (2 ^ 32 - 1 - m)

unfoldable pub duration_ms_of : Entry → ℤ
duration_ms_of e = elim e.duration_ms [
  | none ↦ pos 0
  | some d ↦ if ltb_ℤ d (pos 0) then pos 0 else d
]

unfoldable pub complete_duration_ms : ℤ → ℤ → ℤ
complete_duration_ms start_ms end_ms =
    if leb_ℤ start_ms (pos 0) || ltb_ℤ end_ms start_ms then pos 0 else end_ms -ℤ start_ms

unfoldable pub exit_of : Entry → ℤ
unfolding int32
exit_of e = elim e.exit_status [ none ↦ negsuc 0 | some v ↦ int32 v ]

-- The record of a command whose last run is the entry.
unfoldable pub latest : Entry → ℕ → ℕ → StringPool → CacheRec × StringPool
latest e cmd_id count p =
    let (cwd_id, p₁) = intern e.cwd p in
    let (device_id, p₂) = intern e.device_id p₁ in
    let (session_id, p₃) = intern e.session_id p₂ in
    (
      record {
        cmd = cmd_id;
        cwd = cwd_id;
        device = device_id;
        session = session_id;
        last_start = e.start_ts;
        last_duration_ms = duration_ms_of e;
        last_exit = exit_of e;
        freq = count;
      },
      p₃,
    )

unfoldable pub touch : Entry → CacheRec → StringPool → CacheRec × StringPool
touch e r p =
    if leb_ℤ r.last_start e.start_ts
    then latest e r.cmd (r.freq + 1) p
    else (record r { freq = r.freq + 1 }, p)

-- What `applyCreatedLocked` does with an entry that it does not skip.
unfoldable pub add_entry : Entry → Cache → Run Cache
add_entry e c =
    let (cmd_id, p) = intern e.command c.pool in
    let ids = insert e.id cmd_id c.id_to_cmd in
    elim (find cmd_id c.by_cmd) [
      | some idx ↦ do
        old ← read c.recs idx
        let (r, p₁) = touch e old p
        done (record c { pool = p₁; id_to_cmd = ids; recs = set_at idx r c.recs })
      | none ↦
          let (r, p₁) = latest e cmd_id 1 p in
          done (record c {
            pool = p₁;
            id_to_cmd = ids;
            by_cmd = put cmd_id (length c.recs) c.by_cmd;
            recs = c.recs ++ r ∷ [];
          })
    ]

unfoldable pub apply_created_locked : Entry → Cache → Run Cache
apply_created_locked e c =
    let added = add_entry e c in if e.deleted || e.command == "" then done c else added

unfoldable pub apply_completed_locked : String → ℤ → ℤ → Cache → Run Cache
apply_completed_locked id end_ms exit c = elim (lookup id c.id_to_cmd) [
  | none ↦ done c
  | some cmd_id ↦ elim (find cmd_id c.by_cmd) [
    | none ↦ done c
    | some idx ↦ do
      r ← read c.recs idx
      done (record c {
        recs =
            set_at idx
              (record r {
                last_exit = int32 exit;
                last_duration_ms = complete_duration_ms r.last_start end_ms;
              })
              c.recs;
      })
  ]
]

-- `recs[idx] = recs[last]; recs = recs[:last]`
unfoldable pub swap_remove {ℓ} : {A : Type ℓ} → ℕ → A → List A → List A
swap_remove idx moved xs =
    let last = length xs - 1 in take last (if eqb idx last then xs else set_at idx moved xs)

unfoldable pub remove_at_locked : ℕ → Cache → Run Cache
remove_at_locked idx c = do
  removed ← read c.recs idx
  moved ← read c.recs (length c.recs - 1)
  let by_cmd₁ = if eqb idx (length c.recs - 1) then c.by_cmd else put moved.cmd idx c.by_cmd
  done (record c { recs = swap_remove idx moved c.recs; by_cmd = remove removed.cmd by_cmd₁ })

-- One entry fewer of the command.
unfoldable pub release : ℕ → Cache → Run Cache
release cmd_id c = elim (find cmd_id c.by_cmd) [
  | none ↦ done c
  | some idx ↦ do
    r ← read c.recs idx
    let less = record c { recs = set_at idx (record r { freq = r.freq - 1 }) c.recs }
    let removed = remove_at_locked idx less
    if leb (r.freq - 1) 0 then removed else done less
]

unfoldable pub tombstone_id : String → Cache → Run Cache
tombstone_id id c = elim (lookup id c.id_to_cmd) [
  | none ↦ done (record c { dirty = true })
  | some cmd_id ↦ release cmd_id (record c { id_to_cmd = delete id c.id_to_cmd })
]

-- Without the entries that ran the command.
unfoldable pub forget_command : ℕ → Dict ℕ → Dict ℕ
forget_command cmd_id [] = []
forget_command cmd_id ((id, cid) ∷ more) =
    let rest = forget_command cmd_id more in if eqb cid cmd_id then rest else (id, cid) ∷ rest

unfoldable pub apply_tombstone_command_unlocked : String → Cache → Run Cache
apply_tombstone_command_unlocked command c = elim (lookup command c.pool.ids) [
  | none ↦ done c
  | some cmd_id ↦ elim (find cmd_id c.by_cmd) [
    | none ↦ done c
    | some idx ↦ remove_at_locked idx (record c { id_to_cmd = forget_command cmd_id c.id_to_cmd })
  ]
]

-- A loop whose body changes the cache.
unfoldable pub each {ℓ} : {A : Type ℓ} → (A → Cache → Run Cache) → List A → Cache → Run Cache
each body [] c = done c
each body (x ∷ xs) c = do next ← body x c; each body xs next
