-- ===== src/History/Cache/Compact.antt =====
-- internal/history/cache.go: the pool made anew with only the texts in use.
use remnix.Prelude.{
  ◌*◌, ℕ, suc, Bool, true, ◌||◌, List, [], ◌∷◌, none, some, if◌then◌else◌, length, ltb, eqb,
}
use remnix.Prelude.IntMap.{IntMap, find, put}
use remnix.Prelude.Dict.{Dict}
use remnix.History.Cache.Pool.{StringPool, new_string_pool, intern, text_at}
use remnix.History.Cache.{Cache, CacheRec}

-- The new pool, and where each text that was moved stands in it.
pub record Move : Type 0 where
  pub next : StringPool
  pub old_to_new : IntMap ℕ

abbrev pub new_move : Move
new_move = record { next = new_string_pool; old_to_new = [] }

unfoldable pub remap : StringPool → ℕ → Move → ℕ × Move
remap p old m = elim (find old m.old_to_new) [
  | some id ↦ (id, m)
  | none ↦
      let (id, next) = intern (text_at p old) m.next in
      (id, record { next = next; old_to_new = put old id m.old_to_new })
]

unfoldable pub remap_rec : StringPool → CacheRec → Move → CacheRec × Move
remap_rec p r m =
    let (cmd_id, m₁) = remap p r.cmd m in
    let (cwd_id, m₂) = remap p r.cwd m₁ in
    let (device_id, m₃) = remap p r.device m₂ in
    let (session_id, m₄) = remap p r.session m₃ in
    (record r { cmd = cmd_id; cwd = cwd_id; device = device_id; session = session_id }, m₄)

unfoldable pub remap_recs : StringPool → List CacheRec → Move → List CacheRec × Move
remap_recs p [] m = ([], m)
remap_recs p (r ∷ rs) m =
    let (r₁, m₁) = remap_rec p r m in let (rs₁, m₂) = remap_recs p rs m₁ in (r₁ ∷ rs₁, m₂)

-- The new `byCmd`, from the records at the places from `i` on.
unfoldable pub index_from : ℕ → List CacheRec → IntMap ℕ → IntMap ℕ
index_from i [] by_cmd = by_cmd
index_from i (r ∷ rs) by_cmd = index_from (suc i) rs (put r.cmd i by_cmd)

unfoldable pub remap_ids : StringPool → Dict ℕ → Move → Dict ℕ × Move
remap_ids p [] m = ([], m)
remap_ids p ((id, old) ∷ ids) m =
    let (new, m₁) = remap p old m in let (rest, m₂) = remap_ids p ids m₁ in ((id, new) ∷ rest, m₂)

unfoldable pub compact_pool_locked : Cache → Cache
compact_pool_locked c =
    let (moved, m) = remap_recs c.pool c.recs new_move in
    let (ids, m₁) = remap_ids c.pool c.id_to_cmd m in
    record c { pool = m₁.next; recs = moved; by_cmd = index_from 0 moved []; id_to_cmd = ids }

unfoldable pub see_rec : CacheRec → IntMap Bool → IntMap Bool
see_rec r seen = put r.session true (put r.device true (put r.cwd true (put r.cmd true seen)))

unfoldable pub see_recs : List CacheRec → IntMap Bool → IntMap Bool
see_recs [] seen = seen
see_recs (r ∷ rs) seen = see_recs rs (see_rec r seen)

unfoldable pub referenced_string_count_locked : Cache → ℕ
referenced_string_count_locked c = length (see_recs c.recs [])

unfoldable pub maybe_compact_locked : Cache → Cache
maybe_compact_locked c =
    let n = length c.pool.strs in
    let live = referenced_string_count_locked c in
    let compacted = compact_pool_locked c in
    if eqb n 0 then c else if eqb live 0 || ltb (live * 2) n then compacted else c
