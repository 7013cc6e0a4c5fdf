-- ===== src/History/Cache/Removal.antt =====
-- internal/history/cache.go: the entries that are left when the record of a command is removed.
use remnix.Prelude.{
  set_at, get_elem?, get_elem?-lt, get_elem?-set_at, String, ℕ, List, some, if◌then◌else◌, arith,
  ◌≡◌, Bool-cases, inl, inr, ◌≢◌, length, eqb, ◌-◌, ◌≤◌,
}
use remnix.Prelude.Dict.{Dict, lookup, delete, Distinct, lookup-delete, delete-Distinct}
use remnix.Prelude.IntMap.{IntMap, put, remove, find-put, find-remove}
use remnix.History.Cache.Pool.{StringPool}
use remnix.History.Cache.{CacheRec, swap_remove, forget_command}
use remnix.History.Cache.Shelf.{IsShelved, get_elem?-swap_remove}
use remnix.History.Cache.Owners.{
  count, count-delete, count-delete_le, count-lookup, count-forget_command_le,
  lookup-forget_command, forget_command-Distinct, IsOwned,
}

-- What is left of the entries: all of them have other commands.
pub record Left (cmd : ℕ) (ids rest : Dict ℕ) : Type 0 where
  pub others :
      (id : String) (k : ℕ) → lookup id rest ≡ some k → (lookup id ids ≡ some k) × (k ≢ cmd)
  pub fewer : (k : ℕ) → count k rest ≤ count k ids
  pub distinct : Distinct rest

-- The record that goes, `s`, need not count its entries.
pub swap_remove-IsOwned :
    (p : StringPool) (recs : List CacheRec) (by_cmd : IntMap ℕ) (ids rest : Dict ℕ) (i : ℕ)
    (r s l : CacheRec)
    → IsShelved p (set_at i s recs) by_cmd
    → IsOwned recs by_cmd ids
    → get_elem? recs i ≡ some r
    → s.cmd ≡ r.cmd
    → get_elem? (set_at i s recs) (length (set_at i s recs) - 1) ≡ some l
    → Left s.cmd ids rest
    → IsOwned
        (swap_remove i l (set_at i s recs))
        (remove s.cmd (if eqb i (length (set_at i s recs) - 1) then by_cmd else put l.cmd i by_cmd))
        rest
swap_remove-IsOwned p recs by_cmd ids rest i r s l h o at same end left =
    let news = set_at i s recs in
    let last = length news - 1 in
    let set_law = λ (j : ℕ). get_elem?-set_at i s recs j (get_elem?-lt recs i r at) in
    let there : get_elem? news i ≡ some s = ground (arith, set_law i) in
    let law = λ (j : ℕ). get_elem?-swap_remove i s l news j there in
    let moved = if eqb i last then by_cmd else put l.cmd i by_cmd in
    record {
      owned = λ id k f.
          let (before, other) = left.others id k f in
          let (j, place) = o.owned id k before in
          elim (Bool-cases (eqb i last)) [
            | inl e ↦ (j, ground (arith, find-remove s.cmd k moved))
            | inr e ↦ elim (Bool-cases (eqb l.cmd k)) [
              | inl c ↦ (i, ground (arith, find-remove s.cmd k moved, find-put l.cmd k i by_cmd))
              | inr c ↦ (j, ground (arith, find-remove s.cmd k moved, find-put l.cmd k i by_cmd))
            ]
          ];
      counted = λ j t f. elim (Bool-cases (eqb i j)) [
        | inl e ↦
            let apart : i ≢ last = λ y. ground (arith, law j) in
            let old : get_elem? recs last ≡ some t = ground (arith, law j, set_law last) in
            ground (arith, o.counted last t old, left.fewer t.cmd)
        | inr e ↦
            let old : get_elem? recs j ≡ some t = ground (arith, law j, set_law j) in
            ground (arith, o.counted j t old, left.fewer t.cmd)
      ];
      distinct = left.distinct;
    }

-- The last entry of a command.
pub delete-Left :
    (recs : List CacheRec) (by_cmd : IntMap ℕ) (ids : Dict ℕ) (id : String) (i : ℕ) (r : CacheRec)
    → IsOwned recs by_cmd ids
    → get_elem? recs i ≡ some r
    → lookup id ids ≡ some r.cmd
    → r.freq ≤ 1
    → Left r.cmd ids (delete id ids)
delete-Left recs by_cmd ids id i r o at mine last = record {
  others = λ other k f. (
    ground (arith, lookup-delete id other ids),
    λ same. ground (
      arith,
      o.counted i r at,
      count-delete r.cmd id ids,
      count-lookup r.cmd other (delete id ids),
    ),
  );
  fewer = λ k. count-delete_le k id ids;
  distinct = delete-Distinct id ids o.distinct;
}

pub forget_command-Left : (k : ℕ) (ids : Dict ℕ) → Distinct ids → Left k ids (forget_command k ids)
forget_command-Left k ids d = record {
  others = λ other j f. ground (arith, lookup-forget_command k other ids d);
  fewer = λ j. count-forget_command_le j k ids;
  distinct = forget_command-Distinct k ids d;
}
