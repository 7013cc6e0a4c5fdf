-- ===== src/History/Cache/Owners.antt =====
-- internal/history/cache.go: the commands of the entries, and how often each counts.
use remnix.Prelude.{
  set_at, get_elem?, get_elem?-lt, get_elem?-set_at, get_elem?-snoc, String, ℕ, suc, List, [], ◌∷◌,
  ◌++◌, none, some, ◌==◌, if◌then◌else◌, arith, ◌≡◌, refl, Bool-cases, inl, inr, eq_iff, length,
  ltb, eqb, ◌+◌, ◌≤◌, ◌<◌,
}
use remnix.Prelude.Dict.{
  Dict, lookup, insert, delete, Distinct, lookup-insert, lookup-delete, insert-Distinct,
  delete-Distinct,
}
use remnix.Prelude.IntMap.{IntMap, find, put, find-put}
use remnix.History.Cache.Pool.{StringPool}
use remnix.History.Cache.{CacheRec, forget_command}
use remnix.History.Cache.Shelf.{IsShelved}

unfoldable pub count : ℕ → Dict ℕ → ℕ
count k [] = 0
count k ((id, c) ∷ m) = let rest = count k m in if eqb c k then suc rest else rest

count-insert :
    (k : ℕ) (id : String) (c : ℕ) (m : Dict ℕ)
    → count k (insert id c m) ≤ (if eqb c k then suc (count k m) else count k m)
unfolding count insert
count-insert k id c [] = ground arith
count-insert k id c ((j, d) ∷ m) = ground (arith, count-insert k id c m)

pub count-delete_le : (k : ℕ) (id : String) (m : Dict ℕ) → count k (delete id m) ≤ count k m
unfolding count delete
count-delete_le k id [] = omega arith
count-delete_le k id ((j, d) ∷ m) = ground (arith, count-delete_le k id m)

pub count-delete :
    (k : ℕ) (id : String) (m : Dict ℕ)
    → lookup id m ≡ some k
    → suc (count k (delete id m)) ≤ count k m
unfolding count delete lookup
count-delete k id [] h = cc h
count-delete k id ((j, d) ∷ m) h = ground (arith, count-delete k id m, count-delete_le k id m)

pub count-lookup : (k : ℕ) (id : String) (m : Dict ℕ) → lookup id m ≡ some k → 1 ≤ count k m
unfolding count lookup
count-lookup k id [] h = cc h
count-lookup k id ((j, d) ∷ m) h = ground (arith, count-lookup k id m)

count_owner :
    (k : ℕ) (m : Dict ℕ) → Distinct m → 1 ≤ count k m → (id : String) × (lookup id m ≡ some k)
unfolding count lookup
count_owner k [] d h = elim h [ ]
count_owner k ((j, c) ∷ m) d h = elim (Bool-cases (eqb c k)) [
  | inl e ↦ (j, ground (arith, eq_iff j j))
  | inr e ↦
      let (id, found) = count_owner k m d.1 (ground arith) in (id, ground (arith, eq_iff j id))
]

pub lookup-forget_command :
    (k : ℕ) (id : String) (m : Dict ℕ)
    → Distinct m
    → lookup id (forget_command k m)
      ≡ elim (lookup id m) [ none ↦ none | some c ↦ if eqb c k then none else some c ]
unfolding forget_command lookup
lookup-forget_command k id [] d = refl
lookup-forget_command k id ((j, c) ∷ m) d =
    ground (arith, eq_iff j id, lookup-forget_command k id m)

pub forget_command-Distinct : (k : ℕ) (m : Dict ℕ) → Distinct m → Distinct (forget_command k m)
unfolding forget_command
forget_command-Distinct k [] d = tt
forget_command-Distinct k ((j, c) ∷ m) d =
    ground (arith, lookup-forget_command k j m, forget_command-Distinct k m)

pub count-forget_command_le : (j k : ℕ) (m : Dict ℕ) → count j (forget_command k m) ≤ count j m
unfolding forget_command count
count-forget_command_le j k [] = omega arith
count-forget_command_le j k ((id, c) ∷ m) = ground (arith, count-forget_command_le j k m)

-- Every entry has a command with a record, and a record counts at least the entries of its command.
pub record IsOwned (recs : List CacheRec) (by_cmd : IntMap ℕ) (ids : Dict ℕ) : Type 0 where
  pub owned : (id : String) (k : ℕ) → lookup id ids ≡ some k → (i : ℕ) × (find k by_cmd ≡ some i)
  pub counted :
      (i : ℕ) (r : CacheRec) → get_elem? recs i ≡ some r → (1 ≤ r.freq) × (count r.cmd ids ≤ r.freq)
  pub distinct : Distinct ids

module _ {p : StringPool} {recs : List CacheRec} {by_cmd : IntMap ℕ} {ids : Dict ℕ}
    (h : IsShelved p recs by_cmd) (o : IsOwned recs by_cmd ids) where
  pub count_more-IsOwned :
      (id : String) (i : ℕ) (r s : CacheRec)
      → get_elem? recs i ≡ some r
      → s.cmd ≡ r.cmd
      → s.freq ≡ r.freq + 1
      → IsOwned (set_at i s recs) by_cmd (insert id r.cmd ids)
  count_more-IsOwned id i r s at same more =
      let law = λ (j : ℕ). get_elem?-set_at i s recs j (get_elem?-lt recs i r at) in
      record {
        owned = λ other k f. elim (Bool-cases (id == other)) [
          | inl e ↦ (i, ground (arith, lookup-insert id other r.cmd ids, h.found i r at))
          | inr e ↦ o.owned other k (ground (arith, lookup-insert id other r.cmd ids))
        ];
        counted = λ j t f. elim (Bool-cases (eqb i j)) [
          | inl e ↦
              let it : s ≡ t = ground (arith, law j) in
              rw (← it) (ground (arith, o.counted i r at, count-insert s.cmd id r.cmd ids))
          | inr e ↦
              let there : get_elem? recs j ≡ some t = ground (arith, law j) in
              ground (
                arith,
                o.counted j t there,
                count-insert t.cmd id r.cmd ids,
                h.found i r at,
                h.found j t there,
              )
        ];
        distinct = insert-Distinct id r.cmd ids o.distinct;
      }

  pub push-IsOwned :
      (id : String) (s : CacheRec)
      → find s.cmd by_cmd ≡ none
      → s.freq ≡ 1
      → IsOwned (recs ++ s ∷ []) (put s.cmd (length recs) by_cmd) (insert id s.cmd ids)
  push-IsOwned id s fresh once =
      let n = length recs in
      let law = λ (k : ℕ). find-put s.cmd k n by_cmd in
      let unowned : count s.cmd ids < 1 = elim (Bool-cases (ltb (count s.cmd ids) 1)) [
        | inl e ↦ ground arith
        | inr e ↦
            let (other, found) = count_owner s.cmd ids o.distinct (ground arith) in
            let (i, place) = o.owned other s.cmd found in cc (place, fresh)
      ] in
      record {
        owned = λ other k f. elim (Bool-cases (id == other)) [
          | inl e ↦ (n, ground (arith, lookup-insert id other s.cmd ids, law k))
          | inr e ↦
              let (i, place) = o.owned other k (ground (arith, lookup-insert id other s.cmd ids)) in
              (i, ground (arith, law k))
        ];
        counted = λ j t f. elim (get_elem?-snoc recs s j t f) [
          | inl there ↦
              ground
                (arith, o.counted j t there, count-insert t.cmd id s.cmd ids, h.found j t there)
          | inr (last, it) ↦ rw (← it) (ground (arith, count-insert s.cmd id s.cmd ids))
        ];
        distinct = insert-Distinct id s.cmd ids o.distinct;
      }

  pub change-IsOwned :
      (i : ℕ) (r s : CacheRec)
      → get_elem? recs i ≡ some r
      → s.cmd ≡ r.cmd
      → s.freq ≡ r.freq
      → IsOwned (set_at i s recs) by_cmd ids
  change-IsOwned i r s at same equal =
      let law = λ (j : ℕ). get_elem?-set_at i s recs j (get_elem?-lt recs i r at) in
      record {
        owned = o.owned;
        counted = λ j t f. elim (Bool-cases (eqb i j)) [
          | inl e ↦
              let it : s ≡ t = ground (arith, law j) in
              rw (← it) (rw (same, equal) (o.counted i r at))
          | inr e ↦ o.counted j t (ground (arith, law j))
        ];
        distinct = o.distinct;
      }

  pub lessen-IsOwned :
      (id : String) (i : ℕ) (r s : CacheRec)
      → get_elem? recs i ≡ some r
      → lookup id ids ≡ some r.cmd
      → s.cmd ≡ r.cmd
      → s.freq + 1 ≡ r.freq
      → 1 ≤ s.freq
      → IsOwned (set_at i s recs) by_cmd (delete id ids)
  lessen-IsOwned id i r s at mine same less some_left =
      let law = λ (j : ℕ). get_elem?-set_at i s recs j (get_elem?-lt recs i r at) in
      record {
        owned = λ other k f. o.owned other k (ground (arith, lookup-delete id other ids));
        counted = λ j t f. elim (Bool-cases (eqb i j)) [
          | inl e ↦
              let it : s ≡ t = ground (arith, law j) in
              rw (← it) (rw same (ground (arith, o.counted i r at, count-delete r.cmd id ids)))
          | inr e ↦
              ground
                (arith, law j, o.counted j t (ground (arith, law j)), count-delete_le t.cmd id ids)
        ];
        distinct = delete-Distinct id ids o.distinct;
      }
