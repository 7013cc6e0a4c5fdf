-- ===== src/History/Cache/Shelf.antt =====
-- internal/history/cache.go: the records and the index of their places, under the changes that the
-- methods make to them.
use remnix.Prelude.{
  set_at, get_elem?, get_elem?-lt, get_elem?-take, get_elem?-set_at, get_elem?-snoc,
  get_elem?-append, get_elem?-last, ℕ, List, [], ◌∷◌, ◌++◌, none, some, if◌then◌else◌, arith, ◌≡◌,
  Bool-cases, inl, inr, length, ltb, eqb, ◌-◌, false, ◌≢◌,
}
use remnix.Prelude.IntMap.{find-remove, IntMap, find, put, find-put}
use remnix.History.Cache.Pool.{StringPool, IsIndexed, Holds, Within, Holds-Within}
use remnix.History.Cache.{remove, CacheRec, swap_remove}

-- Each text of the record stands in the pool.
pub record IsStored (p : StringPool) (r : CacheRec) : Type 0 where
  pub cmd : Holds p r.cmd
  pub cwd : Holds p r.cwd
  pub device : Holds p r.device
  pub session : Holds p r.session

pub IsStored-Within : (p q : StringPool) (r : CacheRec) → Within p q → IsStored p r → IsStored q r
IsStored-Within p q r w s = record {
  cmd = Holds-Within p q r.cmd w s.cmd;
  cwd = Holds-Within p q r.cwd w s.cwd;
  device = Holds-Within p q r.device w s.device;
  session = Holds-Within p q r.session w s.session;
}

-- The index gives the place of each command's record, and of no other command.
pub record IsShelved (p : StringPool) (recs : List CacheRec) (by_cmd : IntMap ℕ) : Type 0 where
  pub indexed : IsIndexed p
  pub stored : (i : ℕ) (r : CacheRec) → get_elem? recs i ≡ some r → IsStored p r
  pub placed :
      (k i : ℕ)
      → find k by_cmd ≡ some i
      → (r : CacheRec) × (get_elem? recs i ≡ some r) × (r.cmd ≡ k)
  pub found : (i : ℕ) (r : CacheRec) → get_elem? recs i ≡ some r → find r.cmd by_cmd ≡ some i

-- No command has two records.
pub IsShelved-unique :
    (p : StringPool) (recs : List CacheRec) (by_cmd : IntMap ℕ) (i j : ℕ) (r s : CacheRec)
    → IsShelved p recs by_cmd
    → get_elem? recs i ≡ some r
    → get_elem? recs j ≡ some s
    → r.cmd ≡ s.cmd
    → i ≡ j
IsShelved-unique p recs by_cmd i j r s h hi hj e =
    let at_i = h.found i r hi in let at_j = h.found j s hj in cc (e, at_i, at_j)

pub set_at-IsShelved :
    (p q : StringPool) (recs : List CacheRec) (by_cmd : IntMap ℕ) (i : ℕ) (r s : CacheRec)
    → IsShelved p recs by_cmd
    → get_elem? recs i ≡ some r
    → s.cmd ≡ r.cmd
    → IsIndexed q
    → Within p q
    → IsStored q s
    → IsShelved q (set_at i s recs) by_cmd
set_at-IsShelved p q recs by_cmd i r s h at same indexed w new =
    let law = λ (j : ℕ). get_elem?-set_at i s recs j (get_elem?-lt recs i r at) in
    record {
      indexed = indexed;
      stored = λ j t f. elim (Bool-cases (eqb i j)) [
        | inl e ↦ let it : s ≡ t = ground (arith, law j) in rw (← it) new
        | inr e ↦ IsStored-Within p q t w (h.stored j t (ground (arith, law j)))
      ];
      placed = λ k j f. elim (Bool-cases (eqb i j)) [
        | inl e ↦
            let (t, there, cmd) = h.placed k j f in
            (s, ground (arith, law j), ground (arith, there, cmd))
        | inr e ↦ let (t, there, cmd) = h.placed k j f in (t, ground (arith, law j), cmd)
      ];
      found = λ j t f. elim (Bool-cases (eqb i j)) [
        | inl e ↦ let it : s ≡ t = ground (arith, law j) in ground (arith, h.found i r at)
        | inr e ↦ h.found j t (ground (arith, law j))
      ];
    }

pub push-IsShelved :
    (p q : StringPool) (recs : List CacheRec) (by_cmd : IntMap ℕ) (s : CacheRec)
    → IsShelved p recs by_cmd
    → find s.cmd by_cmd ≡ none
    → IsIndexed q
    → Within p q
    → IsStored q s
    → IsShelved q (recs ++ s ∷ []) (put s.cmd (length recs) by_cmd)
push-IsShelved p q recs by_cmd s h fresh indexed w new =
    let n = length recs in
    let law = λ (k : ℕ). find-put s.cmd k n by_cmd in
    record {
      indexed = indexed;
      stored = λ j t f. elim (get_elem?-snoc recs s j t f) [
        | inl old ↦ IsStored-Within p q t w (h.stored j t old)
        | inr (at, it) ↦ rw (← it) new
      ];
      placed = λ k j f. elim (Bool-cases (eqb s.cmd k)) [
        | inl e ↦
            let at : n ≡ j = ground (arith, law k) in
            (s, rw (← at) (get_elem?-last recs s), ground arith)
        | inr e ↦
            let (t, there, cmd) = h.placed k j (ground (arith, law k)) in
            (t, get_elem?-append recs s j t there, cmd)
      ];
      found = λ j t f. elim (get_elem?-snoc recs s j t f) [
        | inl old ↦ ground (arith, law t.cmd, h.found j t old)
        | inr (at, it) ↦ rw (← it) (ground (arith, law s.cmd))
      ];
    }

pub get_elem?-swap_remove :
    {A : Type 0} (i : ℕ) (x y : A) (xs : List A) (j : ℕ)
    → get_elem? xs i ≡ some x
    → get_elem? (swap_remove i y xs) j
      ≡ (if ltb j (length xs - 1) then (if eqb i j then some y else get_elem? xs j) else none)
unfolding swap_remove
get_elem?-swap_remove i x y xs j at = ground (
  arith,
  get_elem?-lt xs i x at,
  get_elem?-take (length xs - 1) xs j,
  get_elem?-take (length xs - 1) (set_at i y xs) j,
  get_elem?-set_at i y xs j,
)

pub swap_remove-IsShelved :
    (p : StringPool) (recs : List CacheRec) (by_cmd : IntMap ℕ) (i : ℕ) (r l : CacheRec)
    → IsShelved p recs by_cmd
    → get_elem? recs i ≡ some r
    → get_elem? recs (length recs - 1) ≡ some l
    → IsShelved p
        (swap_remove i l recs)
        (remove r.cmd (if eqb i (length recs - 1) then by_cmd else put l.cmd i by_cmd))
swap_remove-IsShelved p recs by_cmd i r l h at end =
    let last = length recs - 1 in
    let inside = get_elem?-lt recs i r at in
    let law = λ (j : ℕ). get_elem?-swap_remove i r l recs j at in
    let moved = if eqb i last then by_cmd else put l.cmd i by_cmd in
    let gone = λ (k : ℕ). find-remove r.cmd k moved in
    let put_law = λ (k : ℕ). find-put l.cmd k i by_cmd in
    record {
      indexed = h.indexed;
      stored = λ j t f. elim (Bool-cases (eqb i j)) [
        | inl e ↦ let it : l ≡ t = ground (arith, law j) in rw (← it) (h.stored last l end)
        | inr e ↦ h.stored j t (ground (arith, law j))
      ];
      placed = λ k j f. elim (Bool-cases (eqb i last)) [
        | inl e ↦
            let (t, there, cmd) = h.placed k j (ground (arith, gone k)) in
            let other : j ≢ i = λ same. ground (arith, gone k) in
            (t, ground (arith, law j, get_elem?-lt recs j t there), cmd)
        | inr e ↦ elim (Bool-cases (eqb l.cmd k)) [
          | inl c ↦ (l, ground (arith, law j, gone k, put_law k), ground arith)
          | inr c ↦
              let (t, there, cmd) = h.placed k j (ground (arith, gone k, put_law k)) in
              (t, ground (arith, law j, gone k, get_elem?-lt recs j t there), cmd)
        ]
      ];
      found = λ j t f. elim (Bool-cases (eqb i j)) [
        | inl e ↦
            let it : l ≡ t = ground (arith, law j) in
            let apart : eqb r.cmd l.cmd ≡ false =
              ground (arith, law j, h.found i r at, h.found last l end) in
            rw (← it) (ground (arith, law j, gone l.cmd, put_law l.cmd))
        | inr e ↦
            let old : get_elem? recs j ≡ some t = ground (arith, law j) in
            let found = h.found j t old in
            let apart : eqb r.cmd t.cmd ≡ false = ground (arith, h.found i r at) in
            let inner : eqb l.cmd t.cmd ≡ false = ground (arith, law j, h.found last l end) in
            ground (arith, gone t.cmd, put_law t.cmd)
      ];
    }
