-- ===== src/Sync/Bootstrap/Effects.antt =====
-- What starting from a checkpoint does to a database that is not empty
-- (internal/sync/syncer/checkpoint.go).
use remnix.Prelude.{
  String, true, List, [], ◌∷◌, ◌++◌, some, ◌==◌, if◌then◌else◌, arith, ◌≡◌, ◌∙◌, Bool-cases, inl,
  inr, eq_iff,
}
use remnix.Prelude.Int.{ℤ, pos, ltb_ℤ, ◌≤ℤ◌, ◌<ℤ◌}
use remnix.Prelude.Dict.{lookup, Distinct}
use remnix.History.Entry.{Entry}
use remnix.History.Table.{Table, get, insert, conflicts_any, stamped, insert_ignored, insert_added}
use remnix.Sync.Frontier.{Frontier, at, dominates}
use remnix.Sync.Frontier.Order.{at-advance, dominates_iff}
use remnix.Sync.Checkpoint.{Manifest}
use remnix.Sync.Db.{Env}
use remnix.Sync.Heads.{set}
use remnix.Sync.Heads.Contiguous.{set-eq-advance}
use remnix.Sync.Bootstrap.{Local, buried, raise_heads, insert_entries, bootstrap}

get-append :
    (id : String) (rows : Table) (x e : Entry)
    → get id rows ≡ some e
    → get id (rows ++ x ∷ []) ≡ some e
unfolding get
get-append id [] x e h = cc h
get-append id (r ∷ rows) x e h = ground (arith, get-append id rows x e)

get-insert :
    (env : Env) (x : Entry) (rows : Table) (id : String) (e : Entry)
    → get id rows ≡ some e
    → get id (insert env.hash_command env.now x rows).0 ≡ some e
get-insert env x rows id e h =
    elim (Bool-cases (conflicts_any env.hash_command (stamped env.now x) rows)) [
      | inl t ↦ rw (insert_ignored env.hash_command env.now x rows t) h
      | inr t ↦
          rw (insert_added env.hash_command env.now x rows t)
            (get-append id rows (stamped env.now x) e h)
    ]

get-insert_entries :
    (env : Env) (known : Table) (es : List Entry) (rows : Table) (id : String) (e : Entry)
    → get id rows ≡ some e
    → get id (insert_entries env known es rows) ≡ some e
unfolding insert_entries
get-insert_entries env known [] rows id e h = h
get-insert_entries env known (x ∷ es) rows id e h =
    get-insert_entries env known es _ id e (get-insert env (buried known x) rows id e h)

-- Starting from a checkpoint changes no row that the history has: a deleted row stays deleted, and a
-- live row stays live even where the snapshot has it as deleted.
pub bootstrap_keeps_rows :
    (env : Env) (kind : String) (m : Manifest) (es : List Entry) (s : Local) (id : String)
    (e : Entry)
    → get id s.db.history ≡ some e
    → get id (bootstrap env kind m es s).db.history ≡ some e
unfolding bootstrap
bootstrap_keeps_rows env kind m es s id e h =
    get-insert_entries env s.db.history es s.db.history id e h

at-set :
    (heads : Frontier) (id : String) (seq : ℤ) (j : String)
    → pos 0 ≤ℤ seq
    → at (set heads id seq) j
      ≡ (if id == j then (if ltb_ℤ (at heads id) seq then seq else at heads id) else at heads j)
at-set heads id seq j h = set-eq-advance heads id seq h j ∙ at-advance heads id seq j

-- `set` of a number that is not negative raises.
set_raises :
    (heads : Frontier) (id : String) (seq : ℤ)
    → pos 0 ≤ℤ seq
    → ((j : String) → at heads j ≤ℤ at (set heads id seq) j) × (seq ≤ℤ at (set heads id seq) id)
set_raises heads id seq h = (
  λ j. ground (arith, at-set heads id seq j h, eq_iff id j),
  ground (arith, at-set heads id seq id h, eq_iff id id),
)

step_raises :
    (local heads : Frontier) (id : String) (seq : ℤ)
    → pos 0 ≤ℤ at local id
    → at local id ≤ℤ at heads id
    → let after = if ltb_ℤ (at local id) seq then set heads id seq else heads in
      ((j : String) → at heads j ≤ℤ at after j) × (seq ≤ℤ at after id)
step_raises local heads id seq nn le = elim (Bool-cases (ltb_ℤ (at local id) seq)) [
  | inl e ↦
      let lt : at local id <ℤ seq = ground arith in rw e (set_raises heads id seq (omega arith))
  | inr e ↦ let ge : seq ≤ℤ at local id = ground arith in rw e (λ j. omega arith, omega arith)
]

raise_heads_raises :
    (local f heads : Frontier)
    → ((j : String) → pos 0 ≤ℤ at local j)
    → ((j : String) → at local j ≤ℤ at heads j)
    → ((j : String) → at heads j ≤ℤ at (raise_heads local f heads) j)
      × ((id : String) (seq : ℤ)
          → lookup id f ≡ some seq
          → seq ≤ℤ at (raise_heads local f heads) id)
unfolding raise_heads lookup
raise_heads_raises local [] heads nn le = (λ j. omega arith, λ id seq e. cc e)
raise_heads_raises local ((i, s) ∷ f) heads nn le =
    let (up, own) = step_raises local heads i s (nn i) (le i) in
    let (up', others) =
      raise_heads_raises local f (if ltb_ℤ (at local i) s then set heads i s else heads) nn
        (λ j. omega (arith, le j, up j)) in
    (
      λ j. omega (arith, up j, up' j),
      λ id seq e. elim (Bool-cases (i == id)) [
        | inl t ↦
            let same : i ≡ id = (eq_iff i id).0 t in
            let here : s ≡ seq = ground arith in rw (← here, ← same) (omega (arith, own, up' i))
        | inr t ↦ others id seq (ground arith)
      ],
    )

-- Starting from a checkpoint lowers no head, and afterwards the heads dominate the frontier of the
-- checkpoint, so every event below it counts as known. The heads before are not negative.
pub bootstrap_heads :
    (env : Env) (kind : String) (m : Manifest) (es : List Entry) (s : Local)
    → ((j : String) → pos 0 ≤ℤ at s.db.heads j)
    → Distinct m.frontier
    → let after = (bootstrap env kind m es s).db.heads in
      ((j : String) → at s.db.heads j ≤ℤ at after j) × (dominates after m.frontier ≡ true)
unfolding bootstrap
bootstrap_heads env kind m es s nn d =
    let (up, reached) = raise_heads_raises s.db.heads m.frontier s.db.heads nn (λ j. omega arith) in
    (up, (dominates_iff (raise_heads s.db.heads m.frontier s.db.heads) m.frontier d).1 reached)
