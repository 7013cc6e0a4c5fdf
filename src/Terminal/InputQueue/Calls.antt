-- ===== src/Terminal/InputQueue/Calls.antt =====
-- What the calls of internal/terminal/pty_input.go do to the chunks that wait.
use remnix.Prelude.{
  ℕ, List, [], ◌∷◌, ◌++◌, none, some, arith, ◌≡◌, refl, sym, ◌∙◌, Option-cases, Bool-cases, inl,
  inr, ◌⊎◌, length, ltb, ◌+◌, ◌≤◌, drop, get_elem?,
}
use remnix.Terminal.Slices.{others, get_elem?-drop, cons_of}
use remnix.Terminal.InputQueue.{
  stopped_error, saturated_error, InputQueue, InputError, push, taken, compact, pop,
}

-- The chunks that wait, the oldest first, and their bytes.
abbrev pub pending : InputQueue → List (List ℕ)
pending q = drop q.head q.chunks

unfoldable pub joined : List (List ℕ) → List ℕ
joined [] = []
joined (c ∷ cs) = c ++ joined cs

pub append_assoc : (xs ys zs : List ℕ) → (xs ++ ys) ++ zs ≡ xs ++ (ys ++ zs)
append_assoc [] ys zs = refl
append_assoc (x ∷ xs) ys zs = cc (append_assoc xs ys zs)

pub append_nil : (xs : List ℕ) → xs ++ [] ≡ xs
append_nil [] = refl
append_nil (x ∷ xs) = cc (append_nil xs)

pub joined-append : (cs : List (List ℕ)) (c : List ℕ) → joined (cs ++ c ∷ []) ≡ joined cs ++ c
unfolding joined
joined-append [] c = append_nil c
joined-append (d ∷ cs) c = rw (joined-append cs c) (sym (append_assoc d (joined cs) c))

-- A push appends the bytes or leaves the queue.
pub push-cases :
    (chunk : List ℕ) (q : InputQueue)
    → ((chunk ≡ []) × (push chunk q ≡ (q, none)))
      ⊎ (((e : InputError) × (push chunk q ≡ (q, some e)))
          ⊎ ((q.bytes + length chunk ≤ q.budget)
              × ((push chunk q).1 ≡ none)
              × ((push chunk q).0.chunks ≡ q.chunks ++ chunk ∷ [])
              × ((push chunk q).0.head ≡ q.head)
              × ((push chunk q).0.bytes ≡ q.bytes + length chunk)
              × ((push chunk q).0.budget ≡ q.budget)))
unfolding push
push-cases [] q = inl (refl, refl)
push-cases (b ∷ bs) q = inr (elim (Bool-cases q.stopped) [
  | inl t ↦ inl (stopped_error, rw t refl)
  | inr t ↦ elim (Bool-cases (ltb q.budget (q.bytes + length (b ∷ bs)))) [
    | inl u ↦ inl (saturated_error, rw (t, u) refl)
    | inr u ↦ inr (
      ground arith,
      rw (t, u) refl,
      rw (t, u) refl,
      rw (t, u) refl,
      rw (t, u) refl,
      rw (t, u) refl,
    )
  ]
])

pub pop-cases :
    (q : InputQueue)
    → (pop q ≡ (q, none))
      ⊎ ((chunk : List ℕ) × (pending q ≡ chunk ∷ others (pending q))
          × (pop q ≡ (compact (taken chunk q), some chunk)))
unfolding pop
pop-cases q = elim (Option-cases (get_elem? q.chunks q.head)) [
  | inl e ↦ inl (rw (e, pop) refl)
  | inr (chunk, e) ↦ inr (
    chunk,
    cons_of (pending q) chunk (sym (get_elem?-drop q.head q.chunks) ∙ e),
    rw (e, pop) refl,
  )
]

pub compact-same :
    (q : InputQueue)
    → (pending (compact q) ≡ pending q)
      × ((compact q).bytes ≡ q.bytes)
      × ((compact q).budget ≡ q.budget)
      × (q.head ≤ length q.chunks → (compact q).head ≤ length (compact q).chunks)
unfolding compact drop
compact-same q = ground arith
