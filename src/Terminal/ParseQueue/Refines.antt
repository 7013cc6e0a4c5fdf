-- ===== src/Terminal/ParseQueue/Refines.antt =====
-- The parse queue of internal/terminal/parse_queue.go as the list of the chunks that wait.
use remnix.Prelude.{
  List, [], ◌∷◌, none, some, arith, ◌≡◌, refl, sym, ◌∙◌, Option-cases, inl, inr, ◌⊎◌, drop,
  get_elem?,
}
use remnix.Terminal.Slices.{first?, others, get_elem?-drop, drop-set_at, empty_of, cons_of}
use remnix.Terminal.ParseQueue.{ParseItem, ParseQueue, zero_item, compact, taken, pop}

-- The chunks that wait, the oldest first.
abbrev pub pending : ParseQueue → List ParseItem
pending q = drop q.head q.items

compact-pending : (q : ParseQueue) → pending (compact q) ≡ pending q
unfolding compact drop
compact-pending q = ground arith

-- `popLocked` finds the queue empty, or takes the chunk at its head.
pub pop-cases :
    (q : ParseQueue)
    → ((pending q ≡ []) × (pop q ≡ (q, none)))
      ⊎ ((item : ParseItem) × (pending q ≡ item ∷ others (pending q))
          × (pop q ≡ (compact (taken item q), some item)))
unfolding pop
pop-cases q = elim (Option-cases (get_elem? q.items q.head)) [
  | inl e ↦ inl (empty_of (pending q) (sym (get_elem?-drop q.head q.items) ∙ e), rw (e, pop) refl)
  | inr (item, e) ↦
      inr
        (item, cons_of (pending q) item (sym (get_elem?-drop q.head q.items) ∙ e), rw (e, pop) refl)
]

pub taken-pending :
    (item : ParseItem) (q : ParseQueue) → pending (compact (taken item q)) ≡ others (pending q)
unfolding taken
taken-pending item q = compact-pending (taken item q) ∙ drop-set_at q.head zero_item q.items

-- `popLocked` takes the oldest waiting chunk and leaves the others, whatever it does to the slice.
pub pop-pending :
    (q : ParseQueue) → ((pop q).1 ≡ first? (pending q)) × (pending (pop q).0 ≡ others (pending q))
pop-pending q = elim (pop-cases q) [
  | inl (e, p) ↦ (rw (p, e) refl, rw (p, e) refl)
  | inr (item, e, p) ↦ (rw (p, e) refl, rw p (taken-pending item q))
]
