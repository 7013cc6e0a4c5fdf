-- ===== src/Sync/Heads/Contiguous.antt =====
-- `AdvanceContiguous` of internal/sync/merge/heads.go: it ends, and a head has no gap below it.
use remnix.Prelude.{
  String, ℕ, zero, suc, true, false, List, [], ◌∷◌, some, ◌==◌, if◌then◌else◌, arith, ◌≡◌, refl,
  sym, ◌∙◌, Bool-cases, Option-cases, inl, inr, eq_iff, ◌≢◌, All, length, ◌≤◌, ◌<◌,
}
use remnix.Sync.Frontier.{advance}
use remnix.Sync.Frontier.Order.{at-advance}
use remnix.Prelude.Int.{
  ltb_ℤ_true, eq_of_parts, ltb_ℤ_false, ℤ, pos, ◌≤ℤ◌, ◌<ℤ◌, ◌+ℤ◌, max64, int_laws, ltb_ℤ, add64,
  add64_in_range,
}
use remnix.Prelude.Dict.{lookup, lookup-insert}
use remnix.Sync.Frontier.{Frontier, at}
use remnix.Sync.Db.{Db, EventRow}
use remnix.Sync.Heads.{set, applied_row, advance_from, advance_contiguous}

-- How many rows lie above a number.
above : ℤ → List EventRow → ℕ
above head [] = 0
above head (r ∷ rows) = if ltb_ℤ head r.seq then suc (above head rows) else above head rows

above-le-length : (head : ℤ) (rows : List EventRow) → above head rows ≤ length rows
unfolding above
above-le-length head [] = omega arith
above-le-length head (r ∷ rows) = ground (arith, above-le-length head rows)

above_mono : (a b : ℤ) (rows : List EventRow) → a ≤ℤ b → above b rows ≤ above a rows
unfolding above
above_mono a b [] h = omega arith
above_mono a b (r ∷ rows) h = ground (arith, above_mono a b rows h)

-- A row at a number is above every smaller one, and not above the number itself.
above_strict :
    (device_id : String) (a b : ℤ) (rows : List EventRow)
    → a <ℤ b
    → applied_row device_id b rows ≡ true
    → above b rows < above a rows
unfolding above applied_row
above_strict device_id a b [] lt h = cc
above_strict device_id a b (r ∷ rows) lt h =
    ground (arith, above_mono a b rows (omega arith), above_strict device_id a b rows lt)

-- Every row's number is below the largest `int64`.
abbrev pub Bounded : List EventRow → Type 0
Bounded = All (λ r. r.seq <ℤ max64)

pub applied_bounded :
    (device_id : String) (n : ℤ) (rows : List EventRow)
    → Bounded rows
    → applied_row device_id n rows ≡ true
    → n <ℤ max64
unfolding applied_row
applied_bounded device_id n [] b h = cc
applied_bounded device_id n (r ∷ rows) b h =
    ground (arith, applied_bounded device_id n rows b.1, b.0)

-- `Set` of a number that is not negative does on the table what `Advance` does on a frontier.
pub set-eq-advance :
    (heads : Frontier) (device_id : String) (seq : ℤ)
    → pos 0 ≤ℤ seq
    → (j : String) → at (set heads device_id seq) j ≡ at (advance heads device_id seq) j
unfolding set advance
set-eq-advance heads device_id seq h j = ground (
  arith,
  lookup-insert device_id j seq heads,
  eq_iff device_id j,
  eq_of_parts seq (pos 0),
  Option-cases (lookup device_id heads),
)

at-set_above :
    (heads : Frontier) (device_id : String) (seq : ℤ) (j : String)
    → pos 0 ≤ℤ at heads device_id
    → at heads device_id <ℤ seq
    → at (set heads device_id seq) j ≡ (if device_id == j then seq else at heads j)
at-set_above heads device_id seq j nn lt =
    set-eq-advance heads device_id seq (omega arith) j
    ∙ ground (arith, at-advance heads device_id seq j)

-- One round of the loop.
advance_from-suc :
    (fuel : ℕ) (device_id : String) (head : ℤ) (rows : List EventRow) (heads : Frontier)
    → advance_from (suc fuel) device_id head rows heads ≡ (
        if applied_row device_id (add64 head (pos 1)) rows
        then advance_from fuel device_id
            (add64 head (pos 1))
            rows
            (set heads device_id (add64 head (pos 1)))
        else some heads)
unfolding advance_from
advance_from-suc fuel device_id head rows heads = refl

-- What `AdvanceContiguous` reaches from a head: the numbers after the old head up to the new one are
-- all applied, the next one is not, and no other device's head has changed.
pub record Advanced (device_id : String) (head : ℤ) (rows : List EventRow) (heads after : Frontier)
    : Type 0 where
  pub grows : head ≤ℤ at after device_id
  pub filled :
      (seq : ℤ) → head <ℤ seq → seq ≤ℤ at after device_id → applied_row device_id seq rows ≡ true
  pub stops : applied_row device_id (at after device_id +ℤ pos 1) rows ≡ false
  pub others : (j : String) → device_id ≢ j → at after j ≡ at heads j

module _ (device_id : String) (rows : List EventRow) where
  advance_from_more :
      (fuel : ℕ) (head : ℤ) (heads : Frontier)
      → pos 0 ≤ℤ head
      → head <ℤ max64
      → applied_row device_id (head +ℤ pos 1) rows ≡ true
      → advance_from (suc fuel) device_id head rows heads
        ≡ advance_from fuel device_id (head +ℤ pos 1) rows (set heads device_id (head +ℤ pos 1))
  advance_from_more fuel head heads nn hi t =
      advance_from-suc fuel device_id head rows heads
      ∙ rw (add64_in_range head (pos 1) (omega int_laws) (omega int_laws), t)

  advance_from_done :
      (fuel : ℕ) (head : ℤ) (heads : Frontier)
      → pos 0 ≤ℤ head
      → head <ℤ max64
      → applied_row device_id (head +ℤ pos 1) rows ≡ false
      → advance_from (suc fuel) device_id head rows heads ≡ some heads
  advance_from_done fuel head heads nn hi f =
      advance_from-suc fuel device_id head rows heads
      ∙ rw (add64_in_range head (pos 1) (omega int_laws) (omega int_laws), f)

  advance_step :
      (head : ℤ) (heads after : Frontier)
      → applied_row device_id (head +ℤ pos 1) rows ≡ true
      → pos 0 ≤ℤ head
      → head ≡ at heads device_id
      → Advanced device_id (head +ℤ pos 1) rows (set heads device_id (head +ℤ pos 1)) after
      → Advanced device_id head rows heads after
  advance_step head heads after t nn same a = record {
    grows = let g : head +ℤ pos 1 ≤ℤ at after device_id = a.grows in omega int_laws;
    filled = fill;
    stops = a.stops;
    others = λ j ne. a.others j ne ∙ unchanged j ne;
  }
    where
      unchanged :
          (j : String) → device_id ≢ j → at (set heads device_id (head +ℤ pos 1)) j ≡ at heads j
      unchanged j ne =
          at-set_above heads device_id (head +ℤ pos 1) j (rw (← same) nn)
            (rw (← same) (omega int_laws))
          ∙ ground (arith, eq_iff device_id j)

      fill :
          (seq : ℤ)
          → head <ℤ seq
          → seq ≤ℤ at after device_id
          → applied_row device_id seq rows ≡ true
      fill seq lo hi = elim (Bool-cases (ltb_ℤ (head +ℤ pos 1) seq)) [
        | inl up ↦ a.filled seq (ltb_ℤ_true (head +ℤ pos 1) seq up) hi
        | inr down ↦
            let le : seq ≤ℤ head +ℤ pos 1 = ltb_ℤ_false (head +ℤ pos 1) seq down in
            let here : seq ≡ head +ℤ pos 1 = omega int_laws in rw here t
      ]

  -- The loop ends within its fuel, if that is more than the number of rows above the head.
  advance_from-Advanced :
      (fuel : ℕ) (head : ℤ) (heads : Frontier)
      → Bounded rows
      → above head rows < fuel
      → pos 0 ≤ℤ head
      → head <ℤ max64
      → head ≡ at heads device_id
      → (after : Frontier) × (advance_from fuel device_id head rows heads ≡ some after)
        × Advanced device_id head rows heads after
  advance_from-Advanced zero head heads b m nn hi same = absurd (omega arith)
  advance_from-Advanced (suc fuel) head heads b m nn hi same =
      elim (Bool-cases (applied_row device_id (head +ℤ pos 1) rows)) [
        | inl t ↦
            let lower = above_strict device_id head (head +ℤ pos 1) rows (omega int_laws) t in
            let (after, e, a) =
              advance_from-Advanced fuel (head +ℤ pos 1) (set heads device_id (head +ℤ pos 1)) b
                (omega (arith, lower)) (omega int_laws)
                (applied_bounded device_id (head +ℤ pos 1) rows b t) (at_next) in
            (
              after,
              advance_from_more fuel head heads nn hi t ∙ e,
              advance_step head heads after t nn same a,
            )
        | inr f ↦ (
          heads,
          advance_from_done fuel head heads nn hi f,
          record {
            grows = rw (← same) (omega arith);
            filled = λ seq lo hi'. absurd (let hi'' : seq ≤ℤ head = rw same hi' in omega arith);
            stops = rw (← same) f;
            others = λ j ne. refl;
          },
        )
      ]
    where
      at_next : head +ℤ pos 1 ≡ at (set heads device_id (head +ℤ pos 1)) device_id
      at_next = sym (
          at-set_above heads device_id (head +ℤ pos 1) device_id (rw (← same) nn)
            (rw (← same) (omega int_laws))
          ∙ ground (arith, eq_iff device_id device_id))

-- `AdvanceContiguous` ends, and moves the head of the device exactly to the last number that can be
-- reached through applied events: everything from the old head up to the new one is applied, the
-- event after it is not, and no other head changes. The head is a number from 0 up to the largest
-- `int64`, which no row has.
pub advance_contiguous-Advanced :
    (db : Db) (device_id : String)
    → Bounded db.events
    → pos 0 ≤ℤ at db.heads device_id
    → at db.heads device_id <ℤ max64
    → (after : Frontier) × (advance_contiguous db device_id ≡ some after)
      × Advanced device_id (at db.heads device_id) db.events db.heads after
unfolding advance_contiguous
advance_contiguous-Advanced db device_id b nn hi =
    advance_from-Advanced device_id db.events (suc (length db.events)) (at db.heads device_id)
      db.heads b (omega (arith, above-le-length (at db.heads device_id) db.events)) nn hi refl
