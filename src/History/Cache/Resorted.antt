-- ===== src/History/Cache/Resorted.antt =====
-- internal/history/cache.go: sorting the commands reads no index out of range.
use remnix.Prelude.{
  get_elem?, String, ℕ, suc, List, [], ◌∷◌, some, arith, ◌≡◌, refl, subst, All, All-map, ◌+◌,
  Bool-cases, inl, inr,
}
use remnix.Prelude.Text.{str_ltb}
use remnix.Prelude.Run.{Run, done, read_found}
use remnix.History.Cache.{Cache, CacheRec}
use remnix.History.Cache.Suggest.{places_from, command_at, insert_place, sort_places, resort_locked}
use remnix.History.Cache.Order.{command_of, insert_in_order, in_order, order_of, resorted}
use remnix.History.Cache.Search.{in_order-All}

-- Each place is that of a record.
abbrev pub IsPlace : Cache → ℕ → Type 0
IsPlace c i = (r : CacheRec) × (get_elem? c.recs i ≡ some r)

places_from-All :
    {A : Type 0} (xs ys : List A) (k : ℕ)
    → ((i : ℕ) (x : A) → get_elem? ys i ≡ some x → get_elem? xs (k + i) ≡ some x)
    → All (λ j. (x : A) × (get_elem? xs j ≡ some x)) (places_from k ys)
unfolding places_from
places_from-All xs [] k h = tt
places_from-All xs (y ∷ ys) k h = (
  (y, ground (arith, h 0 y refl)),
  places_from-All xs ys (suc k) (λ i x at.
      let shifted : k + suc i ≡ suc k + i = omega arith in
      subst (λ n. get_elem? xs n ≡ some x) shifted (h (suc i) x at)),
)

pub order-All : (c : Cache) → All (IsPlace c) (order_of c)
order-All c = in_order-All (command_of c.pool c.recs) (IsPlace c) (places_from 0 c.recs) (
    places_from-All c.recs c.recs 0
      (λ i x at. subst (λ n. get_elem? c.recs n ≡ some x) (omega arith) at))

-- At a place of a record, the command can be read.
pub command_at_place :
    (c : Cache) (i : ℕ)
    → IsPlace c i
    → command_at c.pool c.recs i ≡ done (command_of c.pool c.recs i)
unfolding command_at command_of
command_at_place c i (r, at) = rw (read_found c.recs i r at, at, command_of) refl

module _ (command : ℕ → Run String) (plain : ℕ → String) where
  abbrev Reads : ℕ → Type 0
  Reads i = command i ≡ done (plain i)

  insert_place-insert_in_order :
      (i : ℕ) (is : List ℕ)
      → Reads i
      → All Reads is
      → insert_place command i is ≡ done (insert_in_order plain i is)
  unfolding insert_place insert_in_order
  insert_place-insert_in_order i [] h g = refl
  insert_place-insert_in_order i (j ∷ js) h g =
      let later = insert_place-insert_in_order i js h g.1 in
      elim (Bool-cases (str_ltb (plain j) (plain i))) [
        | inl e ↦ rw (g.0, h, e, later) refl
        | inr e ↦ rw (g.0, h, e) refl
      ]

  pub sort_places-in_order :
      (is : List ℕ) → All Reads is → sort_places command is ≡ done (in_order plain is)
  unfolding sort_places in_order
  sort_places-in_order [] h = refl
  sort_places-in_order (i ∷ is) h =
      rw (sort_places-in_order is h.1)
        (insert_place-insert_in_order i (in_order plain is) h.0 (in_order-All plain Reads is h.1))

pub resort_locked-resorted : (c : Cache) → resort_locked c ≡ done (resorted c)
unfolding resort_locked
resort_locked-resorted c =
    let there =
      places_from-All c.recs c.recs 0
        (λ i x at. subst (λ n. get_elem? c.recs n ≡ some x) (omega arith) at) in
    rw
      (sort_places-in_order (command_at c.pool c.recs) (command_of c.pool c.recs)
        (places_from 0 c.recs)
        (All-map (IsPlace c) (λ i. command_at c.pool c.recs i ≡ done (command_of c.pool c.recs i))
          (places_from 0 c.recs) (command_at_place c) there))
      refl
