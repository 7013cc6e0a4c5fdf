-- ===== src/Sync/Frontier/Order.antt =====
-- The order of frontiers: `Dominates`, `Covers`, `Advance` and `Union` of internal/sync/merge/frontier.go.
use remnix.Prelude.{String, [], ◌∷◌, true, ◌≡◌, refl, ◌↔◌, some, if◌then◌else◌, ◌==◌, eq_iff, arith}
use remnix.Prelude.Int.{ℤ, pos, ltb_ℤ, ◌≤ℤ◌}
use remnix.Prelude.Dict.{lookup, insert, Distinct, lookup-insert}
use remnix.Sync.Frontier.{Frontier, at, advance, dominates, union, NonNeg}

-- What `dominates` decides: `a` has reached every entry of `b`.
abbrev pub Reaches : Frontier → Frontier → Type 0
Reaches a b = (id : String) (seq : ℤ) → lookup id b ≡ some seq → seq ≤ℤ at a id

Reaches-cons :
    (a : Frontier) (id : String) (seq : ℤ) (b : Frontier)
    → seq ≤ℤ at a id
    → Reaches a b
    → Reaches a ((id, seq) ∷ b)
unfolding lookup
Reaches-cons a id seq b h r j s e = ground (arith, eq_iff id j, r j s)

pub Reaches-of_dominates : (a b : Frontier) → dominates a b ≡ true → Reaches a b
unfolding dominates lookup
Reaches-of_dominates a [] h id seq e = cc
Reaches-of_dominates a ((i, s) ∷ b) h id seq e =
    Reaches-cons a i s b (ground arith) (Reaches-of_dominates a b (ground arith)) id seq e

dominates_of_Reaches : (a b : Frontier) → Distinct b → Reaches a b → dominates a b ≡ true
unfolding dominates lookup
dominates_of_Reaches a [] d r = refl
dominates_of_Reaches a ((i, s) ∷ b) d r = ground (
  arith,
  r i s,
  eq_iff i i,
  dominates_of_Reaches a b d.1 (λ j t e. ground (arith, r j t, eq_iff i j)),
)

-- `dominates a b` holds exactly when every entry of `b` is at most the entry of `a` for its device,
-- for a map `b`.
pub dominates_iff : (a b : Frontier) → Distinct b → (dominates a b ≡ true) ↔ Reaches a b
dominates_iff a b d = (Reaches-of_dominates a b, dominates_of_Reaches a b d)

pub at-nonneg : (f : Frontier) (id : String) → NonNeg f → pos 0 ≤ℤ at f id
unfolding lookup
at-nonneg [] id n = omega arith
at-nonneg ((i, s) ∷ f) id n = ground (arith, at-nonneg f id n.1)

-- Between maps with no negative number, `Reaches` compares the numbers of all devices.
pub at_le_of_Reaches :
    (a b : Frontier) → NonNeg a → Reaches a b → (id : String) → at b id ≤ℤ at a id
at_le_of_Reaches a b n r id = ground (arith, at-nonneg a id n, r id (at b id))

pub Reaches-of_at_le : (a b : Frontier) → ((id : String) → at b id ≤ℤ at a id) → Reaches a b
Reaches-of_at_le a b h id seq e = ground (arith, h id)

-- `dominates` is reflexive and transitive on maps that hold no negative number.
pub dominates_preorder :
    (a b c : Frontier)
    → NonNeg a
    → Distinct a
    → Distinct c
    → (dominates a a ≡ true) × (dominates a b ≡ true → dominates b c ≡ true → dominates a c ≡ true)
dominates_preorder a b c n da dc = (
  dominates_of_Reaches a a da (Reaches-of_at_le a a (λ id. omega arith)),
  λ ab bc. dominates_of_Reaches a c dc (λ id seq e.
      let up : seq ≤ℤ at b id = Reaches-of_dominates b c bc id seq e in
      let on : at b id ≤ℤ at a id = at_le_of_Reaches a b n (Reaches-of_dominates a b ab) id in
      omega arith),
)

-- `f'` holds, for every device, the larger number of two maps.
abbrev pub IsMax : Frontier → Frontier → Frontier → Type 0
IsMax a b f = (id : String) → at f id ≡ (if ltb_ℤ (at a id) (at b id) then at b id else at a id)

insert-NonNeg :
    (id : String) (seq : ℤ) (f : Frontier) → pos 0 ≤ℤ seq → NonNeg f → NonNeg (insert id seq f)
unfolding insert
insert-NonNeg id seq [] h n = (h, tt)
insert-NonNeg id seq ((i, s) ∷ f) h n = ground (arith, insert-NonNeg id seq f h n.1)

pub advance-NonNeg : (f : Frontier) (id : String) (seq : ℤ) → NonNeg f → NonNeg (advance f id seq)
unfolding advance
advance-NonNeg f id seq n =
    ground (arith, at-nonneg f id n, λ (h : pos 0 ≤ℤ seq). insert-NonNeg id seq f h n)

-- After `advance` the device has the larger number, and no other device has changed.
pub at-advance :
    (f : Frontier) (id : String) (seq : ℤ) (j : String)
    → at (advance f id seq) j
      ≡ (if id == j then (if ltb_ℤ (at f id) seq then seq else at f id) else at f j)
unfolding advance
at-advance f id seq j = ground (arith, lookup-insert id j seq f, eq_iff id j)

union-cons :
    (a : Frontier) (id : String) (seq : ℤ) (b : Frontier)
    → union a ((id, seq) ∷ b) ≡ union (advance a id seq) b
unfolding union advance
union-cons a id seq b = refl

union-nil : (a : Frontier) → union a [] ≡ a
unfolding union
union-nil a = refl

-- `union` is the pointwise maximum of a map with no negative number and another map.
pub union-IsMax : (a b : Frontier) → NonNeg a → Distinct b → IsMax a b (union a b)
unfolding lookup
union-IsMax a [] n d id = rw union-nil (ground (arith, at-nonneg a id n))
union-IsMax a ((i, s) ∷ b) n d id =
    let n' : NonNeg (advance a i s) = advance-NonNeg a i s n in
    rw union-cons (
      ground (
        arith,
        union-IsMax (advance a i s) b n' d.1 id,
        at-advance a i s id,
        at-nonneg (advance a i s) id n',
        eq_iff i id,
      ))

union-NonNeg : (a b : Frontier) → NonNeg a → NonNeg (union a b)
union-NonNeg a [] n = rw union-nil n
union-NonNeg a ((i, s) ∷ b) n =
    rw union-cons (union-NonNeg (advance a i s) b (advance-NonNeg a i s n))

-- `union a b` is the least upper bound of two maps with no negative number: it dominates both, and
-- whatever such map dominates both dominates it.
pub union_least :
    (a b c : Frontier)
    → NonNeg a
    → NonNeg c
    → Distinct a
    → Distinct b
    → Distinct (union a b)
    → (dominates (union a b) a ≡ true)
      × (dominates (union a b) b ≡ true)
      × (dominates c a ≡ true → dominates c b ≡ true → dominates c (union a b) ≡ true)
union_least a b c na nc da db du =
    let m = union-IsMax a b na db in
    (
      (dominates_iff (union a b) a da).1
          (Reaches-of_at_le (union a b) a (λ id. ground (arith, m id))),
      (dominates_iff (union a b) b db).1
          (Reaches-of_at_le (union a b) b (λ id. ground (arith, m id))),
      λ ca cb. (dominates_iff c (union a b) du).1 (
          Reaches-of_at_le c (union a b) (λ id. ground (
            arith,
            m id,
            at_le_of_Reaches c a nc ((dominates_iff c a da).0 ca) id,
            at_le_of_Reaches c b nc ((dominates_iff c b db).0 cb) id,
          ))),
    )
