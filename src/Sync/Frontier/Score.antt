-- ===== src/Sync/Frontier/Score.antt =====
-- `Score` of internal/sync/merge/frontier.go: how it follows the order of `Dominates`.
use remnix.Prelude.{
  some, String, [], ◌∷◌, true, false, ◌≡◌, refl, ◌∙◌, sym, ap, none, ◌==◌, eq_iff, arith,
  Bool-cases, inl, inr, subst,
}
use remnix.Prelude.Int.{ℤ, pos, ltb_ℤ, ◌≤ℤ◌, ◌<ℤ◌, ◌+ℤ◌, add64, max64, int_laws, +ℤ_parts}
use remnix.Prelude.Dict.{lookup, delete, Distinct, lookup-delete, delete-Distinct}
use remnix.Sync.Frontier.{Frontier, at, dominates, score, score_from, NonNeg}
use remnix.Sync.Frontier.Order.{dominates_iff, at_le_of_Reaches}

-- The sum of the numbers, with no wrap-around.
unfoldable pub total : Frontier → ℤ
total [] = pos 0
total ((id, seq) ∷ f) = seq +ℤ total f

-- No sum of the numbers overflows an `int64`.
abbrev pub IsSmall : Frontier → Type 0
IsSmall f = total f ≤ℤ max64

pub total_nonneg : (f : Frontier) → NonNeg f → pos 0 ≤ℤ total f
unfolding total
total_nonneg [] n = omega arith
total_nonneg ((id, seq) ∷ f) n = omega (int_laws, total_nonneg f n.1)

pub add64_small : (a b : ℤ) → pos 0 ≤ℤ a → pos 0 ≤ℤ b → a +ℤ b ≤ℤ max64 → add64 a b ≡ a +ℤ b
unfolding add64
add64_small a b ha hb h = ground (arith, +ℤ_parts a b)

score_from_lem :
    (n : ℤ) (f : Frontier)
    → pos 0 ≤ℤ n
    → NonNeg f
    → n +ℤ total f ≤ℤ max64
    → score_from n f ≡ n +ℤ total f
unfolding score_from total
score_from_lem n [] hn nn h = omega int_laws
score_from_lem n ((id, seq) ∷ f) hn nn h =
    let pt : pos 0 ≤ℤ total f = total_nonneg f nn.1 in
    let e : n +ℤ (seq +ℤ total f) ≡ (n +ℤ seq) +ℤ total f = omega int_laws in
    let small : add64 n seq ≡ n +ℤ seq = add64_small n seq hn nn.0 (omega int_laws) in
    rw small (score_from_lem (n +ℤ seq) f (omega int_laws) nn.1 (omega int_laws) ∙ sym e)

-- The score of a small map with no negative number is the sum of its numbers.
pub score-eq-total : (f : Frontier) → NonNeg f → IsSmall f → score f ≡ total f
unfolding score
score-eq-total f n h =
    let e : pos 0 +ℤ total f ≡ total f = omega int_laws in
    score_from_lem (pos 0) f (omega arith) n (rw e h) ∙ e

total-delete_absent :
    (id : String) (f : Frontier) → lookup id f ≡ none → total (delete id f) ≡ total f
unfolding total lookup delete
total-delete_absent id [] h = refl
total-delete_absent id ((i, s) ∷ f) h = ground (arith, total-delete_absent id f)

total-delete : (id : String) (f : Frontier) → Distinct f → total f ≡ at f id +ℤ total (delete id f)
unfolding total lookup delete
total-delete id [] d = omega int_laws
total-delete id ((i, s) ∷ f) d = elim (Bool-cases (i == id)) [
  | inl e ↦ rw (
    e,
    subst (λ j. total (delete j f) ≡ total f) ((eq_iff i id).0 e) (total-delete_absent i f d.0),
  )
  | inr e ↦ rw e (
      let ih : total f ≡ at f id +ℤ total (delete id f) = total-delete id f d.1 in
      ap (λ t. s +ℤ t) ih ∙ omega int_laws)
]

delete-NonNeg : (id : String) (f : Frontier) → NonNeg f → NonNeg (delete id f)
unfolding delete
delete-NonNeg id [] n = tt
delete-NonNeg id ((i, s) ∷ f) n = ground (arith, delete-NonNeg id f n.1)

-- Larger numbers for every device have a larger sum.
total_mono :
    (a b : Frontier)
    → NonNeg a
    → Distinct a
    → Distinct b
    → ((id : String) → at b id ≤ℤ at a id)
    → total b ≤ℤ total a
unfolding total lookup
total_mono a [] n da db h = total_nonneg a n
total_mono a ((i, s) ∷ b) n da db h =
    let rest : total b ≤ℤ total (delete i a) =
      total_mono (delete i a) b (delete-NonNeg i a n) (delete-Distinct i a da) db.1
        (λ id. ground (arith, h id, lookup-delete i id a, eq_iff i id)) in
    let here : s ≤ℤ at a i = ground (arith, h i, eq_iff i i) in
    let split : total a ≡ at a i +ℤ total (delete i a) = total-delete i a da in
    rw split (omega int_laws)

-- If moreover one of them is strictly larger, so is the sum.
total_strict :
    (a b : Frontier) (id : String)
    → NonNeg a
    → Distinct a
    → Distinct b
    → ((j : String) → at b j ≤ℤ at a j)
    → at b id <ℤ at a id
    → total b <ℤ total a
total_strict a b id n da db h lt =
    let rest : total (delete id b) ≤ℤ total (delete id a) =
      total_mono (delete id a) (delete id b) (delete-NonNeg id a n) (delete-Distinct id a da)
        (delete-Distinct id b db)
        (λ j. ground (arith, h j, lookup-delete id j a, lookup-delete id j b)) in
    rw (total-delete id a da, total-delete id b db) (omega int_laws)

-- A map that is not dominated has an entry that says so.
not_dominated :
    (a b : Frontier)
    → Distinct a
    → dominates b a ≡ false
    → (id : String) × (seq : ℤ) × (lookup id a ≡ some seq) × (at b id <ℤ seq)
unfolding dominates lookup
not_dominated [] b d h = cc
not_dominated ((i, s) ∷ a) b d h = elim (Bool-cases (ltb_ℤ (at b i) s)) [
  | inl e ↦ (i, s, ground (arith, eq_iff i i), ground arith)
  | inr e ↦
      let (id, seq, found, lt) = not_dominated a b d.1 (ground arith) in
      (id, seq, later id seq found d.0, lt)
]
  where
    later :
        (id : String) (seq : ℤ)
        → lookup id a ≡ some seq
        → lookup i a ≡ none
        → lookup id ((i, s) ∷ a) ≡ some seq
    later id seq f n = ground (arith, eq_iff i id)

-- If `a` dominates `b` and `b` does not dominate `a`, the score of `a` is larger, where neither map
-- has a negative number, a device twice, or numbers whose sum overflows an `int64`.
pub score_strict :
    (a b : Frontier)
    → NonNeg a
    → Distinct a
    → IsSmall a
    → NonNeg b
    → Distinct b
    → IsSmall b
    → dominates a b ≡ true
    → dominates b a ≡ false
    → score b <ℤ score a
score_strict a b na da sa nb db sb ab ba =
    let (id, seq, found, lt) = not_dominated a b da ba in
    rw (score-eq-total a na sa, score-eq-total b nb sb)
      (total_strict a b id na da db (at_le_of_Reaches a b na ((dominates_iff a b db).0 ab))
        (rw found lt))
