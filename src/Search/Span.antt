-- ===== src/Search/Span.antt =====
-- internal/search/rank.go: the shortest stretch of a command in which a term occurs, its characters
-- in order and not necessarily next to each other.
use remnix.Prelude.{
  ℕ, suc, Bool, true, false, not, ◌||◌, List, [], ◌∷◌, if◌then◌else◌, length, ltb, eqb, ◌+◌, ◌-◌,
}

-- The inner loop, at the place `pos`: how far the characters that are left reach, and whether all of
-- them were found.
unfoldable pub reach : List ℕ → List ℕ → ℕ → ℕ → ℕ × Bool
reach [] cs pos end = (end, true)
reach (k ∷ ks) [] pos end = (end, false)
reach (k ∷ ks) (x ∷ xs) pos end =
    let hit = reach ks xs (suc pos) pos in
    let miss = reach (k ∷ ks) xs (suc pos) end in if eqb x k then hit else miss

-- `best, found` after a start at which all characters were found.
abbrev pub improve : ℕ → ℕ × Bool → ℕ × Bool
improve span (best, found) = if not found || ltb span best then (span, true) else (best, found)

unfoldable pub span_from : ℕ → List ℕ → List ℕ → ℕ → ℕ × Bool → ℕ × Bool
span_from k ks [] start so_far = so_far
span_from k ks (x ∷ xs) start so_far =
    let (end, all) = reach ks xs (suc start) start in
    let better = improve (end - start + 1) so_far in
    let skipped = span_from k ks xs (suc start) so_far in
    let further = span_from k ks xs (suc start) better in
    let next = if eqb better.0 (suc (length ks)) then (better.0, true) else further in
    if not (eqb x k) then skipped else if not all then so_far else next

unfoldable pub min_span : List ℕ → List ℕ → ℕ × Bool
min_span [] c = (0, true)
min_span (k ∷ ks) c = span_from k ks c 0 (0, false)
