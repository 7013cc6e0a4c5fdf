-- ===== src/Terminal/ParseQueue/Numbered.antt =====
-- The bytes and the numbers of chunks, and what renewing the slice keeps, for
-- internal/terminal/parse_queue.go.
use remnix.Prelude.{ℕ, suc, List, [], ◌∷◌, ◌++◌, arith, ◌≡◌, length, ◌+◌, ◌≤◌}
use remnix.Terminal.ParseQueue.{ParseItem, ParseQueue, compact}

unfoldable pub total : List ParseItem → ℕ
total [] = 0
total (x ∷ xs) = length x.chunk + total xs

-- The chunks are numbered one after the other, the first one after `n`.
abbrev pub NumberedFrom : ℕ → List ParseItem → Type 0
NumberedFrom n [] = Unit
NumberedFrom n (x ∷ xs) = (x.seq ≡ suc n) × NumberedFrom (suc n) xs

pub total-append :
    (xs : List ParseItem) (x : ParseItem) → total (xs ++ x ∷ []) ≡ total xs + length x.chunk
unfolding total
total-append [] x = omega arith
total-append (y ∷ xs) x = omega (arith, total-append xs x)

pub NumberedFrom-append :
    (n : ℕ) (xs : List ParseItem) (x : ParseItem)
    → NumberedFrom n xs
    → x.seq ≡ suc (n + length xs)
    → NumberedFrom n (xs ++ x ∷ [])
NumberedFrom-append n [] x h e = (omega arith, tt)
NumberedFrom-append n (y ∷ xs) x h e = (h.0, NumberedFrom-append (suc n) xs x h.1 (omega arith))

pub compact-inside :
    (q : ParseQueue) → q.head ≤ length q.items → (compact q).head ≤ length (compact q).items
unfolding compact
compact-inside q h = ground arith

pub compact-same :
    (q : ParseQueue)
    → ((compact q).queued_bytes ≡ q.queued_bytes)
      × ((compact q).budget ≡ q.budget)
      × ((compact q).max_queued ≡ q.max_queued)
      × ((compact q).enqueued_seq ≡ q.enqueued_seq)
      × ((compact q).parsed_seq ≡ q.parsed_seq)
      × ((compact q).stopped ≡ q.stopped)
unfolding compact
compact-same q = ground arith
