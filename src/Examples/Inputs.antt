-- ===== src/Examples/Inputs.antt =====
-- Instances for the input queue of internal/terminal.
use remnix.Prelude.{[], ◌∷◌, ◌++◌, refl, drop, set_at}
use remnix.Prelude.Int.{pos}
use remnix.Terminal.InputQueue.{InputQueue, new_input_queue, push, pop}
use remnix.Terminal.InputQueue.Lossless.{Run, created, pushed, popped, Holds, run-Holds}

-- Two chunks typed, and one written to the terminal.
abbrev typed : InputQueue
typed = (push (3 ∷ []) (push (1 ∷ 2 ∷ []) (new_input_queue (pos 5))).0).0

typed-Run : Run (pos 5) ((1 ∷ 2 ∷ []) ++ 3 ∷ []) (1 ∷ 2 ∷ []) (pop typed).0
unfolding push new_input_queue pop drop set_at
typed-Run =
    popped (1 ∷ 2 ∷ 3 ∷ []) [] (1 ∷ 2 ∷ []) typed
      (pushed (1 ∷ 2 ∷ []) [] (3 ∷ []) (push (1 ∷ 2 ∷ []) (new_input_queue (pos 5))).0
        (pushed [] [] (1 ∷ 2 ∷ []) (new_input_queue (pos 5)) created refl) refl)
      refl

run-Holds_example : Holds (1 ∷ 2 ∷ 3 ∷ []) (1 ∷ 2 ∷ []) (pop typed).0
run-Holds_example = run-Holds (pos 5) (1 ∷ 2 ∷ 3 ∷ []) (1 ∷ 2 ∷ []) (pop typed).0 typed-Run
