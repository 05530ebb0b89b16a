-- ===== src/ReadBuffer/Tests.antt =====
-- The read buffer on concrete inputs: a granularity of two bytes, a vector that gets what it asks for.
use leanp2p.Prelude.{ℕ, ◌≤◌, ◌≡◌, refl, arith, List, [], ◌∷◌, some}
use leanp2p.ReadBuffer.{init}
use leanp2p.ReadBuffer.Queue.{
  Call, adding, consuming, exchanging, clearing, run, run_queue, run-run_queue,
}

abbrev exact : ℕ → ℕ → ℕ
exact c n = n

exact_enough : (c n : ℕ) → n ≤ exact c n
exact_enough c n = omega arith

-- Three fragments, a part of the first, then everything and more.
abbrev calls : List Call
calls =
    adding (1 ∷ 2 ∷ 3 ∷ [])
    ∷ adding (4 ∷ 5 ∷ [])
    ∷ adding (6 ∷ 7 ∷ 8 ∷ [])
    ∷ consuming 2
    ∷ exchanging (9 ∷ []) 8
    ∷ adding (10 ∷ [])
    ∷ clearing
    ∷ consuming 1
    ∷ []

calls_answers :
    run_queue calls [] ≡ (2, 1 ∷ 2 ∷ []) ∷ (7, 3 ∷ 4 ∷ 5 ∷ 6 ∷ 7 ∷ 8 ∷ 9 ∷ []) ∷ (0, []) ∷ []
calls_answers = refl

run-run_queue_example : run exact calls (init 2) ≡ some (run_queue calls [])
run-run_queue_example = run-run_queue exact exact_enough calls 2 (omega arith)
