-- ===== src/ReadBuffer/Collector/Tests.antt =====
-- The collector on a message of four bytes in three pieces.
use leanp2p.Prelude.{ℕ, ◌≤◌, ◌≡◌, refl, arith, List, [], ◌∷◌, some}
use leanp2p.ReadBuffer.{reserve, insert_end}
use leanp2p.ReadBuffer.Collector.{Collector, expect, collect, add, add_all}
use leanp2p.ReadBuffer.Collector.Whole.{IsWhole, joined, add_all-expect}

abbrev exact : ℕ → ℕ → ℕ
exact c n = n

exact_enough : (c n : ℕ) → n ≤ exact c n
exact_enough c n = omega arith

abbrev fresh : Collector
fresh = record {
  memory_threshold = 65536;
  expected_size = 0;
  buffer = record { bytes = []; capacity = 0 };
}

abbrev pieces : List (List ℕ)
pieces = (1 ∷ []) ∷ (2 ∷ 3 ∷ []) ∷ (4 ∷ 5 ∷ []) ∷ (6 ∷ []) ∷ []

whole_message :
    add_all exact (expect fresh 4) pieces ≡ some (1 ∷ 2 ∷ 3 ∷ 4 ∷ [], (5 ∷ []) ∷ (6 ∷ []) ∷ [])
unfolding add_all add collect expect insert_end reserve
whole_message = refl

add_all-expect_example : IsWhole 4 (joined pieces) (add_all exact (expect fresh 4) pieces)
add_all-expect_example = add_all-expect exact exact_enough fresh 4 pieces (omega arith)
