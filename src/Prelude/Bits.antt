-- ===== src/Prelude/Bits.antt =====
-- Masks on one byte as arithmetic: tables of at most 256 entries, checked by evaluation.
use Prim.Native.Nat.{
  ℕ, zero, suc, ◌+◌, ◌-◌, ◌*◌, ◌/◌, ◌%◌, ◌≤◌, ◌<◌, min, bit_and, bit_or, digits, bit_and-bitwise,
}
use mathlib.Core.Path.{◌≡◌, refl, ap, ◌∙◌}
use mathlib.Core.Bool.{Bool, true, false}
use native.Mathlib.Omega.{arith}
use native.Mathlib.Decide.{dec_lt}
use leanp2p.Prelude.Tests.{◌==◌, ==_iff, if◌then◌else◌}

unfoldable pub check_table : (ℕ → Bool) → ℕ → Bool
check_table test zero = true
check_table test (suc count) = if test count then check_table test count else false

pub check_table_lem :
    (test : ℕ → Bool) (count entry : ℕ)
    → entry < count
    → check_table test count ≡ true
    → test entry ≡ true
unfolding check_table
check_table_lem test zero entry within passed = elim within [ ]
check_table_lem test (suc count) entry within passed =
    ground (arith, check_table_lem test count entry)

low_table : check_table (λ b. bit_and b 0x7f == b % 128) 256 ≡ true
unfolding check_table
low_table = refl

pub mask_low : (b : ℕ) → b < 256 → bit_and b 0x7f ≡ b % 128
mask_low b h = (==_iff _ _).0 (check_table_lem _ 256 b h low_table)

high_table : check_table (λ b. bit_and b 0x80 == b / 128 * 128) 256 ≡ true
unfolding check_table
high_table = refl

pub mask_high : (b : ℕ) → b < 256 → bit_and b 0x80 ≡ b / 128 * 128
mask_high b h = (==_iff _ _).0 (check_table_lem _ 256 b h high_table)

set_table : check_table (λ b. bit_or b 0x80 == b + 128) 128 ≡ true
unfolding check_table
set_table = refl

pub set_high : (b : ℕ) → b < 128 → bit_or b 0x80 ≡ b + 128
set_high b h = (==_iff _ _).0 (check_table_lem _ 128 b h set_table)

-- The mask of the low seven bits at any number, from the digits that `bit_and` stands for.
min_digits : ℕ → ℕ → ℕ → ℕ
min_digits fuel a b = digits (λ _. zero) min fuel a b

min_digits_zero : (fuel a : ℕ) → min_digits fuel a 0 ≡ 0
unfolding min_digits
min_digits_zero zero zero = refl
min_digits_zero zero (suc a) = refl
min_digits_zero (suc fuel) zero = refl
min_digits_zero (suc fuel) (suc a) = omega (arith, min_digits_zero fuel (suc a / 2))

min_digits-suc :
    (fuel a b : ℕ)
    → min_digits (suc fuel) a b ≡ min_digits fuel (a / 2) (b / 2) * 2 + min (a % 2) (b % 2)
unfolding min_digits
min_digits-suc zero zero b = omega arith
min_digits-suc (suc fuel) zero b = omega arith
min_digits-suc fuel (suc a) b = refl

-- A mask of seven ones is used up in seven rounds.
min_digits_one : (fuel a : ℕ) → min_digits (suc fuel) a 1 ≡ a % 2
min_digits_one fuel a = omega (arith, min_digits-suc fuel a 1, min_digits_zero fuel (a / 2))

min_digits_two : (fuel a : ℕ) → min_digits (suc (suc fuel)) a 3 ≡ a % 4
min_digits_two fuel a = omega (arith, min_digits-suc (suc fuel) a 3, min_digits_one fuel (a / 2))

min_digits_three : (fuel a : ℕ) → min_digits (suc (suc (suc fuel))) a 7 ≡ a % 8
min_digits_three fuel a =
    omega (arith, min_digits-suc (suc (suc fuel)) a 7, min_digits_two fuel (a / 2))

min_digits_four : (fuel a : ℕ) → min_digits (suc (suc (suc (suc fuel)))) a 15 ≡ a % 16
min_digits_four fuel a =
    omega (arith, min_digits-suc (suc (suc (suc fuel))) a 15, min_digits_three fuel (a / 2))

min_digits_five : (fuel a : ℕ) → min_digits (suc (suc (suc (suc (suc fuel))))) a 31 ≡ a % 32
min_digits_five fuel a =
    omega (arith, min_digits-suc (suc (suc (suc (suc fuel)))) a 31, min_digits_four fuel (a / 2))

min_digits_six : (fuel a : ℕ) → min_digits (suc (suc (suc (suc (suc (suc fuel)))))) a 63 ≡ a % 64
min_digits_six fuel a =
    omega
      (arith, min_digits-suc (suc (suc (suc (suc (suc fuel))))) a 63, min_digits_five fuel (a / 2))

min_digits_seven :
    (fuel a : ℕ) → min_digits (suc (suc (suc (suc (suc (suc (suc fuel))))))) a 127 ≡ a % 128
min_digits_seven fuel a = omega (
  arith,
  min_digits-suc (suc (suc (suc (suc (suc (suc fuel)))))) a 127,
  min_digits_six fuel (a / 2),
)

bit_and-min_digits : (a b : ℕ) → bit_and a b ≡ min_digits a a b
unfolding min_digits
bit_and-min_digits a b = bit_and-bitwise a b

min_digits_large : (a : ℕ) → 7 ≤ a → min_digits a a 127 ≡ a % 128
min_digits_large a h = ap (λ (n : ℕ). min_digits n a 127) fuel ∙ min_digits_seven (a - 7) a
  where
    fuel : a ≡ suc (suc (suc (suc (suc (suc (suc (a - 7)))))))
    fuel = omega arith

pub mask_low_any : (a : ℕ) → bit_and a 0x7f ≡ a % 128
mask_low_any a = elim (dec_lt a 256) [
  | yes small ↦ mask_low a small
  | no big ↦ bit_and-min_digits a 127 ∙ min_digits_large a (omega arith)
]
