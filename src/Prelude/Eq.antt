-- ===== src/Prelude/Eq.antt =====
-- Equality as an interface: what the source asks of a key by `==` and `std::hash`.
use mathlib.Core.Path.{◌≡◌}
use mathlib.Core.Logic.{◌↔◌}
use mathlib.Core.Bool.{Bool, true}
use mathlib.Core.List.{List}
use Prim.Native.Nat.{ℕ}
use leanp2p.Prelude.Tests.{◌==◌, ==_iff}
use leanp2p.Prelude.Bytes.{bytes_eq, bytes_eq_iff}

pub record Eq {ℓ} (K : Type ℓ) : Type ℓ where
  pub beq : K → K → Bool
  pub beq_iff : (x y : K) → (beq x y ≡ true) ↔ (x ≡ y)

abbrev pub nat_beq : ℕ → ℕ → Bool
nat_beq a b = a == b

instance abbrev pub nat_eq : Eq ℕ
nat_eq = record { beq = nat_beq; beq_iff = ==_iff }

instance abbrev pub bytes_eq_instance : Eq (List ℕ)
bytes_eq_instance = record { beq = bytes_eq; beq_iff = bytes_eq_iff }
