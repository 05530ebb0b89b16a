-- ===== src/Network/Listeners/Tables.antt =====
-- Tables of listeners: entries left out, and entries that differ.
use leanp2p.Prelude.{
  ℕ, ◌≡◌, ◌≢◌, sym, subst, arith, false, inl, inr, List, [], ◌∷◌, ◌++◌, some, ◌==◌, ==_iff, All,
  All-append, Bool-cases,
}
use leanp2p.Prelude.Eq.{nat_eq}
use leanp2p.Prelude.Maps.{lookup, has, erase}

abbrev pub Table : Type 0
Table = List (ℕ × ℕ)

-- A table with entries left out.
pub data Sub : Table → Table → Type 0 where
  nothing : Sub [] []
  kept : {t u : Table} (d : ℕ × ℕ) → Sub t u → Sub (d ∷ t) (d ∷ u)
  left_out : {t u : Table} (d : ℕ × ℕ) → Sub t u → Sub t (d ∷ u)

pub Sub-refl : (t : Table) → Sub t t
Sub-refl [] = nothing
Sub-refl (d ∷ t) = kept d (Sub-refl t)

pub erase-Sub : (ma : ℕ) (t : Table) → Sub (erase ma t) t
unfolding erase
erase-Sub ma [] = nothing
erase-Sub ma ((k, l) ∷ t) = elim (Bool-cases (k == ma)) [
  | inl e ↦ rw e (left_out (k, l) (Sub-refl t))
  | inr e ↦ rw e (kept (k, l) (erase-Sub ma t))
]

pub All-Sub : (P : ℕ × ℕ → Type 0) {t u : Table} → Sub t u → All P u → All P t
All-Sub P nothing a = tt
All-Sub P (kept d s) a = (a.0, All-Sub P s a.1)
All-Sub P (left_out d s) a = All-Sub P s a.1

pub All-mono : (P Q : ℕ × ℕ → Type 0) (t : Table) → ((d : ℕ × ℕ) → P d → Q d) → All P t → All Q t
All-mono P Q [] f a = tt
All-mono P Q (d ∷ t) f a = (f d a.0, All-mono P Q t f a.1)

pub All-both :
    (P Q R : ℕ × ℕ → Type 0) (t : Table)
    → ((d : ℕ × ℕ) → P d → Q d → R d)
    → All P t
    → All Q t
    → All R t
All-both P Q R [] f a b = tt
All-both P Q R (d ∷ t) f a b = (f d a.0 b.0, All-both P Q R t f a.1 b.1)

-- No two entries have the same value of `f`.
abbrev pub IsDistinct : (ℕ × ℕ → ℕ) → Table → Type 0
IsDistinct f [] = Unit {0}
IsDistinct f (d ∷ t) = All (λ c. f c ≢ f d) t × IsDistinct f t

pub IsDistinct-Sub : (f : ℕ × ℕ → ℕ) {t u : Table} → Sub t u → IsDistinct f u → IsDistinct f t
IsDistinct-Sub f nothing a = tt
IsDistinct-Sub f (kept d s) a = (All-Sub (λ c. f c ≢ f d) s a.0, IsDistinct-Sub f s a.1)
IsDistinct-Sub f (left_out d s) a = IsDistinct-Sub f s a.1

pub IsDistinct-append :
    (f : ℕ × ℕ → ℕ) (t : Table) (d : ℕ × ℕ)
    → IsDistinct f t
    → All (λ c. f c ≢ f d) t
    → IsDistinct f (t ++ (d ∷ []))
IsDistinct-append f [] d a n = (tt, tt)
IsDistinct-append f (c ∷ t) d a n = (
  All-append (λ b. f b ≢ f c) t (d ∷ []) a.0 (λ e. n.0 (sym e), tt),
  IsDistinct-append f t d a.1 n.1,
)

pub has-All : (ma : ℕ) (t : Table) → has ma t ≡ false → All (λ d. d.0 ≢ ma) t
unfolding has
has-All ma [] h = tt
has-All ma ((k, l) ∷ t) h = elim (Bool-cases (k == ma)) [
  | inl e ↦ absurd (ground (arith, h))
  | inr e ↦ (λ (n : k ≡ ma). ground (arith, ==_iff k ma), has-All ma t (ground (arith, h)))
]

lookup-All :
    (P : ℕ × ℕ → Type 0) (Q : ℕ → Type 0) (ma l : ℕ) (t : Table)
    → ((d : ℕ × ℕ) → P d → Q d.1)
    → All P t
    → lookup ma t ≡ some l
    → Q l
unfolding lookup
lookup-All P Q ma l [] f a h = absurd cc
lookup-All P Q ma l ((k, v) ∷ t) f a h = elim (Bool-cases (k == ma)) [
  | inl e ↦ let same : v ≡ l = ground (arith, h) in subst Q same (f (k, v) a.0)
  | inr e ↦ lookup-All P Q ma l t f a.1 (ground (arith, h))
]

-- The listener that leaves the table is at no other address.
pub erase-All :
    (ma l : ℕ) (t : Table)
    → IsDistinct (λ d. d.1) t
    → lookup ma t ≡ some l
    → All (λ d. d.1 ≢ l) (erase ma t)
unfolding lookup erase
erase-All ma l [] u h = tt
erase-All ma l ((k, v) ∷ t) u h = elim (Bool-cases (k == ma)) [
  | inl e ↦
      let same : v ≡ l = ground (arith, h) in rw e (subst (λ x. All (λ d. d.1 ≢ x) t) same u.0)
  | inr e ↦
      let rest : lookup ma t ≡ some l = ground (arith, h) in
      rw e (
        lookup-All (λ d. d.1 ≢ v) (λ x. v ≢ x) ma l t (λ d n s. n (sym s)) u.0 rest,
        erase-All ma l t u.1 rest,
      )
]
