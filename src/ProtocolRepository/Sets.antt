-- ===== src/ProtocolRepository/Sets.antt =====
-- Sets as ascending lists.
use leanp2p.Prelude.{
  ℕ, ◌<◌, ◌≤◌, ◌≡◌, refl, arith, false, not, ◌&&◌, ◌||◌, List, [], ◌∷◌, ltb, ◌==◌, ==_iff, All,
  if-cases,
}
use leanp2p.Prelude.Eq.{nat_eq}
use leanp2p.Prelude.Maps.{member, remove, IsUnique, member-remove}
use leanp2p.ProtocolRepository.{set_insert, insert_all, erase_all, set_intersection}

abbrev pub Above : ℕ → List ℕ → Type 0
Above m s = All (λ n. m < n) s

abbrev pub IsAscending : List ℕ → Type 0
IsAscending [] = Unit {0}
IsAscending (m ∷ s) = Above m s × IsAscending s

Above-mono : (k m : ℕ) (s : List ℕ) → k ≤ m → Above m s → Above k s
Above-mono k m [] h a = tt
Above-mono k m (n ∷ s) h a = (omega (arith, h, a.0), Above-mono k m s h a.1)

pub absent : (x m : ℕ) (s : List ℕ) → x ≤ m → Above m s → member x s ≡ false
unfolding member
absent x m [] h a = refl
absent x m (n ∷ s) h a = ground (arith, h, a.0, absent x m s h a.1, ==_iff n x)

set_insert-Above : (k m : ℕ) (s : List ℕ) → k < m → Above k s → Above k (set_insert m s)
unfolding set_insert
set_insert-Above k m [] h a = (h, tt)
set_insert-Above k m (n ∷ s) h a =
    if-cases (Above k) (ltb m n) _ _ (λ e. (h, a))
      (λ e. if-cases (Above k) (m == n) _ _ (λ e. a) (λ e. (a.0, set_insert-Above k m s h a.1)))

set_insert-IsAscending : (m : ℕ) (s : List ℕ) → IsAscending s → IsAscending (set_insert m s)
unfolding set_insert
set_insert-IsAscending m [] a = (tt, tt)
set_insert-IsAscending m (n ∷ s) a =
    if-cases IsAscending (ltb m n) _ _
      (λ e. let h : m < n = ground (arith, e) in ((h, Above-mono m n s (omega (arith, h)) a.0), a))
      (λ e.
        if-cases IsAscending (m == n) _ _ (λ q. a)
          (λ q. (
            set_insert-Above n m s (ground (arith, e, q, ==_iff m n)) a.0,
            set_insert-IsAscending m s a.1,
          )))

pub member-set_insert : (x m : ℕ) (s : List ℕ) → member x (set_insert m s) ≡ (m == x || member x s)
unfolding set_insert member
member-set_insert x m [] = refl
member-set_insert x m (n ∷ s) =
    ground (arith, member-set_insert x m s, ==_iff m n, ==_iff m x, ==_iff n x)

remove-Above : (k m : ℕ) (s : List ℕ) → Above k s → Above k (remove m s)
unfolding remove
remove-Above k m [] a = tt
remove-Above k m (n ∷ s) a =
    if-cases (Above k) (n == m) _ _ (λ e. a.1) (λ e. (a.0, remove-Above k m s a.1))

remove-IsAscending : (m : ℕ) (s : List ℕ) → IsAscending s → IsAscending (remove m s)
unfolding remove
remove-IsAscending m [] a = tt
remove-IsAscending m (n ∷ s) a =
    if-cases IsAscending (n == m) _ _ (λ e. a.1)
      (λ e. (remove-Above n m s a.0, remove-IsAscending m s a.1))

pub insert_all-IsAscending : (ms s : List ℕ) → IsAscending s → IsAscending (insert_all ms s)
unfolding insert_all
insert_all-IsAscending [] s a = a
insert_all-IsAscending (m ∷ ms) s a =
    insert_all-IsAscending ms (set_insert m s) (set_insert-IsAscending m s a)

pub erase_all-IsAscending : (ms s : List ℕ) → IsAscending s → IsAscending (erase_all ms s)
unfolding erase_all
erase_all-IsAscending [] s a = a
erase_all-IsAscending (m ∷ ms) s a =
    erase_all-IsAscending ms (remove m s) (remove-IsAscending m s a)

set_intersection-Above : (k : ℕ) (s t : List ℕ) → Above k s → Above k (set_intersection s t)
unfolding set_intersection
set_intersection-Above k [] t a = tt
set_intersection-Above k (m ∷ s) [] a = tt
set_intersection-Above k (m ∷ s) (n ∷ t) a =
    if-cases (Above k) (ltb m n) _ _ (λ e. set_intersection-Above k s (n ∷ t) a.1)
      (λ e.
        if-cases (Above k) (ltb n m) _ _ (λ e. set_intersection-Above k (m ∷ s) t a)
          (λ e. (a.0, set_intersection-Above k s t a.1)))

pub set_intersection-IsAscending :
    (s t : List ℕ) → IsAscending s → IsAscending (set_intersection s t)
unfolding set_intersection
set_intersection-IsAscending [] t a = tt
set_intersection-IsAscending (m ∷ s) [] a = tt
set_intersection-IsAscending (m ∷ s) (n ∷ t) a =
    if-cases IsAscending (ltb m n) _ _ (λ e. set_intersection-IsAscending s (n ∷ t) a.1)
      (λ e.
        if-cases IsAscending (ltb n m) _ _ (λ e. set_intersection-IsAscending (m ∷ s) t a)
          (λ e. (set_intersection-Above m s t a.0, set_intersection-IsAscending s t a.1)))

pub member-set_intersection :
    (x : ℕ) (s t : List ℕ)
    → IsAscending s
    → IsAscending t
    → member x (set_intersection s t) ≡ (member x s && member x t)
unfolding set_intersection member
member-set_intersection x [] t a b = refl
member-set_intersection x (m ∷ s) [] a b = ground arith
member-set_intersection x (m ∷ s) (n ∷ t) a b = ground (
  arith,
  member-set_intersection x s (n ∷ t) a.1 b,
  member-set_intersection x (m ∷ s) t a b.1,
  member-set_intersection x s t a.1 b.1,
  λ (h : x ≤ m). absent x m s h a.0,
  λ (h : x ≤ n). absent x n t h b.0,
  ==_iff m x,
  ==_iff n x,
)

IsAscending-IsUnique : (s : List ℕ) → IsAscending s → IsUnique s
IsAscending-IsUnique [] a = tt
IsAscending-IsUnique (m ∷ s) a = (absent m m s (omega arith) a.0, IsAscending-IsUnique s a.1)

pub member-insert_all :
    (x : ℕ) (ms s : List ℕ) → member x (insert_all ms s) ≡ (member x ms || member x s)
unfolding insert_all member
member-insert_all x [] s = refl
member-insert_all x (m ∷ ms) s =
    ground (arith, member-insert_all x ms (set_insert m s), member-set_insert x m s)

pub member-erase_all :
    (x : ℕ) (ms s : List ℕ)
    → IsAscending s
    → member x (erase_all ms s) ≡ (member x s && not (member x ms))
unfolding erase_all member
member-erase_all x [] s a = ground arith
member-erase_all x (m ∷ ms) s a = ground (
  arith,
  member-erase_all x ms (remove m s) (remove-IsAscending m s a),
  member-remove x m s (IsAscending-IsUnique s a),
)
