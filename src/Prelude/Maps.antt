-- ===== src/Prelude/Maps.antt =====
-- `std::unordered_map` and `std::unordered_set` as lists in the order of insertion.
use Prim.Native.Nat.{ℕ, zero, suc, ◌+◌}
use mathlib.Core.Path.{◌≡◌, refl, sym, subst, ap, ◌∙◌}
use mathlib.Core.Logic.{inl, inr}
use mathlib.Core.Bool.{Bool, true, false, ◌&&◌, ◌||◌, not}
use mathlib.Core.Option.{Option, none, some}
use mathlib.Core.List.{List, [], ◌∷◌, ◌++◌}
use native.Mathlib.Omega.{arith}
use leanp2p.Prelude.Eq.{Eq}
use leanp2p.Prelude.Tests.{if◌then◌else◌, Bool-cases, Option-cases}
use leanp2p.Prelude.Lists.{length, take, length-append}

module _ {ℓ} {K : Type 0} {V : Type ℓ} ⦃e : Eq K⦄ where
  unfoldable pub lookup : K → List (K × V) → Option V
  lookup k [] = none
  lookup k ((j, v) ∷ m) = if e.beq j k then some v else lookup k m

  unfoldable pub has : K → List (K × V) → Bool
  has k [] = false
  has k ((j, v) ∷ m) = e.beq j k || has k m

  -- The key is there once at most: the first entry is the one.
  unfoldable pub erase : K → List (K × V) → List (K × V)
  erase k [] = []
  erase k ((j, v) ∷ m) = if e.beq j k then m else (j, v) ∷ erase k m

  -- `emplace`: an entry that is there stays.
  unfoldable pub emplace : K → V → List (K × V) → List (K × V)
  emplace k v m = if has k m then m else m ++ ((k, v) ∷ [])

  -- A write through the reference to an entry.
  unfoldable pub modify : K → (V → V) → List (K × V) → List (K × V)
  modify k f [] = []
  modify k f ((j, v) ∷ m) = if e.beq j k then (j, f v) ∷ m else (j, v) ∷ modify k f m

  abbrev pub keys : List (K × V) → List K
  keys [] = []
  keys ((j, v) ∷ m) = j ∷ keys m

  pub has-lookup : (k : K) (m : List (K × V)) → has k m ≡ false → lookup k m ≡ none
  unfolding has lookup
  has-lookup k [] h = refl
  has-lookup k ((j, v) ∷ m) h = ground (arith, has-lookup k m)

  pub lookup-modify :
      (j k : K) (f : V → V) (m : List (K × V))
      → lookup j (modify k f m)
        ≡ elim (lookup j m) [ none ↦ none | some v ↦ if e.beq k j then some (f v) else some v ]
  unfolding lookup modify
  lookup-modify j k f [] = refl
  lookup-modify j k f ((i, v) ∷ m) =
      ground
        (arith, lookup-modify j k f m, e.beq_iff i k, e.beq_iff i j, e.beq_iff k j, e.beq_iff k k)

  pub lookup-emplace :
      (j k : K) (v : V) (m : List (K × V))
      → lookup j (emplace k v m) ≡ (
          if has k m
          then lookup j m
          else elim (lookup j m) [ none ↦ if e.beq k j then some v else none | some w ↦ some w ])
  unfolding lookup emplace has
  lookup-emplace j k v [] = refl
  lookup-emplace j k v ((i, w) ∷ m) =
      ground (arith, lookup-emplace j k v m, e.beq_iff i k, e.beq_iff i j)

-- `std::unordered_set`.
module _ {K : Type 0} ⦃e : Eq K⦄ where
  unfoldable pub member : K → List K → Bool
  member k [] = false
  member k (j ∷ s) = e.beq j k || member k s

  unfoldable pub insert : K → List K → List K
  insert k s = if member k s then s else s ++ (k ∷ [])

  unfoldable pub remove : K → List K → List K
  remove k [] = []
  remove k (j ∷ s) = if e.beq j k then s else j ∷ remove k s

  abbrev pub IsUnique : List K → Type 0
  IsUnique [] = Unit {0}
  IsUnique (j ∷ s) = (member j s ≡ false) × IsUnique s

  pub member-append : (k : K) (s t : List K) → member k (s ++ t) ≡ (member k s || member k t)
  unfolding member
  member-append k [] t = refl
  member-append k (j ∷ s) t = ground (arith, member-append k s t)

  pub member-insert : (j k : K) (s : List K) → member j (insert k s) ≡ (e.beq k j || member j s)
  unfolding insert member
  member-insert j k s = ground (arith, member-append j s (k ∷ []), e.beq_iff k j)

  pub member-remove :
      (j k : K) (s : List K) → IsUnique s → member j (remove k s) ≡ (not (e.beq k j) && member j s)
  unfolding remove member
  member-remove j k [] u = ground arith
  member-remove j k (i ∷ s) u =
      ground (arith, member-remove j k s u.1, e.beq_iff i k, e.beq_iff i j, e.beq_iff k j, u.0)

  pub IsUnique-append :
      (k : K) (s : List K) → member k s ≡ false → IsUnique s → IsUnique (s ++ (k ∷ []))
  unfolding member
  IsUnique-append k [] h u = (refl, tt)
  IsUnique-append k (j ∷ s) h u = (
    ground (arith, member-append j s (k ∷ []), e.beq_iff j k, e.beq_iff k j, u.0),
    IsUnique-append k s (ground arith) u.1,
  )

  pub insert-IsUnique : (k : K) (s : List K) → IsUnique s → IsUnique (insert k s)
  unfolding insert
  insert-IsUnique k s u = ground (arith, IsUnique-append k s)

  pub remove-IsUnique : (k : K) (s : List K) → IsUnique s → IsUnique (remove k s)
  unfolding remove
  remove-IsUnique k [] u = tt
  remove-IsUnique k (i ∷ s) u =
      ground (arith, member-remove i k s u.1, u.0, remove-IsUnique k s u.1)

  pub length-insert :
      (k : K) (s : List K) → length (insert k s) ≡ (if member k s then length s else length s + 1)
  unfolding insert
  length-insert k s = ground (arith, length-append s (k ∷ []))

module _ {ℓ} {K : Type 0} {V : Type ℓ} ⦃e : Eq K⦄ where
  pub keys-erase : (k : K) (m : List (K × V)) → keys (erase k m) ≡ remove k (keys m)
  unfolding erase remove
  keys-erase k [] = refl
  keys-erase k ((j, v) ∷ m) = ground (arith, keys-erase k m)

  pub keys-modify : (k : K) (f : V → V) (m : List (K × V)) → keys (modify k f m) ≡ keys m
  unfolding modify
  keys-modify k f [] = refl
  keys-modify k f ((j, v) ∷ m) = ground (arith, keys-modify k f m)

  pub has-keys : (k : K) (m : List (K × V)) → has k m ≡ member k (keys m)
  unfolding has member
  has-keys k [] = refl
  has-keys k ((j, v) ∷ m) = ap (λ b. e.beq j k || b) (has-keys k m)

  pub keys-append :
      (m : List (K × V)) (k : K) (v : V) → keys (m ++ ((k, v) ∷ [])) ≡ keys m ++ (k ∷ [])
  keys-append [] k v = refl
  keys-append ((j, w) ∷ m) k v = ap (λ l. j ∷ l) (keys-append m k v)

  pub keys-emplace : (k : K) (v : V) (m : List (K × V)) → keys (emplace k v m) ≡ insert k (keys m)
  unfolding emplace insert
  keys-emplace k v m = ground (arith, has-keys k m, keys-append m k v)

  pub lookup-absent : (k : K) (m : List (K × V)) → member k (keys m) ≡ false → lookup k m ≡ none
  lookup-absent k m h = has-lookup k m (has-keys k m ∙ h)

  pub lookup-erase :
      (j k : K) (m : List (K × V))
      → IsUnique (keys m)
      → lookup j (erase k m) ≡ (if e.beq k j then none else lookup j m)
  unfolding lookup erase
  lookup-erase j k [] u = ground arith
  lookup-erase j k ((i, v) ∷ m) u = ground (
    arith,
    lookup-erase j k m u.1,
    e.beq_iff i k,
    e.beq_iff i j,
    e.beq_iff k j,
    lookup-absent i m u.0,
  )

  pub lookup-has : (k : K) (m : List (K × V)) → lookup k m ≡ none → has k m ≡ false
  unfolding lookup has
  lookup-has k [] h = refl
  lookup-has k ((j, v) ∷ m) h = ground (arith, lookup-has k m)

module _ {K : Type 0} ⦃e : Eq K⦄ where
  pub member-remove_of : (j k : K) (s : List K) → member j (remove k s) ≡ true → member j s ≡ true
  unfolding remove member
  member-remove_of j k [] h = h
  member-remove_of j k (i ∷ s) h = ground (arith, member-remove_of j k s)

  pub member-take : (j : K) (n : ℕ) (s : List K) → member j (take n s) ≡ true → member j s ≡ true
  unfolding member
  member-take j zero s h = ground (arith, h)
  member-take j (suc n) [] h = h
  member-take j (suc n) (i ∷ s) h = ground (arith, member-take j n s)

  -- Another element stays.
  pub member-remove_ne :
      (j k : K) (s : List K) → e.beq k j ≡ false → member j s ≡ true → member j (remove k s) ≡ true
  unfolding remove member
  member-remove_ne j k [] n h = h
  member-remove_ne j k (i ∷ s) n h =
      ground (arith, member-remove_ne j k s n, e.beq_iff i k, e.beq_iff i j, e.beq_iff k j)

module _ {ℓ κ} {K : Type 0} {V : Type ℓ} ⦃e : Eq K⦄ where
  -- What holds of every lookup, and of the new entry, holds of every lookup afterwards.
  pub emplace-rel :
      (P : K → Option V → Type κ) (k : K) (v : V) (m : List (K × V))
      → ((j : K) → P j (lookup j m))
      → P k (some v)
      → (j : K) → P j (lookup j (emplace k v m))
  emplace-rel P k v m a b j =
      subst (P j) (sym (lookup-emplace j k v m)) (elim (Bool-cases (has k m)) [
        | inl h ↦ rw h (a j)
        | inr h ↦ elim (Option-cases (lookup j m)) [
          | inl n ↦ elim (Bool-cases (e.beq k j)) [
            | inl i ↦ rw (h, n, i) (subst (λ x. P x (some v)) ((e.beq_iff k j).0 i) b)
            | inr i ↦ rw (h, n, i) (subst (P j) n (a j))
          ]
          | inr (w, n) ↦ rw (h, n) (subst (P j) n (a j))
        ]
      ])
