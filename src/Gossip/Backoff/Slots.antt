-- ===== src/Gossip/Backoff/Slots.antt =====
-- The lists of the ring under the two writes of `update`.
use native.Mathlib.Nat.{mod-lt}
use leanp2p.Prelude.{
  ℕ, zero, suc, ◌%◌, ◌<◌, ◌≡◌, refl, arith, false, not, ◌&&◌, ◌||◌, List, [], ◌∷◌, ◌++◌, length,
  length-set, get_or, set, ◌==◌, if◌then◌else◌,
}
use leanp2p.Prelude.Eq.{nat_eq}
use leanp2p.Prelude.Maps.{
  remove, member, IsUnique, IsUnique-append, remove-IsUnique, member-append, member-remove,
}
use leanp2p.Gossip.Backoff.{put, take_out}

pub get_or-set :
    (xs : List (List ℕ)) (i j : ℕ) (v : List ℕ)
    → i < length xs
    → get_or (set xs i v) j [] ≡ (if i == j then v else get_or xs j [])
get_or-set [] i j v h = elim h [ ]
get_or-set (x ∷ xs) zero zero v h = refl
get_or-set (x ∷ xs) zero (suc j) v h = ground arith
get_or-set (x ∷ xs) (suc i) zero v h = ground arith
get_or-set (x ∷ xs) (suc i) (suc j) v h = ground (arith, get_or-set xs i j v (omega arith))

module _ (slots : List (List ℕ)) (sized : 0 < length slots) (horizon peer : ℕ) where
  pub length-put : length (put slots horizon peer) ≡ length slots
  unfolding put
  length-put = length-set slots _ _

  pub length-take_out : length (take_out slots horizon peer) ≡ length slots
  unfolding take_out
  length-take_out = length-set slots _ _

  pub get_or-put :
      (i : ℕ)
      → get_or (put slots horizon peer) i [] ≡ (
          if horizon % length slots == i
          then get_or slots i [] ++ (peer ∷ [])
          else get_or slots i [])
  unfolding put
  get_or-put i = ground (
    arith,
    get_or-set slots (horizon % length slots) i
        (get_or slots (horizon % length slots) [] ++ (peer ∷ [])) (mod-lt horizon sized),
  )

  pub get_or-take_out :
      (i : ℕ)
      → get_or (take_out slots horizon peer) i [] ≡ (
          if horizon % length slots == i
          then remove peer (get_or slots i [])
          else get_or slots i [])
  unfolding take_out
  get_or-take_out i = ground (
    arith,
    get_or-set slots (horizon % length slots) i
        (remove peer (get_or slots (horizon % length slots) [])) (mod-lt horizon sized),
  )

  pub member-put :
      (q i : ℕ)
      → member q (get_or (put slots horizon peer) i [])
        ≡ (member q (get_or slots i []) || (horizon % length slots == i && peer == q))
  unfolding member
  member-put q i = ground (arith, get_or-put i, member-append q (get_or slots i []) (peer ∷ []))

  pub member-take_out :
      (q i : ℕ)
      → IsUnique (get_or slots i [])
      → member q (get_or (take_out slots horizon peer) i [])
        ≡ (not (horizon % length slots == i && peer == q) && member q (get_or slots i []))
  member-take_out q i u =
      ground (arith, get_or-take_out i, member-remove q peer (get_or slots i []) u)

  pub put-IsUnique :
      (i : ℕ)
      → IsUnique (get_or slots i [])
      → member peer (get_or slots (horizon % length slots) []) ≡ false
      → IsUnique (get_or (put slots horizon peer) i [])
  put-IsUnique i u h =
      rw (get_or-put i) (ground (arith, IsUnique-append peer (get_or slots i []), h))

  pub take_out-IsUnique :
      (i : ℕ) → IsUnique (get_or slots i []) → IsUnique (get_or (take_out slots horizon peer) i [])
  take_out-IsUnique i u =
      rw (get_or-take_out i) (ground (arith, remove-IsUnique peer (get_or slots i []) u))
