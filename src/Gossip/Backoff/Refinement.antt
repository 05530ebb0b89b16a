-- ===== src/Gossip/Backoff/Refinement.antt =====
-- The circular slots against the plain view: a number of beats left for each peer.
use native.Mathlib.Decide.{dec_lt}
use native.Mathlib.Nat.{div-add-mod, mod-lt}
use leanp2p.Prelude.{
  ℕ, suc, ◌+◌, ◌-◌, ◌*◌, ◌/◌, ◌%◌, ◌≤◌, ◌<◌, ◌≡◌, refl, ◌∙◌, arith, Bool, false, List, [], ◌∷◌,
  Option, none, some, length, get_or, ◌==◌, if◌then◌else◌, Option-cases, inl, inr,
}
use leanp2p.Prelude.Eq.{nat_eq}
use leanp2p.Prelude.Maps.{
  lookup, erase, member, keys, IsUnique, remove-IsUnique, keys-erase, lookup-erase,
}
use leanp2p.Gossip.Backoff.{Backoff, get, erase_all, shift}

mul_mono : (x m y : ℕ) → x ≤ m → x * y ≤ m * y
mul_mono x m y h = grind arith

-- Within one turn of the ring a place belongs to one slot.
pub mod_injective : (a h n : ℕ) → 0 < n → a ≤ h → h < a + n → (h % n ≡ a % n) → h ≡ a
mod_injective a h n p lo hi e = elim (dec_lt (a / n) (h / n)) [
  | yes up ↦
      absurd (omega (arith, div-add-mod a n, div-add-mod h n, mul_mono (suc (a / n)) (h / n) n up))
  | no same ↦
      omega (arith, div-add-mod a n, div-add-mod h n, mul_mono (h / n) (a / n) n (omega arith))
]

-- Whether a peer stands in the list at the place `i`.
abbrev pub stands : ℕ → ℕ → Option ℕ → Bool
stands n i none = false
stands n i (some horizon) = horizon % n == i

pub record IsValid (b : Backoff) : Type 0 where
  pub sized : 0 < length b.slots
  pub unique : IsUnique (keys b.peers)
  pub lists : (i : ℕ) → IsUnique (get_or b.slots i [])
  pub in_range :
      (peer horizon : ℕ)
      → lookup peer b.peers ≡ some horizon
      → (b.slot ≤ horizon) × (horizon < b.slot + length b.slots)
  pub placed :
      (peer i : ℕ)
      → i < length b.slots
      → member peer (get_or b.slots i []) ≡ stands (length b.slots) i (lookup peer b.peers)

pub erase_all-IsUnique :
    (ps : List ℕ) (m : List (ℕ × ℕ)) → IsUnique (keys m) → IsUnique (keys (erase_all ps m))
unfolding erase_all
erase_all-IsUnique [] m u = u
erase_all-IsUnique (p ∷ ps) m u =
    erase_all-IsUnique ps (erase p m) (rw (keys-erase p m) (remove-IsUnique p (keys m) u))

lookup-erase_all :
    (j : ℕ) (ps : List ℕ) (m : List (ℕ × ℕ))
    → IsUnique (keys m)
    → lookup j (erase_all ps m) ≡ (if member j ps then none else lookup j m)
unfolding erase_all member
lookup-erase_all j [] m u = refl
lookup-erase_all j (p ∷ ps) m u = ground (
  arith,
  lookup-erase_all j ps (erase p m) (rw (keys-erase p m) (remove-IsUnique p (keys m) u)),
  lookup-erase j p m u,
)

module _ (b : Backoff) (v : IsValid b) where
  pub place_lt : (horizon : ℕ) → horizon % length b.slots < length b.slots
  place_lt horizon = mod-lt horizon v.sized

  -- The peers of the current slot are those whose horizon has come.
  pub current :
      (peer : ℕ)
      → member peer (get_or b.slots (b.slot % length b.slots) [])
        ≡ elim (lookup peer b.peers) [ none ↦ false | some horizon ↦ horizon == b.slot ]
  current peer = elim (Option-cases (lookup peer b.peers)) [
    | inl e ↦ v.placed peer _ (place_lt b.slot) ∙ rw e refl
    | inr (h, e) ↦
        let r = v.in_range peer h e in
        v.placed peer _ (place_lt b.slot)
        ∙ rw e (ground (arith, mod_injective b.slot h (length b.slots) v.sized r.0 r.1))
  ]

  pub lookup-shift :
      (peer : ℕ)
      → lookup peer (shift b).peers ≡ elim (lookup peer b.peers) [
        | none ↦ none
        | some horizon ↦ if horizon == b.slot then none else some horizon
      ]
  unfolding shift
  lookup-shift peer =
      lookup-erase_all peer (get_or b.slots (b.slot % length b.slots) []) b.peers v.unique
      ∙ ground (arith, current peer)

  pub shift_slot : (shift b).slot ≡ b.slot + 1
  unfolding shift
  shift_slot = refl

  -- On a valid ring a beat takes one from what every peer has left.
  pub get-shift : (peer : ℕ) → get (shift b) peer ≡ get b peer - 1
  unfolding get
  get-shift peer = elim (Option-cases (lookup peer b.peers)) [
    | inl e ↦ ground (arith, lookup-shift peer, shift_slot)
    | inr (h, e) ↦ ground (arith, lookup-shift peer, shift_slot, v.in_range peer h e)
  ]
