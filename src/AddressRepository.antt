-- ===== src/AddressRepository.antt =====
-- peer/address_repository: `InmemAddressRepository`, here the part that it keeps for one peer, a table of
-- expiry times and the order in which the addresses are tried. An address is an abstract key. The
-- expiry time is an argument. Repository has the table of the peers.
pub mod Garbage
pub mod Order
pub mod Repository
pub mod Tidy
pub mod Sound
mod Tests
use leanp2p.Prelude.{ℕ, Bool, true, false, ◌||◌, not, List, [], ◌∷◌, ◌++◌, leb, if◌then◌else◌}
use leanp2p.Prelude.Eq.{Eq}
use leanp2p.Prelude.Maps.{has, emplace, modify, erase, remove, member}

-- `InmemAddressRepository::Peer`.
pub record Addresses (A : Type 0) : Type 0 where
  pub expires : List (A × ℕ)
  pub order : List A

module _ {A : Type 0} ⦃e : Eq A⦄ where
  -- The body of the loop of `addAddresses`.
  unfoldable pub add_address : Addresses A → A → ℕ → Addresses A
  add_address p m expires_at =
      if has m p.expires
      then p
      else record { expires = emplace m expires_at p.expires; order = p.order ++ (m ∷ []) }

  -- The loop, with `added`.
  unfoldable pub add_addresses : Addresses A → List A → ℕ → Bool → Addresses A × Bool
  unfolding add_address
  add_addresses p [] expires_at added = (p, added)
  add_addresses p (m ∷ ma) expires_at added =
      add_addresses (add_address p m expires_at) ma expires_at (not (has m p.expires) || added)

  -- The body of the loop of `upsertAddresses`.
  unfoldable pub upsert_address : Addresses A → A → ℕ → Addresses A
  upsert_address p m expires_at =
      if has m p.expires
      then record p { expires = modify m (λ _. expires_at) p.expires }
      else record { expires = emplace m expires_at p.expires; order = p.order ++ (m ∷ []) }

  unfoldable pub upsert_addresses : Addresses A → List A → ℕ → Bool → Addresses A × Bool
  unfolding upsert_address
  upsert_addresses p [] expires_at added = (p, added)
  upsert_addresses p (m ∷ ma) expires_at added =
      upsert_addresses (upsert_address p m expires_at) ma expires_at
        (not (has m p.expires) || added)

  -- `Peer::eraseOrder`, and `dialFailed` once the peer is found.
  unfoldable pub erase_order : Addresses A → A → Addresses A × Bool
  erase_order p addr = (record p { order = remove addr p.order }, member addr p.order)

  unfoldable pub dial_failed : Addresses A → A → Addresses A
  unfolding erase_order
  dial_failed p addr =
      let erased = erase_order p addr in
      if not (has addr p.expires)
      then p
      else if not erased.1
      then p
      else record p { order = erased.0.order ++ (addr ∷ []) }
