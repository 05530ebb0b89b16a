-- ===== src/AddressRepository/Tests.antt =====
-- The address repository on concrete inputs. An address is a number here.
use leanp2p.Prelude.{ℕ, ◌≡◌, refl, arith, ◌&&◌, not, [], ◌∷◌, some}
use leanp2p.Prelude.Eq.{nat_eq}
use leanp2p.Prelude.Maps.{lookup, has, emplace, modify, remove, member}
use leanp2p.AddressRepository.{Addresses, add_addresses, add_address, dial_failed, erase_order}
use leanp2p.AddressRepository.Garbage.{
  collect, collect_garbage, is_expired, collect_garbage-IsListed,
}
use leanp2p.AddressRepository.Repository.{
  Repository, add_addresses_to, dial_failed_to, collect_peers, get_addresses,
  calculate_expiration_time,
}
use leanp2p.AddressRepository.Sound.{
  IsSoundTable, nothing, adding, failing, collecting, Stored-IsSoundTable,
}
use leanp2p.AddressRepository.Order.{IsListed}

abbrev known : Addresses ℕ
known = record { expires = (4, 90) ∷ (5, 95) ∷ []; order = 5 ∷ 4 ∷ [] }

known-IsListed : IsListed known
unfolding has member
known-IsListed = record { unique = ground arith; same = λ a. ground arith }

collect_garbage-IsListed_example :
    IsListed (collect_garbage known 90)
    × ((a : ℕ)
        → has a (collect_garbage known 90).expires
          ≡ (has a known.expires && not (is_expired 90 a known.expires)))
unfolding member
collect_garbage-IsListed_example =
    collect_garbage-IsListed known 90 known-IsListed (refl, (refl, tt))

-- The last time of a clock of 64 bits; it is also the number of milliseconds that stands for an address that stays.
abbrev last_time : ℕ
last_time = 9223372036854775807

stays : calculate_expiration_time last_time 100 last_time ≡ last_time
unfolding calculate_expiration_time
stays = refl

-- At 95 milliseconds two addresses are added for 5, and two at 100 for 50.
abbrev stored : Repository
stored =
    collect_peers
      (dial_failed_to
        (add_addresses_to last_time 100000000
          (add_addresses_to last_time 95000000 [] 7 (4 ∷ 5 ∷ []) 5).0 7 (6 ∷ 8 ∷ []) 50).0
        7 6)
      120000000

stored_addresses : get_addresses stored 7 ≡ some (8 ∷ 6 ∷ [])
unfolding get_addresses collect_peers dial_failed_to add_addresses_to calculate_expiration_time
    lookup has emplace modify remove member add_addresses add_address dial_failed erase_order
    collect_garbage collect
stored_addresses = refl

Stored-IsSoundTable_example : IsSoundTable stored
Stored-IsSoundTable_example = Stored-IsSoundTable (
    collecting 120000000 (
      failing 7 6 (
        adding last_time 100000000 7 (6 ∷ 8 ∷ []) 50
          (adding last_time 95000000 7 (4 ∷ 5 ∷ []) 5 nothing))))
