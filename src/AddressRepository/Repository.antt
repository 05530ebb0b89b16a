-- ===== src/AddressRepository/Repository.antt =====
-- `InmemAddressRepository` with its table of peers. The time `now` is that of the clock, in nanoseconds, `max_time`
-- the last that it has, and `ttl` is in milliseconds. The signals, and what they call, are left out.
use leanp2p.Prelude.{
  ℕ, ◌+◌, ◌-◌, ◌*◌, ◌%◌, ◌^◌, Bool, false, List, [], ◌∷◌, Option, none, some, leb, if◌then◌else◌,
}
use leanp2p.Prelude.Eq.{nat_eq}
use leanp2p.Prelude.Maps.{lookup, emplace, modify, keys}
use leanp2p.AddressRepository.{Addresses, add_addresses, upsert_addresses, dial_failed}
use leanp2p.AddressRepository.Garbage.{update_addresses, clear, collect_garbage}

abbrev pub Repository : Type 0
Repository = List (ℕ × Addresses ℕ)

abbrev pub no_addresses : Addresses ℕ
no_addresses = record { expires = []; order = [] }

-- `<=` of `int64_t`, by the 64 bits.
abbrev signed_leb : ℕ → ℕ → Bool
signed_leb a b = leb ((a + 2 ^ 63) % 2 ^ 64) ((b + 2 ^ 63) % 2 ^ 64)

-- The milliseconds become nanoseconds in an `int64_t`. Where that overflows, as it does for `kPermanent`, the
-- language leaves the result open; here the number wraps, as the processors do it.
unfoldable pub calculate_expiration_time : ℕ → ℕ → ℕ → ℕ
calculate_expiration_time max_time now ttl =
    let nanoseconds = ttl * 1000000 % 2 ^ 64 in
    if signed_leb ((max_time + (2 ^ 64 - nanoseconds)) % 2 ^ 64) now
    then max_time
    else (now + nanoseconds) % 2 ^ 64

abbrev pub addresses_of : Repository → ℕ → Addresses ℕ
addresses_of db p = elim (lookup p db) [ none ↦ no_addresses | some a ↦ a ]

-- What the two operations do that make a peer where there is none.
abbrev pub store_result : Repository → ℕ → Addresses ℕ × Bool → Repository × Bool
store_result db p (addresses, added) = (modify p (λ _. addresses) db, added)

unfoldable pub add_addresses_to : ℕ → ℕ → Repository → ℕ → List ℕ → ℕ → Repository × Bool
add_addresses_to max_time now db p ma ttl =
    let db' = emplace p no_addresses db in
    store_result db' p
      (add_addresses (addresses_of db' p) ma (calculate_expiration_time max_time now ttl) false)

unfoldable pub upsert_addresses_to : ℕ → ℕ → Repository → ℕ → List ℕ → ℕ → Repository × Bool
upsert_addresses_to max_time now db p ma ttl =
    let db' = emplace p no_addresses db in
    store_result db' p
      (upsert_addresses (addresses_of db' p) ma (calculate_expiration_time max_time now ttl) false)

-- `none` is the error NOT_FOUND, here and below.
unfoldable pub update_addresses_of : ℕ → ℕ → Repository → ℕ → ℕ → Option Repository
update_addresses_of max_time now db p ttl = elim (lookup p db) [
  | none ↦ none
  | some a ↦
      some (modify p (λ a. update_addresses a (calculate_expiration_time max_time now ttl)) db)
]

unfoldable pub dial_failed_to : Repository → ℕ → ℕ → Repository
dial_failed_to db p addr = modify p (λ a. dial_failed a addr) db

unfoldable pub get_addresses : Repository → ℕ → Option (List ℕ)
get_addresses db p = elim (lookup p db) [ none ↦ none | some a ↦ some a.order ]

unfoldable pub clear_peer : Repository → ℕ → Repository
clear_peer db p = modify p clear db

-- A peer goes whose addresses have all expired.
unfoldable pub collect_peers : Repository → ℕ → Repository
collect_peers [] now = []
collect_peers ((p, a) ∷ db) now =
    let left = collect_garbage a now in
    let rest = collect_peers db now in elim left.expires [ [] ↦ rest | e ∷ es ↦ (p, left) ∷ rest ]

unfoldable pub get_known_peers : Repository → List ℕ
get_known_peers db = keys db
