-- ===== src/Gossip/TimeCache.antt =====
-- protocol/gossip/time_cache.hpp. Times and periods are numbers; `Clock::now()` is an argument.
-- The expirations hold the key where the source holds the iterator of the map's entry.
pub mod Expiry
pub mod Insert
pub mod Capacity
use leanp2p.Prelude.{
  ℕ, zero, suc, ◌+◌, ◌≤◌, ◌<◌, Bool, true, false, not, List, [], ◌∷◌, ◌++◌, Option, none, some,
  length, ltb, leb, if◌then◌else◌,
}
use leanp2p.Prelude.Eq.{Eq}
use leanp2p.Prelude.Maps.{lookup, has, erase, emplace, modify}

pub record TimeCache (K : Type 0) (V : Type 0) : Type 0 where
  pub ttl : ℕ
  pub map : List (K × V)
  pub expirations : List (ℕ × K)

module _ {K : Type 0} {V : Type 0} ⦃e : Eq K⦄ where
  abbrev pub empty : ℕ → TimeCache K V
  empty ttl = record { ttl = ttl; map = []; expirations = [] }

  unfoldable pub size : TimeCache K V → ℕ
  size c = length c.map

  unfoldable pub contains : TimeCache K V → K → Bool
  contains c key = has key c.map

  -- The loop of `clearExpired`: the map and the expirations that it leaves.
  unfoldable pub clear_loop : ℕ → List (K × V) → List (ℕ × K) → List (K × V) × List (ℕ × K)
  clear_loop now m [] = (m, [])
  clear_loop now m ((t, k) ∷ es) =
      let rest = clear_loop now (erase k m) es in if leb t now then rest else (m, (t, k) ∷ es)

  unfoldable pub clear_expired : TimeCache K V → ℕ → TimeCache K V
  unfolding clear_loop
  clear_expired c now =
      let r = clear_loop now c.map c.expirations in record c { map = r.0; expirations = r.1 }

  -- `getOrDefault` without the reference that it returns: read by `lookup`, written by `modify`.
  unfoldable pub get_or_default : V → TimeCache K V → K → ℕ → TimeCache K V
  unfolding clear_expired
  get_or_default default c key now =
      let c' = clear_expired c now in
      if has key c'.map then c' else record c' {
        map = c'.map ++ ((key, default) ∷ []);
        expirations = c'.expirations ++ ((now + c.ttl, key) ∷ []);
      }

  -- `none` is the `std::logic_error`.
  unfoldable pub pop_front : TimeCache K V → Option (TimeCache K V)
  pop_front c = elim c.expirations [
    | [] ↦ none
    | entry ∷ es ↦ some (record c { map = erase entry.1 c.map; expirations = es })
  ]

-- `DuplicateCache` and `IDontWantCache`, sets over the cache.
abbrev pub KeyCache : Type 0 → Type 0
KeyCache K = TimeCache K (Unit {0})

abbrev pub k_capacity : ℕ
k_capacity = 10000

module _ {K : Type 0} ⦃e : Eq K⦄ where
  -- `DuplicateCache::insert`. `getOrDefault` is called without `now`: it reads the clock itself.
  unfoldable pub duplicate_insert : KeyCache K → K → ℕ → ℕ → KeyCache K × Bool
  duplicate_insert c key now clock =
      let c' = clear_expired c now in
      if contains c' key then (c', false) else (get_or_default tt c' key clock, true)

  -- `IDontWantCache::insert`; `none` is the exception of `popFront`.
  unfoldable pub idontwant_insert : KeyCache K → K → ℕ → Option (KeyCache K)
  unfolding pop_front
  idontwant_insert c key clock =
      if contains c key
      then some c
      else if leb k_capacity (size c)
      then elim (pop_front c) [ none ↦ none | some c' ↦ some (get_or_default tt c' key clock) ]
      else some (get_or_default tt c key clock)
