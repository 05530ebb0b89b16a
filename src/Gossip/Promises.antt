-- ===== src/Gossip/Promises.antt =====
-- `GossipPromises` of protocol/gossip/time_cache.hpp: which peer has promised which message, and
-- until when.
pub mod Expired
mod Tests
use leanp2p.Prelude.{ℕ, suc, ◌+◌, Bool, List, [], ◌∷◌, ◌++◌, none, some, ltb, if◌then◌else◌}
use leanp2p.Prelude.Eq.{Eq}
use leanp2p.Prelude.Maps.{lookup, has, erase, emplace, modify, keys}

module _ {I P : Type 0} ⦃i : Eq I⦄ ⦃e : Eq P⦄ where
  unfoldable pub contains : List (I × List (P × ℕ)) → I → Bool
  contains m message_id = has message_id m

  -- `map_[message_id].emplace(peer, now + ttl_)`.
  unfoldable pub add : List (I × List (P × ℕ)) → I → P → ℕ → ℕ → List (I × List (P × ℕ))
  add m message_id peer now ttl =
      modify message_id (emplace peer (now + ttl)) (emplace message_id [] m)

  unfoldable pub remove : List (I × List (P × ℕ)) → I → List (I × List (P × ℕ))
  remove m message_id = erase message_id m

  -- The peers that `peers` visits, in order.
  unfoldable pub peers : List (I × List (P × ℕ)) → I → List P
  peers m message_id = elim (lookup message_id m) [ none ↦ [] | some promises ↦ keys promises ]

module _ {P : Type 0} ⦃e : Eq P⦄ where
  -- `++result[peer]`.
  unfoldable pub bump : P → List (P × ℕ) → List (P × ℕ)
  bump peer result = modify peer suc (emplace peer 0 result)

  -- The inner loop of `clearExpired`: the promises that stay, and the histogram.
  unfoldable pub clear_peers : ℕ → List (P × ℕ) → List (P × ℕ) → List (P × ℕ) × List (P × ℕ)
  unfolding bump
  clear_peers now [] result = ([], result)
  clear_peers now ((peer, t) ∷ promises) result =
      let expired = ltb t now in
      let rest = clear_peers now promises (if expired then bump peer result else result) in
      if expired then rest else ((peer, t) ∷ rest.0, rest.1)

  -- What the outer loop does with an entry whose promises are `kept`.
  unfoldable pub keep_entry :
      {I : Type 0} → I → List (P × ℕ) → List (I × List (P × ℕ)) → List (I × List (P × ℕ))
  keep_entry message_id [] m = m
  keep_entry message_id (promise ∷ kept) m = (message_id, promise ∷ kept) ∷ m

  unfoldable pub clear_loop :
      {I : Type 0}
      → ℕ
      → List (I × List (P × ℕ))
      → List (P × ℕ)
      → List (I × List (P × ℕ)) × List (P × ℕ)
  unfolding clear_peers keep_entry
  clear_loop now [] result = ([], result)
  clear_loop now ((message_id, promises) ∷ m) result =
      let inner = clear_peers now promises result in
      let rest = clear_loop now m inner.1 in (keep_entry message_id inner.0 rest.0, rest.1)

  -- `clearExpired`: the map that is left, and the histogram.
  unfoldable pub clear_expired :
      {I : Type 0} → ℕ → List (I × List (P × ℕ)) → List (I × List (P × ℕ)) × List (P × ℕ)
  unfolding clear_loop
  clear_expired now m = clear_loop now m []
