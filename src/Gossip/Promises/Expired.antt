-- ===== src/Gossip/Promises/Expired.antt =====
-- What `clearExpired` counts and what it leaves.
use leanp2p.Prelude.{
  ℕ, suc, ◌+◌, ◌≤◌, ◌≡◌, ◌∙◌, arith, ◌&&◌, List, [], ◌∷◌, none, some, ltb, length, if◌then◌else◌,
  Bool-cases, inl, inr,
}
use leanp2p.Prelude.Eq.{Eq}
use leanp2p.Prelude.Maps.{lookup, emplace, lookup-modify, lookup-emplace, lookup-has}
use leanp2p.Gossip.Promises.{bump, clear_peers, keep_entry, clear_loop, clear_expired}

module _ {P : Type 0} ⦃e : Eq P⦄ where
  -- The number that a histogram has for a peer.
  abbrev pub count : P → List (P × ℕ) → ℕ
  count p result = elim (lookup p result) [ none ↦ 0 | some n ↦ n ]

  -- How many of the promises are of the peer and expire before `now`.
  unfoldable pub broken : ℕ → P → List (P × ℕ) → ℕ
  broken now p [] = 0
  broken now p ((q, t) ∷ promises) =
      (if e.beq q p && ltb t now then 1 else 0) + broken now p promises

  unfoldable pub broken_all : {I : Type 0} → ℕ → P → List (I × List (P × ℕ)) → ℕ
  broken_all now p [] = 0
  broken_all now p ((message_id, promises) ∷ m) = broken now p promises + broken_all now p m

  count-bump :
      (p q : P) (result : List (P × ℕ))
      → count p (bump q result) ≡ (if e.beq q p then 1 else 0) + count p result
  unfolding bump
  count-bump p q result = ground (
    arith,
    lookup-modify p q suc (emplace q 0 result),
    lookup-emplace p q 0 result,
    lookup-has p result,
    e.beq_iff q p,
  )

  count-clear_peers :
      (now : ℕ) (p : P) (promises result : List (P × ℕ))
      → count p (clear_peers now promises result).1 ≡ broken now p promises + count p result
  unfolding clear_peers broken
  count-clear_peers now p [] result = omega arith
  count-clear_peers now p ((q, t) ∷ promises) result = elim (Bool-cases (ltb t now)) [
    | inl d ↦
        ground (arith, count-clear_peers now p promises (bump q result), count-bump p q result)
    | inr d ↦ ground (arith, count-clear_peers now p promises result)
  ]

  count-clear_loop :
      {I : Type 0} (now : ℕ) (p : P) (m : List (I × List (P × ℕ))) (result : List (P × ℕ))
      → count p (clear_loop now m result).1 ≡ broken_all now p m + count p result
  unfolding clear_loop broken_all
  count-clear_loop now p [] result = omega arith
  count-clear_loop now p ((message_id, promises) ∷ m) result =
      count-clear_loop now p m (clear_peers now promises result).1
      ∙ omega (arith, count-clear_peers now p promises result)

  -- `clearExpired` counts for every peer its promises that expire before `now`, over all messages.
  pub count-clear_expired :
      {I : Type 0} (now : ℕ) (p : P) (m : List (I × List (P × ℕ)))
      → count p (clear_expired now m).1 ≡ broken_all now p m
  unfolding clear_expired lookup
  count-clear_expired now p m = count-clear_loop now p m [] ∙ omega arith

  -- Promises that are left: at least one, and none expires before `now`.
  abbrev pub AllLive : ℕ → List (P × ℕ) → Type 0
  AllLive now [] = Unit {0}
  AllLive now ((p, t) ∷ promises) = (now ≤ t) × AllLive now promises

  abbrev pub AllKept : {I : Type 0} → ℕ → List (I × List (P × ℕ)) → Type 0
  AllKept now [] = Unit {0}
  AllKept now ((message_id, promises) ∷ m) =
      (1 ≤ length promises) × AllLive now promises × AllKept now m

  clear_peers-AllLive :
      (now : ℕ) (promises result : List (P × ℕ)) → AllLive now (clear_peers now promises result).0
  unfolding clear_peers
  clear_peers-AllLive now [] result = tt
  clear_peers-AllLive now ((q, t) ∷ promises) result = elim (Bool-cases (ltb t now)) [
    | inl d ↦ rw d (clear_peers-AllLive now promises (bump q result))
    | inr d ↦ rw d (ground arith, clear_peers-AllLive now promises result)
  ]

  keep_entry-AllKept :
      {I : Type 0} (now : ℕ) (message_id : I) (kept : List (P × ℕ)) (m : List (I × List (P × ℕ)))
      → AllLive now kept
      → AllKept now m
      → AllKept now (keep_entry message_id kept m)
  unfolding keep_entry
  keep_entry-AllKept now message_id [] m h k = k
  keep_entry-AllKept now message_id (promise ∷ kept) m h k = (omega arith, h, k)

  clear_loop-AllKept :
      {I : Type 0} (now : ℕ) (m : List (I × List (P × ℕ))) (result : List (P × ℕ))
      → AllKept now (clear_loop now m result).0
  unfolding clear_loop
  clear_loop-AllKept now [] result = tt
  clear_loop-AllKept now ((message_id, promises) ∷ m) result =
      keep_entry-AllKept now message_id _ _ (clear_peers-AllLive now promises result)
        (clear_loop-AllKept now m _)

  -- After `clearExpired` no promise is left that expires before `now`, and no message without a
  -- promise.
  pub clear_expired-AllKept :
      {I : Type 0} (now : ℕ) (m : List (I × List (P × ℕ))) → AllKept now (clear_expired now m).0
  unfolding clear_expired
  clear_expired-AllKept now m = clear_loop-AllKept now m []
