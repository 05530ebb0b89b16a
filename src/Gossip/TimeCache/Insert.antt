-- ===== src/Gossip/TimeCache/Insert.antt =====
-- Insertions: what they remember, for how long, and how much of it.
use leanp2p.Prelude.{
  ℕ, suc, ◌+◌, ◌≤◌, ◌≡◌, inl, inr, refl, sym, ap, ◌∙◌, arith, true, false, not, ◌||◌, List, [], ◌∷◌,
  ◌++◌, some, length, leb, Bool-cases,
}
use leanp2p.Prelude.Eq.{Eq}
use leanp2p.Prelude.Maps.{has, keys, member, IsUnique-append}
use leanp2p.Gossip.TimeCache.{
  TimeCache, KeyCache, contains, clear_expired, get_or_default, duplicate_insert,
}
use leanp2p.Gossip.TimeCache.Expiry.{
  exp_keys, IsAscending, AllUpTo, IsValid, expiry, live, expiry_absent, contains-clear_expired,
  clear_expired-IsValid,
}

module _ {K : Type 0} where
  exp_keys-append :
      (es : List (ℕ × K)) (t : ℕ) (k : K) → exp_keys (es ++ ((t, k) ∷ [])) ≡ exp_keys es ++ (k ∷ [])
  exp_keys-append [] t k = refl
  exp_keys-append ((s, j) ∷ es) t k = ap (λ l. j ∷ l) (exp_keys-append es t k)

  IsAscending-append :
      (n b : ℕ) (k : K) (es : List (ℕ × K))
      → n ≤ b
      → IsAscending n es
      → AllUpTo b es
      → IsAscending n (es ++ ((b, k) ∷ []))
  IsAscending-append n b k [] h a u = (h, tt)
  IsAscending-append n b k ((t, j) ∷ es) h a u = (a.0, IsAscending-append t b k es u.0 a.1 u.1)

  AllUpTo-append :
      (b : ℕ) (k : K) (es : List (ℕ × K)) → AllUpTo b es → AllUpTo b (es ++ ((b, k) ∷ []))
  AllUpTo-append b k [] u = (omega arith, tt)
  AllUpTo-append b k ((t, j) ∷ es) u = (u.0, AllUpTo-append b k es u.1)

  length-exp_keys : (es : List (ℕ × K)) → length (exp_keys es) ≡ length es
  length-exp_keys [] = refl
  length-exp_keys ((t, k) ∷ es) = ap suc (length-exp_keys es)

module _ {K : Type 0} ⦃e : Eq K⦄ where
  expiry-append :
      (es : List (ℕ × K)) (t : ℕ) (k : K)
      → member k (exp_keys es) ≡ false
      → expiry k (es ++ ((t, k) ∷ [])) ≡ some t
  unfolding expiry member
  expiry-append [] t k h = ground (arith, e.beq_iff k k)
  expiry-append ((s, j) ∷ es) t k h = ground (arith, expiry-append es t k)

module _ {K : Type 0} {V : Type 0} ⦃e : Eq K⦄ where
  pub has-member : (k : K) (m : List (K × V)) → has k m ≡ member k (keys m)
  unfolding has member
  has-member k [] = refl
  has-member k ((j, v) ∷ m) = ap (λ b. e.beq j k || b) (has-member k m)

  keys-append : (m : List (K × V)) (k : K) (v : V) → keys (m ++ ((k, v) ∷ [])) ≡ keys m ++ (k ∷ [])
  keys-append [] k v = refl
  keys-append ((j, w) ∷ m) k v = ap (λ l. j ∷ l) (keys-append m k v)

  pub length-keys : (m : List (K × V)) → length (keys m) ≡ length m
  length-keys [] = refl
  length-keys ((j, v) ∷ m) = ap suc (length-keys m)

  absent :
      (c : TimeCache K V) (now : ℕ) (k : K)
      → IsValid now c
      → has k c.map ≡ false
      → member k (exp_keys c.expirations) ≡ false
  absent c now k v h = sym (ap (member k) v.aligned) ∙ sym (has-member k c.map) ∙ h

  -- A new entry at the end of a valid cache.
  extend : V → TimeCache K V → K → ℕ → TimeCache K V
  extend d c key now = record c {
    map = c.map ++ ((key, d) ∷ []);
    expirations = c.expirations ++ ((now + c.ttl, key) ∷ []);
  }

  extend-IsValid :
      (d : V) (c : TimeCache K V) (key : K) (now : ℕ)
      → IsValid now c
      → has key c.map ≡ false
      → IsValid now (extend d c key now)
  unfolding extend
  extend-IsValid d c key now v h = record {
    aligned =
        keys-append c.map key d
        ∙ ap (λ l. l ++ (key ∷ [])) v.aligned
        ∙ sym (exp_keys-append c.expirations (now + c.ttl) key);
    unique =
        rw (exp_keys-append c.expirations (now + c.ttl) key)
          (IsUnique-append key _ (absent c now key v h) v.unique);
    ascending =
        IsAscending-append 0 (now + c.ttl) key c.expirations (omega arith) v.ascending v.bounded;
    bounded = AllUpTo-append (now + c.ttl) key c.expirations v.bounded;
  }

  pub get_or_default-IsValid :
      (d : V) (c : TimeCache K V) (key : K) (before now : ℕ)
      → before ≤ now
      → IsValid before c
      → IsValid now (get_or_default d c key now)
  unfolding get_or_default
  get_or_default-IsValid d c key before now h v =
      let c' = clear_expired c now in
      let v' : IsValid now c' = clear_expired-IsValid c before now h v in
      elim (Bool-cases (has key c'.map)) [
        | inl there ↦ rw (there, get_or_default) v'
        | inr new ↦ rw (new, get_or_default) (unfold extend in extend-IsValid d c' key now v' new)
      ]

  clear_expired_absent :
      (c : TimeCache K V) (key : K) (before now : ℕ)
      → IsValid before c
      → has key c.map ≡ false
      → has key (clear_expired c now).map ≡ false
  unfolding contains
  clear_expired_absent c key before now v h =
      contains-clear_expired c before now key v
      ∙ ap (live now) (expiry_absent key c.expirations (absent c before key v h))

  -- On a key that is not there `getOrDefault` adds an entry that expires after the period.
  expiry-get_or_default :
      (d : V) (c : TimeCache K V) (key : K) (before now : ℕ)
      → before ≤ now
      → IsValid before c
      → has key c.map ≡ false
      → expiry key (get_or_default d c key now).expirations ≡ some (now + c.ttl)
  unfolding get_or_default
  expiry-get_or_default d c key before now h v a =
      let c' = clear_expired c now in
      let a' : has key c'.map ≡ false = clear_expired_absent c key before now v a in
      rw (a', get_or_default)
        (expiry-append c'.expirations (now + c.ttl) key
          (absent c' now key (clear_expired-IsValid c before now h v) a'))

module _ {K : Type 0} ⦃e : Eq K⦄ where
  -- On a valid cache `DuplicateCache::insert` answers true exactly when the key's entry has expired or never was.
  pub duplicate_insert_fresh :
      (c : KeyCache K) (key : K) (before now clock : ℕ)
      → IsValid before c
      → (duplicate_insert c key now clock).1 ≡ not (live now (expiry key c.expirations))
  unfolding duplicate_insert
  duplicate_insert_fresh c key before now clock v =
      ground (arith, contains-clear_expired c before now key v)

  duplicate_insert-true :
      (c : KeyCache K) (key : K) (before now clock : ℕ)
      → before ≤ now
      → now ≤ clock
      → IsValid before c
      → (duplicate_insert c key now clock).1 ≡ true
      → IsValid clock (duplicate_insert c key now clock).0
        × (expiry key (duplicate_insert c key now clock).0.expirations ≡ some (clock + c.ttl))
  unfolding duplicate_insert contains clear_expired
  duplicate_insert-true c key before now clock h l v t =
      elim (Bool-cases (has key (clear_expired c now).map)) [
        | inl there ↦ cc (rw (there, duplicate_insert) at t)
        | inr new ↦
            let c' = clear_expired c now in
            let v' : IsValid now c' = clear_expired-IsValid c before now h v in
            rw (new, duplicate_insert)
              (
                get_or_default-IsValid tt c' key now clock l v',
                expiry-get_or_default tt c' key now clock l v' new,
              )
      ]

  -- On a valid cache, with a clock that does not go back: a message id that was taken for new is a duplicate from then on, and new again from the
  -- moment at which the period has passed since the insertion.
  pub duplicate_insert_twice :
      (c : KeyCache K) (key : K) (before now clock now' clock' : ℕ)
      → before ≤ now
      → now ≤ clock
      → IsValid before c
      → (duplicate_insert c key now clock).1 ≡ true
      → (duplicate_insert (duplicate_insert c key now clock).0 key now' clock').1
        ≡ leb (clock + c.ttl) now'
  duplicate_insert_twice c key before now clock now' clock' h l v t =
      let (v', x) = duplicate_insert-true c key before now clock h l v t in
      duplicate_insert_fresh (duplicate_insert c key now clock).0 key clock now' clock' v'
      ∙ ap (λ o. not (live now' o)) x
      ∙ ground arith
