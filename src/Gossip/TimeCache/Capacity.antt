-- ===== src/Gossip/TimeCache/Capacity.antt =====
-- The bound on `IDontWantCache`.
use leanp2p.Prelude.{
  ℕ, ◌+◌, ◌≤◌, ◌<◌, ◌≡◌, refl, ap, arith, true, List, [], ◌∷◌, ◌++◌, some, length, length-append,
  leb, if◌then◌else◌, Bool-cases, inl, inr, leb→le,
}
use leanp2p.Prelude.Eq.{Eq}
use leanp2p.Prelude.Maps.{has, erase, keys}
use leanp2p.Gossip.TimeCache.{
  TimeCache, KeyCache, size, contains, clear_loop, clear_expired, get_or_default, pop_front,
  idontwant_insert, k_capacity,
}
use leanp2p.Gossip.TimeCache.Expiry.{exp_keys, IsAscending, IsValid, erase_head}
use leanp2p.Gossip.TimeCache.Insert.{get_or_default-IsValid}

module _ {K : Type 0} where
  later : {n m : ℕ} (es : List (ℕ × K)) → n ≤ m → IsAscending m es → IsAscending n es
  later [] h x = tt
  later ((t, k) ∷ es) h x = (omega arith, x.1)

module _ {K : Type 0} {V : Type 0} ⦃e : Eq K⦄ where
  length-erase_le : (k : K) (m : List (K × V)) → length (erase k m) ≤ length m
  unfolding erase
  length-erase_le k [] = omega arith
  length-erase_le k ((j, v) ∷ m) = ground (arith, length-erase_le k m)

  length-clear_loop_le :
      (now : ℕ) (m : List (K × V)) (es : List (ℕ × K)) → length (clear_loop now m es).0 ≤ length m
  unfolding clear_loop
  length-clear_loop_le now m [] = omega arith
  length-clear_loop_le now m ((t, k) ∷ es) =
      ground (arith, length-erase_le k m, length-clear_loop_le now (erase k m) es)

  has-append_self : (k : K) (v : V) (m : List (K × V)) → has k (m ++ ((k, v) ∷ [])) ≡ true
  unfolding has
  has-append_self k v [] = ground (arith, e.beq_iff k k)
  has-append_self k v ((j, w) ∷ m) = ground (arith, has-append_self k v m)

  get_or_default_grows :
      (d : V) (c : TimeCache K V) (key : K) (now : ℕ)
      → (length (get_or_default d c key now).map ≤ length c.map + 1)
        × (has key (get_or_default d c key now).map ≡ true)
  unfolding get_or_default clear_expired
  get_or_default_grows d c key now =
      let m = (clear_loop now c.map c.expirations).0 in
      (
        ground
            (arith, length-clear_loop_le now c.map c.expirations, length-append m ((key, d) ∷ [])),
        ground (arith, has-append_self key d m),
      )

  -- The cache without its oldest entry.
  record Popped (now : ℕ) (c c' : TimeCache K V) : Type 0 where
    popped : pop_front c ≡ some c'
    still : IsValid now c'
    shorter : length c'.map + 1 ≡ length c.map

  pop_front_at :
      (now ttl : ℕ) (m : List (K × V)) (es : List (ℕ × K))
      → IsValid now (record { ttl = ttl; map = m; expirations = es })
      → 0 < length m
      → (c' : TimeCache K V) × Popped now (record { ttl = ttl; map = m; expirations = es }) c'
  unfolding pop_front
  pop_front_at now ttl [] es v h = elim h [ ]
  pop_front_at now ttl ((j, w) ∷ m) [] v h = cc (v.aligned)
  pop_front_at now ttl ((j, w) ∷ m) ((t, k) ∷ es) v h =
      let same : keys m ≡ exp_keys es = ground (arith, v.aligned) in
      (
        record { ttl = ttl; map = m; expirations = es },
        record {
          popped =
              ap (λ x. some (record { ttl = ttl; map = x; expirations = es }))
                (erase_head j k w m (ground (arith, v.aligned)));
          still = record {
            aligned = same;
            unique = v.unique.1;
            ascending = later es (omega arith) v.ascending.1;
            bounded = v.bounded.1;
          };
          shorter = omega arith;
        },
      )

module _ {K : Type 0} ⦃e : Eq K⦄ where
  -- On a valid cache of at most 10000 entries `IDontWantCache::insert` never throws, keeps the cache valid and within its 10000 entries, and
  -- the key is there afterwards.
  pub idontwant_insert_fits :
      (c : KeyCache K) (key : K) (before clock : ℕ)
      → before ≤ clock
      → IsValid before c
      → size c ≤ k_capacity
      → (c' : KeyCache K) × (idontwant_insert c key clock ≡ some c')
        × (size c' ≤ k_capacity)
        × (contains c' key ≡ true)
        × IsValid (if contains c key then before else clock) c'
  unfolding size contains idontwant_insert
  idontwant_insert_fits c key before clock h v fits = elim (Bool-cases (has key c.map)) [
    | inl there ↦ (c, rw (there, idontwant_insert) refl, fits, there, rw there v)
    | inr new ↦ elim (Bool-cases (leb k_capacity (length c.map))) [
      | inl full ↦
          let (c', p) =
            pop_front_at before c.ttl c.map c.expirations v (omega (arith, leb→le _ _ full)) in
          let g = get_or_default_grows tt c' key clock in
          (
            get_or_default tt c' key clock,
            rw (new, full, p.popped, idontwant_insert) refl,
            omega (arith, p.shorter, g.0),
            g.1,
            rw new (get_or_default-IsValid tt c' key before clock h p.still),
          )
      | inr room ↦
          let g = get_or_default_grows tt c key clock in
          (
            get_or_default tt c key clock,
            rw (new, room, idontwant_insert) refl,
            ground (arith, g.0),
            g.1,
            rw new (get_or_default-IsValid tt c key before clock h v),
          )
    ]
  ]
