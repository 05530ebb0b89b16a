-- ===== src/Gossip/TimeCache/Expiry.antt =====
-- The cache against a record of what expires when.
use leanp2p.Prelude.{
  ℕ, ◌+◌, ◌≤◌, ◌<◌, ◌≡◌, inl, inr, refl, ◌∙◌, arith, Bool, false, List, [], ◌∷◌, Option, none, some,
  ltb, leb, if◌then◌else◌, Bool-cases, leb→le,
}
use leanp2p.Prelude.Eq.{Eq}
use leanp2p.Prelude.Maps.{has, erase, keys, member, IsUnique}
use leanp2p.Gossip.TimeCache.{TimeCache, contains, clear_loop, clear_expired}

module _ {K : Type 0} where
  abbrev pub exp_keys : List (ℕ × K) → List K
  exp_keys [] = []
  exp_keys ((t, k) ∷ es) = k ∷ exp_keys es

  -- No expiration is earlier than `n`, and each is at least the one before it.
  abbrev pub IsAscending : ℕ → List (ℕ × K) → Type 0
  IsAscending n [] = Unit {0}
  IsAscending n ((t, k) ∷ es) = (n ≤ t) × IsAscending t es

  abbrev pub AllUpTo : ℕ → List (ℕ × K) → Type 0
  AllUpTo n [] = Unit {0}
  AllUpTo n ((t, k) ∷ es) = (t ≤ n) × AllUpTo n es

module _ {K : Type 0} where
  pub AllUpTo-mono : {a b : ℕ} (es : List (ℕ × K)) → a ≤ b → AllUpTo a es → AllUpTo b es
  AllUpTo-mono [] h x = tt
  AllUpTo-mono ((s, i) ∷ es) h x = (omega arith, AllUpTo-mono es h x.1)

-- Whether an entry is still there at the time `now`.
abbrev pub live : ℕ → Option ℕ → Bool
live now none = false
live now (some t) = ltb now t

module _ {K : Type 0} ⦃e : Eq K⦄ where
  -- When the entry of a key expires.
  unfoldable pub expiry : K → List (ℕ × K) → Option ℕ
  expiry k [] = none
  expiry k ((t, j) ∷ es) = if e.beq j k then some t else expiry k es

  pub expiry_absent :
      (k : K) (es : List (ℕ × K)) → member k (exp_keys es) ≡ false → expiry k es ≡ none
  unfolding member expiry
  expiry_absent k [] h = refl
  expiry_absent k ((t, j) ∷ es) h = ground (arith, expiry_absent k es)

  IsUnique_expired :
      (t : ℕ) (j k : K) (es : List (ℕ × K))
      → member j (exp_keys es) ≡ false
      → (now : ℕ) → t ≤ now
      → live now (expiry k es) ≡ live now (expiry k ((t, j) ∷ es))
  unfolding expiry
  IsUnique_expired t j k es h now l =
      ground (arith, expiry_absent k es, expiry_absent j es h, e.beq_iff j k)

module _ {K : Type 0} {V : Type 0} ⦃e : Eq K⦄ where
  -- What a cache last used at the time `now` satisfies.
  pub record IsValid (now : ℕ) (c : TimeCache K V) : Type 0 where
    pub aligned : keys c.map ≡ exp_keys c.expirations
    pub unique : IsUnique (exp_keys c.expirations)
    pub ascending : IsAscending 0 c.expirations
    pub bounded : AllUpTo (now + c.ttl) c.expirations

  has-expiry :
      (k : K) (m : List (K × V)) (es : List (ℕ × K)) (n now : ℕ)
      → keys m ≡ exp_keys es
      → IsAscending n es
      → now < n
      → has k m ≡ live now (expiry k es)
  unfolding has expiry
  has-expiry k [] [] n now h a l = refl
  has-expiry k [] ((t, j) ∷ es) n now h a l = cc
  has-expiry k ((i, v) ∷ m) [] n now h a l = cc
  has-expiry k ((i, v) ∷ m) ((t, j) ∷ es) n now h a l =
      ground (arith, has-expiry k m es t now (ground arith) a.1 (omega arith))

  pub erase_head : (j k : K) (v : V) (m : List (K × V)) → j ≡ k → erase k ((j, v) ∷ m) ≡ m
  unfolding erase
  erase_head j k v m h = ground (arith, e.beq_iff j k)

  has-clear_loop :
      (now : ℕ) (k : K) (m : List (K × V)) (es : List (ℕ × K)) (n : ℕ)
      → keys m ≡ exp_keys es
      → IsUnique (exp_keys es)
      → IsAscending n es
      → has k (clear_loop now m es).0 ≡ live now (expiry k es)
  unfolding clear_loop
  has-clear_loop now k [] [] n h u a = unfold has expiry in refl
  has-clear_loop now k ((i, v) ∷ m) [] n h u a = cc
  has-clear_loop now k [] ((t, j) ∷ es) n h u a = cc
  has-clear_loop now k ((i, v) ∷ m) ((t, j) ∷ es) n h u a = elim (Bool-cases (leb t now)) [
    | inl old ↦
        rw (old, erase_head i j v m (ground arith))
          (has-clear_loop now k m es t (ground arith) u.1 a.1
            ∙ IsUnique_expired t j k es u.0 now (leb→le _ _ old))
    | inr new ↦
        rw new (has-expiry k ((i, v) ∷ m) ((t, j) ∷ es) t now h (omega arith, a.1) (ground arith))
  ]

  -- After `clearExpired` on a valid cache exactly those keys are there whose entry expires later than `now`.
  pub contains-clear_expired :
      (c : TimeCache K V) (before now : ℕ) (k : K)
      → IsValid before c
      → contains (clear_expired c now) k ≡ live now (expiry k c.expirations)
  unfolding contains clear_expired
  contains-clear_expired c before now k v =
      has-clear_loop now k c.map c.expirations 0 v.aligned v.unique v.ascending

  clear_loop-aligned :
      (now : ℕ) (m : List (K × V)) (es : List (ℕ × K))
      → keys m ≡ exp_keys es
      → keys (clear_loop now m es).0 ≡ exp_keys (clear_loop now m es).1
  unfolding clear_loop
  clear_loop-aligned now [] [] h = refl
  clear_loop-aligned now ((i, v) ∷ m) [] h = cc
  clear_loop-aligned now [] ((t, j) ∷ es) h = cc
  clear_loop-aligned now ((i, v) ∷ m) ((t, j) ∷ es) h = elim (Bool-cases (leb t now)) [
    | inl old ↦
        rw (old, erase_head i j v m (ground arith)) (clear_loop-aligned now m es (ground arith))
    | inr new ↦ rw new h
  ]

  -- The expirations that stay are the end of those before.
  clear_loop_rest :
      (now bound n : ℕ) (m : List (K × V)) (es : List (ℕ × K))
      → IsUnique (exp_keys es)
      → IsAscending n es
      → AllUpTo bound es
      → IsUnique (exp_keys (clear_loop now m es).1)
        × IsAscending n (clear_loop now m es).1
        × AllUpTo bound (clear_loop now m es).1
  unfolding clear_loop
  clear_loop_rest now bound n m [] u a b = (u, a, b)
  clear_loop_rest now bound n m ((t, j) ∷ es) u a b = elim (Bool-cases (leb t now)) [
    | inl old ↦ rw old (clear_loop_rest now bound n (erase j m) es u.1 (weaken es a.0 a.1) b.1)
    | inr new ↦ rw new (u, a, b)
  ]
    where
      weaken : {n t : ℕ} (es : List (ℕ × K)) → n ≤ t → IsAscending t es → IsAscending n es
      weaken [] h x = tt
      weaken ((s, i) ∷ es) h x = (omega arith, x.1)

  pub clear_expired-IsValid :
      (c : TimeCache K V) (before now : ℕ)
      → before ≤ now
      → IsValid before c
      → IsValid now (clear_expired c now)
  unfolding clear_expired
  clear_expired-IsValid c before now h v =
      let (u, a, b) =
        clear_loop_rest now (before + c.ttl) 0 c.map c.expirations v.unique v.ascending v.bounded in
      record {
        aligned = clear_loop-aligned now c.map c.expirations v.aligned;
        unique = u;
        ascending = a;
        bounded = AllUpTo-mono _ (omega arith) b;
      }
