-- ===== src/ProtocolRepository/Stored.antt =====
-- The tables that the operations keep, and what a peer has in them.
use leanp2p.Prelude.{
  ℕ, ◌≡◌, refl, ap, subst, ◌∙◌, arith, Bool, true, false, inl, inr, List, [], ◌∷◌, Option, none,
  some, ◌==◌, ==_iff, if◌then◌else◌, All, All-append, Bool-cases, if-cases,
}
use leanp2p.Prelude.Eq.{nat_eq}
use leanp2p.Prelude.Maps.{
  lookup, has, emplace, modify, member, keys, IsUnique, keys-modify, keys-emplace, insert-IsUnique,
  lookup-modify, lookup-emplace, lookup-absent,
}
use leanp2p.ProtocolRepository.{Db, get_or_allocate_protocol_set, collect_garbage}
use leanp2p.ProtocolRepository.Sets.{IsAscending}

pub record IsStored (db : Db) : Type 0 where
  pub peers : IsUnique (keys db)
  pub sets : All (λ d. IsAscending d.1) db

abbrev pub within : Option (List ℕ) → ℕ → Bool
within none m = false
within (some s) m = member m s

pub All-modify :
    (f : List ℕ → List ℕ) (p : ℕ) (db : Db)
    → ((s : List ℕ) → IsAscending s → IsAscending (f s))
    → All (λ d. IsAscending d.1) db
    → All (λ d. IsAscending d.1) (modify p f db)
unfolding modify
All-modify f p [] h a = tt
All-modify f p ((q, s) ∷ db) h a =
    if-cases (All (λ d. IsAscending d.1)) (q == p) _ _ (λ e. (h s a.0, a.1))
      (λ e. (a.0, All-modify f p db h a.1))

pub All-emplace :
    (p : ℕ) (db : Db) → All (λ d. IsAscending d.1) db → All (λ d. IsAscending d.1) (emplace p [] db)
unfolding emplace
All-emplace p db a =
    if-cases (All (λ d. IsAscending d.1)) (has p db) _ _ (λ e. a)
      (λ e. All-append (λ d. IsAscending d.1) db ((p, []) ∷ []) a (tt, tt))

pub lookup-All :
    (p : ℕ) (s : List ℕ) (db : Db)
    → All (λ d. IsAscending d.1) db
    → lookup p db ≡ some s
    → IsAscending s
unfolding lookup
lookup-All p s [] a h = absurd cc
lookup-All p s ((q, t) ∷ db) a h = elim (Bool-cases (q == p)) [
  | inl e ↦ let same : t ≡ s = ground (arith, h) in rw⁻¹ same a.0
  | inr e ↦ lookup-All p s db a.1 (ground (arith, h))
]

pub modify-IsStored :
    (f : List ℕ → List ℕ) (p : ℕ) (db : Db)
    → ((s : List ℕ) → IsAscending s → IsAscending (f s))
    → IsStored db
    → IsStored (modify p f db)
modify-IsStored f p db h v = record {
  peers = rw (keys-modify p f db) v.peers;
  sets = All-modify f p db h v.sets;
}

pub allocate-IsStored :
    (p : ℕ) (db : Db) → IsStored db → IsStored (get_or_allocate_protocol_set db p)
unfolding get_or_allocate_protocol_set
allocate-IsStored p db v =
    if-cases IsStored (has p db) _ _ (λ e. v)
      (λ e. record {
        peers = rw (keys-emplace p [] db) (insert-IsUnique p (keys db) v.peers);
        sets = All-emplace p db v.sets;
      })

pub member-collect_garbage :
    (p : ℕ) (db : Db) → member p (keys db) ≡ false → member p (keys (collect_garbage db)) ≡ false
unfolding collect_garbage member
member-collect_garbage p [] h = h
member-collect_garbage p ((q, []) ∷ db) h = ground (arith, member-collect_garbage p db)
member-collect_garbage p ((q, m ∷ s) ∷ db) h = ground (arith, member-collect_garbage p db)

pub collect_garbage-IsStored : (db : Db) → IsStored db → IsStored (collect_garbage db)
unfolding collect_garbage
collect_garbage-IsStored [] v = v
collect_garbage-IsStored ((q, []) ∷ db) v =
    collect_garbage-IsStored db (record { peers = v.peers.1; sets = v.sets.1 })
collect_garbage-IsStored ((q, m ∷ s) ∷ db) v =
    let rest = collect_garbage-IsStored db (record { peers = v.peers.1; sets = v.sets.1 }) in
    record {
      peers = (member-collect_garbage q db v.peers.0, rest.peers);
      sets = (v.sets.0, rest.sets);
    }

pub within-collect_garbage :
    (p m : ℕ) (db : Db)
    → IsUnique (keys db)
    → within (lookup p (collect_garbage db)) m ≡ within (lookup p db) m
unfolding collect_garbage lookup member
within-collect_garbage p m [] u = refl
within-collect_garbage p m ((q, []) ∷ db) u = elim (Bool-cases (q == p)) [
  | inl e ↦
      let new : member p (keys db) ≡ false =
        subst (λ x. member x (keys db) ≡ false) ((==_iff q p).0 e) u.0 in
      rw (e, lookup-absent p (collect_garbage db) (member-collect_garbage p db new)) refl
  | inr e ↦ rw e (within-collect_garbage p m db u.1)
]
within-collect_garbage p m ((q, n ∷ s) ∷ db) u = elim (Bool-cases (q == p)) [
  | inl e ↦ rw e refl
  | inr e ↦ rw e (within-collect_garbage p m db u.1)
]

abbrev pub within_after : (List ℕ → List ℕ) → Option (List ℕ) → ℕ → Bool
within_after f none m = false
within_after f (some s) m = member m (f s)

pub within-modify :
    (f : List ℕ → List ℕ) (q p m : ℕ) (db : Db)
    → within (lookup p (modify q f db)) m
      ≡ (if q == p then within_after f (lookup p db) m else within (lookup p db) m)
within-modify f q p m db =
    ap (λ o. within o m) (lookup-modify p q f db) ∙ by_cases (lookup p db) (q == p)
  where
    by_cases :
        (o : Option (List ℕ)) (b : Bool)
        → within (elim o [ none ↦ none | some v ↦ if b then some (f v) else some v ]) m
          ≡ (if b then within_after f o m else within o m)
    by_cases none true = refl
    by_cases none false = refl
    by_cases (some v) true = refl
    by_cases (some v) false = refl

pub lookup-present :
    (q p : ℕ) (db : Db)
    → has q db ≡ true
    → lookup p db ≡ elim (lookup p db) [ none ↦ if q == p then some [] else none | some s ↦ some s ]
unfolding has lookup
lookup-present q p [] h = absurd cc
lookup-present q p ((k, s) ∷ db) h =
    ground (arith, lookup-present q p db, ==_iff q p, ==_iff k p, ==_iff k q)

-- The set of a peer is there once it is allocated, and no other changes.
pub lookup-allocate :
    (q p : ℕ) (db : Db)
    → lookup p (get_or_allocate_protocol_set db q)
      ≡ elim (lookup p db) [ none ↦ if q == p then some [] else none | some s ↦ some s ]
unfolding get_or_allocate_protocol_set
lookup-allocate q p db = elim (Bool-cases (has q db)) [
  | inl h ↦ rw h (lookup-present q p db h)
  | inr h ↦ rw h (lookup-emplace p q [] db ∙ rw h refl)
]
