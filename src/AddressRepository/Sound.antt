-- ===== src/AddressRepository/Sound.antt =====
-- What the repository keeps in its table of peers.
use leanp2p.Prelude.{
  ℕ, ◌≡◌, refl, subst, arith, false, inl, inr, List, [], ◌∷◌, none, some, ◌==◌, All, All-append,
  Bool-cases, if-elim, option-cases,
}
use leanp2p.Prelude.Eq.{nat_eq}
use leanp2p.Prelude.Maps.{
  lookup, has, emplace, modify, member, keys, IsUnique, keys-modify, keys-emplace, insert-IsUnique,
}
use leanp2p.AddressRepository.{Addresses, add_addresses, upsert_addresses, dial_failed}
use leanp2p.AddressRepository.Garbage.{update_addresses, clear, collect_garbage}
use leanp2p.AddressRepository.Order.{add_addresses-IsListed, upsert_addresses-IsListed}
use leanp2p.AddressRepository.Repository.{
  Repository, no_addresses, addresses_of, calculate_expiration_time, add_addresses_to,
  upsert_addresses_to, update_addresses_of, dial_failed_to, clear_peer, collect_peers,
}
use leanp2p.AddressRepository.Tidy.{
  IsTidy, add_addresses-IsUnique, upsert_addresses-IsUnique, update_addresses-IsTidy,
  dial_failed-IsTidy, no_addresses-IsTidy, collect_garbage-IsTidy,
}

-- No peer is there twice, and each is tidy.
pub record IsSoundTable (db : Repository) : Type 0 where
  pub peers : IsUnique (keys db)
  pub tidy : All (λ d. IsTidy d.1) db

modify-IsSoundTable :
    (f : Addresses ℕ → Addresses ℕ) (p : ℕ) (db : Repository)
    → ((a : Addresses ℕ) → lookup p db ≡ some a → IsTidy a → IsTidy (f a))
    → IsSoundTable db
    → IsSoundTable (modify p f db)
unfolding modify lookup
modify-IsSoundTable f p db h v = record {
  peers = rw (keys-modify p f db) v.peers;
  tidy = all db h v.tidy;
}
  where
    all :
        (db : Repository)
        → ((a : Addresses ℕ) → lookup p db ≡ some a → IsTidy a → IsTidy (f a))
        → All (λ d. IsTidy d.1) db
        → All (λ d. IsTidy d.1) (modify p f db)
    all [] h a = tt
    all ((q, x) ∷ db) h a = elim (Bool-cases (q == p)) [
      | inl e ↦ rw e (h x (rw e refl) a.0, a.1)
      | inr e ↦ rw e (a.0, all db (λ y k. h y (rw e k)) a.1)
    ]

emplace-IsSoundTable :
    (p : ℕ) (db : Repository) → IsSoundTable db → IsSoundTable (emplace p no_addresses db)
unfolding emplace
emplace-IsSoundTable p db v = record {
  peers = rw (keys-emplace p no_addresses db) (insert-IsUnique p (keys db) v.peers);
  tidy =
      if-elim (All (λ d. IsTidy d.1)) (has p db) _ _ v.tidy
        (All-append (λ d. IsTidy d.1) db ((p, no_addresses) ∷ []) v.tidy (no_addresses-IsTidy, tt));
}

lookup-IsTidy :
    (p : ℕ) (a : Addresses ℕ) (db : Repository)
    → All (λ d. IsTidy d.1) db
    → lookup p db ≡ some a
    → IsTidy a
unfolding lookup
lookup-IsTidy p a [] v h = absurd cc
lookup-IsTidy p a ((q, x) ∷ db) v h = elim (Bool-cases (q == p)) [
  | inl e ↦
      let found : some x ≡ some a = rw⁻¹ h (rw e refl) in
      let same : x ≡ a = cc in subst IsTidy same v.0
  | inr e ↦ lookup-IsTidy p a db v.1 (rw⁻¹ h (rw e refl))
]

addresses_of-IsTidy : (p : ℕ) (db : Repository) → IsSoundTable db → IsTidy (addresses_of db p)
addresses_of-IsTidy p db v =
    option-cases (lookup p db) IsTidy no_addresses (λ a. a) (λ e. no_addresses-IsTidy)
      (λ a e. lookup-IsTidy p a db v.tidy e)

-- The table of a peer is replaced by a tidy one.
replace-IsSoundTable :
    (p : ℕ) (db : Repository) (x : Addresses ℕ)
    → IsTidy x
    → IsSoundTable db
    → IsSoundTable (modify p (λ _. x) db)
replace-IsSoundTable p db x t v = modify-IsSoundTable (λ _. x) p db (λ a k w. t) v

add_addresses_to-IsSoundTable :
    (max_time now : ℕ) (db : Repository) (p : ℕ) (ma : List ℕ) (ttl : ℕ)
    → IsSoundTable db
    → IsSoundTable (add_addresses_to max_time now db p ma ttl).0
unfolding add_addresses_to
add_addresses_to-IsSoundTable max_time now db p ma ttl v =
    let t = calculate_expiration_time max_time now ttl in
    let w = emplace-IsSoundTable p db v in
    let x = addresses_of (emplace p no_addresses db) p in
    let k = addresses_of-IsTidy p (emplace p no_addresses db) w in
    replace-IsSoundTable p (emplace p no_addresses db) (add_addresses x ma t false).0
      (record {
        listed = (add_addresses-IsListed x ma t false k.listed).0;
        unique = add_addresses-IsUnique ma x t false k.unique;
      })
      w

upsert_addresses_to-IsSoundTable :
    (max_time now : ℕ) (db : Repository) (p : ℕ) (ma : List ℕ) (ttl : ℕ)
    → IsSoundTable db
    → IsSoundTable (upsert_addresses_to max_time now db p ma ttl).0
unfolding upsert_addresses_to
upsert_addresses_to-IsSoundTable max_time now db p ma ttl v =
    let t = calculate_expiration_time max_time now ttl in
    let w = emplace-IsSoundTable p db v in
    let x = addresses_of (emplace p no_addresses db) p in
    let k = addresses_of-IsTidy p (emplace p no_addresses db) w in
    replace-IsSoundTable p (emplace p no_addresses db) (upsert_addresses x ma t false).0
      (record {
        listed = (upsert_addresses-IsListed x ma t false k.listed).0;
        unique = upsert_addresses-IsUnique ma x t false k.unique;
      })
      w

member-collect_peers :
    (p : ℕ) (db : Repository) (now : ℕ)
    → member p (keys db) ≡ false
    → member p (keys (collect_peers db now)) ≡ false
unfolding collect_peers member
member-collect_peers p [] now h = h
member-collect_peers p ((q, a) ∷ db) now h =
    by_left (member-collect_peers p db now) (collect_garbage a now).expires
  where
    by_left :
        (member p (keys db) ≡ false → member p (keys (collect_peers db now)) ≡ false)
        → (es : List (ℕ × ℕ))
        → member p (
            keys (elim es as (λ x. Repository) [
              | [] ↦ collect_peers db now
              | e ∷ es ↦ (q, collect_garbage a now) ∷ collect_peers db now
            ]))
          ≡ false
    by_left k [] = ground (arith, h, k)
    by_left k (e ∷ es) = ground (arith, h, k)

collect_peers-IsSoundTable :
    (db : Repository) (now : ℕ) → IsSoundTable db → IsSoundTable (collect_peers db now)
unfolding collect_peers
collect_peers-IsSoundTable [] now v = v
collect_peers-IsSoundTable ((q, a) ∷ db) now v =
    by_left (collect_peers-IsSoundTable db now (record { peers = v.peers.1; tidy = v.tidy.1 }))
      (collect_garbage a now).expires
  where
    by_left :
        IsSoundTable (collect_peers db now)
        → (es : List (ℕ × ℕ))
        → IsSoundTable (elim es as (λ x. Repository) [
          | [] ↦ collect_peers db now
          | e ∷ es ↦ (q, collect_garbage a now) ∷ collect_peers db now
        ])
    by_left rest [] = rest
    by_left rest (e ∷ es) = record {
      peers = (member-collect_peers q db now v.peers.0, rest.peers);
      tidy = (collect_garbage-IsTidy a now v.tidy.0, rest.tidy);
    }

-- The calls in any order, each with some expiry time or time of the clock.
pub data Stored : Repository → Type 0 where
  nothing : Stored []
  adding :
      (max_time now : ℕ) {db : Repository} (p : ℕ) (ma : List ℕ) (ttl : ℕ)
      → Stored db
      → Stored (add_addresses_to max_time now db p ma ttl).0
  upserting :
      (max_time now : ℕ) {db : Repository} (p : ℕ) (ma : List ℕ) (ttl : ℕ)
      → Stored db
      → Stored (upsert_addresses_to max_time now db p ma ttl).0
  updating :
      (max_time now : ℕ) {db next : Repository} (p ttl : ℕ)
      → update_addresses_of max_time now db p ttl ≡ some next
      → Stored db
      → Stored next
  failing : {db : Repository} (p addr : ℕ) → Stored db → Stored (dial_failed_to db p addr)
  clearing : {db : Repository} (p : ℕ) → Stored db → Stored (clear_peer db p)
  collecting : {db : Repository} (now : ℕ) → Stored db → Stored (collect_peers db now)

update_addresses_of-IsSoundTable :
    (max_time now : ℕ) (db next : Repository) (p ttl : ℕ)
    → update_addresses_of max_time now db p ttl ≡ some next
    → IsSoundTable db
    → IsSoundTable next
unfolding update_addresses_of
update_addresses_of-IsSoundTable max_time now db next p ttl h v =
    let t = calculate_expiration_time max_time now ttl in
    option-cases (lookup p db) (λ o. o ≡ some next → IsSoundTable next) none
      (λ a. some (modify p (λ a. update_addresses a t) db)) (λ e k. absurd cc)
      (λ a e k.
        let same : modify p (λ a. update_addresses a t) db ≡ next = cc in
        subst IsSoundTable same (
          modify-IsSoundTable (λ a. update_addresses a t) p db
            (λ x q w. update_addresses-IsTidy x t w) v))
      h

-- In every state that the repository reaches by its operations from an empty one: no peer is there twice, and for each
-- peer the order of the addresses has just the addresses of the table of expiry times, each once.
pub Stored-IsSoundTable : {db : Repository} → Stored db → IsSoundTable db
unfolding dial_failed_to clear_peer clear
Stored-IsSoundTable nothing = record { peers = tt; tidy = tt }
Stored-IsSoundTable (adding max_time now p ma ttl s) =
    add_addresses_to-IsSoundTable max_time now _ p ma ttl (Stored-IsSoundTable s)
Stored-IsSoundTable (upserting max_time now p ma ttl s) =
    upsert_addresses_to-IsSoundTable max_time now _ p ma ttl (Stored-IsSoundTable s)
Stored-IsSoundTable (updating max_time now p ttl e s) =
    update_addresses_of-IsSoundTable max_time now _ _ p ttl e (Stored-IsSoundTable s)
Stored-IsSoundTable (failing p addr s) =
    modify-IsSoundTable (λ a. dial_failed a addr) p _ (λ a k w. dial_failed-IsTidy a addr w)
      (Stored-IsSoundTable s)
Stored-IsSoundTable (clearing p s) =
    modify-IsSoundTable clear p _ (λ a k w. no_addresses-IsTidy) (Stored-IsSoundTable s)
Stored-IsSoundTable (collecting now s) = collect_peers-IsSoundTable _ now (Stored-IsSoundTable s)
