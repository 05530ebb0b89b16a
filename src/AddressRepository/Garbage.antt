-- ===== src/AddressRepository/Garbage.antt =====
-- `updateAddresses`, `clear` and `collectGarbage` at one peer.
use leanp2p.Prelude.{
  ℕ, ◌≡◌, refl, arith, Bool, false, ◌&&◌, ◌||◌, not, List, [], ◌∷◌, leb, if◌then◌else◌, if-elim,
  ◌∙◌, ap, sym,
}
use leanp2p.Prelude.Eq.{Eq}
use leanp2p.Prelude.Maps.{
  has, keys, remove, member, IsUnique, member-remove, remove-IsUnique, has-keys,
}
use leanp2p.AddressRepository.{Addresses}
use leanp2p.AddressRepository.Order.{IsListed}

module _ {A : Type 0} ⦃e : Eq A⦄ where
  unfoldable pub expire_all : List (A × ℕ) → ℕ → List (A × ℕ)
  expire_all [] expires_at = []
  expire_all ((m, t) ∷ expires) expires_at = (m, expires_at) ∷ expire_all expires expires_at

  -- `updateAddresses` once the peer is found.
  unfoldable pub update_addresses : Addresses A → ℕ → Addresses A
  unfolding expire_all
  update_addresses p expires_at = record p { expires = expire_all p.expires expires_at }

  -- `clear` once the peer is found.
  unfoldable pub clear : Addresses A → Addresses A
  clear p = record { expires = []; order = [] }

  -- The loop of `collectGarbage` over the addresses of a peer, with the table that stays and the order.
  unfoldable pub collect : ℕ → List (A × ℕ) → List A → List (A × ℕ) × List A
  collect now [] order = ([], order)
  collect now ((m, t) ∷ expires) order =
      let gone = leb t now in
      let rest = collect now expires (if gone then remove m order else order) in
      (if gone then rest.0 else (m, t) ∷ rest.0, rest.1)

  unfoldable pub collect_garbage : Addresses A → ℕ → Addresses A
  unfolding collect
  collect_garbage p now =
      let rest = collect now p.expires p.order in record { expires = rest.0; order = rest.1 }

  -- The address has an expiry time that is past.
  abbrev pub is_expired : ℕ → A → List (A × ℕ) → Bool
  is_expired now a [] = false
  is_expired now a ((m, t) ∷ expires) = (e.beq m a && leb t now) || is_expired now a expires

  is_expired_has :
      (now : ℕ) (a : A) (es : List (A × ℕ))
      → member a (keys es) ≡ false
      → is_expired now a es ≡ false
  unfolding member
  is_expired_has now a [] h = refl
  is_expired_has now a ((m, t) ∷ es) h = ground (arith, is_expired_has now a es)

  has-collect :
      (now : ℕ) (a : A) (es : List (A × ℕ)) (order : List A)
      → IsUnique (keys es)
      → has a (collect now es order).0 ≡ (has a es && not (is_expired now a es))
  unfolding collect has
  has-collect now a [] order u = refl
  has-collect now a ((m, t) ∷ es) order u = ground (
    arith,
    has-collect now a es (if leb t now then remove m order else order) u.1,
    is_expired_has now m es u.0,
    has-keys m es,
    u.0,
    e.beq_iff m a,
  )

  collect-IsUnique :
      (now : ℕ) (es : List (A × ℕ)) (order : List A)
      → IsUnique order
      → IsUnique (collect now es order).1
        × ((a : A)
            → member a (collect now es order).1 ≡ (member a order && not (is_expired now a es)))
  unfolding collect
  collect-IsUnique now [] order u = (u, λ a. ground arith)
  collect-IsUnique now ((m, t) ∷ es) order u =
      let (w, h) =
        collect-IsUnique now es (if leb t now then remove m order else order)
          (if-elim IsUnique (leb t now) (remove m order) order (remove-IsUnique m order u) u) in
      (w, λ a. h a ∙ ground (arith, member-remove a m order u))

  -- After `collectGarbage` the order lists the table, and the table has the addresses that were in it and
  -- have not expired; for a listed table that has no address twice.
  pub collect_garbage-IsListed :
      (p : Addresses A) (now : ℕ)
      → IsListed p
      → IsUnique (keys p.expires)
      → IsListed (collect_garbage p now)
        × ((a : A)
            → has a (collect_garbage p now).expires
              ≡ (has a p.expires && not (is_expired now a p.expires)))
  unfolding collect_garbage
  collect_garbage-IsListed p now v u =
      let (w, h) = collect-IsUnique now p.expires p.order v.unique in
      let kept : (a : A)
          → has a (collect now p.expires p.order).0
            ≡ (has a p.expires && not (is_expired now a p.expires)) =
        λ a. has-collect now a p.expires p.order u in
      (
        record {
          unique = w;
          same =
              λ a. h a ∙ ap (λ b. b && not (is_expired now a p.expires)) (v.same a) ∙ sym (kept a);
        },
        kept,
      )
