-- ===== src/AddressRepository/Order.antt =====
-- The order of the addresses lists the table of expiry times, each address once.
use leanp2p.Prelude.{
  ℕ, ◌≡◌, ◌∙◌, sym, arith, Bool, false, ◌||◌, not, List, [], ◌∷◌, ◌++◌, Bool-cases, inl, inr,
}
use leanp2p.Prelude.Eq.{Eq}
use leanp2p.Prelude.Maps.{
  has, emplace, modify, keys, remove, member, IsUnique, IsUnique-append, member-append,
  member-remove, remove-IsUnique, has-keys, keys-emplace, keys-modify, member-insert,
}
use leanp2p.AddressRepository.{
  Addresses, add_address, add_addresses, upsert_address, upsert_addresses, dial_failed,
}

module _ {A : Type 0} ⦃e : Eq A⦄ where
  -- The order has no address twice, and has just the addresses of the table.
  pub record IsListed (p : Addresses A) : Type 0 where
    pub unique : IsUnique p.order
    pub same : (a : A) → member a p.order ≡ has a p.expires

  has-emplace :
      (a m : A) (t : ℕ) (es : List (A × ℕ)) → has a (emplace m t es) ≡ (e.beq m a || has a es)
  has-emplace a m t es = ground (
    arith,
    has-keys a (emplace m t es),
    keys-emplace m t es,
    member-insert a m (keys es),
    has-keys a es,
  )

  has-modify : (a m : A) (f : ℕ → ℕ) (es : List (A × ℕ)) → has a (modify m f es) ≡ has a es
  has-modify a m f es = has-keys a (modify m f es) ∙ rw (keys-modify m f es) (sym (has-keys a es))

  member-back : (a m : A) (s : List A) → member a (s ++ (m ∷ [])) ≡ (e.beq m a || member a s)
  unfolding member
  member-back a m s = ground (arith, member-append a s (m ∷ []))

  back-IsListed :
      (p : Addresses A) (m : A) (t : ℕ)
      → IsListed p
      → has m p.expires ≡ false
      → IsListed (record { expires = emplace m t p.expires; order = p.order ++ (m ∷ []) })
  back-IsListed p m t v d = record {
    unique = IsUnique-append m p.order (v.same m ∙ d) v.unique;
    same = λ a. ground (arith, member-back a m p.order, has-emplace a m t p.expires, v.same a);
  }

  add_address-IsListed :
      (p : Addresses A) (m : A) (t : ℕ) → IsListed p → IsListed (add_address p m t)
  unfolding add_address
  add_address-IsListed p m t v = elim (Bool-cases (has m p.expires)) [
    | inl d ↦ rw d v
    | inr d ↦ rw d (back-IsListed p m t v d)
  ]

  upsert_address-IsListed :
      (p : Addresses A) (m : A) (t : ℕ) → IsListed p → IsListed (upsert_address p m t)
  unfolding upsert_address
  upsert_address-IsListed p m t v = elim (Bool-cases (has m p.expires)) [
    | inl d ↦ rw d (record {
      unique = v.unique;
      same = λ a. v.same a ∙ sym (has-modify a m (λ _. t) p.expires);
    })
    | inr d ↦ rw d (back-IsListed p m t v d)
  ]

  member-add_address :
      (p : Addresses A) (m a : A) (t : ℕ)
      → IsListed p
      → member a (add_address p m t).order ≡ (e.beq m a || member a p.order)
  unfolding add_address
  member-add_address p m a t v =
      ground (arith, member-back a m p.order, v.same m, v.same a, e.beq_iff m a)

  member-upsert_address :
      (p : Addresses A) (m a : A) (t : ℕ)
      → IsListed p
      → member a (upsert_address p m t).order ≡ (e.beq m a || member a p.order)
  unfolding upsert_address
  member-upsert_address p m a t v =
      ground (arith, member-back a m p.order, v.same m, v.same a, e.beq_iff m a)

  -- `dialFailed` keeps the order a listing of the table of expiry times.
  pub dial_failed-IsListed : (p : Addresses A) (a : A) → IsListed p → IsListed (dial_failed p a)
  unfolding dial_failed
  dial_failed-IsListed p a v = elim (Bool-cases (has a p.expires)) [
    | inl d ↦
        rw (d, v.same a ∙ d)
          (record {
            unique =
                IsUnique-append a (remove a p.order)
                  (ground (arith, member-remove a a p.order v.unique, e.beq_iff a a))
                  (remove-IsUnique a p.order v.unique);
            same = λ b. ground (
              arith,
              member-back b a (remove a p.order),
              member-remove b a p.order v.unique,
              v.same b,
              e.beq_iff a b,
              d,
            );
          })
    | inr d ↦ rw d v
  ]

  -- After `addAddresses` on a listed table the order is a listing of it, and it has the addresses
  -- that were there and those that were given.
  pub add_addresses-IsListed :
      (p : Addresses A) (ma : List A) (t : ℕ) (added : Bool)
      → IsListed p
      → IsListed (add_addresses p ma t added).0
        × ((a : A)
            → member a (add_addresses p ma t added).0.order ≡ (member a p.order || member a ma))
  unfolding add_addresses member
  add_addresses-IsListed p [] t added v = (v, λ a. ground arith)
  add_addresses-IsListed p (m ∷ ma) t added v =
      let (w, h) =
        add_addresses-IsListed (add_address p m t) ma t (not (has m p.expires) || added)
          (add_address-IsListed p m t v) in
      (w, λ a. h a ∙ ground (arith, member-add_address p m a t v))

  -- After `upsertAddresses` on a listed table the order is a listing of it, and it has the addresses
  -- that were there and those that were given.
  pub upsert_addresses-IsListed :
      (p : Addresses A) (ma : List A) (t : ℕ) (added : Bool)
      → IsListed p
      → IsListed (upsert_addresses p ma t added).0
        × ((a : A)
            → member a (upsert_addresses p ma t added).0.order ≡ (member a p.order || member a ma))
  unfolding upsert_addresses member
  upsert_addresses-IsListed p [] t added v = (v, λ a. ground arith)
  upsert_addresses-IsListed p (m ∷ ma) t added v =
      let (w, h) =
        upsert_addresses-IsListed (upsert_address p m t) ma t (not (has m p.expires) || added)
          (upsert_address-IsListed p m t v) in
      (w, λ a. h a ∙ ground (arith, member-upsert_address p m a t v))
