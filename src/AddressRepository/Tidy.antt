-- ===== src/AddressRepository/Tidy.antt =====
-- What the operations keep of the addresses of one peer.
use leanp2p.Prelude.{
  ℕ, ◌≡◌, refl, sym, ap, ◌∙◌, arith, Bool, false, not, ◌||◌, inl, inr, List, [], ◌∷◌, ◌++◌, ◌==◌,
  leb, if◌then◌else◌, Bool-cases, if-elim,
}
use leanp2p.Prelude.Eq.{nat_eq}
use leanp2p.Prelude.Maps.{
  has, remove, member, keys, IsUnique, keys-modify, keys-emplace, insert-IsUnique,
}
use leanp2p.AddressRepository.{
  Addresses, add_address, add_addresses, upsert_address, upsert_addresses, dial_failed, erase_order,
}
use leanp2p.AddressRepository.Garbage.{
  expire_all, update_addresses, collect, collect_garbage, collect_garbage-IsListed,
}
use leanp2p.AddressRepository.Order.{IsListed, dial_failed-IsListed}
use leanp2p.AddressRepository.Repository.{no_addresses}

-- The order has the addresses of the table, each once.
pub record IsTidy (a : Addresses ℕ) : Type 0 where
  pub listed : IsListed a
  pub unique : IsUnique (keys a.expires)

abbrev pub HasUnique : Addresses ℕ → Type 0
HasUnique a = IsUnique (keys a.expires)

pub add_addresses-IsUnique :
    (ma : List ℕ) (a : Addresses ℕ) (t : ℕ) (b : Bool)
    → IsUnique (keys a.expires)
    → IsUnique (keys (add_addresses a ma t b).0.expires)
unfolding add_addresses add_address
add_addresses-IsUnique [] a t b u = u
add_addresses-IsUnique (m ∷ ma) a t b u = add_addresses-IsUnique ma (add_address a m t) t _ (
    if-elim HasUnique (has m a.expires) a _ u
      (rw (keys-emplace m t a.expires) (insert-IsUnique m (keys a.expires) u)))

pub upsert_addresses-IsUnique :
    (ma : List ℕ) (a : Addresses ℕ) (t : ℕ) (b : Bool)
    → IsUnique (keys a.expires)
    → IsUnique (keys (upsert_addresses a ma t b).0.expires)
unfolding upsert_addresses upsert_address
upsert_addresses-IsUnique [] a t b u = u
upsert_addresses-IsUnique (m ∷ ma) a t b u =
    upsert_addresses-IsUnique ma (upsert_address a m t) t _ (
      if-elim HasUnique (has m a.expires) _ _ (rw (keys-modify m (λ _. t) a.expires) u)
        (rw (keys-emplace m t a.expires) (insert-IsUnique m (keys a.expires) u)))

keys-expire_all : (es : List (ℕ × ℕ)) (t : ℕ) → keys (expire_all es t) ≡ keys es
unfolding expire_all
keys-expire_all [] t = refl
keys-expire_all ((m, s) ∷ es) t = ap (λ ks. m ∷ ks) (keys-expire_all es t)

has-expire_all : (m : ℕ) (es : List (ℕ × ℕ)) (t : ℕ) → has m (expire_all es t) ≡ has m es
unfolding expire_all has
has-expire_all m [] t = refl
has-expire_all m ((k, s) ∷ es) t = ap (λ b. k == m || b) (has-expire_all m es t)

pub update_addresses-IsTidy : (a : Addresses ℕ) (t : ℕ) → IsTidy a → IsTidy (update_addresses a t)
unfolding update_addresses
update_addresses-IsTidy a t v = record {
  listed = record {
    unique = v.listed.unique;
    same = λ m. v.listed.same m ∙ sym (has-expire_all m a.expires t);
  };
  unique = rw (keys-expire_all a.expires t) v.unique;
}

pub dial_failed-IsTidy : (a : Addresses ℕ) (addr : ℕ) → IsTidy a → IsTidy (dial_failed a addr)
unfolding dial_failed
dial_failed-IsTidy a addr v =
    let erased = erase_order a addr in
    let moved : Addresses ℕ = record a { order = erased.0.order ++ (addr ∷ []) } in
    record {
      listed = dial_failed-IsListed a addr v.listed;
      unique =
          if-elim HasUnique (not (has addr a.expires)) a (if not erased.1 then a else moved)
            v.unique (if-elim HasUnique (not erased.1) a moved v.unique v.unique);
    }

pub no_addresses-IsTidy : IsTidy no_addresses
unfolding member has
no_addresses-IsTidy = record { listed = record { unique = tt; same = λ m. refl }; unique = tt }

member-collect :
    (now m : ℕ) (es : List (ℕ × ℕ)) (order : List ℕ)
    → member m (keys es) ≡ false
    → member m (keys (collect now es order).0) ≡ false
unfolding collect member
member-collect now m [] order h = h
member-collect now m ((k, t) ∷ es) order h =
    ground (arith, member-collect now m es (remove k order), member-collect now m es order)

collect-IsUnique :
    (now : ℕ) (es : List (ℕ × ℕ)) (order : List ℕ)
    → IsUnique (keys es)
    → IsUnique (keys (collect now es order).0)
unfolding collect
collect-IsUnique now [] order u = tt
collect-IsUnique now ((k, t) ∷ es) order u = elim (Bool-cases (leb t now)) [
  | inl e ↦ rw e (collect-IsUnique now es (remove k order) u.1)
  | inr e ↦ rw e (member-collect now k es order u.0, collect-IsUnique now es order u.1)
]

pub collect_garbage-IsTidy : (a : Addresses ℕ) (now : ℕ) → IsTidy a → IsTidy (collect_garbage a now)
unfolding collect_garbage
collect_garbage-IsTidy a now v = record {
  listed = (collect_garbage-IsListed a now v.listed v.unique).0;
  unique = collect-IsUnique now a.expires a.order v.unique;
}
