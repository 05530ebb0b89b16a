-- ===== src/Gossip/Backoff/Invariant.antt =====
-- The invariant of `TopicBackoff` under its operations, and what `update` does to every peer.
use leanp2p.Prelude.{
  ℕ, zero, suc, ◌+◌, ◌/◌, ◌%◌, ◌≤◌, ◌<◌, ◌≡◌, refl, sym, ap, ◌∙◌, arith, false, not, ◌&&◌, List, [],
  none, some, length, length-set, length-replicate, get_or, set, replicate, ◌==◌, if◌then◌else◌,
  Bool-cases, Option-cases, inl, inr,
}
use leanp2p.Prelude.Eq.{nat_eq}
use leanp2p.Prelude.Maps.{
  lookup, modify, member, keys, IsUnique, insert-IsUnique, keys-emplace, keys-modify,
  lookup-emplace, lookup-modify, lookup-has,
}
use leanp2p.Gossip.Backoff.{Backoff, init, put, take_out, move_to, shift}
use leanp2p.Gossip.Backoff.Slots.{
  get_or-set, length-put, length-take_out, member-put, member-take_out, put-IsUnique,
  take_out-IsUnique,
}
use leanp2p.Gossip.Backoff.Refinement.{
  IsValid, stands, mod_injective, erase_all-IsUnique, place_lt, lookup-shift,
}

get_or-replicate : (n i : ℕ) → get_or (replicate {A = List ℕ} n []) i [] ≡ []
get_or-replicate zero i = refl
get_or-replicate (suc n) zero = refl
get_or-replicate (suc n) (suc i) = get_or-replicate n i

pub init-IsValid : (p h s : ℕ) → IsValid (init p h s)
unfolding init lookup member
init-IsValid p h s = record {
  sized = rw (length-replicate {A = List ℕ} (p / h + s + 1) []) (omega arith);
  unique = tt;
  lists = λ i. rw (get_or-replicate (p / h + s + 1) i) tt;
  in_range = λ q i e. ground arith;
  placed = λ q i l. ap (member q) (get_or-replicate (p / h + s + 1) i);
}

module _ (b : Backoff) (v : IsValid b) where
  lists-shift : (i : ℕ) → IsUnique (get_or (shift b).slots i [])
  unfolding shift
  lists-shift i =
      rw (get_or-set b.slots (b.slot % length b.slots) i [] (place_lt b v b.slot))
        (ground (arith, v.lists i))

  in_range-shift :
      (q h : ℕ)
      → lookup q (shift b).peers ≡ some h
      → (b.slot + 1 ≤ h) × (h < b.slot + 1 + length b.slots)
  in_range-shift q h e = elim (Option-cases (lookup q b.peers)) [
    | inl e' ↦ ground (arith, lookup-shift b v q)
    | inr (old, e') ↦ ground (arith, lookup-shift b v q, v.in_range q old e')
  ]

  placed-shift :
      (q i : ℕ)
      → i < length b.slots
      → member q (get_or (set b.slots (b.slot % length b.slots) []) i [])
        ≡ stands (length b.slots) i (lookup q (shift b).peers)
  unfolding member
  placed-shift q i l = elim (Option-cases (lookup q b.peers)) [
    | inl e ↦ ground (
      arith,
      get_or-set b.slots (b.slot % length b.slots) i [] (place_lt b v b.slot),
      lookup-shift b v q,
      v.placed q i l,
    )
    | inr (h, e) ↦ ground (
      arith,
      get_or-set b.slots (b.slot % length b.slots) i [] (place_lt b v b.slot),
      lookup-shift b v q,
      v.placed q i l,
      mod_injective b.slot h (length b.slots) v.sized (v.in_range q h e).0 (v.in_range q h e).1,
    )
  ]

  pub shift-IsValid : IsValid (shift b)
  unfolding shift
  shift-IsValid = record {
    sized = rw (length-set b.slots (b.slot % length b.slots) []) v.sized;
    unique = erase_all-IsUnique (get_or b.slots (b.slot % length b.slots) []) b.peers v.unique;
    lists = lists-shift;
    in_range = λ q h e. rw (length-set b.slots (b.slot % length b.slots) []) (in_range-shift q h e);
    placed = λ q i l.
        rw (length-set b.slots (b.slot % length b.slots) [])
          (placed-shift q i (rw (sym (length-set b.slots (b.slot % length b.slots) [])) l));
  }

  -- The peers once `update` has given `peer` the horizon `h`.
  module _ (peer h : ℕ) (lo : b.slot ≤ h) (hi : h < b.slot + length b.slots) where
    in_range-entry :
        (q h' : ℕ)
        → (if peer == q then some h else lookup q b.peers) ≡ some h'
        → (b.slot ≤ h') × (h' < b.slot + length b.slots)
    in_range-entry q h' e = elim (Bool-cases (peer == q)) [
      | inl d ↦ ground arith
      | inr d ↦ v.in_range q h' (ground arith)
    ]

    module _ (e : lookup peer b.peers ≡ none) where
      pub lookup-add :
          (q : ℕ)
          → lookup q (move_to b peer h none).peers
            ≡ (if peer == q then some h else lookup q b.peers)
      unfolding move_to
      lookup-add q = ground (arith, lookup-emplace q peer h b.peers, lookup-has peer b.peers e)

      placed-add :
          (q i : ℕ)
          → i < length b.slots
          → member q (get_or (put b.slots h peer) i [])
            ≡ stands (length b.slots) i (lookup q (move_to b peer h none).peers)
      placed-add q i l =
          ground (arith, member-put b.slots v.sized h peer q i, lookup-add q, v.placed q i l)

      pub add-IsValid : IsValid (move_to b peer h none)
      unfolding move_to
      add-IsValid = record {
        sized = rw (length-put b.slots v.sized h peer) v.sized;
        unique = rw (keys-emplace peer h b.peers) (insert-IsUnique peer (keys b.peers) v.unique);
        lists = λ i.
            put-IsUnique b.slots v.sized h peer i (v.lists i)
              (v.placed peer _ (place_lt b v h) ∙ rw e refl);
        in_range = λ q h' e'.
            rw (length-put b.slots v.sized h peer) (in_range-entry q h' (sym (lookup-add q) ∙ e'));
        placed = λ q i l.
            rw (length-put b.slots v.sized h peer)
              (placed-add q i (rw (sym (length-put b.slots v.sized h peer)) l));
      }

    module _ (old : ℕ) (e : lookup peer b.peers ≡ some old) (further : old < h) where
      pub lookup-move :
          (q : ℕ)
          → lookup q (move_to b peer h (some old)).peers
            ≡ (if peer == q then some h else lookup q b.peers)
      unfolding move_to
      lookup-move q = ground (arith, lookup-modify q peer (λ _. h) b.peers)

      abbrev slots_without : List (List ℕ)
      slots_without = take_out b.slots old peer

      length-slots_without : length slots_without ≡ length b.slots
      length-slots_without = length-take_out b.slots v.sized old peer

      sized-slots_without : 0 < length slots_without
      sized-slots_without = rw length-slots_without v.sized

      member-slots_without :
          (q i : ℕ)
          → member q (get_or slots_without i [])
            ≡ (not (old % length b.slots == i && peer == q) && member q (get_or b.slots i []))
      member-slots_without q i = member-take_out b.slots v.sized old peer q i (v.lists i)

      pub length-moved : length (put slots_without h peer) ≡ length b.slots
      length-moved = length-put slots_without sized-slots_without h peer ∙ length-slots_without

      -- Once it is taken out, the peer stands in no list.
      gone : (i : ℕ) → i < length b.slots → member peer (get_or slots_without i []) ≡ false
      gone i l = ground (arith, member-slots_without peer i, v.placed peer i l)

      placed-move :
          (q i : ℕ)
          → i < length b.slots
          → member q (get_or (put slots_without h peer) i [])
            ≡ stands (length b.slots) i (lookup q (move_to b peer h (some old)).peers)
      placed-move q i l = ground (
        arith,
        member-put slots_without sized-slots_without h peer q i,
        lookup-move q,
        v.placed q i l,
        member-slots_without q i,
        length-slots_without,
      )

      abbrev moved : Backoff
      moved = record b { slots = put slots_without h peer; peers = modify peer (λ _. h) b.peers }

      pub move_to-moved : move_to b peer h (some old) ≡ moved
      unfolding move_to
      move_to-moved = ground arith

      pub move-IsValid : IsValid moved
      move-IsValid = record {
        sized = rw length-moved v.sized;
        unique = rw (keys-modify peer (λ _. h) b.peers) v.unique;
        lists = λ i.
            put-IsUnique slots_without sized-slots_without h peer i
              (take_out-IsUnique b.slots v.sized old peer i (v.lists i))
              (gone _ (rw length-slots_without (place_lt b v h)));
        in_range = λ q h' e'. rw length-moved (
            in_range-entry q h'
              (sym (lookup-move q) ∙ ap (λ c. lookup q c.peers) move_to-moved ∙ e'));
        placed = λ q i l. rw length-moved (
            placed-move q i (rw (sym length-moved) l)
            ∙ ap (λ c. stands (length b.slots) i (lookup q c.peers)) move_to-moved);
      }
