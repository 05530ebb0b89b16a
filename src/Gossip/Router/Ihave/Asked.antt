-- ===== src/Gossip/Router/Ihave/Asked.antt =====
-- How many ids a peer is asked for between two heartbeats.
use leanp2p.Prelude.{
  ℕ, suc, ◌+◌, ◌*◌, ◌-◌, ◌≤◌, ◌≡◌, refl, sym, ap, subst, ◌∙◌, arith, Bool, true, false, not, ◌&&◌,
  List, [], ◌∷◌, Option, none, some, min, leb, ltb, ◌==◌, ==_iff, if◌then◌else◌, length, take,
  length-take, if-cases, Bool-cases, inl, inr, option-cases,
}
use leanp2p.Prelude.Eq.{nat_eq}
use leanp2p.Prelude.Maps.{lookup, has, emplace, modify, insert, member, length-insert}
use leanp2p.Gossip.Promises
use leanp2p.Gossip.Router.{Env, Gossip, Rpc, empty_rpc, at_peer, with_batch, is_gossipsub}
use leanp2p.Gossip.Router.Incoming.{PbRpc}
use leanp2p.Gossip.Router.Connections.{take_batch}
use leanp2p.Gossip.Router.Ihave.{count_of, promise_all, want_set, want_some, handle_ihave}
use leanp2p.Gossip.Router.Ihave.Capped.{
  IsCapped, added, count_of-added, count_of-added_ne, handle_ihave-IsCapped,
}

abbrev pub ids_of : Option Rpc → ℕ
ids_of none = 0
ids_of (some r) = length r.iwant

abbrev pub batch_or_empty : Option Rpc → Rpc
batch_or_empty o = elim o [ none ↦ empty_rpc | some r ↦ r ]

ids_of-insert :
    (id : ℕ) (o : Option Rpc) → length (insert id (batch_or_empty o).iwant) ≤ ids_of o + 1
unfolding member
ids_of-insert id none = omega (arith, length-insert id [])
ids_of-insert id (some r) = ground (arith, length-insert id r.iwant)

ids_of-kept : (o : Option Rpc) → length (batch_or_empty o).iwant ≡ ids_of o
ids_of-kept none = refl
ids_of-kept (some r) = refl

swapped : (q p : ℕ) → q == p ≡ false → p == q ≡ false
swapped q p e = ground (arith, e, ==_iff q p, ==_iff p q)

module _ {S : Type 0} where
  -- The ids that wait in the batch of a peer.
  abbrev pub waiting_ids : Gossip S → ℕ → ℕ
  waiting_ids g q = ids_of (g.objects q).batch

  with_batch-own :
      (g : Gossip S) (p : ℕ) (f : Rpc → Rpc)
      → waiting_ids (with_batch g p f) p ≡ length (f (batch_or_empty (g.objects p).batch)).iwant
  unfolding with_batch at_peer
  with_batch-own g p f = let e : p == p ≡ true = (==_iff p p).1 refl in rw e refl

  with_batch-other :
      (g : Gossip S) (p q : ℕ) (f : Rpc → Rpc)
      → q == p ≡ false
      → waiting_ids (with_batch g p f) q ≡ waiting_ids g q
  unfolding with_batch at_peer
  with_batch-other g p q f e = rw e refl

module _ {S R : Type 0} (env : Env S R) where
  promise_all-own :
      (g : Gossip S) (p : ℕ) (ids : List ℕ)
      → waiting_ids (promise_all env g p ids) p ≤ waiting_ids g p + length ids
  unfolding promise_all
  promise_all-own g p [] = omega arith
  promise_all-own g p (id ∷ ids) =
      let promised : Gossip S = record g {
        promises = Promises.add g.promises id p g.now (env.config.iwant_followup_time * 1000);
      } in
      omega (
        arith,
        promise_all-own (with_batch promised p (λ r. record r { iwant = insert id r.iwant })) p ids,
        with_batch-own promised p (λ r. record r { iwant = insert id r.iwant }),
        ids_of-insert id (g.objects p).batch,
      )

  promise_all-other :
      (g : Gossip S) (p q : ℕ) (ids : List ℕ)
      → q == p ≡ false
      → waiting_ids (promise_all env g p ids) q ≡ waiting_ids g q
  unfolding promise_all
  promise_all-other g p q [] e = refl
  promise_all-other g p q (id ∷ ids) e =
      let promised : Gossip S = record g {
        promises = Promises.add g.promises id p g.now (env.config.iwant_followup_time * 1000);
      } in
      promise_all-other (with_batch promised p (λ r. record r { iwant = insert id r.iwant })) p q
        ids e
      ∙ with_batch-other promised p q (λ r. record r { iwant = insert id r.iwant }) e

  promise_all-counts :
      (g : Gossip S) (p : ℕ) (ids : List ℕ)
      → (promise_all env g p ids).count_sent_iwant ≡ g.count_sent_iwant
  unfolding promise_all with_batch at_peer
  promise_all-counts g p [] = refl
  promise_all-counts g p (id ∷ ids) =
      promise_all-counts
        (with_batch
          (record g {
            promises = Promises.add g.promises id p g.now (env.config.iwant_followup_time * 1000);
          })
          p (λ r. record r { iwant = insert id r.iwant }))
        p ids

  -- The ids that are queued for a peer are counted.
  abbrev Counted : ℕ → Gossip S → Gossip S → Type 0
  Counted q g g' =
      waiting_ids g' q + count_of q g.count_sent_iwant
      ≤ waiting_ids g q + count_of q g'.count_sent_iwant

  Counted-refl : (q : ℕ) (g : Gossip S) → Counted q g g
  Counted-refl q g = omega arith

  -- The ids are taken off the list that the shuffle leaves.
  asked-Counted :
      (g : Gossip S) (p q count : ℕ) (ids : List ℕ)
      → Counted q g (
          promise_all env
            (with_batch
              (record g {
                random = g.random + 1;
                count_sent_iwant = added p count g.count_sent_iwant;
              })
              p
              (λ r. r))
            p
            (take count ids))
  unfolding promise_all lookup with_batch
  asked-Counted g p q count ids =
      let counted : Gossip S = record g {
        random = g.random + 1;
        count_sent_iwant = added p count g.count_sent_iwant;
      } in
      let ready = with_batch counted p (λ r. r) in
      let counts = promise_all-counts ready p (take count ids) in
      elim (Bool-cases (q == p)) [
        | inl e ↦
            let same : q ≡ p = (==_iff q p).0 e in
            subst (λ x. Counted x g (promise_all env ready p (take count ids))) (sym same)
              (omega (
                arith,
                promise_all-own ready p (take count ids),
                with_batch-own counted p (λ r. r),
                ids_of-kept (g.objects p).batch,
                length-take count ids,
                ap (count_of p) counts,
                count_of-added p count g.count_sent_iwant,
              ))
        | inr e ↦ omega (
          arith,
          promise_all-other ready p q (take count ids) e,
          with_batch-other counted p q (λ r. r) e,
          ap (count_of q) counts,
          count_of-added_ne p q count g.count_sent_iwant (swapped q p e),
        )
      ]

  want_some-Counted :
      (g : Gossip S) (p q : ℕ) (ihaves : List (ℕ × List ℕ)) → Counted q g (want_some env g p ihaves)
  unfolding want_some
  want_some-Counted g p q ihaves =
      let wanted = want_set env g p ihaves [] in
      let sent = count_of p g.count_sent_iwant in
      let count = min (length wanted) (env.config.max_ihave_length - sent) in
      if-cases (Counted q g) (has p g.count_sent_iwant && leb env.config.max_ihave_length sent) _ _
        (λ e. Counted-refl q g)
        (λ e.
          if-cases (Counted q g) (length wanted == 0) _ _ (λ k. Counted-refl q g)
            (λ k. asked-Counted g p q count (env.shuffle g.random wanted)))

  handle_ihave-Counted :
      (g : Gossip S) (p q : ℕ) (ihaves : List (ℕ × List ℕ))
      → Counted q g (handle_ihave env g p ihaves).1
  unfolding handle_ihave
  handle_ihave-Counted g p q ihaves =
      let g' : Gossip S = record g {
        count_received_ihave = modify p suc (emplace p 0 g.count_received_ihave);
      } in
      let P = λ (x : Bool × Gossip S). Counted q g x.1 in
      if-cases P (length ihaves == 0) _ _ (λ e. Counted-refl q g)
        (λ e.
          if-cases P (not (is_gossipsub (g.objects p))) _ _ (λ e. Counted-refl q g)
            (λ e.
              if-cases P (ltb env.config.max_ihave_messages (count_of p g'.count_received_ihave)) _
                _ (λ e. Counted-refl q g) (λ e. want_some-Counted g' p q ihaves)))

-- IHAVEs that come, and batches that the writer takes.
pub data Offer : Type 0 where
  offers : ℕ → List (ℕ × List ℕ) → Offer
  writes : ℕ → Offer

module _ {S R : Type 0} (env : Env S R) where
  -- The ids that a peer is asked for: in the batches that are taken, and in the one that is left.
  unfoldable pub asked : Gossip S → List Offer → ℕ → ℕ
  asked g [] q = waiting_ids g q
  asked g (offers p ihaves ∷ es) q = asked (handle_ihave env g p ihaves).1 es q
  asked g (writes p ∷ es) q =
      (if p == q then waiting_ids g q else 0) + asked (take_batch env g p).1 es q

  take_batch-counts :
      (g : Gossip S) (p : ℕ) → (take_batch env g p).1.count_sent_iwant ≡ g.count_sent_iwant
  unfolding take_batch at_peer
  take_batch-counts g p =
      option-cases (g.objects p).batch
        (λ (x : List PbRpc × Gossip S). x.1.count_sent_iwant ≡ g.count_sent_iwant) _ _ (λ e. refl)
        (λ r e. refl)

  take_batch-own : (g : Gossip S) (p : ℕ) → waiting_ids (take_batch env g p).1 p ≡ 0
  unfolding take_batch at_peer
  take_batch-own g p =
      let e : p == p ≡ true = (==_iff p p).1 refl in
      option-cases (g.objects p).batch (λ (x : List PbRpc × Gossip S). waiting_ids x.1 p ≡ 0) _ _
        (λ n. rw e (ap ids_of n)) (λ r n. rw e refl)

  take_batch-other :
      (g : Gossip S) (p q : ℕ)
      → q == p ≡ false
      → waiting_ids (take_batch env g p).1 q ≡ waiting_ids g q
  unfolding take_batch at_peer
  take_batch-other g p q e =
      option-cases (g.objects p).batch
        (λ (x : List PbRpc × Gossip S). waiting_ids x.1 q ≡ waiting_ids g q) _ _ (λ n. rw e refl)
        (λ r n. rw e refl)

  take_batch-ids :
      (g : Gossip S) (p q : ℕ)
      → waiting_ids (take_batch env g p).1 q ≡ (if p == q then 0 else waiting_ids g q)
  take_batch-ids g p q = elim (Bool-cases (q == p)) [
    | inl e ↦
        subst (λ x. waiting_ids (take_batch env g p).1 x ≡ (if p == x then 0 else waiting_ids g x))
          (sym ((==_iff q p).0 e))
          (take_batch-own g p ∙ (let k : p == p ≡ true = (==_iff p p).1 refl in rw k refl))
    | inr e ↦ let k = swapped q p e in rw k (take_batch-other g p q e)
  ]

  -- Where the count of each peer is at most `max_ihave_length`: however many ids the peers offer, and whatever the
  -- writer takes meanwhile, the ids that a peer is asked for are at most `max_ihave_length` less those that are
  -- counted already, besides the ids that wait in its batch at the start.
  pub asked-le-limit :
      (g : Gossip S) (es : List Offer) (q : ℕ)
      → IsCapped env g
      → asked g es q + count_of q g.count_sent_iwant ≤ waiting_ids g q + env.config.max_ihave_length
  unfolding asked
  asked-le-limit g [] q c = omega (arith, c q)
  asked-le-limit g (offers p ihaves ∷ es) q c =
      let g' = (handle_ihave env g p ihaves).1 in
      omega (
        arith,
        asked-le-limit g' es q (handle_ihave-IsCapped env g p ihaves c),
        handle_ihave-Counted env g p q ihaves,
      )
  asked-le-limit g (writes p ∷ es) q c =
      let g' = (take_batch env g p).1 in
      let counts = take_batch-counts g p in
      ground (
        arith,
        asked-le-limit g' es q
            (λ r. subst (λ m. count_of r m ≤ env.config.max_ihave_length) (sym counts) (c r)),
        ap (count_of q) counts,
        take_batch-ids g p q,
      )
