-- ===== src/Gossip/Router/Invariant/Incoming.antt =====
-- An RPC keeps the sets of the topics.
use leanp2p.Prelude.{
  if-elim, elim-option, ℕ, ◌<◌, ◌≤◌, ◌≡◌, refl, sym, subst, arith, Bool, true, false, ◌&&◌, ◌||◌,
  List, [], ◌∷◌, some, ◌==◌, ==_iff, if◌then◌else◌, inl, inr, Bool-cases,
}
use leanp2p.Prelude.Eq.{nat_eq}
use leanp2p.Prelude.Maps.{lookup, member, insert, IsUnique, member-insert, insert-IsUnique}
use leanp2p.Gossip.Router.{Env, Gossip, Topic, at_topic, at_peer}
use leanp2p.Gossip.Router.Mesh.{graft, join_mesh, make_prune}
use leanp2p.Gossip.Router.Membership.{
  on_subscribe, on_unsubscribe, on_subscriptions, judge_graft, on_graft,
}
use leanp2p.Gossip.Router.Invariant.{
  peers_of, peers_in, mesh_in, IsMeshed, Grows, Grows-trans, Grows-IsMeshed, at_topic-rel,
  at_topic-at, keys-at_topic,
}
use leanp2p.Gossip.Router.Invariant.Mesh.{
  aside-Grows, join_mesh-Grows, graft-Grows, make_prune-Grows,
}
use leanp2p.Gossip.Router.Invariant.Leave.{on_unsubscribe-IsMeshed}

pub ==_above : {n : ℕ} (q p : ℕ) → p < n → n ≤ q → (q == p) ≡ false
==_above q p b l = ground arith

module _ {S : Type 0} where
  -- The peer object has one more topic.
  abbrev pub named : Gossip S → ℕ → ℕ → Gossip S
  named g p h = at_peer g p (λ x. record x { topics = insert h x.topics })

  abbrev pub listed : Gossip S → ℕ → ℕ → Gossip S
  listed g p h = at_topic (named g p h) h (λ t. record t { peers = insert p t.peers })

  pub member-named :
      (g : Gossip S) (p h j q : ℕ)
      → member j ((named g p h).objects q).topics
        ≡ (((q == p) && (h == j)) || member j (g.objects q).topics)
  unfolding at_peer
  member-named g p h j q = ground (arith, member-insert j h (g.objects q).topics)

  pub named-IsMeshed :
      {n : ℕ} (g : Gossip S) (p h : ℕ) → p < n → IsMeshed n g → IsMeshed n (named g p h)
  unfolding at_peer
  named-IsMeshed g p h b v = record {
    made = v.made;
    fresh = λ q l. rw (==_above q p b l) (v.fresh q l);
    topics_set = v.topics_set;
    mesh_set = v.mesh_set;
    peers_set = v.peers_set;
    mesh = v.mesh;
    peers = λ j q m. ground (arith, member-named g p h j q, v.peers j q m);
  }

  pub listed-IsMeshed :
      {n : ℕ} (g : Gossip S) (p h : ℕ) → p < n → IsMeshed n g → IsMeshed n (listed g p h)
  unfolding at_topic at_peer
  listed-IsMeshed g p h b v =
      let g' = named g p h in
      let w = named-IsMeshed g p h b v in
      let f = λ (t : Topic). record t { peers = insert p t.peers } in
      record {
        made = w.made;
        fresh = w.fresh;
        topics_set = subst (λ s. IsUnique s) (sym (keys-at_topic g' h f)) w.topics_set;
        mesh_set = λ j.
            at_topic-rel (λ o o'. IsUnique (mesh_in o) → IsUnique (mesh_in o')) g' h f (λ u. u)
              (λ t u. u) (λ t e u. u) j (w.mesh_set j);
        peers_set = λ j.
            at_topic-rel (λ o o'. IsUnique (peers_in o) → IsUnique (peers_in o')) g' h f (λ u. u)
              (λ t u. u) (λ t e. insert-IsUnique p t.peers) j (w.peers_set j);
        mesh = λ j q.
            at_topic-rel
              (λ o o'.
                (member q (mesh_in o) ≡ true → member q (peers_in o) ≡ true)
                → member q (mesh_in o') ≡ true
                → member q (peers_in o') ≡ true)
              g' h f (λ a. a) (λ t a. a) (λ t e a m. ground (arith, member-insert q p t.peers, a m))
              j (w.mesh j q);
        peers = λ j q.
            at_topic-at
              (λ j o o'.
                (member q (peers_in o) ≡ true → member j (g'.objects q).topics ≡ true)
                → member q (peers_in o') ≡ true
                → member j (g'.objects q).topics ≡ true)
              g' h f (λ j a. a) (λ j t n a. a)
              (λ t e a m. elim (Bool-cases (member q t.peers)) [
                | inl k ↦ a k
                | inr k ↦ ground (
                  arith,
                  member-insert q p t.peers,
                  member-named g p h h q,
                  ==_iff p q,
                  ==_iff q p,
                )
              ])
              j (w.peers j q);
      }

  -- The peer is then one of the topic's.
  pub member-listed :
      (g : Gossip S) (p h : ℕ) (t : Topic)
      → lookup h (listed g p h).topics ≡ some t
      → member p (peers_of (listed g p h) h) ≡ true
  member-listed g p h t e =
      at_topic-at (λ j o o'. h ≡ j → o' ≡ some t → member p (peers_in o') ≡ true) (named g p h) h
        (λ t. record t { peers = insert p t.peers }) (λ j i k. ground (arith, k))
        (λ j t n i k. absurd (n i)) (λ t e' i k. ground (arith, member-insert p p t.peers)) h refl e

module _ {S R : Type 0} (env : Env S R) where
  pub on_subscribe-IsMeshed :
      {n : ℕ} (g : Gossip S) (p h : ℕ) → p < n → IsMeshed n g → IsMeshed n (on_subscribe env g p h)
  unfolding on_subscribe
  on_subscribe-IsMeshed {n = n} g p h b v =
      let g' = listed g p h in
      elim-option (lookup h g'.topics) (IsMeshed n) (named g p h) _ (named-IsMeshed g p h b v)
        (λ t e.
          if-elim (IsMeshed n) _ (graft env g' h p) g'
            (Grows-IsMeshed g' _ (graft-Grows env g' h p (member-listed g p h t e))
              (listed-IsMeshed g p h b v))
            (listed-IsMeshed g p h b v))

  pub on_subscriptions-IsMeshed :
      {n : ℕ} (g : Gossip S) (p : ℕ) (subscriptions : List (ℕ × Bool))
      → p < n
      → IsMeshed n g
      → IsMeshed n (on_subscriptions env g p subscriptions)
  unfolding on_subscriptions
  on_subscriptions-IsMeshed g p [] b v = v
  on_subscriptions-IsMeshed {n = n} g p ((h, on) ∷ rest) b v =
      on_subscriptions-IsMeshed (if on then on_subscribe env g p h else on_unsubscribe env g p h) p
        rest b
        (if-elim (IsMeshed n) on _ _ (on_subscribe-IsMeshed g p h b v)
          (on_unsubscribe-IsMeshed env g p h v))

  pub judge_graft-Grows : (g : Gossip S) (p h : ℕ) (t : Topic) → Grows g (judge_graft env g p h t).1
  unfolding judge_graft
  judge_graft-Grows g p h t =
      aside-Grows g (judge_graft env g p h t).1 (ground arith) (ground arith) (ground arith)

  pub on_graft-IsMeshed :
      {n : ℕ} (g : Gossip S) (p h : ℕ) → p < n → IsMeshed n g → IsMeshed n (on_graft env g p h)
  unfolding on_graft
  on_graft-IsMeshed {n = n} g p h b v =
      let g' = listed g p h in
      let w = listed-IsMeshed g p h b v in
      elim-option (lookup h g'.topics) (IsMeshed n) (named g p h) _ (named-IsMeshed g p h b v)
        (λ t e.
          let judged = judge_graft env g' p h t in
          let a = judge_graft-Grows g' p h t in
          if-elim (IsMeshed n) t.publish_only g' _ w (
            if-elim (IsMeshed n) _ g' _ w (
              if-elim (IsMeshed n) judged.0 (join_mesh env judged.1 h p)
                (make_prune env judged.1 h p)
                (Grows-IsMeshed g' _
                  (Grows-trans g' judged.1 _ a (
                    join_mesh-Grows env judged.1 h p (
                      subst (λ s. member p s ≡ true) (sym (a.same_peers h))
                        (member-listed g p h t e))))
                  w)
                (Grows-IsMeshed g' _
                  (Grows-trans g' judged.1 _ a (make_prune-Grows env judged.1 h p)) w))))
