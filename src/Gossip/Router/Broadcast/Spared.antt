-- ===== src/Gossip/Router/Broadcast/Spared.antt =====
-- Whom a broadcast sends nothing: the peer that the message comes from, and its author.
use leanp2p.Prelude.{
  ℕ, ◌-◌, ◌≡◌, refl, subst, ◌∙◌, arith, Bool, true, not, ◌&&◌, ◌||◌, List, [], ◌∷◌, Option, none,
  some, ltb, ◌==◌, ==_iff, if◌then◌else◌, length, if-cases, if-elim, elim-option,
}
use leanp2p.Prelude.Eq.{nat_eq}
use leanp2p.Prelude.Maps.{lookup, insert, member}
use leanp2p.Gossip.Promises
use leanp2p.Gossip.Config.{mesh_n_for_topic}
use leanp2p.Gossip.Router.{
  Env, Gossip, Message, Rpc, Peer, Topic, empty_rpc, at_topic, with_batch, is_floodsub,
}
use leanp2p.Gossip.Router.Mesh.{below, choose}
use leanp2p.Gossip.Router.Broadcast.{
  is_local, is_some, idontwant_all, sends_idontwant, add_peer, add_peers, add_floodsubs, add_fanout,
  remember, send_out, broadcast,
}

abbrev pub queued_in : Option Rpc → List Message
queued_in none = []
queued_in (some r) = r.publish

-- The messages that wait to be sent to a peer.
abbrev pub queued : {S : Type 0} → Gossip S → ℕ → List Message
queued g p = queued_in (g.objects p).batch

-- The peer is the one that the message comes from, or its author.
abbrev pub is_spared : Option ℕ → Message → ℕ → Bool
is_spared from message id = is_some from id || is_some message.from id

pub publish-batch :
    (b : Option Rpc)
    → (elim b as (λ x. Rpc) [ none ↦ empty_rpc | some r ↦ r ]).publish ≡ queued_in b
publish-batch none = refl
publish-batch (some r) = refl

module _ {S : Type 0} (from : Option ℕ) (message : Message) where
  -- Nobody changes its name, and the two peers get no more messages.
  pub record Spares (g g' : Gossip S) : Type 0 where
    pub same_id : (p : ℕ) → (g'.objects p).peer_id ≡ (g.objects p).peer_id
    pub spared :
        (p : ℕ) → is_spared from message (g.objects p).peer_id ≡ true → queued g' p ≡ queued g p

  pub Spares-refl : (g : Gossip S) → Spares g g
  Spares-refl g = record { same_id = λ p. refl; spared = λ p e. refl }

  pub Spares-trans : (g g' g'' : Gossip S) → Spares g g' → Spares g' g'' → Spares g g''
  Spares-trans g g' g'' a b = record {
    same_id = λ p. b.same_id p ∙ a.same_id p;
    spared = λ p e. b.spared p (rw (a.same_id p) e) ∙ a.spared p e;
  }

  pub aside-Spares : (g g' : Gossip S) → g'.objects ≡ g.objects → Spares g g'
  aside-Spares g g' o = record { same_id = λ p. rw o; spared = λ p e. rw o }

  -- A write to the batch of a peer that, where it is to be spared, adds no message.
  pub with_batch-Spares :
      (g : Gossip S) (p : ℕ) (f : Rpc → Rpc)
      → (is_spared from message (g.objects p).peer_id ≡ true
          → (r : Rpc) → (f r).publish ≡ r.publish)
      → Spares g (with_batch g p f)
  unfolding with_batch
  with_batch-Spares g p f a = record {
    same_id = λ q. ground arith;
    spared = λ q e.
        if-cases (λ (x : Peer). queued_in x.batch ≡ queued g q) (q == p) _ (g.objects q)
          (λ k.
            a
              (subst (λ x. is_spared from message (g.objects x).peer_id ≡ true) ((==_iff q p).0 k)
                e)
              _
            ∙ publish-batch (g.objects q).batch)
          (λ k. refl);
  }

module _ {S R : Type 0} (env : Env S R) (from : Option ℕ) (message_id : ℕ) (message : Message) where
  pub add_peer-Spares :
      (g : Gossip S) (p : ℕ) → Spares from message g (add_peer env from message_id message g p)
  unfolding add_peer
  add_peer-Spares g p =
      let id = (g.objects p).peer_id in
      let P = Spares from message g in
      let stay = Spares-refl from message g in
      if-cases P (is_some from id) g _ (λ a. stay)
        (λ a.
          if-cases P (is_some message.from id) g _ (λ b. stay)
            (λ b.
              if-cases P (below env g p env.config.score.publish_threshold) g _ (λ c. stay)
                (λ c. with_batch-Spares from message g p _ (λ e r. ground (arith, a, b, e)))))

  pub idontwant_all-Spares :
      (g : Gossip S) (ps : List ℕ) → Spares from message g (idontwant_all env g message_id ps)
  unfolding idontwant_all
  idontwant_all-Spares g [] = Spares-refl from message g
  idontwant_all-Spares g (p ∷ ps) =
      Spares-trans from message g _ _ (with_batch-Spares from message g p _ (λ e r. refl)) (
        idontwant_all-Spares
          (with_batch g p (λ r. record r { idontwant = insert message_id r.idontwant })) ps)

  pub add_peers-Spares :
      (g : Gossip S) (ps : List ℕ)
      → Spares from message g (add_peers env from message_id message g ps)
  unfolding add_peers
  add_peers-Spares g [] = Spares-refl from message g
  add_peers-Spares g (p ∷ ps) =
      let next = add_peer env from message_id message g p in
      Spares-trans from message g next _ (add_peer-Spares g p) (add_peers-Spares next ps)

  pub add_floodsubs-Spares :
      (g : Gossip S) (ps : List ℕ)
      → Spares from message g (add_floodsubs env from message_id message g ps)
  unfolding add_floodsubs
  add_floodsubs-Spares g [] = Spares-refl from message g
  add_floodsubs-Spares g (p ∷ ps) =
      let next =
        if is_floodsub (g.objects p) then add_peer env from message_id message g p else g in
      Spares-trans from message g next _
        (if-elim (Spares from message g) (is_floodsub (g.objects p))
          (add_peer env from message_id message g p) g (add_peer-Spares g p)
          (Spares-refl from message g))
        (add_floodsubs-Spares next ps)

module _ {S R : Type 0} (env : Env S R) (message_id : ℕ) (message : Message) where
  pub add_fanout-Spares :
      (h : ℕ) (g : Gossip S) (ps : List ℕ)
      → Spares none message g (add_fanout env h message_id message g ps)
  unfolding add_fanout at_topic
  add_fanout-Spares h g [] = Spares-refl none message g
  add_fanout-Spares h g (p ∷ ps) =
      let sent = add_peer env none message_id message g p in
      let joined = at_topic sent h (λ t. record t {
        mesh_peers = if t.publish_only then insert p t.mesh_peers else t.mesh_peers;
      }) in
      Spares-trans none message g joined _
        (Spares-trans none message g sent joined (add_peer-Spares env none message_id message g p)
          (aside-Spares none message sent joined refl))
        (add_fanout-Spares h joined ps)

  pub choose-Spares :
      (g : Gossip S) (all : List ℕ) (test : ℕ → Bool) (count : ℕ → ℕ)
      → Spares none message g (choose env g all test count).1
  unfolding choose
  choose-Spares g all test count = aside-Spares none message g _ refl

  pub send_out-Spares :
      (g : Gossip S) (h : ℕ) (t : Topic) (from : Option ℕ)
      → Spares from message g (send_out env g h t from message_id message)
  unfolding send_out at_topic
  send_out-Spares g h t (some i) =
      let flooded = add_floodsubs env (some i) message_id message g t.peers in
      Spares-trans (some i) message g flooded _
        (add_floodsubs-Spares env (some i) message_id message g t.peers)
        (add_peers-Spares env (some i) message_id message flooded t.mesh_peers)
  send_out-Spares g h t none =
      let flooded = add_floodsubs env none message_id message g t.peers in
      let meshed = add_peers env none message_id message flooded t.mesh_peers in
      let a : Spares none message g meshed =
        Spares-trans none message g flooded meshed
          (add_floodsubs-Spares env none message_id message g t.peers)
          (add_peers-Spares env none message_id message flooded t.mesh_peers) in
      let test = λ (p : ℕ).
        not (member p t.mesh_peers)
        && not (below env meshed p env.config.score.publish_threshold) in
      let count = λ (n : ℕ). mesh_n_for_topic env.config h - length t.mesh_peers in
      let drawn = choose env meshed t.peers test count in
      let fanned =
        if ltb (length t.mesh_peers) (mesh_n_for_topic env.config h)
        then add_fanout env h message_id message drawn.1 drawn.0
        else meshed in
      let b : Spares none message g fanned =
        if-elim (Spares none message g) (ltb (length t.mesh_peers) (mesh_n_for_topic env.config h))
          _ meshed
          (Spares-trans none message g meshed _ a (
            Spares-trans none message meshed drawn.1 _ (choose-Spares meshed t.peers test count)
              (add_fanout-Spares h drawn.1 drawn.0)))
          a in
      if-elim (Spares none message g) env.config.flood_publish
        (add_peers env none message_id message g t.peers) _
        (add_peers-Spares env none message_id message g t.peers)
        (Spares-trans none message g fanned _ b (aside-Spares none message fanned _ refl))

  -- A broadcast queues no message for the peer that the message comes from, nor for its author.
  pub broadcast-Spares :
      (g : Gossip S) (h : ℕ) (from : Option ℕ)
      → Spares from message g (broadcast env g h from message_id message)
  unfolding broadcast remember at_topic
  broadcast-Spares g h from =
      let stored = remember env g h message_id message in
      let told =
        if not (is_local from) && sends_idontwant env from message
        then idontwant_all env stored message_id (Promises.peers stored.promises message_id)
        else stored in
      let a : Spares from message g told =
        Spares-trans from message g stored told (aside-Spares from message g stored refl) (
          if-elim (Spares from message stored)
            (not (is_local from) && sends_idontwant env from message) _ stored
            (idontwant_all-Spares env from message_id message stored
              (Promises.peers stored.promises message_id))
            (Spares-refl from message stored)) in
      elim-option (lookup h g.topics) (Spares from message g) g _ (Spares-refl from message g)
        (λ t e. Spares-trans from message g told _ a (send_out-Spares told h t from))
