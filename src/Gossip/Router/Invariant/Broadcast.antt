-- ===== src/Gossip/Router/Invariant/Broadcast.antt =====
-- What sending a message does to the sets of a topic.
use leanp2p.Prelude.{
  ℕ, ◌-◌, ◌≡◌, refl, sym, subst, ◌∙◌, true, not, ◌&&◌, List, [], ◌∷◌, ◌++◌, Option, none, ltb,
  if◌then◌else◌, inl, length, ap, false, ◌⊎◌,
}
use leanp2p.Prelude.Eq.{nat_eq}
use leanp2p.Prelude.Maps.{lookup, member, insert, insert-IsUnique, IsUnique}
use leanp2p.Gossip.Promises
use leanp2p.Gossip.Config.{mesh_n_for_topic}
use leanp2p.Gossip.Router.{Env, Gossip, Message, Topic, at_topic, with_batch, is_floodsub}
use leanp2p.Gossip.Router.Mesh.{below, choose}
use leanp2p.Gossip.Router.Broadcast.{
  is_local, is_some, idontwant_all, sends_idontwant, add_peer, add_peers, add_floodsubs, add_fanout,
  remember, send_out, broadcast,
}
use leanp2p.Gossip.Router.Invariant.{
  peers_of, peers_in, Grows, Grows-refl, Grows-trans, Still-Grows, at_topic-Still, at_topic-Grows,
}
use leanp2p.Gossip.Router.Invariant.Mesh.{
  Reorders, member-head, member-tail, with_batch-Grows, aside-Grows, elim-Grows, if-Grows,
  insert_cases, choose_lem, choose-Grows,
}

module _ {S R : Type 0} (env : Env S R) where
  pub idontwant_all-Grows :
      (g : Gossip S) (message_id : ℕ) (ps : List ℕ) → Grows g (idontwant_all env g message_id ps)
  unfolding idontwant_all
  idontwant_all-Grows g message_id [] = Grows-refl g
  idontwant_all-Grows g message_id (p ∷ ps) = Grows-trans g _ _ (with_batch-Grows g p _) (
      idontwant_all-Grows
        (with_batch g p (λ r. record r { idontwant = insert message_id r.idontwant })) message_id
        ps)

  pub add_peer-Grows :
      (from : Option ℕ) (message_id : ℕ) (message : Message) (g : Gossip S) (p : ℕ)
      → Grows g (add_peer env from message_id message g p)
  unfolding add_peer
  add_peer-Grows from message_id message g p =
      let stay = Grows-refl g in
      let id = (g.objects p).peer_id in
      if-Grows (is_some from id) g _ _ stay (
        if-Grows (is_some message.from id) g _ _ stay (
          if-Grows (below env g p env.config.score.publish_threshold) g _ _ stay (
            with_batch-Grows g p (λ r. record r {
              idontwant =
                  if sends_idontwant env from message
                  then insert message_id r.idontwant
                  else r.idontwant;
              publish = r.publish ++ (message ∷ []);
            }))))

  pub add_peers-Grows :
      (from : Option ℕ) (message_id : ℕ) (message : Message) (g : Gossip S) (ps : List ℕ)
      → Grows g (add_peers env from message_id message g ps)
  unfolding add_peers
  add_peers-Grows from message_id message g [] = Grows-refl g
  add_peers-Grows from message_id message g (p ∷ ps) =
      Grows-trans g (add_peer env from message_id message g p) _
        (add_peer-Grows from message_id message g p)
        (add_peers-Grows from message_id message (add_peer env from message_id message g p) ps)

  pub add_floodsubs-Grows :
      (from : Option ℕ) (message_id : ℕ) (message : Message) (g : Gossip S) (ps : List ℕ)
      → Grows g (add_floodsubs env from message_id message g ps)
  unfolding add_floodsubs
  add_floodsubs-Grows from message_id message g [] = Grows-refl g
  add_floodsubs-Grows from message_id message g (p ∷ ps) =
      let sent = add_peer env from message_id message g p in
      Grows-trans g (if is_floodsub (g.objects p) then sent else g) _
        (if-Grows _ g sent g (add_peer-Grows from message_id message g p) (Grows-refl g))
        (add_floodsubs-Grows from message_id message
          (if is_floodsub (g.objects p) then add_peer env from message_id message g p else g) ps)

  -- One peer of a fanout joins the mesh of a publish only topic.
  pub joined-Grows :
      (g : Gossip S) (h p : ℕ)
      → member p (peers_of g h) ≡ true
      → Grows g (
          at_topic g h (λ t. record t {
            mesh_peers = if t.publish_only then insert p t.mesh_peers else t.mesh_peers;
          }))
  joined-Grows g h p m =
      at_topic-Grows g h _ (λ t. refl)
        (λ t u.
          elim t.publish_only
            as (λ b. IsUnique (if b then insert p t.mesh_peers else t.mesh_peers)) [
              | true ↦ insert-IsUnique p t.mesh_peers u
              | false ↦ u
            ])
        (λ t q e.
          elim t.publish_only
            as (λ b.
              member q (if b then insert p t.mesh_peers else t.mesh_peers) ≡ true
              → (member q t.mesh_peers ≡ true) ⊎ (member q t.peers ≡ true)) [
                | true ↦
                    insert_cases p q t.mesh_peers t.peers
                      (subst (λ o. member p (peers_in o) ≡ true) e m)
                | false ↦ λ k. inl k
              ])

  pub add_fanout-Grows :
      (h message_id : ℕ) (message : Message) (g : Gossip S) (ps : List ℕ)
      → ((p : ℕ) → member p ps ≡ true → member p (peers_of g h) ≡ true)
      → Grows g (add_fanout env h message_id message g ps)
  unfolding add_fanout
  add_fanout-Grows h message_id message g [] m = Grows-refl g
  add_fanout-Grows h message_id message g (p ∷ ps) m =
      let sent = add_peer env none message_id message g p in
      let a = add_peer-Grows none message_id message g p in
      let k : member p (peers_of sent h) ≡ true =
        subst (λ s. member p s ≡ true) (sym (a.same_peers h)) (m p (member-head p ps)) in
      let joined = at_topic sent h (λ t. record t {
        mesh_peers = if t.publish_only then insert p t.mesh_peers else t.mesh_peers;
      }) in
      let b : Grows g joined = Grows-trans g sent joined a (joined-Grows sent h p k) in
      Grows-trans g joined _ b (
        add_fanout-Grows h message_id message
          (at_topic (add_peer env none message_id message g p) h (λ t. record t {
            mesh_peers = if t.publish_only then insert p t.mesh_peers else t.mesh_peers;
          }))
          ps
          (λ q j.
            subst (λ s. member q s ≡ true) (sym (b.same_peers h)) (m q (member-tail q p ps j))))

  pub remember-Grows :
      (g : Gossip S) (h message_id : ℕ) (message : Message)
      → Grows g (remember env g h message_id message)
  unfolding remember
  remember-Grows g h message_id message =
      Grows-trans g _ _ (Still-Grows g _ (at_topic-Still g h _ (λ t. refl) (λ t. refl)))
        (aside-Grows _ _ refl refl refl)

module _ {S R : Type 0} (env : Env S R) (shuffled : Reorders env.shuffle) where
  pub send_out-Grows :
      (g : Gossip S) (h : ℕ) (t : Topic) (from : Option ℕ) (message_id : ℕ) (message : Message)
      → t.peers ≡ peers_of g h
      → Grows g (send_out env g h t from message_id message)
  unfolding send_out
  send_out-Grows g h t from message_id message e =
      let flooded = add_floodsubs env from message_id message g t.peers in
      let meshed = add_peers env from message_id message flooded t.mesh_peers in
      let a : Grows g meshed =
        Grows-trans g flooded meshed (add_floodsubs-Grows env from message_id message g t.peers)
          (add_peers-Grows env from message_id message flooded t.mesh_peers) in
      let test = λ (p : ℕ).
        not (member p t.mesh_peers)
        && not (below env meshed p env.config.score.publish_threshold) in
      let count = λ (n : ℕ). mesh_n_for_topic env.config h - length t.mesh_peers in
      let drawn = choose env meshed t.peers test count in
      let b : Grows g drawn.1 =
        Grows-trans g meshed drawn.1 a (choose-Grows env shuffled meshed t.peers test count) in
      let fanned =
        if ltb (length t.mesh_peers) (mesh_n_for_topic env.config h)
        then add_fanout env h message_id message drawn.1 drawn.0
        else meshed in
      let c : Grows g fanned =
        if-Grows (ltb (length t.mesh_peers) (mesh_n_for_topic env.config h)) g _ meshed
          (Grows-trans g drawn.1 _ b (
            add_fanout-Grows env h message_id message drawn.1 drawn.0 (λ p m.
              subst (λ s. member p s ≡ true) (e ∙ sym (b.same_peers h))
                (choose_lem env shuffled meshed t.peers test count p m))))
          a in
      if-Grows _ g _ _ (add_peers-Grows env from message_id message g t.peers) (
        if-Grows _ g _ _
          (Grows-trans g fanned _ c
            (Still-Grows fanned _ (at_topic-Still fanned h _ (λ t. refl) (λ t. refl))))
          a)

  pub broadcast-Grows :
      (g : Gossip S) (h : ℕ) (from : Option ℕ) (message_id : ℕ) (message : Message)
      → Grows g (broadcast env g h from message_id message)
  unfolding broadcast
  broadcast-Grows g h from message_id message =
      let stored = remember env g h message_id message in
      let told =
        if not (is_local from) && sends_idontwant env from message
        then idontwant_all env stored message_id (Promises.peers stored.promises message_id)
        else stored in
      let a : Grows g told = Grows-trans g stored told (remember-Grows env g h message_id message) (
        if-Grows (not (is_local from) && sends_idontwant env from message) stored _ stored
          (idontwant_all-Grows env stored message_id (Promises.peers stored.promises message_id))
          (Grows-refl stored)) in
      elim-Grows (lookup h g.topics) g g _ (Grows-refl g) (λ t e.
        Grows-trans g told _ a
          (send_out-Grows told h t from message_id message (sym (a.same_peers h ∙ ap peers_in e))))
