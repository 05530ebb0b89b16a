-- ===== src/Gossip/Router/Invariant/Connections.antt =====
-- The life of the peers and topics keeps the sets of the topics.
use leanp2p.Prelude.{
  if-elim, elim-option, ℕ, ◌≡◌, refl, sym, subst, arith, Bool, true, false, not, ◌&&◌, List, [],
  ◌∷◌, none, ◌==◌, ==_iff, if◌then◌else◌, inl, inr, Bool-cases,
}
use leanp2p.Prelude.Eq.{nat_eq}
use leanp2p.Prelude.Maps.{
  lookup, has, member, keys, IsUnique, keys-emplace, insert-IsUnique, emplace-rel, member-insert,
}
use leanp2p.Gossip.TimeCache.{contains, duplicate_insert}
use leanp2p.Gossip.Config.{mesh_n_for_topic}
use leanp2p.Gossip.Router.{Env, Gossip, Topic, Peer, at_topic}
use leanp2p.Gossip.Router.Mesh.{announce_all, regraft, may_join}
use leanp2p.Gossip.Router.Topics.{
  subscribers, new_topic, create_topic, upgrade_topic, get_or_create_topic,
}
use leanp2p.Gossip.Router.Broadcast.{make_message, publish_to, publish}
use leanp2p.Gossip.Router.Connections.{on_peer_disconnected, leave_topics}
use leanp2p.Gossip.Router.Invariant.{
  peers_of, peers_in, mesh_in, IsMeshed, Grows, Grows-trans, Grows-IsMeshed, at_topic-Grows,
  at_topic-Still, Still-Grows,
}
use leanp2p.Gossip.Router.Invariant.Mesh.{
  Reorders, aside-Grows, if-Grows, announce_all-Grows, regraft-Grows, fill_mesh_to-Grows,
}
use leanp2p.Gossip.Router.Invariant.Broadcast.{broadcast-Grows}
use leanp2p.Gossip.Router.Invariant.Leave.{nobody, leave_topics-IsMeshed}

pub subscribers-member :
    (objects : ℕ → Peer) (h q : ℕ) (peers : List (ℕ × ℕ))
    → member q (subscribers objects h peers) ≡ true
    → member h (objects q).topics ≡ true
unfolding subscribers
subscribers-member objects h q [] m = nobody q m
subscribers-member objects h q ((id, p) ∷ peers) m =
    elim (Bool-cases (member h (objects p).topics)) [
      | inl k ↦ elim (Bool-cases (p == q)) [
        | inl i ↦ subst (λ x. member h (objects x).topics ≡ true) ((==_iff p q).0 i) k
        | inr i ↦
            subscribers-member objects h q peers
              (ground (arith, i, k, m, member-insert q p (subscribers objects h peers)))
      ]
      | inr k ↦ subscribers-member objects h q peers (ground (arith, k, m))
    ]

pub subscribers-IsUnique :
    (objects : ℕ → Peer) (h : ℕ) (peers : List (ℕ × ℕ)) → IsUnique (subscribers objects h peers)
unfolding subscribers
subscribers-IsUnique objects h [] = tt
subscribers-IsUnique objects h ((id, p) ∷ peers) =
    if-elim (λ (s : List ℕ). IsUnique s) (member h (objects p).topics) _ _
      (insert-IsUnique p (subscribers objects h peers) (subscribers-IsUnique objects h peers))
      (subscribers-IsUnique objects h peers)

module _ {S R : Type 0} (env : Env S R) where
  -- A new topic has the peers that are subscribed to it, and an empty mesh.
  pub create_topic-IsMeshed :
      {n : ℕ} (g : Gossip S) (h : ℕ) (publish_only : Bool)
      → IsMeshed n g
      → IsMeshed n (create_topic env g h publish_only)
  unfolding create_topic
  create_topic-IsMeshed g h publish_only v =
      let t = new_topic env g h publish_only in
      record {
        made = v.made;
        fresh = v.fresh;
        topics_set =
            subst (λ s. IsUnique s) (sym (keys-emplace h t g.topics))
              (insert-IsUnique h (keys g.topics) v.topics_set);
        mesh_set = emplace-rel (λ j o. IsUnique (mesh_in o)) h t g.topics v.mesh_set tt;
        peers_set =
            emplace-rel (λ j o. IsUnique (peers_in o)) h t g.topics v.peers_set
              (subscribers-IsUnique g.objects h g.peers);
        mesh = λ j q.
            emplace-rel (λ j o. member q (mesh_in o) ≡ true → member q (peers_in o) ≡ true) h t
              g.topics (λ j. v.mesh j q) (λ m. nobody q m) j;
        peers = λ j q.
            emplace-rel (λ j o. member q (peers_in o) ≡ true → member j (g.objects q).topics ≡ true)
              h t g.topics (λ j. v.peers j q) (subscribers-member g.objects h q g.peers) j;
      }

  -- A disconnected peer leaves every topic that it was subscribed to.
  pub on_peer_disconnected-IsMeshed :
      {n : ℕ} (g : Gossip S) (peer_id : ℕ)
      → IsMeshed n g
      → IsMeshed n (on_peer_disconnected env g peer_id)
  unfolding on_peer_disconnected
  on_peer_disconnected-IsMeshed {n = n} g peer_id v =
      let told : Gossip S = record g { score = env.disconnect g.score peer_id g.now } in
      let w = Grows-IsMeshed g told (aside-Grows g told refl refl refl) v in
      elim-option (lookup peer_id g.peers) (IsMeshed n) told _ w (λ p e.
        let left = leave_topics env told p (g.objects p).topics in
        Grows-IsMeshed left _ (aside-Grows left _ refl refl refl)
          (leave_topics-IsMeshed env told p (g.objects p).topics w))

module _ {S R : Type 0} (env : Env S R) (shuffled : Reorders env.shuffle) where
  pub upgrade_topic-Grows :
      (g : Gossip S) (h : ℕ) (t : Topic)
      → ((p : ℕ) → member p t.mesh_peers ≡ true → member p (peers_of g h) ≡ true)
      → Grows g (upgrade_topic env g h t)
  unfolding upgrade_topic
  upgrade_topic-Grows g h t m =
      let opened = at_topic g h (λ t. record t { publish_only = false }) in
      let announced = announce_all env opened h t.peers in
      let emptied = at_topic announced h (λ t. record t { mesh_peers = [] }) in
      let regrafted = regraft env emptied h t.mesh_peers in
      let a : Grows g announced =
        Grows-trans g opened announced
          (Still-Grows g opened
            (at_topic-Still g h (λ t. record t { publish_only = false }) (λ t. refl) (λ t. refl)))
          (announce_all-Grows env opened h t.peers) in
      let b : Grows g emptied = Grows-trans g announced emptied a (
        at_topic-Grows announced h (λ t. record t { mesh_peers = [] }) (λ t. refl) (λ t u. tt)
          (λ t p e k. inl (nobody p k))) in
      Grows-trans g emptied _ b (
        Grows-trans emptied regrafted _
          (regraft-Grows env shuffled emptied h t.mesh_peers
            (λ p k. subst (λ s. member p s ≡ true) (sym (b.same_peers h)) (m p k)))
          (fill_mesh_to-Grows env shuffled regrafted h (may_join env)
            (mesh_n_for_topic env.config h)))

  -- `getOrCreateTopic` keeps the invariant, whether the topic is new, there, or upgraded.
  pub get_or_create_topic-IsMeshed :
      {n : ℕ} (g : Gossip S) (h : ℕ) (publish_only : Bool)
      → IsMeshed n g
      → IsMeshed n (get_or_create_topic env g h publish_only)
  unfolding get_or_create_topic
  get_or_create_topic-IsMeshed {n = n} g h publish_only v =
      let g' = if has h g.topics then g else create_topic env g h publish_only in
      let w : IsMeshed n g' =
        if-elim (IsMeshed n) (has h g.topics) g _ v
          (create_topic-IsMeshed env g h publish_only v) in
      elim-option (lookup h g'.topics) (IsMeshed n) g' _ w (λ t e.
        if-elim (IsMeshed n) (not publish_only && t.publish_only) (upgrade_topic env g' h t) g'
          (Grows-IsMeshed g' _
            (upgrade_topic-Grows g' h t
              (λ p k. w.mesh h p (subst (λ o. member p (mesh_in o) ≡ true) (sym e) k)))
            w)
          w)

  pub make_message-Grows :
      (g : Gossip S) (h : ℕ) (payload : List ℕ) → Grows g (make_message env g h payload).1
  unfolding make_message
  make_message-Grows g h payload =
      aside-Grows g (make_message env g h payload).1 (ground arith) (ground arith) (ground arith)

  pub publish_to-Grows :
      (g : Gossip S) (h : ℕ) (payload : List ℕ) → Grows g (publish_to env g h payload)
  unfolding publish_to
  publish_to-Grows g h payload =
      let made = make_message env g h payload in
      let message_id = env.message_id made.0 in
      let cached : Gossip S = record made.1 {
        duplicate_cache = (duplicate_insert made.1.duplicate_cache message_id g.now g.now).0;
      } in
      let a = make_message-Grows g h payload in
      if-Grows (contains made.1.duplicate_cache message_id) g made.1 _ a (
        Grows-trans g made.1 _ a (
          Grows-trans made.1 cached _ (aside-Grows made.1 cached refl refl refl)
            (broadcast-Grows env shuffled cached h none message_id made.0)))

  pub publish-IsMeshed :
      {n : ℕ} (g : Gossip S) (h : ℕ) (payload : List ℕ)
      → IsMeshed n g
      → IsMeshed n (publish env g h payload)
  unfolding publish
  publish-IsMeshed g h payload v =
      Grows-IsMeshed (get_or_create_topic env g h true) _
        (publish_to-Grows (get_or_create_topic env g h true) h payload)
        (get_or_create_topic-IsMeshed g h true v)
