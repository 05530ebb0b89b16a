-- ===== src/Gossip/Router/Topics.antt =====
-- `subscribe` and `getOrCreateTopic` of protocol/gossip/gossip.cpp.
use leanp2p.Prelude.{ℕ, Bool, false, not, ◌&&◌, List, [], ◌∷◌, none, some, if◌then◌else◌}
use leanp2p.Prelude.Eq.{nat_eq}
use leanp2p.Prelude.Maps.{lookup, has, emplace, insert, member}
use leanp2p.Gossip.Backoff
use leanp2p.Gossip.History
use leanp2p.Gossip.Config.{mesh_n_for_topic}
use leanp2p.Gossip.Router.{Env, Gossip, Peer, Topic, at_topic}
use leanp2p.Gossip.Router.Mesh.{announce_all, regraft, fill_mesh_to, may_join}

-- The peers of the table that have the topic, `topic->peers_` of a new topic.
unfoldable pub subscribers : (ℕ → Peer) → ℕ → List (ℕ × ℕ) → List ℕ
subscribers objects h [] = []
subscribers objects h ((peer_id, p) ∷ peers) =
    let rest = subscribers objects h peers in
    if member h (objects p).topics then insert p rest else rest

module _ {S R : Type 0} (env : Env S R) where
  unfoldable pub new_topic : Gossip S → ℕ → Bool → Topic
  unfolding subscribers
  new_topic g h publish_only = record {
    publish_only = publish_only;
    received = [];
    history = History.init env.config.history_length;
    backoff =
        Backoff.init env.config.prune_backoff env.config.heartbeat_interval
          env.config.backoff_slack;
    peers = subscribers g.objects h g.peers;
    mesh_peers = [];
    last_publish = 0;
  }

  unfoldable pub create_topic : Gossip S → ℕ → Bool → Gossip S
  unfolding new_topic
  create_topic g h publish_only = record g {
    topics = emplace h (new_topic g h publish_only) g.topics;
  }

  -- A publish only topic becomes a subscribed one.
  unfoldable pub upgrade_topic : Gossip S → ℕ → Topic → Gossip S
  unfolding at_topic
  upgrade_topic g h t =
      let opened = at_topic g h (λ t. record t { publish_only = false }) in
      let announced = announce_all env opened h t.peers in
      let emptied = at_topic announced h (λ t. record t { mesh_peers = [] }) in
      let regrafted = regraft env emptied h t.mesh_peers in
      fill_mesh_to env regrafted h (may_join env) (mesh_n_for_topic env.config h)

  unfoldable pub get_or_create_topic : Gossip S → ℕ → Bool → Gossip S
  get_or_create_topic g h publish_only =
      let g' = if has h g.topics then g else create_topic g h publish_only in
      elim (lookup h g'.topics) [
        | none ↦ g'
        | some t ↦ if not publish_only && t.publish_only then upgrade_topic g' h t else g'
      ]

  -- `Gossip::subscribe`.
  unfoldable pub subscribe_topic : Gossip S → ℕ → Gossip S
  unfolding get_or_create_topic
  subscribe_topic g h = get_or_create_topic g h false
