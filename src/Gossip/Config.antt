-- ===== src/Gossip/Config.antt =====
-- protocol/gossip/config.hpp: the parameters that the router reads. `R` stands for `double`. A
-- period is a number of seconds, as in the source.
use leanp2p.Prelude.{ℕ, Bool, true, false, ◌||◌, List, if◌then◌else◌}

pub data PeerKind : Type 0 where
  not_supported floodsub gossipsub gossipsub_v1_1 gossipsub_v1_2 : PeerKind

-- The order of the enumeration.
abbrev pub rank : PeerKind → ℕ
rank not_supported = 0
rank floodsub = 1
rank gossipsub = 2
rank gossipsub_v1_1 = 3
rank gossipsub_v1_2 = 4

pub data ValidationMode : Type 0 where
  strict anonymous : ValidationMode

pub data MessageAuthenticity : Type 0 where
  signed anonymous : MessageAuthenticity

pub record TopicMeshConfig : Type 0 where
  pub mesh_n : ℕ
  pub mesh_n_low : ℕ
  pub mesh_n_high : ℕ
  pub mesh_outbound_min : ℕ

pub record Thresholds (R : Type 0) : Type 0 where
  pub zero : R
  pub gossip_threshold : R
  pub publish_threshold : R
  pub graylist_threshold : R
  pub opportunistic_graft_threshold : R

-- `ScoreConfig::valid`, over the test `>` of `double`.
unfoldable pub valid : {R : Type 0} → (R → R → Bool) → R → Thresholds R → Bool
valid gt null c =
    if gt c.gossip_threshold null
    then false
    else if gt c.publish_threshold null || gt c.publish_threshold c.gossip_threshold
    then false
    else if gt c.graylist_threshold null || gt c.graylist_threshold c.publish_threshold
    then false
    else if gt null c.opportunistic_graft_threshold
    then false
    else true

-- `gossip_part` is the product of a number of peers with `gossip_factor`, cut to a `size_t`.
pub record Config (R : Type 0) : Type 0 where
  pub validation_mode : ValidationMode
  pub message_authenticity : MessageAuthenticity
  pub protocol_versions : List (ℕ × PeerKind)
  pub default_mesh_params : TopicMeshConfig
  pub prune_backoff : ℕ
  pub backoff_slack : ℕ
  pub graft_flood_threshold : ℕ
  pub heartbeat_interval : ℕ
  pub fanout_ttl : ℕ
  pub retain_scores : ℕ
  pub history_length : ℕ
  pub history_gossip : ℕ
  pub gossip_retransmission : ℕ
  pub gossip_lazy : ℕ
  pub gossip_part : ℕ → ℕ
  pub max_ihave_length : ℕ
  pub max_ihave_messages : ℕ
  pub flood_publish : Bool
  pub idontwant_message_size_threshold : ℕ
  pub idontwant_on_publish : Bool
  pub iwant_followup_time : ℕ
  pub opportunistic_graft_ticks : ℕ
  pub opportunistic_graft_peers : ℕ
  pub score : Thresholds R

-- `mesh_n_for_topic` and its three kin: the same for every topic.
unfoldable pub mesh_n_for_topic : {R : Type 0} → Config R → ℕ → ℕ
mesh_n_for_topic c topic_hash = c.default_mesh_params.mesh_n

unfoldable pub mesh_n_low_for_topic : {R : Type 0} → Config R → ℕ → ℕ
mesh_n_low_for_topic c topic_hash = c.default_mesh_params.mesh_n_low

unfoldable pub mesh_n_high_for_topic : {R : Type 0} → Config R → ℕ → ℕ
mesh_n_high_for_topic c topic_hash = c.default_mesh_params.mesh_n_high

unfoldable pub mesh_outbound_min_for_topic : {R : Type 0} → Config R → ℕ → ℕ
mesh_outbound_min_for_topic c topic_hash = c.default_mesh_params.mesh_outbound_min
