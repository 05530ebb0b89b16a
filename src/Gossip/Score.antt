-- ===== src/Gossip/Score.antt =====
-- `Score` of protocol/gossip/score.hpp. `R` stands for `double`, `Arith` for what the processor does
-- with it. Times and periods are milliseconds, `Clock::now()` is an argument.
pub mod Calls
pub mod Decay
pub mod Deliver
pub mod Expiry
pub mod Penalty
mod Tests
use leanp2p.Prelude.{ℕ, ◌/◌, Bool, false, ◌&&◌, List, [], ◌∷◌, Option, none, some, if◌then◌else◌}
use leanp2p.Prelude.Eq.{nat_eq}
use leanp2p.Prelude.Maps.{lookup, has, emplace, modify}
use leanp2p.Gossip.TimeCache.{TimeCache}

pub record Arith (R : Type 0) : Type 0 where
  pub of_nat : ℕ → R
  pub add : R → R → R
  pub sub : R → R → R
  pub mul : R → R → R
  pub div : R → R → R
  pub lt : R → R → Bool

pub record TopicScoreParams (R : Type 0) : Type 0 where
  pub topic_weight : R
  pub time_in_mesh_weight : R
  pub time_in_mesh_quantum : ℕ
  pub time_in_mesh_cap : R
  pub first_message_deliveries_weight : R
  pub first_message_deliveries_decay : R
  pub first_message_deliveries_cap : R
  pub mesh_message_deliveries_weight : R
  pub mesh_message_deliveries_decay : R
  pub mesh_message_deliveries_cap : R
  pub mesh_message_deliveries_threshold : R
  pub mesh_message_deliveries_window : ℕ
  pub mesh_message_deliveries_activation : ℕ
  pub mesh_failure_penalty_weight : R
  pub mesh_failure_penalty_decay : R
  pub invalid_message_deliveries_weight : R
  pub invalid_message_deliveries_decay : R

pub record ScoreParams (R : Type 0) : Type 0 where
  pub topics : List (ℕ × TopicScoreParams R)
  pub topic_score_cap : R
  pub app_specific_weight : R
  pub behaviour_penalty_weight : R
  pub behaviour_penalty_threshold : R
  pub behaviour_penalty_decay : R
  pub decay_to_zero : R
  pub retain_score : ℕ
  pub slow_peer_weight : R
  pub slow_peer_threshold : R
  pub slow_peer_decay : R

pub data DeliveryStatus : Type 0 where
  unknown : DeliveryStatus
  valid : ℕ → DeliveryStatus
  invalid ignored : DeliveryStatus

pub record DeliveryRecord : Type 0 where
  pub status : DeliveryStatus
  pub first_seen : ℕ
  pub peers : List ℕ

pub record MeshActive : Type 0 where
  pub graft_time : ℕ
  pub mesh_time : ℕ

pub record TopicStats (R : Type 0) : Type 0 where
  pub mesh_active : Option MeshActive
  pub first_message_deliveries : R
  pub mesh_message_deliveries_active : Bool
  pub mesh_message_deliveries : R
  pub mesh_failure_penalty : R
  pub invalid_message_deliveries : R

pub record PeerStats (R : Type 0) : Type 0 where
  pub expires_at : Option ℕ
  pub topics : List (ℕ × TopicStats R)
  pub behaviour_penalty : R
  pub application_score : R
  pub slow_peer_penalty : R

pub record Score (R : Type 0) : Type 0 where
  pub peer_stats : List (ℕ × PeerStats R)
  pub deliveries : TimeCache ℕ DeliveryRecord

module _ {R : Type 0} (a : Arith R) where
  abbrev pub null : R
  null = a.of_nat 0

  abbrev pub no_stats : TopicStats R
  no_stats = record {
    mesh_active = none;
    first_message_deliveries = null;
    mesh_message_deliveries_active = false;
    mesh_message_deliveries = null;
    mesh_failure_penalty = null;
    invalid_message_deliveries = null;
  }

  abbrev pub new_stats : PeerStats R
  new_stats = record {
    expires_at = none;
    topics = [];
    behaviour_penalty = null;
    application_score = null;
    slow_peer_penalty = null;
  }

  -- `std::min`.
  abbrev pub min_of : R → R → R
  min_of x y = if a.lt y x then y else x

  abbrev pub square : R → R
  square x = a.mul x x

  -- What the score of one topic adds.
  unfoldable pub topic_score : TopicStats R → TopicScoreParams R → R
  topic_score s p =
      let p1 : R = elim s.mesh_active [
        | none ↦ null
        | some active ↦ a.add null (
            a.mul
              (min_of
                (a.div (a.of_nat (active.mesh_time / 1000))
                  (a.of_nat (p.time_in_mesh_quantum / 1000)))
                p.time_in_mesh_cap)
              p.time_in_mesh_weight)
      ] in
      let p2 = a.add p1 (
        a.mul (min_of s.first_message_deliveries p.first_message_deliveries_cap)
          p.first_message_deliveries_weight) in
      let deficit = a.sub p.mesh_message_deliveries_threshold s.mesh_message_deliveries in
      let p3 =
        if s.mesh_message_deliveries_active
          && a.lt s.mesh_message_deliveries p.mesh_message_deliveries_threshold
        then a.add p2 (a.mul (square deficit) p.mesh_message_deliveries_weight)
        else p2 in
      let p3b = a.add p3 (a.mul s.mesh_failure_penalty p.mesh_failure_penalty_weight) in
      a.add p3b (a.mul (square s.invalid_message_deliveries) p.invalid_message_deliveries_weight)

  -- The loop over the topics.
  unfoldable pub topics_score : ScoreParams R → R → List (ℕ × TopicStats R) → R
  unfolding topic_score
  topics_score params sum [] = sum
  topics_score params sum ((h, s) ∷ topics) =
      topics_score params
        (elim (lookup h params.topics) [
          | none ↦ sum
          | some p ↦ a.add sum (a.mul (topic_score s p) p.topic_weight)
        ])
        topics

  unfoldable pub stats_score : ScoreParams R → PeerStats R → R
  unfolding topics_score
  stats_score params stats =
      let sum = topics_score params null stats.topics in
      let capped =
        if a.lt null params.topic_score_cap && a.lt params.topic_score_cap sum
        then params.topic_score_cap
        else sum in
      let p5 = a.add capped (a.mul stats.application_score params.app_specific_weight) in
      let excess = a.sub stats.behaviour_penalty params.behaviour_penalty_threshold in
      let p7 =
        if a.lt params.behaviour_penalty_threshold stats.behaviour_penalty
        then a.add p5 (a.mul (square excess) params.behaviour_penalty_weight)
        else p5 in
      let slow = a.sub stats.slow_peer_penalty params.slow_peer_threshold in
      if a.lt params.slow_peer_threshold stats.slow_peer_penalty
      then a.add p7 (a.mul slow params.slow_peer_weight)
      else p7

  unfoldable pub score : ScoreParams R → Score R → ℕ → R
  unfolding stats_score
  score params s peer_id = elim (lookup peer_id s.peer_stats) [
    | none ↦ null
    | some stats ↦ stats_score params stats
  ]

  -- `statsOrDefault`, and a write to the statistics that it returns, where there are any. The parameters
  -- are fixed, so a peer has statistics only of the topics that they have.
  unfoldable pub at_stats :
      ScoreParams R
      → (TopicScoreParams R → TopicStats R → TopicStats R)
      → ℕ
      → PeerStats R
      → PeerStats R
  at_stats params f h stats = elim (lookup h params.topics) [
    | none ↦ stats
    | some p ↦ record stats { topics = modify h (f p) (emplace h no_stats stats.topics) }
  ]

  -- The same at a peer, where it is there.
  unfoldable pub at_peer_stats :
      ScoreParams R → Score R → ℕ → ℕ → (TopicScoreParams R → TopicStats R → TopicStats R) → Score R
  unfolding at_stats
  at_peer_stats params s peer_id h f = record s {
    peer_stats = modify peer_id (at_stats params f h) s.peer_stats;
  }
