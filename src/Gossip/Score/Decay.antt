-- ===== src/Gossip/Score/Decay.antt =====
-- `onDecay` of protocol/gossip/score.hpp.
use leanp2p.Prelude.{ℕ, ◌-◌, true, List, [], ◌∷◌, none, some, ltb, if◌then◌else◌}
use leanp2p.Prelude.Eq.{nat_eq}
use leanp2p.Prelude.Maps.{lookup}
use leanp2p.Gossip.Score.{Arith, TopicScoreParams, ScoreParams, TopicStats, PeerStats, Score, null}

module _ {R : Type 0} (a : Arith R) (params : ScoreParams R) where
  -- A counter shrinks, and is nothing where it is small.
  unfoldable pub decayed : R → R → R
  decayed decay x = let y = a.mul x decay in if a.lt y params.decay_to_zero then null a else y

  unfoldable pub decay_topic : ℕ → TopicScoreParams R → TopicStats R → TopicStats R
  unfolding decayed
  decay_topic now p t = record t {
    first_message_deliveries = decayed p.first_message_deliveries_decay t.first_message_deliveries;
    mesh_message_deliveries = decayed p.mesh_message_deliveries_decay t.mesh_message_deliveries;
    mesh_failure_penalty = decayed p.mesh_failure_penalty_decay t.mesh_failure_penalty;
    invalid_message_deliveries =
        decayed p.invalid_message_deliveries_decay t.invalid_message_deliveries;
    mesh_active = elim t.mesh_active [
      | none ↦ none
      | some active ↦ some (record active { mesh_time = now - active.graft_time })
    ];
    mesh_message_deliveries_active = elim t.mesh_active [
      | none ↦ t.mesh_message_deliveries_active
      | some active ↦
          if ltb p.mesh_message_deliveries_activation (now - active.graft_time)
          then true
          else t.mesh_message_deliveries_active
    ];
  }

  unfoldable pub decay_topics : ℕ → List (ℕ × TopicStats R) → List (ℕ × TopicStats R)
  unfolding decay_topic
  decay_topics now [] = []
  decay_topics now ((h, t) ∷ topics) =
      (h, elim (lookup h params.topics) [ none ↦ t | some p ↦ decay_topic now p t ])
      ∷ decay_topics now topics

  unfoldable pub decay_stats : ℕ → PeerStats R → PeerStats R
  unfolding decay_topics
  decay_stats now stats = record stats {
    topics = decay_topics now stats.topics;
    behaviour_penalty = decayed params.behaviour_penalty_decay stats.behaviour_penalty;
    slow_peer_penalty = decayed params.slow_peer_decay stats.slow_peer_penalty;
  }

  -- The loop over the peers: those that are away stay as they are until they expire.
  unfoldable pub decay_peers : ℕ → List (ℕ × PeerStats R) → List (ℕ × PeerStats R)
  unfolding decay_stats
  decay_peers now [] = []
  decay_peers now ((peer_id, stats) ∷ peers) =
      let rest = decay_peers now peers in
      elim stats.expires_at [
        | none ↦ (peer_id, decay_stats now stats) ∷ rest
        | some time ↦ if ltb time now then rest else (peer_id, stats) ∷ rest
      ]

  unfoldable pub on_decay : Score R → ℕ → Score R
  unfolding decay_peers
  on_decay s now = record s { peer_stats = decay_peers now s.peer_stats }
