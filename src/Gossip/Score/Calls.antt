-- ===== src/Gossip/Score/Calls.antt =====
-- What the router tells the score of a peer: penalties, the mesh, the connection.
use leanp2p.Prelude.{ℕ, ◌+◌, false, ◌&&◌, List, [], ◌∷◌, none, some, if◌then◌else◌}
use leanp2p.Prelude.Eq.{nat_eq}
use leanp2p.Prelude.Maps.{lookup, erase, emplace, modify}
use leanp2p.Gossip.Score.{
  Arith, TopicScoreParams, ScoreParams, TopicStats, Score, null, new_stats, square, score,
  at_peer_stats,
}

module _ {R : Type 0} (a : Arith R) (params : ScoreParams R) where
  unfoldable pub add_penalty : Score R → ℕ → ℕ → Score R
  add_penalty s peer_id count = record s {
    peer_stats =
        modify peer_id
          (λ stats. record stats {
            behaviour_penalty = a.add stats.behaviour_penalty (a.of_nat count);
          })
          s.peer_stats;
  }

  unfoldable pub graft : Score R → ℕ → ℕ → ℕ → Score R
  unfolding at_peer_stats
  graft s peer_id h now = at_peer_stats a params s peer_id h (λ p t. record t {
    mesh_active = some (record { graft_time = now; mesh_time = 0 });
    mesh_message_deliveries_active = false;
  })

  -- The penalty for a mesh that the peer left with too few deliveries.
  unfoldable pub deficit_penalty : TopicScoreParams R → TopicStats R → R
  deficit_penalty p t =
      let deficit = a.sub p.mesh_message_deliveries_threshold t.mesh_message_deliveries in
      if t.mesh_message_deliveries_active
        && a.lt t.mesh_message_deliveries p.mesh_message_deliveries_threshold
      then a.add t.mesh_failure_penalty (square a deficit)
      else t.mesh_failure_penalty

  unfoldable pub prune : Score R → ℕ → ℕ → Score R
  unfolding at_peer_stats deficit_penalty
  prune s peer_id h = at_peer_stats a params s peer_id h (λ p t. record t {
    mesh_failure_penalty = deficit_penalty p t;
    mesh_message_deliveries_active = false;
    mesh_active = none;
  })

  unfoldable pub connect : Score R → ℕ → Score R
  connect s peer_id = record s {
    peer_stats =
        modify peer_id (λ stats. record stats { expires_at = none })
          (emplace peer_id (new_stats a) s.peer_stats);
  }

  -- The statistics of a topic at a disconnection.
  unfoldable pub leave_topic : ℕ → TopicStats R → TopicStats R
  unfolding deficit_penalty
  leave_topic h t = record t {
    first_message_deliveries = null a;
    mesh_failure_penalty = elim (lookup h params.topics) [
      | none ↦ t.mesh_failure_penalty
      | some p ↦ elim t.mesh_active [
        | none ↦ t.mesh_failure_penalty
        | some active ↦ deficit_penalty p t
      ]
    ];
    mesh_active = none;
    mesh_message_deliveries_active = false;
  }

  unfoldable pub leave_topics : List (ℕ × TopicStats R) → List (ℕ × TopicStats R)
  unfolding leave_topic
  leave_topics [] = []
  leave_topics ((h, t) ∷ topics) = (h, leave_topic h t) ∷ leave_topics topics

  unfoldable pub disconnect : Score R → ℕ → ℕ → Score R
  unfolding leave_topics
  disconnect s peer_id now = elim (lookup peer_id s.peer_stats) [
    | none ↦ s
    | some stats ↦
        if a.lt (null a) (score a params s peer_id)
        then record s { peer_stats = erase peer_id s.peer_stats }
        else record s {
          peer_stats =
              modify peer_id
                (λ stats. record stats {
                  topics = leave_topics stats.topics;
                  expires_at = some (now + params.retain_score);
                })
                s.peer_stats;
        }
  ]
