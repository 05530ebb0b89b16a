-- ===== src/Gossip/Score/Tests.antt =====
-- The score on concrete inputs, with native numbers: subtraction stops at 0, so no score is negative.
use leanp2p.Prelude.{arith, ℕ, ◌+◌, ◌-◌, ◌*◌, ◌/◌, ◌≡◌, refl, [], ◌∷◌, ltb}
use leanp2p.Prelude.Eq.{nat_eq}
use leanp2p.Prelude.Maps.{lookup, has, emplace, modify}
use leanp2p.Gossip.TimeCache.{get_or_default}
use leanp2p.Gossip.Score.{Arith, ScoreParams, TopicScoreParams, Score, score}
use leanp2p.Gossip.Score.Calls.{connect, disconnect, graft, add_penalty}
use leanp2p.Gossip.Score.Decay.{on_decay}
use leanp2p.Gossip.Score.Deliver.{deliver_message}
use leanp2p.Gossip.Score.Expiry.{decays}
use leanp2p.Gossip.Score.Penalty.{behaviour, behaviour-connect-away}

abbrev arithmetic : Arith ℕ
arithmetic = record {
  of_nat = λ n. n;
  add = λ x y. x + y;
  sub = λ x y. x - y;
  mul = λ x y. x * y;
  div = λ x y. x / y;
  lt = ltb;
}

abbrev topic : TopicScoreParams ℕ
topic = record {
  topic_weight = 1;
  time_in_mesh_weight = 1;
  time_in_mesh_quantum = 1000;
  time_in_mesh_cap = 100;
  first_message_deliveries_weight = 2;
  first_message_deliveries_decay = 1;
  first_message_deliveries_cap = 5;
  mesh_message_deliveries_weight = 0;
  mesh_message_deliveries_decay = 1;
  mesh_message_deliveries_cap = 5;
  mesh_message_deliveries_threshold = 2;
  mesh_message_deliveries_window = 10;
  mesh_message_deliveries_activation = 5000;
  mesh_failure_penalty_weight = 0;
  mesh_failure_penalty_decay = 1;
  invalid_message_deliveries_weight = 0;
  invalid_message_deliveries_decay = 1;
}

abbrev params : ScoreParams ℕ
params = record {
  topics = (1, topic) ∷ [];
  topic_score_cap = 0;
  app_specific_weight = 0;
  behaviour_penalty_weight = 0;
  behaviour_penalty_threshold = 0;
  behaviour_penalty_decay = 1;
  decay_to_zero = 1;
  retain_score = 3600000;
  slow_peer_weight = 0;
  slow_peer_threshold = 0;
  slow_peer_decay = 1;
}

abbrev no_peers : Score ℕ
no_peers = record {
  peer_stats = [];
  deliveries = record { ttl = 120000; map = []; expirations = [] };
}

-- Peer 7 comes, and has three penalties.
abbrev penalised : Score ℕ
penalised = add_penalty arithmetic params (connect arithmetic params no_peers 7) 7 3

penalised_score : score arithmetic params penalised 7 ≡ 0
unfolding connect add_penalty score lookup has modify emplace
penalised_score = refl

-- The first delivery counts twice its number, a minute in the mesh sixty.
delivery_score :
    score arithmetic params
      (on_decay arithmetic params
        (deliver_message arithmetic params
          (graft arithmetic params (connect arithmetic params no_peers 7) 7 1 1000)
          7
          42
          1
          2000)
        61000)
      7
    ≡ 62
unfolding connect graft deliver_message on_decay score lookup get_or_default has modify emplace
delivery_score = refl

behaviour-connect-away_example :
    behaviour arithmetic params
      (connect arithmetic params
        (decays arithmetic params (disconnect arithmetic params penalised 7 500) (600 ∷ 700 ∷ []))
        7)
      7
    ≡ behaviour arithmetic params penalised 7
unfolding score connect add_penalty lookup has modify emplace
behaviour-connect-away_example =
    behaviour-connect-away arithmetic params penalised 7 500 (600 ∷ 700 ∷ []) refl
      (omega arith, (omega arith, tt))
