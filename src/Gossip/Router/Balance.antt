-- ===== src/Gossip/Router/Balance.antt =====
-- The mesh of one topic in the heartbeat of protocol/gossip/gossip.cpp.
use leanp2p.Prelude.{
  ℕ, ◌+◌, ◌-◌, ◌/◌, ◌%◌, Bool, not, ◌&&◌, List, [], ◌∷◌, ◌++◌, none, some, leb, ltb, ◌==◌,
  if◌then◌else◌, length, take, drop, map, get_or,
}
use leanp2p.Prelude.Eq.{nat_eq}
use leanp2p.Prelude.Maps.{lookup, insert, remove, member}
use leanp2p.Gossip.Config.{
  mesh_n_for_topic, mesh_n_low_for_topic, mesh_n_high_for_topic, mesh_outbound_min_for_topic,
}
use leanp2p.Gossip.Router.{Env, Gossip, Topic, at_topic, mesh_out_count}
use leanp2p.Gossip.Router.Mesh.{
  below, choose, fill_mesh, is_backoff_with_slack, keep, make_prune, may_join,
}

-- `std::ranges::sort`.
unfoldable pub insert_sorted : {A : Type 0} → (A → A → Bool) → A → List A → List A
insert_sorted less a [] = a ∷ []
insert_sorted less a (x ∷ xs) =
    let rest = insert_sorted less a xs in if less a x then a ∷ (x ∷ xs) else x ∷ rest

unfoldable pub sort_by : {A : Type 0} → (A → A → Bool) → List A → List A
unfolding insert_sorted
sort_by less [] = []
sort_by less (x ∷ xs) = insert_sorted less x (sort_by less xs)

module _ {S R : Type 0} (env : Env S R) where
  unfoldable pub join_all : Gossip S → ℕ → List ℕ → Gossip S
  unfolding at_topic
  join_all g h [] = g
  join_all g h (p ∷ ps) =
      join_all (at_topic g h (λ t. record t { mesh_peers = insert p t.mesh_peers })) h ps

  -- The mesh of a publish only topic.
  unfoldable pub maintain_fanout : Gossip S → ℕ → Gossip S
  unfolding at_topic
  maintain_fanout g h =
      let good = λ (p : ℕ). not (below env g p env.config.score.publish_threshold) in
      let kept = at_topic g h (λ t. record t { mesh_peers = keep good t.mesh_peers }) in
      elim (lookup h kept.topics) [
        | none ↦ kept
        | some t ↦
            let more = mesh_n_for_topic env.config h - length t.mesh_peers in
            let drawn =
              choose env kept t.peers (λ p. not (member p t.mesh_peers) && good p) (λ _. more) in
            if more == 0 then kept else join_all drawn.1 h drawn.0
      ]

  -- The peers of negative score leave the mesh.
  unfoldable pub drop_bad : Gossip S → ℕ → List ℕ → Gossip S
  unfolding at_topic
  drop_bad g h [] = g
  drop_bad g h (p ∷ ps) =
      let dropped =
        at_topic (make_prune env g h p) h (λ t. record t { mesh_peers = remove p t.mesh_peers }) in
      drop_bad (if below env g p env.config.score.zero then dropped else g) h ps

  -- The loop over the sorted peers of a mesh that is too large.
  unfoldable pub trim : Gossip S → ℕ → ℕ → List ℕ → Gossip S
  unfolding at_topic
  trim g h outbound [] = g
  trim g h outbound (p ∷ ps) = elim (lookup h g.topics) [
    | none ↦ g
    | some t ↦
        let removed = at_topic g h (λ t. record t { mesh_peers = remove p t.mesh_peers }) in
        let pruned = make_prune env removed h p in
        let skip = (g.objects p).out && leb outbound (mesh_outbound_min_for_topic env.config h) in
        let outbound' = if (g.objects p).out && not skip then outbound - 1 else outbound in
        let rest = trim (if skip then g else pruned) h outbound' ps in
        if leb (length t.mesh_peers) (mesh_n_for_topic env.config h) then g else rest
  ]

  unfoldable pub shrink_mesh : Gossip S → ℕ → Topic → Gossip S
  unfolding trim sort_by
  shrink_mesh g h t =
      let better = λ (l r : ℕ).
        env.lt (env.score g.score (g.objects r).peer_id)
          (env.score g.score (g.objects l).peer_id) in
      let sorted = sort_by better (env.shuffle g.random t.mesh_peers) in
      let count = length sorted - env.config.retain_scores in
      let order = env.shuffle (g.random + 1) (take count sorted) ++ drop count sorted in
      trim (record g { random = g.random + 2 }) h (mesh_out_count g.objects t.mesh_peers) order

  unfoldable pub rebalance : Gossip S → ℕ → Gossip S
  unfolding shrink_mesh
  rebalance g h = elim (lookup h g.topics) [
    | none ↦ g
    | some t ↦
        let size = length t.mesh_peers in
        if ltb size (mesh_n_low_for_topic env.config h)
        then fill_mesh env g h (may_join env) (mesh_n_for_topic env.config h - size)
        else if ltb (mesh_n_high_for_topic env.config h) size
        then shrink_mesh g h t
        else g
  ]

  unfoldable pub fill_outbound : Gossip S → ℕ → Gossip S
  fill_outbound g h = elim (lookup h g.topics) [
    | none ↦ g
    | some t ↦
        let more =
          mesh_outbound_min_for_topic env.config h - mesh_out_count g.objects t.mesh_peers in
        if leb (mesh_n_low_for_topic env.config h) (length t.mesh_peers) && ltb 0 more
        then fill_mesh env g h (λ g t p. (g.objects p).out && may_join env g t p) more
        else g
  ]

  -- The median as the source has it, with the elements before and behind the middle.
  unfoldable pub median : List R → R
  median scores =
      let middle = length scores / 2 in
      if length scores % 2 == 0
      then env.half_sum (get_or scores (middle - 1) env.beyond)
          (get_or scores (middle + 1) env.beyond)
      else get_or scores middle env.beyond

  unfoldable pub opportunistic_graft : Gossip S → ℕ → Gossip S
  unfolding median sort_by
  opportunistic_graft g h = elim (lookup h g.topics) [
    | none ↦ g
    | some t ↦
        let scores =
          sort_by env.lt (map (λ p. env.score g.score (g.objects p).peer_id) t.mesh_peers) in
        let better = λ (g : Gossip S) (t : Topic) (p : ℕ).
          not (member p t.mesh_peers)
          && (not (is_backoff_with_slack env t p)
              && env.lt (median scores) (env.score g.score (g.objects p).peer_id)) in
        if g.heartbeat_ticks % env.config.opportunistic_graft_ticks == 0
          && (ltb 1 (length t.mesh_peers)
              && env.lt (median scores) env.config.score.opportunistic_graft_threshold)
        then fill_mesh env g h better env.config.opportunistic_graft_peers
        else g
  ]
