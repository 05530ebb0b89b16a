-- ===== src/Gossip/Router/Membership.antt =====
-- The subscriptions, GRAFTs and PRUNEs of an RPC in `onMessage` of protocol/gossip/gossip.cpp.
pub mod Accepted
use leanp2p.Prelude.{
  ℕ, ◌+◌, Bool, true, false, not, ◌&&◌, List, [], ◌∷◌, Option, none, some, ltb, if◌then◌else◌,
  length,
}
use leanp2p.Prelude.Eq.{nat_eq}
use leanp2p.Prelude.Maps.{lookup, insert, remove, member}
use leanp2p.Gossip.Config.{mesh_n_low_for_topic, mesh_n_high_for_topic}
use leanp2p.Gossip.Router.{Env, Gossip, Topic, at_peer, at_topic, is_gossipsub}
use leanp2p.Gossip.Router.Mesh.{
  below, graft, join_mesh, make_prune, remove_peer_from_mesh, get_backoff_time, may_join,
}

module _ {S R : Type 0} (env : Env S R) where
  -- One subscription of the RPC.
  unfoldable pub on_subscribe : Gossip S → ℕ → ℕ → Gossip S
  unfolding at_topic at_peer
  on_subscribe g p h =
      let named = at_peer g p (λ x. record x { topics = insert h x.topics }) in
      let listed = at_topic named h (λ t. record t { peers = insert p t.peers }) in
      elim (lookup h listed.topics) [
        | none ↦ named
        | some t ↦
            if not t.publish_only
              && (is_gossipsub (listed.objects p)
                  && (ltb (length t.mesh_peers) (mesh_n_low_for_topic env.config h)
                      && may_join env listed t p))
            then graft env listed h p
            else listed
      ]

  unfoldable pub on_unsubscribe : Gossip S → ℕ → ℕ → Gossip S
  unfolding at_topic at_peer
  on_unsubscribe g p h =
      let unnamed = at_peer g p (λ x. record x { topics = remove h x.topics }) in
      let unlisted = at_topic unnamed h (λ t. record t { peers = remove p t.peers }) in
      remove_peer_from_mesh env unlisted h p none false

  unfoldable pub on_subscriptions : Gossip S → ℕ → List (ℕ × Bool) → Gossip S
  on_subscriptions g p [] = g
  on_subscriptions g p ((h, on) ∷ rest) =
      on_subscriptions (if on then on_subscribe g p h else on_unsubscribe g p h) p rest

  -- The lambda `accept`, with the penalties.
  unfoldable pub judge_graft : Gossip S → ℕ → ℕ → Topic → Bool × Gossip S
  judge_graft g p h t =
      let id = (g.objects p).peer_id in
      let backoff = get_backoff_time env t p in
      let once = env.add_penalty g.score id 1 in
      let flooded = ltb env.config.prune_backoff (backoff + env.config.graft_flood_threshold) in
      if ltb 0 backoff
      then (false, record g { score = if flooded then env.add_penalty once id 1 else once })
      else if not (g.objects p).out
          && ltb (mesh_n_high_for_topic env.config h) (length t.mesh_peers)
      then (false, g)
      else if below env g p env.config.score.zero
      then (false, g)
      else (true, g)

  unfoldable pub on_graft : Gossip S → ℕ → ℕ → Gossip S
  unfolding at_topic at_peer judge_graft
  on_graft g p h =
      let named = at_peer g p (λ x. record x { topics = insert h x.topics }) in
      let listed = at_topic named h (λ t. record t { peers = insert p t.peers }) in
      elim (lookup h listed.topics) [
        | none ↦ named
        | some t ↦
            let judged = judge_graft listed p h t in
            if t.publish_only
            then listed
            else if member p t.mesh_peers
            then listed
            else if judged.0
            then join_mesh env judged.1 h p
            else make_prune env judged.1 h p
      ]

  unfoldable pub on_grafts : Gossip S → ℕ → List ℕ → Bool × Gossip S
  on_grafts g p [] = (true, g)
  on_grafts g p (h ∷ hs) =
      let rest = on_grafts (on_graft g p h) p hs in
      if not (is_gossipsub (g.objects p)) then (false, g) else rest

  unfoldable pub on_prunes : Gossip S → ℕ → List (ℕ × Option ℕ) → Bool × Gossip S
  on_prunes g p [] = (true, g)
  on_prunes g p ((h, backoff) ∷ prunes) =
      let rest = on_prunes (remove_peer_from_mesh env g h p backoff true) p prunes in
      if not (is_gossipsub (g.objects p)) then (false, g) else rest
