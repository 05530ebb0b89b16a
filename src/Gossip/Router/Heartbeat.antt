-- ===== src/Gossip/Router/Heartbeat.antt =====
-- `heartbeat`, `emit_gossip` and `apply_iwant_penalties` of protocol/gossip/gossip.cpp.
use Prim.Native.Nat.{max}
use leanp2p.Prelude.{
  ℕ, ◌+◌, ◌-◌, ◌*◌, not, ◌&&◌, ◌||◌, List, [], ◌∷◌, none, some, ltb, ◌==◌, if◌then◌else◌, length,
  take,
}
use leanp2p.Prelude.Eq.{nat_eq}
use leanp2p.Prelude.Maps.{lookup, erase, emplace, modify, member, keys}
use leanp2p.Gossip.Backoff
use leanp2p.Gossip.History
use leanp2p.Gossip.Promises
use leanp2p.Gossip.TimeCache
use leanp2p.Gossip.Router.{Env, Gossip, Peer, Topic, at_peer, with_batch}
use leanp2p.Gossip.Router.Mesh.{below, choose}
use leanp2p.Gossip.Router.Balance.{
  maintain_fanout, drop_bad, rebalance, fill_outbound, opportunistic_graft,
}

-- A step for every topic.
abbrev pub each_topic : (Topic → Topic) → List (ℕ × Topic) → List (ℕ × Topic)
each_topic f [] = []
each_topic f ((h, t) ∷ topics) = (h, f t) ∷ each_topic f topics

module _ {S R : Type 0} (env : Env S R) where
  unfoldable pub penalize_all : S → (ℕ → Peer) → List (ℕ × ℕ) → S
  penalize_all s objects [] = s
  penalize_all s objects ((p, count) ∷ counts) =
      penalize_all (env.add_penalty s (objects p).peer_id count) objects counts

  unfoldable pub apply_iwant_penalties : Gossip S → Gossip S
  unfolding penalize_all
  apply_iwant_penalties g =
      let cleared = Promises.clear_expired g.now g.promises in
      record g { promises = cleared.0; score = penalize_all g.score g.objects cleared.1 }

  -- The publish only topics whose last publication is too old go.
  unfoldable pub retain_topics : ℕ → List (ℕ × Topic) → List (ℕ × Topic)
  retain_topics now [] = []
  retain_topics now ((h, t) ∷ topics) =
      let rest = retain_topics now topics in
      if not t.publish_only || ltb (now - t.last_publish) (env.config.fanout_ttl * 1000)
      then (h, t) ∷ rest
      else rest

  -- The body of the loop over the topics.
  unfoldable pub maintain : Gossip S → ℕ → Gossip S
  unfolding maintain_fanout drop_bad rebalance fill_outbound opportunistic_graft
  maintain g h = elim (lookup h g.topics) [
    | none ↦ g
    | some t ↦
        let cleaned = drop_bad env g h t.mesh_peers in
        if t.publish_only
        then maintain_fanout env g h
        else opportunistic_graft env (fill_outbound env (rebalance env cleaned h) h) h
  ]

  unfoldable pub maintain_all : Gossip S → List ℕ → Gossip S
  maintain_all g [] = g
  maintain_all g (h ∷ hs) = maintain_all (maintain g h) hs

  -- IHAVE to each chosen peer, its ids in an order of its own.
  unfoldable pub offer_all : Gossip S → ℕ → List ℕ → List ℕ → Gossip S
  offer_all g h ids [] = g
  offer_all g h ids (p ∷ ps) =
      let offered = take env.config.max_ihave_length (env.shuffle g.random ids) in
      let drawn = record g { random = g.random + 1 } in
      offer_all
        (with_batch drawn p
          (λ r. record r { ihave = modify h (λ _. offered) (emplace h [] r.ihave) }))
        h ids ps

  unfoldable pub emit_gossip_topic : Gossip S → ℕ → Gossip S
  unfolding offer_all
  emit_gossip_topic g h = elim (lookup h g.topics) [
    | none ↦ g
    | some t ↦
        let ids = History.get env.config.history_gossip t.history in
        let drawn =
          choose env g t.peers
            (λ p.
              not (member p t.mesh_peers) && not (below env g p env.config.score.gossip_threshold))
            (λ n. max env.config.gossip_lazy (env.config.gossip_part n)) in
        if length ids == 0 then g else offer_all drawn.1 h ids drawn.0
  ]

  unfoldable pub emit_gossip : Gossip S → List ℕ → Gossip S
  unfolding emit_gossip_topic
  emit_gossip g [] = g
  emit_gossip g (h ∷ hs) = emit_gossip (emit_gossip_topic g h) hs

unfoldable pub erase_ids : {V : Type 0} → List ℕ → List (ℕ × V) → List (ℕ × V)
erase_ids [] cache = cache
erase_ids (id ∷ ids) cache = erase_ids ids (erase id cache)

-- The message cache without the ids that the histories give up.
unfoldable pub forget : {V : Type 0} → List (ℕ × Topic) → List (ℕ × V) → List (ℕ × V)
unfolding erase_ids
forget [] cache = cache
forget ((h, t) ∷ topics) cache = forget topics (erase_ids (History.shift t.history).0 cache)

module _ {S : Type 0} where
  -- `dont_send_.clearExpired` of the connected peers.
  unfoldable pub clear_dont_send : Gossip S → List (ℕ × ℕ) → Gossip S
  unfolding at_peer
  clear_dont_send g [] = g
  clear_dont_send g ((peer_id, p) ∷ peers) =
      clear_dont_send
        (at_peer g p (λ x. record x { dont_send = TimeCache.clear_expired x.dont_send g.now }))
        peers

  -- The last lines: the histories and the caches.
  unfoldable pub end_heartbeat : Gossip S → Gossip S
  unfolding clear_dont_send forget
  end_heartbeat g =
      let shifted = record g {
        message_cache = forget g.topics g.message_cache;
        topics = each_topic (λ t. record t { history = (History.shift t.history).1 }) g.topics;
      } in
      clear_dont_send shifted g.peers

module _ {S R : Type 0} (env : Env S R) where
  -- The first lines of `heartbeat`: the ring of backoffs, the counters, the penalties.
  unfoldable pub begin_heartbeat : Gossip S → Gossip S
  unfolding apply_iwant_penalties
  begin_heartbeat g =
      let ticked = record g {
        heartbeat_ticks = g.heartbeat_ticks + 1;
        topics = each_topic (λ t. record t { backoff = Backoff.shift t.backoff }) g.topics;
        count_received_ihave = [];
        count_sent_iwant = [];
      } in
      let punished = apply_iwant_penalties env ticked in
      record punished { topics = retain_topics env punished.now punished.topics }

  unfoldable pub heartbeat : Gossip S → Gossip S
  unfolding begin_heartbeat end_heartbeat
  heartbeat g =
      let begun = begin_heartbeat g in
      let maintained = maintain_all env begun (keys begun.topics) in
      end_heartbeat (emit_gossip env maintained (keys maintained.topics))
