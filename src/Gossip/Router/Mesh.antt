-- ===== src/Gossip/Router/Mesh.antt =====
-- Who is in the mesh of a topic: `graft`, `make_prune`, `remove_peer_from_mesh`, the choice of peers
-- and `getOrCreateTopic`, of protocol/gossip/gossip.cpp.
use leanp2p.Prelude.{
  ℕ, ◌+◌, ◌-◌, ◌*◌, ◌/◌, ◌%◌, ◌^◌, Bool, true, not, ◌&&◌, ◌||◌, List, [], ◌∷◌, Option, none, some,
  leb, ltb, if◌then◌else◌, take, length,
}
use leanp2p.Prelude.Eq.{nat_eq}
use leanp2p.Prelude.Maps.{lookup, emplace, insert, remove, member}
use leanp2p.Gossip.Backoff
use leanp2p.Gossip.Config.{mesh_n_for_topic}
use leanp2p.Gossip.Router.{
  Env, Gossip, Topic, subscribe, is_gossipsub, is_gossipsub_v1_1, at_topic, with_batch,
}

-- The elements that pass a test, in order.
unfoldable pub keep : (ℕ → Bool) → List ℕ → List ℕ
keep test [] = []
keep test (x ∷ xs) = let rest = keep test xs in if test x then x ∷ rest else rest

abbrev pub value_or : Option ℕ → ℕ → ℕ
value_or none d = d
value_or (some b) d = b

module _ {S R : Type 0} (env : Env S R) where
  -- `Score::below` at the peer id of an object.
  unfoldable pub below : Gossip S → ℕ → R → Bool
  below g p threshold = env.lt (env.score g.score (g.objects p).peer_id) threshold

  -- The quotient of two `int64_t` periods, the first one by its 64 bits, and the sum as a `size_t`.
  unfoldable pub backoff_slots : ℕ → ℕ
  backoff_slots backoff =
      let quotient =
        if ltb backoff (2 ^ 63)
        then backoff / env.config.heartbeat_interval
        else 2 ^ 64 - (2 ^ 64 - backoff) / env.config.heartbeat_interval in
      (quotient + env.config.backoff_slack) % 2 ^ 64

  unfoldable pub update_backoff : Gossip S → ℕ → ℕ → ℕ → Gossip S
  unfolding at_topic backoff_slots
  update_backoff g h p backoff =
      at_topic g h (λ t. record t { backoff = Backoff.update t.backoff p (backoff_slots backoff) })

  unfoldable pub get_backoff_time : Topic → ℕ → ℕ
  get_backoff_time t p =
      (Backoff.get t.backoff p - env.config.backoff_slack) * env.config.heartbeat_interval

  unfoldable pub is_backoff_with_slack : Topic → ℕ → Bool
  is_backoff_with_slack t p = ltb 0 (Backoff.get t.backoff p)

  -- The first two lines of `graft`, which accepting a GRAFT has as well.
  unfoldable pub join_mesh : Gossip S → ℕ → ℕ → Gossip S
  unfolding at_topic
  join_mesh g h p =
      let g' = at_topic g h (λ t. record t { mesh_peers = insert p t.mesh_peers }) in
      record g' { score = env.graft g.score (g.objects p).peer_id h g.now }

  unfoldable pub graft : Gossip S → ℕ → ℕ → Gossip S
  unfolding join_mesh
  graft g h p = with_batch (join_mesh g h p) p (λ r. record r { graft = insert h r.graft })

  unfoldable pub make_prune : Gossip S → ℕ → ℕ → Gossip S
  make_prune g h p =
      let scored = record g { score = env.prune g.score (g.objects p).peer_id h } in
      let limited = update_backoff scored h p env.config.prune_backoff in
      if not (is_gossipsub (g.objects p))
      then g
      else if is_gossipsub_v1_1 (g.objects p)
      then with_batch limited p
          (λ r. record r { prune = emplace h (some env.config.prune_backoff) r.prune })
      else with_batch scored p (λ r. record r { prune = emplace h none r.prune })

  -- The mesh without the peer, and the score told.
  unfoldable pub leave_mesh : Gossip S → ℕ → ℕ → Gossip S
  unfolding at_topic
  leave_mesh g h p =
      let g' = at_topic g h (λ t. record t { mesh_peers = remove p t.mesh_peers }) in
      record g' { score = env.prune g.score (g.objects p).peer_id h }

  unfoldable pub remove_peer_from_mesh : Gossip S → ℕ → ℕ → Option ℕ → Bool → Gossip S
  remove_peer_from_mesh g h p backoff always_update_backoff = elim (lookup h g.topics) [
    | none ↦ g
    | some t ↦
        let peer_removed = member p t.mesh_peers in
        let g' = if peer_removed then leave_mesh g h p else g in
        if always_update_backoff || peer_removed
        then update_backoff g' h p (value_or backoff env.config.prune_backoff)
        else g'
  ]

  -- `ChoosePeers::choose`: the peers, and the state after the draw.
  unfoldable pub choose : Gossip S → List ℕ → (ℕ → Bool) → (ℕ → ℕ) → List ℕ × Gossip S
  unfolding keep
  choose g all predicate get_count =
      let chosen = keep (λ p. is_gossipsub (g.objects p) && predicate p) all in
      (
        take (get_count (length chosen)) (env.shuffle g.random chosen),
        record g { random = g.random + 1 },
      )

  unfoldable pub graft_all : Gossip S → ℕ → List ℕ → Gossip S
  graft_all g h [] = g
  graft_all g h (p ∷ ps) = graft_all (graft g h p) h ps

  -- The peers that may join the mesh of a topic: not in it, not in backoff, not of negative score.
  unfoldable pub may_join : Gossip S → Topic → ℕ → Bool
  may_join g t p =
      not (member p t.mesh_peers)
      && (not (is_backoff_with_slack t p) && not (below g p env.config.score.zero))

  -- Those of a publish only topic's mesh that stay when it is subscribed to, up to `mesh_n`.
  unfoldable pub regraft : Gossip S → ℕ → List ℕ → Gossip S
  regraft g h [] = g
  regraft g h (p ∷ ps) = elim (lookup h g.topics) [
    | none ↦ g
    | some t ↦
        let next = if may_join g t p then graft g h p else g in
        let rest = regraft next h ps in
        if leb (mesh_n_for_topic env.config h) (length t.mesh_peers) then g else rest
  ]

  unfoldable pub announce_all : Gossip S → ℕ → List ℕ → Gossip S
  announce_all g h [] = g
  announce_all g h (p ∷ ps) = announce_all (with_batch g p (subscribe h true)) h ps

  -- `choose_peers_.choose(topic->peers_, predicate, more)` and the grafts.
  unfoldable pub fill_mesh : Gossip S → ℕ → (Gossip S → Topic → ℕ → Bool) → ℕ → Gossip S
  fill_mesh g h predicate more = elim (lookup h g.topics) [
    | none ↦ g
    | some t ↦
        let drawn = choose g t.peers (predicate g t) (λ _. more) in graft_all drawn.1 h drawn.0
  ]

  -- `if (auto more = saturating_sub(wanted, mesh_peers_.size()))`.
  unfoldable pub fill_mesh_to : Gossip S → ℕ → (Gossip S → Topic → ℕ → Bool) → ℕ → Gossip S
  fill_mesh_to g h predicate wanted = elim (lookup h g.topics) [
    | none ↦ g
    | some t ↦
        if ltb (length t.mesh_peers) wanted
        then fill_mesh g h predicate (wanted - length t.mesh_peers)
        else g
  ]
