-- ===== src/Gossip/Router/Invariant/Heartbeat.antt =====
-- The heartbeat keeps the sets of the topics.
use Prim.Native.Nat.{max}
use leanp2p.Prelude.{
  ℕ, ◌+◌, ◌-◌, ◌≡◌, refl, sym, subst, ◌∙◌, ap, arith, Bool, true, not, ◌&&◌, List, [], ◌∷◌, leb,
  ◌==◌, if◌then◌else◌, inl, inr, length, take, Bool-cases,
}
use leanp2p.Prelude.Eq.{nat_eq}
use leanp2p.Prelude.Maps.{emplace, modify, lookup, member, insert, remove, IsUnique}
use leanp2p.Gossip.Config.{mesh_n_for_topic, mesh_outbound_min_for_topic}
use leanp2p.Gossip.History
use leanp2p.Gossip.Router.{Env, Gossip, Topic, at_topic, with_batch, mesh_out_count}
use leanp2p.Gossip.Router.Mesh.{below, choose, keep, make_prune, may_join}
use leanp2p.Gossip.Router.Balance.{
  join_all, maintain_fanout, drop_bad, trim, shrink_mesh, rebalance, fill_outbound,
  opportunistic_graft,
}
use leanp2p.Gossip.Router.Heartbeat.{
  maintain, maintain_all, offer_all, emit_gossip_topic, emit_gossip,
}
use leanp2p.Gossip.Router.Invariant.{
  peers_of, peers_in, Grows, Grows-refl, Grows-trans, at_topic-Grows,
}
use leanp2p.Gossip.Router.Invariant.Mesh.{
  Reorders, member-head, member-tail, member-keep, with_batch-Grows, aside-Grows, elim-Grows,
  if-Grows, choose_lem, choose-Grows, fill_mesh-Grows, make_prune-Grows, shrink-Grows, put-Grows,
}

pub keep-IsUnique : (test : ℕ → Bool) (xs : List ℕ) → IsUnique xs → IsUnique (keep test xs)
unfolding keep
keep-IsUnique test [] u = tt
keep-IsUnique test (x ∷ xs) u = elim (Bool-cases (test x)) [
  | inl e ↦ rw e (ground (arith, member-keep test x xs, u.0), keep-IsUnique test xs u.1)
  | inr e ↦ rw e (keep-IsUnique test xs u.1)
]

module _ {S R : Type 0} (env : Env S R) where
  pub join_all-Grows :
      (g : Gossip S) (h : ℕ) (ps : List ℕ)
      → ((p : ℕ) → member p ps ≡ true → member p (peers_of g h) ≡ true)
      → Grows g (join_all env g h ps)
  unfolding join_all
  join_all-Grows g h [] m = Grows-refl g
  join_all-Grows g h (p ∷ ps) m =
      let a = put-Grows g h p (m p (member-head p ps)) in
      Grows-trans g _ _ a (
        join_all-Grows (at_topic g h (λ t. record t { mesh_peers = insert p t.mesh_peers })) h ps
          (λ q k.
            subst (λ s. member q s ≡ true) (sym (a.same_peers h)) (m q (member-tail q p ps k))))

  pub drop_bad-Grows : (g : Gossip S) (h : ℕ) (ps : List ℕ) → Grows g (drop_bad env g h ps)
  unfolding drop_bad
  drop_bad-Grows g h [] = Grows-refl g
  drop_bad-Grows g h (p ∷ ps) =
      let pruned = make_prune env g h p in
      let next =
        if below env g p env.config.score.zero
        then at_topic pruned h (λ t. record t { mesh_peers = remove p t.mesh_peers })
        else g in
      let a : Grows g next =
        if-Grows (below env g p env.config.score.zero) g _ g
          (Grows-trans g pruned _ (make_prune-Grows env g h p) (shrink-Grows pruned h p))
          (Grows-refl g) in
      Grows-trans g next _ a (
        drop_bad-Grows
          (if below env g p env.config.score.zero
            then at_topic (make_prune env g h p) h
                (λ t. record t { mesh_peers = remove p t.mesh_peers })
            else g)
          h ps)

  pub trim-Grows :
      (g : Gossip S) (h outbound : ℕ) (ps : List ℕ) → Grows g (trim env g h outbound ps)
  unfolding trim
  trim-Grows g h outbound [] = Grows-refl g
  trim-Grows g h outbound (p ∷ ps) = elim-Grows (lookup h g.topics) g g _ (Grows-refl g) (λ t e.
      let removed = at_topic g h (λ t. record t { mesh_peers = remove p t.mesh_peers }) in
      let pruned = make_prune env removed h p in
      let skip = (g.objects p).out && leb outbound (mesh_outbound_min_for_topic env.config h) in
      let outbound' = if (g.objects p).out && not skip then outbound - 1 else outbound in
      let next = if skip then g else pruned in
      let a : Grows g next =
        if-Grows skip g g pruned (Grows-refl g)
          (Grows-trans g removed pruned (shrink-Grows g h p) (make_prune-Grows env removed h p)) in
      if-Grows _ g g _ (Grows-refl g) (Grows-trans g next _ a (trim-Grows next h outbound' ps)))

  pub shrink_mesh-Grows : (g : Gossip S) (h : ℕ) (t : Topic) → Grows g (shrink_mesh env g h t)
  unfolding shrink_mesh
  shrink_mesh-Grows g h t =
      let drawn : Gossip S = record g { random = g.random + 2 } in
      Grows-trans g drawn _ (aside-Grows g drawn refl refl refl)
        (trim-Grows drawn h (mesh_out_count g.objects t.mesh_peers) _)

  pub offer_all-Grows :
      (g : Gossip S) (h : ℕ) (ids ps : List ℕ) → Grows g (offer_all env g h ids ps)
  unfolding offer_all
  offer_all-Grows g h ids [] = Grows-refl g
  offer_all-Grows g h ids (p ∷ ps) =
      let offered = take env.config.max_ihave_length (env.shuffle g.random ids) in
      let drawn : Gossip S = record g { random = g.random + 1 } in
      let next =
        with_batch drawn p
          (λ r. record r { ihave = modify h (λ _. offered) (emplace h [] r.ihave) }) in
      Grows-trans g next _
        (Grows-trans g drawn next (aside-Grows g drawn refl refl refl) (with_batch-Grows drawn p _))
        (offer_all-Grows next h ids ps)

module _ {S R : Type 0} (env : Env S R) (shuffled : Reorders env.shuffle) where
  pub maintain_fanout-Grows : (g : Gossip S) (h : ℕ) → Grows g (maintain_fanout env g h)
  unfolding maintain_fanout
  maintain_fanout-Grows g h =
      let good = λ (p : ℕ). not (below env g p env.config.score.publish_threshold) in
      let kept = at_topic g h (λ t. record t { mesh_peers = keep good t.mesh_peers }) in
      let a : Grows g kept =
        at_topic-Grows g h _ (λ t. refl) (λ t. keep-IsUnique good t.mesh_peers)
          (λ t q e k. inl (member-keep good q t.mesh_peers k).0) in
      elim-Grows (lookup h kept.topics) g kept _ a (λ t e.
        let more = mesh_n_for_topic env.config h - length t.mesh_peers in
        let test = λ (p : ℕ). not (member p t.mesh_peers) && good p in
        let drawn = choose env kept t.peers test (λ _. more) in
        let b = choose-Grows env shuffled kept t.peers test (λ _. more) in
        if-Grows _ g kept _ a (
          Grows-trans g kept _ a (
            Grows-trans kept drawn.1 _ b (
              join_all-Grows env drawn.1 h drawn.0 (λ p m.
                subst (λ s. member p s ≡ true) (sym (b.same_peers h ∙ ap peers_in e))
                  (choose_lem env shuffled kept t.peers test (λ _. more) p m))))))

  pub rebalance-Grows : (g : Gossip S) (h : ℕ) → Grows g (rebalance env g h)
  unfolding rebalance
  rebalance-Grows g h = elim-Grows (lookup h g.topics) g g _ (Grows-refl g) (λ t e.
      if-Grows _ g _ _ (fill_mesh-Grows env shuffled g h (may_join env) _)
        (if-Grows _ g _ _ (shrink_mesh-Grows env g h t) (Grows-refl g)))

  pub fill_outbound-Grows : (g : Gossip S) (h : ℕ) → Grows g (fill_outbound env g h)
  unfolding fill_outbound
  fill_outbound-Grows g h =
      elim-Grows (lookup h g.topics) g g _ (Grows-refl g)
        (λ t e. if-Grows _ g _ _ (fill_mesh-Grows env shuffled g h _ _) (Grows-refl g))

  pub opportunistic_graft-Grows : (g : Gossip S) (h : ℕ) → Grows g (opportunistic_graft env g h)
  unfolding opportunistic_graft
  opportunistic_graft-Grows g h =
      elim-Grows (lookup h g.topics) g g _ (Grows-refl g)
        (λ t e. if-Grows _ g _ _ (fill_mesh-Grows env shuffled g h _ _) (Grows-refl g))

  pub maintain-Grows : (g : Gossip S) (h : ℕ) → Grows g (maintain env g h)
  unfolding maintain
  maintain-Grows g h = elim-Grows (lookup h g.topics) g g _ (Grows-refl g) (λ t e.
      let cleaned = drop_bad env g h t.mesh_peers in
      let balanced = rebalance env cleaned h in
      let filled = fill_outbound env balanced h in
      if-Grows _ g _ _ (maintain_fanout-Grows g h) (
        Grows-trans g cleaned _ (drop_bad-Grows env g h t.mesh_peers) (
          Grows-trans cleaned balanced _ (rebalance-Grows cleaned h) (
            Grows-trans balanced filled _ (fill_outbound-Grows balanced h)
              (opportunistic_graft-Grows filled h)))))

  pub maintain_all-Grows : (g : Gossip S) (hs : List ℕ) → Grows g (maintain_all env g hs)
  unfolding maintain_all
  maintain_all-Grows g [] = Grows-refl g
  maintain_all-Grows g (h ∷ hs) =
      Grows-trans g (maintain env g h) _ (maintain-Grows g h)
        (maintain_all-Grows (maintain env g h) hs)

  pub emit_gossip_topic-Grows : (g : Gossip S) (h : ℕ) → Grows g (emit_gossip_topic env g h)
  unfolding emit_gossip_topic
  emit_gossip_topic-Grows g h = elim-Grows (lookup h g.topics) g g _ (Grows-refl g) (λ t e.
      let ids = History.get env.config.history_gossip t.history in
      let test = λ (p : ℕ).
        not (member p t.mesh_peers) && not (below env g p env.config.score.gossip_threshold) in
      let count = λ (n : ℕ). max env.config.gossip_lazy (env.config.gossip_part n) in
      let drawn = choose env g t.peers test count in
      if-Grows (length ids == 0) g g _ (Grows-refl g) (
        Grows-trans g drawn.1 _ (choose-Grows env shuffled g t.peers test count)
          (offer_all-Grows env drawn.1 h ids drawn.0)))

  pub emit_gossip-Grows : (g : Gossip S) (hs : List ℕ) → Grows g (emit_gossip env g hs)
  unfolding emit_gossip
  emit_gossip-Grows g [] = Grows-refl g
  emit_gossip-Grows g (h ∷ hs) =
      Grows-trans g (emit_gossip_topic env g h) _ (emit_gossip_topic-Grows g h)
        (emit_gossip-Grows (emit_gossip_topic env g h) hs)
