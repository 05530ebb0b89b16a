-- ===== src/Gossip/Router/Membership/Accepted.antt =====
-- When a GRAFT of a peer is accepted.
use leanp2p.Prelude.{
  ℕ, ◌≤◌, ◌≡◌, refl, subst, ◌∙◌, arith, Bool, true, false, not, ◌&&◌, some, ltb, ◌⊎◌, inl, inr,
  length, if-cases, if-elim, elim-option, Bool-cases,
}
use mathlib.Core.Bool.{false≢true}
use leanp2p.Prelude.Eq.{nat_eq}
use leanp2p.Prelude.Maps.{lookup, member}
use leanp2p.Gossip.Config.{mesh_n_high_for_topic}
use leanp2p.Gossip.Router.{Env, Gossip, Topic, at_peer, is_gossipsub, is_gossipsub_v1_1}
use leanp2p.Gossip.Router.Mesh.{below, join_mesh, make_prune, update_backoff, get_backoff_time}
use leanp2p.Gossip.Router.Membership.{judge_graft, on_graft}
use leanp2p.Gossip.Router.Invariant.{mesh_of, mesh_in, at_topic-rel, with_batch-Still}
use leanp2p.Gossip.Router.Invariant.Leave.{update_backoff-Still}
use leanp2p.Gossip.Router.Invariant.Incoming.{named, listed}

module _ {S R : Type 0} (env : Env S R) where
  -- The topic is subscribed to, the peer may be grafted again, the mesh has room for it or it is an
  -- outbound peer, and its score is not negative.
  pub record IsAccepted (g : Gossip S) (p h : ℕ) : Type 0 where
    pub topic : Topic
    pub entry : lookup h g.topics ≡ some topic
    pub subscribed : topic.publish_only ≡ false
    pub ready : get_backoff_time env topic p ≡ 0
    pub room :
        ((g.objects p).out ≡ true) ⊎ (length topic.mesh_peers ≤ mesh_n_high_for_topic env.config h)
    pub good : below env g p env.config.score.zero ≡ false

  pub make_prune_mesh : (g : Gossip S) (h p j : ℕ) → mesh_of (make_prune env g h p) j ≡ mesh_of g j
  unfolding make_prune
  make_prune_mesh g h p j =
      let scored : Gossip S = record g { score = env.prune g.score (g.objects p).peer_id h } in
      let limited = update_backoff env scored h p env.config.prune_backoff in
      let P = λ (s : Gossip S). mesh_of s j ≡ mesh_of g j in
      if-elim P (not (is_gossipsub (g.objects p))) g _ refl (
        if-elim P (is_gossipsub_v1_1 (g.objects p)) _ _
          ((with_batch-Still limited p _).same_mesh j
            ∙ (update_backoff-Still env scored h p env.config.prune_backoff).same_mesh j)
          ((with_batch-Still scored p _).same_mesh j))

  pub listed_mesh : (g : Gossip S) (p h j : ℕ) → mesh_of (listed g p h) j ≡ mesh_of g j
  unfolding at_peer
  listed_mesh g p h j =
      at_topic-rel (λ o o'. mesh_in o' ≡ mesh_in o) (named g p h) h _ refl (λ t. refl) (λ t e. refl)
        j

  pub judge_graft_topics :
      (g : Gossip S) (p h : ℕ) (t : Topic) → (judge_graft env g p h t).1.topics ≡ g.topics
  unfolding judge_graft
  judge_graft_topics g p h t = ground arith

  pub judge_graft-IsAccepted :
      (g : Gossip S) (p h : ℕ) (t : Topic)
      → lookup h g.topics ≡ some t
      → t.publish_only ≡ false
      → (judge_graft env g p h t).0 ≡ true
      → IsAccepted g p h
  unfolding judge_graft
  judge_graft-IsAccepted g p h t e s =
      let P = λ (x : Bool × Gossip S). x.0 ≡ true → IsAccepted g p h in
      if-cases P (ltb 0 (get_backoff_time env t p)) _ _ (λ a b. absurd (false≢true b))
        (λ a.
          if-cases P
            (not (g.objects p).out
              && ltb (mesh_n_high_for_topic env.config h) (length t.mesh_peers))
            (false, g) _ (λ b c. absurd (false≢true c))
            (λ b.
              if-cases P (below env g p env.config.score.zero) (false, g) (true, g)
                (λ c d. absurd (false≢true d))
                (λ c d. record {
                  topic = t;
                  entry = e;
                  subscribed = s;
                  ready = ground (arith, a);
                  room = elim (Bool-cases (g.objects p).out) [
                    | inl k ↦ inl k
                    | inr k ↦ inr (ground (arith, b, k))
                  ];
                  good = c;
                })))

  -- A peer whose GRAFT puts it into the mesh of a topic was in it before, or its GRAFT is acceptable in
  -- the state in which it is judged: the one in which the peer is listed with the topic.
  pub on_graft-IsAccepted :
      (g : Gossip S) (p h : ℕ)
      → member p (mesh_of (on_graft env g p h) h) ≡ true
      → (member p (mesh_of g h) ≡ true) ⊎ IsAccepted (listed g p h) p h
  unfolding on_graft
  on_graft-IsAccepted g p h =
      let g' = listed g p h in
      let P = λ (s : Gossip S).
        member p (mesh_of s h) ≡ true → (member p (mesh_of g h) ≡ true) ⊎ IsAccepted g' p h in
      let stay : P g' = λ m. inl (subst (λ s. member p s ≡ true) (listed_mesh g p h h) m) in
      elim-option (lookup h g'.topics) P (named g p h) _ (λ m. inl m)
        (λ t e.
          let judged = judge_graft env g' p h t in
          let same : judged.1.topics ≡ g'.topics = judge_graft_topics g' p h t in
          if-cases P t.publish_only g' _ (λ a. stay)
            (λ a.
              if-cases P (member p t.mesh_peers) g' _ (λ b. stay)
                (λ b.
                  if-cases P judged.0 (join_mesh env judged.1 h p) (make_prune env judged.1 h p)
                    (λ c m. inr (judge_graft-IsAccepted g' p h t e a c))
                    (λ c m. stay (
                      subst (λ ts. member p (mesh_in (lookup h ts)) ≡ true) same
                        (subst (λ s. member p s ≡ true) (make_prune_mesh judged.1 h p h) m))))))
