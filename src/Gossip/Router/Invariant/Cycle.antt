-- ===== src/Gossip/Router/Invariant/Cycle.antt =====
-- A whole heartbeat: the ring of backoffs and the topics that it gives up, the maintenance, and the
-- caches.
use leanp2p.Prelude.{
  ℕ, ◌-◌, ◌*◌, ◌≡◌, refl, sym, subst, ◌∙◌, ap, arith, true, not, ◌||◌, List, [], ◌∷◌, Option, none,
  some, ltb, ◌==◌, ==_iff, ◌⊎◌, inl, inr, Bool-cases,
}
use leanp2p.Prelude.Eq.{nat_eq}
use leanp2p.Prelude.Maps.{lookup, member, keys, IsUnique, lookup-absent}
use leanp2p.Gossip.Backoff
use leanp2p.Gossip.History
use leanp2p.Gossip.TimeCache
use leanp2p.Gossip.Router.{Env, Gossip, Topic, Peer, at_peer}
use leanp2p.Gossip.Router.Heartbeat.{
  each_topic, apply_iwant_penalties, retain_topics, maintain_all, emit_gossip, clear_dont_send,
  begin_heartbeat, end_heartbeat, heartbeat, forget,
}
use leanp2p.Gossip.Router.Invariant.{
  peers_in, mesh_of, mesh_in, IsMeshed, Grows, Grows-refl, Grows-trans, Grows-IsMeshed,
}
use leanp2p.Gossip.Router.Invariant.Mesh.{Reorders}
use leanp2p.Gossip.Router.Invariant.Heartbeat.{maintain_all-Grows, emit_gossip-Grows}

pub each_topic-keys : (f : Topic → Topic) (ts : List (ℕ × Topic)) → keys (each_topic f ts) ≡ keys ts
each_topic-keys f [] = refl
each_topic-keys f ((h, t) ∷ ts) = ap (λ l. h ∷ l) (each_topic-keys f ts)

pub each_topic-rel :
    (P : Option Topic → Option Topic → Type 0) (f : Topic → Topic)
    → P none none
    → ((t : Topic) → P (some t) (some (f t)))
    → (ts : List (ℕ × Topic)) (j : ℕ) → P (lookup j ts) (lookup j (each_topic f ts))
unfolding lookup
each_topic-rel P f n w [] j = n
each_topic-rel P f n w ((h, t) ∷ ts) j = elim (Bool-cases (h == j)) [
  | inl e ↦ rw e (w t)
  | inr e ↦ rw e (each_topic-rel P f n w ts j)
]

module _ {S : Type 0} where
  pub each_topic-Grows :
      (g g' : Gossip S) (f : Topic → Topic)
      → ((t : Topic) → (f t).mesh_peers ≡ t.mesh_peers)
      → ((t : Topic) → (f t).peers ≡ t.peers)
      → g'.topics ≡ each_topic f g.topics
      → g'.objects ≡ g.objects
      → g'.next_object ≡ g.next_object
      → Grows g g'
  each_topic-Grows g g' f a b e o n0 =
      let mesh : (h : ℕ) → mesh_of g' h ≡ mesh_of g h =
        λ h. rw e (each_topic-rel (λ o o'. mesh_in o' ≡ mesh_in o) f refl a g.topics h) in
      record {
        same_next = n0;
        same_keys = ap keys e ∙ each_topic-keys f g.topics;
        mesh_set = λ h u. subst (λ s. IsUnique s) (sym (mesh h)) u;
        same_peers =
            λ h. rw e (each_topic-rel (λ o o'. peers_in o' ≡ peers_in o) f refl b g.topics h);
        same_topics = λ p. rw o;
        mesh = λ h p m. inl (rw (sym (mesh h)) m);
      }

  pub at_peer-Grows :
      (g : Gossip S) (p : ℕ) (f : Peer → Peer)
      → ((x : Peer) → (f x).topics ≡ x.topics)
      → Grows g (at_peer g p f)
  unfolding at_peer
  at_peer-Grows g p f a = record {
    same_next = refl;
    same_keys = refl;
    mesh_set = λ h u. u;
    same_peers = λ h. refl;
    same_topics = λ q. ground (arith, a (g.objects q));
    mesh = λ h q m. inl m;
  }

module _ {S R : Type 0} (env : Env S R) where
  pub retain_topics-member :
      (now j : ℕ) (ts : List (ℕ × Topic))
      → member j (keys (retain_topics env now ts)) ≡ true
      → member j (keys ts) ≡ true
  unfolding retain_topics member
  retain_topics-member now j [] m = m
  retain_topics-member now j ((h, t) ∷ ts) m = ground (arith, retain_topics-member now j ts)

  pub retain_topics-IsUnique :
      (now : ℕ) (ts : List (ℕ × Topic))
      → IsUnique (keys ts)
      → IsUnique (keys (retain_topics env now ts))
  unfolding retain_topics
  retain_topics-IsUnique now [] u = tt
  retain_topics-IsUnique now ((h, t) ∷ ts) u =
      ground (arith, retain_topics-member now h ts, u.0, retain_topics-IsUnique now ts u.1)

  -- A topic that is there afterwards is the one that was.
  pub lookup-retain_topics :
      (now j : ℕ) (ts : List (ℕ × Topic))
      → IsUnique (keys ts)
      → (lookup j (retain_topics env now ts) ≡ lookup j ts)
        ⊎ (lookup j (retain_topics env now ts) ≡ none)
  unfolding retain_topics lookup
  lookup-retain_topics now j [] u = inl refl
  lookup-retain_topics now j ((h, t) ∷ ts) u =
      let kept = not t.publish_only || ltb (now - t.last_publish) (env.config.fanout_ttl * 1000) in
      elim (Bool-cases (h == j)) [
        | inl e ↦ elim (Bool-cases kept) [
          | inl k ↦ inl (rw (k, e) refl)
          | inr k ↦ inr (
              rw k (
                lookup-absent j (retain_topics env now ts)
                  (ground (arith, (==_iff h j).0 e, u.0, retain_topics-member now h ts))))
        ]
        | inr e ↦ elim (Bool-cases kept) [
          | inl k ↦ rw k (rw e (lookup-retain_topics now j ts u.1))
          | inr k ↦ rw k (rw e (lookup-retain_topics now j ts u.1))
        ]
      ]

  -- What holds of no topic and of the topic before holds of the topic afterwards.
  pub retain_topics-rel :
      (P : Option Topic → Type 0) (now j : ℕ) (ts : List (ℕ × Topic))
      → IsUnique (keys ts)
      → P none
      → P (lookup j ts)
      → P (lookup j (retain_topics env now ts))
  retain_topics-rel P now j ts u n w = elim (lookup-retain_topics now j ts u) [
    | inl e ↦ subst P (sym e) w
    | inr e ↦ subst P (sym e) n
  ]

  pub retain-IsMeshed :
      {n : ℕ} (g g' : Gossip S) (now : ℕ)
      → g'.topics ≡ retain_topics env now g.topics
      → g'.objects ≡ g.objects
      → g'.next_object ≡ g.next_object
      → IsMeshed n g
      → IsMeshed n g'
  unfolding member
  retain-IsMeshed g g' now e o n0 v = record {
    made = n0 ∙ v.made;
    fresh = λ q l. rw o (v.fresh q l);
    topics_set =
        subst (λ ts. IsUnique (keys ts)) (sym e) (retain_topics-IsUnique now g.topics v.topics_set);
    mesh_set = λ h. rw e (
        retain_topics-rel (λ o. IsUnique (mesh_in o)) now h g.topics v.topics_set tt
          (v.mesh_set h));
    peers_set = λ h. rw e (
        retain_topics-rel (λ o. IsUnique (peers_in o)) now h g.topics v.topics_set tt
          (v.peers_set h));
    mesh = λ h p. rw e (
        retain_topics-rel (λ o. member p (mesh_in o) ≡ true → member p (peers_in o) ≡ true) now h
          g.topics v.topics_set (λ m. m) (v.mesh h p));
    peers = λ h p.
        rw (e, o)
          (retain_topics-rel
            (λ o. member p (peers_in o) ≡ true → member h (g.objects p).topics ≡ true) now h
            g.topics v.topics_set (λ m. ground (arith, m)) (v.peers h p));
  }

module _ {S : Type 0} where
  pub clear_dont_send-Grows : (g : Gossip S) (ps : List (ℕ × ℕ)) → Grows g (clear_dont_send g ps)
  unfolding clear_dont_send
  clear_dont_send-Grows g [] = Grows-refl g
  clear_dont_send-Grows g ((id, p) ∷ ps) =
      let next =
        at_peer g p (λ x. record x { dont_send = TimeCache.clear_expired x.dont_send g.now }) in
      Grows-trans g next _
        (at_peer-Grows g p (λ x. record x { dont_send = TimeCache.clear_expired x.dont_send g.now })
          (λ x. refl))
        (clear_dont_send-Grows next ps)

  pub end_heartbeat-Grows : (g : Gossip S) → Grows g (end_heartbeat g)
  unfolding end_heartbeat
  end_heartbeat-Grows g =
      let shifted : Gossip S = record g {
        message_cache = forget g.topics g.message_cache;
        topics = each_topic (λ t. record t { history = (History.shift t.history).1 }) g.topics;
      } in
      Grows-trans g shifted _
        (each_topic-Grows g shifted (λ t. record t { history = (History.shift t.history).1 })
          (λ t. refl) (λ t. refl) refl refl refl)
        (clear_dont_send-Grows shifted g.peers)

module _ {S R : Type 0} (env : Env S R) where
  pub begin_heartbeat-IsMeshed :
      {n : ℕ} (g : Gossip S) → IsMeshed n g → IsMeshed n (begin_heartbeat env g)
  unfolding begin_heartbeat apply_iwant_penalties
  begin_heartbeat-IsMeshed g v =
      let shifted : Gossip S = record g {
        topics = each_topic (λ t. record t { backoff = Backoff.shift t.backoff }) g.topics;
      } in
      let w =
        Grows-IsMeshed g shifted
          (each_topic-Grows g shifted (λ t. record t { backoff = Backoff.shift t.backoff })
            (λ t. refl) (λ t. refl) refl refl refl)
          v in
      retain-IsMeshed env shifted (begin_heartbeat env g) g.now refl refl refl w

module _ {S R : Type 0} (env : Env S R) (shuffled : Reorders env.shuffle) where
  -- A heartbeat keeps the invariant, for a shuffle that reorders: no mesh has a peer twice, none has a
  -- peer that the topic has not, and a peer of a topic is subscribed to it.
  pub heartbeat-IsMeshed : {n : ℕ} (g : Gossip S) → IsMeshed n g → IsMeshed n (heartbeat env g)
  unfolding heartbeat
  heartbeat-IsMeshed g v =
      let begun = begin_heartbeat env g in
      let maintained = maintain_all env begun (keys begun.topics) in
      let gossiped = emit_gossip env maintained (keys maintained.topics) in
      Grows-IsMeshed begun _
        (Grows-trans begun maintained _ (maintain_all-Grows env shuffled begun (keys begun.topics))
          (Grows-trans maintained gossiped _
            (emit_gossip-Grows env shuffled maintained (keys maintained.topics))
            (end_heartbeat-Grows gossiped)))
        (begin_heartbeat-IsMeshed env g v)
