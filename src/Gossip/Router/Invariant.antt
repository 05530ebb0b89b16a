-- ===== src/Gossip/Router/Invariant.antt =====
-- The peers in the mesh of a topic are subscribed to it: what the handlers keep.
pub mod Mesh
pub mod Broadcast
pub mod Heartbeat
pub mod Cycle
pub mod Leave
pub mod Incoming
pub mod OnMessage
pub mod Connections
pub mod Reached
use leanp2p.Prelude.{
  ℕ, ◌≤◌, ◌≡◌, ◌≢◌, refl, sym, subst, ◌∙◌, arith, true, List, [], none, some, ◌==◌, ◌⊎◌, inl, inr,
  Option, Bool-cases, Option-cases, ==_iff,
}
use leanp2p.Prelude.Eq.{nat_eq}
use leanp2p.Prelude.Maps.{lookup, member, keys, lookup-modify, keys-modify, IsUnique}
use leanp2p.Gossip.Router.{Gossip, Topic, Rpc, at_topic, with_batch}

-- The two sets of a topic, empty where there is no such topic.
abbrev pub mesh_in : Option Topic → List ℕ
mesh_in none = []
mesh_in (some t) = t.mesh_peers

abbrev pub peers_in : Option Topic → List ℕ
peers_in none = []
peers_in (some t) = t.peers

module _ {S : Type 0} where
  abbrev pub mesh_of : Gossip S → ℕ → List ℕ
  mesh_of g h = mesh_in (lookup h g.topics)

  abbrev pub peers_of : Gossip S → ℕ → List ℕ
  peers_of g h = peers_in (lookup h g.topics)

  -- The objects that are not made yet are without topics; `n` are made.
  pub record IsMeshed (n : ℕ) (g : Gossip S) : Type 0 where
    pub made : g.next_object ≡ n
    pub fresh : (q : ℕ) → n ≤ q → (g.objects q).topics ≡ []
    pub topics_set : IsUnique (keys g.topics)
    pub mesh_set : (h : ℕ) → IsUnique (mesh_of g h)
    pub peers_set : (h : ℕ) → IsUnique (peers_of g h)
    pub mesh : (h p : ℕ) → member p (mesh_of g h) ≡ true → member p (peers_of g h) ≡ true
    pub peers : (h p : ℕ) → member p (peers_of g h) ≡ true → member h (g.objects p).topics ≡ true

  -- A step that leaves the subscriptions alone, and adds to a mesh only peers of the topic.
  pub record Grows (g g' : Gossip S) : Type 0 where
    pub same_next : g'.next_object ≡ g.next_object
    pub same_keys : keys g'.topics ≡ keys g.topics
    pub mesh_set : (h : ℕ) → IsUnique (mesh_of g h) → IsUnique (mesh_of g' h)
    pub same_peers : (h : ℕ) → peers_of g' h ≡ peers_of g h
    pub same_topics : (p : ℕ) → (g'.objects p).topics ≡ (g.objects p).topics
    pub mesh :
        (h p : ℕ)
        → member p (mesh_of g' h) ≡ true
        → (member p (mesh_of g h) ≡ true) ⊎ (member p (peers_of g h) ≡ true)

  pub Grows-refl : (g : Gossip S) → Grows g g
  Grows-refl g = record {
    same_next = refl;
    same_keys = refl;
    mesh_set = λ h u. u;
    same_peers = λ h. refl;
    same_topics = λ p. refl;
    mesh = λ h p m. inl m;
  }

  pub Grows-trans : (g g' g'' : Gossip S) → Grows g g' → Grows g' g'' → Grows g g''
  Grows-trans g g' g'' a b = record {
    same_next = b.same_next ∙ a.same_next;
    same_keys = b.same_keys ∙ a.same_keys;
    mesh_set = λ h u. b.mesh_set h (a.mesh_set h u);
    same_peers = λ h. b.same_peers h ∙ a.same_peers h;
    same_topics = λ p. b.same_topics p ∙ a.same_topics p;
    mesh = λ h p m. elim (b.mesh h p m) [
      | inl k ↦ a.mesh h p k
      | inr k ↦ inr (rw (sym (a.same_peers h)) k)
    ];
  }

  pub Grows-IsMeshed : {n : ℕ} (g g' : Gossip S) → Grows g g' → IsMeshed n g → IsMeshed n g'
  Grows-IsMeshed g g' a v = record {
    made = a.same_next ∙ v.made;
    fresh = λ q l. a.same_topics q ∙ v.fresh q l;
    topics_set = subst (λ s. IsUnique s) (sym a.same_keys) v.topics_set;
    mesh_set = λ h. a.mesh_set h (v.mesh_set h);
    peers_set = λ h. subst (λ s. IsUnique s) (sym (a.same_peers h)) (v.peers_set h);
    mesh = λ h p m. elim (a.mesh h p m) [
      | inl k ↦ rw (a.same_peers h) (v.mesh h p k)
      | inr k ↦ rw (a.same_peers h) k
    ];
    peers = λ h p m. rw (a.same_topics p) (v.peers h p (rw (sym (a.same_peers h)) m));
  }

  -- A step that does not touch a set of a topic, nor the topics of a peer.
  pub record Still (g g' : Gossip S) : Type 0 where
    pub same_next : g'.next_object ≡ g.next_object
    pub same_keys : keys g'.topics ≡ keys g.topics
    pub same_mesh : (h : ℕ) → mesh_of g' h ≡ mesh_of g h
    pub same_peers : (h : ℕ) → peers_of g' h ≡ peers_of g h
    pub same_topics : (p : ℕ) → (g'.objects p).topics ≡ (g.objects p).topics

  pub Still-Grows : (g g' : Gossip S) → Still g g' → Grows g g'
  Still-Grows g g' a = record {
    same_next = a.same_next;
    same_keys = a.same_keys;
    mesh_set = λ h u. subst (λ s. IsUnique s) (sym (a.same_mesh h)) u;
    same_peers = a.same_peers;
    same_topics = a.same_topics;
    mesh = λ h p m. inl (rw (sym (a.same_mesh h)) m);
  }

  pub with_batch-Still : (g : Gossip S) (p : ℕ) (f : Rpc → Rpc) → Still g (with_batch g p f)
  unfolding with_batch
  with_batch-Still g p f = record {
    same_next = refl;
    same_keys = refl;
    same_mesh = λ h. refl;
    same_peers = λ h. refl;
    same_topics = λ q. ground arith;
  }

  -- What holds of a topic before and after a write holds of every lookup.
  pub at_topic-at :
      (P : ℕ → Option Topic → Option Topic → Type 0) (g : Gossip S) (h : ℕ) (f : Topic → Topic)
      → ((j : ℕ) → P j none none)
      → ((j : ℕ) (t : Topic) → h ≢ j → P j (some t) (some t))
      → ((t : Topic) → lookup h g.topics ≡ some t → P h (some t) (some (f t)))
      → (j : ℕ) → P j (lookup j g.topics) (lookup j (at_topic g h f).topics)
  unfolding at_topic
  at_topic-at P g h f n s w j =
      rw (lookup-modify j h f g.topics) (elim (Option-cases (lookup j g.topics)) [
        | inl e ↦ rw e (n j)
        | inr (t, e) ↦ elim (Bool-cases (h == j)) [
          | inl k ↦
              let i = (==_iff h j).0 k in
              rw (e, k)
                (subst (λ i. P i (some t) (some (f t))) i
                  (w t (subst (λ i. lookup i g.topics ≡ some t) (sym i) e)))
          | inr k ↦ rw (e, k) (s j t (ground (arith, ==_iff h j)))
        ]
      ])

  pub keys-at_topic :
      (g : Gossip S) (h : ℕ) (f : Topic → Topic) → keys (at_topic g h f).topics ≡ keys g.topics
  unfolding at_topic
  keys-at_topic g h f = keys-modify h f g.topics

  pub at_topic-rel :
      (P : Option Topic → Option Topic → Type 0) (g : Gossip S) (h : ℕ) (f : Topic → Topic)
      → P none none
      → ((t : Topic) → P (some t) (some t))
      → ((t : Topic) → lookup h g.topics ≡ some t → P (some t) (some (f t)))
      → (j : ℕ) → P (lookup j g.topics) (lookup j (at_topic g h f).topics)
  at_topic-rel P g h f n s w = at_topic-at (λ j. P) g h f (λ j. n) (λ j t k. s t) w

  -- A write to a topic that leaves its two sets alone.
  pub at_topic-Still :
      (g : Gossip S) (h : ℕ) (f : Topic → Topic)
      → ((t : Topic) → (f t).mesh_peers ≡ t.mesh_peers)
      → ((t : Topic) → (f t).peers ≡ t.peers)
      → Still g (at_topic g h f)
  unfolding at_topic
  at_topic-Still g h f a b = record {
    same_next = refl;
    same_keys = keys-modify h f g.topics;
    same_mesh = at_topic-rel (λ o o'. mesh_in o' ≡ mesh_in o) g h f refl (λ t. refl) (λ t e. a t);
    same_peers =
        at_topic-rel (λ o o'. peers_in o' ≡ peers_in o) g h f refl (λ t. refl) (λ t e. b t);
    same_topics = λ q. refl;
  }

  -- A write to a mesh that adds only peers of the topic.
  pub at_topic-Grows :
      (g : Gossip S) (h : ℕ) (f : Topic → Topic)
      → ((t : Topic) → (f t).peers ≡ t.peers)
      → ((t : Topic) → IsUnique t.mesh_peers → IsUnique (f t).mesh_peers)
      → ((t : Topic) (p : ℕ)
          → lookup h g.topics ≡ some t
          → member p (f t).mesh_peers ≡ true
          → (member p t.mesh_peers ≡ true) ⊎ (member p t.peers ≡ true))
      → Grows g (at_topic g h f)
  unfolding at_topic
  at_topic-Grows g h f a u b = record {
    same_next = refl;
    same_keys = keys-modify h f g.topics;
    mesh_set =
        at_topic-rel (λ o o'. IsUnique (mesh_in o) → IsUnique (mesh_in o')) g h f (λ v. v)
          (λ t v. v) (λ t e. u t);
    same_peers =
        at_topic-rel (λ o o'. peers_in o' ≡ peers_in o) g h f refl (λ t. refl) (λ t e. a t);
    same_topics = λ q. refl;
    mesh =
        at_topic-rel
          (λ o o'.
            (p : ℕ)
            → member p (mesh_in o') ≡ true
            → (member p (mesh_in o) ≡ true) ⊎ (member p (peers_in o) ≡ true))
          g h f (λ p m. inl m) (λ t p m. inl m) (λ t e p. b t p e);
  }
