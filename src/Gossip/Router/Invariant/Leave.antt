-- ===== src/Gossip/Router/Invariant/Leave.antt =====
-- A peer that leaves a mesh, or all of its topics.
use leanp2p.Prelude.{
  if-elim, ℕ, ◌≡◌, refl, sym, subst, ◌∙◌, ap, arith, Bool, true, false, ◌||◌, List, [], ◌∷◌, Option,
  none, ◌==◌, ==_iff, if◌then◌else◌, inl, inr, Bool-cases, Option-cases,
}
use leanp2p.Prelude.Eq.{nat_eq}
use leanp2p.Prelude.Maps.{
  lookup, member, remove, IsUnique, member-remove, member-remove_of, member-remove_ne,
  remove-IsUnique,
}
use leanp2p.Gossip.Router.{Env, Gossip, Topic, Peer, at_topic, at_peer}
use leanp2p.Gossip.Router.Mesh.{value_or, leave_mesh, update_backoff, remove_peer_from_mesh}
use leanp2p.Gossip.Router.Membership.{on_unsubscribe}
use leanp2p.Gossip.Router.Connections.{leave_topics}
use leanp2p.Gossip.Router.Invariant.{
  peers_in, mesh_of, mesh_in, IsMeshed, Still, at_topic-Still, at_topic-rel, at_topic-at,
  keys-at_topic,
}
use leanp2p.Gossip.Router.Invariant.Mesh.{remove_peer_from_mesh-Grows}

pub other_member :
    (p q : ℕ) (s : List ℕ) → member p s ≡ false → member q s ≡ true → (p == q) ≡ false
other_member p q s a b = elim (Bool-cases (p == q)) [
  | inl k ↦ ground (arith, a, b, subst (λ x. member x s ≡ true) (sym ((==_iff p q).0 k)) b)
  | inr k ↦ k
]

pub nobody : {a b : Bool} (q : ℕ) → member q [] ≡ true → a ≡ b
unfolding member
nobody q m = ground (arith, m)

pub ==_sym : (a b : ℕ) → (a == b) ≡ (b == a)
==_sym a b = ground arith

module _ {S R : Type 0} (env : Env S R) where
  pub update_backoff-Still :
      (g : Gossip S) (h p backoff : ℕ) → Still g (update_backoff env g h p backoff)
  unfolding update_backoff
  update_backoff-Still g h p backoff = at_topic-Still g h _ (λ t. refl) (λ t. refl)

  -- What holds of the state and of the one that the peer has left holds of the result.
  pub remove_peer_from_mesh-rel :
      (P : Gossip S → Type 0) (g : Gossip S) (h p : ℕ) (backoff : Option ℕ) (always : Bool)
      → ((s : Gossip S) (slots : ℕ) → P s → P (update_backoff env s h p slots))
      → (member p (mesh_of g h) ≡ false → P g)
      → P (leave_mesh env g h p)
      → P (remove_peer_from_mesh env g h p backoff always)
  unfolding remove_peer_from_mesh member
  remove_peer_from_mesh-rel P g h p backoff always u a b = elim (Option-cases (lookup h g.topics)) [
    | inl e ↦ rw (e, remove_peer_from_mesh) (a (rw e refl))
    | inr (t, e) ↦
        let left : P (if member p t.mesh_peers then leave_mesh env g h p else g) =
          elim (Bool-cases (member p t.mesh_peers)) [
            | inl k ↦ rw k b
            | inr k ↦ rw k (a (rw e k))
          ] in
        rw (e, remove_peer_from_mesh)
          (if-elim P (always || member p t.mesh_peers) _ _
            (u (if member p t.mesh_peers then leave_mesh env g h p else g)
              (value_or backoff env.config.prune_backoff) left)
            left)
  ]

  -- The peer is in the mesh no more.
  pub remove_peer_from_mesh_lem :
      (g : Gossip S) (h p : ℕ) (backoff : Option ℕ) (always : Bool)
      → IsUnique (mesh_of g h)
      → member p (mesh_of (remove_peer_from_mesh env g h p backoff always) h) ≡ false
  unfolding leave_mesh member
  remove_peer_from_mesh_lem g h p backoff always u =
      remove_peer_from_mesh-rel (λ s. member p (mesh_of s h) ≡ false) g h p backoff always
        (λ s slots a. rw ((update_backoff-Still s h p slots).same_mesh h) a) (λ a. a)
        (at_topic-at (λ j o o'. j ≡ h → IsUnique (mesh_in o) → member p (mesh_in o') ≡ false) g h
          (λ t. record t { mesh_peers = remove p t.mesh_peers }) (λ j i v. refl)
          (λ j t n i v. absurd (n (sym i)))
          (λ t e i v. ground (arith, member-remove p p t.mesh_peers v)) h refl u)

  -- Nobody enters a mesh.
  pub remove_peer_from_mesh-member :
      (g : Gossip S) (h p : ℕ) (backoff : Option ℕ) (always : Bool) (j q : ℕ)
      → member q (mesh_of (remove_peer_from_mesh env g h p backoff always) j) ≡ true
      → member q (mesh_of g j) ≡ true
  unfolding leave_mesh
  remove_peer_from_mesh-member g h p backoff always j q =
      remove_peer_from_mesh-rel (λ s. member q (mesh_of s j) ≡ true → member q (mesh_of g j) ≡ true)
        g h p backoff always (λ s slots a. rw ((update_backoff-Still s h p slots).same_mesh j) a)
        (λ a m. m)
        (at_topic-rel (λ o o'. member q (mesh_in o') ≡ true → member q (mesh_in o) ≡ true) g h
          (λ t. record t { mesh_peers = remove p t.mesh_peers }) (λ m. m) (λ t m. m)
          (λ t e. member-remove_of q p t.mesh_peers) j)

  -- An unsubscription keeps the invariant.
  pub on_unsubscribe-IsMeshed :
      {n : ℕ} (g : Gossip S) (p h : ℕ) → IsMeshed n g → IsMeshed n (on_unsubscribe env g p h)
  unfolding on_unsubscribe at_peer at_topic remove
  on_unsubscribe-IsMeshed g p h v =
      let without = λ (t : Topic). record t { peers = remove p t.peers } in
      let unnamed = at_peer g p (λ x. record x { topics = remove h x.topics }) in
      let unlisted = at_topic unnamed h without in
      let a = remove_peer_from_mesh-Grows env unlisted h p none false in
      let same : (j : ℕ) → mesh_of unlisted j ≡ mesh_of g j =
        at_topic-rel (λ o o'. mesh_in o' ≡ mesh_in o) unnamed h without refl (λ t. refl)
          (λ t e. refl) in
      let alone : member p (mesh_of (on_unsubscribe env g p h) h) ≡ false =
        remove_peer_from_mesh_lem unlisted h p none false
          (subst (λ s. IsUnique s) (sym (same h)) (v.mesh_set h)) in
      record {
        made = a.same_next ∙ v.made;
        fresh = λ q l.
            a.same_topics q
            ∙ if-elim (λ (x : Peer). x.topics ≡ []) (q == p) _ (g.objects q)
                (ap (λ s. remove h s) (v.fresh q l)) (v.fresh q l);
        topics_set =
            subst (λ s. IsUnique s) (sym (a.same_keys ∙ keys-at_topic unnamed h without))
              v.topics_set;
        mesh_set = λ j. a.mesh_set j (subst (λ s. IsUnique s) (sym (same j)) (v.mesh_set j));
        peers_set = λ j.
            subst (λ s. IsUnique s) (sym (a.same_peers j))
              (at_topic-rel (λ o o'. IsUnique (peers_in o) → IsUnique (peers_in o')) unnamed h
                without (λ u. u) (λ t u. u) (λ t e. remove-IsUnique p t.peers) j (v.peers_set j));
        mesh = λ j q m.
            let k : member q (mesh_of g j) ≡ true =
              subst (λ s. member q s ≡ true) (same j)
                (remove_peer_from_mesh-member unlisted h p none false j q m) in
            subst (λ s. member q s ≡ true) (sym (a.same_peers j))
              (at_topic-at
                (λ j o o'.
                  (h ≡ j → (p == q) ≡ false)
                  → member q (peers_in o) ≡ true
                  → member q (peers_in o') ≡ true)
                unnamed h without (λ j n k. k) (λ j t i n k. k)
                (λ t e n. member-remove_ne q p t.peers (n refl)) j
                (λ i.
                  other_member p q (mesh_of (on_unsubscribe env g p h) h) alone
                    (subst (λ x. member q (mesh_of (on_unsubscribe env g p h) x) ≡ true) (sym i) m))
                (v.mesh j q k));
        peers = λ j q m.
            subst (λ s. member j s ≡ true) (sym (a.same_topics q))
              (at_topic-at
                (λ j o o'.
                  IsUnique (peers_in o)
                  → (member q (peers_in o) ≡ true → member j (g.objects q).topics ≡ true)
                  → member q (peers_in o') ≡ true
                  → member j (unnamed.objects q).topics ≡ true)
                unnamed h without (λ j u w k. nobody q k)
                (λ j t i u w k.
                  if-elim (λ (x : Peer). member j x.topics ≡ true) (q == p) _ (g.objects q)
                    (member-remove_ne j h (g.objects q).topics (ground (arith, i, ==_iff h j))
                      (w k))
                    (w k))
                (λ t e u w k.
                  rw
                    (==_sym q p
                      ∙ other_member p q (remove p t.peers)
                          (ground (arith, member-remove p p t.peers u)) k)
                    (w (member-remove_of q p t.peers k)))
                j (v.peers_set j) (v.peers j q)
                (subst (λ s. member q s ≡ true) (a.same_peers j) m));
      }

  -- The topics that a peer leaves lose it, in the mesh and in the set.
  pub leave_topics-IsMeshed :
      {n : ℕ} (g : Gossip S) (p : ℕ) (hs : List ℕ)
      → IsMeshed n g
      → IsMeshed n (leave_topics env g p hs)
  unfolding leave_topics at_topic
  leave_topics-IsMeshed g p [] v = v
  leave_topics-IsMeshed {n = n} g p (h ∷ hs) v =
      let f =
        λ (t : Topic). record t { peers = remove p t.peers; mesh_peers = remove p t.mesh_peers } in
      let w : IsMeshed n (at_topic g h f) = record {
        made = v.made;
        fresh = v.fresh;
        topics_set = subst (λ s. IsUnique s) (sym (keys-at_topic g h f)) v.topics_set;
        mesh_set = λ j.
            at_topic-rel (λ o o'. IsUnique (mesh_in o) → IsUnique (mesh_in o')) g h f (λ u. u)
              (λ t u. u) (λ t e. remove-IsUnique p t.mesh_peers) j (v.mesh_set j);
        peers_set = λ j.
            at_topic-rel (λ o o'. IsUnique (peers_in o) → IsUnique (peers_in o')) g h f (λ u. u)
              (λ t u. u) (λ t e. remove-IsUnique p t.peers) j (v.peers_set j);
        mesh = λ j q.
            at_topic-rel
              (λ o o'.
                IsUnique (mesh_in o)
                → (member q (mesh_in o) ≡ true → member q (peers_in o) ≡ true)
                → member q (mesh_in o') ≡ true
                → member q (peers_in o') ≡ true)
              g h f (λ u a. a) (λ t u a. a)
              (λ t e u a m.
                member-remove_ne q p t.peers
                  (other_member p q (remove p t.mesh_peers)
                    (ground (arith, member-remove p p t.mesh_peers u)) m)
                  (a (member-remove_of q p t.mesh_peers m)))
              j (v.mesh_set j) (v.mesh j q);
        peers = λ j q m. v.peers j q (
            at_topic-rel (λ o o'. member q (peers_in o') ≡ true → member q (peers_in o) ≡ true) g h
              f (λ m. m) (λ t m. m) (λ t e. member-remove_of q p t.peers) j m);
      } in
      leave_topics-IsMeshed (at_topic g h f) p hs w
