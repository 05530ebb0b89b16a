-- ===== src/Gossip/Router/Invariant/Mesh.antt =====
-- What the operations on the mesh do to the sets of a topic.
use leanp2p.Prelude.{
  ℕ, ◌≡◌, refl, sym, subst, ◌∙◌, arith, Bool, true, false, ◌&&◌, ◌||◌, List, [], ◌∷◌, Option, none,
  some, if◌then◌else◌, ◌⊎◌, inl, inr, length, Bool-cases, ◌==◌, ==_iff,
}
use leanp2p.Prelude.Eq.{nat_eq}
use leanp2p.Prelude.Maps.{
  lookup, member, insert, remove, member-insert, member-remove_of, insert-IsUnique, remove-IsUnique,
  member-take,
}
use leanp2p.Gossip.Router.{Env, Gossip, Topic, Rpc, at_topic, with_batch, is_gossipsub, subscribe}
use leanp2p.Gossip.Router.Mesh.{
  keep, update_backoff, join_mesh, graft, make_prune, leave_mesh, remove_peer_from_mesh, choose,
  graft_all, regraft, announce_all, fill_mesh, fill_mesh_to, may_join,
}
use leanp2p.Gossip.Router.Invariant.{
  peers_of, peers_in, Grows, Grows-refl, Grows-trans, Still-Grows, with_batch-Still, at_topic-Still,
  at_topic-Grows,
}

pub member-keep :
    (test : ℕ → Bool) (x : ℕ) (xs : List ℕ)
    → member x (keep test xs) ≡ true
    → (member x xs ≡ true) × (test x ≡ true)
unfolding keep member
member-keep test x [] h = ground arith
member-keep test x (y ∷ xs) h = ground (arith, member-keep test x xs, ==_iff y x)

-- What `std::shuffle` leaves: the elements of the list, in another order.
abbrev pub Reorders : (ℕ → List ℕ → List ℕ) → Type 0
Reorders shuffle =
    (r : ℕ) (xs : List ℕ)
    → (length (shuffle r xs) ≡ length xs) × ((x : ℕ) → member x (shuffle r xs) ≡ member x xs)

pub insert_cases :
    (p q : ℕ) (s t : List ℕ)
    → member p t ≡ true
    → member q (insert p s) ≡ true
    → (member q s ≡ true) ⊎ (member q t ≡ true)
insert_cases p q s t m k = elim (Bool-cases (p == q)) [
  | inl e ↦ inr (subst (λ x. member x t ≡ true) ((==_iff p q).0 e) m)
  | inr e ↦ inl (ground (arith, member-insert q p s))
]

pub member-head : (p : ℕ) (ps : List ℕ) → member p (p ∷ ps) ≡ true
unfolding member
member-head p ps = ground arith

pub member-tail : (q p : ℕ) (ps : List ℕ) → member q ps ≡ true → member q (p ∷ ps) ≡ true
unfolding member
member-tail q p ps k = ground arith

module _ {S : Type 0} where
  pub with_batch-Grows : (g : Gossip S) (p : ℕ) (f : Rpc → Rpc) → Grows g (with_batch g p f)
  with_batch-Grows g p f = Still-Grows g (with_batch g p f) (with_batch-Still g p f)

  -- A step that touches neither topics nor peer objects.
  pub aside-Grows :
      (g g' : Gossip S)
      → g'.next_object ≡ g.next_object
      → g'.topics ≡ g.topics
      → g'.objects ≡ g.objects
      → Grows g g'
  aside-Grows g g' n e o = record {
    same_next = n;
    same_keys = rw e;
    mesh_set = λ h u. rw e u;
    same_peers = λ h. rw e;
    same_topics = λ p. rw o;
    mesh = λ h p m. inl (rw (sym e) m);
  }

  -- A mesh that loses peers.
  pub shrink-Grows :
      (g : Gossip S) (h p : ℕ)
      → Grows g (at_topic g h (λ t. record t { mesh_peers = remove p t.mesh_peers }))
  shrink-Grows g h p =
      at_topic-Grows g h _ (λ t. refl) (λ t. remove-IsUnique p t.mesh_peers)
        (λ t q e m. inl (member-remove_of q p t.mesh_peers m))

  -- One peer that the topic has is put into its mesh.
  pub put-Grows :
      (g : Gossip S) (h p : ℕ)
      → member p (peers_of g h) ≡ true
      → Grows g (at_topic g h (λ t. record t { mesh_peers = insert p t.mesh_peers }))
  put-Grows g h p m =
      at_topic-Grows g h _ (λ t. refl) (λ t. insert-IsUnique p t.mesh_peers)
        (λ t q e.
          insert_cases p q t.mesh_peers t.peers (subst (λ o. member p (peers_in o) ≡ true) e m))

  pub elim-Grows :
      (o : Option Topic) (g x : Gossip S) (f : Topic → Gossip S)
      → Grows g x
      → ((t : Topic) → o ≡ some t → Grows g (f t))
      → Grows g (elim o [ none ↦ x | some t ↦ f t ])
  elim-Grows none g x f a b = a
  elim-Grows (some t) g x f a b = b t refl

  pub if-Grows :
      (b : Bool) (g x y : Gossip S) → Grows g x → Grows g y → Grows g (if b then x else y)
  if-Grows true g x y a c = a
  if-Grows false g x y a c = c

module _ {S R : Type 0} (env : Env S R) where
  pub update_backoff-Grows :
      (g : Gossip S) (h p backoff : ℕ) → Grows g (update_backoff env g h p backoff)
  unfolding update_backoff
  update_backoff-Grows g h p backoff =
      Still-Grows _ _ (at_topic-Still g h _ (λ t. refl) (λ t. refl))

  pub join_mesh-Grows :
      (g : Gossip S) (h p : ℕ) → member p (peers_of g h) ≡ true → Grows g (join_mesh env g h p)
  unfolding join_mesh
  join_mesh-Grows g h p m =
      let add = λ (t : Topic). record t { mesh_peers = insert p t.mesh_peers } in
      Grows-trans g (at_topic g h add) _ (put-Grows g h p m) (aside-Grows _ _ refl refl refl)

  pub graft-Grows :
      (g : Gossip S) (h p : ℕ) → member p (peers_of g h) ≡ true → Grows g (graft env g h p)
  unfolding graft
  graft-Grows g h p m =
      Grows-trans g (join_mesh env g h p) _ (join_mesh-Grows g h p m)
        (with_batch-Grows (join_mesh env g h p) p _)

  pub make_prune-Grows : (g : Gossip S) (h p : ℕ) → Grows g (make_prune env g h p)
  unfolding make_prune
  make_prune-Grows g h p =
      let scored : Gossip S = record g { score = env.prune g.score (g.objects p).peer_id h } in
      let aside = aside-Grows g scored refl refl refl in
      if-Grows _ g _ _ (Grows-refl g) (
        if-Grows _ g _ _
          (Grows-trans g scored _ aside (
            Grows-trans scored (update_backoff env scored h p env.config.prune_backoff) _
              (update_backoff-Grows scored h p env.config.prune_backoff) (with_batch-Grows _ p _)))
          (Grows-trans g scored _ aside (with_batch-Grows scored p _)))

  pub leave_mesh-Grows : (g : Gossip S) (h p : ℕ) → Grows g (leave_mesh env g h p)
  unfolding leave_mesh
  leave_mesh-Grows g h p =
      Grows-trans g _ _ (shrink-Grows g h p) (aside-Grows _ (leave_mesh env g h p) refl refl refl)

  pub remove_peer_from_mesh-Grows :
      (g : Gossip S) (h p : ℕ) (backoff : Option ℕ) (always : Bool)
      → Grows g (remove_peer_from_mesh env g h p backoff always)
  unfolding remove_peer_from_mesh
  remove_peer_from_mesh-Grows g h p backoff always =
      elim-Grows (lookup h g.topics) g g _ (Grows-refl g) (λ t e.
        let g' = if member p t.mesh_peers then leave_mesh env g h p else g in
        let left = if-Grows (member p t.mesh_peers) g _ g (leave_mesh-Grows g h p) (Grows-refl g) in
        if-Grows (always || member p t.mesh_peers) g _ g'
          (Grows-trans g g' _ left (update_backoff-Grows g' h p _)) left)

  -- Grafts of peers that the topic has.
  pub graft_all-Grows :
      (g : Gossip S) (h : ℕ) (ps : List ℕ)
      → ((p : ℕ) → member p ps ≡ true → member p (peers_of g h) ≡ true)
      → Grows g (graft_all env g h ps)
  unfolding graft_all
  graft_all-Grows g h [] m = Grows-refl g
  graft_all-Grows g h (p ∷ ps) m =
      let a = graft-Grows g h p (m p (member-head p ps)) in
      Grows-trans g (graft env g h p) _ a (
        graft_all-Grows (graft env g h p) h ps (λ q k.
          subst (λ s. member q s ≡ true) (sym (a.same_peers h)) (m q (member-tail q p ps k))))

  pub announce_all-Grows : (g : Gossip S) (h : ℕ) (ps : List ℕ) → Grows g (announce_all env g h ps)
  unfolding announce_all
  announce_all-Grows g h [] = Grows-refl g
  announce_all-Grows g h (p ∷ ps) =
      let g' = with_batch g p (subscribe h true) in
      Grows-trans g g' _ (with_batch-Grows g p _)
        (announce_all-Grows (with_batch g p (subscribe h true)) h ps)

module _ {S R : Type 0} (env : Env S R) (shuffled : Reorders env.shuffle) where
  pub choose_lem :
      (g : Gossip S) (all : List ℕ) (test : ℕ → Bool) (count : ℕ → ℕ) (p : ℕ)
      → member p (choose env g all test count).0 ≡ true
      → member p all ≡ true
  unfolding choose
  choose_lem g all test count p m =
      let chosen = keep (λ p. is_gossipsub (g.objects p) && test p) all in
      (member-keep _ p all
        (sym ((shuffled g.random chosen).1 p) ∙ member-take p (count (length chosen)) _ m)).0

  pub choose-Grows :
      (g : Gossip S) (all : List ℕ) (test : ℕ → Bool) (count : ℕ → ℕ)
      → Grows g (choose env g all test count).1
  unfolding choose
  choose-Grows g all test count = aside-Grows g _ refl refl refl

  pub graft_chosen-Grows :
      (g : Gossip S) (h : ℕ) (t : Topic) (test : ℕ → Bool) (count : ℕ → ℕ)
      → lookup h g.topics ≡ some t
      → Grows g
          (graft_all env (choose env g t.peers test count).1 h (choose env g t.peers test count).0)
  graft_chosen-Grows g h t test count e =
      let drawn = choose env g t.peers test count in
      let a = choose-Grows g t.peers test count in
      Grows-trans g drawn.1 _ a (
        graft_all-Grows env drawn.1 h drawn.0 (λ p m.
          subst (λ s. member p s ≡ true) (sym (a.same_peers h))
            (rw e (choose_lem g t.peers test count p m))))

  pub fill_mesh-Grows :
      (g : Gossip S) (h : ℕ) (test : Gossip S → Topic → ℕ → Bool) (more : ℕ)
      → Grows g (fill_mesh env g h test more)
  unfolding fill_mesh
  fill_mesh-Grows g h test more =
      elim-Grows (lookup h g.topics) g g _ (Grows-refl g)
        (λ t e. graft_chosen-Grows g h t (test g t) (λ _. more) e)

  pub fill_mesh_to-Grows :
      (g : Gossip S) (h : ℕ) (test : Gossip S → Topic → ℕ → Bool) (wanted : ℕ)
      → Grows g (fill_mesh_to env g h test wanted)
  unfolding fill_mesh_to
  fill_mesh_to-Grows g h test wanted =
      elim-Grows (lookup h g.topics) g g _ (Grows-refl g)
        (λ t e. if-Grows _ g _ _ (fill_mesh-Grows g h test _) (Grows-refl g))

  -- The grafts of the mesh that a publish only topic had.
  pub regraft-Grows :
      (g : Gossip S) (h : ℕ) (ps : List ℕ)
      → ((p : ℕ) → member p ps ≡ true → member p (peers_of g h) ≡ true)
      → Grows g (regraft env g h ps)
  unfolding regraft
  regraft-Grows g h [] m = Grows-refl g
  regraft-Grows g h (p ∷ ps) m = elim-Grows (lookup h g.topics) g g _ (Grows-refl g) (λ t e.
      let next = if may_join env g t p then graft env g h p else g in
      let a : Grows g next =
        if-Grows (may_join env g t p) g _ g (graft-Grows env g h p (m p (member-head p ps)))
          (Grows-refl g) in
      if-Grows _ g g _ (Grows-refl g) (
        Grows-trans g next _ a (
          regraft-Grows (if may_join env g t p then graft env g h p else g) h ps (λ q k.
            subst (λ s. member q s ≡ true) (sym (a.same_peers h)) (m q (member-tail q p ps k))))))
