-- ===== src/Gossip/Router/Invariant/OnMessage.antt =====
-- `onMessage` keeps the sets of the topics.
use leanp2p.Prelude.{
  ◌*◌, if-elim, elim-option, ℕ, ◌<◌, suc, refl, Bool, true, false, not, List, [], ◌∷◌, ◌++◌, Option,
  none, some, ltb, if◌then◌else◌,
}
use leanp2p.Prelude.Eq.{nat_eq}
use leanp2p.Prelude.Maps.{lookup, has, insert, emplace, modify}
use leanp2p.Gossip.Promises
use leanp2p.Gossip.TimeCache.{contains, duplicate_insert}
use leanp2p.Gossip.Router.{
  Env, Gossip, Message, PbMessage, Topic, at_topic, at_peer, with_batch, is_gossipsub,
}
use leanp2p.Gossip.Router.Mesh.{below, remove_peer_from_mesh}
use leanp2p.Gossip.Router.Membership.{on_subscriptions, on_graft, on_grafts, on_prunes}
use leanp2p.Gossip.Router.Delivery.{validate, on_valid, on_publish, on_publishes}
use leanp2p.Gossip.Router.Ihave.{promise_all, want_some, handle_ihave, count_of}
use leanp2p.Gossip.Router.Incoming.{
  PbRpc, serve, serve_all, on_iwants, insert_all, on_idontwants, and_then, on_message,
}
use leanp2p.Gossip.Router.Invariant.{
  IsMeshed, Grows, Grows-refl, Grows-trans, Grows-IsMeshed, Still-Grows, at_topic-Still,
}
use leanp2p.Gossip.Router.Invariant.Mesh.{
  Reorders, with_batch-Grows, aside-Grows, if-Grows, remove_peer_from_mesh-Grows,
}
use leanp2p.Gossip.Router.Invariant.Broadcast.{broadcast-Grows}
use leanp2p.Gossip.Router.Invariant.Cycle.{at_peer-Grows}
use leanp2p.Gossip.Router.Invariant.Incoming.{on_subscriptions-IsMeshed, on_graft-IsMeshed}

module _ {S R : Type 0} (env : Env S R) where
  pub on_grafts-IsMeshed :
      {n : ℕ} (g : Gossip S) (p : ℕ) (hs : List ℕ)
      → p < n
      → IsMeshed n g
      → IsMeshed n (on_grafts env g p hs).1
  unfolding on_grafts
  on_grafts-IsMeshed g p [] b v = v
  on_grafts-IsMeshed {n = n} g p (h ∷ hs) b v =
      if-elim (λ (x : Bool × Gossip S). IsMeshed n x.1) (not (is_gossipsub (g.objects p)))
        (false, g) (on_grafts env (on_graft env g p h) p hs) v
        (on_grafts-IsMeshed (on_graft env g p h) p hs b (on_graft-IsMeshed env g p h b v))

  pub on_prunes-Grows :
      (g : Gossip S) (p : ℕ) (prunes : List (ℕ × Option ℕ)) → Grows g (on_prunes env g p prunes).1
  unfolding on_prunes
  on_prunes-Grows g p [] = Grows-refl g
  on_prunes-Grows g p ((h, backoff) ∷ prunes) =
      let next = remove_peer_from_mesh env g h p backoff true in
      if-elim (λ (x : Bool × Gossip S). Grows g x.1) (not (is_gossipsub (g.objects p))) (false, g)
        (on_prunes env next p prunes) (Grows-refl g)
        (Grows-trans g next _ (remove_peer_from_mesh-Grows env g h p backoff true)
          (on_prunes-Grows next p prunes))

  pub promise_all-Grows : (g : Gossip S) (p : ℕ) (ids : List ℕ) → Grows g (promise_all env g p ids)
  unfolding promise_all
  promise_all-Grows g p [] = Grows-refl g
  promise_all-Grows g p (message_id ∷ ids) =
      let promised : Gossip S = record g {
        promises =
            Promises.add g.promises message_id p g.now (env.config.iwant_followup_time * 1000);
      } in
      let next = with_batch promised p (λ r. record r { iwant = insert message_id r.iwant }) in
      Grows-trans g next _
        (Grows-trans g promised next (aside-Grows g promised refl refl refl)
          (with_batch-Grows promised p (λ r. record r { iwant = insert message_id r.iwant })))
        (promise_all-Grows next p ids)

  pub want_some-Grows :
      (g : Gossip S) (p : ℕ) (ihaves : List (ℕ × List ℕ)) → Grows g (want_some env g p ihaves)
  unfolding want_some
  want_some-Grows g p ihaves = if-Grows _ g g _ (Grows-refl g) (
      if-Grows _ g g _ (Grows-refl g) (
        Grows-trans g _ _ (aside-Grows g _ refl refl refl)
          (Grows-trans _ _ _ (with_batch-Grows _ p (λ r. r)) (promise_all-Grows _ p _))))

  pub handle_ihave-Grows :
      (g : Gossip S) (p : ℕ) (ihaves : List (ℕ × List ℕ)) → Grows g (handle_ihave env g p ihaves).1
  unfolding handle_ihave
  handle_ihave-Grows g p ihaves =
      let g' : Gossip S = record g {
        count_received_ihave = modify p suc (emplace p 0 g.count_received_ihave);
      } in
      let P = λ (x : Bool × Gossip S). Grows g x.1 in
      let a : Grows g g' = aside-Grows g g' refl refl refl in
      if-elim P _ (true, g) _ (Grows-refl g)
        (if-elim P (not (is_gossipsub (g.objects p))) (false, g) _ (Grows-refl g)
          (if-elim P _ (true, g') (true, want_some env g' p ihaves) a
            (Grows-trans g g' _ a (want_some-Grows g' p ihaves))))

  pub serve-Grows : (g : Gossip S) (p message_id : ℕ) → Grows g (serve env g p message_id)
  unfolding serve
  serve-Grows g p message_id =
      elim-option (lookup message_id g.message_cache) (Grows g) g _ (Grows-refl g) (λ entry e.
        let id = (g.objects p).peer_id in
        let counts = modify id suc (emplace id 0 entry.1) in
        let g' : Gossip S = record g {
          message_cache = modify message_id (λ _. (entry.0, counts)) g.message_cache;
        } in
        let a : Grows g g' = aside-Grows g g' refl refl refl in
        if-Grows (ltb env.config.gossip_retransmission (count_of id counts)) g g' _ a (
          if-Grows (contains (g.objects p).dont_send message_id) g g' _ a (
            Grows-trans g g' _ a
              (with_batch-Grows g' p (λ r. record r { publish = r.publish ++ (entry.0 ∷ []) })))))

  pub serve_all-Grows : (g : Gossip S) (p : ℕ) (ids : List ℕ) → Grows g (serve_all env g p ids)
  unfolding serve_all
  serve_all-Grows g p [] = Grows-refl g
  serve_all-Grows g p (message_id ∷ ids) =
      let next = serve env g p message_id in
      Grows-trans g next _ (serve-Grows g p message_id) (serve_all-Grows next p ids)

  pub on_iwants-Grows :
      (g : Gossip S) (p : ℕ) (iwants : List (List ℕ)) → Grows g (on_iwants env g p iwants).1
  unfolding on_iwants
  on_iwants-Grows g p [] = Grows-refl g
  on_iwants-Grows g p (ids ∷ iwants) =
      let served =
        if below env g p env.config.score.gossip_threshold then g else serve_all env g p ids in
      if-elim (λ (x : Bool × Gossip S). Grows g x.1) (not (is_gossipsub (g.objects p))) (false, g)
        (on_iwants env served p iwants) (Grows-refl g)
        (Grows-trans g served _
          (if-Grows (below env g p env.config.score.gossip_threshold) g g (serve_all env g p ids)
            (Grows-refl g) (serve_all-Grows g p ids))
          (on_iwants-Grows served p iwants))

  pub on_idontwants-Grows :
      (g : Gossip S) (p : ℕ) (idontwants : List (List ℕ))
      → Grows g (on_idontwants env g p idontwants).1
  unfolding on_idontwants
  on_idontwants-Grows g p [] = Grows-refl g
  on_idontwants-Grows g p (ids ∷ idontwants) =
      let marked =
        at_peer g p (λ x. record x { dont_send = insert_all env x.dont_send ids g.now }) in
      if-elim (λ (x : Bool × Gossip S). Grows g x.1) (not (is_gossipsub (g.objects p))) (false, g)
        (on_idontwants env marked p idontwants) (Grows-refl g)
        (Grows-trans g marked _
          (at_peer-Grows g p (λ x. record x { dont_send = insert_all env x.dont_send ids g.now })
            (λ x. refl))
          (on_idontwants-Grows marked p idontwants))

  pub and_then-IsMeshed :
      {n : ℕ} (r : Bool × Gossip S) (f : Gossip S → Bool × Gossip S)
      → IsMeshed n r.1
      → ((g : Gossip S) → IsMeshed n g → IsMeshed n (f g).1)
      → IsMeshed n (and_then env r f).1
  and_then-IsMeshed (true, g) f v w = w g v
  and_then-IsMeshed (false, g) f v w = v

module _ {S R : Type 0} (env : Env S R) (shuffled : Reorders env.shuffle) where
  pub on_valid-Grows : (g : Gossip S) (p : ℕ) (m : Message) → Grows g (on_valid env g p m)
  unfolding on_valid
  on_valid-Grows g p message =
      let id = (g.objects p).peer_id in
      let message_id = env.message_id message in
      let inserted = duplicate_insert g.duplicate_cache message_id g.now g.now in
      let g' : Gossip S = record g { duplicate_cache = inserted.0 } in
      let receive = λ (t : Topic). record t { received = t.received ++ (message ∷ []) } in
      let received = at_topic g' message.topic receive in
      let validated = env.validate_message g.score id message_id message.topic g.now in
      let delivered : Gossip S = record received {
        score = env.deliver_message validated id message_id message.topic g.now;
      } in
      let a : Grows g received = Grows-trans g g' received (aside-Grows g g' refl refl refl) (
        Still-Grows g' received
          (at_topic-Still g' message.topic receive (λ t. refl) (λ t. refl))) in
      if-Grows (not (has message.topic g.topics)) g g _ (Grows-refl g) (
        if-Grows (not inserted.1) g _ _ (aside-Grows g _ refl refl refl) (
          Grows-trans g delivered _
            (Grows-trans g received delivered a (aside-Grows received delivered refl refl refl))
            (broadcast-Grows env shuffled delivered message.topic (some id) message_id message)))

  pub on_publish-Grows : (g : Gossip S) (p : ℕ) (pb : PbMessage) → Grows g (on_publish env g p pb)
  unfolding on_publish
  on_publish-Grows g p pb = elim-option (validate env pb) (Grows g) g _ (Grows-refl g) (λ message e.
      on_valid-Grows g p (record message { received_from = some (g.objects p).peer_id }))

  pub on_publishes-Grows :
      (g : Gossip S) (p : ℕ) (pbs : List PbMessage) → Grows g (on_publishes env g p pbs)
  unfolding on_publishes
  on_publishes-Grows g p [] = Grows-refl g
  on_publishes-Grows g p (pb ∷ pbs) =
      let next = on_publish env g p pb in
      Grows-trans g next _ (on_publish-Grows g p pb) (on_publishes-Grows next p pbs)

  -- `onMessage` keeps the invariant whatever the RPC holds, for a shuffle that reorders: no mesh has a
  -- peer twice, none has a peer that the topic has not, and a peer of a topic is subscribed to it.
  pub on_message-IsMeshed :
      {n : ℕ} (g : Gossip S) (p : ℕ) (encoded : Option PbRpc)
      → p < n
      → IsMeshed n g
      → IsMeshed n (on_message env g p encoded).1
  unfolding on_message
  on_message-IsMeshed g p none b v = v
  on_message-IsMeshed {n = n} g p (some rpc) b v =
      let subscribed = on_subscriptions env g p rpc.subscriptions in
      let published = on_publishes env subscribed p rpc.publish in
      let w : IsMeshed n published =
        Grows-IsMeshed subscribed published (on_publishes-Grows subscribed p rpc.publish)
          (on_subscriptions-IsMeshed env g p rpc.subscriptions b v) in
      if-elim (λ (x : Bool × Gossip S). IsMeshed n x.1)
        (below env g p env.config.score.graylist_threshold) (true, g) _ v
        (and_then-IsMeshed env (on_grafts env published p rpc.graft) _
          (on_grafts-IsMeshed env published p rpc.graft b w)
          (λ g1 v1.
            and_then-IsMeshed env (on_prunes env g1 p rpc.prune) _
              (Grows-IsMeshed g1 _ (on_prunes-Grows env g1 p rpc.prune) v1)
              (λ g2 v2.
                and_then-IsMeshed env (handle_ihave env g2 p rpc.ihave) _
                  (Grows-IsMeshed g2 _ (handle_ihave-Grows env g2 p rpc.ihave) v2)
                  (λ g3 v3.
                    and_then-IsMeshed env (on_iwants env g3 p rpc.iwant) _
                      (Grows-IsMeshed g3 _ (on_iwants-Grows env g3 p rpc.iwant) v3)
                      (λ g4 v4.
                        Grows-IsMeshed g4 _ (on_idontwants-Grows env g4 p rpc.idontwant) v4)))))
