-- ===== src/Gossip/Router/Invariant/Reached.antt =====
-- The invariant holds in every state that the router reaches.
use leanp2p.Prelude.{
  if-elim, elim-option, ℕ, ◌≡◌, refl, sym, subst, arith, Bool, true, false, List, [], Option, none,
  some, ◌==◌, ==_iff, inl, inr, Bool-cases, length,
}
use leanp2p.Prelude.Eq.{nat_eq}
use leanp2p.Prelude.Maps.{lookup, member, insert, remove}
use leanp2p.Gossip.Router.{Env, Gossip, Peer, at_peer}
use leanp2p.Gossip.Router.Topics.{subscribe_topic}
use leanp2p.Gossip.Router.Connections.{
  new_peer, find_or_add, update_peer_kind, open_stream_in, close_stream_in, on_peer_connected,
  on_stream_out, subscribe_all, take_batch, fail_write,
}
use leanp2p.Gossip.Router.Incoming.{PbRpc}
use leanp2p.Gossip.Router.Reach.{
  Step, message, tick, join, send, inbound, closed, connected, outbound, disconnected, taken,
  failed, decay, clock, IsInitial, Reach, start, later,
}
use leanp2p.Gossip.Router.Invariant.{IsMeshed, Grows, Grows-trans, Grows-IsMeshed}
use leanp2p.Gossip.Router.Invariant.Mesh.{Reorders, with_batch-Grows, aside-Grows, if-Grows}
use leanp2p.Gossip.Router.Invariant.Cycle.{at_peer-Grows, heartbeat-IsMeshed}
use leanp2p.Gossip.Router.Invariant.Leave.{nobody}
use leanp2p.Gossip.Router.Invariant.OnMessage.{on_message-IsMeshed}
use leanp2p.Gossip.Router.Invariant.Connections.{
  get_or_create_topic-IsMeshed, publish-IsMeshed, on_peer_disconnected-IsMeshed,
}

module _ {S : Type 0} where
  -- The invariant at the number of the objects that are made.
  abbrev pub IsSound : Gossip S → Type 0
  IsSound g = IsMeshed g.next_object g

  pub IsMeshed-IsSound : {n : ℕ} (g : Gossip S) → IsMeshed n g → IsSound g
  IsMeshed-IsSound g v = subst (λ m. IsMeshed m g) (sym v.made) v

  pub Grows-IsSound : (g g' : Gossip S) → Grows g g' → IsSound g → IsSound g'
  Grows-IsSound g g' a v = IsMeshed-IsSound g' (Grows-IsMeshed g g' a v)

  pub IsInitial-IsSound : (g : Gossip S) → IsInitial g → IsSound g
  unfolding lookup
  IsInitial-IsSound g i = record {
    made = refl;
    fresh = λ q l. i.1 q;
    topics_set = rw (i.0) tt;
    mesh_set = λ h. rw (i.0) tt;
    peers_set = λ h. rw (i.0) tt;
    mesh = λ h p. rw (i.0) (λ m. m);
    peers = λ h p. rw (i.0) (λ m. nobody p m);
  }

module _ {S R : Type 0} (env : Env S R) where
  pub take_batch-Grows : (g : Gossip S) (p : ℕ) → Grows g (take_batch env g p).1
  unfolding take_batch
  take_batch-Grows g p =
      elim-option (g.objects p).batch (λ (x : List PbRpc × Gossip S). Grows g x.1) _ _
        (at_peer-Grows g p (λ x. record x { writing = false }) (λ x. refl))
        (λ r e. at_peer-Grows g p (λ x. record x { batch = none }) (λ x. refl))

  pub find_or_add-IsSound :
      (g : Gossip S) (peer_id : ℕ) (out : Bool)
      → IsSound g
      → IsSound (find_or_add env g peer_id out).1
  unfolding find_or_add at_peer
  find_or_add-IsSound g peer_id out v =
      elim-option (lookup peer_id g.peers) (λ (x : ℕ × Gossip S). IsSound x.1) _ _
        (record {
          made = refl;
          fresh = λ q l.
              if-elim (λ (x : Peer). x.topics ≡ []) (q == g.next_object) (new_peer peer_id out)
                (g.objects q) refl (v.fresh q (omega arith));
          topics_set = v.topics_set;
          mesh_set = v.mesh_set;
          peers_set = v.peers_set;
          mesh = v.mesh;
          peers = λ j q m. elim (Bool-cases (q == g.next_object)) [
            | inl k ↦ nobody j (
                subst (λ s. member j s ≡ true) (v.fresh q (ground (arith, ==_iff q g.next_object)))
                  (v.peers j q m))
            | inr k ↦ rw k (v.peers j q m)
          ];
        })
        (λ p e. v)

  pub update_peer_kind-Grows :
      (g : Gossip S) (p protocol : ℕ) → Grows g (update_peer_kind env g p protocol)
  unfolding update_peer_kind
  update_peer_kind-Grows g p protocol =
      at_peer-Grows g p
        (λ x. record x {
          peer_kind = elim x.peer_kind [
            | none ↦ lookup protocol env.config.protocol_versions
            | some k ↦ some k
          ];
        })
        (λ x. refl)

  pub on_stream_out-Grows :
      (g : Gossip S) (p : ℕ) (stream : Option (ℕ × ℕ)) → Grows g (on_stream_out env g p stream)
  unfolding on_stream_out
  on_stream_out-Grows g p none =
      at_peer-Grows g p (λ x. record x { is_connecting = false }) (λ x. refl)
  on_stream_out-Grows g p (some (stream, protocol)) =
      let connected = at_peer g p (λ x. record x { is_connecting = false }) in
      let known = update_peer_kind env connected p protocol in
      let opened = at_peer known p (λ x. record x { stream_out = some stream }) in
      let a : Grows g opened =
        Grows-trans g connected opened
          (at_peer-Grows g p (λ x. record x { is_connecting = false }) (λ x. refl))
          (Grows-trans connected known opened (update_peer_kind-Grows connected p protocol)
            (at_peer-Grows known p (λ x. record x { stream_out = some stream }) (λ x. refl))) in
      if-Grows (length g.topics == 0) g opened _ a
        (Grows-trans g opened _ a (with_batch-Grows opened p (subscribe_all g.topics)))

module _ {S R : Type 0} (env : Env S R) (shuffled : Reorders env.shuffle) where
  pub Step-IsSound : {g t : Gossip S} → Step env g t → IsSound g → IsSound t
  unfolding open_stream_in close_stream_in on_peer_connected fail_write subscribe_topic
  Step-IsSound {g = g} (message p encoded b) v =
      IsMeshed-IsSound _ (on_message-IsMeshed env shuffled g p encoded b v)
  Step-IsSound {g = g} tick v = IsMeshed-IsSound _ (heartbeat-IsMeshed env shuffled g v)
  Step-IsSound {g = g} (join h) v =
      IsMeshed-IsSound _ (get_or_create_topic-IsMeshed env shuffled g h false v)
  Step-IsSound {g = g} (send h payload) v =
      IsMeshed-IsSound _ (publish-IsMeshed env shuffled g h payload v)
  Step-IsSound {g = g} (inbound peer_id protocol stream) v =
      let found = find_or_add env g peer_id false in
      let known = update_peer_kind env found.1 found.0 protocol in
      Grows-IsSound found.1 _
        (Grows-trans found.1 known _ (update_peer_kind-Grows env found.1 found.0 protocol) (
          at_peer-Grows known found.0 (λ x. record x { streams_in = insert stream x.streams_in })
            (λ x. refl)))
        (find_or_add-IsSound env g peer_id false v)
  Step-IsSound {g = g} (closed p stream) v =
      Grows-IsSound g _
        (at_peer-Grows g p (λ x. record x { streams_in = remove stream x.streams_in }) (λ x. refl))
        v
  Step-IsSound {g = g} (connected peer_id out) v =
      let found = find_or_add env g peer_id out in
      Grows-IsSound found.1 _
        (at_peer-Grows found.1 found.0
          (λ x. record x {
            is_connecting = elim x.stream_out [ none ↦ true | some s ↦ x.is_connecting ];
          })
          (λ x. refl))
        (find_or_add-IsSound env g peer_id out v)
  Step-IsSound {g = g} (outbound p stream) v =
      Grows-IsSound g _ (on_stream_out-Grows env g p stream) v
  Step-IsSound {g = g} (disconnected peer_id) v =
      IsMeshed-IsSound _ (on_peer_disconnected-IsMeshed env g peer_id v)
  Step-IsSound {g = g} (taken p) v = Grows-IsSound g _ (take_batch-Grows env g p) v
  Step-IsSound {g = g} (failed p) v =
      Grows-IsSound g _
        (at_peer-Grows g p (λ x. record x { stream_out = none; writing = false }) (λ x. refl)) v
  Step-IsSound {g = g} (decay s) v = Grows-IsSound g _ (aside-Grows g _ refl refl refl) v
  Step-IsSound {g = g} (clock period) v = Grows-IsSound g _ (aside-Grows g _ refl refl refl) v

  -- In every state that the router reaches from one without topics and subscriptions, for a shuffle that
  -- reorders: a topic is there once, no set of a topic has a peer twice, a mesh has only peers of its
  -- topic, and a peer of a topic is subscribed to it.
  pub Reach-IsSound : (g t : Gossip S) → IsInitial g → Reach env g t → IsSound t
  Reach-IsSound g t i start = IsInitial-IsSound g i
  Reach-IsSound g t i (later {s = s} r step) = Step-IsSound step (Reach-IsSound g s i r)
