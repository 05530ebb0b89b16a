-- ===== src/Gossip/Router/Connections.antt =====
-- The life of a peer and of its streams in protocol/gossip/gossip.cpp: the handlers of `start`, of
-- inbound streams, and the writer that `checkWrite` spawns.
pub mod Split
use leanp2p.Prelude.{
  ℕ, ◌+◌, Bool, true, false, not, ◌&&◌, List, [], ◌∷◌, ◌++◌, Option, none, some, if◌then◌else◌,
  length, ◌==◌,
}
use leanp2p.Prelude.Eq.{nat_eq}
use leanp2p.Prelude.Maps.{lookup, erase, emplace, insert, remove}
use leanp2p.Gossip.TimeCache.{empty}
use leanp2p.Gossip.Router.{
  Env, Gossip, Message, Peer, Rpc, Topic, at_peer, at_topic, with_batch, subscribe,
}
use leanp2p.Gossip.Router.Broadcast.{to_protobuf}
use leanp2p.Gossip.Router.Incoming.{PbRpc, on_message}

-- `kTtl` of `IDontWantCache`, in milliseconds.
abbrev pub k_ttl : ℕ
k_ttl = 3000

abbrev pub new_peer : ℕ → Bool → Peer
new_peer peer_id out = record {
  peer_id = peer_id;
  out = out;
  peer_kind = none;
  topics = [];
  stream_out = none;
  streams_in = [];
  batch = none;
  writing = false;
  is_connecting = false;
  dont_send = empty k_ttl;
}

unfoldable pub subscribe_all : List (ℕ × Topic) → Rpc → Rpc
subscribe_all [] r = r
subscribe_all ((h, t) ∷ topics) r =
    subscribe_all topics (if t.publish_only then r else subscribe h true r)

module _ {S R : Type 0} (env : Env S R) where
  -- `updatePeerKind`; `at` throws where the protocol is unknown, which the model has as no change.
  unfoldable pub update_peer_kind : Gossip S → ℕ → ℕ → Gossip S
  unfolding at_peer
  update_peer_kind g p protocol = at_peer g p (λ x. record x {
    peer_kind = elim x.peer_kind [
      | none ↦ lookup protocol env.config.protocol_versions
      | some k ↦ some k
    ];
  })

  -- The entry of `peers_`, made where it is missing.
  unfoldable pub find_or_add : Gossip S → ℕ → Bool → ℕ × Gossip S
  unfolding at_peer
  find_or_add g peer_id out = elim (lookup peer_id g.peers) [
    | some p ↦ (p, g)
    | none ↦ (
      g.next_object,
      let made = at_peer g g.next_object (λ _. new_peer peer_id out) in
          record made {
            next_object = g.next_object + 1;
            peers = emplace peer_id g.next_object g.peers;
            score = env.connect g.score peer_id;
          },
    )
  ]

  -- `handle` up to the read loop, and its end.
  unfoldable pub open_stream_in : Gossip S → ℕ → ℕ → ℕ → Gossip S
  unfolding find_or_add update_peer_kind
  open_stream_in g peer_id protocol stream =
      let found = find_or_add g peer_id false in
      at_peer (update_peer_kind found.1 found.0 protocol) found.0
        (λ x. record x { streams_in = insert stream x.streams_in })

  unfoldable pub close_stream_in : Gossip S → ℕ → ℕ → Gossip S
  unfolding at_peer
  close_stream_in g p stream =
      at_peer g p (λ x. record x { streams_in = remove stream x.streams_in })

  -- The read loop over the frames that come; it ends by itself where the stream does.
  unfoldable pub read_loop : Gossip S → ℕ → ℕ → List (Option PbRpc) → Gossip S
  unfolding close_stream_in
  read_loop g p stream [] = close_stream_in g p stream
  read_loop g p stream (encoded ∷ frames) =
      let handled = on_message env g p encoded in
      let rest = read_loop handled.1 p stream frames in
      if handled.0 then rest else close_stream_in handled.1 p stream

  -- `on_peer_connected` up to the new stream.
  unfoldable pub on_peer_connected : Gossip S → ℕ → Bool → Gossip S
  unfolding find_or_add
  on_peer_connected g peer_id out =
      let found = find_or_add g peer_id out in
      at_peer found.1 found.0 (λ x. record x {
        is_connecting = elim x.stream_out [ none ↦ true | some s ↦ x.is_connecting ];
      })

  -- The outbound stream is there, or `none` for a failure.
  unfoldable pub on_stream_out : Gossip S → ℕ → Option (ℕ × ℕ) → Gossip S
  unfolding update_peer_kind subscribe_all
  on_stream_out g p none = at_peer g p (λ x. record x { is_connecting = false })
  on_stream_out g p (some (stream, protocol)) =
      let connected = at_peer g p (λ x. record x { is_connecting = false }) in
      let opened =
        at_peer (update_peer_kind connected p protocol) p
          (λ x. record x { stream_out = some stream }) in
      if length g.topics == 0 then opened else with_batch opened p (subscribe_all g.topics)

  -- The peer leaves the topics that it was subscribed to.
  unfoldable pub leave_topics : Gossip S → ℕ → List ℕ → Gossip S
  unfolding at_topic
  leave_topics g p [] = g
  leave_topics g p (h ∷ hs) =
      leave_topics
        (at_topic g h
          (λ t. record t { peers = remove p t.peers; mesh_peers = remove p t.mesh_peers }))
        p hs

  unfoldable pub on_peer_disconnected : Gossip S → ℕ → Gossip S
  unfolding leave_topics
  on_peer_disconnected g peer_id =
      let told = record g { score = env.disconnect g.score peer_id g.now } in
      elim (lookup peer_id g.peers) [
        | none ↦ told
        | some p ↦
            let left = leave_topics told p (g.objects p).topics in
            record left { peers = erase peer_id left.peers }
      ]

-- The loops of `splitBatch`, which add to a repeated field.
unfoldable pub add_each {ℓ} : {A : Type ℓ} → List A → List A → List A
add_each field [] = field
add_each field (x ∷ xs) = add_each (field ++ (x ∷ [])) xs

unfoldable pub add_ihaves : List (ℕ × List ℕ) → List (ℕ × List ℕ) → List (ℕ × List ℕ)
unfolding add_each
add_ihaves field [] = field
add_ihaves field ((topic_hash, messages) ∷ ihave) =
    add_ihaves (field ++ ((topic_hash, add_each [] messages) ∷ [])) ihave

-- An `iwant` or `idontwant` of the control message, which is made for some ids alone.
unfoldable pub add_ids : List ℕ → List (List ℕ)
unfolding add_each
add_ids [] = []
add_ids (message ∷ messages) = add_each [] (message ∷ messages) ∷ []

abbrev pub empty_pb : PbRpc
empty_pb = record {
  subscriptions = [];
  publish = [];
  graft = [];
  prune = [];
  ihave = [];
  iwant = [];
  idontwant = [];
}

unfoldable pub has_control : Rpc → Bool
has_control r = not (
    length r.subscriptions == 0
    && (length r.graft == 0
        && (length r.prune == 0
            && (length r.ihave == 0 && (length r.iwant == 0 && length r.idontwant == 0)))))

unfoldable pub control_frame : Rpc → PbRpc
unfolding add_each add_ihaves add_ids
control_frame r = record {
  subscriptions = add_each [] r.subscriptions;
  publish = [];
  graft = add_each [] r.graft;
  prune = add_each [] r.prune;
  ihave = add_ihaves [] r.ihave;
  iwant = add_ids r.iwant;
  idontwant = add_ids r.idontwant;
}

module _ {S R : Type 0} (env : Env S R) where
  unfoldable pub publications : List Message → List PbRpc
  unfolding to_protobuf
  publications [] = []
  publications (m ∷ ms) = record empty_pb { publish = to_protobuf env m ∷ [] } ∷ publications ms

  -- `splitBatch`: the frames of a batch, the control part first and each publication alone, as the messages
  -- that the generated code encodes.
  unfoldable pub split_batch : Rpc → List PbRpc
  unfolding has_control control_frame publications
  split_batch r =
      if has_control r then control_frame r ∷ publications r.publish else publications r.publish

  -- One round of the writer: the frames that it takes from the batch; none where it is done.
  unfoldable pub take_batch : Gossip S → ℕ → List PbRpc × Gossip S
  unfolding split_batch at_peer
  take_batch g p = elim (g.objects p).batch [
    | none ↦ ([], at_peer g p (λ x. record x { writing = false }))
    | some r ↦ (split_batch r, at_peer g p (λ x. record x { batch = none }))
  ]

module _ {S : Type 0} where
  -- A write failed: the stream goes, and the writer ends.
  unfoldable pub fail_write : Gossip S → ℕ → Gossip S
  unfolding at_peer
  fail_write g p = at_peer g p (λ x. record x { stream_out = none; writing = false })
