-- ===== src/Gossip/Router/Broadcast.antt =====
-- `broadcast` and the two `publish` of protocol/gossip/gossip.cpp, with the protobuf form of a
-- message and the bytes that are signed.
pub mod Spared
use leanp2p.Prelude.{
  ℕ, zero, suc, ◌+◌, ◌-◌, ◌*◌, ◌/◌, ◌%◌, ◌^◌, Bool, true, false, not, ◌&&◌, ◌||◌, List, [], ◌∷◌,
  ◌++◌, Option, none, some, leb, ltb, ◌==◌, if◌then◌else◌, length, codes,
}
use leanp2p.Prelude.Eq.{nat_eq}
use leanp2p.Prelude.Maps.{lookup, emplace, insert, member}
use leanp2p.Gossip.History
use leanp2p.Gossip.Promises
use leanp2p.Gossip.TimeCache.{contains, duplicate_insert}
use leanp2p.Gossip.Config.{MessageAuthenticity, mesh_n_for_topic}
use leanp2p.Gossip.Router.{
  Env, Gossip, Message, PbMessage, Topic, at_topic, with_batch, is_floodsub,
}
use leanp2p.Gossip.Router.Mesh.{below, choose}
use leanp2p.Gossip.Router.Topics.{get_or_create_topic}

abbrev pub k_signing_context : List ℕ
k_signing_context = codes "libp2p-pubsub:"

-- `boost::endian::store_big_u64`: `count` bytes, the highest first.
unfoldable pub store_big : ℕ → ℕ → List ℕ
store_big zero n = []
store_big (suc count) n = (n / 2 ^ (8 * count) % 256) ∷ store_big count n

-- `boost::endian::load_big_u64`.
unfoldable pub load_big : ℕ → List ℕ → ℕ
load_big acc [] = acc
load_big acc (b ∷ bytes) = load_big (acc * 256 + b) bytes

abbrev pub is_some : Option ℕ → ℕ → Bool
is_some none n = false
is_some (some m) n = m == n

-- `not from.has_value()`.
abbrev pub is_local : Option ℕ → Bool
is_local none = true
is_local (some i) = false

module _ {S R : Type 0} (env : Env S R) where
  unfoldable pub to_protobuf : Message → PbMessage
  unfolding store_big
  to_protobuf m = record {
    from = elim m.from [ none ↦ [] | some i ↦ env.peer_id_bytes i ];
    payload = m.payload;
    seqno = elim m.seqno [ none ↦ [] | some n ↦ store_big 8 n ];
    topic = m.topic;
    signature = elim m.signature [ none ↦ [] | some s ↦ s ];
  }

  unfoldable pub get_signable : PbMessage → List ℕ
  get_signable pb = k_signing_context ++ env.encode_message (record pb { signature = [] })

  unfoldable pub sends_idontwant : Option ℕ → Message → Bool
  sends_idontwant from message =
      let publish = is_local from in
      (not publish || env.config.idontwant_on_publish)
      && not (
          leb (length (env.encode_message (to_protobuf message)))
            env.config.idontwant_message_size_threshold)

  unfoldable pub idontwant_all : Gossip S → ℕ → List ℕ → Gossip S
  idontwant_all g message_id [] = g
  idontwant_all g message_id (p ∷ ps) =
      idontwant_all (with_batch g p (λ r. record r { idontwant = insert message_id r.idontwant }))
        message_id ps

  -- The lambda `add_peer`.
  unfoldable pub add_peer : Option ℕ → ℕ → Message → Gossip S → ℕ → Gossip S
  add_peer from message_id message g p =
      let batched = with_batch g p (λ r. record r {
        idontwant =
            if sends_idontwant from message then insert message_id r.idontwant else r.idontwant;
        publish = r.publish ++ (message ∷ []);
      }) in
      let id = (g.objects p).peer_id in
      if is_some from id
      then g
      else if is_some message.from id
      then g
      else if below env g p env.config.score.publish_threshold
      then g
      else batched

  unfoldable pub add_peers : Option ℕ → ℕ → Message → Gossip S → List ℕ → Gossip S
  add_peers from message_id message g [] = g
  add_peers from message_id message g (p ∷ ps) =
      add_peers from message_id message (add_peer from message_id message g p) ps

  unfoldable pub add_floodsubs : Option ℕ → ℕ → Message → Gossip S → List ℕ → Gossip S
  add_floodsubs from message_id message g [] = g
  add_floodsubs from message_id message g (p ∷ ps) =
      add_floodsubs from message_id message
        (if is_floodsub (g.objects p) then add_peer from message_id message g p else g) ps

  -- The peers that a publication goes to besides a mesh that is too small.
  unfoldable pub add_fanout : ℕ → ℕ → Message → Gossip S → List ℕ → Gossip S
  unfolding at_topic
  add_fanout h message_id message g [] = g
  add_fanout h message_id message g (p ∷ ps) =
      let sent = add_peer none message_id message g p in
      let joined = at_topic sent h (λ t. record t {
        mesh_peers = if t.publish_only then insert p t.mesh_peers else t.mesh_peers;
      }) in
      add_fanout h message_id message joined ps

  -- The first lines of `broadcast`: the caches.
  unfoldable pub remember : Gossip S → ℕ → ℕ → Message → Gossip S
  unfolding at_topic
  remember g h message_id message =
      let g' = at_topic g h (λ t. record t { history = History.add message_id t.history }) in
      record g' {
        message_cache = emplace message_id (message, []) g.message_cache;
        promises = Promises.remove g.promises message_id;
      }

  -- `broadcast` behind those, for the topic `t`.
  unfoldable pub send_out : Gossip S → ℕ → Topic → Option ℕ → ℕ → Message → Gossip S
  unfolding at_topic
  send_out g h t from message_id message =
      let publish = is_local from in
      let flooded = add_floodsubs from message_id message g t.peers in
      let meshed = add_peers from message_id message flooded t.mesh_peers in
      let drawn =
        choose env meshed t.peers
          (λ p.
            not (member p t.mesh_peers)
            && not (below env meshed p env.config.score.publish_threshold))
          (λ _. mesh_n_for_topic env.config h - length t.mesh_peers) in
      let fanned =
        if ltb (length t.mesh_peers) (mesh_n_for_topic env.config h)
        then add_fanout h message_id message drawn.1 drawn.0
        else meshed in
      if publish && env.config.flood_publish
      then add_peers from message_id message g t.peers
      else if publish
      then at_topic fanned h (λ t. record t { last_publish = g.now })
      else meshed

  unfoldable pub broadcast : Gossip S → ℕ → Option ℕ → ℕ → Message → Gossip S
  unfolding remember send_out
  broadcast g h from message_id message =
      let stored = remember g h message_id message in
      let told =
        if not (is_local from) && sends_idontwant from message
        then idontwant_all stored message_id (Promises.peers stored.promises message_id)
        else stored in
      elim (lookup h g.topics) [ none ↦ g | some t ↦ send_out told h t from message_id message ]

  -- The message of a local publication, and the state behind its sequence number.
  unfoldable pub make_message : Gossip S → ℕ → List ℕ → Message × Gossip S
  unfolding to_protobuf get_signable
  make_message g h payload =
      let plain : Message = record {
        from = none;
        payload = payload;
        seqno = none;
        topic = h;
        signature = none;
        received_from = none;
      } in
      let named = record plain { from = some env.host_id; seqno = some g.last_seq_no } in
      elim env.config.message_authenticity [
        | MessageAuthenticity.signed ↦ (
          record named { signature = some (env.sign (get_signable (to_protobuf named))) },
          record g { last_seq_no = (g.last_seq_no + 1) % 2 ^ 64 },
        )
        | MessageAuthenticity.anonymous ↦ (plain, g)
      ]

  -- `publish(Topic &, BytesIn)`.
  unfoldable pub publish_to : Gossip S → ℕ → List ℕ → Gossip S
  unfolding make_message
  publish_to g h payload =
      let made = make_message g h payload in
      let message_id = env.message_id made.0 in
      let cached = record made.1 {
        duplicate_cache = (duplicate_insert made.1.duplicate_cache message_id g.now g.now).0;
      } in
      if contains made.1.duplicate_cache message_id
      then made.1
      else broadcast cached h none message_id made.0

  -- `publish(const TopicHash &, BytesIn)`.
  unfoldable pub publish : Gossip S → ℕ → List ℕ → Gossip S
  unfolding publish_to
  publish g h payload = publish_to (get_or_create_topic env g h true) h payload
