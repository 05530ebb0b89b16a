-- ===== src/Gossip/Router/Tests.antt =====
-- The router on concrete inputs: two peers, of which the score of peer 66 is negative.
use leanp2p.Prelude.{
  List, ◌≤◌, ◌+◌, All, ◌⊎◌, ℕ, ◌+◌, ◌-◌, ◌*◌, ◌/◌, ◌≡◌, refl, arith, true, false, [], ◌∷◌, none,
  some, ltb, ◌==◌, if◌then◌else◌, length,
}
use leanp2p.Prelude.Eq.{nat_eq}
use leanp2p.Gossip.Config.{
  PeerKind, ValidationMode, MessageAuthenticity, Config, mesh_n_high_for_topic,
}
use leanp2p.Gossip.Router.{
  Env, Gossip, Message, PbMessage, Peer, Topic, Rpc, empty_rpc, with_batch, at_peer,
}
use leanp2p.Gossip.Router.Invariant.{mesh_of}
use leanp2p.Gossip.Router.Incoming.{PbRpc, on_message}
use leanp2p.Gossip.Router.Connections.{new_peer, open_stream_in}
use leanp2p.Gossip.Router.Topics.{create_topic, subscribe_topic}
use leanp2p.Gossip.Router.Reach.{start, later, join, inbound, message}
use leanp2p.Prelude.Maps.{lookup, has, emplace, member, insert, modify}
use leanp2p.Gossip.Router.Invariant.Reached.{IsSound, Reach-IsSound}
use leanp2p.Gossip.TimeCache.{contains, empty}
use leanp2p.Gossip.Router.Delivery.{on_publish}
use leanp2p.Gossip.Router.Delivery.Verified.{IsSigned, on_publish_strict}
use leanp2p.Gossip.Router.Broadcast.{broadcast}
use leanp2p.Gossip.Router.Broadcast.Spared.{Spares, broadcast-Spares}
use leanp2p.Gossip.Router.Membership.{on_graft}
use leanp2p.Gossip.Router.Membership.Accepted.{IsAccepted, on_graft-IsAccepted}
use leanp2p.Gossip.Router.Invariant.Incoming.{listed}
use leanp2p.Gossip.Router.Mesh.{get_backoff_time, below, join_mesh}
use leanp2p.Gossip.Backoff
use leanp2p.Gossip.Router.Incoming.{serve}
use leanp2p.Gossip.Router.Incoming.Served.{
  asks, writes, served, allowed, served-le-allowed, Request,
}
use leanp2p.Gossip.Router.Ihave.Asked
use leanp2p.Gossip.Router.Ihave.Asked.{offers, waiting_ids, asked, asked-le-limit}
use leanp2p.Gossip.Router.Ihave.{count_of}
use leanp2p.Gossip.Router.Connections.{split_batch, take_batch}
use leanp2p.Gossip.Router.Connections.Split.{received, whole, IsSmall, received-split_batch}

-- A score is 100 and more where it is not negative.
abbrev config : Config ℕ
config = record {
  validation_mode = ValidationMode.strict;
  message_authenticity = MessageAuthenticity.signed;
  protocol_versions = (1, PeerKind.gossipsub_v1_1) ∷ [];
  default_mesh_params = record {
    mesh_n = 6;
    mesh_n_low = 5;
    mesh_n_high = 12;
    mesh_outbound_min = 2;
  };
  prune_backoff = 60;
  backoff_slack = 1;
  graft_flood_threshold = 10;
  heartbeat_interval = 1;
  fanout_ttl = 60;
  retain_scores = 4;
  history_length = 5;
  history_gossip = 3;
  gossip_retransmission = 3;
  gossip_lazy = 6;
  gossip_part = λ n. n / 4;
  max_ihave_length = 5000;
  max_ihave_messages = 10;
  flood_publish = true;
  idontwant_message_size_threshold = 1000;
  idontwant_on_publish = false;
  iwant_followup_time = 3;
  opportunistic_graft_ticks = 60;
  opportunistic_graft_peers = 2;
  score = record {
    zero = 100;
    gossip_threshold = 90;
    publish_threshold = 50;
    graylist_threshold = 20;
    opportunistic_graft_threshold = 120;
  };
}

-- The state of the score is the number of penalties; `verify` wants the signature to be the key.
abbrev env : Env ℕ ℕ
env = record {
  config = config;
  lt = ltb;
  half_sum = λ a b. (a + b) / 2;
  beyond = 0;
  score = λ s p. if p == 66 then 95 - s else 100;
  add_penalty = λ s p n. s + n;
  graft = λ s p h now. s;
  prune = λ s p h. s;
  duplicate_message = λ s p i h now. s;
  validate_message = λ s p i h now. s;
  deliver_message = λ s p i h now. s;
  connect = λ s p. s;
  disconnect = λ s p now. s;
  shuffle = λ r xs. xs;
  host_id = 1;
  message_id = λ m. m.topic * 1000 + length m.payload;
  encode_message = λ pb. pb.payload;
  peer_id_bytes = λ i. i ∷ [];
  peer_id_from_bytes = λ bytes. elim bytes [ [] ↦ none | i ∷ rest ↦ some i ];
  public_key = λ i. some (i ∷ []);
  sign = λ bytes. 1 ∷ [];
  verify = λ bytes signature key. some (length signature == length key);
}

abbrev empty_router : Gossip ℕ
empty_router = record {
  now = 1000;
  random = 0;
  objects = λ q. new_peer q false;
  next_object = 0;
  topics = [];
  peers = [];
  last_seq_no = 7;
  duplicate_cache = empty 60000;
  message_cache = [];
  promises = [];
  score = 0;
  heartbeat_ticks = 0;
  count_received_ihave = [];
  count_sent_iwant = [];
}

abbrev hello : PbRpc
hello = record {
  subscriptions = (5, true) ∷ [];
  publish = [];
  graft = 5 ∷ [];
  prune = [];
  ihave = [];
  iwant = [];
  idontwant = [];
}

-- Topic 5 is joined, peer 42 comes with a stream, and subscribes and grafts.
abbrev joined : Gossip ℕ
joined = subscribe_topic env empty_router 5

abbrev met : Gossip ℕ
met = open_stream_in env joined 42 1 9

abbrev meshed : Gossip ℕ
meshed = (on_message env met 0 (some hello)).1

met_next : met.next_object ≡ 1
unfolding open_stream_in subscribe_topic lookup has emplace create_topic
met_next = refl

Reach-IsSound_example : IsSound meshed
Reach-IsSound_example =
    Reach-IsSound env (λ r xs. (refl, λ x. refl)) empty_router meshed (refl, λ q. refl)
      (later (later (later start (join 5)) (inbound 42 1 9))
        (message 0 (some hello) (omega (arith, met_next))))

abbrev topic_5 : Topic
topic_5 = record {
  publish_only = false;
  received = [];
  history = [] ∷ [] ∷ [];
  backoff = record { slots = [] ∷ [] ∷ []; slot = 0; peers = (2, 1) ∷ [] };
  peers = 0 ∷ 1 ∷ [];
  mesh_peers = 1 ∷ [];
  last_publish = 0;
}

abbrev peer_of : ℕ → Peer
peer_of q = record {
  peer_id = q + 40;
  out = false;
  peer_kind = some PeerKind.gossipsub_v1_1;
  topics = 5 ∷ [];
  stream_out = some q;
  streams_in = [];
  batch = none;
  writing = false;
  is_connecting = false;
  dont_send = empty 3000;
}

abbrev note : Message
note = record {
  from = some 41;
  payload = 1 ∷ 2 ∷ [];
  seqno = some 8;
  topic = 5;
  signature = some (41 ∷ []);
  received_from = none;
}

abbrev busy : Gossip ℕ
busy = record empty_router {
  objects = peer_of;
  next_object = 3;
  topics = (5, topic_5) ∷ [];
  message_cache = (77, (note, (40, 2) ∷ [])) ∷ [];
}

abbrev signed : PbMessage
signed = record {
  from = 41 ∷ [];
  payload = 1 ∷ 2 ∷ [];
  seqno = 0 ∷ 0 ∷ 0 ∷ 0 ∷ 0 ∷ 0 ∷ 0 ∷ 8 ∷ [];
  topic = 5;
  signature = 41 ∷ [];
}

on_publish_strict_example : (on_publish env busy 0 signed ≡ busy) ⊎ IsSigned env signed
on_publish_strict_example = on_publish_strict env busy 0 signed refl

broadcast-Spares_example : Spares (some 40) note busy (broadcast env busy 5 (some 40) 78 note)
broadcast-Spares_example = broadcast-Spares env 78 note busy 5 (some 40)

grafted : member 0 (mesh_of (on_graft env busy 0 5) 5) ≡ true
unfolding on_graft lookup insert member modify get_backoff_time Backoff.get mesh_n_high_for_topic
    below join_mesh
grafted = refl

on_graft-IsAccepted_example :
    (member 0 (mesh_of busy 5) ≡ true) ⊎ IsAccepted env (listed busy 0 5) 0 5
on_graft-IsAccepted_example = on_graft-IsAccepted env busy 0 5 grafted

-- Peer 0 has asked for the message 77 twice.
abbrev requests : List Request
requests = asks 0 77 ∷ asks 0 77 ∷ writes 0 ∷ asks 0 78 ∷ asks 0 77 ∷ []

served_once : served env busy requests 0 77 ≡ 1
unfolding served serve take_batch with_batch at_peer lookup emplace modify has contains
served_once = refl

served-le-allowed_example : served env busy requests 0 77 ≤ allowed env busy 0 77
served-le-allowed_example = served-le-allowed env busy requests 0 77

asked-le-limit_example :
    asked env busy (offers 0 ((5, 90 ∷ 91 ∷ []) ∷ []) ∷ Asked.writes 0 ∷ []) 0 + count_of 0 []
    ≤ waiting_ids busy 0 + 5000
unfolding lookup
asked-le-limit_example =
    asked-le-limit env busy (offers 0 ((5, 90 ∷ 91 ∷ []) ∷ []) ∷ Asked.writes 0 ∷ []) 0
      (λ p. omega arith)

abbrev filled : Rpc
filled = record empty_rpc {
  subscriptions = (5, true) ∷ [];
  publish = note ∷ note ∷ [];
  iwant = 77 ∷ [];
}

received-split_batch_example :
    (received (split_batch env filled) ≡ whole env filled) × All IsSmall (split_batch env filled)
received-split_batch_example = received-split_batch env filled
