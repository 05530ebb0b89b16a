-- ===== src/Gossip/Router.antt =====
-- The state of the gossipsub router, protocol/gossip/gossip.hpp. A topic hash, a message id, a peer
-- id and a protocol name are numbers: the router only compares them. A `PeerPtr` is the number of a
-- peer object, and `objects` has the objects, also those that `peers_` no longer has.
pub mod Mesh
pub mod Topics
pub mod Broadcast
pub mod Membership
pub mod Delivery
pub mod Ihave
pub mod Incoming
pub mod Balance
pub mod Heartbeat
pub mod Connections
pub mod Reach
pub mod Invariant
mod Tests
use leanp2p.Prelude.{
  ℕ, ◌+◌, ◌<◌, ◌≡◌, Bool, true, false, ◌&&◌, List, [], ◌∷◌, Option, none, some, leb, ltb, ◌==◌,
  if◌then◌else◌, take, length,
}
use mathlib.Core.List.{filter}
use leanp2p.Prelude.Eq.{nat_eq}
use leanp2p.Prelude.Maps.{lookup, has, erase, emplace, modify, insert, remove, member}
use leanp2p.Gossip.Config.{PeerKind, Config, rank}
use leanp2p.Gossip.Backoff
use leanp2p.Gossip.Backoff.{Backoff}
use leanp2p.Gossip.TimeCache.{KeyCache}

pub record Message : Type 0 where
  pub from : Option ℕ
  pub payload : List ℕ
  pub seqno : Option ℕ
  pub topic : ℕ
  pub signature : Option (List ℕ)
  pub received_from : Option ℕ

pub record Rpc : Type 0 where
  pub subscriptions : List (ℕ × Bool)
  pub publish : List Message
  pub graft : List ℕ
  pub prune : List (ℕ × Option ℕ)
  pub ihave : List (ℕ × List ℕ)
  pub iwant : List ℕ
  pub idontwant : List ℕ

abbrev pub empty_rpc : Rpc
empty_rpc = record {
  subscriptions = [];
  publish = [];
  graft = [];
  prune = [];
  ihave = [];
  iwant = [];
  idontwant = [];
}

abbrev same : Bool → Bool → Bool
same true b = b
same false true = false
same false false = true

-- `Rpc::subscribe`: a second toggle takes the first one back.
unfoldable pub subscribe : ℕ → Bool → Rpc → Rpc
subscribe topic_hash on r = record r {
  subscriptions = elim (lookup topic_hash r.subscriptions) [
    | none ↦ emplace topic_hash on r.subscriptions
    | some before ↦ if same before on then r.subscriptions else erase topic_hash r.subscriptions
  ];
}

-- A peer object. A stream is a number; `stream_out` is the one that batches are written to.
pub record Peer : Type 0 where
  pub peer_id : ℕ
  pub out : Bool
  pub peer_kind : Option PeerKind
  pub topics : List ℕ
  pub stream_out : Option ℕ
  pub streams_in : List ℕ
  pub batch : Option Rpc
  pub writing : Bool
  pub is_connecting : Bool
  pub dont_send : KeyCache ℕ

-- `received` has what was sent to the receive channel.
pub record Topic : Type 0 where
  pub publish_only : Bool
  pub received : List Message
  pub history : List (List ℕ)
  pub backoff : Backoff
  pub peers : List ℕ
  pub mesh_peers : List ℕ
  pub last_publish : ℕ

-- `S` is the state of the peer score, `random` counts the draws, `now` is the steady clock.
pub record Gossip (S : Type 0) : Type 0 where
  pub now : ℕ
  pub random : ℕ
  pub objects : ℕ → Peer
  pub next_object : ℕ
  pub topics : List (ℕ × Topic)
  pub peers : List (ℕ × ℕ)
  pub last_seq_no : ℕ
  pub duplicate_cache : KeyCache ℕ
  pub message_cache : List (ℕ × (Message × List (ℕ × ℕ)))
  pub promises : List (ℕ × List (ℕ × ℕ))
  pub score : S
  pub heartbeat_ticks : ℕ
  pub count_received_ihave : List (ℕ × ℕ)
  pub count_sent_iwant : List (ℕ × ℕ)

-- A `gossipsub.pb.Message`, decoded; a field that is not set is empty.
pub record PbMessage : Type 0 where
  pub from : List ℕ
  pub payload : List ℕ
  pub seqno : List ℕ
  pub topic : ℕ
  pub signature : List ℕ

-- What the router is built on: the configuration, the peer score, the cryptography, the generated
-- encoder, the order in which a shuffle with the draws so far leaves a list, and `beyond`, what a read
-- beyond the end of an array gives.
pub record Env (S R : Type 0) : Type 0 where
  pub config : Config R
  pub lt : R → R → Bool
  pub half_sum : R → R → R
  pub beyond : R
  pub score : S → ℕ → R
  pub add_penalty : S → ℕ → ℕ → S
  pub graft : S → ℕ → ℕ → ℕ → S
  pub prune : S → ℕ → ℕ → S
  pub duplicate_message : S → ℕ → ℕ → ℕ → ℕ → S
  pub validate_message : S → ℕ → ℕ → ℕ → ℕ → S
  pub deliver_message : S → ℕ → ℕ → ℕ → ℕ → S
  pub connect : S → ℕ → S
  pub disconnect : S → ℕ → ℕ → S
  pub shuffle : ℕ → List ℕ → List ℕ
  pub host_id : ℕ
  pub message_id : Message → ℕ
  pub encode_message : PbMessage → List ℕ
  pub peer_id_bytes : ℕ → List ℕ
  pub peer_id_from_bytes : List ℕ → Option ℕ
  pub public_key : ℕ → Option (List ℕ)
  pub sign : List ℕ → List ℕ
  pub verify : List ℕ → List ℕ → List ℕ → Option Bool

-- `Peer::isFloodsub` and its kin.
unfoldable pub is_floodsub : Peer → Bool
is_floodsub p = elim p.peer_kind [ none ↦ true | some k ↦ rank k == 1 ]

unfoldable pub is_gossipsub : Peer → Bool
is_gossipsub p = elim p.peer_kind [ none ↦ false | some k ↦ leb 2 (rank k) ]

unfoldable pub is_gossipsub_v1_1 : Peer → Bool
is_gossipsub_v1_1 p = elim p.peer_kind [ none ↦ false | some k ↦ leb 3 (rank k) ]

unfoldable pub is_gossipsub_v1_2 : Peer → Bool
is_gossipsub_v1_2 p = elim p.peer_kind [ none ↦ false | some k ↦ leb 4 (rank k) ]

module _ {S : Type 0} where
  -- A write to a peer object.
  unfoldable pub at_peer : Gossip S → ℕ → (Peer → Peer) → Gossip S
  at_peer g p f = record g { objects = λ q. if q == p then f (g.objects q) else g.objects q }

  -- `topics_[topic_hash]`, where it is there.
  unfoldable pub at_topic : Gossip S → ℕ → (Topic → Topic) → Gossip S
  at_topic g h f = record g { topics = modify h f g.topics }

  -- `getBatch` with `checkWrite`, and a write to the batch that it returns. `writing` says that the
  -- writer was spawned.
  unfoldable pub with_batch : Gossip S → ℕ → (Rpc → Rpc) → Gossip S
  unfolding at_peer
  with_batch g p f = at_peer g p (λ x. record x {
    batch = some (f (elim x.batch [ none ↦ empty_rpc | some r ↦ r ]));
    writing = if x.writing then true else elim x.stream_out [ none ↦ false | some s ↦ true ];
  })

-- `Topic::meshOutCount`.
unfoldable pub mesh_out_count : (ℕ → Peer) → List ℕ → ℕ
mesh_out_count objects [] = 0
mesh_out_count objects (p ∷ ps) = (if (objects p).out then 1 else 0) + mesh_out_count objects ps
