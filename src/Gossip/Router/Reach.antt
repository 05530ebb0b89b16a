-- ===== src/Gossip/Router/Reach.antt =====
-- The events of the router, one handler of protocol/gossip/gossip.cpp each, and the states that they
-- reach. The executor runs a handler to its end before the next one.
use leanp2p.Prelude.{ℕ, ◌+◌, ◌<◌, ◌≡◌, Bool, List, [], Option}
use leanp2p.Gossip.Router.{Env, Gossip}
use leanp2p.Gossip.Router.Topics.{subscribe_topic}
use leanp2p.Gossip.Router.Broadcast.{publish}
use leanp2p.Gossip.Router.Incoming.{PbRpc, on_message}
use leanp2p.Gossip.Router.Heartbeat.{heartbeat}
use leanp2p.Gossip.Router.Connections.{
  open_stream_in, close_stream_in, on_peer_connected, on_stream_out, on_peer_disconnected,
  take_batch, fail_write,
}

-- A frame comes from a peer object that was made; `decay` is whatever `onDecay` leaves.
pub data Step {S R : Type 0} (env : Env S R) (g : Gossip S) : Gossip S → Type 0 where
  message :
      (p : ℕ) (encoded : Option PbRpc)
      → p < g.next_object
      → Step env g (on_message env g p encoded).1
  tick : Step env g (heartbeat env g)
  join : (h : ℕ) → Step env g (subscribe_topic env g h)
  send : (h : ℕ) (payload : List ℕ) → Step env g (publish env g h payload)
  inbound :
      (peer_id protocol stream : ℕ) → Step env g (open_stream_in env g peer_id protocol stream)
  closed : (p stream : ℕ) → Step env g (close_stream_in env g p stream)
  connected : (peer_id : ℕ) (out : Bool) → Step env g (on_peer_connected env g peer_id out)
  outbound : (p : ℕ) (stream : Option (ℕ × ℕ)) → Step env g (on_stream_out env g p stream)
  disconnected : (peer_id : ℕ) → Step env g (on_peer_disconnected env g peer_id)
  taken : (p : ℕ) → Step env g (take_batch env g p).1
  failed : (p : ℕ) → Step env g (fail_write g p)
  decay : (s : S) → Step env g (record g { score = s })
  clock : (period : ℕ) → Step env g (record g { now = g.now + period })

-- The constructor leaves no topic and no peer.
abbrev pub IsInitial : {S : Type 0} → Gossip S → Type 0
IsInitial g = (g.topics ≡ []) × ((q : ℕ) → (g.objects q).topics ≡ [])

pub data Reach {S R : Type 0} (env : Env S R) (g : Gossip S) : Gossip S → Type 0 where
  start : Reach env g g
  later : {s t : Gossip S} → Reach env g s → Step env s t → Reach env g t
