-- ===== src/Network/Manager.antt =====
-- `ConnectionManager` of network/connection_manager. Peers and connections are numbers. `closed` are the
-- connections that answer true to `isClosed`. A publication on the event bus is noted with the table
-- that a subscriber finds when it hears of it.
pub mod Sound
pub mod Reached
mod Tests
use leanp2p.Prelude.{
  ℕ, Bool, true, false, not, List, [], ◌∷◌, ◌++◌, Option, none, some, ◌==◌, if◌then◌else◌,
}
use leanp2p.Prelude.Eq.{nat_eq}
use leanp2p.Prelude.Maps.{lookup, has, erase, emplace, modify, insert, remove, member, keys}

pub data Event : Type 0 where
  new_connection : ℕ → Event
  connection_closed : ℕ → Event
  peer_disconnected : ℕ → Event

abbrev pub Table : Type 0
Table = List (ℕ × List ℕ)

pub record Manager : Type 0 where
  pub connections : Table
  pub closing_connections_to_peer : Option ℕ
  pub events : List (Event × Table)
  pub closed : List ℕ

abbrev pub fresh : Manager
fresh = record { connections = []; closing_connections_to_peer = none; events = []; closed = [] }

abbrev pub publish : Manager → Event → Manager
publish s event = record s { events = s.events ++ ((event, s.connections) ∷ []) }

-- The connections of a list that are not closed.
unfoldable pub open_of : List ℕ → List ℕ → List ℕ
open_of closed [] = []
open_of closed (c ∷ cs) = if member c closed then open_of closed cs else c ∷ open_of closed cs

unfoldable pub connections_to : Table → ℕ → List ℕ
connections_to table p = elim (lookup p table) [ none ↦ [] | some cs ↦ cs ]

unfoldable pub get_connections_to_peer : Manager → ℕ → List ℕ
unfolding open_of connections_to
get_connections_to_peer s p = open_of s.closed (connections_to s.connections p)

abbrev pub first : List ℕ → Option ℕ
first [] = none
first (c ∷ cs) = some c

-- The first connection that is not closed.
unfoldable pub get_best_connection_for_peer : Manager → ℕ → Option ℕ
unfolding get_connections_to_peer
get_best_connection_for_peer s p = first (get_connections_to_peer s p)

abbrev open_in : List ℕ → Table → List ℕ
open_in closed [] = []
open_in closed ((p, cs) ∷ table) = open_of closed cs ++ open_in closed table

unfoldable pub get_connections : Manager → List ℕ
get_connections s = open_in s.closed s.connections

-- The connection is not null.
unfoldable pub add_connection_to_peer : Manager → ℕ → ℕ → Manager
add_connection_to_peer s p c =
    let table =
      if has p s.connections
      then modify p (insert c) s.connections
      else emplace p (c ∷ []) s.connections in
    publish (record s { connections = table }) (new_connection c)

-- The loop of `collectGarbage`: the closed connections go, and then the peers without any.
unfoldable pub collect : List ℕ → Table → Table
unfolding open_of
collect closed [] = []
collect closed ((p, cs) ∷ table) =
    let left = open_of closed cs in
    let rest = collect closed table in elim left [ [] ↦ rest | c ∷ more ↦ (p, c ∷ more) ∷ rest ]

unfoldable pub collect_garbage : Manager → Manager
unfolding collect
collect_garbage s = record s { connections = collect s.closed s.connections }

-- The end of `onConnectionClosed`, by the connections that are left.
unfoldable pub settle : Manager → ℕ → List ℕ → Manager
settle s p [] = publish (record s { connections = erase p s.connections }) (peer_disconnected p)
settle s p (c ∷ cs) = s

unfoldable pub tell_closed : Manager → ℕ → Bool → Manager
tell_closed s c erased = if erased then publish s (connection_closed c) else s

-- `onConnectionClosed` once the peer is found, with its connections.
unfoldable pub drop_connection : Manager → ℕ → ℕ → List ℕ → Manager
unfolding settle tell_closed
drop_connection s p c cs =
    let left = record s { connections = modify p (remove c) s.connections } in
    settle (tell_closed left c (member c cs)) p (remove c cs)

abbrev pub is_closing : Manager → ℕ → Bool
is_closing s p = elim s.closing_connections_to_peer [ none ↦ false | some q ↦ q == p ]

unfoldable pub on_connection_closed : Manager → ℕ → ℕ → Manager
unfolding drop_connection
on_connection_closed s p c =
    if is_closing s p
    then s
    else elim (lookup p s.connections) [ none ↦ s | some cs ↦ drop_connection s p c cs ]

-- What `close` of a connection does is other code, which may call the manager.
module _ (close : Manager → ℕ → Manager) where
  -- The loop of `closeConnectionsToPeer`.
  unfoldable pub close_all : Manager → List ℕ → Manager
  close_all s [] = s
  close_all s (c ∷ cs) =
      close_all (publish (if member c s.closed then s else close s c) (connection_closed c)) cs

  -- `closeConnectionsToPeer` once the peer is found, with its connections.
  unfoldable pub close_found : Manager → ℕ → List ℕ → Manager
  unfolding close_all
  close_found s p [] = record s { connections = erase p s.connections }
  close_found s p (c ∷ cs) =
      let erased = record s {
        connections = erase p s.connections;
        closing_connections_to_peer = some p;
      } in
      let reset = record (close_all erased (c ∷ cs)) { closing_connections_to_peer = none } in
      if has p reset.connections then reset else publish reset (peer_disconnected p)

  unfoldable pub close_connections_to_peer : Manager → ℕ → Manager
  unfolding close_found
  close_connections_to_peer s p = elim (lookup p s.connections) [
    | none ↦ s
    | some cs ↦ close_found s p cs
  ]

unfoldable pub get_connected_peers : Manager → List ℕ
get_connected_peers s = keys s.connections
