-- ===== src/Network/Manager/Reached.antt =====
-- The manager's methods as steps, in any order. While `closeConnectionsToPeer` closes a connection, other code
-- may call the other methods, but not `closeConnectionsToPeer` again.
use leanp2p.Prelude.{
  ℕ, List, [], ◌∷◌, Option, none, some, elim-option, if-elim, if-cases, if◌then◌else◌,
}
use leanp2p.Prelude.Eq.{nat_eq}
use leanp2p.Prelude.Maps.{lookup, has, erase, member, has-lookup}
use leanp2p.Network.Manager.{
  connection_closed, peer_disconnected, Manager, fresh, publish, add_connection_to_peer,
  collect_garbage, on_connection_closed, close_all, close_found, close_connections_to_peer,
}
use leanp2p.Network.Manager.Sound.{
  IsSound, publish-IsSound, with_table, erase-IsConnected, erase-IsUnique,
  add_connection_to_peer-IsSound, collect_garbage-IsSound, on_connection_closed-IsSound,
}

-- A call, or a connection that closes by itself.
pub data Call : Manager → Manager → Type 0 where
  adding : (s : Manager) (p c : ℕ) → Call s (add_connection_to_peer s p c)
  collecting : (s : Manager) → Call s (collect_garbage s)
  hearing : (s : Manager) (p c : ℕ) → Call s (on_connection_closed s p c)
  dying : (s : Manager) (c : ℕ) → Call s (record s { closed = c ∷ s.closed })

pub data Calls (s : Manager) : Manager → Type 0 where
  here : Calls s s
  next : {t u : Manager} → Calls s t → Call t u → Calls s u

-- What the code behind `close` does with the manager: no `closeConnectionsToPeer` within another.
abbrev pub IsCaller : (Manager → ℕ → Manager) → Type 0
IsCaller close = (s : Manager) (c : ℕ) → Calls s (close s c)

pub data Reached (close : Manager → ℕ → Manager) : Manager → Type 0 where
  start : Reached close fresh
  call : {s t : Manager} → Reached close s → Call s t → Reached close t
  closing :
      (s : Manager) (p : ℕ) → Reached close s → Reached close (close_connections_to_peer close s p)

-- What the manager knows of a peer that it closes, and which connections are closed, is no part of it.
aside :
    (s : Manager) (o : Option ℕ) (closed : List ℕ)
    → IsSound s
    → IsSound (record s { closing_connections_to_peer = o; closed = closed })
aside s o closed v = record { peers = v.peers; connected = v.connected; events = v.events }

Call-IsSound : {s t : Manager} → Call s t → IsSound s → IsSound t
Call-IsSound (adding s p c) v = add_connection_to_peer-IsSound s p c v
Call-IsSound (collecting s) v = collect_garbage-IsSound s v
Call-IsSound (hearing s p c) v = on_connection_closed-IsSound s p c v
Call-IsSound (dying s c) v = aside s s.closing_connections_to_peer (c ∷ s.closed) v

Calls-IsSound : {s t : Manager} → Calls s t → IsSound s → IsSound t
Calls-IsSound here v = v
Calls-IsSound (next r c) v = Call-IsSound c (Calls-IsSound r v)

module _ (close : Manager → ℕ → Manager) (caller : IsCaller close) where
  close_all-IsSound : (cs : List ℕ) (s : Manager) → IsSound s → IsSound (close_all close s cs)
  unfolding close_all
  close_all-IsSound [] s v = v
  close_all-IsSound (c ∷ cs) s v = close_all-IsSound cs _ (
      publish-IsSound _ (connection_closed c)
        (if-elim IsSound (member c s.closed) s (close s c) v (Calls-IsSound (caller s c) v)) tt)

  finish-IsSound :
      (s : Manager) (p : ℕ)
      → IsSound s
      → IsSound (if has p s.connections then s else publish s (peer_disconnected p))
  finish-IsSound s p v =
      if-cases IsSound (has p s.connections) s (publish s (peer_disconnected p)) (λ e. v)
        (λ e. publish-IsSound s (peer_disconnected p) v (has-lookup p s.connections e))

  close_found-IsSound :
      (cs : List ℕ) (s : Manager) (p : ℕ) → IsSound s → IsSound (close_found close s p cs)
  unfolding close_found
  close_found-IsSound cs s p v =
      let t = erase p s.connections in
      let erased : IsSound (record s { connections = t }) =
        with_table s t v (erase-IsUnique p s.connections v.peers)
          (erase-IsConnected p s.connections v.connected) in
      by_connections cs erased
    where
      by_connections :
          (cs : List ℕ)
          → IsSound (record s { connections = erase p s.connections })
          → IsSound (close_found close s p cs)
      by_connections [] erased = erased
      by_connections (c ∷ cs) erased =
          let closed_all = close_all-IsSound (c ∷ cs) _ (aside _ (some p) s.closed erased) in
          finish-IsSound _ p (aside _ none _ closed_all)

  -- In every state that the manager reaches from an empty one, if the code behind `close` does no more with it than to add
  -- connections, collect garbage, report closings and mark connections as closed, in any order: no peer is
  -- in the table without a connection or with one twice, and no peer twice; and each time that
  -- OnPeerDisconnected was published the table had no connection of that peer.
  pub Reached-IsSound : {s : Manager} → Reached close s → IsSound s
  unfolding close_connections_to_peer
  Reached-IsSound start = record { peers = tt; connected = tt; events = tt }
  Reached-IsSound (call r c) = Call-IsSound c (Reached-IsSound r)
  Reached-IsSound (closing s p r) =
      let v = Reached-IsSound r in
      elim-option (lookup p s.connections) IsSound s (λ cs. close_found close s p cs) v
        (λ cs e. close_found-IsSound cs s p v)
