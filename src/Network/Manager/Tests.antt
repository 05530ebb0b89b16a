-- ===== src/Network/Manager/Tests.antt =====
-- Two peers. The code behind `close` marks the connection and tells the manager.
use leanp2p.Prelude.{ℕ, ◌≡◌, refl, [], ◌∷◌}
use leanp2p.Prelude.Eq.{nat_eq}
use leanp2p.Prelude.Maps.{lookup, has, erase, emplace, modify, insert, member}
use leanp2p.Network.Manager.{
  new_connection, connection_closed, peer_disconnected, Manager, fresh, add_connection_to_peer,
  on_connection_closed, close_connections_to_peer,
}
use leanp2p.Network.Manager.Sound.{IsSound}
use leanp2p.Network.Manager.Reached.{
  adding, hearing, dying, Calls, here, next, Reached, start, call, closing, Reached-IsSound,
}

abbrev close : Manager → ℕ → Manager
close s c = on_connection_closed (record s { closed = c ∷ s.closed }) 7 c

close-Calls : (s : Manager) (c : ℕ) → Calls s (close s c)
close-Calls s c = next (next here (dying s c)) (hearing (record s { closed = c ∷ s.closed }) 7 c)

abbrev two : Manager
two = add_connection_to_peer (add_connection_to_peer fresh 7 70) 7 71

two-Reached : Reached close two
two-Reached =
    call (call start (adding fresh 7 70)) (adding (add_connection_to_peer fresh 7 70) 7 71)

events_heard :
    (close_connections_to_peer close two 7).events
    ≡ (new_connection 70, (7, 70 ∷ []) ∷ [])
      ∷ (new_connection 71, (7, 70 ∷ 71 ∷ []) ∷ [])
      ∷ (connection_closed 70, [])
      ∷ (connection_closed 71, [])
      ∷ (peer_disconnected 7, [])
      ∷ []
unfolding close_connections_to_peer on_connection_closed add_connection_to_peer lookup has erase
    emplace modify insert member
events_heard = refl

Reached-IsSound_example : IsSound (close_connections_to_peer close two 7)
Reached-IsSound_example = Reached-IsSound close close-Calls (closing two 7 two-Reached)
