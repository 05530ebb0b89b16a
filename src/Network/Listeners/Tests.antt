-- ===== src/Network/Listeners/Tests.antt =====
-- Listeners that can not listen on the address 9.
use leanp2p.Prelude.{ℕ, ◌≡◌, refl, [], ◌∷◌, Option, none, some, ◌==◌, if◌then◌else◌, true, false}
use leanp2p.Prelude.Eq.{nat_eq}
use leanp2p.Prelude.Maps.{lookup, has, emplace}
use leanp2p.Network.Listeners.{
  Call, listen_on, close_of, undefined, failed, address_in_use, Listeners, Transport, new_manager,
  start_loop, start, listen_new, listen, close_left, on_interface, close_listener,
}
use leanp2p.Network.Listeners.Listening.{
  IsListening, fresh, starting, listening, closing, Managed-IsListening,
}

abbrev error_of : Call → Option ℕ
error_of (listen_on l ma) = if ma == 9 then some 98 else none
error_of (close_of l) = none

abbrev env : Transport
env = record {
  can_dial = λ ma. true;
  answer = λ log c. error_of c;
  is_closed = λ log l. false;
  listen_multiaddr = λ log l. some 40;
}

abbrev three : Listeners
three = (listen env (listen env (listen env new_manager 4).0 9).0 5).0

abbrev running : Listeners
running = start env three

addresses_left : running.listeners ≡ (4, 0) ∷ (5, 2) ∷ []
unfolding start start_loop listen listen_new has emplace
addresses_left = refl

address_used : (listen env running 4).1 ≡ failed address_in_use
unfolding start start_loop listen listen_new has emplace
address_used = refl

-- The address 40 is the interface address of the listeners.
interface_closed : (close_listener env running 40).1 ≡ undefined
unfolding start start_loop listen listen_new has emplace close_listener on_interface lookup
interface_closed = refl

Managed-IsListening_example : IsListening (close_listener env running 4).0
unfolding start start_loop listen listen_new has emplace close_listener close_left lookup
Managed-IsListening_example = Managed-IsListening (
    closing env 4 (λ e. absurd cc)
      (starting env (listening env 5 (listening env 9 (listening env 4 fresh)))))
