-- ===== src/Network/Listeners.antt =====
-- `ListenerManager` of network/listener_manager: its listeners, by address. Addresses and listeners are
-- numbers. What a transport's listener does is other code: it answers by the calls that all the listeners
-- had so far, which the state has with their answers, the last first.
pub mod Tables
pub mod Listening
mod Tests
use leanp2p.Prelude.{
  ℕ, suc, Bool, true, false, List, [], ◌∷◌, Option, none, some, ◌==◌, if◌then◌else◌,
}
use leanp2p.Prelude.Eq.{nat_eq}
use leanp2p.Prelude.Maps.{lookup, has, erase, emplace, keys}

pub data Call : Type 0 where
  listen_on : ℕ → ℕ → Call
  close_of : ℕ → Call

-- Each call with its error, if it had one.
abbrev pub Log : Type 0
Log = List (Call × Option ℕ)

pub data Error : Type 0 where
  address_family_not_supported address_in_use invalid_argument : Error
  of_listener : ℕ → Error

-- `undefined` is the undefined behaviour of the language.
pub data Result : Type 0 where
  ok undefined : Result
  failed : Error → Result

pub record Listeners : Type 0 where
  pub listeners : List (ℕ × ℕ)
  pub started : Bool
  pub created : ℕ
  pub log : Log

-- `can_dial` says for which addresses `findBest` of the transport manager finds a transport.
pub record Transport : Type 0 where
  pub can_dial : ℕ → Bool
  pub answer : Log → Call → Option ℕ
  pub is_closed : Log → ℕ → Bool
  pub listen_multiaddr : Log → ℕ → Option ℕ

abbrev pub new_manager : Listeners
new_manager = record { listeners = []; started = false; created = 0; log = [] }

abbrev pub result_of : Option ℕ → Result
result_of none = ok
result_of (some e) = failed (of_listener e)

module _ (env : Transport) where
  -- The loops of `start` and `stop`: what is left of the listeners, and the calls.
  unfoldable pub start_loop : Log → List (ℕ × ℕ) → List (ℕ × ℕ) × Log
  start_loop log [] = ([], log)
  start_loop log ((ma, l) ∷ listeners) =
      let r = env.answer log (listen_on l ma) in
      let rest = start_loop ((listen_on l ma, r) ∷ log) listeners in
      (elim r [ none ↦ (ma, l) ∷ rest.0 | some e ↦ rest.0 ], rest.1)

  unfoldable pub start : Listeners → Listeners
  unfolding start_loop
  start s =
      let left = start_loop s.log s.listeners in
      if s.started then s else record s { listeners = left.0; log = left.1; started = true }

  unfoldable pub stop_loop : Log → List (ℕ × ℕ) → List (ℕ × ℕ) × Log
  stop_loop log [] = ([], log)
  stop_loop log ((ma, l) ∷ listeners) =
      let r = env.answer log (close_of l) in
      let rest = stop_loop ((close_of l, r) ∷ log) listeners in
      (elim r [ none ↦ (ma, l) ∷ rest.0 | some e ↦ rest.0 ], rest.1)

  unfoldable pub stop : Listeners → Listeners
  unfolding stop_loop
  stop s =
      let left = stop_loop s.log s.listeners in
      if s.started then record s { listeners = left.0; log = left.1; started = false } else s

  abbrev insert_listener : Listeners → ℕ → ℕ → Listeners
  insert_listener s ma l = record s { listeners = emplace ma l s.listeners }

  -- `listen` with the new listener, which listens at once on a manager that has started. The loop that accepts
  -- its connections is a coroutine of its own.
  unfoldable pub listen_new : Listeners → ℕ → ℕ → Listeners × Result
  listen_new s ma l =
      let r = env.answer s.log (listen_on l ma) in
      let called = record s { log = (listen_on l ma, r) ∷ s.log } in
      if s.started
      then elim r [
        | none ↦ (insert_listener called ma l, ok)
        | some e ↦ (called, failed (of_listener e))
      ]
      else (insert_listener s ma l, ok)

  unfoldable pub listen : Listeners → ℕ → Listeners × Result
  unfolding listen_new
  listen s ma =
      if env.can_dial ma
      then if has ma s.listeners
        then (s, failed address_in_use)
        else listen_new (record s { created = suc s.created }) ma s.created
      else (s, failed address_family_not_supported)

  unfoldable pub remove_listener : Listeners → ℕ → Listeners × Result
  remove_listener s ma =
      if has ma s.listeners
      then (record s { listeners = erase ma s.listeners }, ok)
      else (s, failed invalid_argument)

  -- A listener that has left the table is closed.
  unfoldable pub close_left : Listeners → ℕ → Listeners × Result
  close_left s l =
      if env.is_closed s.log l
      then (s, ok)
      else let r = env.answer s.log (close_of l) in
        (record s { log = (close_of l, r) ∷ s.log }, result_of r)

  -- Whether a listener of the table listens on the interface address.
  unfoldable pub on_interface : Log → ℕ → List (ℕ × ℕ) → Bool
  on_interface log ma [] = false
  on_interface log ma ((key, l) ∷ listeners) =
      let rest = on_interface log ma listeners in
      elim (env.listen_multiaddr log l) [
        | none ↦ rest
        | some addr ↦ if addr == ma then true else rest
      ]

  -- Where the interface address is found, the source erases the end of the table.
  unfoldable pub close_listener : Listeners → ℕ → Listeners × Result
  unfolding close_left on_interface
  close_listener s ma = elim (lookup ma s.listeners) [
    | some l ↦ close_left (record s { listeners = erase ma s.listeners }) l
    | none ↦ (s, if on_interface s.log ma s.listeners then undefined else failed invalid_argument)
  ]

  unfoldable pub interface_addresses : Log → List (ℕ × ℕ) → List ℕ
  interface_addresses log [] = []
  interface_addresses log ((key, l) ∷ listeners) =
      let rest = interface_addresses log listeners in
      elim (env.listen_multiaddr log l) [ none ↦ rest | some addr ↦ addr ∷ rest ]

  unfoldable pub get_listen_addresses_interfaces : Listeners → List ℕ
  get_listen_addresses_interfaces s = interface_addresses s.log s.listeners

unfoldable pub get_listen_addresses : Listeners → List ℕ
get_listen_addresses s = keys s.listeners
