-- ===== src/Network/Dialer.antt =====
-- `Dialer` of network/dialer, with the manager and the address repository that it calls. A dial waits
-- where the source awaits the transport; `resume` goes on with what the transport gives. `can_dial` says
-- for which addresses the transport manager finds a transport, `remote` is the peer of a connection.
pub mod Alone
pub mod Turns
pub mod System
mod Tests
use leanp2p.Prelude.{
  ℕ, Bool, true, false, ◌||◌, List, [], ◌∷◌, ◌++◌, Option, none, some, ◌==◌, if◌then◌else◌,
}
use leanp2p.Prelude.Eq.{nat_eq}
use leanp2p.Prelude.Maps.{lookup, has, erase, modify, emplace, insert, member}
use leanp2p.AddressRepository.{Addresses, dial_failed}
use leanp2p.Network.Manager.{Manager, get_best_connection_for_peer, add_connection_to_peer}

-- `Dialer::Error`, and those of the transports.
pub data Error : Type 0 where
  another_dial_in_progress state_inconsistency no_destination_address : Error
  address_family_not_supported host_unreachable : Error
  transport : ℕ → Error

pub data DialResult : Type 0 where
  connected : ℕ → DialResult
  failed : Error → DialResult

-- What a transport gives: a connection or an error of its own.
pub data Attempt : Type 0 where
  reached : ℕ → Attempt
  refused : ℕ → Attempt

-- `result` is an error whenever it is there.
pub record DialCtx : Type 0 where
  pub addr_queue : List ℕ
  pub addr_seen : List ℕ
  pub result : Option ℕ
  pub dialled : Bool

pub record Dialer : Type 0 where
  pub cmgr : Manager
  pub addr_repo : List (ℕ × Addresses ℕ)
  pub dialing_peers : List (ℕ × DialCtx)

-- Where a coroutine stands: at its end, or at the transport's dial of an address.
pub data Outcome : Type 0 where
  done : DialResult → Outcome
  waiting : ℕ → Outcome

abbrev pub set_of : List ℕ → List ℕ
set_of [] = []
set_of (a ∷ addresses) = insert a (set_of addresses)

-- The addresses that are new to a dial in progress go to its queue.
unfoldable pub add_new : DialCtx → List ℕ → DialCtx
add_new ctx [] = ctx
add_new ctx (addr ∷ addresses) =
    add_new
      (if member addr ctx.addr_seen then ctx else record ctx {
        addr_seen = insert addr ctx.addr_seen;
        addr_queue = ctx.addr_queue ++ (addr ∷ []);
      })
      addresses

unfoldable pub complete_dial : Dialer → ℕ → Dialer
complete_dial s p = record s { dialing_peers = erase p s.dialing_peers }

unfoldable pub set_ctx : Dialer → ℕ → DialCtx → Dialer
set_ctx s p ctx = record s { dialing_peers = modify p (λ old. ctx) s.dialing_peers }

-- What an exhausted queue answers.
unfoldable pub final_result : DialCtx → DialResult
final_result ctx =
    if ctx.dialled
    then elim ctx.result [ none ↦ failed host_unreachable | some e ↦ failed (transport e) ]
    else failed address_family_not_supported

module _ (can_dial : ℕ → Bool) (remote : ℕ → ℕ) where
  -- `rotate` once the context is found: it calls itself for each address without a transport.
  unfoldable pub rotate_queue : Dialer → ℕ → DialCtx → List ℕ → Dialer × Outcome
  unfolding complete_dial set_ctx final_result
  rotate_queue s p ctx [] = (complete_dial s p, done (final_result ctx))
  rotate_queue s p ctx (addr ∷ addr_queue) =
      let rest = rotate_queue s p ctx addr_queue in
      if can_dial addr
      then (set_ctx s p (record ctx { addr_queue = addr_queue; dialled = true }), waiting addr)
      else rest

  unfoldable pub rotate : Dialer → ℕ → Dialer × Outcome
  unfolding rotate_queue
  rotate s p = elim (lookup p s.dialing_peers) [
    | none ↦ (s, done (failed state_inconsistency))
    | some ctx ↦ rotate_queue s p ctx ctx.addr_queue
  ]

  -- `ListenerManager::onConnection` on a connection: the table gets it. The loop that accepts its streams
  -- is a coroutine of its own.
  unfoldable pub on_connection : Dialer → ℕ → Dialer
  on_connection s conn = record s { cmgr = add_connection_to_peer s.cmgr (remote conn) conn }

  unfoldable pub address_failed : Dialer → ℕ → ℕ → Dialer
  address_failed s p addr = record s {
    addr_repo = modify p (λ addresses. dial_failed addresses addr) s.addr_repo;
  }

  -- The rest of `rotate` behind the transport's dial, once the context is found.
  unfoldable pub resume_found : Dialer → ℕ → ℕ → DialCtx → Attempt → Dialer × Outcome
  unfolding rotate on_connection address_failed complete_dial set_ctx
  resume_found s p addr ctx (reached conn) =
      (complete_dial (on_connection s conn) p, done (connected conn))
  resume_found s p addr ctx (refused e) =
      rotate (set_ctx (address_failed s p addr) p (record ctx { result = some e })) p

  -- A dial that is gone closes the connection, which is not modelled.
  unfoldable pub resume : Dialer → ℕ → ℕ → Attempt → Dialer × Outcome
  unfolding resume_found
  resume s p addr attempt = elim (lookup p s.dialing_peers) [
    | none ↦ (s, done (failed state_inconsistency))
    | some ctx ↦ resume_found s p addr ctx attempt
  ]

  -- `dial` where there is no connection and no dial in progress.
  unfoldable pub dial_new : Dialer → ℕ → List ℕ → Dialer × Outcome
  unfolding rotate
  dial_new s p [] = (s, done (failed no_destination_address))
  dial_new s p (addr ∷ addresses) =
      let new_ctx : DialCtx = record {
        addr_queue = addr ∷ addresses;
        addr_seen = set_of (addr ∷ addresses);
        result = none;
        dialled = false;
      } in
      rotate (record s { dialing_peers = emplace p new_ctx s.dialing_peers }) p

  unfoldable pub dial : Dialer → ℕ → List ℕ → Dialer × Outcome
  unfolding dial_new add_new set_ctx
  dial s p addresses = elim (get_best_connection_for_peer s.cmgr p) [
    | some conn ↦ (s, done (connected conn))
    | none ↦ elim (lookup p s.dialing_peers) [
      | some ctx ↦ (set_ctx s p (add_new ctx addresses), done (failed another_dial_in_progress))
      | none ↦ dial_new s p addresses
    ]
  ]
