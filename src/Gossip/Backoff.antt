-- ===== src/Gossip/Backoff.antt =====
-- `TopicBackoff` of protocol/gossip: which peers may not be grafted, in slots of a heartbeat each.
-- A peer is its number; where the source keeps the list iterator of a peer's entry the model
-- finds the entry in the list by the peer. `slot_`, a `size_t`, does not wrap.
pub mod Slots
pub mod Refinement
pub mod Invariant
pub mod Update
use leanp2p.Prelude.{
  ℕ, zero, suc, ◌+◌, ◌-◌, ◌/◌, ◌%◌, ◌≤◌, ◌<◌, min, List, [], ◌∷◌, ◌++◌, Option, none, some, length,
  get_or, set, replicate, leb, ◌==◌, if◌then◌else◌,
}
use leanp2p.Prelude.Eq.{nat_eq}
use leanp2p.Prelude.Maps.{lookup, erase, emplace, modify, remove}

pub record Backoff : Type 0 where
  pub slots : List (List ℕ)
  pub slot : ℕ
  pub peers : List (ℕ × ℕ)

-- The constructor; the arguments are `prune_backoff`, `heartbeat_interval` and `backoff_slack`.
unfoldable pub init : ℕ → ℕ → ℕ → Backoff
init prune_backoff heartbeat_interval backoff_slack = record {
  slots = replicate (prune_backoff / heartbeat_interval + backoff_slack + 1) [];
  slot = 0;
  peers = [];
}

-- `saturating_sub` is the subtraction of ℕ.
unfoldable pub get : Backoff → ℕ → ℕ
get b peer = elim (lookup peer b.peers) [ none ↦ 0 | some horizon ↦ horizon - b.slot ]

-- The lambda `insert` on the lists: the peer goes to the end of the list of its horizon.
unfoldable pub put : List (List ℕ) → ℕ → ℕ → List (List ℕ)
put slots horizon peer =
    let i = horizon % length slots in set slots i (get_or slots i [] ++ (peer ∷ []))

unfoldable pub take_out : List (List ℕ) → ℕ → ℕ → List (List ℕ)
take_out slots horizon peer =
    let i = horizon % length slots in set slots i (remove peer (get_or slots i []))

-- `update` once the new horizon is known.
unfoldable pub move_to : Backoff → ℕ → ℕ → Option ℕ → Backoff
unfolding put take_out
move_to b peer horizon none = record b {
  slots = put b.slots horizon peer;
  peers = emplace peer horizon b.peers;
}
move_to b peer horizon (some old) = if leb horizon old then b else record b {
  slots = put (take_out b.slots old peer) horizon peer;
  peers = modify peer (λ _. horizon) b.peers;
}

unfoldable pub update : Backoff → ℕ → ℕ → Backoff
unfolding move_to
update b peer slots =
    if slots == 0
    then b
    else move_to b peer (b.slot + min slots (length b.slots - 1)) (lookup peer b.peers)

unfoldable pub erase_all : List ℕ → List (ℕ × ℕ) → List (ℕ × ℕ)
erase_all [] peers = peers
erase_all (peer ∷ slot) peers = erase_all slot (erase peer peers)

unfoldable pub shift : Backoff → Backoff
unfolding erase_all
shift b =
    let i = b.slot % length b.slots in
    record {
      slots = set b.slots i [];
      slot = b.slot + 1;
      peers = erase_all (get_or b.slots i []) b.peers;
    }
