-- ===== src/Multiselect.antt =====
-- protocol_muxer/multiselect: the messages of serializing.hpp and the negotiation of
-- multiselect.cpp. A protocol name is its bytes.
pub mod Wire
pub mod Framing
pub mod Initiator
pub mod Responder
pub mod Ends
mod Tests
use leanp2p.Prelude.{
  ℕ, zero, suc, ◌+◌, ◌-◌, ◌≤◌, ◌<◌, ◌≡◌, Bool, true, false, not, ◌||◌, List, [], ◌∷◌, ◌++◌, length,
  take, get_elem?, Option, none, some, ltb, leb, ◌==◌, if◌then◌else◌, codes, bytes_eq, back?,
}
use leanp2p.Varint.{append_varint}
use Wire.{
  Error, negotiation_failed, internal_error, protocol_violation, thrown, stuck, Result, ok, err,
  Connection, M, and_then, ◌>>=◌, ◌>>◌, return, fail, write, read_varint_message,
}

abbrev pub k_protocol_id : List ℕ
k_protocol_id = codes "/multistream/1.0.0"

abbrev pub k_na : List ℕ
k_na = codes "na"

abbrev pub k_max_message_size : ℕ
k_max_message_size = 65535

abbrev pub k_max_varint_size : ℕ
k_max_varint_size = 3

abbrev pub k_new_line : ℕ
k_new_line = 0x0a

-- `appendProtocol`.
unfoldable pub append_protocol : List ℕ → List ℕ → Result (List ℕ)
append_protocol buffer protocol =
    let msg_size = length protocol + 1 in
    let buffer' = append_varint buffer msg_size ++ (protocol ++ (k_new_line ∷ [])) in
    if ltb (k_max_message_size - k_max_varint_size) msg_size
    then err internal_error
    else if leb (length buffer') k_max_message_size
    then ok buffer'
    else err internal_error

-- `createMessage` of one string.
unfoldable pub create_message : List ℕ → Result (List ℕ)
unfolding append_protocol
create_message protocol = append_protocol [] protocol

-- `message.back()` and the name without it.
unfoldable pub strip_line : List ℕ → Result (List ℕ)
strip_line message = elim (back? message) [
  | none ↦ err protocol_violation
  | some last ↦
      if last == k_new_line then ok (take (length message - 1) message) else err protocol_violation
]

unfoldable pub lift : {A : Type 0} → Result A → M A
lift (ok a) c = (ok a, c)
lift (err e) c = (err e, c)

unfoldable pub read1 : M (List ℕ)
unfolding lift
read1 = do message ← read_varint_message k_max_message_size; lift (strip_line message)

-- `.value()` throws where the message cannot be made.
unfoldable pub value : {A : Type 0} → Result A → M A
value (ok a) c = (ok a, c)
value (err e) c = (err thrown, c)

unfoldable pub write1 : List ℕ → M (Unit {0})
unfolding value
write1 protocol = do message ← value (create_message protocol); write message

-- `std::ranges::contains`.
unfoldable pub contains : List (List ℕ) → List ℕ → Bool
contains [] protocol = false
contains (p ∷ ps) protocol = bytes_eq p protocol || contains ps protocol

unfoldable pub when : Bool → M (Unit {0}) → M (Unit {0})
when true m c = m c
when false m c = (ok tt, c)

-- `protocol != protocols[i]`, and `co_return protocol`.
unfoldable pub accept : List (List ℕ) → ℕ → List ℕ → M (List ℕ)
accept protocols i protocol = elim (get_elem? protocols i) [
  | none ↦ fail protocol_violation
  | some p ↦ if bytes_eq protocol p then return protocol else fail protocol_violation
]

-- After "na": `++i`, the end of the list, and the next proposal.
unfoldable pub propose_next : List (List ℕ) → ℕ → List ℕ → M (List ℕ)
unfolding accept
propose_next protocols i protocol = elim (get_elem? protocols (i + 1)) [
  | none ↦ fail negotiation_failed
  | some next ↦ do write1 next; accept protocols (i + 1) protocol
]

-- The initiator's `while (true)`: every path through its body returns, so it has one round.
unfoldable pub initiator : List (List ℕ) → ℕ → M (List ℕ)
unfolding propose_next
initiator protocols i = do
  protocol ← read1
  if bytes_eq protocol k_na then propose_next protocols i protocol else accept protocols i protocol

-- One proposal: echo a supported one, and answer "na" and go on otherwise.
unfoldable pub answer : M (List ℕ) → List (List ℕ) → List ℕ → M (List ℕ)
answer again protocols protocol =
    if contains protocols protocol
    then write1 protocol >> return protocol
    else (write1 k_na >> again)

-- The responder's `while (true)`.
unfoldable pub responder : ℕ → List (List ℕ) → M (List ℕ)
unfolding answer
responder zero protocols = fail stuck
responder (suc fuel) protocols =
    let again = responder fuel protocols in read1 >>= λ protocol. answer again protocols protocol

unfoldable pub expect_protocol_id : List ℕ → M (Unit {0})
expect_protocol_id protocol =
    if bytes_eq protocol k_protocol_id then return tt else fail protocol_violation

unfoldable pub handshake : M (Unit {0})
unfolding expect_protocol_id
handshake = do protocol ← read1; expect_protocol_id protocol

-- The two loops. A round of the responder takes a byte at least, so the inbox bounds the rounds.
unfoldable pub conclude : Bool → List (List ℕ) → M (List ℕ)
conclude true protocols c = initiator protocols 0 c
conclude false protocols c = responder (length c.inbox + 1) protocols c

-- `selectOneOf`.
unfoldable pub select_one_of : List (List ℕ) → Bool → Bool → M (List ℕ)
unfolding when conclude
select_one_of [] is_initiator negotiate_multistream = fail negotiation_failed
select_one_of (first ∷ more) is_initiator negotiate_multistream = do
  when negotiate_multistream (write1 k_protocol_id)
  when is_initiator (write1 first)
  when negotiate_multistream handshake
  conclude is_initiator (first ∷ more)
