-- ===== src/Multiselect/Framing.antt =====
-- One message over the wire: what `write1` sends, `read1` gives back.
use mathlib.Core.List.{append_assoc}
use leanp2p.Prelude.{
  ℕ, ◌+◌, ◌-◌, ◌/◌, ◌^◌, ◌≤◌, ◌<◌, ◌≡◌, refl, ap, ◌∙◌, arith, List, [], ◌∷◌, ◌++◌, length,
  length-append, take, leb, if◌then◌else◌, back?-append, take-length_append, drop-length_append,
}
use leanp2p.Varint.{
  IsU64, uvarint, Reader, State, underflow, ready, overflow, error, consume, consume_bytes_loop,
  consume_bytes, reset, cut_buffer,
}
use leanp2p.Varint.Steps.{uvarint_round}
use leanp2p.Varint.RoundTrip.{append_varint-uvarint, consume_bytes-uvarint}
use leanp2p.Multiselect.{
  create_message, strip_line, k_max_message_size, k_new_line, read1, lift, write1, value,
}
use leanp2p.Multiselect.Wire.{
  internal_error, ok, err, Connection, read_in, read, write, read_varint_in, read_varint,
  read_varint_message, read_sized,
}

-- Up to 2 ^ 21 a length takes three bytes at most.
length-uvarint_small : (v : ℕ) → v < 2 ^ 21 → length (uvarint v) ≤ 3
unfolding uvarint
length-uvarint_small v h =
    ground (arith, uvarint_round 9 v, uvarint_round 8 (v / 128), uvarint_round 7 (v / 128 / 128))

-- The bytes of one message.
abbrev pub frame : List ℕ → List ℕ
frame protocol = uvarint (length protocol + 1) ++ (protocol ++ (k_new_line ∷ []))

-- `createMessage` refuses exactly the names longer than 65531 bytes: of the two tests of
-- `appendProtocol` the second never fails. The message is the length of the line, as a varint,
-- and the line with its newline.
pub create_message_lem :
    (protocol : List ℕ)
    → create_message protocol
      ≡ (if leb (length protocol) 65531 then ok (frame protocol) else err internal_error)
unfolding create_message
create_message_lem protocol = ground (
  arith,
  append_varint-uvarint [] (length protocol + 1),
  length-append (uvarint (length protocol + 1)) (protocol ++ (k_new_line ∷ [])),
  length-append protocol (k_new_line ∷ []),
  length-uvarint_small (length protocol + 1),
)

consume_answer :
    (r : Reader) (byte : ℕ) → r.state ≡ underflow → (consume r byte).1 ≡ (consume r byte).0.state
unfolding consume
consume_answer r byte fresh = ground arith

-- `readVarint` is the reader's loop over the bytes that have come.
read_varint_in-loop :
    (inbox : List ℕ) (r r' : Reader) (rest : List ℕ)
    → r.state ≡ underflow
    → consume_bytes_loop r underflow inbox ≡ (r', ready, rest)
    → read_varint_in underflow r inbox ≡ (ok r'.value, rest)
unfolding consume_bytes_loop read_varint_in
read_varint_in-loop [] r r' rest fresh e = cc
read_varint_in-loop (byte ∷ inbox) r r' rest fresh e =
    ground
      (arith, consume_answer r byte fresh, read_varint_in-loop inbox (consume r byte).0 r' rest)

cut_buffer_ready :
    (xs : List ℕ) (t : Reader × State × List ℕ) (r' : Reader) (rest : List ℕ)
    → cut_buffer xs t ≡ (r', ready, rest)
    → t ≡ (r', ready, rest)
unfolding cut_buffer
cut_buffer_ready xs (r, underflow, left) r' rest e = cc
cut_buffer_ready xs (r, ready, left) r' rest e = e
cut_buffer_ready xs (r, overflow, left) r' rest e = cc
cut_buffer_ready xs (r, error, left) r' rest e = cc

read_varint_in-uvarint :
    (v : ℕ) (rest : List ℕ)
    → IsU64 v
    → read_varint_in underflow reset (uvarint v ++ rest) ≡ (ok v, rest)
unfolding consume_bytes
read_varint_in-uvarint v rest h =
    read_varint_in-loop (uvarint v ++ rest) reset _ rest refl
      (cut_buffer_ready (uvarint v ++ rest) _ _ rest (consume_bytes-uvarint v rest h))

strip_line-append : (protocol : List ℕ) → strip_line (protocol ++ (k_new_line ∷ [])) ≡ ok protocol
unfolding strip_line
strip_line-append protocol =
    rw (back?-append protocol k_new_line, strip_line)
      (ap (λ (n : ℕ). ok (take n (protocol ++ (k_new_line ∷ [])))) {y = length protocol}
          (omega (arith, length-append protocol (k_new_line ∷ [])))
        ∙ ap ok (take-length_append protocol (k_new_line ∷ [])))

abbrev pub received : Connection → List ℕ → Connection
received c rest = record c { inbox = rest }

read_in-append : (bytes rest : List ℕ) → read_in (length bytes) (bytes ++ rest) ≡ (ok bytes, rest)
unfolding read_in
read_in-append bytes rest =
    ground (
      arith,
      length-append bytes rest,
      take-length_append bytes rest,
      drop-length_append bytes rest,
    )

read_varint-uvarint :
    (v : ℕ) (rest : List ℕ) (c : Connection)
    → IsU64 v
    → c.inbox ≡ uvarint v ++ rest
    → read_varint c ≡ (ok v, received c rest)
unfolding read_varint
read_varint-uvarint v rest c h e = ground (arith, e, read_varint_in-uvarint v rest h)

read-append :
    (bytes rest : List ℕ) (c : Connection)
    → c.inbox ≡ bytes ++ rest
    → read (length bytes) c ≡ (ok bytes, received c rest)
unfolding read
read-append bytes rest c e = ground (arith, e, read_in-append bytes rest)

-- A length-prefixed message that fits the limit is read whole, and nothing behind it.
read_varint_message-append :
    (max_size : ℕ) (bytes rest : List ℕ) (c : Connection)
    → length bytes ≤ max_size
    → IsU64 (length bytes)
    → c.inbox ≡ uvarint (length bytes) ++ (bytes ++ rest)
    → read_varint_message max_size c ≡ (ok bytes, received c rest)
unfolding read_varint_message read_sized
read_varint_message-append max_size bytes rest c h u e = ground (
  arith,
  read_varint-uvarint (length bytes) (bytes ++ rest) c u e,
  read-append bytes rest (received c (bytes ++ rest)) refl,
)

abbrev line : List ℕ → List ℕ
line protocol = protocol ++ (k_new_line ∷ [])

frame-line :
    (protocol rest : List ℕ)
    → frame protocol ++ rest ≡ uvarint (length (line protocol)) ++ (line protocol ++ rest)
frame-line protocol rest =
    append_assoc (uvarint (length protocol + 1)) (line protocol) rest
    ∙ ap (λ (n : ℕ). uvarint n ++ (line protocol ++ rest)) {y = length (line protocol)}
        (omega (arith, length-append protocol (k_new_line ∷ [])))

-- Where the message of a name of at most 65531 bytes comes in, whole and first, `read1` returns its name and takes just its bytes.
pub read1-frame :
    (protocol rest : List ℕ) (c : Connection)
    → length protocol ≤ 65531
    → c.inbox ≡ frame protocol ++ rest
    → read1 c ≡ (ok protocol, received c rest)
unfolding read1 lift
read1-frame protocol rest c h e = ground (
  arith,
  length-append protocol (k_new_line ∷ []),
  read_varint_message-append k_max_message_size (line protocol) rest c
      (omega (arith, length-append protocol (k_new_line ∷ [])))
      (omega (arith, length-append protocol (k_new_line ∷ []))) (e ∙ frame-line protocol rest),
  strip_line-append protocol,
)

-- The connection behind one more message.
abbrev pub sent : Connection → List ℕ → Connection
sent c protocol = record c { outbox = c.outbox ++ frame protocol; writes_left = c.writes_left - 1 }

pub write1-frame :
    (protocol : List ℕ) (c : Connection)
    → length protocol ≤ 65531
    → 0 < c.writes_left
    → write1 protocol c ≡ (ok tt, sent c protocol)
unfolding write1 value write
write1-frame protocol c h w = ground (arith, create_message_lem protocol)
