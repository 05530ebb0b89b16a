-- ===== src/Varint.antt =====
-- Unsigned LEB128 numbers: multi/uvarint, basic/varint_prefix_reader, basic/encode_varint and
-- the `appendVarint` templates. A byte is a number below 256, a `uint64_t` one below 2 ^ 64.
pub mod Steps
pub mod RoundTrip
pub mod Rounds
pub mod Agree
pub mod Size
pub mod Encode
mod Tests
use leanp2p.Prelude.{
  ℕ, zero, suc, ◌+◌, ◌-◌, ◌*◌, ◌/◌, ◌%◌, ◌^◌, ◌<◌, bit_and, bit_or, not, ◌&&◌, ◌||◌, List, [], ◌∷◌,
  ◌++◌, Option, none, some, ltb, leb, ◌==◌, if◌then◌else◌, take, replicate, set,
}

abbrev pub IsByte : ℕ → Type 0
IsByte b = b < 256

abbrev pub IsU64 : ℕ → Type 0
IsU64 v = v < 2 ^ 64

-- The do-while loop of the constructor from a number, one byte a round.
unfoldable pub uvarint_loop : ℕ → ℕ → List ℕ
uvarint_loop zero number = []
uvarint_loop (suc fuel) number =
    let byte = bit_and (number % 256) 0x7f in
    let number' = number / 2 ^ 7 in
    let rest = uvarint_loop fuel number' in
    if not (number' == 0) then bit_or byte 0x80 ∷ rest else byte ∷ []

-- Ten rounds empty a `uint64_t`.
unfoldable pub uvarint : ℕ → List ℕ
uvarint number = uvarint_loop 10 number

-- `UVarint::toUInt64`: `index` grows by 7 a byte, sums and shifts are of `uint64_t`.
unfoldable pub to_uint64_loop : List ℕ → ℕ → ℕ → ℕ
to_uint64_loop [] res index = res
to_uint64_loop (byte ∷ bytes) res index =
    to_uint64_loop bytes ((res + bit_and byte 0x7f * 2 ^ index % 2 ^ 64) % 2 ^ 64) (index + 7)

unfoldable pub to_uint64 : List ℕ → ℕ
to_uint64 bytes = to_uint64_loop bytes 0 0

-- `UVarint::calculateSize`. The answer 0 stands for no valid varint.
unfoldable pub calculate_size_loop : List ℕ → ℕ → ℕ → ℕ
calculate_size_loop [] size shift = 0
calculate_size_loop (byte ∷ bytes) size shift =
    let slice = bit_and byte 0x7f in
    let rest = calculate_size_loop bytes (size + 1) (shift + 7) in
    if leb 64 shift || not (slice * 2 ^ shift % 2 ^ 64 / 2 ^ shift == slice)
    then 0
    else if bit_and byte 0x80 == 0
    then size + 1
    else rest

unfoldable pub calculate_size : List ℕ → ℕ
calculate_size bytes = calculate_size_loop bytes 0 0

-- `UVarint::create`: the bytes that the varint keeps.
unfoldable pub create : List ℕ → Option (List ℕ)
create bytes =
    let size = calculate_size bytes in if ltb 0 size then some (take size bytes) else none

-- `appendVarint` of multihash.cpp and of multiselect/serializing.hpp: `push_back` on a buffer.
unfoldable pub append_varint_loop : ℕ → List ℕ → ℕ → List ℕ
append_varint_loop zero buffer t = buffer
append_varint_loop (suc fuel) buffer t =
    let byte = bit_and t 0x7f in
    let t' = t / 2 ^ 7 in
    let buffer' = buffer ++ (if not (t' == 0) then bit_or byte 0x80 else byte) ∷ [] in
    let rest = append_varint_loop fuel buffer' t' in if ltb 0 t' then rest else buffer'

unfoldable pub append_varint : List ℕ → ℕ → List ℕ
append_varint buffer t = append_varint_loop 10 buffer t

-- `EncodeVarint`: the same loop into a fixed array of ten bytes. `none` is the failed `assert`.
pub record Encoded : Type 0 where
  pub size : ℕ
  pub buffer : List ℕ

unfoldable pub encode_varint_loop : ℕ → Encoded → ℕ → Option Encoded
encode_varint_loop zero e value = none
encode_varint_loop (suc fuel) e value =
    let byte = bit_and value 0x7f in
    let value' = value / 2 ^ 7 in
    let byte' = if not (value' == 0) then bit_or byte 0x80 else byte in
    let e' : Encoded = record { size = e.size + 1; buffer = set e.buffer e.size byte' } in
    let rest = encode_varint_loop fuel e' value' in
    if ltb e.size 10 then (if not (value' == 0) then rest else some e') else none

unfoldable pub encode_varint : ℕ → Option Encoded
encode_varint value = encode_varint_loop 10 (record { size = 0; buffer = replicate 10 0 }) value

-- `EncodeVarint::operator BytesIn`.
unfoldable pub encoded_bytes : Encoded → List ℕ
encoded_bytes e = take e.size e.buffer

-- `VarintPrefixReader`.
pub data State : Type 0 where
  underflow ready overflow error : State

pub record Reader : Type 0 where
  pub value : ℕ
  pub state : State
  pub got_bytes : ℕ

abbrev pub reset : Reader
reset = record { value = 0; state = underflow; got_bytes = 0 }

-- What one byte does in the state `kUnderflow`.
unfoldable pub take_byte : Reader → ℕ → Reader × State
take_byte r byte =
    let next_byte_needed = not (bit_and byte 0x80 == 0) in
    let tmp = bit_and byte 0x7f in
    let got = r.got_bytes + 1 in
    let shifted = if got == 1 then tmp else tmp * 2 ^ (7 * (got - 1)) % 2 ^ 64 in
    let state' = if next_byte_needed then underflow else ready in
    if got == 10 && (ltb 1 tmp || next_byte_needed)
    then (record { value = r.value; state = overflow; got_bytes = got }, overflow)
    else (record { value = (r.value + shifted) % 2 ^ 64; state = state'; got_bytes = got }, state')

unfoldable pub consume_in : State → Reader → ℕ → Reader × State
unfolding take_byte
consume_in underflow r byte = take_byte r byte
consume_in ready r byte = (r, error)
consume_in overflow r byte = (r, overflow)
consume_in error r byte = (r, error)

-- `VarintPrefixReader::consume(uint8_t)`.
unfoldable pub consume : Reader → ℕ → Reader × State
unfolding consume_in
consume r byte = consume_in r.state r byte

-- The loop of `consume(BytesIn &)`: it stops behind the first byte that leaves `kUnderflow`.
unfoldable pub consume_bytes_loop : Reader → State → List ℕ → Reader × State × List ℕ
consume_bytes_loop r s [] = (r, s, [])
consume_bytes_loop r s (byte ∷ buffer) =
    let (r', s') = consume r byte in
    let rest = consume_bytes_loop r' s' buffer in
    elim s' [ underflow ↦ rest | other ↦ (r', other, buffer) ]

-- The buffer is cut only where the reader answers `kReady` or `kUnderflow`.
unfoldable pub cut_buffer : List ℕ → Reader × State × List ℕ → Reader × State × List ℕ
cut_buffer buffer (r, underflow, rest) = (r, underflow, rest)
cut_buffer buffer (r, ready, rest) = (r, ready, rest)
cut_buffer buffer (r, overflow, rest) = (r, overflow, buffer)
cut_buffer buffer (r, error, rest) = (r, error, buffer)

-- `VarintPrefixReader::consume(BytesIn &)`, with what it leaves of the buffer.
unfoldable pub consume_bytes : Reader → List ℕ → Reader × State × List ℕ
unfolding cut_buffer
consume_bytes r buffer = cut_buffer buffer (consume_bytes_loop r r.state buffer)
