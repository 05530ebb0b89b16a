-- ===== src/Multihash.antt =====
-- multi/multihash: a hash with its type and length, made from its parts or read from bytes.
-- `std_hash` (a Boost hash of the same bytes), hexadecimal forms (qtils) and the moved-from object
-- are left out.
pub mod Codec
mod Tests
use leanp2p.Prelude.{
  ℕ, ◌+◌, ◌%◌, ◌<◌, Bool, true, false, ◌&&◌, List, [], ◌∷◌, ◌++◌, length, drop, ltb, ◌==◌,
  if◌then◌else◌, bytes_eq,
}
use leanp2p.Varint.{
  append_varint, Reader, State, underflow, ready, overflow, error, consume_bytes, reset,
}

pub data Error : Type 0 where
  zero_input_length input_too_long input_too_short inconsistent_length : Error

pub data Result {ℓ} (A : Type ℓ) : Type ℓ where
  ok : A → Result A
  err : Error → Result A

abbrev pub k_max_hash_length : ℕ
k_max_hash_length = 127

-- `Multihash::Data`. A `HashType` is any `uint64_t`: the parser casts to it unchecked.
pub record Multihash : Type 0 where
  pub bytes : List ℕ
  pub hash_offset : ℕ
  pub type : ℕ

-- The constructor of `Data`. The length and the offset are `uint8_t`.
unfoldable pub data_of : ℕ → List ℕ → Multihash
data_of t h =
    let header = append_varint [] t ++ ((length h % 256) ∷ []) in
    record { bytes = header ++ h; hash_offset = length header % 256; type = t }

unfoldable pub create : ℕ → List ℕ → Result Multihash
unfolding data_of
create type hash =
    if ltb k_max_hash_length (length hash) then err input_too_long else ok (data_of type hash)

-- What `createFromBytes` does with the bytes behind the type.
unfoldable pub create_from_rest : ℕ → List ℕ → Result Multihash
unfolding create
create_from_rest type [] = err input_too_short
create_from_rest type (len ∷ hash) =
    if len == 0
    then err zero_input_length
    else if length hash == len
    then create type hash
    else err inconsistent_length

unfoldable pub create_from_reader : Reader × State × List ℕ → Result Multihash
unfolding create_from_rest
create_from_reader (vr, ready, b) = create_from_rest vr.value b
create_from_reader (vr, underflow, b) = err input_too_short
create_from_reader (vr, overflow, b) = err input_too_short
create_from_reader (vr, error, b) = err input_too_short

unfoldable pub create_from_bytes : List ℕ → Result Multihash
unfolding create_from_reader
create_from_bytes b = create_from_reader (consume_bytes reset b)

-- `getHash`, `operator==` and `operator<` (the order of `std::vector` on the bytes).
unfoldable pub get_hash : Multihash → List ℕ
get_hash m = drop m.hash_offset m.bytes

unfoldable pub equal : Multihash → Multihash → Bool
equal a b = bytes_eq a.bytes b.bytes && a.type == b.type

unfoldable pub bytes_lt : List ℕ → List ℕ → Bool
bytes_lt xs [] = false
bytes_lt [] (y ∷ ys) = true
bytes_lt (x ∷ xs) (y ∷ ys) = if ltb x y then true else if ltb y x then false else bytes_lt xs ys

unfoldable pub less : Multihash → Multihash → Bool
unfolding bytes_lt
less a b = if a.type == b.type then bytes_lt a.bytes b.bytes else ltb a.type b.type
