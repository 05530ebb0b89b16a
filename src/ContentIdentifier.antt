-- ===== src/ContentIdentifier.antt =====
-- Content identifiers (multi/content_identifier) and their byte form (multi/content_identifier_codec). The
-- text forms call the base codecs and are left out.
pub mod RoundTrip
mod Tests
use leanp2p.Prelude.{
  ℕ, ◌+◌, ◌-◌, ◌%◌, ◌^◌, ◌<◌, Bool, true, false, ◌&&◌, ◌||◌, List, [], ◌∷◌, ◌++◌, Option, none,
  some, length, take, drop, ltb, ◌==◌, if◌then◌else◌,
}
use leanp2p.Varint
use leanp2p.Varint.{to_uint64, calculate_size, encode_varint, encoded_bytes}
use leanp2p.Multihash
use leanp2p.Multihash.{Multihash, create_from_bytes, get_hash}

pub data Version : Type 0 where
  v0 v1 : Version

-- A `MulticodecType::Code` is an `int`, here the 32 bits of it.
pub record ContentIdentifier : Type 0 where
  pub version : Version
  pub content_type : ℕ
  pub content_address : Multihash

abbrev pub dag_pb : ℕ
dag_pb = 0x70

abbrev pub sha256 : ℕ
sha256 = 0x12

-- The conversions between `int` and `uint64_t`.
unfoldable pub code_to_u64 : ℕ → ℕ
code_to_u64 code = if ltb code (2 ^ 31) then code else code + (2 ^ 64 - 2 ^ 32)

unfoldable pub code_of_u64 : ℕ → ℕ
code_of_u64 value = value % 2 ^ 32

-- `EncodeError`, `DecodeError`, and those of the multihash. `failed_assertion` is that of `EncodeVarint`.
pub data Error : Type 0 where
  invalid_content_type invalid_hash_type invalid_hash_length : Error
  empty_version empty_multicodec malformed_version reserved_version : Error
  failed_assertion : Error
  multihash : Multihash.Error → Error

pub data Result {ℓ} (A : Type ℓ) : Type ℓ where
  ok : A → Result A
  err : Error → Result A

-- `OUTCOME_TRY`.
infixl 5 ◌>>=◌
abbrev pub ◌>>=◌ {ℓ κ} : {A : Type ℓ} {B : Type κ} → Result A → (A → Result B) → Result B
ok a >>= f = f a
err e >>= f = err e

-- `BytesIn` of an `EncodeVarint`, put into the bytes.
unfoldable pub put_varint : ℕ → List ℕ → Result (List ℕ)
put_varint value bytes = elim (encode_varint value) [
  | none ↦ err failed_assertion
  | some e ↦ ok (bytes ++ encoded_bytes e)
]

unfoldable pub encode_v1 : ℕ → Multihash → Result (List ℕ)
encode_v1 content_type hash = do
  version ← put_varint 1 []
  bytes ← put_varint (code_to_u64 content_type) version
  ok (bytes ++ hash.bytes)

unfoldable pub encode_v0 : ℕ → Multihash → Result (List ℕ)
encode_v0 content_type hash =
    if content_type == dag_pb
    then if hash.type == sha256
      then if length (get_hash hash) == 32 then ok hash.bytes else err invalid_hash_length
      else err invalid_hash_type
    else err invalid_content_type

unfoldable pub encode_as : Version → ℕ → Multihash → Result (List ℕ)
unfolding encode_v0 encode_v1
encode_as v0 content_type hash = encode_v0 content_type hash
encode_as v1 content_type hash = encode_v1 content_type hash

unfoldable pub encode : ContentIdentifier → Result (List ℕ)
unfolding encode_as
encode cid = encode_as cid.version cid.content_type cid.content_address

-- `encodeCIDV0`; `digest` is `crypto::sha256`.
unfoldable pub encode_cid_v0 : (List ℕ → List ℕ) → List ℕ → List ℕ
encode_cid_v0 digest bytes = let hash = digest bytes in sha256 ∷ (length hash % 256) ∷ hash

unfoldable pub encode_cid_v1 : ℕ → Multihash → List ℕ
encode_cid_v1 content_type hash = 1 ∷ (content_type % 256) ∷ hash.bytes

-- The multihash of an identifier.
unfoldable pub with_hash : Version → ℕ → Multihash.Result Multihash → Result ContentIdentifier
with_hash version content_type (Multihash.ok hash) =
    ok (record { version = version; content_type = content_type; content_address = hash })
with_hash version content_type (Multihash.err e) = err (multihash e)

-- `decode` behind the version 1, which `bytes` still has.
unfoldable pub decode_v1 : List ℕ → Result ContentIdentifier
unfolding with_hash
decode_v1 bytes =
    let version_length = calculate_size bytes in
    let rest = drop version_length bytes in
    elim (Varint.create rest) [
      | none ↦ err empty_multicodec
      | some multicodec ↦
          with_hash v1 (code_of_u64 (to_uint64 multicodec))
            (create_from_bytes (drop (version_length + calculate_size rest) bytes))
    ]

unfoldable pub starts_with : ℕ → ℕ → List ℕ → Bool
starts_with a b [] = false
starts_with a b (x ∷ []) = false
starts_with a b (x ∷ y ∷ bytes) = x == a && y == b

unfoldable pub decode : List ℕ → Result ContentIdentifier
unfolding decode_v1 with_hash
decode bytes =
    if length bytes == 34 && starts_with 0x12 0x20 bytes
    then with_hash v0 dag_pb (create_from_bytes bytes)
    else elim (Varint.create bytes) [
      | none ↦ err empty_version
      | some version ↦
          if to_uint64 version == 1
          then decode_v1 bytes
          else if to_uint64 version == 0
          then err malformed_version
          else err reserved_version
    ]
