-- ===== src/ContentIdentifier/RoundTrip.antt =====
-- The byte form of a content identifier.
use leanp2p.Prelude.{
  ℕ, ◌+◌, ◌/◌, ◌%◌, ◌^◌, ◌<◌, ◌≡◌, ◌↔◌, refl, sym, ap, ◌∙◌, arith, Bool, true, false, ◌&&◌, List,
  [], ◌∷◌, ◌++◌, some, length, drop, ◌==◌, All, All-append, length-append, drop-length_append,
  drop-drop, suc,
}
use leanp2p.Varint
use leanp2p.Varint.{IsByte, IsU64, uvarint, to_uint64, calculate_size, encode_varint, encoded_bytes}
use leanp2p.Varint.RoundTrip.{to_uint64-uvarint, length-uvarint_loop}
use leanp2p.Varint.Steps.{uvarint_round}
use leanp2p.Varint.Size.{create-uvarint, uvarint-IsByte}
use leanp2p.Varint.Encode.{encode_varint-uvarint}
use leanp2p.Multihash
use leanp2p.Multihash.{Multihash, create_from_bytes, get_hash, data_of}
use leanp2p.Multihash.Codec.{create_ok, data_of_bytes, create_from_bytes-create}
use leanp2p.ContentIdentifier.{
  Version, v0, v1, ContentIdentifier, Result, ok, err, dag_pb, sha256, code_to_u64, code_of_u64,
  put_varint, encode_v0, encode_v1, encode, encode_cid_v1, with_hash, decode_v1, starts_with,
  decode,
}

code_of_u64-code_to_u64 :
    (code : ℕ) → code < 2 ^ 32 → IsU64 (code_to_u64 code) × (code_of_u64 (code_to_u64 code) ≡ code)
unfolding code_of_u64 code_to_u64
code_of_u64-code_to_u64 code h = ground arith

put_varint-uvarint :
    (value : ℕ) (bytes : List ℕ)
    → IsU64 value
    → put_varint value bytes ≡ ok (bytes ++ uvarint value)
unfolding put_varint
put_varint-uvarint value bytes h =
    let (e, run, same, small) = encode_varint-uvarint value h in rw (run, same, put_varint)

one_byte : (v : ℕ) → v < 128 → uvarint v ≡ v ∷ []
unfolding uvarint
one_byte v h = ground (arith, uvarint_round 9 v)

-- The bytes of version 1.
encode_v1_bytes :
    (content_type : ℕ) (hash : Multihash)
    → content_type < 2 ^ 32
    → encode_v1 content_type hash ≡ ok (1 ∷ (uvarint (code_to_u64 content_type) ++ hash.bytes))
unfolding encode_v1
encode_v1_bytes content_type hash h = rw (
  put_varint-uvarint 1 [] (omega arith),
  one_byte 1 (omega arith),
  put_varint-uvarint (code_to_u64 content_type) (1 ∷ []) (code_of_u64-code_to_u64 content_type h).0,
  encode_v1,
)

-- What the decoder finds at the front of the bytes of version 1.
version_found :
    (rest : List ℕ)
    → All IsByte rest
    → (calculate_size (1 ∷ rest) ≡ 1) × (Varint.create (1 ∷ rest) ≡ some (1 ∷ []))
version_found rest h =
    let one = one_byte 1 (omega arith) in
    let (size, created) = create-uvarint 1 rest (omega arith) h in
    (
      ap (λ l. calculate_size (l ++ rest)) (sym one) ∙ size ∙ ap length one,
      ap (λ l. Varint.create (l ++ rest)) (sym one) ∙ created ∙ ap (λ l. some l) one,
    )

one_value : to_uint64 (1 ∷ []) ≡ 1
one_value = ap to_uint64 (sym (one_byte 1 (omega arith))) ∙ to_uint64-uvarint 1 (omega arith)

not_v0 : (b : Bool) (rest : List ℕ) → (b && starts_with 0x12 0x20 (1 ∷ rest)) ≡ false
unfolding starts_with
not_v0 true [] = refl
not_v0 true (x ∷ rest) = refl
not_v0 false [] = refl
not_v0 false (x ∷ rest) = refl

decode_version : (rest : List ℕ) → All IsByte rest → decode (1 ∷ rest) ≡ decode_v1 (1 ∷ rest)
unfolding decode starts_with
decode_version rest h =
    let prefix : (length (1 ∷ rest) == 34 && starts_with 0x12 0x20 (1 ∷ rest)) ≡ false =
      not_v0 (length (1 ∷ rest) == 34) rest in
    rw (prefix, (version_found rest h).1, one_value, decode)

-- `decode_v1` by what it finds.
decode_v1_found :
    (n k : ℕ) (bytes rest multicodec : List ℕ)
    → calculate_size bytes ≡ n
    → drop n bytes ≡ rest
    → Varint.create rest ≡ some multicodec
    → calculate_size rest ≡ k
    → decode_v1 bytes
      ≡ with_hash v1 (code_of_u64 (to_uint64 multicodec)) (create_from_bytes (drop (n + k) bytes))
unfolding decode_v1
decode_v1_found n k bytes rest multicodec a b c d = ground (arith, a, b, c, d)

decode_v1_bytes :
    (content_type : ℕ) (hash : List ℕ)
    → content_type < 2 ^ 32
    → All IsByte hash
    → decode_v1 (1 ∷ (uvarint (code_to_u64 content_type) ++ hash))
      ≡ with_hash v1 content_type (create_from_bytes hash)
unfolding decode_v1
decode_v1_bytes content_type hash h b =
    let (small, back) = code_of_u64-code_to_u64 content_type h in
    let u = uvarint (code_to_u64 content_type) in
    let (size, created) = create-uvarint (code_to_u64 content_type) hash small b in
    let (size1, created1) =
      version_found (u ++ hash)
        (All-append IsByte u hash (uvarint-IsByte (code_to_u64 content_type) small) b) in
    let rest : drop (1 + length u) (1 ∷ (u ++ hash)) ≡ hash =
      sym (drop-drop (length u) 1 (1 ∷ (u ++ hash))) ∙ drop-length_append u hash in
    decode_v1_found 1 (length u) (1 ∷ (u ++ hash)) (u ++ hash) u size1 refl created size
    ∙ (λ i.
        with_hash v1 (code_of_u64 (to_uint64-uvarint (code_to_u64 content_type) small i))
          (create_from_bytes (rest i)))
    ∙ ap (λ (k : ℕ). with_hash v1 k (create_from_bytes hash)) back

-- What `encode` asks of an identifier of each version.
abbrev pub Fits : Version → ℕ → ℕ → List ℕ → Type 0
Fits v0 content_type type hash = (content_type ≡ dag_pb) × (type ≡ sha256) × (length hash ≡ 32)
Fits v1 content_type type hash = Unit {0}

module _ (content_type type : ℕ) (hash : List ℕ) (address : Multihash)
    (code : content_type < 2 ^ 32) (u64 : IsU64 type) (bytes : All IsByte hash)
    (some_bytes : 0 < length hash)
    (created : Multihash.create type hash ≡ Multihash.ok address) where
  address_bytes : address.bytes ≡ uvarint type ++ (length hash ∷ hash)
  address_bytes =
      let (small, made) = create_ok type hash address created in
      ap (λ (m : Multihash). m.bytes) made ∙ data_of_bytes type hash small

  read_back : create_from_bytes address.bytes ≡ Multihash.ok address
  read_back =
      let not_empty : (length hash == 0) ≡ false = ground arith in
      (create_from_bytes-create type hash address u64 created).2 ∙ rw not_empty

  address-IsByte : All IsByte address.bytes
  address-IsByte =
      let (small, made) = create_ok type hash address created in
      rw address_bytes (
        All-append IsByte (uvarint type) (length hash ∷ hash) (uvarint-IsByte type u64)
          (omega arith, bytes))

  encode_v0-Fits :
      Fits v0 content_type type hash → encode_v0 content_type address ≡ ok address.bytes
  unfolding encode_v0
  encode_v0-Fits (dag, sha, long) =
      let (same_type, same_hash, parsed) = create_from_bytes-create type hash address u64 created in
      ground (arith, same_type, ap length same_hash)

  v0_bytes : Fits v0 content_type type hash → address.bytes ≡ 0x12 ∷ 0x20 ∷ hash
  v0_bytes (dag, sha, long) =
      address_bytes
      ∙ ap (λ l. l ++ (length hash ∷ hash)) (one_byte type (omega arith))
      ∙ (λ i. sha i ∷ long i ∷ hash)

  decode_v0-Fits :
      Fits v0 content_type type hash
      → decode address.bytes ≡ with_hash v0 dag_pb (create_from_bytes address.bytes)
  unfolding decode starts_with
  decode_v0-Fits fits =
      let short : (suc (suc (length hash)) == 34) ≡ true = ground arith in
      rw (v0_bytes fits, short, decode)

  -- The bytes that `encode` makes of an identifier that fits its version are read back by `decode`: its content
  -- type is an `int`, and its multihash one that `create` makes of a 64-bit type and some bytes.
  pub decode-encode :
      (version : Version)
      → Fits version content_type type hash
      → let cid : ContentIdentifier = record {
        version = version;
        content_type = content_type;
        content_address = address;
      } in
        (encoded : List ℕ) × (encode cid ≡ ok encoded) × (decode encoded ≡ ok cid)
  unfolding encode with_hash
  decode-encode v1 fits = (
    1 ∷ (uvarint (code_to_u64 content_type) ++ address.bytes),
    encode_v1_bytes content_type address code,
    decode_version _ (
          All-append IsByte (uvarint (code_to_u64 content_type)) address.bytes
            (uvarint-IsByte _ (code_of_u64-code_to_u64 content_type code).0) address-IsByte)
        ∙ decode_v1_bytes content_type address.bytes code address-IsByte
        ∙ ap (with_hash v1 content_type) read_back,
  )
  decode-encode v0 fits = (
    address.bytes,
    encode_v0-Fits fits,
    decode_v0-Fits fits
        ∙ ap (with_hash v0 dag_pb) read_back
        ∙ ap (λ (k : ℕ). ok (record { version = v0; content_type = k; content_address = address }))
            (sym fits.0),
  )

abbrev made : Result (List ℕ) → List ℕ
made (ok bytes) = bytes
made (err e) = []

short_uvarint : (v : ℕ) → length (uvarint v) ≡ 1 → v < 128
unfolding uvarint
short_uvarint v h = ground (arith, uvarint_round 9 v, length-uvarint_loop 8 (v / 128))

small_code : (code : ℕ) → code < 128 → code_to_u64 code ≡ code
unfolding code_to_u64
small_code code h = ground arith

-- A negative `int` becomes a large number.
small_of_code : (code : ℕ) → code < 2 ^ 32 → code_to_u64 code < 128 → code < 128
unfolding code_to_u64
small_of_code code h = ground arith

-- `encodeCIDV1` makes the bytes of `encode` exactly for the content types below 128, of all 32-bit patterns that
-- an `int` has; the patterns from 2 ^ 31 on are the negative ones.
pub encode_cid_v1_iff :
    (content_type : ℕ) (hash : Multihash)
    → content_type < 2 ^ 32
    → (encode (record { version = v1; content_type = content_type; content_address = hash })
        ≡ ok (encode_cid_v1 content_type hash))
      ↔ (content_type < 128)
unfolding encode encode_cid_v1
encode_cid_v1_iff content_type hash h = (
  λ e. small_of_code content_type h (
      short_uvarint (code_to_u64 content_type) (
        omega (
          arith,
          ap (λ r. length (made r)) (sym (encode_v1_bytes content_type hash (omega arith)) ∙ e),
          length-append (uvarint (code_to_u64 content_type)) hash.bytes,
        ))),
  λ small.
      encode_v1_bytes content_type hash (omega arith)
      ∙ ap (λ (k : ℕ). ok (1 ∷ (uvarint k ++ hash.bytes))) (small_code content_type small)
      ∙ ap (λ l. ok (1 ∷ (l ++ hash.bytes))) (one_byte content_type small)
      ∙ ap (λ (k : ℕ). ok (1 ∷ k ∷ hash.bytes)) {y = content_type % 256} (omega arith),
)
