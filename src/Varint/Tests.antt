-- ===== src/Varint/Tests.antt =====
-- The varint code on concrete inputs.
use leanp2p.Prelude.{
  ℕ, ◌≤◌, ◌≡◌, ◌≢◌, ◌⊎◌, refl, arith, some, none, List, [], ◌∷◌, ◌++◌, length, All,
}
use leanp2p.Varint.{
  IsByte, uvarint, to_uint64, create, Encoded, encode_varint, encoded_bytes, Reader, underflow,
  ready, reset, consume_bytes, consume_bytes_loop, consume, uvarint_loop,
}
use leanp2p.Varint.RoundTrip.{to_uint64-uvarint, consume_bytes-uvarint}
use leanp2p.Varint.Agree.{decoders_agree}
use leanp2p.Varint.Encode.{encode_varint-uvarint}

to_uint64-uvarint_example : to_uint64 (uvarint 300) ≡ 300
to_uint64-uvarint_example = to_uint64-uvarint 300 (omega arith)

consume_bytes-uvarint_example :
    consume_bytes reset (uvarint 300 ++ (7 ∷ []))
    ≡ (record { value = 300; state = ready; got_bytes = length (uvarint 300) }, ready, 7 ∷ [])
consume_bytes-uvarint_example = consume_bytes-uvarint 300 (7 ∷ []) (omega arith)

abbrev sample : List ℕ
sample = 172 ∷ 2 ∷ 9 ∷ []

sample-IsByte : All IsByte sample
sample-IsByte = ground arith

decoders_agree_example :
    ((create sample ≡ none) × ((consume_bytes reset sample).1 ≢ ready))
    ⊎ ((u : List ℕ) × (create sample ≡ some u)
        × (sample ≡ u ++ (consume_bytes reset sample).2)
        × ((consume_bytes reset sample).1 ≡ ready)
        × ((consume_bytes reset sample).0
            ≡ record { value = to_uint64 u; state = ready; got_bytes = length u }))
decoders_agree_example = decoders_agree sample sample-IsByte

encode_varint-uvarint_example :
    (e : Encoded) × (encode_varint 300 ≡ some e) × (encoded_bytes e ≡ uvarint 300) × (e.size ≤ 10)
encode_varint-uvarint_example = encode_varint-uvarint 300 (omega arith)

abbrev waiting : Reader
waiting = record { value = 44; state = underflow; got_bytes = 1 }

first_piece : consume_bytes reset (172 ∷ []) ≡ (waiting, underflow, [])
unfolding consume_bytes consume_bytes_loop consume
first_piece = refl

-- 300 is written in two bytes.
uvarint_300 : uvarint 300 ≡ 172 ∷ 2 ∷ []
unfolding uvarint uvarint_loop
uvarint_300 = refl
