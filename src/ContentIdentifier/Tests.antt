-- ===== src/ContentIdentifier/Tests.antt =====
-- Identifiers of both versions, with hashes of 32 bytes.
use leanp2p.Prelude.{ℕ, ◌≡◌, ◌↔◌, ◌<◌, refl, arith, List, replicate}
use leanp2p.Multihash
use leanp2p.Multihash.{Multihash, data_of}
use leanp2p.ContentIdentifier.{
  v0, v1, ContentIdentifier, ok, dag_pb, sha256, encode, encode_cid_v1, decode,
}
use leanp2p.ContentIdentifier.RoundTrip.{decode-encode, encode_cid_v1_iff}

abbrev digest : List ℕ
digest = replicate 32 7

abbrev address : Multihash
address = data_of sha256 digest

address_created : Multihash.create sha256 digest ≡ Multihash.ok address
unfolding Multihash.create
address_created = refl

abbrev cid : ContentIdentifier
cid = record { version = v0; content_type = dag_pb; content_address = address }

decode-encode_example : (encoded : List ℕ) × (encode cid ≡ ok encoded) × (decode encoded ≡ ok cid)
decode-encode_example =
    decode-encode dag_pb sha256 digest address (omega arith) (omega arith) (omega arith)
      (omega arith) address_created v0 (refl, refl, refl)

-- The content type FILECOIN_COMMITMENT_UNSEALED has two bytes.
encode_cid_v1_iff_example :
    (encode (record { version = v1; content_type = 0xf101; content_address = address })
      ≡ ok (encode_cid_v1 0xf101 address))
    ↔ (0xf101 < 128)
encode_cid_v1_iff_example = encode_cid_v1_iff 0xf101 address (omega arith)
