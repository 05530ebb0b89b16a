-- ===== src/Multihash/Tests.antt =====
-- Multihashes on concrete inputs.
use leanp2p.Prelude.{
  ℕ, ◌≤◌, ◌≡◌, ◌↔◌, refl, arith, true, List, [], ◌∷◌, ◌++◌, length, ◌==◌, if◌then◌else◌,
}
use leanp2p.Varint.{uvarint, ready, reset, consume_bytes}
use leanp2p.Multihash.{
  Multihash, ok, err, zero_input_length, create, create_from_bytes, data_of, get_hash, equal,
}
use leanp2p.Multihash.Codec.{create_from_bytes-create, create_from_bytes_ok, equal_iff}

abbrev sha256 : ℕ
sha256 = 18

abbrev digest : List ℕ
digest = 7 ∷ 8 ∷ []

abbrev sample : Multihash
sample = data_of sha256 digest

sample-create : create sha256 digest ≡ ok sample
unfolding create
sample-create = refl

create_from_bytes-create_example :
    (sample.type ≡ sha256)
    × (get_hash sample ≡ digest)
    × (create_from_bytes sample.bytes
        ≡ (if length digest == 0 then err zero_input_length else ok sample))
create_from_bytes-create_example =
    create_from_bytes-create sha256 digest sample (omega arith) sample-create

sample_parsed : create_from_bytes sample.bytes ≡ ok sample
sample_parsed = (create_from_bytes-create sha256 digest sample (omega arith) sample-create).2

create_from_bytes_ok_example :
    ((consume_bytes reset sample.bytes).1 ≡ ready)
    × (sample.type ≡ (consume_bytes reset sample.bytes).0.value)
    × ((consume_bytes reset sample.bytes).2 ≡ length (get_hash sample) ∷ get_hash sample)
    × (1 ≤ length (get_hash sample))
    × (length (get_hash sample) ≤ 127)
    × (sample.bytes ≡ uvarint sample.type ++ (consume_bytes reset sample.bytes).2)
create_from_bytes_ok_example = create_from_bytes_ok sample.bytes sample sample_parsed

equal_iff_example : (equal sample sample ≡ true) ↔ ((sha256 ≡ sha256) × (digest ≡ digest))
equal_iff_example = equal_iff sha256 sha256 digest digest sample sample sample-create sample-create
