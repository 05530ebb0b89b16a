-- ===== src/Varint/Rounds.antt =====
-- What the loops of the two decoders do with one byte.
use leanp2p.Prelude.{
  ℕ, ◌+◌, ◌*◌, ◌%◌, ◌^◌, ◌≤◌, ◌<◌, ◌≡◌, refl, arith, List, [], ◌∷◌, bit_and, ltb, if◌then◌else◌,
}
use leanp2p.Prelude.Bits.{mask_low_any, mask_high}
use leanp2p.Varint.{
  calculate_size_loop, Reader, underflow, ready, overflow, consume, consume_bytes_loop,
}
use leanp2p.Varint.Steps.{slice_fits, slice_last}

calculate_size_end : (bytes : List ℕ) → calculate_size_loop bytes 10 70 ≡ 0
unfolding calculate_size_loop
calculate_size_end [] = refl
calculate_size_end (byte ∷ bytes) = refl

-- The sum that both decoders form, of `uint64_t`.
abbrev pub add_group : ℕ → ℕ → ℕ → ℕ
add_group value byte shift = (value + bit_and byte 0x7f * 2 ^ shift % 2 ^ 64) % 2 ^ 64

module _ (byte : ℕ) (bytes : List ℕ) (got : ℕ) where
  pub size_last : byte < 128 → got < 9 → calculate_size_loop (byte ∷ bytes) got (7 * got) ≡ got + 1
  unfolding calculate_size_loop
  size_last h few = ground (arith, mask_low_any byte, mask_high byte, slice_fits got byte)

  pub size_inner :
      128 ≤ byte
      → byte < 256
      → got < 9
      → calculate_size_loop (byte ∷ bytes) got (7 * got)
        ≡ calculate_size_loop bytes (got + 1) (7 * got + 7)
  unfolding calculate_size_loop
  size_inner h h' few =
      ground (arith, mask_low_any byte, mask_high byte, slice_fits got (byte % 128))

  pub size_tenth :
      byte < 256 → calculate_size_loop (byte ∷ bytes) 9 63 ≡ (if ltb byte 2 then 10 else 0)
  unfolding calculate_size_loop
  size_tenth h =
      ground (
        arith,
        mask_low_any byte,
        mask_high byte,
        slice_last (byte % 128),
        calculate_size_end bytes,
      )

module _ (r : Reader) (byte : ℕ) (bytes : List ℕ) (fresh : r.state ≡ underflow) where
  pub reader_last :
      byte < 128
      → r.got_bytes < 9
      → consume_bytes_loop r underflow (byte ∷ bytes) ≡ (
        record {
          value = add_group r.value byte (7 * r.got_bytes);
          state = ready;
          got_bytes = r.got_bytes + 1;
        },
        ready,
        bytes,
      )
  unfolding consume_bytes_loop consume
  reader_last h few = ground (arith, mask_low_any byte, mask_high byte)

  pub reader_inner :
      128 ≤ byte
      → byte < 256
      → r.got_bytes < 9
      → consume_bytes_loop r underflow (byte ∷ bytes)
        ≡ consume_bytes_loop
            (record {
              value = add_group r.value byte (7 * r.got_bytes);
              state = underflow;
              got_bytes = r.got_bytes + 1;
            })
            underflow
            bytes
  unfolding consume_bytes_loop consume
  reader_inner h h' few = ground (arith, mask_low_any byte, mask_high byte)

  pub reader_tenth :
      byte < 2
      → r.got_bytes ≡ 9
      → consume_bytes_loop r underflow (byte ∷ bytes) ≡ (
        record { value = add_group r.value byte 63; state = ready; got_bytes = 10 },
        ready,
        bytes,
      )
  unfolding consume_bytes_loop consume
  reader_tenth h e = ground (arith, mask_low_any byte, mask_high byte)

  pub reader_overflow :
      2 ≤ byte
      → byte < 256
      → r.got_bytes ≡ 9
      → consume_bytes_loop r underflow (byte ∷ bytes)
        ≡ (record { value = r.value; state = overflow; got_bytes = 10 }, overflow, bytes)
  unfolding consume_bytes_loop consume
  reader_overflow h h' e = ground (arith, mask_low_any byte, mask_high byte)
