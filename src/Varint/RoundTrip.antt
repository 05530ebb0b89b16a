-- ===== src/Varint/RoundTrip.antt =====
-- What the encoders write, the decoders read back.
use mathlib.Core.List.{append_assoc, append-nil}
use native.Mathlib.Numerals.{towards_suc}
use native.Mathlib.Nat.{div-add-mod}
use leanp2p.Prelude.{
  ℕ, zero, suc, ◌+◌, ◌*◌, ◌/◌, ◌%◌, ◌^◌, ◌≤◌, ◌<◌, ◌≡◌, refl, sym, ap, arith, List, [], ◌∷◌, ◌++◌,
  length, All,
}
use leanp2p.Prelude.Bits.{mask_low_any, mask_high}
use leanp2p.Varint.{
  IsByte, IsU64, uvarint_loop, uvarint, to_uint64_loop, to_uint64, Reader, underflow, ready,
  append_varint_loop, append_varint, consume, consume_bytes_loop, consume_bytes, reset,
}
use leanp2p.Varint.Steps.{uvarint_round, append_varint_round}

pow-add_seven : (s : ℕ) → 2 ^ (s + 7) ≡ 128 * 2 ^ s
pow-add_seven s = simp towards_suc (omega arith)

-- The lowest group of `v` and the rest, both in their places.
groups : (v s : ℕ) → v * 2 ^ s ≡ v % 128 * 2 ^ s + v / 128 * 2 ^ (s + 7)
groups v s = omega (
  arith,
  ap (λ (t : ℕ). t * 2 ^ s) (div-add-mod v 128),
  ap (λ (t : ℕ). v / 128 * t) (pow-add_seven s),
)

pub uvarint_loop-IsByte : (fuel v : ℕ) → v < 128 ^ fuel → All IsByte (uvarint_loop fuel v)
uvarint_loop-IsByte zero v h = unfold uvarint_loop in tt
uvarint_loop-IsByte (suc fuel) v h =
    ground (arith, uvarint_round fuel v, uvarint_loop-IsByte fuel (v / 128) (omega arith))

pub length-uvarint_loop :
    (fuel v : ℕ)
    → (1 ≤ length (uvarint_loop (suc fuel) v)) × (length (uvarint_loop (suc fuel) v) ≤ suc fuel)
length-uvarint_loop zero v = unfold uvarint_loop in ground arith
length-uvarint_loop (suc fuel) v =
    ground (arith, uvarint_round (suc fuel) v, length-uvarint_loop fuel (v / 128))

to_uint64_loop-uvarint_loop :
    (fuel v res s : ℕ)
    → v < 128 ^ suc fuel
    → IsU64 (res + v * 2 ^ s)
    → to_uint64_loop (uvarint_loop (suc fuel) v) res s ≡ res + v * 2 ^ s
unfolding to_uint64_loop
to_uint64_loop-uvarint_loop zero v res s h fits = ground (arith, uvarint_round 0 v, mask_low_any v)
to_uint64_loop-uvarint_loop (suc fuel) v res s h fits = ground (
  arith,
  uvarint_round (suc fuel) v,
  mask_low_any v,
  mask_low_any (v % 128 + 128),
  groups v s,
  to_uint64_loop-uvarint_loop fuel (v / 128) (res + v % 128 * 2 ^ s) (s + 7),
)

-- `toUInt64` gives back the number that the varint was made from, for every `uint64_t`.
pub to_uint64-uvarint : (v : ℕ) → IsU64 v → to_uint64 (uvarint v) ≡ v
unfolding to_uint64 uvarint
to_uint64-uvarint v h = ground (arith, to_uint64_loop-uvarint_loop 9 v 0 0)

module _ (r : Reader) (rest : List ℕ) (fresh : r.state ≡ underflow) where
  last_byte :
      (v : ℕ)
      → v < 128
      → r.got_bytes < 10
      → IsU64 (r.value + v * 2 ^ (7 * r.got_bytes))
      → consume_bytes_loop r underflow (v ∷ rest) ≡ (
        record {
          value = r.value + v * 2 ^ (7 * r.got_bytes);
          state = ready;
          got_bytes = r.got_bytes + 1;
        },
        ready,
        rest,
      )
  unfolding consume_bytes_loop consume
  last_byte v h few fits = ground (arith, mask_low_any v, mask_high v)

  inner_byte :
      (g : ℕ)
      → g < 128
      → r.got_bytes < 9
      → IsU64 (r.value + g * 2 ^ (7 * r.got_bytes))
      → consume_bytes_loop r underflow ((g + 128) ∷ rest)
        ≡ consume_bytes_loop
            (record {
              value = r.value + g * 2 ^ (7 * r.got_bytes);
              state = underflow;
              got_bytes = r.got_bytes + 1;
            })
            underflow
            rest
  unfolding consume_bytes_loop consume
  inner_byte g h few fits = ground (arith, mask_low_any (g + 128), mask_high (g + 128))

seven_suc : (g : ℕ) → 2 ^ (7 * (g + 1)) ≡ 2 ^ (7 * g + 7)
seven_suc g = ap (λ (n : ℕ). 2 ^ n) (omega arith)

reader-uvarint_loop :
    (fuel v : ℕ) (r : Reader) (rest : List ℕ)
    → r.state ≡ underflow
    → v < 128 ^ suc fuel
    → r.got_bytes + fuel < 10
    → IsU64 (r.value + v * 2 ^ (7 * r.got_bytes))
    → consume_bytes_loop r underflow (uvarint_loop (suc fuel) v ++ rest) ≡ (
      record {
        value = r.value + v * 2 ^ (7 * r.got_bytes);
        state = ready;
        got_bytes = r.got_bytes + length (uvarint_loop (suc fuel) v);
      },
      ready,
      rest,
    )
reader-uvarint_loop zero v r rest fresh h few fits =
    rw (uvarint_round 0 v) (ground (arith, last_byte r rest fresh v))
reader-uvarint_loop (suc fuel) v r rest fresh h few fits = ground (
  arith,
  uvarint_round (suc fuel) v,
  groups v (7 * r.got_bytes),
  seven_suc r.got_bytes,
  last_byte r rest fresh v,
  inner_byte r (uvarint_loop (suc fuel) (v / 128) ++ rest) fresh (v % 128),
  reader-uvarint_loop fuel (v / 128)
      (record {
        value = r.value + v % 128 * 2 ^ (7 * r.got_bytes);
        state = underflow;
        got_bytes = r.got_bytes + 1;
      })
      rest,
)

-- A fresh reader takes from the front of any input the number that an encoder wrote there,
-- leaves the bytes that follow it, and counts the bytes that it took.
pub consume_bytes-uvarint :
    (v : ℕ) (rest : List ℕ)
    → IsU64 v
    → consume_bytes reset (uvarint v ++ rest)
      ≡ (record { value = v; state = ready; got_bytes = length (uvarint v) }, ready, rest)
unfolding consume_bytes uvarint
consume_bytes-uvarint v rest h = ground (arith, reader-uvarint_loop 9 v reset rest refl)

append_varint_loop_lem :
    (fuel : ℕ) (buffer : List ℕ) (t : ℕ)
    → append_varint_loop fuel buffer t ≡ buffer ++ uvarint_loop fuel t
append_varint_loop_lem zero buffer t =
    unfold append_varint_loop uvarint_loop in sym (append-nil buffer)
append_varint_loop_lem (suc fuel) buffer t = ground (
  arith,
  append_varint_round fuel buffer t,
  uvarint_round fuel t,
  append_varint_loop_lem fuel (buffer ++ ((t % 128 + 128) ∷ [])) (t / 128),
  append_assoc buffer ((t % 128 + 128) ∷ []) (uvarint_loop fuel (t / 128)),
)

-- `appendVarint` keeps the buffer and puts behind it the bytes of the varint class.
pub append_varint-uvarint : (buffer : List ℕ) (t : ℕ) → append_varint buffer t ≡ buffer ++ uvarint t
unfolding append_varint uvarint
append_varint-uvarint buffer t = append_varint_loop_lem 10 buffer t
