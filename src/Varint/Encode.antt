-- ===== src/Varint/Encode.antt =====
-- The fixed buffer of `EncodeVarint`, and a number that comes in several pieces.
use mathlib.Core.List.{append_assoc}
use leanp2p.Prelude.{
  ℕ, zero, suc, ◌+◌, ◌/◌, ◌%◌, ◌^◌, ◌≤◌, ◌<◌, ◌≡◌, refl, sym, subst, ap, ◌∙◌, arith, List, [], ◌∷◌,
  ◌++◌, length, bit_and, ltb, if◌then◌else◌, take, set, length-set, Option, some, replicate,
  Bool-cases, inl, inr, ltb→lt, lt→ltb,
}
use leanp2p.Prelude.Bits.{mask_low_any, set_high}
use leanp2p.Varint.{
  IsU64, Encoded, uvarint_loop, uvarint, encode_varint_loop, encode_varint, encoded_bytes, Reader,
  State, underflow, ready, overflow, error, consume, consume_bytes_loop, consume_bytes, cut_buffer,
}
use leanp2p.Varint.Steps.{uvarint_round}

take-set :
    (xs : List ℕ) (i v : ℕ) → i < length xs → take (suc i) (set xs i v) ≡ take i xs ++ (v ∷ [])
take-set [] i v h = elim h [ ]
take-set (x ∷ xs) zero v h = refl
take-set (x ∷ xs) (suc i) v h = ap (λ l. x ∷ l) (take-set xs i v (omega arith))

-- The state of the array behind one more byte.
abbrev stored : Encoded → ℕ → Encoded
stored e byte = record { size = e.size + 1; buffer = set e.buffer e.size byte }

encode_varint_round :
    (fuel : ℕ) (e : Encoded) (value : ℕ)
    → e.size < 10
    → encode_varint_loop (suc fuel) e value ≡ (
        if ltb value 128
        then some (stored e value)
        else encode_varint_loop fuel (stored e (value % 128 + 128)) (value / 128))
unfolding encode_varint_loop
encode_varint_round fuel e value h =
    ground (arith, mask_low_any value, set_high (bit_and value 0x7f))

abbrev Written : Option Encoded → List ℕ → Type 0
Written o bytes = (e : Encoded) × (o ≡ some e) × (take e.size e.buffer ≡ bytes) × (e.size ≤ 10)

stored_bytes :
    (e : Encoded) (byte : ℕ)
    → e.size < 10
    → length e.buffer ≡ 10
    → take (e.size + 1) (set e.buffer e.size byte) ≡ take e.size e.buffer ++ (byte ∷ [])
stored_bytes e byte h l =
    ap (λ (n : ℕ). take n (set e.buffer e.size byte)) {y = suc e.size} (omega arith)
    ∙ take-set e.buffer e.size byte (omega arith)

last_round :
    (fuel : ℕ) (e : Encoded) (value : ℕ)
    → e.size < 10
    → length e.buffer ≡ 10
    → value < 128
    → Written
        (encode_varint_loop (suc fuel) e value)
        (take e.size e.buffer ++ uvarint_loop (suc fuel) value)
last_round fuel e value room l small =
    rw (encode_varint_round fuel e value room, uvarint_round fuel value, lt→ltb _ _ small)
      (stored e value, refl, stored_bytes e value room l, omega arith)

encode_varint_loop_lem :
    (fuel : ℕ) (e : Encoded) (value : ℕ)
    → e.size + fuel < 10
    → length e.buffer ≡ 10
    → value < 128 ^ suc fuel
    → Written
        (encode_varint_loop (suc fuel) e value)
        (take e.size e.buffer ++ uvarint_loop (suc fuel) value)
encode_varint_loop_lem zero e value room l fits = last_round 0 e value (omega arith) l (omega arith)
encode_varint_loop_lem (suc fuel) e value room l fits = elim (Bool-cases (ltb value 128)) [
  | inl small ↦ last_round (suc fuel) e value (omega arith) l (ltb→lt _ _ small)
  | inr big ↦
      let byte : ℕ = value % 128 + 128 in
      let (e', f, b, n) =
        encode_varint_loop_lem fuel (stored e byte) (value / 128) (omega arith)
          (omega (arith, length-set e.buffer e.size byte)) (omega arith) in
      rw (encode_varint_round (suc fuel) e value (omega arith), uvarint_round (suc fuel) value, big)
        (e', f, b ∙ rw (stored_bytes e byte (omega arith) l, append_assoc) refl, n)
]

-- On a `uint64_t` the assertion of `EncodeVarint` never fails, at most ten bytes are used, and
-- the view of the buffer holds the bytes of the varint class.
pub encode_varint-uvarint :
    (value : ℕ)
    → IsU64 value
    → (e : Encoded) × (encode_varint value ≡ some e)
      × (encoded_bytes e ≡ uvarint value)
      × (e.size ≤ 10)
unfolding encode_varint encoded_bytes uvarint
encode_varint-uvarint value h =
    encode_varint_loop_lem 9 (record { size = 0; buffer = replicate 10 0 }) value (omega arith) refl
      (omega arith)

consume_bytes_loop-append :
    (xs ys : List ℕ) (r r' : Reader) (rest : List ℕ)
    → consume_bytes_loop r underflow xs ≡ (r', underflow, rest)
    → consume_bytes_loop r underflow (xs ++ ys) ≡ consume_bytes_loop r' underflow ys
unfolding consume_bytes_loop
consume_bytes_loop-append [] ys r r' rest e = ground arith
consume_bytes_loop-append (x ∷ xs) ys r r' rest e =
    ground (arith, consume_bytes_loop-append xs ys (consume r x).0 r' rest)

consume_state :
    (r r' : Reader) (byte : ℕ)
    → r.state ≡ underflow
    → consume r byte ≡ (r', underflow)
    → r'.state ≡ underflow
unfolding consume
consume_state r r' byte fresh e = ground arith

consume_bytes_loop_state :
    (xs : List ℕ) (r r' : Reader) (rest : List ℕ)
    → r.state ≡ underflow
    → consume_bytes_loop r underflow xs ≡ (r', underflow, rest)
    → r'.state ≡ underflow
unfolding consume_bytes_loop
consume_bytes_loop_state [] r r' rest fresh e = ground arith
consume_bytes_loop_state (x ∷ xs) r r' rest fresh e = ground (
  arith,
  consume_state r (consume r x).0 x fresh,
  consume_bytes_loop_state xs (consume r x).0 r' rest,
)

cut_buffer_heads :
    (xs ys : List ℕ) (t : Reader × State × List ℕ)
    → ((cut_buffer xs t).0 ≡ (cut_buffer ys t).0) × ((cut_buffer xs t).1 ≡ (cut_buffer ys t).1)
unfolding cut_buffer
cut_buffer_heads xs ys (r, underflow, rest) = (refl, refl)
cut_buffer_heads xs ys (r, ready, rest) = (refl, refl)
cut_buffer_heads xs ys (r, overflow, rest) = (refl, refl)
cut_buffer_heads xs ys (r, error, rest) = (refl, refl)

cut_buffer_underflow :
    (xs : List ℕ) (t : Reader × State × List ℕ) (r' : Reader) (rest : List ℕ)
    → cut_buffer xs t ≡ (r', underflow, rest)
    → t ≡ (r', underflow, rest)
unfolding cut_buffer
cut_buffer_underflow xs (r, underflow, left) r' rest e = e
cut_buffer_underflow xs (r, ready, left) r' rest e = cc
cut_buffer_underflow xs (r, overflow, left) r' rest e = cc
cut_buffer_underflow xs (r, error, left) r' rest e = cc

-- A reader that waits for more, and still does so after `xs`, comes, on the next piece `ys`, to the state and the
-- answer that it gives on both pieces at once.
pub consume_bytes-append :
    (xs ys : List ℕ) (r r' : Reader) (rest : List ℕ)
    → r.state ≡ underflow
    → consume_bytes r xs ≡ (r', underflow, rest)
    → ((consume_bytes r' ys).0 ≡ (consume_bytes r (xs ++ ys)).0)
      × ((consume_bytes r' ys).1 ≡ (consume_bytes r (xs ++ ys)).1)
unfolding consume_bytes
consume_bytes-append xs ys r r' rest fresh e =
    rw whole (cut_buffer_heads ys (xs ++ ys) (consume_bytes_loop r' r'.state ys))
  where
    first : consume_bytes_loop r underflow xs ≡ (r', underflow, rest)
    first =
        subst (λ s. consume_bytes_loop r s xs ≡ (r', underflow, rest)) fresh
          (cut_buffer_underflow xs (consume_bytes_loop r r.state xs) r' rest e)

    whole : consume_bytes_loop r r.state (xs ++ ys) ≡ consume_bytes_loop r' r'.state ys
    whole =
        ap (λ s. consume_bytes_loop r s (xs ++ ys)) fresh
        ∙ consume_bytes_loop-append xs ys r r' rest first
        ∙ ap (λ s. consume_bytes_loop r' s ys)
            (sym (consume_bytes_loop_state xs r r' rest fresh first))
