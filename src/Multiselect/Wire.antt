-- ===== src/Multiselect/Wire.antt =====
-- A connection seen from one side, and the length-prefixed messages of basic/read_varint.hpp.
use leanp2p.Prelude.{ℕ, ◌-◌, List, [], ◌∷◌, ◌++◌, length, take, drop, ltb, leb, if◌then◌else◌}
use leanp2p.Varint.{Reader, State, underflow, ready, overflow, error, consume, reset}

pub data Error : Type 0 where
  -- What the connection answers where the peer has closed, or can no longer be reached.
  read_failed write_failed : Error
  -- `VarintError`.
  decode_size message_too_long : Error
  -- `ProtocolMuxer::Error`.
  negotiation_failed internal_error protocol_violation : Error
  -- The exception of `.value()` on a result that holds an error.
  thrown : Error
  -- No C++ outcome: the responder's loop ran out of fuel.
  stuck : Error

pub data Result {ℓ} (A : Type ℓ) : Type ℓ where
  ok : A → Result A
  err : Error → Result A

-- The bytes that the peer sends, those written so far, and how many more writes succeed.
pub record Connection : Type 0 where
  pub inbox : List ℕ
  pub outbox : List ℕ
  pub writes_left : ℕ

abbrev pub M : Type 0 → Type 0
M A = Connection → Result A × Connection

-- `BOOST_OUTCOME_CO_TRY`.
abbrev pub and_then : {A B : Type 0} → Result A × Connection → (A → M B) → Result B × Connection
and_then (ok a, c) f = f a c
and_then (err e, c) f = (err e, c)

infixl 5 ◌>>=◌ ◌>>◌
abbrev pub ◌>>=◌ : {A B : Type 0} → M A → (A → M B) → M B
◌>>=◌ m f c = and_then (m c) f

abbrev pub ◌>>◌ : {B : Type 0} → M (Unit {0}) → M B → M B
m >> k = m >>= λ _. k

abbrev pub return : {A : Type 0} → A → M A
return a c = (ok a, c)

abbrev pub fail : {A : Type 0} → Error → M A
fail e c = (err e, c)

-- `read` into a span of `n` bytes: all of them, or the connection's error.
unfoldable pub read_in : ℕ → List ℕ → Result (List ℕ) × List ℕ
read_in n inbox =
    if leb n (length inbox) then (ok (take n inbox), drop n inbox) else (err read_failed, [])

unfoldable pub read : ℕ → M (List ℕ)
unfolding read_in
read n c = ((read_in n c.inbox).0, record c { inbox = (read_in n c.inbox).1 })

unfoldable pub write : List ℕ → M (Unit {0})
write bytes c =
    if ltb 0 c.writes_left
    then (ok tt, record c { outbox = c.outbox ++ bytes; writes_left = c.writes_left - 1 })
    else (err write_failed, c)

-- `readVarint`: one byte at a time while the reader is in `kUnderflow`.
unfoldable pub read_varint_in : State → Reader → List ℕ → Result ℕ × List ℕ
read_varint_in underflow r [] = (err read_failed, [])
read_varint_in underflow r (byte ∷ inbox) =
    let r' = (consume r byte).0 in read_varint_in r'.state r' inbox
read_varint_in ready r inbox = (ok r.value, inbox)
read_varint_in overflow r inbox = (err decode_size, inbox)
read_varint_in error r inbox = (err decode_size, inbox)

unfoldable pub read_varint : M ℕ
unfolding read_varint_in
read_varint c = (
  (read_varint_in underflow reset c.inbox).0,
  record c { inbox = (read_varint_in underflow reset c.inbox).1 },
)

-- `readVarintMessage`: the body, once its size is known, and the whole.
unfoldable pub read_sized : ℕ → ℕ → M (List ℕ)
unfolding read
read_sized max_size size = if ltb max_size size then fail message_too_long else read size

unfoldable pub read_varint_message : ℕ → M (List ℕ)
unfolding read_varint
read_varint_message max_size = read_varint >>= λ size. read_sized max_size size
