-- ===== src/ReadBuffer/Collector.antt =====
-- `FixedBufferCollector` of basic/read_buffer: a message of a known size out of pieces of any size. The span
-- that `add` cuts is an argument and a result.
mod Tests
pub mod Whole
use mathlib.Core.List.{append-nil, append_assoc}
use leanp2p.Prelude.{
  ℕ, zero, suc, ◌+◌, ◌-◌, ◌*◌, ◌/◌, ◌≤◌, ◌<◌, ◌≡◌, refl, sym, ap, ◌∙◌, arith, Bool, true, false,
  ◌⊎◌, inl, inr, ◌&&◌, Bool-cases, List, [], ◌∷◌, ◌++◌, Option, none, some, length, take, drop, ltb,
  leb, ◌==◌, if◌then◌else◌, take-append, drop-append, take_all, drop_all, length-append,
  take-append-le, drop-append-le, leb→le, length-eq-zero,
}
use leanp2p.ReadBuffer.{Fragment, reserve, insert_end}

pub record Collector : Type 0 where
  pub memory_threshold : ℕ
  pub expected_size : ℕ
  pub buffer : Fragment

abbrev no_memory : Fragment
no_memory = record { bytes = []; capacity = 0 }

-- `expect`: the memory of a large message goes before a much smaller one.
unfoldable pub expect : Collector → ℕ → Collector
expect c size =
    let reserved = c.buffer.capacity in
    record c {
      expected_size = size;
      buffer =
          if ltb c.memory_threshold reserved && ltb size (reserved * 3 / 4)
          then no_memory
          else record c.buffer { bytes = [] };
    }

unfoldable pub reset : Collector → Collector
reset c = record c { expected_size = 0; buffer = no_memory }

module _ (alloc : ℕ → ℕ → ℕ) where
  -- `add` once the buffer has its memory. The assertion that no more is buffered than expected stands
  -- before the subtraction.
  unfoldable pub collect : Collector → List ℕ → Option (List ℕ) × List ℕ × Collector
  collect c bytes =
      let unread = c.expected_size - length c.buffer.bytes in
      let filled = leb unread (length bytes) in
      let k = if filled then unread else length bytes in
      let buffer = insert_end alloc (take k bytes) c.buffer in
      if unread == 0
      then (none, bytes, c)
      else (if filled then some buffer.bytes else none, drop k bytes, record c { buffer = buffer })

  -- `add`: the message if it is whole, the bytes that are left, the collector.
  unfoldable pub add : Collector → List ℕ → Option (List ℕ) × List ℕ × Collector
  add c bytes =
      if length c.buffer.bytes == 0
      then if leb c.expected_size (length bytes)
        then (
          some (take c.expected_size bytes),
          drop c.expected_size bytes,
          record c { expected_size = 0 },
        )
        else collect (record c { buffer = reserve alloc c.expected_size c.buffer }) bytes
      else collect c bytes

  -- The pieces as they come in, until the message is whole: the message, and what is left of them.
  unfoldable pub add_all : Collector → List (List ℕ) → Option (List ℕ × List (List ℕ))
  add_all c [] = none
  add_all c (piece ∷ pieces) =
      let (message, rest, c') = add c piece in
      let later = add_all c' pieces in
      elim message [ some bytes ↦ some (bytes, rest ∷ pieces) | none ↦ later ]
