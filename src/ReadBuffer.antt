-- ===== src/ReadBuffer.antt =====
-- `ReadBuffer` of basic/read_buffer: bytes that come in pieces and are taken out in pieces. A fragment is
-- a `std::vector`, its bytes and its capacity; `alloc c n` is the capacity that a vector of capacity `c`
-- gets when it needs room for `n` bytes. A write to the caller's `out` is a list that is returned.
pub mod Queue
mod Content
mod Parts
mod Methods
mod Back
mod Growth
mod Exchange
pub mod Collector
mod Tests
use leanp2p.Prelude.{
  ℕ, zero, suc, ◌+◌, ◌-◌, ◌*◌, Bool, true, false, List, [], ◌∷◌, ◌++◌, Option, none, some, length,
  take, drop, ltb, leb, ◌==◌, if◌then◌else◌,
}

-- `Fragment`.
pub record Fragment : Type 0 where
  pub bytes : List ℕ
  pub capacity : ℕ

pub record ReadBuffer : Type 0 where
  pub alloc_granularity : ℕ
  pub total_size : ℕ
  pub first_byte_offset : ℕ
  pub capacity_remains : ℕ
  pub fragments : List Fragment

unfoldable pub init : ℕ → ReadBuffer
init alloc_granularity = record {
  alloc_granularity = alloc_granularity;
  total_size = 0;
  first_byte_offset = 0;
  capacity_remains = 0;
  fragments = [];
}

unfoldable pub empty : ReadBuffer → Bool
empty b = b.total_size == 0

unfoldable pub clear : ReadBuffer → ReadBuffer
clear b = record b { total_size = 0; first_byte_offset = 0; capacity_remains = 0; fragments = [] }

-- `fragments_.back()`, changed in place.
unfoldable pub modify_back : (Fragment → Fragment) → List Fragment → List Fragment
modify_back f [] = []
modify_back f (v ∷ []) = f v ∷ []
modify_back f (v ∷ w ∷ fragments) = v ∷ modify_back f (w ∷ fragments)

-- What `consumeAll` copies of the fragments behind the first.
abbrev pub bytes_of : List Fragment → List ℕ
bytes_of [] = []
bytes_of (f ∷ fragments) = f.bytes ++ bytes_of fragments

-- `consumePart`: the bytes that are copied.
unfoldable pub consume_part : ReadBuffer → ℕ → List ℕ × ReadBuffer
consume_part b n = elim b.fragments [
  | [] ↦ ([], b)
  | f ∷ fragments ↦
      let fragment_size = length f.bytes - b.first_byte_offset in
      let k = if ltb fragment_size n then fragment_size else n in
      (
        take k (drop b.first_byte_offset f.bytes),
        if ltb k fragment_size
            then record b { first_byte_offset = b.first_byte_offset + k }
            else record b { first_byte_offset = 0; fragments = fragments },
      )
]

-- The fragment that `consumeAll` keeps: the first that is not too large, cleared.
unfoldable pub kept : ℕ → List Fragment → List Fragment
kept limit [] = []
kept limit (f ∷ fragments) =
    if leb f.capacity limit then record f { bytes = [] } ∷ [] else kept limit fragments

abbrev pub capacity_of : List Fragment → ℕ
capacity_of [] = 0
capacity_of (f ∷ fragments) = f.capacity

-- `consumeAll`: its answer, the bytes that are copied, the buffer.
unfoldable pub consume_all : ReadBuffer → ℕ × List ℕ × ReadBuffer
unfolding kept
consume_all b =
    let copied : List ℕ = elim b.fragments [
      | [] ↦ []
      | f ∷ fragments ↦ drop b.first_byte_offset f.bytes ++ bytes_of fragments
    ] in
    let left = kept (b.alloc_granularity * 2) b.fragments in
    (
      b.total_size,
      copied,
      record b {
        total_size = 0;
        first_byte_offset = 0;
        capacity_remains = capacity_of left;
        fragments = left;
      },
    )

-- The loop of `consume`. `none` is a loop that does not end.
unfoldable pub consume_loop : ℕ → ReadBuffer → ℕ → Option (List ℕ × ReadBuffer)
consume_loop zero b remains = if remains == 0 then some ([], b) else none
consume_loop (suc fuel) b remains =
    let (part, b') = consume_part b remains in
    let rest : Option (List ℕ × ReadBuffer) = elim (consume_loop fuel b' (remains - length part)) [
      | none ↦ none
      | some (out, b'') ↦ some (part ++ out, b'')
    ] in
    if remains == 0 then some ([], b) else rest

-- `out` has `n_bytes` places.
unfoldable pub consume : ReadBuffer → ℕ → Option (ℕ × List ℕ × ReadBuffer)
unfolding empty
consume b n_bytes =
    if empty b
    then some (0, [], b)
    else if leb b.total_size n_bytes
    then some (consume_all b)
    else elim (consume_loop n_bytes b n_bytes) [
      | none ↦ none
      | some (out, b') ↦ some (n_bytes, out, record b' { total_size = b'.total_size - n_bytes })
    ]

module _ (alloc : ℕ → ℕ → ℕ) where
  -- `std::vector`.
  unfoldable pub reserve : ℕ → Fragment → Fragment
  reserve n f = if leb n f.capacity then f else record f { capacity = alloc f.capacity n }

  unfoldable pub insert_end : List ℕ → Fragment → Fragment
  insert_end bytes f =
      let g = reserve (length f.bytes + length bytes) f in record g { bytes = f.bytes ++ bytes }

  -- `reserve` and `insert`.
  unfoldable pub reserve_insert : ℕ → List ℕ → Fragment → Fragment
  reserve_insert granularity bytes f =
      insert_end bytes (reserve (length f.bytes + length bytes + granularity) f)

  unfoldable pub add : ReadBuffer → List ℕ → ReadBuffer
  add b bytes =
      let sz = length bytes in
      if sz == 0
      then b
      else if leb sz b.capacity_remains
      then record b {
        fragments = modify_back (insert_end bytes) b.fragments;
        capacity_remains = b.capacity_remains - sz;
        total_size = b.total_size + sz;
      }
      else if ltb 0 b.capacity_remains
      then record b {
        fragments = modify_back (reserve_insert b.alloc_granularity bytes) b.fragments;
        capacity_remains = b.alloc_granularity;
        total_size = b.total_size + sz;
      }
      else record b {
        fragments =
            b.fragments
            ++ (reserve_insert b.alloc_granularity bytes (record { bytes = []; capacity = 0 })
                ∷ []);
        capacity_remains = b.alloc_granularity;
        total_size = b.total_size + sz;
      }

  -- `addAndConsume`: its answer, the bytes that are copied to `out` of `out_size` places, the buffer. It
  -- calls itself; `none` is a call that does not end.
  unfoldable pub add_and_consume : ℕ → ReadBuffer → List ℕ → ℕ → Option (ℕ × List ℕ × ReadBuffer)
  unfolding empty
  add_and_consume zero b bytes out_size = none
  add_and_consume (suc fuel) b bytes out_size =
      let (consumed, out, b') = consume_all b in
      let again : Option (ℕ × List ℕ × ReadBuffer) =
        elim (add_and_consume fuel b' bytes (out_size - consumed)) [
          | none ↦ none
          | some (n, out', b'') ↦ some (consumed + n, out ++ out', b'')
        ] in
      if length bytes == 0
      then consume b out_size
      else if out_size == 0
      then some (0, [], add b bytes)
      else if empty b
      then if leb (length bytes) out_size
        then some (length bytes, bytes, b)
        else some (out_size, take out_size bytes, add b (drop out_size bytes))
      else if leb out_size b.total_size
      then elim (consume b out_size) [
        | none ↦ none
        | some (n, out', b'') ↦ some (n, out', add b'' bytes)
      ]
      else again
