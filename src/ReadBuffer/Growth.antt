-- ===== src/ReadBuffer/Growth.antt =====
-- `add` puts its bytes behind those of the buffer, and fills no vector past its capacity.
use mathlib.Core.List.{append-nil}
use leanp2p.Prelude.{
  ℕ, ◌+◌, ◌-◌, ◌≤◌, ◌<◌, ◌≡◌, refl, sym, ap, ◌∙◌, arith, inl, inr, Bool-cases, List, [], ◌∷◌, ◌++◌,
  length, All-append, length-append, length-eq-zero, ltb, leb, ◌==◌,
}
use leanp2p.ReadBuffer.{Fragment, ReadBuffer, modify_back, reserve, insert_end, reserve_insert, add}
use leanp2p.ReadBuffer.Content.{content_of, content, IsFilled, IsValid}
use leanp2p.ReadBuffer.Back.{
  IsGrown, HasRoom-modify_back, IsSolid-modify_back, IsFilled-modify_back, content-modify_back,
  content_of-back, HasRoom-back, IsFilled-back, not_cleared,
}

module _ (alloc : ℕ → ℕ → ℕ) (enough : (c n : ℕ) → n ≤ alloc c n) where
  pub reserve_lem :
      (n : ℕ) (f : Fragment)
      → ((reserve alloc n f).bytes ≡ f.bytes)
        × (n ≤ (reserve alloc n f).capacity)
        × (f.capacity ≤ (reserve alloc n f).capacity)
  unfolding reserve
  reserve_lem n f = ground (arith, enough f.capacity n)

  -- No vector is moved that has the room.
  reserve_within : (n : ℕ) (f : Fragment) → n ≤ f.capacity → reserve alloc n f ≡ f
  unfolding reserve
  reserve_within n f h = ground arith

  insert_end-IsGrown :
      (xs : List ℕ) (r : ℕ) (f : Fragment)
      → length xs ≤ r
      → IsGrown xs r (r - length xs) f (insert_end alloc xs f)
  unfolding insert_end
  insert_end-IsGrown xs r f h =
      let (bytes, room, capacity) = reserve_lem (length f.bytes + length xs) f in
      record {
        bytes = refl;
        capacity = capacity;
        room = λ fits. omega (arith, capacity, length-append f.bytes xs);
      }

  reserve_insert-IsGrown :
      (xs : List ℕ) (granularity r : ℕ) (f : Fragment)
      → IsGrown xs r granularity f (reserve_insert alloc granularity xs f)
  unfolding reserve_insert insert_end
  reserve_insert-IsGrown xs granularity r f =
      let n = length f.bytes + length xs + granularity in
      let (bytes, room, capacity) = reserve_lem n f in
      let (bytes', room', capacity') =
        reserve_lem (length (reserve alloc n f).bytes + length xs) (reserve alloc n f) in
      record {
        bytes = ap (λ l. l ++ xs) bytes;
        capacity = omega (arith, capacity, capacity');
        room = λ fits.
            omega
              (arith, room, capacity', ap length bytes, length-append (reserve alloc n f).bytes xs);
      }

  -- `add` keeps the buffer valid, and puts its bytes behind the others.
  abbrev pub Adds : ReadBuffer → List ℕ → Type 0
  Adds b xs = IsValid (add alloc b xs) × (content (add alloc b xs) ≡ content b ++ xs)

  add_to_back :
      (b : ReadBuffer) (xs : List ℕ) (φ : Fragment → Fragment) (r' : ℕ)
      → ((f : Fragment) → IsGrown xs b.capacity_remains r' f (φ f))
      → IsValid b
      → 0 < length xs
      → 0 < b.capacity_remains
      → let b' : ReadBuffer = record b {
        fragments = modify_back φ b.fragments;
        capacity_remains = r';
        total_size = b.total_size + length xs;
      } in
        IsValid b' × (content b' ≡ content b ++ xs)
  add_to_back b xs φ r' grown v n h =
      let r = b.capacity_remains in
      let bytes : content_of b.first_byte_offset (modify_back φ b.fragments) ≡ content b ++ xs =
        content-modify_back φ xs r r' grown b.first_byte_offset b.fragments h v.room v.shape in
      (
        record {
          granularity = v.granularity;
          size = omega (arith, v.size, ap length bytes, length-append (content b) xs);
          room = HasRoom-modify_back φ xs r r' grown b.fragments h v.room;
          solid = IsSolid-modify_back φ xs r r' grown b.fragments v.solid;
          shape = inl (
              IsFilled-modify_back φ xs r r' grown b.first_byte_offset b.fragments n h v.room
                v.shape);
        },
        bytes,
      )

  add_fragment :
      (b : ReadBuffer) (xs : List ℕ)
      → IsValid b
      → 0 < length xs
      → b.capacity_remains ≡ 0
      → let b' : ReadBuffer = record b {
        fragments =
            b.fragments
            ++ (reserve_insert alloc b.alloc_granularity xs (record { bytes = []; capacity = 0 })
                ∷ []);
        capacity_remains = b.alloc_granularity;
        total_size = b.total_size + length xs;
      } in
        IsValid b' × (content b' ≡ content b ++ xs)
  add_fragment b xs v n h =
      let none : Fragment = record { bytes = []; capacity = 0 } in
      let new = reserve_insert alloc b.alloc_granularity xs none in
      let grown = reserve_insert-IsGrown xs b.alloc_granularity 0 none in
      let filled : IsFilled b.first_byte_offset b.fragments =
        not_cleared b.first_byte_offset b.capacity_remains b.fragments h v.shape in
      let bytes : content_of b.first_byte_offset (b.fragments ++ (new ∷ [])) ≡ content b ++ xs =
        content_of-back new b.first_byte_offset b.fragments filled
        ∙ ap (λ l. content b ++ l) grown.bytes in
      let room : length new.bytes + b.alloc_granularity ≤ new.capacity = grown.room (omega arith) in
      (
        record {
          granularity = v.granularity;
          size = omega (arith, v.size, ap length bytes, length-append (content b) xs);
          room = HasRoom-back new b.alloc_granularity b.fragments room;
          solid =
              All-append (λ (f : Fragment). 0 < f.capacity) b.fragments (new ∷ []) v.solid
                (omega (arith, v.granularity), tt);
          shape = inl (
              IsFilled-back new b.first_byte_offset b.fragments
                (omega (arith, ap length grown.bytes)) filled);
        },
        bytes,
      )

  pub add_lem : (b : ReadBuffer) (xs : List ℕ) → IsValid b → Adds b xs
  unfolding add
  add_lem b xs v = elim (Bool-cases (length xs == 0)) [
    | inl e ↦
        let no_bytes : xs ≡ [] = length-eq-zero xs (ground arith) in
        rw e (v, sym (append-nil (content b)) ∙ ap (λ l. content b ++ l) (sym no_bytes))
    | inr e ↦ elim (Bool-cases (leb (length xs) b.capacity_remains)) [
      | inl fits ↦
          rw (e, fits)
            (add_to_back b xs (insert_end alloc xs) (b.capacity_remains - length xs)
              (λ f. insert_end-IsGrown xs b.capacity_remains f (ground arith)) v (ground arith)
              (ground arith))
      | inr long ↦ elim (Bool-cases (ltb 0 b.capacity_remains)) [
        | inl some_room ↦
            rw (e, long, some_room)
              (add_to_back b xs (reserve_insert alloc b.alloc_granularity xs) b.alloc_granularity
                (reserve_insert-IsGrown xs b.alloc_granularity b.capacity_remains) v (ground arith)
                (ground arith))
        | inr full ↦ rw (e, long, full) (add_fragment b xs v (ground arith) (ground arith))
      ]
    ]
  ]
