-- ===== src/ReadBuffer/Parts.antt =====
-- The loop of `consume` takes the bytes from the front.
use leanp2p.Prelude.{
  ℕ, zero, suc, ◌+◌, ◌-◌, ◌≤◌, ◌<◌, ◌≡◌, refl, sym, ap, ◌∙◌, arith, true, false, inl, inr,
  Bool-cases, List, [], ◌∷◌, ◌++◌, some, length, take, drop, All, length-append, length-drop,
  length-take, take-append, drop-append, take-append-le, drop-append-le, drop-drop, take_all,
  drop_all, ltb, ◌==◌, if◌then◌else◌, ltb→lt,
}
use mathlib.Core.List.{append-nil}
use leanp2p.ReadBuffer.{Fragment, ReadBuffer, bytes_of, consume_part, consume_loop}
use leanp2p.ReadBuffer.Content.{content_of, IsFilled, HasRoom, IsSolid}

-- A buffer that differs in what the loop changes.
abbrev pub at : ReadBuffer → ℕ → List Fragment → ReadBuffer
at b offset fragments = record b { first_byte_offset = offset; fragments = fragments }

-- What is kept of a state when `n` bytes have been taken from its front.
pub record IsTaken (r n offset : ℕ) (fragments : List Fragment) (offset' : ℕ)
    (fragments' : List Fragment) : Type 0 where
  pub bytes : content_of offset' fragments' ≡ drop n (content_of offset fragments)
  pub filled : IsFilled offset' fragments'
  pub room : HasRoom r fragments → HasRoom r fragments'
  pub solid : IsSolid fragments → IsSolid fragments'

HasRoom-tail :
    (r : ℕ) (f : Fragment) (fragments : List Fragment)
    → 0 < length (bytes_of fragments)
    → HasRoom r (f ∷ fragments)
    → HasRoom r fragments
HasRoom-tail r f [] h room = absurd (omega arith)
HasRoom-tail r f (g ∷ fragments) h room = room

IsFilled-tail :
    (fragments : List Fragment)
    → All (λ (g : Fragment). 0 < length g.bytes) fragments
    → IsFilled 0 fragments
IsFilled-tail [] h = refl
IsFilled-tail (f ∷ fragments) h = h

content_of_start : (fragments : List Fragment) → content_of 0 fragments ≡ bytes_of fragments
content_of_start [] = refl
content_of_start (f ∷ fragments) = refl

-- A fragment that is not used up.
consume_part_within :
    (b : ReadBuffer) (n offset : ℕ) (f : Fragment) (fragments : List Fragment)
    → offset + n < length f.bytes
    → consume_part (at b offset (f ∷ fragments)) n
      ≡ (take n (content_of offset (f ∷ fragments)), at b (offset + n) (f ∷ fragments))
unfolding consume_part
consume_part_within b n offset f fragments h =
    let size = length f.bytes - offset in
    let k : (if ltb size n then size else n) ≡ n = ground arith in
    let more : ltb n size ≡ true = ground arith in
    let short : n ≤ length (drop offset f.bytes) = omega (arith, length-drop offset f.bytes) in
    rw (k, more, take-append-le n (drop offset f.bytes) (bytes_of fragments) short)

consume_part_whole :
    (b : ReadBuffer) (n offset : ℕ) (f : Fragment) (fragments : List Fragment)
    → length f.bytes ≤ offset + n
    → consume_part (at b offset (f ∷ fragments)) n ≡ (drop offset f.bytes, at b 0 fragments)
unfolding consume_part
consume_part_whole b n offset f fragments h =
    let size = length f.bytes - offset in
    let k : (if ltb size n then size else n) ≡ size = ground arith in
    let done : ltb size size ≡ false = ground arith in
    let long : length (drop offset f.bytes) ≤ size = omega (arith, length-drop offset f.bytes) in
    rw (k, done, take_all size (drop offset f.bytes) long)

consume_loop_step :
    (fuel n : ℕ) (b b' b'' : ReadBuffer) (part rest : List ℕ)
    → consume_part b (suc n) ≡ (part, b')
    → consume_loop fuel b' (suc n - length part) ≡ some (rest, b'')
    → consume_loop (suc fuel) b (suc n) ≡ some (part ++ rest, b'')
unfolding consume_loop
consume_loop_step fuel n b b' b'' part rest p q =
    let more : (suc n == 0) ≡ false = ground arith in
    rw (more, ap (λ x. x.0) p, ap (λ x. x.1) p, q) (ap (λ x. some (x.0 ++ rest, b'')) p)

consume_loop_zero : (fuel : ℕ) (b : ReadBuffer) → consume_loop fuel b 0 ≡ some ([], b)
unfolding consume_loop
consume_loop_zero zero b = refl
consume_loop_zero (suc fuel) b = refl

whole_taken :
    (n : ℕ) (bytes : List ℕ) (fragments : List Fragment)
    → length bytes ≤ suc n
    → bytes ++ take (suc n - length bytes) (content_of 0 fragments)
      ≡ take (suc n) (bytes ++ bytes_of fragments)
whole_taken n bytes fragments h = rw (
  content_of_start fragments,
  take-append (suc n) bytes (bytes_of fragments),
  take_all (suc n) bytes h,
)

whole_dropped :
    (n : ℕ) (bytes : List ℕ) (fragments : List Fragment)
    → length bytes ≤ suc n
    → drop (suc n - length bytes) (content_of 0 fragments)
      ≡ drop (suc n) (bytes ++ bytes_of fragments)
whole_dropped n bytes fragments h = rw (
  content_of_start fragments,
  drop-append (suc n) bytes (bytes_of fragments),
  drop_all (suc n) bytes h,
)

-- The loop ends when it has as many rounds as bytes to take, of a buffer with more bytes than that.
pub consume_loop_lem :
    (fuel : ℕ) (b : ReadBuffer) (n offset : ℕ) (fragments : List Fragment)
    → n ≤ fuel
    → n < length (content_of offset fragments)
    → IsFilled offset fragments
    → (offset' : ℕ) × (fragments' : List Fragment) × (consume_loop fuel (at b offset fragments) n
        ≡ some (take n (content_of offset fragments), at b offset' fragments'))
      × IsTaken b.capacity_remains n offset fragments offset' fragments'
consume_loop_lem fuel b zero offset fragments le lt filled = (
  offset,
  fragments,
  consume_loop_zero fuel (at b offset fragments),
  record { bytes = refl; filled = filled; room = λ h. h; solid = λ h. h },
)
consume_loop_lem zero b (suc n) offset fragments le lt filled = absurd (omega arith)
consume_loop_lem (suc fuel) b (suc n) offset [] le lt filled = absurd (omega arith)
consume_loop_lem (suc fuel) b (suc n) offset (f ∷ fragments) le lt filled =
    let bytes = drop offset f.bytes in
    let size : length bytes ≡ length f.bytes - offset = length-drop offset f.bytes in
    elim (Bool-cases (ltb (offset + suc n) (length f.bytes))) [
      | inl within ↦
          let fits : suc n ≤ length bytes =
            omega (arith, size, ltb→lt (offset + suc n) (length f.bytes)) in
          let all : take (suc n) (bytes ++ bytes_of fragments) ≡ take (suc n) bytes =
            take-append-le (suc n) bytes (bytes_of fragments) fits in
          let part = take (suc n) (content_of offset (f ∷ fragments)) in
          let none_left : suc n - length part ≡ 0 =
            omega (arith, length-take (suc n) (content_of offset (f ∷ fragments))) in
          (
            offset + suc n,
            f ∷ fragments,
            consume_loop_step fuel n (at b offset (f ∷ fragments))
                  (at b (offset + suc n) (f ∷ fragments)) (at b (offset + suc n) (f ∷ fragments))
                  part [] (consume_part_within b (suc n) offset f fragments (ltb→lt _ _ within))
                  (rw none_left (consume_loop_zero fuel (at b (offset + suc n) (f ∷ fragments))))
                ∙ ap (λ l. some (l, at b (offset + suc n) (f ∷ fragments))) (append-nil part),
            record {
              bytes = sym (
                  drop-append-le (suc n) bytes (bytes_of fragments) fits
                  ∙ ap (λ l. l ++ bytes_of fragments) (drop-drop (suc n) offset f.bytes));
              filled = (ltb→lt _ _ within, filled.1);
              room = λ h. h;
              solid = λ h. h;
            },
          )
      | inr whole ↦
          let longer : length f.bytes ≤ offset + suc n = ground arith in
          let used : length bytes ≤ suc n = omega (arith, size) in
          let rest : 0 < length (bytes_of fragments) =
            omega (arith, length-append bytes (bytes_of fragments)) in
          let (offset', fragments', run, taken) =
            consume_loop_lem fuel b (suc n - length bytes) 0 fragments (omega (arith, size))
              (ground
                (arith, size, length-append bytes (bytes_of fragments), content_of_start fragments))
              (IsFilled-tail fragments filled.1) in
          (
            offset',
            fragments',
            consume_loop_step fuel n (at b offset (f ∷ fragments)) (at b 0 fragments)
                  (at b offset' fragments') bytes _
                  (consume_part_whole b (suc n) offset f fragments longer) run
                ∙ ap (λ l. some (l, at b offset' fragments')) (whole_taken n bytes fragments used),
            record {
              bytes = taken.bytes ∙ whole_dropped n bytes fragments used;
              filled = taken.filled;
              room = λ h. taken.room (HasRoom-tail b.capacity_remains f fragments rest h);
              solid = λ h. taken.solid h.1;
            },
          )
    ]
