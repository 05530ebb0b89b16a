-- ===== src/ReadBuffer/Methods.antt =====
-- Each method keeps the buffer valid, and does to its bytes what a queue of bytes does.
use mathlib.Core.List.{append-nil}
use leanp2p.Prelude.{
  ℕ, ◌-◌, ◌*◌, ◌≤◌, ◌<◌, ◌≡◌, refl, sym, ap, ◌∙◌, arith, true, false, inl, inr, ◌⊎◌, Bool-cases,
  List, [], ◌∷◌, some, length, take, drop, min, length-drop, take_all, drop_all, take_nil, drop_nil,
  length-eq-zero, leb, ◌==◌, leb→le,
}
use leanp2p.ReadBuffer.{Fragment, ReadBuffer, kept, capacity_of, consume_all, consume}
use leanp2p.ReadBuffer.Content.{content_of, content, IsFilled, HasRoom, IsSolid, IsCleared, IsValid}
use leanp2p.ReadBuffer.Parts.{at, consume_loop_lem}

kept_lem :
    (limit : ℕ) (fragments : List Fragment)
    → IsSolid fragments
    → (content_of 0 (kept limit fragments) ≡ [])
      × HasRoom (capacity_of (kept limit fragments)) (kept limit fragments)
      × IsSolid (kept limit fragments)
      × (IsFilled 0 (kept limit fragments)
          ⊎ IsCleared 0 (capacity_of (kept limit fragments)) (kept limit fragments))
unfolding kept
kept_lem limit [] solid = (refl, refl, tt, inl refl)
kept_lem limit (f ∷ fragments) solid = elim (Bool-cases (leb f.capacity limit)) [
  | inl fits ↦ rw fits (refl, omega arith, (solid.0, tt), inr (refl, refl, solid.0))
  | inr large ↦ rw large (kept_lem limit fragments solid.1)
]

-- `consumeAll` copies everything, and leaves an empty buffer.
pub consume_all_lem :
    (b : ReadBuffer)
    → IsValid b
    → ((consume_all b).0 ≡ b.total_size)
      × ((consume_all b).1 ≡ content b)
      × IsValid (consume_all b).2
      × (content (consume_all b).2 ≡ [])
unfolding consume_all
consume_all_lem b v =
    let (none_left, room, solid, shape) = kept_lem (b.alloc_granularity * 2) b.fragments v.solid in
    (
      refl,
      refl,
      record {
        granularity = v.granularity;
        size = sym (ap length none_left);
        room = room;
        solid = solid;
        shape = shape;
      },
      none_left,
    )

cleared_content :
    (offset r : ℕ) (fragments : List Fragment)
    → IsCleared offset r fragments
    → content_of offset fragments ≡ []
cleared_content offset r [] h = absurd h
cleared_content offset r (f ∷ []) h =
    append-nil (drop offset f.bytes) ∙ ap (drop offset) h.0 ∙ drop_nil offset
cleared_content offset r (f ∷ g ∷ fragments) h = absurd h

IsValid-IsFilled :
    (b : ReadBuffer) → IsValid b → 0 < b.total_size → IsFilled b.first_byte_offset b.fragments
IsValid-IsFilled b v some_bytes = elim v.shape [
  | inl filled ↦ filled
  | inr cleared ↦ absurd (
      omega (
        arith,
        v.size,
        ap length (cleared_content b.first_byte_offset b.capacity_remains b.fragments cleared),
      ))
]

-- `consume` answers as many bytes as there are, at most `n`, copies them from the front, and leaves the rest.
abbrev pub Consumes : ReadBuffer → ℕ → Type 0
Consumes b n =
    (b' : ReadBuffer) × (consume b n ≡ some (min n (length (content b)), take n (content b), b'))
    × IsValid b'
    × (content b' ≡ drop n (content b))
    × (b'.total_size ≡ length (content b) - n)

consume_nothing : (b : ReadBuffer) (n : ℕ) → IsValid b → b.total_size ≡ 0 → Consumes b n
unfolding consume
consume_nothing b n v e =
    let no_bytes : content b ≡ [] = length-eq-zero (content b) (omega (arith, v.size)) in
    let zero_size : (b.total_size == 0) ≡ true = ground arith in
    (
      b,
      rw (zero_size, no_bytes, take_nil {A = ℕ} n) (ap (λ k. some (k, [], b)) (omega arith)),
      v,
      no_bytes ∙ sym (drop_nil n) ∙ ap (drop n) (sym no_bytes),
      omega (arith, v.size),
    )

consume_everything :
    (b : ReadBuffer) (n : ℕ) → IsValid b → 0 < b.total_size → b.total_size ≤ n → Consumes b n
unfolding consume
consume_everything b n v some_bytes enough =
    let (answer, copied, valid, gone) = consume_all_lem b v in
    let more : (b.total_size == 0) ≡ false = ground arith in
    let fits : leb b.total_size n ≡ true = ground arith in
    let n_bytes : (consume_all b).0 ≡ min n (length (content b)) = omega (arith, answer, v.size) in
    let bytes : (consume_all b).1 ≡ take n (content b) =
      copied ∙ sym (take_all n (content b) (omega (arith, v.size))) in
    (
      (consume_all b).2,
      rw (more, fits) (λ i. some (n_bytes i, bytes i, (consume_all b).2)),
      valid,
      gone ∙ sym (drop_all n (content b) (omega (arith, v.size))),
      omega (arith, valid.size, ap length gone, v.size),
    )

consume_some : (b : ReadBuffer) (n : ℕ) → IsValid b → n < b.total_size → Consumes b n
unfolding consume
consume_some b n v less =
    let (offset, fragments, run, taken) =
      consume_loop_lem n b n b.first_byte_offset b.fragments (omega arith) (omega (arith, v.size))
        (IsValid-IsFilled b v (omega arith)) in
    let more : (b.total_size == 0) ≡ false = ground arith in
    let part : leb b.total_size n ≡ false = ground arith in
    let n_bytes : n ≡ min n (length (content b)) = omega (arith, v.size) in
    let left : b.total_size - n ≡ length (content b) - n = omega (arith, v.size) in
    let b' : ReadBuffer = record (at b offset fragments) { total_size = b.total_size - n } in
    (
      b',
      rw (more, part, run) (ap (λ k. some (k, take n (content b), b')) n_bytes),
      record {
        granularity = v.granularity;
        size = left ∙ sym (length-drop n (content b)) ∙ ap length (sym taken.bytes);
        room = taken.room v.room;
        solid = taken.solid v.solid;
        shape = inl taken.filled;
      },
      taken.bytes,
      left,
    )

pub consume_lem : (b : ReadBuffer) (n : ℕ) → IsValid b → Consumes b n
consume_lem b n v = elim (Bool-cases (b.total_size == 0)) [
  | inl e ↦ consume_nothing b n v (ground arith)
  | inr e ↦ elim (Bool-cases (leb b.total_size n)) [
    | inl h ↦ consume_everything b n v (ground arith) (leb→le b.total_size n h)
    | inr h ↦ consume_some b n v (ground arith)
  ]
]
