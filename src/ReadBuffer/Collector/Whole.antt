-- ===== src/ReadBuffer/Collector/Whole.antt =====
-- The collector gives the message when its bytes are there, and not before.
use mathlib.Core.List.{append_assoc}
use leanp2p.Prelude.{
  ℕ, ◌-◌, ◌≤◌, ◌<◌, ◌≡◌, refl, sym, ap, ◌∙◌, arith, false, subst, if-elim, ◌⊎◌, inl, inr,
  Bool-cases, List, [], ◌∷◌, ◌++◌, Option, none, some, length, take, drop, leb, ◌==◌, take-append,
  drop-append, take_all, drop_all, length-append, take-append-le, drop-append-le, leb→le,
  length-eq-zero,
}
use leanp2p.ReadBuffer.{Fragment, reserve, insert_end}
use leanp2p.ReadBuffer.Growth.{reserve_lem}
use leanp2p.ReadBuffer.Collector.{Collector, expect, collect, add, add_all}

abbrev pub joined : List (List ℕ) → List ℕ
joined [] = []
joined (piece ∷ pieces) = piece ++ joined pieces

-- What a piece does where `n` bytes are expected and `bytes` are held: it makes the message whole, or is
-- buffered whole.
abbrev Collects : ℕ → List ℕ → List ℕ → Option (List ℕ) × List ℕ × Collector → Type 0
Collects n bytes piece (message, rest, c) =
    let held = bytes ++ piece in
    ((n ≤ length held) × (message ≡ some (take n held)) × (rest ≡ drop n held))
    ⊎ ((length held < n) × (message ≡ none) × (c.expected_size ≡ n) × (c.buffer.bytes ≡ held))

-- A message of `n` bytes comes from its first `n` bytes, where they are there, and the other bytes are left.
abbrev pub IsWhole : ℕ → List ℕ → Option (List ℕ × List (List ℕ)) → Type 0
IsWhole n held result =
    ((n ≤ length held)
      × (rest : List (List ℕ)) × (result ≡ some (take n held, rest))
      × (joined rest ≡ drop n held))
    ⊎ ((length held < n) × (result ≡ none))

module _ (alloc : ℕ → ℕ → ℕ) (enough : (c n : ℕ) → n ≤ alloc c n) where
  collect-Collects :
      (c : Collector) (piece : List ℕ)
      → length c.buffer.bytes < c.expected_size
      → Collects c.expected_size c.buffer.bytes piece (collect alloc c piece)
  unfolding collect insert_end
  collect-Collects c piece h =
      let unread = c.expected_size - length c.buffer.bytes in
      let some_unread : (unread == 0) ≡ false = ground arith in
      let held = c.buffer.bytes in
      elim (Bool-cases (leb unread (length piece))) [
        | inl filled ↦ inl (
          omega (arith, leb→le unread (length piece) filled, length-append held piece),
          rw (some_unread, filled)
              (ap (λ l. some l)
                (ap (λ l. l ++ take unread piece)
                    (sym (take_all c.expected_size held (omega arith)))
                  ∙ sym (take-append c.expected_size held piece))),
          rw (some_unread, filled)
              (ap (λ l. l ++ drop unread piece) (sym (drop_all c.expected_size held (omega arith)))
                ∙ sym (drop-append c.expected_size held piece)),
        )
        | inr short ↦
            let less : length piece < unread = ground arith in
            inr (
              omega (arith, length-append held piece),
              rw (some_unread, short),
              rw some_unread,
              rw (some_unread, short)
                  (ap (λ l. held ++ l) (take_all (length piece) piece (omega arith))),
            )
      ]

  add-Collects :
      (c : Collector) (piece : List ℕ)
      → length c.buffer.bytes < c.expected_size
      → Collects c.expected_size c.buffer.bytes piece (add alloc c piece)
  unfolding add
  add-Collects c piece h = elim (Bool-cases (length c.buffer.bytes == 0)) [
    | inr more ↦ rw more (collect-Collects c piece h)
    | inl e ↦
        let nothing : c.buffer.bytes ≡ [] = length-eq-zero c.buffer.bytes (ground arith) in
        let held : piece ≡ c.buffer.bytes ++ piece = ap (λ l. l ++ piece) (sym nothing) in
        elim (Bool-cases (leb c.expected_size (length piece))) [
          | inl whole ↦
              rw (e, whole)
                (inl (
                  omega (arith, leb→le c.expected_size (length piece) whole, ap length held),
                  ap (λ l. some (take c.expected_size l)) held,
                  ap (drop c.expected_size) held,
                ))
          | inr short ↦
              rw (e, short)
                (let (same, room, capacity) = reserve_lem alloc enough c.expected_size c.buffer in
                  let reserved : Collector = record c {
                    buffer = reserve alloc c.expected_size c.buffer;
                  } in
                  subst (λ l. Collects c.expected_size l piece (collect alloc reserved piece)) same
                    (collect-Collects reserved piece (omega (arith, ap length same))))
        ]
  ]

  add_all-some :
      (c : Collector) (piece m : List ℕ) (pieces : List (List ℕ))
      → (add alloc c piece).0 ≡ some m
      → add_all alloc c (piece ∷ pieces) ≡ some (m, (add alloc c piece).1 ∷ pieces)
  unfolding add_all
  add_all-some c piece m pieces e = rw (e, add_all)

  add_all-none :
      (c : Collector) (piece : List ℕ) (pieces : List (List ℕ))
      → (add alloc c piece).0 ≡ none
      → add_all alloc c (piece ∷ pieces) ≡ add_all alloc (add alloc c piece).2 pieces
  unfolding add_all
  add_all-none c piece pieces e = rw (e, add_all)

  -- A collector that waits for a message, on pieces.
  add_all_lem :
      (pieces : List (List ℕ)) (c : Collector)
      → length c.buffer.bytes < c.expected_size
      → IsWhole c.expected_size (c.buffer.bytes ++ joined pieces) (add_all alloc c pieces)
  unfolding add_all
  add_all_lem [] c h = inr (omega (arith, length-append c.buffer.bytes []), refl)
  add_all_lem (piece ∷ pieces) c h =
      let n = c.expected_size in
      let held = c.buffer.bytes ++ piece in
      let regroup : held ++ joined pieces ≡ c.buffer.bytes ++ (piece ++ joined pieces) =
        append_assoc c.buffer.bytes piece (joined pieces) in
      subst (λ l. IsWhole n l (add_all alloc c (piece ∷ pieces))) regroup
        (elim (add-Collects c piece h) [
          | inl (le, message, rest) ↦ inl (
            omega (arith, length-append held (joined pieces)),
            (add alloc c piece).1 ∷ pieces,
            add_all-some c piece _ pieces message
                ∙ (ap (λ l. some (l, (add alloc c piece).1 ∷ pieces))
                    (sym (take-append-le n held (joined pieces) le))),
            ap (λ l. l ++ joined pieces) rest ∙ sym (drop-append-le n held (joined pieces) le),
          )
          | inr (lt, message, size, bytes) ↦
              let c' = (add alloc c piece).2 in
              subst (λ r. IsWhole n (held ++ joined pieces) r)
                (sym (add_all-none c piece pieces message))
                (let later = add_all_lem pieces c' (omega (arith, size, ap length bytes)) in
                  subst (λ l. IsWhole n l (add_all alloc c' pieces))
                    (ap (λ l. l ++ joined pieces) bytes)
                    (subst
                      (λ k. IsWhole k (c'.buffer.bytes ++ joined pieces) (add_all alloc c' pieces))
                      size later))
        ])

  expect_empty : (c : Collector) (n : ℕ) → (expect c n).buffer.bytes ≡ []
  unfolding expect
  expect_empty c n = if-elim (λ (f : Fragment). f.bytes ≡ []) _ _ _ refl refl

  -- After `expect` of a message of some bytes, on any pieces: where they have as many bytes, `add` gives just
  -- the first of them and leaves the others in the pieces, and else it gives nothing; for a vector that gets
  -- the room it needs.
  pub add_all-expect :
      (c : Collector) (n : ℕ) (pieces : List (List ℕ))
      → 0 < n
      → IsWhole n (joined pieces) (add_all alloc (expect c n) pieces)
  unfolding expect
  add_all-expect c n pieces h =
      let same = expect_empty c n in
      subst (λ l. IsWhole n (l ++ joined pieces) (add_all alloc (expect c n) pieces)) same
        (add_all_lem pieces (expect c n) (omega (arith, ap length same)))
