-- ===== src/ReadBuffer/Exchange.antt =====
-- `addAndConsume` is `add` and then `consume`.
use mathlib.Core.List.{append-nil}
use leanp2p.Prelude.{
  ℕ, suc, ◌+◌, ◌-◌, ◌≤◌, ◌<◌, ◌≡◌, sym, ap, ◌∙◌, arith, true, false, inl, inr, Bool-cases, List, [],
  ◌++◌, some, length, take, drop, min, length-append, take-append, drop-append, take_all, drop_all,
  take-append-le, drop-append-le, length-eq-zero, leb, ◌==◌, leb→le, subst,
}
use leanp2p.ReadBuffer.{ReadBuffer, consume_all, add, add_and_consume}
use leanp2p.ReadBuffer.Content.{content, IsValid}
use leanp2p.ReadBuffer.Methods.{consume_lem, consume_all_lem}
use leanp2p.ReadBuffer.Growth.{add_lem}

module _ (alloc : ℕ → ℕ → ℕ) (enough : (c n : ℕ) → n ≤ alloc c n) where
  -- `addAndConsume` is `add` and then `consume`.
  abbrev pub Exchanges : ℕ → ReadBuffer → List ℕ → ℕ → Type 0
  Exchanges fuel b xs n =
      let q = content b ++ xs in
      (b' : ReadBuffer) × (add_and_consume alloc fuel b xs n
        ≡ some (min n (length q), take n q, b'))
      × IsValid b'
      × (content b' ≡ drop n q)

  exchange_no_input :
      (fuel : ℕ) (b : ReadBuffer) (xs : List ℕ) (n : ℕ)
      → IsValid b
      → length xs ≡ 0
      → Exchanges (suc fuel) b xs n
  unfolding add_and_consume
  exchange_no_input fuel b xs n v e =
      let (b', run, valid, left, size) = consume_lem b n v in
      let no_bytes : content b ++ xs ≡ content b =
        ap (λ l. content b ++ l) (length-eq-zero xs e) ∙ append-nil (content b) in
      let none_in : (length xs == 0) ≡ true = ground arith in
      (b', rw (none_in, no_bytes) run, valid, rw no_bytes left)

  exchange_no_output :
      (fuel : ℕ) (b : ReadBuffer) (xs : List ℕ)
      → IsValid b
      → 0 < length xs
      → Exchanges (suc fuel) b xs 0
  unfolding add_and_consume
  exchange_no_output fuel b xs v e =
      let (valid, bytes) = add_lem alloc enough b xs v in
      let some_in : (length xs == 0) ≡ false = ground arith in
      (
        add alloc b xs,
        rw some_in (ap (λ k. some (k, [], add alloc b xs)) (omega arith)),
        valid,
        bytes,
      )

  exchange_empty :
      (fuel : ℕ) (b : ReadBuffer) (xs : List ℕ) (n : ℕ)
      → IsValid b
      → 0 < length xs
      → 0 < n
      → content b ≡ []
      → Exchanges (suc fuel) b xs n
  unfolding add_and_consume
  exchange_empty fuel b xs n v e out no_bytes =
      let some_in : (length xs == 0) ≡ false = ground arith in
      let some_out : (n == 0) ≡ false = ground arith in
      let none_there : (b.total_size == 0) ≡ true = ground (arith, v.size, ap length no_bytes) in
      elim (Bool-cases (leb (length xs) n)) [
        | inl fits ↦
            let le : length xs ≤ n = leb→le (length xs) n fits in
            (
              b,
              rw (some_in, some_out, none_there, fits, no_bytes, take_all n xs le)
                  (ap (λ k. some (k, xs, b)) (omega arith)),
              v,
              no_bytes ∙ sym (ap (λ l. drop n (l ++ xs)) no_bytes ∙ drop_all n xs le),
            )
        | inr long ↦
            let (valid, bytes) = add_lem alloc enough b (drop n xs) v in
            let lt : n < length xs = ground arith in
            (
              add alloc b (drop n xs),
              rw (some_in, some_out, none_there, long, no_bytes)
                  (ap (λ k. some (k, take n xs, add alloc b (drop n xs))) (omega arith)),
              valid,
              bytes ∙ ap (λ l. l ++ drop n xs) no_bytes ∙ sym (ap (λ l. drop n (l ++ xs)) no_bytes),
            )
      ]

  exchange_within :
      (fuel : ℕ) (b : ReadBuffer) (xs : List ℕ) (n : ℕ)
      → IsValid b
      → 0 < length xs
      → 0 < n
      → 0 < length (content b)
      → n ≤ length (content b)
      → Exchanges (suc fuel) b xs n
  unfolding add_and_consume
  exchange_within fuel b xs n v e out there le =
      let (b', run, valid, left, size) = consume_lem b n v in
      let (valid', bytes) = add_lem alloc enough b' xs valid in
      let some_in : (length xs == 0) ≡ false = ground arith in
      let some_out : (n == 0) ≡ false = ground arith in
      let some_there : (b.total_size == 0) ≡ false = ground (arith, v.size) in
      let within : leb n b.total_size ≡ true = ground (arith, v.size) in
      let n_bytes : min n (length (content b)) ≡ min n (length (content b ++ xs)) =
        omega (arith, length-append (content b) xs) in
      (
        add alloc b' xs,
        rw (some_in, some_out, some_there, within, run, take-append-le n (content b) xs le)
            (ap (λ k. some (k, take n (content b), add alloc b' xs)) n_bytes),
        valid',
        bytes ∙ ap (λ l. l ++ xs) left ∙ sym (drop-append-le n (content b) xs le),
      )

  add_and_consume_again :
      (fuel : ℕ) (b b' : ReadBuffer) (xs out : List ℕ) (n k : ℕ)
      → 0 < length xs
      → 0 < b.total_size
      → b.total_size < n
      → add_and_consume alloc fuel (consume_all b).2 xs (n - (consume_all b).0) ≡ some (k, out, b')
      → add_and_consume alloc (suc fuel) b xs n
        ≡ some ((consume_all b).0 + k, (consume_all b).1 ++ out, b')
  unfolding add_and_consume
  add_and_consume_again fuel b b' xs out n k e there lt run =
      let some_in : (length xs == 0) ≡ false = ground arith in
      let some_out : (n == 0) ≡ false = ground arith in
      let some_there : (b.total_size == 0) ≡ false = ground arith in
      let beyond : leb n b.total_size ≡ false = ground arith in
      rw (some_in, some_out, some_there, beyond, run)

  exchange_more :
      (fuel : ℕ) (b : ReadBuffer) (xs : List ℕ) (n : ℕ)
      → IsValid b
      → 0 < length xs
      → 0 < length (content b)
      → length (content b) < n
      → Exchanges (suc (suc fuel)) b xs n
  exchange_more fuel b xs n v e there lt =
      let (answer, copied, valid, gone) = consume_all_lem b v in
      let q = content b in
      let m = n - (consume_all b).0 in
      let (b', run, valid', left) =
        exchange_empty fuel (consume_all b).2 xs m valid e (omega (arith, answer, v.size)) gone in
      let bytes : (consume_all b).1 ++ take m (content (consume_all b).2 ++ xs) ≡ take n (q ++ xs) =
        (λ i. copied i ++ take (taken i) (gone i ++ xs))
        ∙ sym (ap (λ l. l ++ take (n - length q) xs) (take_all n q (omega arith)))
        ∙ sym (take-append n q xs) in
      let count : (consume_all b).0 + min m (length (content (consume_all b).2 ++ xs))
          ≡ min n (length (q ++ xs)) =
        omega (arith, answer, v.size, length-append q xs, ap (λ l. length (l ++ xs)) gone) in
      (
        b',
        add_and_consume_again (suc fuel) b b' xs _ n _ e (omega (arith, v.size))
              (omega (arith, v.size)) run
            ∙ (λ i. some (count i, bytes i, b')),
        valid',
        left
            ∙ (λ i. drop (taken i) (gone i ++ xs))
            ∙ ap (λ l. l ++ drop (n - length q) xs) (sym (drop_all n q (omega arith)))
            ∙ sym (drop-append n q xs),
      )
    where
      taken : n - (consume_all b).0 ≡ n - length (content b)
      taken = omega (arith, (consume_all_lem b v).0, v.size)

  pub exchange_lem : (b : ReadBuffer) (xs : List ℕ) (n : ℕ) → IsValid b → Exchanges 2 b xs n
  exchange_lem b xs n v = elim (Bool-cases (length xs == 0)) [
    | inl e ↦ exchange_no_input 1 b xs n v (ground arith)
    | inr e ↦ elim (Bool-cases (n == 0)) [
      | inl z ↦
          let zero_out : 0 ≡ n = ground arith in
          subst (λ k. Exchanges 2 b xs k) zero_out (exchange_no_output 1 b xs v (ground arith))
      | inr z ↦ elim (Bool-cases (length (content b) == 0)) [
        | inl h ↦
            exchange_empty 1 b xs n v (ground arith) (ground arith)
              (length-eq-zero (content b) (ground arith))
        | inr h ↦ elim (Bool-cases (leb n (length (content b)))) [
          | inl le ↦
              exchange_within 1 b xs n v (ground arith) (ground arith) (ground arith) (ground arith)
          | inr lt ↦ exchange_more 0 b xs n v (ground arith) (ground arith) (ground arith)
        ]
      ]
    ]
  ]
