-- ===== src/ReadBuffer/Queue.antt =====
-- The buffer as a queue of bytes.
use leanp2p.Prelude.{
  ℕ, ◌≤◌, ◌<◌, ◌≡◌, refl, ap, ◌∙◌, inl, List, [], ◌∷◌, ◌++◌, Option, none, some, length, take, drop,
  min,
}
use leanp2p.ReadBuffer.{ReadBuffer, init, clear, consume, add, add_and_consume}
use leanp2p.ReadBuffer.Content.{content, IsValid}
use leanp2p.ReadBuffer.Methods.{consume_lem}
use leanp2p.ReadBuffer.Growth.{add_lem}
use leanp2p.ReadBuffer.Exchange.{exchange_lem}

-- What a user calls.
pub data Call : Type 0 where
  adding : List ℕ → Call
  consuming : ℕ → Call
  exchanging : List ℕ → ℕ → Call
  clearing : Call

-- The answers of a queue of bytes: their number, and the bytes.
abbrev pub answer : ℕ → List ℕ → ℕ × List ℕ
answer n q = (min n (length q), take n q)

abbrev pub run_queue : List Call → List ℕ → List (ℕ × List ℕ)
run_queue [] q = []
run_queue (adding xs ∷ calls) q = run_queue calls (q ++ xs)
run_queue (consuming n ∷ calls) q = answer n q ∷ run_queue calls (drop n q)
run_queue (exchanging xs n ∷ calls) q = answer n (q ++ xs) ∷ run_queue calls (drop n (q ++ xs))
run_queue (clearing ∷ calls) q = run_queue calls []

abbrev pub answering : ℕ × List ℕ → Option (List (ℕ × List ℕ)) → Option (List (ℕ × List ℕ))
answering a none = none
answering a (some l) = some (a ∷ l)

abbrev pub follow :
    (ReadBuffer → Option (List (ℕ × List ℕ)))
    → Option (ℕ × List ℕ × ReadBuffer)
    → Option (List (ℕ × List ℕ))
follow next none = none
follow next (some (k, out, b)) = answering (k, out) (next b)

-- The answers of the buffer. `none` is a call that does not end.
unfoldable pub run : (ℕ → ℕ → ℕ) → List Call → ReadBuffer → Option (List (ℕ × List ℕ))
run alloc [] b = some []
run alloc (adding xs ∷ calls) b = run alloc calls (add alloc b xs)
run alloc (consuming n ∷ calls) b = follow (run alloc calls) (consume b n)
run alloc (exchanging xs n ∷ calls) b = follow (run alloc calls) (add_and_consume alloc 2 b xs n)
run alloc (clearing ∷ calls) b = run alloc calls (clear b)

module _ (alloc : ℕ → ℕ → ℕ) (enough : (c n : ℕ) → n ≤ alloc c n) where
  run_valid :
      (calls : List Call) (b : ReadBuffer)
      → IsValid b
      → run alloc calls b ≡ some (run_queue calls (content b))
  unfolding run clear
  run_valid [] b v = refl
  run_valid (adding xs ∷ calls) b v =
      let (valid, bytes) = add_lem alloc enough b xs v in
      run_valid calls (add alloc b xs) valid ∙ ap (λ q. some (run_queue calls q)) bytes
  run_valid (consuming n ∷ calls) b v =
      let (b', runs, valid, left, size) = consume_lem b n v in
      ap (follow (run alloc calls)) runs
      ∙ ap (answering (answer n (content b)))
          (run_valid calls b' valid ∙ ap (λ q. some (run_queue calls q)) left)
  run_valid (exchanging xs n ∷ calls) b v =
      let (b', runs, valid, left) = exchange_lem alloc enough b xs n v in
      ap (follow (run alloc calls)) runs
      ∙ ap (answering (answer n (content b ++ xs)))
          (run_valid calls b' valid ∙ ap (λ q. some (run_queue calls q)) left)
  run_valid (clearing ∷ calls) b v = run_valid calls (clear b) (record {
    granularity = v.granularity;
    size = refl;
    room = refl;
    solid = tt;
    shape = inl refl;
  })

  -- For every sequence of calls on a new buffer of granularity over 0 and a vector that gets the room it needs: every
  -- call ends, and answers what a queue of bytes answers.
  pub run-run_queue :
      (calls : List Call) (granularity : ℕ)
      → 0 < granularity
      → run alloc calls (init granularity) ≡ some (run_queue calls [])
  unfolding init
  run-run_queue calls granularity h =
      run_valid calls (init granularity)
        (record { granularity = h; size = refl; room = refl; solid = tt; shape = inl refl })
