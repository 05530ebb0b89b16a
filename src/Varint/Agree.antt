-- ===== src/Varint/Agree.antt =====
-- The two decoders, `UVarint::create` and `VarintPrefixReader`, accept the same inputs.
use leanp2p.Prelude.{
  ℕ, suc, ◌+◌, ◌*◌, ◌≤◌, ◌<◌, ◌≡◌, ◌≢◌, ◌⊎◌, inl, inr, refl, sym, subst, take-append-drop,
  length-take, arith, List, [], ◌∷◌, ◌++◌, length, All, take, drop, some, none, lt→ltb,
}
use native.Mathlib.Decide.{dec_lt}
use leanp2p.Varint.{
  IsByte, calculate_size_loop, calculate_size, create, to_uint64_loop, to_uint64, Reader, State,
  underflow, ready, overflow, error, consume_bytes_loop, consume_bytes, cut_buffer, reset,
}
use leanp2p.Varint.Rounds.{
  add_group, size_last, size_inner, size_tenth, reader_last, reader_inner, reader_tenth,
  reader_overflow,
}

-- What the two loops say of the bytes from the `got`-th on: either the size is 0 and the reader
-- ends in another state, or the reader ends ready behind as many bytes as the size counts.
abbrev pub Agree : ℕ → ℕ → ℕ → ℕ → List ℕ → Reader × State × List ℕ → Type 0
Agree n got shift value bytes (r, s, rest) =
    ((n ≡ 0) × (s ≢ ready))
    ⊎ ((k : ℕ) × (n ≡ got + suc k)
        × (suc k ≤ length bytes)
        × (s ≡ ready)
        × (r ≡ record {
          value = to_uint64_loop (take (suc k) bytes) value shift;
          state = ready;
          got_bytes = n;
        })
        × (rest ≡ drop (suc k) bytes))

Agree-last :
    (r : Reader) (byte : ℕ) (bytes : List ℕ)
    → r.state ≡ underflow
    → byte < 128
    → r.got_bytes < 9
    → Agree
        (calculate_size_loop (byte ∷ bytes) r.got_bytes (7 * r.got_bytes))
        r.got_bytes
        (7 * r.got_bytes)
        r.value
        (byte ∷ bytes)
        (consume_bytes_loop r underflow (byte ∷ bytes))
Agree-last r byte bytes fresh h few =
    rw (size_last byte bytes r.got_bytes h few, reader_last r byte bytes fresh h few)
      (inr (0, omega arith, omega arith, refl, unfold to_uint64_loop in refl, refl))

Agree-tenth :
    (r : Reader) (byte : ℕ) (bytes : List ℕ)
    → r.state ≡ underflow
    → byte < 256
    → r.got_bytes ≡ 9
    → Agree
        (calculate_size_loop (byte ∷ bytes) 9 63)
        9
        63
        r.value
        (byte ∷ bytes)
        (consume_bytes_loop r underflow (byte ∷ bytes))
Agree-tenth r byte bytes fresh h e = elim (dec_lt byte 2) [
  | yes small ↦
      rw (size_tenth byte bytes 9 h, lt→ltb _ _ small, reader_tenth r byte bytes fresh small e)
        (inr (0, refl, omega arith, refl, unfold to_uint64_loop in refl, refl))
  | no big ↦ inl (
    ground (arith, size_tenth byte bytes 9 h),
    ground (arith, reader_overflow r byte bytes fresh (omega arith) h e),
  )
]

Agree-inner :
    (n got shift value byte : ℕ) (bytes : List ℕ) (t : Reader × State × List ℕ)
    → Agree n (got + 1) (shift + 7) (add_group value byte shift) bytes t
    → Agree n got shift value (byte ∷ bytes) t
unfolding to_uint64_loop
Agree-inner n got shift value byte bytes t (inl p) = inl p
Agree-inner n got shift value byte bytes t (inr (k, e, l, s, v, d)) =
    inr (suc k, omega arith, omega arith, s, v, d)

seven_suc : (g : ℕ) → 7 * (g + 1) ≡ 7 * g + 7
seven_suc g = omega arith

Agree-loop :
    (bytes : List ℕ) (r : Reader)
    → All IsByte bytes
    → r.state ≡ underflow
    → r.got_bytes ≤ 9
    → Agree
        (calculate_size_loop bytes r.got_bytes (7 * r.got_bytes))
        r.got_bytes
        (7 * r.got_bytes)
        r.value
        bytes
        (consume_bytes_loop r underflow bytes)
Agree-loop [] r h fresh few = unfold calculate_size_loop consume_bytes_loop in inl (refl, λ e. cc)
Agree-loop (byte ∷ bytes) r h fresh few =
    let r' : Reader = record {
      value = add_group r.value byte (7 * r.got_bytes);
      state = underflow;
      got_bytes = r.got_bytes + 1;
    } in
    let rest = Agree-loop bytes r' h.1 refl in
    elim (dec_lt r.got_bytes 9) [
      | no nine ↦
          let e : r.got_bytes ≡ 9 = omega arith in
          subst
            (λ g.
              Agree (calculate_size_loop (byte ∷ bytes) g (7 * g)) g (7 * g) r.value (byte ∷ bytes)
                (consume_bytes_loop r underflow (byte ∷ bytes)))
            (sym e) (Agree-tenth r byte bytes fresh h.0 e)
      | yes inside ↦ elim (dec_lt byte 128) [
        | yes small ↦ Agree-last r byte bytes fresh small inside
        | no big ↦
            rw
              (
                size_inner byte bytes r.got_bytes (omega arith) h.0 inside,
                reader_inner r byte bytes fresh (omega arith) h.0 inside,
              )
              (Agree-inner _ _ _ _ _ _ _ (rw (seven_suc r.got_bytes) at rest (omega arith)))
      ]
    ]

pub agree :
    (bytes : List ℕ)
    → All IsByte bytes
    → Agree (calculate_size bytes) 0 0 0 bytes (consume_bytes_loop reset underflow bytes)
unfolding calculate_size
agree bytes h = Agree-loop bytes reset h refl (omega arith)

decoders-Agree_at :
    (n : ℕ) (bytes : List ℕ) (t : Reader × State × List ℕ)
    → n ≡ calculate_size bytes
    → Agree n 0 0 0 bytes t
    → ((create bytes ≡ none) × ((cut_buffer bytes t).1 ≢ ready))
      ⊎ ((u : List ℕ) × (create bytes ≡ some u)
          × (bytes ≡ u ++ (cut_buffer bytes t).2)
          × ((cut_buffer bytes t).1 ≡ ready)
          × ((cut_buffer bytes t).0
              ≡ record { value = to_uint64 u; state = ready; got_bytes = length u }))
unfolding create cut_buffer to_uint64
decoders-Agree_at n bytes (r, underflow, rest) e (inl p) = inl (ground (arith, e), λ g. cc)
decoders-Agree_at n bytes (r, overflow, rest) e (inl p) = inl (ground (arith, e), λ g. cc)
decoders-Agree_at n bytes (r, error, rest) e (inl p) = inl (ground (arith, e), λ g. cc)
decoders-Agree_at n bytes (r, ready, rest) e (inl p) = absurd (p.1 refl)
decoders-Agree_at n bytes (r, ready, rest) e (inr (k, m, l, g, v, d)) =
    let size : length (take (suc k) bytes) ≡ suc k = omega (arith, length-take (suc k) bytes) in
    inr (
      take (suc k) bytes,
      ground (arith, e, m),
      rw d (sym (take-append-drop (suc k) bytes)),
      refl,
      ground (arith, v, m, size),
    )
decoders-Agree_at n bytes (r, s, rest) e (inr (k, m, l, g, v, d)) = cc

-- On every input of bytes, `UVarint::create` accepts it exactly when a fresh reader ends `kReady`
-- on it. Then the reader has taken the bytes that the varint keeps, and read the number that
-- `toUInt64` gives.
pub decoders_agree :
    (bytes : List ℕ)
    → All IsByte bytes
    → ((create bytes ≡ none) × ((consume_bytes reset bytes).1 ≢ ready))
      ⊎ ((u : List ℕ) × (create bytes ≡ some u)
          × (bytes ≡ u ++ (consume_bytes reset bytes).2)
          × ((consume_bytes reset bytes).1 ≡ ready)
          × ((consume_bytes reset bytes).0
              ≡ record { value = to_uint64 u; state = ready; got_bytes = length u }))
unfolding consume_bytes
decoders_agree bytes h = decoders-Agree_at _ bytes _ refl (agree bytes h)
