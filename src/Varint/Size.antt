-- ===== src/Varint/Size.antt =====
-- What `UVarint::create` and `UVarint::calculateSize` find at the front of a longer input.
use leanp2p.Prelude.{
  ℕ, ◌≤◌, ◌≡◌, true, refl, sym, ap, ◌∙◌, arith, inl, inr, List, ◌++◌, some, length, All, All-append,
  ltb, take-length_append,
}
use leanp2p.Varint.{
  IsByte, IsU64, uvarint, calculate_size, create, Reader, State, underflow, ready, overflow, error,
  consume_bytes_loop, consume_bytes, cut_buffer, reset,
}
use leanp2p.Varint.RoundTrip.{consume_bytes-uvarint, uvarint_loop-IsByte, length-uvarint_loop}
use leanp2p.Varint.Agree.{Agree, agree}

size_of_reader :
    (n v g : ℕ) (bytes rest : List ℕ) (t : Reader × State × List ℕ)
    → Agree n 0 0 0 bytes t
    → cut_buffer bytes t ≡ (record { value = v; state = ready; got_bytes = g }, ready, rest)
    → n ≡ g
unfolding cut_buffer
size_of_reader n v g bytes rest (r, underflow, left) a e = cc
size_of_reader n v g bytes rest (r, overflow, left) a e = cc
size_of_reader n v g bytes rest (r, error, left) a e = cc
size_of_reader n v g bytes rest (r, ready, left) (inl p) e = absurd (p.1 refl)
size_of_reader n v g bytes rest (r, ready, left) (inr (k, m, l, s, x, d)) e =
    ap (λ (q : Reader). q.got_bytes) (sym x) ∙ ap (λ (q : Reader × State × List ℕ). q.0.got_bytes) e

pub uvarint-IsByte : (v : ℕ) → IsU64 v → All IsByte (uvarint v)
unfolding uvarint
uvarint-IsByte v h = uvarint_loop-IsByte 10 v (omega arith)

-- Where the varint of a `uint64_t` comes first, `calculateSize` gives its length and `create` keeps its bytes.
pub create-uvarint :
    (v : ℕ) (rest : List ℕ)
    → IsU64 v
    → All IsByte rest
    → (calculate_size (uvarint v ++ rest) ≡ length (uvarint v))
      × (create (uvarint v ++ rest) ≡ some (uvarint v))
unfolding consume_bytes create
create-uvarint v rest u h =
    let bytes = uvarint v ++ rest in
    let size : calculate_size bytes ≡ length (uvarint v) =
      size_of_reader (calculate_size bytes) v (length (uvarint v)) bytes rest
        (consume_bytes_loop reset underflow bytes)
        (agree bytes (All-append IsByte (uvarint v) rest (uvarint-IsByte v u) h))
        (consume_bytes-uvarint v rest u) in
    let some_bytes : ltb 0 (length (uvarint v)) ≡ true = ground (arith, length-uvarint v) in
    (size, rw (size, some_bytes) (ap (λ l. some l) (take-length_append (uvarint v) rest)))
  where
    length-uvarint : (v : ℕ) → 1 ≤ length (uvarint v)
    length-uvarint v = unfold uvarint in (length-uvarint_loop 9 v).0
