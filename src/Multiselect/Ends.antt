-- ===== src/Multiselect/Ends.antt =====
-- The negotiation ends on every input: the responder's rounds are bounded by its inbox.
use leanp2p.Prelude.{
  ℕ, zero, suc, ◌+◌, ◌≤◌, ◌<◌, ◌≡◌, ◌≢◌, refl, ap, arith, Bool, true, false, List, [], ◌∷◌, length,
  length-drop, bytes_eq, Bool-cases, Option-cases, get_elem?, inl, inr,
}
use leanp2p.Varint.{Reader, State, underflow, ready, overflow, error, consume, reset}
use leanp2p.Multiselect.{
  k_na, k_protocol_id, k_max_message_size, contains, answer, responder, conclude, handshake,
  select_one_of, read1, write1, when, lift, strip_line, value, create_message, append_protocol,
  expect_protocol_id, initiator, propose_next, accept,
}
use leanp2p.Multiselect.Initiator.{and_then-eq_ok}
use leanp2p.Multiselect.Wire.{
  stuck, Result, ok, err, Connection, M, and_then, read_varint_in, read_in, read, read_varint,
  read_sized, read_varint_message, write, return,
}

-- A step that neither runs out of fuel nor adds to the inbox.
record Sound {A : Type 0} (c : Connection) (r : Result A × Connection) : Type 0 where
  runs : r.0 ≢ err stuck
  shrinks : length r.1.inbox ≤ length c.inbox

and_then-Sound_at :
    {A B : Type 0} (c : Connection) (r : Result A × Connection) (f : A → M B)
    → Sound c r
    → ((a : A) (d : Connection) → r ≡ (ok a, d) → Sound d (f a d))
    → Sound c (and_then r f)
and_then-Sound_at c (ok a, d) f s t = ground (arith, t a d refl)
and_then-Sound_at c (err e, d) f s t = record { runs = λ g. s.runs (cc g); shrinks = s.shrinks }

and_then-Sound :
    {A B : Type 0} (c : Connection) (r : Result A × Connection) (f : A → M B)
    → Sound c r
    → ((a : A) (d : Connection) → Sound d (f a d))
    → Sound c (and_then r f)
and_then-Sound c r f s t = and_then-Sound_at c r f s (λ a d _. t a d)

read_varint_in_le :
    (inbox : List ℕ) (s : State) (r : Reader)
    → (length (read_varint_in s r inbox).1 ≤ length inbox)
      × ((read_varint_in s r inbox).0 ≢ err stuck)
unfolding read_varint_in
read_varint_in_le [] underflow r = (omega arith, λ e. cc)
read_varint_in_le (b ∷ inbox) underflow r =
    let ih = read_varint_in_le inbox (consume r b).0.state (consume r b).0 in (omega arith, ih.1)
read_varint_in_le inbox ready r = (omega arith, λ e. cc)
read_varint_in_le inbox overflow r = (omega arith, λ e. cc)
read_varint_in_le inbox error r = (omega arith, λ e. cc)

read_varint_in_lt :
    (inbox : List ℕ) (r : Reader) (v : ℕ)
    → (read_varint_in underflow r inbox).0 ≡ ok v
    → length (read_varint_in underflow r inbox).1 < length inbox
unfolding read_varint_in
read_varint_in_lt [] r v e = cc
read_varint_in_lt (b ∷ inbox) r v e =
    omega (arith, (read_varint_in_le inbox (consume r b).0.state (consume r b).0).0)

read_varint-Sound : (c : Connection) → Sound c (read_varint c)
unfolding read_varint
read_varint-Sound c =
    let p = read_varint_in_le c.inbox underflow reset in record { runs = p.1; shrinks = p.0 }

read-Sound : (n : ℕ) (c : Connection) → Sound c (read n c)
unfolding read read_in
read-Sound n c = record { runs = ground arith; shrinks = ground (arith, length-drop n c.inbox) }

lift-Sound : {A : Type 0} (r : Result A) (c : Connection) → r ≢ err stuck → Sound c (lift r c)
unfolding lift
lift-Sound (ok a) c h = record { runs = λ e. cc; shrinks = omega arith }
lift-Sound (err e) c h = record { runs = h; shrinks = omega arith }

strip_line-ne-stuck : (message : List ℕ) → strip_line message ≢ err stuck
unfolding strip_line
strip_line-ne-stuck message = ground arith

read_sized-Sound : (max_size size : ℕ) (c : Connection) → Sound c (read_sized max_size size c)
unfolding read_sized
read_sized-Sound max_size size c = ground (arith, read-Sound size c)

read1-Sound : (c : Connection) → Sound c (read1 c)
unfolding read1 read_varint_message
read1-Sound c =
    and_then-Sound c (read_varint_message k_max_message_size c) _
      (and_then-Sound c (read_varint c) _ (read_varint-Sound c)
        (read_sized-Sound k_max_message_size))
      λ message d. lift-Sound (strip_line message) d (strip_line-ne-stuck message)

read_varint_lt :
    (c d : Connection) (v : ℕ) → read_varint c ≡ (ok v, d) → length d.inbox < length c.inbox
unfolding read_varint
read_varint_lt c d v e =
    omega (arith, read_varint_in_lt c.inbox reset v (ap (λ t. t.0) e), ap (λ t. length t.1.inbox) e)

-- A message that was read took a byte at least.
read1_lt : (c d : Connection) (p : List ℕ) → read1 c ≡ (ok p, d) → length d.inbox < length c.inbox
unfolding read1 read_varint_message
read1_lt c d p e =
    let (message, c2, f2, g2) = and_then-eq_ok (read_varint_message k_max_message_size c) _ e in
    let (size, c1, f1, g1) = and_then-eq_ok (read_varint c) _ f2 in
    omega (
      arith,
      read_varint_lt c c1 size f1,
      (read_sized-Sound k_max_message_size size c1).shrinks,
      ap (λ t. length t.1.inbox) g1,
      (lift-Sound (strip_line message) c2 (strip_line-ne-stuck message)).shrinks,
      ap (λ t. length t.1.inbox) g2,
    )

write1-Sound : (p : List ℕ) (c : Connection) → Sound c (write1 p c)
unfolding write1 write value create_message append_protocol
write1-Sound p c = record { runs = ground arith; shrinks = ground arith }

handshake-Sound : (c : Connection) → Sound c (handshake c)
unfolding handshake expect_protocol_id
handshake-Sound c =
    and_then-Sound c _ _ (read1-Sound c)
      λ p d. record { runs = ground arith; shrinks = ground arith }

when-Sound :
    (b : Bool) (m : M (Unit {0}))
    → ((c : Connection) → Sound c (m c))
    → (c : Connection) → Sound c (when b m c)
unfolding when
when-Sound true m s c = s c
when-Sound false m s c = record { runs = λ e. cc; shrinks = omega arith }

accept-Sound :
    (ps : List (List ℕ)) (i : ℕ) (p : List ℕ) (c : Connection) → Sound c (accept ps i p c)
unfolding accept
accept-Sound ps i p c = record { runs = ground arith; shrinks = ground arith }

propose_next-Sound :
    (ps : List (List ℕ)) (i : ℕ) (p : List ℕ) (c : Connection) → Sound c (propose_next ps i p c)
unfolding propose_next
propose_next-Sound ps i p c = elim (Option-cases (get_elem? ps (i + 1))) [
  | inl e ↦ rw (e, propose_next) (record { runs = λ g. cc; shrinks = omega arith })
  | inr (q, e) ↦
      rw (e, propose_next)
        (and_then-Sound c _ _ (write1-Sound q c) λ _ d. accept-Sound ps (i + 1) p d)
]

initiator-Sound : (ps : List (List ℕ)) (c : Connection) → Sound c (initiator ps 0 c)
unfolding initiator
initiator-Sound ps c = and_then-Sound c _ _ (read1-Sound c) λ p d.
    elim (Bool-cases (bytes_eq p k_na)) [
      | inl e ↦ rw e (propose_next-Sound ps 0 p d)
      | inr e ↦ rw e (accept-Sound ps 0 p d)
    ]

answer-Sound :
    (again : M (List ℕ)) (ps : List (List ℕ)) (p : List ℕ) (c : Connection)
    → ((d : Connection) → length d.inbox ≤ length c.inbox → Sound d (again d))
    → Sound c (answer again ps p c)
unfolding answer
answer-Sound again ps p c s = elim (Bool-cases (contains ps p)) [
  | inl e ↦
      rw (e, answer)
        (and_then-Sound c (write1 p c) (λ _. return p) (write1-Sound p c)
          λ _ d. record { runs = λ g. cc; shrinks = omega arith })
  | inr e ↦
      rw (e, answer)
        (and_then-Sound_at c (write1 k_na c) (λ _. again) (write1-Sound k_na c)
          λ _ d g. s d (omega (arith, (write1-Sound k_na c).shrinks, ap (λ t. length t.1.inbox) g)))
]

responder-Sound :
    (fuel : ℕ) (ps : List (List ℕ)) (c : Connection)
    → length c.inbox < fuel
    → Sound c (responder fuel ps c)
unfolding responder
responder-Sound zero ps c h = elim h [ ]
responder-Sound (suc fuel) ps c h = and_then-Sound_at c (read1 c) _ (read1-Sound c) λ p d e.
    answer-Sound (responder fuel ps) ps p d
      λ d' g. responder-Sound fuel ps d' (omega (arith, read1_lt c d p e))

conclude-Sound : (b : Bool) (ps : List (List ℕ)) (c : Connection) → Sound c (conclude b ps c)
unfolding conclude
conclude-Sound true ps c = initiator-Sound ps c
conclude-Sound false ps c = responder-Sound (length c.inbox + 1) ps c (omega arith)

-- Every negotiation ends, on any list of names, in both roles and on any bytes from the peer: the
-- responder's loop never runs out of the rounds that the model gives it.
pub select_one_of_ends :
    (protocols : List (List ℕ)) (is_initiator negotiate_multistream : Bool) (c : Connection)
    → (select_one_of protocols is_initiator negotiate_multistream c).0 ≢ err stuck
unfolding select_one_of
select_one_of_ends [] is_initiator negotiate_multistream c = λ e. cc
select_one_of_ends (first ∷ more) is_initiator negotiate_multistream c =
    (and_then-Sound c (when negotiate_multistream (write1 k_protocol_id) c) _
      (when-Sound negotiate_multistream _ (write1-Sound k_protocol_id) c)
      λ _ c1.
        and_then-Sound c1 (when is_initiator (write1 first) c1) _
          (when-Sound is_initiator _ (write1-Sound first) c1)
          λ _ c2.
            and_then-Sound c2 (when negotiate_multistream handshake c2) _
              (when-Sound negotiate_multistream _ handshake-Sound c2)
              λ _ c3. conclude-Sound is_initiator (first ∷ more) c3).runs
