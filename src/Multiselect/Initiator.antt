-- ===== src/Multiselect/Initiator.antt =====
-- The initiator of a negotiation, and what becomes of its second proposal.
use mathlib.Core.Logic.{◌⊎◌, inl, inr}
use leanp2p.Prelude.{
  ℕ, ◌+◌, ◌≤◌, ◌≡◌, ◌≢◌, refl, sym, ◌∙◌, arith, Bool, true, false, List, ◌∷◌, ◌++◌, length,
  get_elem?, bytes_eq, bytes_eq_iff, Bool-cases, Option-cases, if◌then◌else◌, some,
}
use leanp2p.Multiselect.{
  k_na, k_protocol_id, accept, propose_next, initiator, handshake, select_one_of, read1, write1,
  when,
}
use leanp2p.Multiselect.Framing.{frame, received, sent, read1-frame, write1-frame}
use leanp2p.Multiselect.Wire.{protocol_violation, Result, ok, err, Connection, M, and_then}

-- Inversion of a step that succeeded.
pub and_then-eq_ok :
    {A B : Type 0} (r : Result A × Connection) (f : A → M B) {b : B} {c' : Connection}
    → and_then r f ≡ (ok b, c')
    → (a : A) × (c : Connection) × (r ≡ (ok a, c)) × (f a c ≡ (ok b, c'))
and_then-eq_ok (ok a, c) f e = (a, c, refl, e)
and_then-eq_ok (err x, c) f e = cc

accept_eq :
    (protocols : List (List ℕ)) (i : ℕ) (protocol p : List ℕ) (c c' : Connection)
    → accept protocols i protocol c ≡ (ok p, c')
    → (p ≡ protocol) × (get_elem? protocols i ≡ some protocol)
unfolding accept
accept_eq protocols i protocol p c c' e = elim (Option-cases (get_elem? protocols i)) [
  | inl n ↦ cc (rw (n, accept) at e)
  | inr (q, s) ↦ ground (arith, s, bytes_eq_iff protocol q)
]

propose_next_eq :
    (protocols : List (List ℕ)) (i : ℕ) (protocol p : List ℕ) (c c' : Connection)
    → propose_next protocols i protocol c ≡ (ok p, c')
    → p ≡ protocol
unfolding propose_next
propose_next_eq protocols i protocol p c c' e = elim (Option-cases (get_elem? protocols (i + 1))) [
  | inl n ↦ cc (rw (n, propose_next) at e)
  | inr (q, s) ↦
      let (u, d, f, g) = and_then-eq_ok (write1 q c) _ (rw (s, propose_next) at e) in
      (accept_eq protocols (i + 1) protocol p d c' g).0
]

decision_eq :
    (first protocol p : List ℕ) (more : List (List ℕ)) (c c' : Connection)
    → (if bytes_eq protocol k_na
          then propose_next (first ∷ more) 0 protocol
          else accept (first ∷ more) 0 protocol)
        c
      ≡ (ok p, c')
    → (p ≡ first) ⊎ (p ≡ k_na)
decision_eq first protocol p more c c' e = elim (Bool-cases (bytes_eq protocol k_na)) [
  | inl na ↦ inr (
      propose_next_eq (first ∷ more) 0 protocol p c c' (rw na at e)
      ∙ (bytes_eq_iff protocol k_na).0 na)
  | inr other ↦
      let (u, f) = accept_eq (first ∷ more) 0 protocol p c c' (rw other at e) in inl (cc (u, f))
]

initiator_eq :
    (first p : List ℕ) (more : List (List ℕ)) (c c' : Connection)
    → initiator (first ∷ more) 0 c ≡ (ok p, c')
    → (p ≡ first) ⊎ (p ≡ k_na)
unfolding initiator
initiator_eq first p more c c' e =
    let (protocol, d, f, g) = and_then-eq_ok (read1 c) _ e in
    decision_eq first protocol p more d c' g

-- An initiator agrees on nothing but its first proposal (or the reserved word "na"): the other
-- names of its list are never the outcome, whatever the peer answers.
pub select_one_of_first :
    (first p : List ℕ) (more : List (List ℕ)) (negotiate_multistream : Bool) (c c' : Connection)
    → select_one_of (first ∷ more) true negotiate_multistream c ≡ (ok p, c')
    → (p ≡ first) ⊎ (p ≡ k_na)
unfolding select_one_of
select_one_of_first first p more negotiate_multistream c c' e =
    let (u, c1, f, g) = and_then-eq_ok (when negotiate_multistream (write1 k_protocol_id) c) _ e in
    let (u2, c2, f2, g2) = and_then-eq_ok (write1 first c1) _ g in
    let (u3, c3, f3, g3) = and_then-eq_ok (when negotiate_multistream handshake c2) _ g2 in
    initiator_eq first p more c3 c' g3

accept_refused :
    (protocols : List (List ℕ)) (i : ℕ) (q protocol : List ℕ) (c : Connection)
    → get_elem? protocols i ≡ some q
    → protocol ≢ q
    → accept protocols i protocol c ≡ (err protocol_violation, c)
unfolding accept
accept_refused protocols i q protocol c e ne = elim (Bool-cases (bytes_eq protocol q)) [
  | inl same ↦ absurd (ne ((bytes_eq_iff protocol q).0 same))
  | inr other ↦ rw (e, accept, other)
]

-- The fallback does not work. Let both names have at most 65531 bytes, the second not be "na", and
-- two writes go through: when the peer refuses the first proposal by "na", the initiator
-- sends its second proposal, and then fails with PROTOCOL_VIOLATION without reading the answer.
pub select_one_of_fallback :
    (first second : List ℕ) (more : List (List ℕ)) (rest : List ℕ) (c : Connection)
    → second ≢ k_na
    → length first ≤ 65531
    → length second ≤ 65531
    → 2 ≤ c.writes_left
    → c.inbox ≡ frame k_na ++ rest
    → select_one_of (first ∷ second ∷ more) true false c
      ≡ (err protocol_violation, sent (received (sent c first) rest) second)
unfolding select_one_of initiator propose_next
select_one_of_fallback first second more rest c ne h1 h2 w e = ground (
  arith,
  write1-frame first c h1,
  read1-frame k_na rest (sent c first) (omega arith) e,
  bytes_eq_iff k_na k_na,
  write1-frame second (received (sent c first) rest) h2,
  accept_refused (first ∷ second ∷ more) 1 second k_na (sent (received (sent c first) rest) second)
      refl (λ f. ne (sym f)),
)

-- With the handshake, a first name of at most 65531 bytes other than "na" and two writes that go
-- through: when the peer sends the protocol id and echoes the name, the initiator returns it.
pub select_one_of_accepted :
    (first : List ℕ) (more : List (List ℕ)) (rest : List ℕ) (c : Connection)
    → first ≢ k_na
    → length first ≤ 65531
    → 2 ≤ c.writes_left
    → c.inbox ≡ frame k_protocol_id ++ (frame first ++ rest)
    → select_one_of (first ∷ more) true true c
      ≡ (ok first, received (sent (sent c k_protocol_id) first) rest)
unfolding select_one_of initiator accept handshake
select_one_of_accepted first more rest c ne h w e = ground (
  arith,
  write1-frame k_protocol_id c (omega arith),
  write1-frame first (sent c k_protocol_id) h,
  read1-frame k_protocol_id (frame first ++ rest) (sent (sent c k_protocol_id) first) (omega arith)
      e,
  bytes_eq_iff k_protocol_id k_protocol_id,
  read1-frame first rest (received (sent (sent c k_protocol_id) first) (frame first ++ rest)) h
      refl,
  bytes_eq_iff first k_na,
  bytes_eq_iff first first,
)
