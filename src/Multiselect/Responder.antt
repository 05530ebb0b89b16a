-- ===== src/Multiselect/Responder.antt =====
-- The responder of a negotiation: it refuses names until a supported one comes, and it ends.
use mathlib.Core.List.{append_assoc}
use leanp2p.Prelude.{
  ℕ, zero, suc, ◌+◌, ◌≤◌, ◌<◌, ◌≡◌, refl, sym, ap, ◌∙◌, arith, Bool, true, false, List, [], ◌∷◌,
  ◌++◌, All, length, length-append, ◌⊎◌, inl, inr, Bool-cases,
}
use leanp2p.Varint.{uvarint}
use leanp2p.Multiselect.{
  k_na, k_protocol_id, contains, answer, k_new_line, responder, handshake, select_one_of, read1,
  write1, when,
}
use leanp2p.Multiselect.Framing.{frame, received, sent, read1-frame, write1-frame}
use leanp2p.Multiselect.Initiator.{and_then-eq_ok}
use leanp2p.Multiselect.Wire.{ok, Connection, M, return}

-- The connection behind a refusal for each name.
abbrev pub refused : Connection → List (List ℕ) → Connection
refused c [] = c
refused c (q ∷ qs) = refused (sent c k_na) qs

abbrev pub frames : List (List ℕ) → List ℕ
frames [] = []
frames (q ∷ qs) = frame q ++ frames qs

abbrev pub IsRefused : List (List ℕ) → List ℕ → Type 0
IsRefused protocols q = (contains protocols q ≡ false) × (length q ≤ 65531)

received-refused :
    (c : Connection) (rest : List ℕ) (qs : List (List ℕ))
    → received (refused c qs) rest ≡ refused (received c rest) qs
received-refused c rest [] = refl
received-refused c rest (q ∷ qs) = received-refused (sent c k_na) rest qs

module _ (protocols : List (List ℕ)) (p rest : List ℕ) (supported : contains protocols p ≡ true)
    (short : length p ≤ 65531) where
  responder_accepts :
      (fuel : ℕ) (c : Connection)
      → 1 ≤ c.writes_left
      → c.inbox ≡ frame p ++ rest
      → responder (suc fuel) protocols c ≡ (ok p, sent (received c rest) p)
  unfolding responder answer
  responder_accepts fuel c w e =
      ground
        (arith, read1-frame p rest c short e, write1-frame p (received c rest) short w, supported)

  responder_refuses :
      (fuel : ℕ) (q tail : List ℕ) (c : Connection)
      → IsRefused protocols q
      → 1 ≤ c.writes_left
      → c.inbox ≡ frame q ++ tail
      → responder (suc fuel) protocols c ≡ responder fuel protocols (sent (received c tail) k_na)
  unfolding responder answer
  responder_refuses fuel q tail c no_match w e = ground (
    arith,
    read1-frame q tail c no_match.1 e,
    write1-frame k_na (received c tail) (omega arith) w,
    no_match.0,
  )

  responder_run :
      (qs : List (List ℕ)) (fuel : ℕ) (c : Connection)
      → All (IsRefused protocols) qs
      → length qs < fuel
      → length qs < c.writes_left
      → c.inbox ≡ frames qs ++ (frame p ++ rest)
      → responder fuel protocols c ≡ (ok p, sent (received (refused c qs) rest) p)
  responder_run [] (suc fuel) c h f w e = responder_accepts fuel c w e
  responder_run (q ∷ qs) (suc fuel) c h f w e =
      let tail = frames qs ++ (frame p ++ rest) in
      responder_refuses fuel q tail c h.0 (omega arith) (e ∙ append_assoc (frame q) (frames qs) _)
      ∙ responder_run qs fuel (sent (received c tail) k_na) h.1 (omega arith) (omega arith) refl
      ∙ ap (λ d. (ok p, sent d p))
          (received-refused (sent (received c tail) k_na) rest qs
            ∙ sym (received-refused (sent c k_na) rest qs))
  responder_run [] zero c h f w e = elim f [ ]
  responder_run (q ∷ qs) zero c h f w e = elim f [ ]

length-frames : (qs : List (List ℕ)) → length qs ≤ length (frames qs)
length-frames [] = omega arith
length-frames (q ∷ qs) = omega (
  arith,
  length-append (frame q) (frames qs),
  length-append (uvarint (length q + 1)) (q ++ (k_new_line ∷ [])),
  length-append q (k_new_line ∷ []),
  length-frames qs,
)

-- The responder answers each name that it does not support by "na", in order, and returns the
-- first supported one, which it echoes. It takes just those messages from the connection. The
-- names have at most 65531 bytes, there is no handshake, and the writes go through.
pub select_one_of_responder :
    (first : List ℕ) (more qs : List (List ℕ)) (p rest : List ℕ) (c : Connection)
    → contains (first ∷ more) p ≡ true
    → length p ≤ 65531
    → All (IsRefused (first ∷ more)) qs
    → length qs < c.writes_left
    → c.inbox ≡ frames qs ++ (frame p ++ rest)
    → select_one_of (first ∷ more) false false c ≡ (ok p, sent (received (refused c qs) rest) p)
unfolding select_one_of
select_one_of_responder first more qs p rest c h short refusals w e =
    responder_run (first ∷ more) p rest h short qs (length c.inbox + 1) c refusals
      (rw e (omega (arith, length-frames qs, length-append (frames qs) (frame p ++ rest)))) w e

answer-contains :
    (again : M (List ℕ)) (protocols : List (List ℕ)) (protocol p : List ℕ) (c c' : Connection)
    → answer again protocols protocol c ≡ (ok p, c')
    → ((p ≡ protocol) × (contains protocols p ≡ true)) ⊎ ((d : Connection) × (again d ≡ (ok p, c')))
unfolding answer
answer-contains again protocols protocol p c c' e =
    elim (Bool-cases (contains protocols protocol)) [
      | inl yes' ↦
          let (u, d, f, g) =
            and_then-eq_ok (write1 protocol c) (λ _. return protocol) (rw (yes', answer) at e) in
          inl (cc g, cc (g, yes'))
      | inr no' ↦
          let (u, d, f, g) = and_then-eq_ok (write1 k_na c) (λ _. again) (rw (no', answer) at e) in
          inr (d, g)
    ]

responder_sound :
    (fuel : ℕ) (protocols : List (List ℕ)) (p : List ℕ) (c c' : Connection)
    → responder fuel protocols c ≡ (ok p, c')
    → contains protocols p ≡ true
unfolding responder
responder_sound zero protocols p c c' e = cc
responder_sound (suc fuel) protocols p c c' e =
    let (protocol, d, f, g) = and_then-eq_ok (read1 c) _ e in
    elim (answer-contains (responder fuel protocols) protocols protocol p d c' g) [
      | inl (_, s) ↦ s
      | inr (d', r) ↦ responder_sound fuel protocols p d' c' r
    ]

-- The responder agrees only on a name of its own list.
pub select_one_of_supported :
    (protocols : List (List ℕ)) (p : List ℕ) (negotiate_multistream : Bool) (c c' : Connection)
    → select_one_of protocols false negotiate_multistream c ≡ (ok p, c')
    → contains protocols p ≡ true
unfolding select_one_of
select_one_of_supported [] p negotiate_multistream c c' e = cc
select_one_of_supported (first ∷ more) p negotiate_multistream c c' e =
    let (u, c1, f, g) = and_then-eq_ok (when negotiate_multistream (write1 k_protocol_id) c) _ e in
    let (u2, c2, f2, g2) = and_then-eq_ok (when negotiate_multistream handshake c1) _ g in
    responder_sound (length c2.inbox + 1) (first ∷ more) p c2 c' g2
