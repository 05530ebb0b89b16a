-- ===== src/Multiselect/Tests.antt =====
-- The negotiation on concrete connections.
use leanp2p.Prelude.{
  ℕ, ◌≡◌, ◌≢◌, ◌⊎◌, refl, ap, arith, true, false, List, [], ◌∷◌, ◌++◌, All, length, codes, bytes_eq,
}
use leanp2p.Multiselect.{k_na, k_protocol_id, contains, read1, select_one_of}
use leanp2p.Multiselect.Wire.{Connection, ok, err, protocol_violation, stuck}
use leanp2p.Multiselect.Framing.{frame, received, sent, read1-frame}
use leanp2p.Multiselect.Initiator.{
  select_one_of_fallback, select_one_of_first, select_one_of_accepted,
}
use leanp2p.Multiselect.Responder.{
  refused, frames, IsRefused, select_one_of_responder, select_one_of_supported,
}
use leanp2p.Multiselect.Ends.{select_one_of_ends}

abbrev ping : List ℕ
ping = codes "/ping"

abbrev echo : List ℕ
echo = codes "/echo"

abbrev connection_of : List ℕ → Connection
connection_of inbox = record { inbox = inbox; outbox = []; writes_left = 9 }

abbrev refusing : Connection
refusing = connection_of (frame k_na ++ frame echo)

abbrev accepting : Connection
accepting = connection_of (frame k_protocol_id ++ (frame ping ++ []))

abbrev asking : Connection
asking = connection_of (frames (echo ∷ []) ++ (frame ping ++ []))

ping-k_na : ping ≢ k_na
ping-k_na e = ground (arith, ap length e)

echo-k_na : echo ≢ k_na
echo-k_na e = ground (arith, ap length e)

select_one_of_fallback_example :
    select_one_of (ping ∷ echo ∷ []) true false refusing
    ≡ (err protocol_violation, sent (received (sent refusing ping) (frame echo)) echo)
select_one_of_fallback_example =
    select_one_of_fallback ping echo [] (frame echo) refusing echo-k_na (omega arith) (omega arith)
      (omega arith) refl

select_one_of_accepted_example :
    select_one_of (ping ∷ echo ∷ []) true true accepting
    ≡ (ok ping, received (sent (sent accepting k_protocol_id) ping) [])
select_one_of_accepted_example =
    select_one_of_accepted ping (echo ∷ []) [] accepting ping-k_na (omega arith) (omega arith) refl

abbrev accepted : Connection
accepted = received (sent (sent accepting k_protocol_id) ping) []

negotiated : select_one_of (ping ∷ echo ∷ []) true true accepting ≡ (ok ping, accepted)
negotiated =
    select_one_of_accepted ping (echo ∷ []) [] accepting ping-k_na (omega arith) (omega arith) refl

select_one_of_first_example : (ping ≡ ping) ⊎ (ping ≡ k_na)
select_one_of_first_example =
    select_one_of_first ping ping (echo ∷ []) true accepting accepted negotiated

echo-IsRefused : All (IsRefused (ping ∷ [])) (echo ∷ [])
unfolding contains bytes_eq
echo-IsRefused = ground arith

ping_supported : contains (ping ∷ []) ping ≡ true
unfolding contains bytes_eq
ping_supported = refl

select_one_of_responder_example :
    select_one_of (ping ∷ []) false false asking
    ≡ (ok ping, sent (received (refused asking (echo ∷ [])) []) ping)
select_one_of_responder_example =
    select_one_of_responder ping [] (echo ∷ []) ping [] asking ping_supported (omega arith)
      echo-IsRefused (omega arith) refl

answered :
    select_one_of (ping ∷ []) false false asking
    ≡ (ok ping, sent (received (refused asking (echo ∷ [])) []) ping)
answered =
    select_one_of_responder ping [] (echo ∷ []) ping [] asking ping_supported (omega arith)
      echo-IsRefused (omega arith) refl

select_one_of_supported_example : contains (ping ∷ []) ping ≡ true
select_one_of_supported_example =
    select_one_of_supported (ping ∷ []) ping false asking
      (sent (received (refused asking (echo ∷ [])) []) ping) answered

select_one_of_ends_example : (select_one_of (ping ∷ []) false true asking).0 ≢ err stuck
select_one_of_ends_example = select_one_of_ends (ping ∷ []) false true asking

read1-frame_example :
    read1 (connection_of (frame ping ++ []))
    ≡ (ok ping, received (connection_of (frame ping ++ [])) [])
read1-frame_example = read1-frame ping [] (connection_of (frame ping ++ [])) (omega arith) refl
