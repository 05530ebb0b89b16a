-- ===== src/ProtocolRepository/Tests.antt =====
-- One peer, and calls on it.
use leanp2p.Prelude.{arith, ◌≡◌, refl, List, [], ◌∷◌, some}
use leanp2p.Prelude.Eq.{nat_eq}
use leanp2p.Prelude.Maps.{lookup, has, emplace, modify, remove}
use leanp2p.ProtocolRepository.{
  supports_protocols, set_insert, insert_all, erase_all, set_intersection, add_protocols,
  remove_protocols, get_or_allocate_protocol_set,
}
use leanp2p.ProtocolRepository.History.{
  Call, adding, removing, apply, run, Answers, supports_protocols-Answers,
}

abbrev calls : List Call
calls = adding 8 (1 ∷ []) ∷ removing 7 (5 ∷ []) ∷ adding 7 (9 ∷ 5 ∷ 3 ∷ []) ∷ []

answered : supports_protocols (run calls) 7 (3 ∷ 4 ∷ 5 ∷ 9 ∷ []) ≡ some (3 ∷ 9 ∷ [])
unfolding supports_protocols set_insert insert_all erase_all set_intersection add_protocols
    remove_protocols get_or_allocate_protocol_set apply run lookup has emplace modify remove
answered = refl

supports_protocols-Answers_example :
    Answers calls 7 (3 ∷ 4 ∷ 5 ∷ 9 ∷ []) (supports_protocols (run calls) 7 (3 ∷ 4 ∷ 5 ∷ 9 ∷ []))
supports_protocols-Answers_example = supports_protocols-Answers calls 7 (3 ∷ 4 ∷ 5 ∷ 9 ∷ []) (
  (omega arith, (omega arith, (omega arith, tt))),
  ((omega arith, (omega arith, tt)), ((omega arith, tt), (tt, tt))),
)
