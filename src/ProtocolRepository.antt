-- ===== src/ProtocolRepository.antt =====
-- `InmemProtocolRepository` of peer/protocol_repository. Peers and protocols are numbers; a `std::set` of
-- protocols is its elements in ascending order.
pub mod Sets
pub mod Stored
pub mod History
mod Tests
use leanp2p.Prelude.{
  ℕ, Bool, true, false, List, [], ◌∷◌, Option, none, some, ltb, ◌==◌, if◌then◌else◌,
}
use leanp2p.Prelude.Eq.{nat_eq}
use leanp2p.Prelude.Maps.{lookup, has, emplace, modify, remove, keys}

unfoldable pub set_insert : ℕ → List ℕ → List ℕ
set_insert m [] = m ∷ []
set_insert m (n ∷ s) =
    let rest = set_insert m s in if ltb m n then m ∷ n ∷ s else if m == n then n ∷ s else n ∷ rest

unfoldable pub insert_all : List ℕ → List ℕ → List ℕ
insert_all [] s = s
insert_all (m ∷ ms) s = insert_all ms (set_insert m s)

unfoldable pub erase_all : List ℕ → List ℕ → List ℕ
erase_all [] s = s
erase_all (m ∷ ms) s = erase_all ms (remove m s)

-- `std::set_intersection`.
unfoldable pub set_intersection : List ℕ → List ℕ → List ℕ
set_intersection [] t = []
set_intersection (m ∷ s) [] = []
set_intersection (m ∷ s) (n ∷ t) =
    if ltb m n
    then set_intersection s (n ∷ t)
    else if ltb n m
    then set_intersection (m ∷ s) t
    else m ∷ set_intersection s t

-- `db_`.
abbrev pub Db : Type 0
Db = List (ℕ × List ℕ)

-- `none` is the error NOT_FOUND.
unfoldable pub get_protocols : Db → ℕ → Option (List ℕ)
get_protocols db p = lookup p db

unfoldable pub get_or_allocate_protocol_set : Db → ℕ → Db
get_or_allocate_protocol_set db p = if has p db then db else emplace p [] db

unfoldable pub add_protocols : Db → ℕ → List ℕ → Db
unfolding get_or_allocate_protocol_set insert_all
add_protocols db p ms = modify p (insert_all ms) (get_or_allocate_protocol_set db p)

unfoldable pub remove_protocols : Db → ℕ → List ℕ → Option Db
unfolding erase_all
remove_protocols db p ms = elim (lookup p db) [
  | none ↦ none
  | some s ↦ some (modify p (erase_all ms) db)
]

unfoldable pub supports_protocols : Db → ℕ → List ℕ → Option (List ℕ)
unfolding set_intersection
supports_protocols db p protocols = elim (lookup p db) [
  | none ↦ none
  | some s ↦ some (set_intersection protocols s)
]

unfoldable pub clear : Db → ℕ → Db
clear db p = modify p (λ s. []) db

unfoldable pub collect_garbage : Db → Db
collect_garbage [] = []
collect_garbage ((p, []) ∷ db) = collect_garbage db
collect_garbage ((p, m ∷ s) ∷ db) = (p, m ∷ s) ∷ collect_garbage db

unfoldable pub get_peers : Db → List ℕ
get_peers db = keys db
