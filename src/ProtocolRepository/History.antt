-- ===== src/ProtocolRepository/History.antt =====
-- What the repository answers after any calls, by the calls alone.
use leanp2p.Prelude.{
  ℕ, ◌≡◌, refl, sym, ap, subst, ◌∙◌, arith, Bool, true, false, not, ◌&&◌, ◌||◌, inl, inr, ◌⊎◌, List,
  [], ◌∷◌, Option, none, some, ◌==◌, ==_iff, if◌then◌else◌, Bool-cases, option-cases,
}
use leanp2p.Prelude.Eq.{nat_eq}
use leanp2p.Prelude.Maps.{lookup, modify, member}
use leanp2p.ProtocolRepository.{
  Db, insert_all, erase_all, set_intersection, get_or_allocate_protocol_set, add_protocols,
  remove_protocols, supports_protocols, clear, collect_garbage,
}
use leanp2p.ProtocolRepository.Sets.{
  IsAscending, insert_all-IsAscending, erase_all-IsAscending, set_intersection-IsAscending,
  member-set_intersection, member-insert_all, member-erase_all,
}
use leanp2p.ProtocolRepository.Stored.{
  IsStored, within, within_after, lookup-All, modify-IsStored, allocate-IsStored,
  collect_garbage-IsStored, within-collect_garbage, within-modify, lookup-allocate,
}

pub data Call : Type 0 where
  adding removing : ℕ → List ℕ → Call
  clearing : ℕ → Call
  collecting : Call

abbrev pub or_same : Db → Option Db → Db
or_same db none = db
or_same db (some next) = next

unfoldable pub apply : Call → Db → Db
apply (adding p ms) db = add_protocols db p ms
apply (removing p ms) db = or_same db (remove_protocols db p ms)
apply (clearing p) db = clear db p
apply collecting db = collect_garbage db

-- The calls are given with the last one first.
unfoldable pub run : List Call → Db
run [] = []
run (c ∷ cs) = apply c (run cs)

-- What a call makes of whether the peer `p` has the protocol `m`.
unfoldable pub effect : Call → ℕ → ℕ → Bool → Bool
effect (adding q ms) p m b = (q == p && member m ms) || b
effect (removing q ms) p m b = not (q == p && member m ms) && b
effect (clearing q) p m b = not (q == p) && b
effect collecting p m b = b

-- Whether it has it after the calls.
unfoldable pub holds : List Call → ℕ → ℕ → Bool
unfolding effect
holds [] p m = false
holds (c ∷ cs) p m = effect c p m (holds cs p m)

apply-IsStored : (c : Call) (db : Db) → IsStored db → IsStored (apply c db)
unfolding apply add_protocols remove_protocols clear
apply-IsStored (adding p ms) db v =
    modify-IsStored (insert_all ms) p (get_or_allocate_protocol_set db p)
      (insert_all-IsAscending ms) (allocate-IsStored p db v)
apply-IsStored (removing p ms) db v =
    option-cases (lookup p db) (λ o. IsStored (or_same db o)) none
      (λ s. some (modify p (erase_all ms) db)) (λ e. v)
      (λ s e. modify-IsStored (erase_all ms) p db (erase_all-IsAscending ms) v)
apply-IsStored (clearing p) db v = modify-IsStored (λ s. []) p db (λ s a. tt) v
apply-IsStored collecting db v = collect_garbage-IsStored db v

within-absent :
    (q p m : ℕ) (b : Bool) (db : Db)
    → lookup q db ≡ none
    → within (lookup p db) m ≡ (not (q == p && b) && within (lookup p db) m)
within-absent q p m b db n = elim (Bool-cases (q == p)) [
  | inl e ↦
      let gone : lookup p db ≡ none = subst (λ x. lookup x db ≡ none) ((==_iff q p).0 e) n in
      rw gone (ground arith)
  | inr e ↦ rw e refl
]

within_after-erase_all :
    (q p m : ℕ) (ms : List ℕ) (o : Option (List ℕ))
    → ((s : List ℕ) → o ≡ some s → IsAscending s)
    → (if q == p then within_after (erase_all ms) o m else within o m)
      ≡ (not (q == p && member m ms) && within o m)
within_after-erase_all q p m ms none a = ground arith
within_after-erase_all q p m ms (some s) a = ground (arith, member-erase_all m ms s (a s refl))

within_after-clear :
    (q p m : ℕ) (o : Option (List ℕ))
    → (if q == p then within_after (λ s. []) o m else within o m) ≡ (not (q == p) && within o m)
unfolding member
within_after-clear q p m none = ground arith
within_after-clear q p m (some s) = ground arith

-- Each call has its effect on what a peer has.
apply-effect :
    (c : Call) (p m : ℕ) (db : Db)
    → IsStored db
    → within (lookup p (apply c db)) m ≡ effect c p m (within (lookup p db) m)
unfolding apply effect member add_protocols remove_protocols clear
apply-effect (adding q ms) p m db v =
    within-modify (insert_all ms) q p m (get_or_allocate_protocol_set db q)
    ∙ ap (λ o. if q == p then within_after (insert_all ms) o m else within o m)
        (lookup-allocate q p db)
    ∙ by_cases (lookup p db) (Bool-cases (q == p))
  where
    by_cases :
        (o : Option (List ℕ))
        → (q == p ≡ true) ⊎ (q == p ≡ false)
        → (if q == p
            then within_after
                (insert_all ms)
                (elim o [ none ↦ if q == p then some [] else none | some s ↦ some s ])
                m
            else within (elim o [ none ↦ if q == p then some [] else none | some s ↦ some s ]) m)
          ≡ ((q == p && member m ms) || within o m)
    by_cases none (inl e) = rw e (member-insert_all m ms [])
    by_cases none (inr e) = rw e refl
    by_cases (some s) (inl e) = rw e (member-insert_all m ms s)
    by_cases (some s) (inr e) = rw e refl
apply-effect (removing q ms) p m db v =
    option-cases (lookup q db)
      (λ o.
        within (lookup p (or_same db o)) m
        ≡ (not (q == p && member m ms) && within (lookup p db) m))
      none (λ s. some (modify q (erase_all ms) db)) (λ n. within-absent q p m (member m ms) db n)
      (λ s e.
        within-modify (erase_all ms) q p m db
        ∙ within_after-erase_all q p m ms (lookup p db) (λ t. lookup-All p t db v.sets))
apply-effect (clearing q) p m db v =
    within-modify (λ s. []) q p m db ∙ within_after-clear q p m (lookup p db)
apply-effect collecting p m db v = within-collect_garbage p m db v.peers

run-IsStored : (cs : List Call) → IsStored (run cs)
unfolding run
run-IsStored [] = record { peers = tt; sets = tt }
run-IsStored (c ∷ cs) = apply-IsStored c (run cs) (run-IsStored cs)

run-holds : (cs : List Call) (p m : ℕ) → within (lookup p (run cs)) m ≡ holds cs p m
unfolding run holds lookup
run-holds [] p m = refl
run-holds (c ∷ cs) p m =
    apply-effect c p m (run cs) (run-IsStored cs) ∙ ap (effect c p m) (run-holds cs p m)

-- What `supportsProtocols` answers: an ascending list of just the names that were asked for and are held, and
-- NOT_FOUND only where none is held.
abbrev pub Answers : List Call → ℕ → List ℕ → Option (List ℕ) → Type 0
Answers cs p protocols none = (m : ℕ) → holds cs p m ≡ false
Answers cs p protocols (some r) =
    IsAscending r × ((m : ℕ) → member m r ≡ (member m protocols && holds cs p m))

-- After any calls of addProtocols (which makes the peer where it is missing), removeProtocols (which leaves a
-- missing peer missing), clear and collectGarbage on an empty repository: supportsProtocols answers
-- for an ascending list of names as `Answers` says.
pub supports_protocols-Answers :
    (cs : List Call) (p : ℕ) (protocols : List ℕ)
    → IsAscending protocols
    → Answers cs p protocols (supports_protocols (run cs) p protocols)
unfolding supports_protocols
supports_protocols-Answers cs p protocols a =
    option-cases (lookup p (run cs)) (Answers cs p protocols) none
      (λ s. some (set_intersection protocols s))
      (λ n m. sym (run-holds cs p m) ∙ ap (λ o. within o m) n)
      (λ s e. (
        set_intersection-IsAscending protocols s a,
        λ m.
            member-set_intersection m protocols s a
              (lookup-All p s (run cs) (run-IsStored cs).sets e)
            ∙ ap (λ b. member m protocols && b) (sym (ap (λ o. within o m) e) ∙ run-holds cs p m),
      ))
