-- ===== src/Network/Dialer/System.antt =====
-- Dials as coroutines that take turns: a dial may be called, or go on with what the transport gives, in any order,
-- and the other parts of the program may change the manager and the repository meanwhile.
use leanp2p.Prelude.{
  ℕ, ◌≡◌, ◌≢◌, refl, sym, ap, ◌∙◌, arith, Bool, List, [], ◌∷◌, ◌++◌, some, ==_iff, All, All-append,
}
use leanp2p.Prelude.Eq.{nat_eq}
use leanp2p.Prelude.Maps.{
  lookup, erase, member, keys, IsUnique, keys-erase, insert-IsUnique, remove-IsUnique,
  member-insert, member-remove,
}
use leanp2p.AddressRepository.{Addresses}
use leanp2p.Network.Manager.{Manager}
use leanp2p.Network.Dialer.{
  state_inconsistency, DialResult, failed, Attempt, Dialer, Outcome, done, waiting, resume, dial,
}
use leanp2p.Network.Dialer.Turns.{member-lookup, Turns, resume-Turns, Dials, dial-Dials}

pub record System : Type 0 where
  pub dialer : Dialer
  -- The dials that wait, each with the address that the transport dials.
  pub waits : List (ℕ × ℕ)
  pub answers : List (ℕ × DialResult)

-- A coroutine runs until it waits or ends.
unfoldable pub turn : System → ℕ → Dialer × Outcome → System
turn y p (s, done r) = record y { dialer = s; answers = y.answers ++ ((p, r) ∷ []) }
turn y p (s, waiting addr) = record y { dialer = s; waits = (p, addr) ∷ y.waits }

abbrev pub Consistent : ℕ × DialResult → Type 0
Consistent (p, r) = r ≢ failed state_inconsistency

-- Each dial in progress waits once, and none has answered STATE_INCONSISTENCY.
pub record IsConsistent (y : System) : Type 0 where
  pub dials : IsUnique (keys y.dialer.dialing_peers)
  pub turns : IsUnique (keys y.waits)
  pub same : (q : ℕ) → member q (keys y.dialer.dialing_peers) ≡ member q (keys y.waits)
  pub answers : All Consistent y.answers

module _ (can_dial : ℕ → Bool) (remote : ℕ → ℕ) where
  -- Calls of `dial` and turns of the dials that wait, in any order. `other` is a change by the other parts of the
  -- program.
  pub data Interleaved : System → Type 0 where
    start :
        (s : Dialer)
        → s.dialing_peers ≡ []
        → Interleaved (record { dialer = s; waits = []; answers = [] })
    calling :
        (y : System) (p : ℕ) (addresses : List ℕ)
        → Interleaved y
        → Interleaved (turn y p (dial can_dial remote y.dialer p addresses))
    resuming :
        (y : System) (p addr : ℕ) (attempt : Attempt)
        → lookup p y.waits ≡ some addr
        → Interleaved y
        → Interleaved (
            turn
              (record y { waits = erase p y.waits })
              p
              (resume can_dial remote y.dialer p addr attempt))
    other :
        (y : System) (m : Manager) (repo : List (ℕ × Addresses ℕ))
        → Interleaved y
        → Interleaved (record y { dialer = record y.dialer { cmgr = m; addr_repo = repo } })

  calling-IsConsistent :
      (y : System) (p : ℕ) (r : Dialer × Outcome)
      → IsConsistent y
      → Dials can_dial remote y.dialer p r
      → IsConsistent (turn y p r)
  unfolding turn member
  calling-IsConsistent y p (s, done r) i (k, u, n) = record {
    dials = u;
    turns = i.turns;
    same = λ q. k q ∙ i.same q;
    answers = All-append Consistent y.answers ((p, r) ∷ []) i.answers (n, tt);
  }
  calling-IsConsistent y p (s, waiting addr) i (new, k) = record {
    dials = rw k (insert-IsUnique p (keys y.dialer.dialing_peers) i.dials);
    turns = (sym (i.same p) ∙ new, i.turns);
    same = λ q.
        ground (arith, ap (member q) k, member-insert q p (keys y.dialer.dialing_peers), i.same q);
    answers = i.answers;
  }

  resuming-IsConsistent :
      (y : System) (p addr : ℕ) (r : Dialer × Outcome)
      → lookup p y.waits ≡ some addr
      → IsConsistent y
      → Turns y.dialer p r
      → IsConsistent (turn (record y { waits = erase p y.waits }) p r)
  unfolding turn member
  resuming-IsConsistent y p addr (s, done r) w i (k, n) = record {
    dials = rw k (remove-IsUnique p (keys y.dialer.dialing_peers) i.dials);
    turns = rw (keys-erase p y.waits) (remove-IsUnique p (keys y.waits) i.turns);
    same = λ q. ground (
      arith,
      ap (member q) k,
      ap (member q) (keys-erase p y.waits),
      member-remove q p (keys y.dialer.dialing_peers) i.dials,
      member-remove q p (keys y.waits) i.turns,
      i.same q,
    );
    answers = All-append Consistent y.answers ((p, r) ∷ []) i.answers (n, tt);
  }
  resuming-IsConsistent y p addr (s, waiting a) w i k = record {
    dials = rw k i.dials;
    turns = (
      ground
          (arith, ap (member p) (keys-erase p y.waits), member-remove p p (keys y.waits) i.turns),
      rw (keys-erase p y.waits) (remove-IsUnique p (keys y.waits) i.turns),
    );
    same = λ q. ground (
      arith,
      ap (member q) k,
      ap (member q) (keys-erase p y.waits),
      member-remove q p (keys y.waits) i.turns,
      i.same q,
      member-lookup p y.waits addr w,
      λ (e : p ≡ q). ap (λ x. member x (keys y.waits)) e,
      ==_iff p q,
    );
    answers = i.answers;
  }

  pub Interleaved-IsConsistent : {y : System} → Interleaved y → IsConsistent y
  Interleaved-IsConsistent (start s e) = record {
    dials = rw e tt;
    turns = tt;
    same = λ q. rw e refl;
    answers = tt;
  }
  Interleaved-IsConsistent (calling y p addresses c) =
      let i = Interleaved-IsConsistent c in
      calling-IsConsistent y p (dial can_dial remote y.dialer p addresses) i
        (dial-Dials can_dial remote y.dialer p addresses i.dials)
  Interleaved-IsConsistent (resuming y p addr attempt w c) =
      let i = Interleaved-IsConsistent c in
      resuming-IsConsistent y p addr (resume can_dial remote y.dialer p addr attempt) w i (
        resume-Turns can_dial remote y.dialer p addr attempt
          (i.same p ∙ member-lookup p y.waits addr w))
  Interleaved-IsConsistent (other y m repo c) =
      let i = Interleaved-IsConsistent c in
      record { dials = i.dials; turns = i.turns; same = i.same; answers = i.answers }
