-- ===== src/Gossip/Backoff/Update.antt =====
-- `TopicBackoff::update`, and a whole run of the two operations against the plain view of it.
use Prim.Native.Nat.{max}
use leanp2p.Prelude.{
  ℕ, ◌+◌, ◌-◌, ◌/◌, ◌≤◌, ◌<◌, ◌≡◌, refl, ◌∙◌, arith, min, List, [], ◌∷◌, Option, none, some, length,
  length-set, length-replicate, leb, ◌==◌, if◌then◌else◌, Bool-cases, inl, inr,
}
use leanp2p.Prelude.Eq.{nat_eq}
use leanp2p.Prelude.Maps.{lookup}
use leanp2p.Gossip.Backoff.{Backoff, init, get, move_to, update, shift}
use leanp2p.Gossip.Backoff.Slots.{length-put}
use leanp2p.Gossip.Backoff.Refinement.{IsValid, get-shift}
use leanp2p.Gossip.Backoff.Invariant.{
  init-IsValid, shift-IsValid, add-IsValid, move-IsValid, lookup-add, lookup-move, length-moved,
}

module _ (b : Backoff) (v : IsValid b) (peer s : ℕ) where
  abbrev horizon : ℕ
  horizon = b.slot + min s (length b.slots - 1)

  low : b.slot ≤ horizon
  low = omega arith

  high : horizon < b.slot + length b.slots
  high = omega (arith, v.sized)

  move_to-Keeps :
      (o : Option ℕ)
      → lookup peer b.peers ≡ o
      → IsValid (move_to b peer horizon o)
        × (length (move_to b peer horizon o).slots ≡ length b.slots)
  unfolding move_to
  move_to-Keeps none e =
      (add-IsValid b v peer horizon low high e, length-put b.slots v.sized horizon peer)
  move_to-Keeps (some old) e = elim (Bool-cases (leb horizon old)) [
    | inl d ↦ rw d (v, refl)
    | inr d ↦ rw d (
      move-IsValid b v peer horizon low high old e (ground arith),
      length-moved b v peer horizon low high old e (ground arith),
    )
  ]

  pub update-Keeps : IsValid (update b peer s) × (length (update b peer s).slots ≡ length b.slots)
  unfolding update
  update-Keeps = elim (Bool-cases (s == 0)) [
    | inl d ↦ rw d (v, refl)
    | inr d ↦ rw d (move_to-Keeps (lookup peer b.peers) refl)
  ]

  get-move_to :
      (o : Option ℕ)
      → lookup peer b.peers ≡ o
      → (q : ℕ)
      → get (move_to b peer horizon o) q
        ≡ (if peer == q then max (get b q) (min s (length b.slots - 1)) else get b q)
  unfolding get move_to
  get-move_to none e q = ground (arith, lookup-add b v peer horizon low high e q)
  get-move_to (some old) e q = elim (Bool-cases (leb horizon old)) [
    | inl d ↦ ground (arith, v.in_range peer old e)
    | inr d ↦
        ground (
          arith,
          v.in_range peer old e,
          lookup-move b v peer horizon low high old e (ground arith) q,
        )
  ]

  -- On a valid ring `update` raises what the peer has left to `s`, at most one turn of the ring, and no other.
  pub get-update :
      (q : ℕ)
      → get (update b peer s) q
        ≡ (if peer == q then max (get b q) (min s (length b.slots - 1)) else get b q)
  unfolding update
  get-update q = elim (Bool-cases (s == 0)) [
    | inl d ↦ ground arith
    | inr d ↦ rw d (get-move_to (lookup peer b.peers) refl q)
  ]

-- The two operations, as a sequence of calls, and the plain view: how many beats each peer has
-- left, `turn` being the most that is kept.
pub data Call : Type 0 where
  updating : (peer slots : ℕ) → Call
  shifting : Call

unfoldable pub run : List Call → Backoff → Backoff
run [] b = b
run (updating peer s ∷ cs) b = run cs (update b peer s)
run (shifting ∷ cs) b = run cs (shift b)

unfoldable pub run_plain : ℕ → List Call → (ℕ → ℕ) → ℕ → ℕ
run_plain turn [] left q = left q
run_plain turn (updating peer s ∷ cs) left q =
    run_plain turn cs (λ r. if peer == r then max (left r) (min s turn) else left r) q
run_plain turn (shifting ∷ cs) left q = run_plain turn cs (λ r. left r - 1) q

length-shift : (b : Backoff) → length (shift b).slots ≡ length b.slots
unfolding shift
length-shift b = length-set b.slots _ _

-- `run_plain` reads its view at the peers only.
run_plain_ext :
    (turn : ℕ) (cs : List Call) (f g : ℕ → ℕ)
    → ((r : ℕ) → f r ≡ g r)
    → (q : ℕ) → run_plain turn cs f q ≡ run_plain turn cs g q
unfolding run_plain
run_plain_ext turn [] f g h q = h q
run_plain_ext turn (updating peer s ∷ cs) f g h q = run_plain_ext turn cs _ _ (λ r. rw (h r) refl) q
run_plain_ext turn (shifting ∷ cs) f g h q = run_plain_ext turn cs _ _ (λ r. rw (h r) refl) q

get-run_from :
    (cs : List Call) (b : Backoff)
    → IsValid b
    → (q : ℕ) → get (run cs b) q ≡ run_plain (length b.slots - 1) cs (get b) q
unfolding run run_plain
get-run_from [] b v q = refl
get-run_from (updating peer s ∷ cs) b v q =
    let k = update-Keeps b v peer s in
    get-run_from cs (update b peer s) k.0 q
    ∙ rw (k.1) (run_plain_ext (length b.slots - 1) cs _ _ (get-update b v peer s) q)
get-run_from (shifting ∷ cs) b v q =
    get-run_from cs (shift b) (shift-IsValid b v) q
    ∙ rw (length-shift b) (run_plain_ext (length b.slots - 1) cs _ _ (get-shift b v) q)

length-init : (p h s : ℕ) → length (init p h s).slots - 1 ≡ p / h + s
unfolding init
length-init p h s = rw (length-replicate {A = List ℕ} (p / h + s + 1) []) (omega arith)

get-init : (p h s q : ℕ) → get (init p h s) q ≡ 0
unfolding init get lookup
get-init p h s q = refl

-- For every sequence of calls of `update` and `shift` on a new `TopicBackoff`, `get` is what the
-- plain view has for the peer.
pub get-run :
    (cs : List Call) (prune_backoff heartbeat_interval backoff_slack q : ℕ)
    → get (run cs (init prune_backoff heartbeat_interval backoff_slack)) q
      ≡ run_plain (prune_backoff / heartbeat_interval + backoff_slack) cs (λ _. 0) q
get-run cs p h s q =
    get-run_from cs (init p h s) (init-IsValid p h s) q
    ∙ rw (length-init p h s) (run_plain_ext (p / h + s) cs _ _ (get-init p h s) q)
