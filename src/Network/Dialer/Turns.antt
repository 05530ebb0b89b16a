-- ===== src/Network/Dialer/Turns.antt =====
-- What the turns of a dial leave of the dials in progress.
use leanp2p.Prelude.{
  ℕ, ◌≡◌, ◌≢◌, refl, sym, ap, ◌∙◌, arith, Bool, true, false, inl, inr, List, [], ◌∷◌, none, some,
  ==_iff, option-cases, Bool-cases,
}
use leanp2p.Prelude.Eq.{nat_eq}
use leanp2p.Prelude.Maps.{
  lookup, modify, emplace, insert, remove, member, keys, IsUnique, keys-erase, keys-modify,
  keys-emplace, insert-IsUnique, remove-IsUnique, member-insert, member-remove, lookup-has,
  has-keys,
}
use leanp2p.Network.Manager.{get_best_connection_for_peer}
use leanp2p.Network.Dialer.{
  state_inconsistency, failed, Attempt, reached, refused, DialCtx, Dialer, Outcome, done, waiting,
  set_of, add_new, complete_dial, set_ctx, final_result, rotate_queue, rotate, on_connection,
  address_failed, resume_found, resume, dial_new, dial,
}

pub member-lookup :
    {V : Type 0} (p : ℕ) (m : List (ℕ × V)) (v : V) → lookup p m ≡ some v → member p (keys m) ≡ true
unfolding lookup member
member-lookup p [] v h = cc
member-lookup p ((q, w) ∷ m) v h = ground (arith, member-lookup p m v)

missing : {V : Type 0} (p : ℕ) (m : List (ℕ × V)) → lookup p m ≡ none → member p (keys m) ≢ true
missing p m e h = ground (arith, lookup-has p m e, has-keys p m)

-- What is kept of the dials in progress by the turn of one that is among them.
abbrev pub Turns : Dialer → ℕ → Dialer × Outcome → Type 0
Turns s p (s', done r) =
    (keys s'.dialing_peers ≡ remove p (keys s.dialing_peers)) × (r ≢ failed state_inconsistency)
Turns s p (s', waiting addr) = keys s'.dialing_peers ≡ keys s.dialing_peers

final_result_lem : (ctx : DialCtx) → final_result ctx ≢ failed state_inconsistency
unfolding final_result
final_result_lem ctx e = ground arith

module _ (can_dial : ℕ → Bool) (remote : ℕ → ℕ) where
  rotate_queue-Turns :
      (s : Dialer) (p : ℕ) (ctx : DialCtx) (queue : List ℕ)
      → Turns s p (rotate_queue can_dial remote s p ctx queue)
  unfolding rotate_queue complete_dial set_ctx
  rotate_queue-Turns s p ctx [] = (keys-erase p s.dialing_peers, final_result_lem ctx)
  rotate_queue-Turns s p ctx (addr ∷ queue) = elim (Bool-cases (can_dial addr)) [
    | inl e ↦ rw e (keys-modify p _ s.dialing_peers)
    | inr e ↦ rw e (rotate_queue-Turns s p ctx queue)
  ]

  rotate-Turns :
      (s : Dialer) (p : ℕ)
      → member p (keys s.dialing_peers) ≡ true
      → Turns s p (rotate can_dial remote s p)
  unfolding rotate
  rotate-Turns s p h =
      option-cases (lookup p s.dialing_peers) (Turns s p) (s, done (failed state_inconsistency))
        (λ ctx. rotate_queue can_dial remote s p ctx ctx.addr_queue)
        (λ e. absurd (missing p s.dialing_peers e h))
        (λ ctx e. rotate_queue-Turns s p ctx ctx.addr_queue)

  -- The same, for a turn on a dialer with the same dials in progress.
  Turns-keys :
      (s t : Dialer) (p : ℕ) (r : Dialer × Outcome)
      → keys t.dialing_peers ≡ keys s.dialing_peers
      → Turns t p r
      → Turns s p r
  Turns-keys s t p (s', done r) e (h, n) = (h ∙ ap (remove p) e, n)
  Turns-keys s t p (s', waiting addr) e h = h ∙ e

  resume_found-Turns :
      (s : Dialer) (p addr : ℕ) (ctx : DialCtx) (attempt : Attempt)
      → member p (keys s.dialing_peers) ≡ true
      → Turns s p (resume_found can_dial remote s p addr ctx attempt)
  unfolding resume_found complete_dial on_connection set_ctx address_failed
  resume_found-Turns s p addr ctx (reached conn) h = (keys-erase p s.dialing_peers, λ e. cc)
  resume_found-Turns s p addr ctx (refused e) h =
      let t =
        set_ctx (address_failed can_dial remote s p addr) p (record ctx { result = some e }) in
      let same : keys t.dialing_peers ≡ keys s.dialing_peers = keys-modify p _ s.dialing_peers in
      Turns-keys s t p (rotate can_dial remote t p) same (rotate-Turns t p (ap (member p) same ∙ h))

  pub resume-Turns :
      (s : Dialer) (p addr : ℕ) (attempt : Attempt)
      → member p (keys s.dialing_peers) ≡ true
      → Turns s p (resume can_dial remote s p addr attempt)
  unfolding resume
  resume-Turns s p addr attempt h =
      option-cases (lookup p s.dialing_peers) (Turns s p) (s, done (failed state_inconsistency))
        (λ ctx. resume_found can_dial remote s p addr ctx attempt)
        (λ e. absurd (missing p s.dialing_peers e h))
        (λ ctx e. resume_found-Turns s p addr ctx attempt h)

  -- A call of `dial`: it answers at once, or is the new dial of the peer.
  abbrev pub Dials : Dialer → ℕ → Dialer × Outcome → Type 0
  Dials s p (s', done r) =
      ((q : ℕ) → member q (keys s'.dialing_peers) ≡ member q (keys s.dialing_peers))
      × IsUnique (keys s'.dialing_peers)
      × (r ≢ failed state_inconsistency)
  Dials s p (s', waiting addr) =
      (member p (keys s.dialing_peers) ≡ false)
      × (keys s'.dialing_peers ≡ insert p (keys s.dialing_peers))

  member-remove-insert :
      (p q : ℕ) (ks : List ℕ)
      → IsUnique ks
      → member p ks ≡ false
      → member q (remove p (insert p ks)) ≡ member q ks
  member-remove-insert p q ks u new = ground (
    arith,
    member-remove q p (insert p ks) (insert-IsUnique p ks u),
    member-insert q p ks,
    new,
    λ (e : p ≡ q). ap (λ x. member x ks) e,
    ==_iff p q,
  )

  -- A new dial takes its first turn.
  first_turn :
      (s t : Dialer) (p : ℕ) (r : Dialer × Outcome)
      → IsUnique (keys s.dialing_peers)
      → member p (keys s.dialing_peers) ≡ false
      → keys t.dialing_peers ≡ insert p (keys s.dialing_peers)
      → Turns t p r
      → Dials s p r
  first_turn s t p (s', done r) u new e (h, n) = (
    λ q.
        ap (member q) (h ∙ ap (remove p) e) ∙ member-remove-insert p q (keys s.dialing_peers) u new,
    rw (h, e) (remove-IsUnique p _ (insert-IsUnique p _ u)),
    n,
  )
  first_turn s t p (s', waiting addr) u new e h = (new, h ∙ e)

  dial_new-Dials :
      (s : Dialer) (p : ℕ) (addresses : List ℕ)
      → IsUnique (keys s.dialing_peers)
      → member p (keys s.dialing_peers) ≡ false
      → Dials s p (dial_new can_dial remote s p addresses)
  unfolding dial_new
  dial_new-Dials s p [] u new = (λ q. refl, u, λ e. cc)
  dial_new-Dials s p (addr ∷ addresses) u new =
      let new_ctx : DialCtx = record {
        addr_queue = addr ∷ addresses;
        addr_seen = set_of (addr ∷ addresses);
        result = none;
        dialled = false;
      } in
      let t : Dialer = record s { dialing_peers = emplace p new_ctx s.dialing_peers } in
      let same : keys t.dialing_peers ≡ insert p (keys s.dialing_peers) =
        keys-emplace p new_ctx s.dialing_peers in
      first_turn s t p (rotate can_dial remote t p) u new same (
        rotate-Turns t p
          (ap (member p) same ∙ ground (arith, member-insert p p (keys s.dialing_peers))))

  pub dial-Dials :
      (s : Dialer) (p : ℕ) (addresses : List ℕ)
      → IsUnique (keys s.dialing_peers)
      → Dials s p (dial can_dial remote s p addresses)
  unfolding dial set_ctx
  dial-Dials s p addresses u =
      option-cases (get_best_connection_for_peer s.cmgr p) (Dials s p) _ _
        (λ e.
          option-cases (lookup p s.dialing_peers) (Dials s p) _ _
            (λ n.
              dial_new-Dials s p addresses u
                (sym (has-keys p s.dialing_peers) ∙ lookup-has p s.dialing_peers n))
            (λ ctx k.
              let same : keys (modify p (λ old. add_new ctx addresses) s.dialing_peers)
                  ≡ keys s.dialing_peers =
                keys-modify p _ s.dialing_peers in
              (λ q. ap (member q) same, rw same u, λ n. cc)))
        (λ conn e. (λ q. refl, u, λ n. cc))
