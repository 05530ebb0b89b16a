-- ===== src/Network/Dialer/Alone.antt =====
-- A dial with no other coroutine beside it: what the transport gives for each address is a function.
use leanp2p.Prelude.{
  ℕ, zero, suc, ◌≤◌, ◌≡◌, refl, sym, ap, ◌∙◌, arith, Bool, true, false, inl, inr, List, [], ◌∷◌,
  ◌++◌, length, Option, none, some, if◌then◌else◌, Bool-cases, option-cases,
}
use leanp2p.Prelude.Eq.{nat_eq}
use leanp2p.Prelude.Maps.{
  lookup, emplace, insert, remove, member, keys, keys-erase, keys-modify, keys-emplace,
  lookup-modify, lookup-emplace, lookup-has, has-keys,
}
use leanp2p.Network.Manager.{get_best_connection_for_peer}
use leanp2p.Network.Dialer.{
  address_family_not_supported, transport, DialResult, connected, failed, Attempt, reached, refused,
  DialCtx, Dialer, Outcome, done, waiting, set_of, complete_dial, set_ctx, final_result,
  rotate_queue, rotate, on_connection, address_failed, resume_found, resume, dial_new, dial,
}

remove-append : (p : ℕ) (ks : List ℕ) → member p ks ≡ false → remove p (ks ++ (p ∷ [])) ≡ ks
unfolding remove member
remove-append p [] h = ground arith
remove-append p (k ∷ ks) h = ground (arith, remove-append p ks)

remove-insert : (p : ℕ) (ks : List ℕ) → member p ks ≡ false → remove p (insert p ks) ≡ ks
unfolding insert
remove-insert p ks h = rw h (remove-append p ks h)

module _ (can_dial : ℕ → Bool) (remote : ℕ → ℕ) (attempt : ℕ → Attempt) where
  -- The coroutine of `p` goes on at each of its waits, `fuel` times at most.
  unfoldable pub drive : ℕ → ℕ → Dialer × Outcome → Dialer × Option DialResult
  drive fuel p (s, done r) = (s, some r)
  drive zero p (s, waiting addr) = (s, none)
  drive (suc fuel) p (s, waiting addr) =
      drive fuel p (resume can_dial remote s p addr (attempt addr))

  -- The addresses that a transport can dial.
  unfoldable pub served : List ℕ → List ℕ
  served [] = []
  served (addr ∷ addresses) = if can_dial addr then addr ∷ served addresses else served addresses

  unfoldable pub first_reached : List ℕ → Option ℕ
  first_reached [] = none
  first_reached (addr ∷ addresses) = elim (attempt addr) [
    | reached conn ↦ some conn
    | refused e ↦ first_reached addresses
  ]

  -- The last of the errors, `e` if there is none.
  unfoldable pub last_refused : Option ℕ → List ℕ → Option ℕ
  last_refused e [] = e
  last_refused e (addr ∷ addresses) = elim (attempt addr) [
    | reached conn ↦ last_refused e addresses
    | refused e' ↦ last_refused (some e') addresses
  ]

  abbrev answer_of : Option ℕ → Option ℕ → DialResult
  answer_of (some conn) e = connected conn
  answer_of none (some e) = failed (transport e)
  answer_of none none = failed address_family_not_supported

  -- What a dial answers for the addresses that can be dialled, after the error `e`.
  unfoldable pub answer : Option ℕ → List ℕ → DialResult
  answer e queue = answer_of (first_reached queue) (last_refused e queue)

  -- A dial ends with this answer, and no dial of `p` is in progress.
  abbrev Ends : Dialer → ℕ → DialResult → Dialer × Option DialResult → Type 0
  Ends s p r (s', o) = (o ≡ some r) × (keys s'.dialing_peers ≡ remove p (keys s.dialing_peers))

  answer-reached :
      (e : Option ℕ) (addr conn : ℕ) (queue : List ℕ)
      → attempt addr ≡ reached conn
      → answer e (addr ∷ queue) ≡ connected conn
  unfolding answer first_reached
  answer-reached e addr conn queue h = rw (h, answer, first_reached) refl

  first_reached-refused :
      (addr r : ℕ) (queue : List ℕ)
      → attempt addr ≡ refused r
      → first_reached (addr ∷ queue) ≡ first_reached queue
  unfolding first_reached
  first_reached-refused addr r queue h = rw (h, first_reached) refl

  last_refused-refused :
      (e : Option ℕ) (addr r : ℕ) (queue : List ℕ)
      → attempt addr ≡ refused r
      → last_refused e (addr ∷ queue) ≡ last_refused (some r) queue
  unfolding last_refused
  last_refused-refused e addr r queue h = rw (h, last_refused) refl

  answer-refused :
      (e : Option ℕ) (addr r : ℕ) (queue : List ℕ)
      → attempt addr ≡ refused r
      → answer e (addr ∷ queue) ≡ answer (some r) queue
  unfolding answer
  answer-refused e addr r queue h =
      ap (λ x. answer_of x (last_refused e (addr ∷ queue))) (first_reached-refused addr r queue h)
      ∙ ap (answer_of (first_reached queue)) (last_refused-refused e addr r queue h)

  resume_lem :
      (s : Dialer) (p addr : ℕ) (ctx : DialCtx) (a : Attempt)
      → lookup p s.dialing_peers ≡ some ctx
      → resume can_dial remote s p addr a ≡ resume_found can_dial remote s p addr ctx a
  unfolding resume
  resume_lem s p addr ctx a h = rw (h, resume) refl

  rotate_lem :
      (s : Dialer) (p : ℕ) (ctx : DialCtx)
      → lookup p s.dialing_peers ≡ some ctx
      → rotate can_dial remote s p ≡ rotate_queue can_dial remote s p ctx ctx.addr_queue
  unfolding rotate
  rotate_lem s p ctx h = rw (h, rotate) refl

  lookup-set_ctx :
      (s : Dialer) (p : ℕ) (ctx old : DialCtx)
      → lookup p s.dialing_peers ≡ some old
      → lookup p (set_ctx s p ctx).dialing_peers ≡ some ctx
  unfolding set_ctx
  lookup-set_ctx s p ctx old h = lookup-modify p p (λ x. ctx) s.dialing_peers ∙ rw h (ground arith)

  Ends-keys :
      (s t : Dialer) (p : ℕ) (r r' : DialResult) (o : Dialer × Option DialResult)
      → keys t.dialing_peers ≡ keys s.dialing_peers
      → r' ≡ r
      → Ends t p r' o
      → Ends s p r o
  Ends-keys s t p r r' (s', o) e k (h, j) = (h ∙ ap some k, j ∙ ap (remove p) e)

  abbrev has_error : Option ℕ → Bool
  has_error none = false
  has_error (some e) = true

  -- An address was dialled, and not reached, where there is an error.
  abbrev Fits : DialCtx → Type 0
  Fits ctx = ctx.dialled ≡ has_error ctx.result

  final_result-answer : (ctx : DialCtx) → Fits ctx → final_result ctx ≡ answer ctx.result []
  unfolding final_result answer first_reached last_refused
  final_result-answer ctx f =
      option-cases ctx.result (λ r. ctx.dialled ≡ r → final_result ctx ≡ answer ctx.result []) false
        (λ e. true) (λ e d. rw (d, e) refl) (λ t e d. rw (d, e) refl) f

  -- The dial of an address, where `rest` says how the queue behind it ends.
  drive-resume :
      (n p addr : ℕ) (s : Dialer) (ctx : DialCtx) (a : Attempt)
      → attempt addr ≡ a
      → lookup p s.dialing_peers ≡ some ctx
      → ctx.dialled ≡ true
      → ((t : Dialer) (next : DialCtx)
          → lookup p t.dialing_peers ≡ some next
          → Fits next
          → Ends t p
              (answer next.result (served ctx.addr_queue))
              (drive n p (rotate_queue can_dial remote t p next ctx.addr_queue)))
      → Ends s p
          (answer ctx.result (addr ∷ served ctx.addr_queue))
          (drive n p (resume can_dial remote s p addr a))
  unfolding drive complete_dial on_connection resume_found set_ctx address_failed
  drive-resume n p addr s ctx (reached conn) e h l rest =
      rw (resume_lem s p addr ctx (reached conn) h) (
        ap some (sym (answer-reached ctx.result addr conn (served ctx.addr_queue) e)),
        keys-erase p s.dialing_peers,
      )
  drive-resume n p addr s ctx (refused r) e h l rest =
      let next = record ctx { result = some r } in
      let t = set_ctx (address_failed can_dial remote s p addr) p next in
      let k = lookup-set_ctx (address_failed can_dial remote s p addr) p next ctx h in
      rw (resume_lem s p addr ctx (refused r) h, rotate_lem t p next k)
        (Ends-keys s t p (answer ctx.result (addr ∷ served ctx.addr_queue))
          (answer (some r) (served ctx.addr_queue))
          (drive n p (rotate_queue can_dial remote t p next ctx.addr_queue))
          (keys-modify p (λ old. next) s.dialing_peers)
          (sym (answer-refused ctx.result addr r (served ctx.addr_queue) e)) (rest t next k l))

  drive-rotate_queue :
      (fuel p : ℕ) (s : Dialer) (ctx old : DialCtx) (queue : List ℕ)
      → lookup p s.dialing_peers ≡ some old
      → Fits ctx
      → length queue ≤ fuel
      → Ends s p
          (answer ctx.result (served queue))
          (drive fuel p (rotate_queue can_dial remote s p ctx queue))
  unfolding drive served rotate_queue complete_dial set_ctx
  drive-rotate_queue fuel p s ctx old [] h f b =
      (ap some (final_result-answer ctx f), keys-erase p s.dialing_peers)
  drive-rotate_queue zero p s ctx old (addr ∷ queue) h f b = absurd (omega (arith, b))
  drive-rotate_queue (suc n) p s ctx old (addr ∷ queue) h f b = elim (Bool-cases (can_dial addr)) [
    | inl e ↦
        let next = record ctx { addr_queue = queue; dialled = true } in
        let t = set_ctx s p next in
        let k = lookup-set_ctx s p next old h in
        rw e (
          Ends-keys s t p (answer ctx.result (addr ∷ served queue))
            (answer ctx.result (addr ∷ served queue))
            (drive n p (resume can_dial remote t p addr (attempt addr)))
            (keys-modify p (λ old. next) s.dialing_peers) refl
            (drive-resume n p addr t next (attempt addr) refl k refl
              (λ u last g w. drive-rotate_queue n p u last last queue g w (omega (arith, b)))))
    | inr e ↦ rw e (drive-rotate_queue (suc n) p s ctx old queue h f (omega (arith, b)))
  ]

  -- A dial of a peer without a connection or a dial in progress, with some addresses, where no other coroutine and
  -- no other part of the program runs between its waits: it ends after one wait for each of its
  -- addresses at most, with the first connection that the transport gives for an address that it can
  -- dial, in the order of the addresses, else with the last error, and with
  -- ADDRESS_FAMILY_NOT_SUPPORTED if it can dial none of them. The dials in progress are then those from
  -- before.
  pub drive-dial :
      (p : ℕ) (s : Dialer) (addr : ℕ) (addresses : List ℕ)
      → get_best_connection_for_peer s.cmgr p ≡ none
      → lookup p s.dialing_peers ≡ none
      → ((drive (length (addr ∷ addresses)) p (dial can_dial remote s p (addr ∷ addresses))).1
          ≡ some (answer none (served (addr ∷ addresses))))
        × (keys
              (drive
                (length (addr ∷ addresses))
                p
                (dial can_dial remote s p (addr ∷ addresses))).0.dialing_peers
            ≡ keys s.dialing_peers)
  unfolding dial dial_new
  drive-dial p s addr addresses b n =
      let ctx : DialCtx = record {
        addr_queue = addr ∷ addresses;
        addr_seen = set_of (addr ∷ addresses);
        result = none;
        dialled = false;
      } in
      let t : Dialer = record s { dialing_peers = emplace p ctx s.dialing_peers } in
      let k : lookup p t.dialing_peers ≡ some ctx =
        lookup-emplace p p ctx s.dialing_peers
        ∙ rw (n, lookup-has p s.dialing_peers n) (ground arith) in
      let ends =
        drive-rotate_queue (length (addr ∷ addresses)) p t ctx ctx (addr ∷ addresses) k refl
          (omega arith) in
      rw (b, n, dial, dial_new, rotate_lem t p ctx k)
        (
          ends.0,
          ends.1
              ∙ ap (remove p) (keys-emplace p ctx s.dialing_peers)
              ∙ remove-insert p (keys s.dialing_peers)
                  (sym (has-keys p s.dialing_peers) ∙ lookup-has p s.dialing_peers n),
        )
