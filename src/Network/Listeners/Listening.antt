-- ===== src/Network/Listeners/Listening.antt =====
-- What the operations of `ListenerManager` keep, whatever the transport's listeners answer.
use leanp2p.Prelude.{
  ℕ, suc, ◌<◌, ◌≡◌, ◌≢◌, refl, sym, ap, ◌∙◌, arith, Bool, true, false, inl, inr, [], ◌∷◌, ◌++◌,
  Option, none, some, ◌==◌, ==_iff, if◌then◌else◌, All, All-append, Bool-cases, if-cases,
  option-cases,
}
use leanp2p.Prelude.Eq.{nat_eq}
use leanp2p.Prelude.Maps.{lookup, has, erase, emplace}
use leanp2p.Network.Listeners.{
  Call, listen_on, close_of, Log, undefined, Result, Listeners, Transport, new_manager, start_loop,
  start, stop_loop, stop, listen_new, listen, remove_listener, close_left, close_listener,
}
use leanp2p.Network.Listeners.Tables.{
  Table, Sub, nothing, kept, left_out, erase-Sub, All-Sub, All-mono, All-both, IsDistinct,
  IsDistinct-Sub, IsDistinct-append, has-All, erase-All,
}

abbrev pub called : Call → ℕ
called (listen_on l ma) = l
called (close_of l) = l

-- The last call of a listener, with its error.
unfoldable pub last_call : ℕ → Log → Option (Call × Option ℕ)
last_call l [] = none
last_call l ((c, r) ∷ log) = if called c == l then some (c, r) else last_call l log

-- Its last call was `listen` on its address, without an error.
abbrev pub Listens : Log → ℕ × ℕ → Type 0
Listens log (ma, l) = last_call l log ≡ some (listen_on l ma, none)

last_call-other :
    (l : ℕ) (c : Call) (r : Option ℕ) (log : Log)
    → called c ≢ l
    → last_call l ((c, r) ∷ log) ≡ last_call l log
unfolding last_call
last_call-other l c r log n = elim (Bool-cases (called c == l)) [
  | inl e ↦ absurd (n ((==_iff (called c) l).0 e))
  | inr e ↦ rw e refl
]

last_call-own :
    (c : Call) (r : Option ℕ) (log : Log) → last_call (called c) ((c, r) ∷ log) ≡ some (c, r)
unfolding last_call
last_call-own c r log = ground (arith, ==_iff (called c) (called c))

-- Calls of a listener leave what the others do.
Listens-other :
    (c : Call) (r : Option ℕ) (log : Log) (t : Table)
    → All (λ d. d.1 ≢ called c) t
    → All (Listens log) t
    → All (Listens ((c, r) ∷ log)) t
Listens-other c r log t n a =
    All-both (λ d. d.1 ≢ called c) (Listens log) (Listens ((c, r) ∷ log)) t
      (λ d n h. last_call-other d.1 c r log (λ e. n (sym e)) ∙ h) n a

module _ (env : Transport) where
  start_loop-Sub : (t : Table) (log : Log) → Sub (start_loop env log t).0 t
  unfolding start_loop
  start_loop-Sub [] log = nothing
  start_loop-Sub ((ma, l) ∷ t) log =
      let r = env.answer log (listen_on l ma) in
      let rest = start_loop-Sub t ((listen_on l ma, r) ∷ log) in
      option-cases r (λ u. Sub u ((ma, l) ∷ t)) _ _ (λ e. kept (ma, l) rest)
        (λ x e. left_out (ma, l) rest)

  stop_loop-Sub : (t : Table) (log : Log) → Sub (stop_loop env log t).0 t
  unfolding stop_loop
  stop_loop-Sub [] log = nothing
  stop_loop-Sub ((ma, l) ∷ t) log =
      let r = env.answer log (close_of l) in
      let rest = stop_loop-Sub t ((close_of l, r) ∷ log) in
      option-cases r (λ u. Sub u ((ma, l) ∷ t)) _ _ (λ e. kept (ma, l) rest)
        (λ x e. left_out (ma, l) rest)

  start_loop-last_call :
      (l : ℕ) (t : Table) (log : Log)
      → All (λ d. d.1 ≢ l) t
      → last_call l (start_loop env log t).1 ≡ last_call l log
  unfolding start_loop
  start_loop-last_call l [] log n = refl
  start_loop-last_call l ((ma, k) ∷ t) log n =
      let r = env.answer log (listen_on k ma) in
      start_loop-last_call l t ((listen_on k ma, r) ∷ log) n.1
      ∙ last_call-other l (listen_on k ma) r log n.0

  -- After `start`, the listeners that are left listen.
  start_loop-Listens :
      (t : Table) (log : Log)
      → IsDistinct (λ d. d.1) t
      → All (Listens (start_loop env log t).1) (start_loop env log t).0
  unfolding start_loop
  start_loop-Listens [] log u = tt
  start_loop-Listens ((ma, l) ∷ t) log u =
      let r = env.answer log (listen_on l ma) in
      let next : Log = (listen_on l ma, r) ∷ log in
      let rest = start_loop-Listens t next u.1 in
      option-cases r (All (Listens (start_loop env next t).1)) _ _
        (λ e. (
          start_loop-last_call l t next u.0
              ∙ last_call-own (listen_on l ma) r log
              ∙ ap (λ x. some (listen_on l ma, x)) e,
          rest,
        ))
        (λ x e. rest)

-- The addresses in the table are distinct, and the listeners, which are of the manager's own making; and each
-- listener of a manager that has started listens on its address.
pub record IsListening (s : Listeners) : Type 0 where
  pub addresses : IsDistinct (λ d. d.0) s.listeners
  pub objects : IsDistinct (λ d. d.1) s.listeners
  pub made : All (λ d. d.1 < s.created) s.listeners
  pub listening : s.started ≡ true → All (Listens s.log) s.listeners

abbrev Keeps : Listeners × Result → Type 0
Keeps (s, r) = IsListening s

-- Some entries leave the table, and calls are made.
less-IsListening :
    (s : Listeners) (t : Table) (log : Log) (b : Bool)
    → IsListening s
    → Sub t s.listeners
    → (b ≡ true → All (Listens log) t)
    → IsListening (record s { listeners = t; log = log; started = b })
less-IsListening s t log b v u h = record {
  addresses = IsDistinct-Sub (λ d. d.0) u v.addresses;
  objects = IsDistinct-Sub (λ d. d.1) u v.objects;
  made = All-Sub (λ d. d.1 < s.created) u v.made;
  listening = h;
}

-- A new listener enters the table.
more-IsListening :
    (s : Listeners) (ma : ℕ) (log : Log)
    → IsListening s
    → has ma s.listeners ≡ false
    → (s.started ≡ true → All (Listens log) (s.listeners ++ ((ma, s.created) ∷ [])))
    → IsListening (record s {
      listeners = emplace ma s.created s.listeners;
      log = log;
      created = suc s.created;
    })
unfolding emplace
more-IsListening s ma log v n h = record {
  addresses = rw n (
      IsDistinct-append (λ d. d.0) s.listeners (ma, s.created) v.addresses
        (has-All ma s.listeners n));
  objects = rw n (
      IsDistinct-append (λ d. d.1) s.listeners (ma, s.created) v.objects
        (All-mono (λ d. d.1 < s.created) (λ d. d.1 ≢ s.created) s.listeners
          (λ d l e. omega (arith, l, e)) v.made));
  made = rw n (
      All-append (λ d. d.1 < suc s.created) s.listeners ((ma, s.created) ∷ [])
        (All-mono (λ d. d.1 < s.created) (λ d. d.1 < suc s.created) s.listeners
          (λ d l. omega (arith, l)) v.made)
        (omega arith, tt));
  listening = rw n h;
}

module _ (env : Transport) where
  start-IsListening : (s : Listeners) → IsListening s → IsListening (start env s)
  unfolding start
  start-IsListening s v =
      let left = start_loop env s.log s.listeners in
      if-cases IsListening s.started s
        (record s { listeners = left.0; log = left.1; started = true }) (λ e. v)
        (λ e.
          less-IsListening s left.0 left.1 true v (start_loop-Sub env s.listeners s.log)
            (λ t. start_loop-Listens env s.listeners s.log v.objects))

  stop-IsListening : (s : Listeners) → IsListening s → IsListening (stop env s)
  unfolding stop
  stop-IsListening s v =
      let left = stop_loop env s.log s.listeners in
      if-cases IsListening s.started
        (record s { listeners = left.0; log = left.1; started = false }) s
        (λ e.
          less-IsListening s left.0 left.1 false v (stop_loop-Sub env s.listeners s.log)
            (λ t. absurd cc))
        (λ e. v)

  remove_listener-IsListening :
      (s : Listeners) (ma : ℕ) → IsListening s → IsListening (remove_listener env s ma).0
  unfolding remove_listener
  remove_listener-IsListening s ma v = elim (Bool-cases (has ma s.listeners)) [
    | inl e ↦ rw e (
        less-IsListening s (erase ma s.listeners) s.log s.started v (erase-Sub ma s.listeners)
          (λ t. All-Sub (Listens s.log) (erase-Sub ma s.listeners) (v.listening t)))
    | inr e ↦ rw e v
  ]

  -- `listen` with a new listener, on an address that is not in the table.
  listen_new-IsListening :
      (s : Listeners) (ma : ℕ)
      → IsListening s
      → has ma s.listeners ≡ false
      → IsListening (listen_new env (record s { created = suc s.created }) ma s.created).0
  unfolding listen_new
  listen_new-IsListening s ma v n =
      let l = s.created in
      let r = env.answer s.log (listen_on l ma) in
      let next : Log = (listen_on l ma, r) ∷ s.log in
      let others : All (λ d. d.1 ≢ l) s.listeners =
        All-mono (λ d. d.1 < l) (λ d. d.1 ≢ l) s.listeners (λ d k e. omega (arith, k, e)) v.made in
      if-cases Keeps s.started _ _
        (λ e.
          option-cases r Keeps _ _
            (λ q. more-IsListening s ma next v n (λ t.
              All-append (Listens next) s.listeners ((ma, l) ∷ [])
                (Listens-other (listen_on l ma) r s.log s.listeners others (v.listening t))
                (
                  last_call-own (listen_on l ma) r s.log ∙ ap (λ x. some (listen_on l ma, x)) q,
                  tt,
                )))
            (λ x q. record {
              addresses = v.addresses;
              objects = v.objects;
              made =
                  All-mono (λ d. d.1 < l) (λ d. d.1 < suc l) s.listeners (λ d k. omega (arith, k))
                    v.made;
              listening =
                  λ t. Listens-other (listen_on l ma) r s.log s.listeners others (v.listening t);
            }))
        (λ e. more-IsListening s ma s.log v n (λ t. absurd cc))

  listen-IsListening : (s : Listeners) (ma : ℕ) → IsListening s → IsListening (listen env s ma).0
  unfolding listen
  listen-IsListening s ma v =
      if-cases Keeps (env.can_dial ma) _ _
        (λ e.
          if-cases Keeps (has ma s.listeners) _ _ (λ h. v) (λ h. listen_new-IsListening s ma v h))
        (λ e. v)

  close_left-IsListening :
      (s : Listeners) (ma l : ℕ)
      → IsListening s
      → lookup ma s.listeners ≡ some l
      → IsListening (close_left env (record s { listeners = erase ma s.listeners }) l).0
  unfolding close_left
  close_left-IsListening s ma l v h =
      let t = erase ma s.listeners in
      let sub = erase-Sub ma s.listeners in
      let r = env.answer s.log (close_of l) in
      if-cases Keeps (env.is_closed s.log l) _ _
        (λ e.
          less-IsListening s t s.log s.started v sub
            (λ b. All-Sub (Listens s.log) sub (v.listening b)))
        (λ e. less-IsListening s t ((close_of l, r) ∷ s.log) s.started v sub (λ b.
          Listens-other (close_of l) r s.log t (erase-All ma l s.listeners v.objects h)
            (All-Sub (Listens s.log) sub (v.listening b))))

  close_listener-IsListening :
      (s : Listeners) (ma : ℕ) → IsListening s → IsListening (close_listener env s ma).0
  unfolding close_listener
  close_listener-IsListening s ma v =
      option-cases (lookup ma s.listeners) Keeps _ _ (λ e. v)
        (λ l e. close_left-IsListening s ma l v e)

-- The operations in any order, each with what the transport and the listeners do by then.
pub data Managed : Listeners → Type 0 where
  fresh : Managed new_manager
  starting : (env : Transport) {s : Listeners} → Managed s → Managed (start env s)
  stopping : (env : Transport) {s : Listeners} → Managed s → Managed (stop env s)
  listening : (env : Transport) {s : Listeners} (ma : ℕ) → Managed s → Managed (listen env s ma).0
  removing :
      (env : Transport) {s : Listeners} (ma : ℕ) → Managed s → Managed (remove_listener env s ma).0
  closing :
      (env : Transport) {s : Listeners} (ma : ℕ)
      → (close_listener env s ma).1 ≢ undefined
      → Managed s
      → Managed (close_listener env s ma).0

-- In every state that the manager reaches by its operations, closings without undefined behaviour among them: no
-- address and no listener is in the table twice; and if the manager has started, the last call of
-- each listener in the table was `listen` on its address, and it succeeded.
pub Managed-IsListening : {s : Listeners} → Managed s → IsListening s
Managed-IsListening fresh = record { addresses = tt; objects = tt; made = tt; listening = λ e. tt }
Managed-IsListening (starting env m) = start-IsListening env _ (Managed-IsListening m)
Managed-IsListening (stopping env m) = stop-IsListening env _ (Managed-IsListening m)
Managed-IsListening (listening env ma m) = listen-IsListening env _ ma (Managed-IsListening m)
Managed-IsListening (removing env ma m) =
    remove_listener-IsListening env _ ma (Managed-IsListening m)
Managed-IsListening (closing env ma d m) =
    close_listener-IsListening env _ ma (Managed-IsListening m)
