-- ===== src/Network/Manager/Sound.antt =====
-- No peer stands in the table without a connection, and who hears that a peer is disconnected finds none.
use leanp2p.Prelude.{
  ℕ, ◌≡◌, ◌≢◌, refl, sym, ap, ◌∙◌, arith, Bool, true, false, inl, inr, Bool-cases, List, [], ◌∷◌,
  ◌++◌, none, some, ◌==◌, All, All-append, if-elim, elim-option,
}
use leanp2p.Prelude.Eq.{nat_eq}
use leanp2p.Prelude.Maps.{
  lookup, has, erase, emplace, modify, insert, remove, member, keys, IsUnique, keys-erase,
  keys-modify, keys-emplace, insert-IsUnique, remove-IsUnique, lookup-absent, member-remove,
}
use leanp2p.Network.Manager.{
  Event, new_connection, connection_closed, peer_disconnected, Table, Manager, publish, open_of,
  settle, tell_closed, add_connection_to_peer, collect, collect_garbage, drop_connection,
  on_connection_closed, is_closing,
}

-- A peer has a connection, and none twice.
abbrev pub IsConnected : ℕ × List ℕ → Type 0
IsConnected (p, cs) = (cs ≢ []) × IsUnique cs

-- Who hears that a peer is disconnected finds none of its connections.
abbrev pub IsTrue : Event × Table → Type 0
IsTrue (new_connection c, table) = Unit {0}
IsTrue (connection_closed c, table) = Unit {0}
IsTrue (peer_disconnected p, table) = lookup p table ≡ none

pub record IsSound (s : Manager) : Type 0 where
  pub peers : IsUnique (keys s.connections)
  pub connected : All IsConnected s.connections
  pub events : All IsTrue s.events

pub publish-IsSound :
    (s : Manager) (e : Event) → IsSound s → IsTrue (e, s.connections) → IsSound (publish s e)
publish-IsSound s e v h = record {
  peers = v.peers;
  connected = v.connected;
  events = All-append IsTrue s.events ((e, s.connections) ∷ []) v.events (h, tt);
}

some_inj : {xs ys : List ℕ} → some xs ≡ some ys → xs ≡ ys
some_inj e = cc

-- A table that is sound, in the place of the manager's.
pub with_table :
    (s : Manager) (t : Table)
    → IsSound s
    → IsUnique (keys t)
    → All IsConnected t
    → IsSound (record s { connections = t })
with_table s t v u h = record { peers = u; connected = h; events = v.events }

pub erase-IsConnected : (p : ℕ) (t : Table) → All IsConnected t → All IsConnected (erase p t)
unfolding erase
erase-IsConnected p [] h = tt
erase-IsConnected p ((q, cs) ∷ t) h = ground (arith, erase-IsConnected p t h.1, h)

pub erase-IsUnique : (p : ℕ) (t : Table) → IsUnique (keys t) → IsUnique (keys (erase p t))
erase-IsUnique p t u = rw (keys-erase p t) (remove-IsUnique p (keys t) u)

lookup-erase : (p : ℕ) (t : Table) → IsUnique (keys t) → lookup p (erase p t) ≡ none
lookup-erase p t u =
    lookup-absent p (erase p t) (rw (keys-erase p t) (ground (arith, member-remove p p (keys t) u)))

emplace-IsConnected :
    (p : ℕ) (cs : List ℕ) (t : Table)
    → IsConnected (p, cs)
    → All IsConnected t
    → All IsConnected (emplace p cs t)
unfolding emplace
emplace-IsConnected p cs t c h =
    if-elim (All IsConnected) (has p t) t (t ++ ((p, cs) ∷ [])) h
      (All-append IsConnected t ((p, cs) ∷ []) h (c, tt))

pub cons-ne-nil : (c : ℕ) (cs : List ℕ) → (c ∷ cs) ≢ []
cons-ne-nil c cs e = cc

insert-ne-nil : (c : ℕ) (cs : List ℕ) → insert c cs ≢ []
unfolding insert
insert-ne-nil c [] = unfold member in cons-ne-nil c []
insert-ne-nil c (d ∷ cs) =
    if-elim (λ l. l ≢ []) (member c (d ∷ cs)) (d ∷ cs) (d ∷ (cs ++ (c ∷ []))) (cons-ne-nil d cs)
      (cons-ne-nil d (cs ++ (c ∷ [])))

modify-IsConnected :
    (p : ℕ) (f : List ℕ → List ℕ) (t : Table)
    → ((cs : List ℕ) → lookup p t ≡ some cs → IsConnected (p, cs) → IsConnected (p, f cs))
    → All IsConnected t
    → All IsConnected (modify p f t)
unfolding modify lookup
modify-IsConnected p f [] g h = tt
modify-IsConnected p f ((q, cs) ∷ t) g h = elim (Bool-cases (q == p)) [
  | inl e ↦ rw e (g cs (rw e) h.0, h.1)
  | inr e ↦ rw e (h.0, modify-IsConnected p f t (λ ds l. g ds (rw e l)) h.1)
]

erase-modify : (p : ℕ) (f : List ℕ → List ℕ) (t : Table) → erase p (modify p f t) ≡ erase p t
unfolding erase modify
erase-modify p f [] = refl
erase-modify p f ((q, cs) ∷ t) = ground (arith, erase-modify p f t)

pub add_connection_to_peer-IsSound :
    (s : Manager) (p c : ℕ) → IsSound s → IsSound (add_connection_to_peer s p c)
unfolding add_connection_to_peer member
add_connection_to_peer-IsSound s p c v =
    let t = s.connections in
    publish-IsSound _ _
      (if-elim (λ (t' : Table). IsSound (record s { connections = t' })) (has p t)
        (modify p (insert c) t) (emplace p (c ∷ []) t)
        (with_table s (modify p (insert c) t) v (rw (keys-modify p (insert c) t) v.peers) (
          modify-IsConnected p (insert c) t
            (λ cs l h. (insert-ne-nil c cs, insert-IsUnique c cs h.1)) v.connected))
        (with_table s (emplace p (c ∷ []) t) v
          (rw (keys-emplace p (c ∷ []) t) (insert-IsUnique p (keys t) v.peers))
          (emplace-IsConnected p (c ∷ []) t (cons-ne-nil c [], (refl, tt)) v.connected)))
      tt

-- `settle` behind `tell_closed`.
settle-IsSound :
    (s : Manager) (p c : ℕ) (erased : Bool) (left : List ℕ)
    → IsUnique (keys s.connections)
    → All IsTrue s.events
    → All IsConnected (erase p s.connections)
    → (left ≢ [] → All IsConnected s.connections)
    → IsSound (settle (tell_closed s c erased) p left)
unfolding settle tell_closed
settle-IsSound s p c true [] u e gone h = record {
  peers = erase-IsUnique p s.connections u;
  connected = gone;
  events =
      All-append IsTrue (s.events ++ ((connection_closed c, s.connections) ∷ []))
        ((peer_disconnected p, erase p s.connections) ∷ [])
        (All-append IsTrue s.events ((connection_closed c, s.connections) ∷ []) e (tt, tt))
        (lookup-erase p s.connections u, tt);
}
settle-IsSound s p c false [] u e gone h = record {
  peers = erase-IsUnique p s.connections u;
  connected = gone;
  events =
      All-append IsTrue s.events ((peer_disconnected p, erase p s.connections) ∷ []) e
        (lookup-erase p s.connections u, tt);
}
settle-IsSound s p c true (d ∷ left) u e gone h =
    publish-IsSound s (connection_closed c)
      (record { peers = u; connected = h (cons-ne-nil d left); events = e }) tt
settle-IsSound s p c false (d ∷ left) u e gone h = record {
  peers = u;
  connected = h (cons-ne-nil d left);
  events = e;
}

drop_connection-IsSound :
    (s : Manager) (p c : ℕ) (cs : List ℕ)
    → IsSound s
    → lookup p s.connections ≡ some cs
    → IsSound (drop_connection s p c cs)
unfolding drop_connection
drop_connection-IsSound s p c cs v l =
    let t = s.connections in
    settle-IsSound (record s { connections = modify p (remove c) t }) p c (member c cs)
      (remove c cs) (rw (keys-modify p (remove c) t) v.peers) v.events
      (rw (erase-modify p (remove c) t) (erase-IsConnected p t v.connected))
      (λ some_left.
        modify-IsConnected p (remove c) t
          (λ ds k h.
            let same : cs ≡ ds = some_inj (sym l ∙ k) in
            ((λ e. some_left (ap (remove c) same ∙ e)), remove-IsUnique c ds h.1))
          v.connected)

pub on_connection_closed-IsSound :
    (s : Manager) (p c : ℕ) → IsSound s → IsSound (on_connection_closed s p c)
unfolding on_connection_closed
on_connection_closed-IsSound s p c v = if-elim IsSound (is_closing s p) s _ v (
    elim-option (lookup p s.connections) IsSound s (λ cs. drop_connection s p c cs) v
      (λ cs l. drop_connection-IsSound s p c cs v l))

collect-keys :
    (closed : List ℕ) (q : ℕ) (t : Table)
    → member q (keys t) ≡ false
    → member q (keys (collect closed t)) ≡ false
unfolding collect member
collect-keys closed q [] h = refl
collect-keys closed q ((p, cs) ∷ t) h = ground (arith, collect-keys closed q t)

open_of-member :
    (closed : List ℕ) (c : ℕ) (cs : List ℕ)
    → member c cs ≡ false
    → member c (open_of closed cs) ≡ false
unfolding open_of member
open_of-member closed c [] h = refl
open_of-member closed c (d ∷ cs) h = ground (arith, open_of-member closed c cs)

open_of-IsUnique : (closed cs : List ℕ) → IsUnique cs → IsUnique (open_of closed cs)
unfolding open_of
open_of-IsUnique closed [] u = tt
open_of-IsUnique closed (c ∷ cs) u =
    ground (arith, open_of-IsUnique closed cs u.1, open_of-member closed c cs u.0)

collect_sound :
    (closed : List ℕ) (t : Table)
    → IsUnique (keys t)
    → All IsConnected t
    → IsUnique (keys (collect closed t)) × All IsConnected (collect closed t)
unfolding collect
collect_sound closed [] u h = (tt, tt)
collect_sound closed ((p, cs) ∷ t) u h =
    let (u', h') = collect_sound closed t u.1 h.1 in
    elim (open_of closed cs)
        as (λ left.
          IsUnique left
          → IsUnique (
              keys
                (elim left [ [] ↦ collect closed t | c ∷ more ↦ (p, c ∷ more) ∷ collect closed t ]))
            × All IsConnected (elim left [
              | [] ↦ collect closed t
              | c ∷ more ↦ (p, c ∷ more) ∷ collect closed t
            ])) [
              | [] ↦ λ l. (u', h')
              | c ∷ more ↦ λ l. ((collect-keys closed p t u.0, u'), ((cons-ne-nil c more, l), h'))
            ]
      (open_of-IsUnique closed cs h.0.1)

pub collect_garbage-IsSound : (s : Manager) → IsSound s → IsSound (collect_garbage s)
unfolding collect_garbage
collect_garbage-IsSound s v =
    let (u, h) = collect_sound s.closed s.connections v.peers v.connected in
    with_table s (collect s.closed s.connections) v u h
