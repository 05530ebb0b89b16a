-- ===== src/Gossip/Router/Incoming/Counts.antt =====
-- The counts of a cached message, and what `serve` does to them.
use leanp2p.Prelude.{
  Option-cases, Bool-cases, if-cases, option-cases, ==_iff, ℕ, suc, ◌≤◌, ◌≡◌, refl, sym, ap, subst,
  ◌∙◌, arith, Bool, true, false, List, [], ◌∷◌, ◌++◌, Option, none, some, ltb, ◌==◌, if◌then◌else◌,
  length, length-append, inl, inr,
}
use leanp2p.Prelude.Eq.{nat_eq}
use leanp2p.Prelude.Maps.{lookup, emplace, modify, lookup-modify, lookup-emplace, lookup-has}
use leanp2p.Gossip.TimeCache.{contains}
use leanp2p.Gossip.Router.{Env, Gossip, Message, Rpc, Peer, empty_rpc, at_peer, with_batch}
use leanp2p.Gossip.Router.Ihave.{count_of}
use leanp2p.Gossip.Router.Incoming.{serve}

abbrev bumped : ℕ → List (ℕ × ℕ) → List (ℕ × ℕ)
bumped p counts = modify p suc (emplace p 0 counts)

count_of-bumped :
    (p : ℕ) (counts : List (ℕ × ℕ)) → count_of p (bumped p counts) ≡ suc (count_of p counts)
count_of-bumped p counts = elim (Option-cases (lookup p counts)) [
  | inl n ↦ ground (
    arith,
    n,
    lookup-modify p p suc (emplace p 0 counts),
    lookup-emplace p p 0 counts,
    lookup-has p counts n,
    ==_iff p p,
  )
  | inr (m, n) ↦ ground (
    arith,
    n,
    lookup-modify p p suc (emplace p 0 counts),
    lookup-emplace p p 0 counts,
    ==_iff p p,
  )
]

count_of-bumped_le :
    (p q : ℕ) (counts : List (ℕ × ℕ)) → count_of q counts ≤ count_of q (bumped p counts)
count_of-bumped_le p q counts = elim (Option-cases (lookup q counts)) [
  | inl n ↦ ground (arith, n)
  | inr (m, n) ↦
      ground (arith, n, lookup-modify q p suc (emplace p 0 counts), lookup-emplace q p 0 counts)
]

abbrev pub publications_of : Option Rpc → ℕ
publications_of none = 0
publications_of (some r) = length r.publish

publications_of-more :
    (message : Message) (o : Option Rpc)
    → length ((elim o as (λ x. Rpc) [ none ↦ empty_rpc | some r ↦ r ]).publish ++ (message ∷ []))
      ≡ suc (publications_of o)
publications_of-more message none = refl
publications_of-more message (some r) = omega (arith, length-append r.publish (message ∷ []))

abbrev pub count_in : ℕ → Option (Message × List (ℕ × ℕ)) → ℕ
count_in id none = 0
count_in id (some (message, counts)) = count_of id counts

abbrev pub push : Message → Rpc → Rpc
push message r = record r { publish = r.publish ++ (message ∷ []) }

-- The peer objects are the same but for their batches.
abbrev pub IsKept : Peer → Peer → Type 0
IsKept x y = (y.peer_id ≡ x.peer_id) × (y.dont_send ≡ x.dont_send)

lookup-written :
    {V : Type 0} (m : ℕ) (v w : V) (cache : List (ℕ × V))
    → lookup m cache ≡ some v
    → lookup m (modify m (λ _. w) cache) ≡ some w
lookup-written m v w cache h =
    let e : m == m ≡ true = (==_iff m m).1 refl in lookup-modify m m (λ _. w) cache ∙ rw (h, e) refl

lookup-unwritten :
    {V : Type 0} (m id : ℕ) (w : V) (cache : List (ℕ × V))
    → id == m ≡ false
    → lookup m (modify id (λ _. w) cache) ≡ lookup m cache
lookup-unwritten {V} m id w cache e =
    lookup-modify m id (λ _. w) cache ∙ by_entry (lookup m cache) (id == m) e
  where
    by_entry :
        (o : Option V) (b : Bool)
        → b ≡ false
        → elim o as (λ x. Option V) [ none ↦ none | some v ↦ if b then some w else some v ] ≡ o
    by_entry none b e = refl
    by_entry (some v) b e = rw e refl

module _ {S : Type 0} where
  -- The messages that wait in the batch of a peer.
  abbrev pub queued : Gossip S → ℕ → ℕ
  queued g p = publications_of (g.objects p).batch

  -- How often the peer has asked for a message of the cache.
  abbrev pub times_asked : Gossip S → ℕ → ℕ → ℕ
  times_asked g p m = count_in (g.objects p).peer_id (lookup m g.message_cache)

  pub at_peer-IsKept :
      (g : Gossip S) (p q : ℕ) (f : Peer → Peer)
      → ((x : Peer) → IsKept x (f x))
      → IsKept (g.objects q) ((at_peer g p f).objects q)
  unfolding at_peer
  at_peer-IsKept g p q f h =
      if-cases (IsKept (g.objects q)) (q == p) _ _ (λ e. h (g.objects q)) (λ e. (refl, refl))

  pub queued-push :
      (g : Gossip S) (p : ℕ) (message : Message)
      → queued (with_batch g p (push message)) p ≡ suc (queued g p)
  unfolding with_batch at_peer
  queued-push g p message =
      let e : p == p ≡ true = (==_iff p p).1 refl in
      rw e (publications_of-more message (g.objects p).batch)

  -- The count that is written to the cache.
  abbrev pub noted : Gossip S → ℕ → ℕ → Message → List (ℕ × ℕ) → Gossip S
  noted g p id message counts = record g {
    message_cache = modify id (λ _. (message, bumped (g.objects p).peer_id counts)) g.message_cache;
  }

module _ {S R : Type 0} (env : Env S R) where
  -- The three ways of `serve`: the message is unknown, its request is counted, or it is queued too.
  pub serve-cases :
      (P : Gossip S → Type 0) (g : Gossip S) (p id : ℕ)
      → (lookup id g.message_cache ≡ none → P g)
      → ((message : Message) (counts : List (ℕ × ℕ))
          → lookup id g.message_cache ≡ some (message, counts)
          → P (noted g p id message counts))
      → ((message : Message) (counts : List (ℕ × ℕ))
          → lookup id g.message_cache ≡ some (message, counts)
          → suc (count_of (g.objects p).peer_id counts) ≤ env.config.gossip_retransmission
          → contains (g.objects p).dont_send id ≡ false
          → P (with_batch (noted g p id message counts) p (push message)))
      → P (serve env g p id)
  unfolding serve
  serve-cases P g p id a b c =
      option-cases (lookup id g.message_cache) P _ _ a (λ (message, counts) e.
        let pid = (g.objects p).peer_id in
        if-cases P (ltb env.config.gossip_retransmission (count_of pid (bumped pid counts))) _ _
          (λ k. b message counts e)
          (λ k.
            if-cases P (contains (g.objects p).dont_send id) _ _ (λ n. b message counts e)
              (λ n. c message counts e (ground (arith, k, count_of-bumped pid counts)) n)))

module _ {S : Type 0} where
  pub times_asked-noted :
      (g : Gossip S) (p m : ℕ) (message : Message) (counts : List (ℕ × ℕ))
      → lookup m g.message_cache ≡ some (message, counts)
      → times_asked (noted g p m message counts) p m ≡ suc (times_asked g p m)
  times_asked-noted g p m message counts h =
      let pid = (g.objects p).peer_id in
      ap (count_in pid)
        (lookup-written m (message, counts) (message, bumped pid counts) g.message_cache h)
      ∙ count_of-bumped pid counts
      ∙ ap (λ o. suc (count_in pid o)) (sym h)

  pub times_asked-noted_le :
      (g : Gossip S) (q id p m : ℕ) (message : Message) (counts : List (ℕ × ℕ))
      → lookup id g.message_cache ≡ some (message, counts)
      → times_asked g p m ≤ times_asked (noted g q id message counts) p m
  times_asked-noted_le g q id p m message counts h =
      let pid = (g.objects p).peer_id in
      let qid = (g.objects q).peer_id in
      elim (Bool-cases (id == m)) [
        | inl e ↦
            subst
              (λ x.
                count_in pid (lookup x g.message_cache)
                ≤ count_in pid (lookup x (noted g q id message counts).message_cache))
              ((==_iff id m).0 e)
              (rw
                (
                  lookup-written id (message, counts) (message, bumped qid counts) g.message_cache
                      h,
                  h,
                )
                (count_of-bumped_le qid pid counts))
        | inr e ↦ omega (
          arith,
          ap (count_in pid) (lookup-unwritten m id (message, bumped qid counts) g.message_cache e),
        )
      ]
