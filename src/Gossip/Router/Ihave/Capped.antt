-- ===== src/Gossip/Router/Ihave/Capped.antt =====
-- The counts of the ids that the peers are asked for.
use leanp2p.Prelude.{
  ℕ, suc, ◌+◌, ◌*◌, ◌-◌, ◌≤◌, ◌≡◌, refl, subst, arith, Bool, true, false, not, ◌&&◌, List, [], ◌∷◌,
  min, leb, ltb, ◌==◌, ==_iff, if◌then◌else◌, length, take, if-elim, Option-cases, Bool-cases, inl,
  inr,
}
use leanp2p.Prelude.Eq.{nat_eq}
use leanp2p.Prelude.Maps.{
  lookup, has, emplace, modify, insert, lookup-modify, lookup-emplace, lookup-has,
}
use leanp2p.Gossip.Promises
use leanp2p.Gossip.Router.{Env, Gossip, with_batch, is_gossipsub}
use leanp2p.Gossip.Router.Ihave.{count_of, promise_all, want_set, want_some, handle_ihave}

-- The write to the counter of a peer, which is made where it is missing.
abbrev pub added : ℕ → ℕ → List (ℕ × ℕ) → List (ℕ × ℕ)
added p k counts = modify p (λ n. n + k) (emplace p 0 counts)

pub count_of-added :
    (p k : ℕ) (counts : List (ℕ × ℕ)) → count_of p (added p k counts) ≡ count_of p counts + k
count_of-added p k counts = elim (Option-cases (lookup p counts)) [
  | inl e ↦ ground (
    arith,
    e,
    lookup-modify p p (λ n. n + k) (emplace p 0 counts),
    lookup-emplace p p 0 counts,
    lookup-has p counts e,
    ==_iff p p,
  )
  | inr (m, e) ↦ ground (
    arith,
    e,
    lookup-modify p p (λ n. n + k) (emplace p 0 counts),
    lookup-emplace p p 0 counts,
    ==_iff p p,
  )
]

pub count_of-added_ne :
    (p q k : ℕ) (counts : List (ℕ × ℕ))
    → (p == q) ≡ false
    → count_of q (added p k counts) ≡ count_of q counts
count_of-added_ne p q k counts d = elim (Option-cases (lookup q counts)) [
  | inl e ↦ ground (
    arith,
    d,
    e,
    lookup-modify q p (λ n. n + k) (emplace p 0 counts),
    lookup-emplace q p 0 counts,
  )
  | inr (m, e) ↦ ground (
    arith,
    d,
    e,
    lookup-modify q p (λ n. n + k) (emplace p 0 counts),
    lookup-emplace q p 0 counts,
  )
]

fits : (count sent n most : ℕ) → sent ≤ most → count ≡ min n (most - sent) → sent + count ≤ most
fits count sent n most a e = omega (arith, a, e)

module _ {S R : Type 0} (env : Env S R) where
  abbrev pub IsCapped : Gossip S → Type 0
  IsCapped g = (p : ℕ) → count_of p g.count_sent_iwant ≤ env.config.max_ihave_length

  pub promise_all-IsCapped :
      (g : Gossip S) (p : ℕ) (ids : List ℕ) → IsCapped g → IsCapped (promise_all env g p ids)
  unfolding promise_all with_batch
  promise_all-IsCapped g p [] c = c
  promise_all-IsCapped g p (message_id ∷ ids) c =
      promise_all-IsCapped
        (with_batch
          (record g {
            promises =
                Promises.add g.promises message_id p g.now (env.config.iwant_followup_time * 1000);
          })
          p (λ r. record r { iwant = insert message_id r.iwant }))
        p ids c

  pub want_some-IsCapped :
      (g : Gossip S) (p : ℕ) (ihaves : List (ℕ × List ℕ))
      → IsCapped g
      → IsCapped (want_some env g p ihaves)
  unfolding want_some with_batch
  want_some-IsCapped g p ihaves c =
      let sent = count_of p g.count_sent_iwant in
      let count = min (length (want_set env g p ihaves [])) (env.config.max_ihave_length - sent) in
      let counted : Gossip S = record g {
        random = g.random + 1;
        count_sent_iwant = added p count g.count_sent_iwant;
      } in
      let wanted = want_set env g p ihaves [] in
      let asked =
        promise_all env (with_batch counted p (λ r. r)) p
          (take count (env.shuffle g.random wanted)) in
      if-elim IsCapped (has p g.count_sent_iwant && leb env.config.max_ihave_length sent) g
        (if length wanted == 0 then g else asked) c
        (if-elim IsCapped (length wanted == 0) g asked c (
          promise_all-IsCapped (with_batch counted p (λ r. r)) p
            (take count (env.shuffle g.random wanted))
            (λ q. elim (Bool-cases (p == q)) [
              | inl k ↦
                  subst
                    (λ x.
                      count_of x (added p count g.count_sent_iwant) ≤ env.config.max_ihave_length)
                    ((==_iff p q).0 k)
                    (rw (count_of-added p count g.count_sent_iwant)
                      (fits count sent _ _ (c p) refl))
              | inr k ↦ rw (count_of-added_ne p q count g.count_sent_iwant k) (c q)
            ])))

  -- The count of the ids that a peer is asked for stays at most `max_ihave_length`.
  pub handle_ihave-IsCapped :
      (g : Gossip S) (p : ℕ) (ihaves : List (ℕ × List ℕ))
      → IsCapped g
      → IsCapped (handle_ihave env g p ihaves).1
  unfolding handle_ihave
  handle_ihave-IsCapped g p ihaves c =
      let P = λ (x : Bool × Gossip S). IsCapped x.1 in
      let g' : Gossip S = record g {
        count_received_ihave = modify p suc (emplace p 0 g.count_received_ihave);
      } in
      let wanted : Bool × Gossip S = (true, want_some env g' p ihaves) in
      let late = ltb env.config.max_ihave_messages (count_of p g'.count_received_ihave) in
      let counted : Bool × Gossip S = if late then (true, g') else wanted in
      if-elim P (length ihaves == 0) (true, g)
        (if not (is_gossipsub (g.objects p)) then (false, g) else counted) c
        (if-elim P (not (is_gossipsub (g.objects p))) (false, g) counted c
          (if-elim P late (true, g') wanted c (want_some-IsCapped g' p ihaves c)))
