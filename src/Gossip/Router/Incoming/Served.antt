-- ===== src/Gossip/Router/Incoming/Served.antt =====
-- How often a message is served to a peer that asks for it by IWANT.
use leanp2p.Prelude.{
  Bool-cases, option-cases, ==_iff, ℕ, ◌+◌, ◌-◌, ◌≤◌, ◌≡◌, refl, sym, ap, subst, ◌∙◌, arith, Bool,
  true, false, ◌&&◌, List, [], ◌∷◌, none, some, ◌==◌, if◌then◌else◌, inl, inr,
}
use leanp2p.Prelude.Eq.{nat_eq}
use leanp2p.Prelude.Maps.{lookup}
use leanp2p.Gossip.TimeCache.{contains}
use leanp2p.Gossip.Router.{Env, Gossip, Rpc, Peer, empty_rpc, at_peer, with_batch}
use leanp2p.Gossip.Router.Incoming.{PbRpc, serve}
use leanp2p.Gossip.Router.Connections.{take_batch}
use leanp2p.Gossip.Router.Incoming.Counts.{
  count_in, push, IsKept, queued, times_asked, at_peer-IsKept, queued-push, noted, serve-cases,
  times_asked-noted, times_asked-noted_le,
}

-- Ids of IWANTs that come, and batches that the writer takes.
pub data Request : Type 0 where
  asks : ℕ → ℕ → Request
  writes : ℕ → Request

module _ {S R : Type 0} (env : Env S R) where
  -- How many times the message is queued for the peer in answer to its requests.
  unfoldable pub served : Gossip S → List Request → ℕ → ℕ → ℕ
  served g [] p m = 0
  served g (asks q id ∷ rs) p m =
      (if q == p && id == m then queued (serve env g q id) p - queued g p else 0)
      + served (serve env g q id) rs p m
  served g (writes q ∷ rs) p m = served (take_batch env g q).1 rs p m

  -- How many times it may be: what is left of the limit, and nothing where the peer does not want it.
  abbrev pub allowed : Gossip S → ℕ → ℕ → ℕ
  allowed g p m =
      if contains (g.objects p).dont_send m
      then 0
      else env.config.gossip_retransmission - times_asked g p m

  -- What is queued and what may be queued afterwards is what might be queued.
  abbrev Fits : Gossip S → ℕ → ℕ → Gossip S → Type 0
  Fits g p m g' = (queued g' p - queued g p) + allowed g' p m ≤ allowed g p m

  allowed-at_peer :
      (g : Gossip S) (p q m : ℕ) (f : Peer → Peer)
      → ((x : Peer) → IsKept x (f x))
      → allowed (at_peer g p f) q m ≡ allowed g q m
  unfolding at_peer
  allowed-at_peer g p q m f h =
      let same = at_peer-IsKept g p q f h in
      let most = env.config.gossip_retransmission in
      ap
        (λ d.
          if contains d m
          then 0
          else most - count_in ((at_peer g p f).objects q).peer_id (lookup m g.message_cache))
        same.1
      ∙ ap
          (λ i.
            if contains (g.objects q).dont_send m
            then 0
            else most - count_in i (lookup m g.message_cache))
          same.0

  allowed-with_batch :
      (g : Gossip S) (p q m : ℕ) (f : Rpc → Rpc) → allowed (with_batch g p f) q m ≡ allowed g q m
  unfolding with_batch
  allowed-with_batch g p q m f =
      allowed-at_peer g p q m
        (λ x. record x {
          batch = some (f (elim x.batch as (λ o. Rpc) [ none ↦ empty_rpc | some r ↦ r ]));
          writing =
              if x.writing
              then true
              else elim x.stream_out as (λ o. Bool) [ none ↦ false | some s ↦ true ];
        })
        (λ x. (refl, refl))

  serve-Fits : (g : Gossip S) (p m : ℕ) → Fits g p m (serve env g p m)
  serve-Fits g p m =
      serve-cases env (Fits g p m) g p m (λ n. omega arith)
        (λ message counts h. ground (arith, times_asked-noted g p m message counts h))
        (λ message counts h k n.
          let next = noted g p m message counts in
          ground (
            arith,
            allowed-with_batch next p p m (push message),
            queued-push next p message,
            times_asked-noted g p m message counts h,
            ap (count_in (g.objects p).peer_id) h,
            k,
            n,
          ))

  serve-Fits_at : (g : Gossip S) (q id p m : ℕ) → q ≡ p → id ≡ m → Fits g p m (serve env g q id)
  serve-Fits_at g q id p m a b =
      subst (λ x. Fits g p m (serve env g x id)) (sym a)
        (subst (λ y. Fits g p m (serve env g p y)) (sym b) (serve-Fits g p m))

  serve-allowed : (g : Gossip S) (q id p m : ℕ) → allowed (serve env g q id) p m ≤ allowed g p m
  serve-allowed g q id p m =
      serve-cases env (λ g'. allowed g' p m ≤ allowed g p m) g q id (λ n. omega arith)
        (λ message counts h. ground (arith, times_asked-noted_le g q id p m message counts h))
        (λ message counts h k n.
          let next = noted g q id message counts in
          ground (
            arith,
            allowed-with_batch next q p m (push message),
            times_asked-noted_le g q id p m message counts h,
          ))

  take_batch-allowed :
      (g : Gossip S) (q p m : ℕ) → allowed (take_batch env g q).1 p m ≡ allowed g p m
  unfolding take_batch at_peer
  take_batch-allowed g q p m =
      option-cases (g.objects q).batch
        (λ (x : List PbRpc × Gossip S). allowed x.1 p m ≡ allowed g p m) _ _
        (λ n. allowed-at_peer g q p m (λ x. record x { writing = false }) (λ x. (refl, refl)))
        (λ r n. allowed-at_peer g q p m (λ x. record x { batch = none }) (λ x. (refl, refl)))

  -- In answer to any ids that the peers ask for, in any order, and whatever the writer takes meanwhile: a message is
  -- queued for a peer at most as many times as its count leaves of `gossip_retransmission`, and never if
  -- the peer does not want it.
  pub served-le-allowed :
      (g : Gossip S) (rs : List Request) (p m : ℕ) → served g rs p m ≤ allowed g p m
  unfolding served
  served-le-allowed g [] p m = omega arith
  served-le-allowed g (asks q id ∷ rs) p m =
      let rest = served-le-allowed (serve env g q id) rs p m in
      elim (Bool-cases (q == p && id == m)) [
        | inl e ↦
            let same : (q ≡ p) × (id ≡ m) =
              (ground (arith, e, ==_iff q p), ground (arith, e, ==_iff id m)) in
            rw e (omega (arith, rest, serve-Fits_at g q id p m same.0 same.1))
        | inr e ↦ rw e (omega (arith, rest, serve-allowed g q id p m))
      ]
  served-le-allowed g (writes q ∷ rs) p m =
      omega (arith, served-le-allowed (take_batch env g q).1 rs p m, take_batch-allowed g q p m)
