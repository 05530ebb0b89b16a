-- ===== src/Gossip/Router/Incoming.antt =====
-- `onMessage` of protocol/gossip/gossip.cpp: what an RPC of a peer does. The RPC is decoded by
-- generated code, so it is an argument.
pub mod Counts
pub mod Served
use leanp2p.Prelude.{
  ℕ, suc, Bool, true, false, not, List, [], ◌∷◌, ◌++◌, Option, none, some, ltb, if◌then◌else◌,
}
use leanp2p.Prelude.Eq.{nat_eq}
use leanp2p.Prelude.Maps.{lookup, emplace, modify}
use leanp2p.Gossip.TimeCache.{contains, idontwant_insert, KeyCache}
use leanp2p.Gossip.Router.{Env, Gossip, PbMessage, at_peer, with_batch, is_gossipsub}
use leanp2p.Gossip.Router.Mesh.{below}
use leanp2p.Gossip.Router.Membership.{on_subscriptions, on_grafts, on_prunes}
use leanp2p.Gossip.Router.Delivery.{on_publishes}
use leanp2p.Gossip.Router.Ihave.{count_of, handle_ihave}

pub record PbRpc : Type 0 where
  pub subscriptions : List (ℕ × Bool)
  pub publish : List PbMessage
  pub graft : List ℕ
  pub prune : List (ℕ × Option ℕ)
  pub ihave : List (ℕ × List ℕ)
  pub iwant : List (List ℕ)
  pub idontwant : List (List ℕ)

module _ {S R : Type 0} (env : Env S R) where
  -- One id of an IWANT.
  unfoldable pub serve : Gossip S → ℕ → ℕ → Gossip S
  serve g p message_id = elim (lookup message_id g.message_cache) [
    | none ↦ g
    | some (message, counts) ↦
        let id = (g.objects p).peer_id in
        let counts' = modify id suc (emplace id 0 counts) in
        let g' = record g {
          message_cache = modify message_id (λ _. (message, counts')) g.message_cache;
        } in
        if ltb env.config.gossip_retransmission (count_of id counts')
        then g'
        else if contains (g.objects p).dont_send message_id
        then g'
        else with_batch g' p (λ r. record r { publish = r.publish ++ (message ∷ []) })
  ]

  unfoldable pub serve_all : Gossip S → ℕ → List ℕ → Gossip S
  serve_all g p [] = g
  serve_all g p (message_id ∷ ids) = serve_all (serve g p message_id) p ids

  unfoldable pub on_iwants : Gossip S → ℕ → List (List ℕ) → Bool × Gossip S
  on_iwants g p [] = (true, g)
  on_iwants g p (ids ∷ iwants) =
      let served =
        if below env g p env.config.score.gossip_threshold then g else serve_all g p ids in
      let rest = on_iwants served p iwants in
      if not (is_gossipsub (g.objects p)) then (false, g) else rest

  -- `dont_send_.insert` on each id; its exception does not occur on a valid cache.
  unfoldable pub insert_all : KeyCache ℕ → List ℕ → ℕ → KeyCache ℕ
  insert_all c [] now = c
  insert_all c (message_id ∷ ids) now =
      insert_all (elim (idontwant_insert c message_id now) [ none ↦ c | some c' ↦ c' ]) ids now

  unfoldable pub on_idontwants : Gossip S → ℕ → List (List ℕ) → Bool × Gossip S
  on_idontwants g p [] = (true, g)
  on_idontwants g p (ids ∷ idontwants) =
      let marked = at_peer g p (λ x. record x { dont_send = insert_all x.dont_send ids g.now }) in
      let rest = on_idontwants marked p idontwants in
      if not (is_gossipsub (g.objects p)) then (false, g) else rest

  -- A part that may end the handler.
  abbrev pub and_then : Bool × Gossip S → (Gossip S → Bool × Gossip S) → Bool × Gossip S
  and_then (true, g) f = f g
  and_then (false, g) f = (false, g)

  -- `onMessage`; `none` is an RPC that does not decode.
  unfoldable pub on_message : Gossip S → ℕ → Option PbRpc → Bool × Gossip S
  on_message g p none = (false, g)
  on_message g p (some rpc) =
      let subscribed = on_subscriptions env g p rpc.subscriptions in
      let published = on_publishes env subscribed p rpc.publish in
      if below env g p env.config.score.graylist_threshold
      then (true, g)
      else and_then (on_grafts env published p rpc.graft) (λ g1.
        and_then (on_prunes env g1 p rpc.prune) (λ g2.
          and_then (handle_ihave env g2 p rpc.ihave)
            (λ g3. and_then (on_iwants g3 p rpc.iwant) (λ g4. on_idontwants g4 p rpc.idontwant))))
