-- ===== src/Gossip/Router/Ihave.antt =====
-- `handle_ihave` of protocol/gossip/gossip.cpp.
pub mod Capped
pub mod Asked
use leanp2p.Prelude.{
  ℕ, suc, ◌+◌, ◌-◌, ◌*◌, Bool, true, false, not, ◌&&◌, ◌||◌, List, [], ◌∷◌, none, some, min, leb,
  ltb, ◌==◌, if◌then◌else◌, length, take,
}
use leanp2p.Prelude.Eq.{nat_eq}
use leanp2p.Prelude.Maps.{lookup, has, emplace, modify, insert}
use leanp2p.Gossip.Promises
use leanp2p.Gossip.TimeCache.{contains}
use leanp2p.Gossip.Router.{Env, Gossip, with_batch, is_gossipsub}
use leanp2p.Gossip.Router.Mesh.{below}

abbrev pub count_of : ℕ → List (ℕ × ℕ) → ℕ
count_of p counts = elim (lookup p counts) [ none ↦ 0 | some n ↦ n ]

module _ {S R : Type 0} (env : Env S R) where
  -- `handle_ihave`: the ids of one IHAVE that the router does not have, and those of all.
  unfoldable pub unknown_ids : Gossip S → List ℕ → List ℕ → List ℕ
  unknown_ids g [] want = want
  unknown_ids g (message_id ∷ ids) want = unknown_ids g ids (
      if contains g.duplicate_cache message_id || Promises.contains g.promises message_id
      then want
      else insert message_id want)

  unfoldable pub want_set : Gossip S → ℕ → List (ℕ × List ℕ) → List ℕ → List ℕ
  unfolding unknown_ids
  want_set g p [] want = want
  want_set g p ((h, ids) ∷ ihaves) want = want_set g p ihaves (
      if below env g p env.config.score.gossip_threshold
      then want
      else if not (has h g.topics)
      then want
      else unknown_ids g ids want)

  unfoldable pub promise_all : Gossip S → ℕ → List ℕ → Gossip S
  promise_all g p [] = g
  promise_all g p (message_id ∷ ids) =
      let promised = record g {
        promises =
            Promises.add g.promises message_id p g.now (env.config.iwant_followup_time * 1000);
      } in
      promise_all (with_batch promised p (λ r. record r { iwant = insert message_id r.iwant })) p
        ids

  -- The part of `handle_ihave` behind the counter of received IHAVEs.
  unfoldable pub want_some : Gossip S → ℕ → List (ℕ × List ℕ) → Gossip S
  unfolding want_set
  want_some g p ihaves =
      let sent = count_of p g.count_sent_iwant in
      let wanted = want_set g p ihaves [] in
      let count = min (length wanted) (env.config.max_ihave_length - sent) in
      let counted = record g {
        random = g.random + 1;
        count_sent_iwant = modify p (λ n. n + count) (emplace p 0 g.count_sent_iwant);
      } in
      if has p g.count_sent_iwant && leb env.config.max_ihave_length sent
      then g
      else if length wanted == 0
      then g
      else promise_all (with_batch counted p (λ r. r)) p (take count (env.shuffle g.random wanted))

  unfoldable pub handle_ihave : Gossip S → ℕ → List (ℕ × List ℕ) → Bool × Gossip S
  unfolding want_some
  handle_ihave g p ihaves =
      let counts = modify p suc (emplace p 0 g.count_received_ihave) in
      let g' = record g { count_received_ihave = counts } in
      if length ihaves == 0
      then (true, g)
      else if not (is_gossipsub (g.objects p))
      then (false, g)
      else if ltb env.config.max_ihave_messages (count_of p counts)
      then (true, g')
      else (true, want_some g' p ihaves)
