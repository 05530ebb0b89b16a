-- ===== src/Gossip/Router/Delivery.antt =====
-- The messages of an RPC in `onMessage` of protocol/gossip/gossip.cpp: their checks and delivery.
pub mod Verified
use leanp2p.Prelude.{
  ℕ, true, false, not, List, [], ◌∷◌, ◌++◌, Option, none, some, ◌==◌, if◌then◌else◌, length,
}
use leanp2p.Prelude.Eq.{nat_eq}
use leanp2p.Prelude.Maps.{has}
use leanp2p.Gossip.TimeCache.{duplicate_insert}
use leanp2p.Gossip.Config.{ValidationMode}
use leanp2p.Gossip.Router.{Env, Gossip, Message, PbMessage, at_topic}
use leanp2p.Gossip.Router.Broadcast.{broadcast, get_signable, load_big}

module _ {S R : Type 0} (env : Env S R) where
  -- The checks of a message: `none` where the loop goes on with the next one.
  unfoldable pub validate_strict : PbMessage → Option Message
  unfolding get_signable load_big
  validate_strict pb = elim (env.peer_id_from_bytes pb.from) [
    | none ↦ none
    | some from ↦ if not (length pb.seqno == 8) then none else elim (env.public_key from) [
      | none ↦ none
      | some key ↦ elim (env.verify (get_signable env pb) pb.signature key) [
        | none ↦ none
        | some false ↦ none
        | some true ↦ some (record {
          from = some from;
          payload = pb.payload;
          seqno = some (load_big 0 pb.seqno);
          topic = pb.topic;
          signature = some pb.signature;
          received_from = none;
        })
      ]
    ]
  ]

  unfoldable pub validate_anonymous : PbMessage → Option Message
  validate_anonymous pb =
      if not (length pb.from == 0)
      then none
      else if not (length pb.seqno == 0)
      then none
      else if not (length pb.signature == 0)
      then none
      else some (record {
        from = none;
        payload = pb.payload;
        seqno = none;
        topic = pb.topic;
        signature = none;
        received_from = none;
      })

  unfoldable pub validate : PbMessage → Option Message
  unfolding validate_strict validate_anonymous
  validate pb = elim env.config.validation_mode [
    | ValidationMode.strict ↦ validate_strict pb
    | ValidationMode.anonymous ↦ validate_anonymous pb
  ]

  -- A message that passed the checks.
  unfoldable pub on_valid : Gossip S → ℕ → Message → Gossip S
  unfolding at_topic
  on_valid g p message =
      let id = (g.objects p).peer_id in
      let message_id = env.message_id message in
      let inserted = duplicate_insert g.duplicate_cache message_id g.now g.now in
      let g' = record g { duplicate_cache = inserted.0 } in
      let validated = env.validate_message g.score id message_id message.topic g.now in
      let received =
        at_topic g' message.topic (λ t. record t { received = t.received ++ (message ∷ []) }) in
      let delivered = record received {
        score = env.deliver_message validated id message_id message.topic g.now;
      } in
      if not (has message.topic g.topics)
      then g
      else if not inserted.1
      then record g' { score = env.duplicate_message g.score id message_id message.topic g.now }
      else broadcast env delivered message.topic (some id) message_id message

  unfoldable pub on_publish : Gossip S → ℕ → PbMessage → Gossip S
  unfolding validate on_valid
  on_publish g p pb = elim (validate pb) [
    | none ↦ g
    | some message ↦ on_valid g p (record message { received_from = some (g.objects p).peer_id })
  ]

  unfoldable pub on_publishes : Gossip S → ℕ → List PbMessage → Gossip S
  on_publishes g p [] = g
  on_publishes g p (pb ∷ pbs) = on_publishes (on_publish g p pb) p pbs
