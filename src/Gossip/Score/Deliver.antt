-- ===== src/Gossip/Score/Deliver.antt =====
-- What the router tells the score of a message: its first delivery, and its duplicates.
use leanp2p.Prelude.{ℕ, ◌+◌, List, [], ◌∷◌, Option, none, some, ltb, ◌==◌, if◌then◌else◌}
use leanp2p.Prelude.Eq.{nat_eq}
use leanp2p.Prelude.Maps.{lookup, modify, insert, member}
use leanp2p.Gossip.TimeCache.{TimeCache, get_or_default}
use leanp2p.Gossip.Score.{
  Arith, ScoreParams, Score, DeliveryRecord, unknown, valid, invalid, ignored, min_of,
  at_peer_stats,
}

abbrev pub new_record : DeliveryRecord
new_record = record { status = unknown; first_seen = 0; peers = [] }

-- A write to the record that `getOrDefault` returns.
unfoldable pub at_record :
    TimeCache ℕ DeliveryRecord → ℕ → (DeliveryRecord → DeliveryRecord) → TimeCache ℕ DeliveryRecord
at_record c message_id f = record c { map = modify message_id f c.map }

-- The record that `getOrDefault` returns.
unfoldable pub record_of : TimeCache ℕ DeliveryRecord → ℕ → DeliveryRecord
record_of c message_id = elim (lookup message_id c.map) [ none ↦ new_record | some r ↦ r ]

module _ {R : Type 0} (a : Arith R) (params : ScoreParams R) where
  unfoldable pub mark_first_message_delivery : Score R → ℕ → ℕ → Score R
  unfolding at_peer_stats
  mark_first_message_delivery s peer_id h = at_peer_stats a params s peer_id h (λ p t. record t {
    first_message_deliveries =
        min_of a (a.add t.first_message_deliveries (a.of_nat 1)) p.first_message_deliveries_cap;
    mesh_message_deliveries = elim t.mesh_active [
      | none ↦ t.mesh_message_deliveries
      | some active ↦
          min_of a (a.add t.mesh_message_deliveries (a.of_nat 1)) p.mesh_message_deliveries_cap
    ];
  })

  unfoldable pub mark_duplicate_message_delivery : Score R → ℕ → ℕ → Option ℕ → ℕ → Score R
  unfolding at_peer_stats
  mark_duplicate_message_delivery s peer_id h validated_time now =
      at_peer_stats a params s peer_id h (λ p t. record t {
        mesh_message_deliveries = elim t.mesh_active [
          | none ↦ t.mesh_message_deliveries
          | some active ↦ elim validated_time [
            | none ↦ t.mesh_message_deliveries
            | some time ↦
                if ltb (time + p.mesh_message_deliveries_window) now
                then t.mesh_message_deliveries
                else min_of a (a.add t.mesh_message_deliveries (a.of_nat 1))
                    p.mesh_message_deliveries_cap
          ]
        ];
      })

  unfoldable pub mark_invalid_message_delivery : Score R → ℕ → ℕ → Score R
  unfolding at_peer_stats
  mark_invalid_message_delivery s peer_id h = at_peer_stats a params s peer_id h (λ p t. record t {
    invalid_message_deliveries = a.add t.invalid_message_deliveries (a.of_nat 1);
  })

  unfoldable pub duplicate_message : Score R → ℕ → ℕ → ℕ → ℕ → Score R
  unfolding mark_duplicate_message_delivery mark_invalid_message_delivery at_record record_of
  duplicate_message s peer_id message_id h now =
      let cache = get_or_default new_record s.deliveries message_id now in
      let found = record s { deliveries = cache } in
      let r = record_of cache message_id in
      let noted = record s {
        deliveries = at_record cache message_id (λ r. record r { peers = insert peer_id r.peers });
      } in
      if member peer_id r.peers then found else elim r.status [
        | unknown ↦ noted
        | valid time ↦ mark_duplicate_message_delivery noted peer_id h (some time) now
        | invalid ↦ mark_invalid_message_delivery found peer_id h
        | ignored ↦ found
      ]

  unfoldable pub validate_message : Score R → ℕ → ℕ → ℕ → ℕ → Score R
  validate_message s peer_id message_id h now = record s {
    deliveries = get_or_default new_record s.deliveries message_id now;
  }

  -- The loop over the peers that sent the message before.
  unfoldable pub mark_all : Score R → ℕ → ℕ → List ℕ → ℕ → Score R
  unfolding mark_duplicate_message_delivery
  mark_all s from h [] now = s
  mark_all s from h (peer_id ∷ peers) now =
      mark_all (if peer_id == from then s else mark_duplicate_message_delivery s peer_id h none now)
        from h peers now

  unfoldable pub deliver_message : Score R → ℕ → ℕ → ℕ → ℕ → Score R
  unfolding mark_first_message_delivery mark_all at_record record_of
  deliver_message s from message_id h now =
      let marked = mark_first_message_delivery s from h in
      let cache = get_or_default new_record marked.deliveries message_id now in
      let found = record marked { deliveries = cache } in
      let r = record_of cache message_id in
      let stamped = record marked {
        deliveries = at_record cache message_id (λ r. record r { status = valid now });
      } in
      elim r.status [
        | unknown ↦ mark_all stamped from h r.peers now
        | valid time ↦ found
        | invalid ↦ found
        | ignored ↦ found
      ]
