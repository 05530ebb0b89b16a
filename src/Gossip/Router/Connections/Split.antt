-- ===== src/Gossip/Router/Connections/Split.antt =====
-- What a peer makes of the frames of a batch.
use mathlib.Core.List.{append-nil, append_assoc}
use leanp2p.Prelude.{
  ℕ, ◌≡◌, ◌≤◌, refl, sym, arith, ap, ◌∙◌, true, false, List, [], ◌∷◌, ◌++◌, ◌==◌, inl, inr,
  Bool-cases, length, All,
}
use leanp2p.Gossip.Router.{Env, Rpc, Message, PbMessage}
use leanp2p.Gossip.Router.Broadcast.{to_protobuf}
use leanp2p.Gossip.Router.Incoming.{PbRpc}
use leanp2p.Gossip.Router.Connections.{
  add_each, add_ihaves, add_ids, empty_pb, has_control, control_frame, publications, split_batch,
}

-- Two messages as one, as a decoder of protobuf merges them: each repeated field is continued.
abbrev pub merged : PbRpc → PbRpc → PbRpc
merged a b = record {
  subscriptions = a.subscriptions ++ b.subscriptions;
  publish = a.publish ++ b.publish;
  graft = a.graft ++ b.graft;
  prune = a.prune ++ b.prune;
  ihave = a.ihave ++ b.ihave;
  iwant = a.iwant ++ b.iwant;
  idontwant = a.idontwant ++ b.idontwant;
}

abbrev pub received : List PbRpc → PbRpc
received [] = empty_pb
received (frame ∷ frames) = merged frame (received frames)

-- A list of ids, in a list of its own where it has some.
abbrev pub as_one : List ℕ → List (List ℕ)
as_one [] = []
as_one (id ∷ ids) = (id ∷ ids) ∷ []

add_each_lem : {A : Type 0} (field xs : List A) → add_each field xs ≡ field ++ xs
unfolding add_each
add_each_lem field [] = sym (append-nil field)
add_each_lem field (x ∷ xs) = add_each_lem (field ++ (x ∷ [])) xs ∙ append_assoc field (x ∷ []) xs

add_ihaves_lem : (field ihave : List (ℕ × List ℕ)) → add_ihaves field ihave ≡ field ++ ihave
unfolding add_ihaves
add_ihaves_lem field [] = sym (append-nil field)
add_ihaves_lem field ((h, ms) ∷ ihave) =
    add_ihaves_lem (field ++ ((h, add_each [] ms) ∷ [])) ihave
    ∙ append_assoc field ((h, add_each [] ms) ∷ []) ihave
    ∙ ap (λ l. field ++ ((h, l) ∷ ihave)) (add_each_lem [] ms)

add_ids-as_one : (ids : List ℕ) → add_ids ids ≡ as_one ids
unfolding add_ids
add_ids-as_one [] = refl
add_ids-as_one (id ∷ ids) = ap (λ l. l ∷ []) (add_each_lem [] (id ∷ ids))

length_zero : {A : Type 0} (xs : List A) → (length xs == 0) ≡ true → [] ≡ xs
length_zero [] e = refl
length_zero (x ∷ xs) e = ground (arith, e)

-- A frame has one publication at most.
abbrev pub IsSmall : PbRpc → Type 0
IsSmall frame = length frame.publish ≤ 1

module _ {S R : Type 0} (env : Env S R) where
  abbrev pub encoded : List Message → List PbMessage
  encoded [] = []
  encoded (m ∷ ms) = to_protobuf env m ∷ encoded ms

  -- The whole batch as one message.
  abbrev pub whole : Rpc → PbRpc
  whole r = record {
    subscriptions = r.subscriptions;
    publish = encoded r.publish;
    graft = r.graft;
    prune = r.prune;
    ihave = r.ihave;
    iwant = as_one r.iwant;
    idontwant = as_one r.idontwant;
  }

  received-publications :
      (ms : List Message)
      → received (publications env ms) ≡ record empty_pb { publish = encoded ms }
  unfolding publications
  received-publications [] = refl
  received-publications (m ∷ ms) =
      ap (merged (record empty_pb { publish = to_protobuf env m ∷ [] })) (received-publications ms)

  publications-IsSmall : (ms : List Message) → All IsSmall (publications env ms)
  unfolding publications
  publications-IsSmall [] = tt
  publications-IsSmall (m ∷ ms) = (omega arith, publications-IsSmall ms)

  control_frame-IsSmall : (r : Rpc) → IsSmall (control_frame r)
  unfolding control_frame
  control_frame-IsSmall r = omega arith

  merged-control_frame :
      (r : Rpc)
      → merged (control_frame r) (record empty_pb { publish = encoded r.publish }) ≡ whole r
  unfolding control_frame
  merged-control_frame r = λ i. record {
    subscriptions = (append-nil (add_each [] r.subscriptions) ∙ add_each_lem [] r.subscriptions) i;
    publish = encoded r.publish;
    graft = (append-nil (add_each [] r.graft) ∙ add_each_lem [] r.graft) i;
    prune = (append-nil (add_each [] r.prune) ∙ add_each_lem [] r.prune) i;
    ihave = (append-nil (add_ihaves [] r.ihave) ∙ add_ihaves_lem [] r.ihave) i;
    iwant = (append-nil (add_ids r.iwant) ∙ add_ids-as_one r.iwant) i;
    idontwant = (append-nil (add_ids r.idontwant) ∙ add_ids-as_one r.idontwant) i;
  }

  without_control :
      (r : Rpc) → has_control r ≡ false → record empty_pb { publish = encoded r.publish } ≡ whole r
  unfolding has_control
  without_control r k = λ i. record {
    subscriptions = length_zero r.subscriptions (ground (arith, k)) i;
    publish = encoded r.publish;
    graft = length_zero r.graft (ground (arith, k)) i;
    prune = length_zero r.prune (ground (arith, k)) i;
    ihave = length_zero r.ihave (ground (arith, k)) i;
    iwant = as_one (length_zero r.iwant (ground (arith, k)) i);
    idontwant = as_one (length_zero r.idontwant (ground (arith, k)) i);
  }

  -- The frames of a batch, merged in their order, are the batch as one message: every part of it once, and the
  -- messages in their order. No frame has two messages.
  pub received-split_batch :
      (r : Rpc) → (received (split_batch env r) ≡ whole r) × All IsSmall (split_batch env r)
  unfolding split_batch
  received-split_batch r = elim (Bool-cases (has_control r)) [
    | inl k ↦
        rw (k, split_batch)
          (
            ap (merged (control_frame r)) (received-publications r.publish)
                ∙ merged-control_frame r,
            (control_frame-IsSmall r, publications-IsSmall r.publish),
          )
    | inr k ↦
        rw (k, split_batch)
          (received-publications r.publish ∙ without_control r k, publications-IsSmall r.publish)
  ]
