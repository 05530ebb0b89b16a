-- ===== src/Gossip/Router/Delivery/Verified.antt =====
-- What the signature checks of protocol/gossip/gossip.cpp let through.
use leanp2p.Prelude.{
  elim-option, if-cases, not, ℕ, ◌≡◌, refl, arith, Bool, true, false, List, Option, none, some,
  ◌==◌, ◌⊎◌, inl, inr, length,
}
use leanp2p.Gossip.Config.{ValidationMode}
use leanp2p.Gossip.Router.{Env, Gossip, Message, PbMessage}
use leanp2p.Gossip.Router.Broadcast.{get_signable}
use leanp2p.Gossip.Router.Delivery.{validate_strict, validate, on_publish}

module _ {S R : Type 0} (env : Env S R) where
  -- The author's key has signed the message, and the sequence number has eight bytes.
  pub record IsSigned (pb : PbMessage) : Type 0 where
    pub author : ℕ
    pub key : List ℕ
    pub from : env.peer_id_from_bytes pb.from ≡ some author
    pub known : env.public_key author ≡ some key
    pub signed : env.verify (get_signable env pb) pb.signature key ≡ some true
    pub numbered : length pb.seqno ≡ 8

  pub verdict-cases :
      (o : Option Bool) (P : Option Message → Type 0) (m : Message)
      → P none
      → (o ≡ some true → P (some m))
      → P (elim o [ none ↦ none | some false ↦ none | some true ↦ some m ])
  verdict-cases none P m a b = a
  verdict-cases (some false) P m a b = a
  verdict-cases (some true) P m a b = b refl

  pub validate_strict_cases : (pb : PbMessage) → (validate_strict env pb ≡ none) ⊎ IsSigned pb
  unfolding validate_strict
  validate_strict_cases pb =
      let P = λ (o : Option Message). (o ≡ none) ⊎ IsSigned pb in
      elim-option (env.peer_id_from_bytes pb.from) P none _ (inl refl) (λ from e1.
        if-cases P (not (length pb.seqno == 8)) none _ (λ n. inl refl)
          (λ n. elim-option (env.public_key from) P none _ (inl refl) (λ key e2.
            verdict-cases (env.verify (get_signable env pb) pb.signature key) P _ (inl refl) (λ e3.
              inr (record {
                author = from;
                key = key;
                from = e1;
                known = e2;
                signed = e3;
                numbered = ground (arith, n);
              })))))

  pub strict_lem :
      (g : Gossip S) (p : ℕ) (pb : PbMessage)
      → env.config.validation_mode ≡ ValidationMode.strict
      → validate_strict env pb ≡ none
      → on_publish env g p pb ≡ g
  unfolding on_publish validate
  strict_lem g p pb m e = ground (arith, m, e)

  -- In strict mode a message changes nothing, unless its author's key has signed it.
  pub on_publish_strict :
      (g : Gossip S) (p : ℕ) (pb : PbMessage)
      → env.config.validation_mode ≡ ValidationMode.strict
      → (on_publish env g p pb ≡ g) ⊎ IsSigned pb
  unfolding on_publish validate
  on_publish_strict g p pb m = elim (validate_strict_cases pb) [
    | inl e ↦ inl (strict_lem g p pb m e)
    | inr s ↦ inr s
  ]
