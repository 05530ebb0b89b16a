-- ===== src/Gossip/Score/Expiry.antt =====
-- `onDecay` at a peer that is away.
use leanp2p.Prelude.{
  ℕ, ◌≤◌, ◌≡◌, refl, sym, ap, ◌∙◌, arith, false, inl, inr, List, [], ◌∷◌, Option, none, some, ◌==◌,
  ltb, All, Bool-cases, if-cases, option-cases, Option-cases, subst,
}
use leanp2p.Prelude.Eq.{nat_eq}
use leanp2p.Prelude.Maps.{lookup}
use leanp2p.Gossip.Score.{Arith, ScoreParams, PeerStats, Score}
use leanp2p.Gossip.Score.Decay.{on_decay, decay_peers}

module _ {R : Type 0} (a : Arith R) (params : ScoreParams R) where
  -- The decays at some times, one after the other.
  unfoldable pub decays : Score R → List ℕ → Score R
  decays s [] = s
  decays s (now ∷ times) = decays (on_decay a params s now) times

  -- An entry of another peer, decayed or erased, makes no difference.
  lookup-decay_other :
      (now peer_id k : ℕ) (stats : PeerStats R) (m : List (ℕ × PeerStats R))
      → k == peer_id ≡ false
      → lookup peer_id (decay_peers a params now ((k, stats) ∷ m))
        ≡ lookup peer_id (decay_peers a params now m)
  unfolding decay_peers lookup
  lookup-decay_other now peer_id k stats m e =
      option-cases stats.expires_at
        (λ l. lookup peer_id l ≡ lookup peer_id (decay_peers a params now m)) _ _ (λ n. rw e refl)
        (λ time n.
          if-cases (λ l. lookup peer_id l ≡ lookup peer_id (decay_peers a params now m))
            (ltb time now) _ _ (λ k. refl) (λ k. rw e refl))

  lookup-decay_none :
      (now peer_id : ℕ) (m : List (ℕ × PeerStats R))
      → lookup peer_id m ≡ none
      → lookup peer_id (decay_peers a params now m) ≡ none
  unfolding decay_peers lookup
  lookup-decay_none now peer_id [] h = refl
  lookup-decay_none now peer_id ((k, stats) ∷ m) h = elim (Bool-cases (k == peer_id)) [
    | inl e ↦ absurd (ground (arith, h, e))
    | inr e ↦
        lookup-decay_other now peer_id k stats m e
        ∙ lookup-decay_none now peer_id m (rw⁻¹ h (rw e refl))
  ]

  lookup-decay_away :
      (now peer_id time : ℕ) (stats : PeerStats R) (m : List (ℕ × PeerStats R))
      → lookup peer_id m ≡ some stats
      → stats.expires_at ≡ some time
      → now ≤ time
      → lookup peer_id (decay_peers a params now m) ≡ some stats
  unfolding decay_peers lookup
  lookup-decay_away now peer_id time stats [] h x l = absurd cc
  lookup-decay_away now peer_id time stats ((k, found) ∷ m) h x l =
      elim (Bool-cases (k == peer_id)) [
        | inl e ↦
            let here : some found ≡ some stats = rw⁻¹ h (rw e refl) in
            let same : found ≡ stats = cc in
            let away : found.expires_at ≡ some time =
              ap (λ (y : PeerStats R). y.expires_at) same ∙ x in
            let early : ltb time now ≡ false = ground (arith, l) in
            rw (away, early, e) (ap some same)
        | inr e ↦
            lookup-decay_other now peer_id k found m e
            ∙ lookup-decay_away now peer_id time stats m (rw⁻¹ h (rw e refl)) x l
      ]

  -- A peer that is away until `time`, or not known.
  abbrev pub IsAway : ℕ → Option (PeerStats R) → Type 0
  IsAway time none = Unit {0}
  IsAway time (some stats) = stats.expires_at ≡ some time

  lookup-on_decay :
      (s : Score R) (peer_id time now : ℕ)
      → IsAway time (lookup peer_id s.peer_stats)
      → now ≤ time
      → lookup peer_id (on_decay a params s now).peer_stats ≡ lookup peer_id s.peer_stats
  unfolding on_decay
  lookup-on_decay s peer_id time now away l = elim (Option-cases (lookup peer_id s.peer_stats)) [
    | inl n ↦ lookup-decay_none now peer_id s.peer_stats n ∙ sym n
    | inr (stats, n) ↦
        lookup-decay_away now peer_id time stats s.peer_stats n (subst (IsAway time) n away) l
        ∙ sym n
  ]

  -- The statistics of a peer that is away stay until the time has come.
  pub lookup-decays :
      (s : Score R) (peer_id time : ℕ) (times : List ℕ)
      → IsAway time (lookup peer_id s.peer_stats)
      → All (λ now. now ≤ time) times
      → lookup peer_id (decays s times).peer_stats ≡ lookup peer_id s.peer_stats
  unfolding decays
  lookup-decays s peer_id time [] away l = refl
  lookup-decays s peer_id time (now ∷ times) away l =
      let same = lookup-on_decay s peer_id time now away l.0 in
      lookup-decays (on_decay a params s now) peer_id time times
        (subst (IsAway time) (sym same) away) l.1
      ∙ same
