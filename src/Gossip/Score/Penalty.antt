-- ===== src/Gossip/Score/Penalty.antt =====
-- The penalties of a peer outlive its connection.
use leanp2p.Prelude.{
  ℕ, ◌+◌, ◌≤◌, All, option-cases, subst, ==_iff, ◌≡◌, refl, sym, ◌∙◌, ap, Bool, false, List, Option,
  none, some, if-elim, if-cases, elim-option, true, ◌==◌, if◌then◌else◌,
}
use mathlib.Core.Bool.{false≢true}
use leanp2p.Prelude.Eq.{nat_eq}
use leanp2p.Prelude.Maps.{lookup, emplace, modify, has, lookup-modify, lookup-emplace}
use leanp2p.Gossip.Score.{Arith, ScoreParams, PeerStats, Score, null, new_stats, score}
use leanp2p.Gossip.Score.Calls.{connect, disconnect, leave_topics}
use leanp2p.Gossip.Score.Expiry.{decays, IsAway, lookup-decays}

module _ {R : Type 0} (a : Arith R) (params : ScoreParams R) where
  -- What a peer has against it besides its topics; nothing for a peer that is not known.
  abbrev pub behaviour_of : Option (PeerStats R) → R × R
  behaviour_of none = (null a, null a)
  behaviour_of (some stats) = (stats.behaviour_penalty, stats.slow_peer_penalty)

  abbrev pub behaviour : Score R → ℕ → R × R
  behaviour s peer_id = behaviour_of (lookup peer_id s.peer_stats)

  -- A write that leaves them alone.
  behaviour_of-written :
      (f : PeerStats R → PeerStats R) (o : Option (PeerStats R)) (b : Bool)
      → ((stats : PeerStats R) → behaviour_of (some (f stats)) ≡ behaviour_of (some stats))
      → behaviour_of (elim o [ none ↦ none | some v ↦ if b then some (f v) else some v ])
        ≡ behaviour_of o
  behaviour_of-written f none b h = refl
  behaviour_of-written f (some stats) true h = h stats
  behaviour_of-written f (some stats) false h = refl

  behaviour-modify :
      (f : PeerStats R → PeerStats R) (m : List (ℕ × PeerStats R)) (peer_id : ℕ)
      → ((stats : PeerStats R) → behaviour_of (some (f stats)) ≡ behaviour_of (some stats))
      → behaviour_of (lookup peer_id (modify peer_id f m)) ≡ behaviour_of (lookup peer_id m)
  behaviour-modify f m peer_id h =
      ap behaviour_of (lookup-modify peer_id peer_id f m)
      ∙ behaviour_of-written f (lookup peer_id m) (peer_id == peer_id) h

  behaviour_of-new :
      (o : Option (PeerStats R)) (b : Bool)
      → behaviour_of (elim o [ none ↦ if b then some (new_stats a) else none | some w ↦ some w ])
        ≡ behaviour_of o
  behaviour_of-new none true = refl
  behaviour_of-new none false = refl
  behaviour_of-new (some stats) b = refl

  behaviour-emplace :
      (m : List (ℕ × PeerStats R)) (peer_id : ℕ)
      → behaviour_of (lookup peer_id (emplace peer_id (new_stats a) m))
        ≡ behaviour_of (lookup peer_id m)
  behaviour-emplace m peer_id =
      ap behaviour_of (lookup-emplace peer_id peer_id (new_stats a) m)
      ∙ if-elim (λ o. behaviour_of o ≡ behaviour_of (lookup peer_id m)) (has peer_id m)
          (lookup peer_id m)
          (elim (lookup peer_id m) [
            | none ↦ if peer_id == peer_id then some (new_stats a) else none
            | some w ↦ some w
          ])
          refl (behaviour_of-new (lookup peer_id m) (peer_id == peer_id))

  pub behaviour-connect :
      (s : Score R) (peer_id : ℕ)
      → behaviour (connect a params s peer_id) peer_id ≡ behaviour s peer_id
  unfolding connect
  behaviour-connect s peer_id =
      behaviour-modify (λ stats. record stats { expires_at = none })
        (emplace peer_id (new_stats a) s.peer_stats) peer_id (λ stats. refl)
      ∙ behaviour-emplace s.peer_stats peer_id

  pub behaviour-disconnect :
      (s : Score R) (peer_id now : ℕ)
      → a.lt (null a) (score a params s peer_id) ≡ false
      → behaviour (disconnect a params s peer_id now) peer_id ≡ behaviour s peer_id
  unfolding disconnect
  behaviour-disconnect s peer_id now h =
      elim-option (lookup peer_id s.peer_stats) (λ t. behaviour t peer_id ≡ behaviour s peer_id) s _
        refl
        (λ stats e.
          if-cases (λ t. behaviour t peer_id ≡ behaviour s peer_id)
            (a.lt (null a) (score a params s peer_id)) _ _
            (λ positive. absurd (false≢true (sym h ∙ positive)))
            (λ b. behaviour-modify _ s.peer_stats peer_id (λ stats. refl)))

  disconnect-IsAway :
      (s : Score R) (peer_id now : ℕ)
      → a.lt (null a) (score a params s peer_id) ≡ false
      → IsAway a params
          (now + params.retain_score)
          (lookup peer_id (disconnect a params s peer_id now).peer_stats)
  unfolding disconnect
  disconnect-IsAway s peer_id now h =
      let until = now + params.retain_score in
      let P = λ (t : Score R). IsAway a params until (lookup peer_id t.peer_stats) in
      let left = λ (stats : PeerStats R). record stats {
        topics = leave_topics a params stats.topics;
        expires_at = some until;
      } in
      let e : peer_id == peer_id ≡ true = (==_iff peer_id peer_id).1 refl in
      option-cases (lookup peer_id s.peer_stats) P s _
        (λ n. subst (IsAway a params until) (sym n) tt)
        (λ stats n.
          if-cases P (a.lt (null a) (score a params s peer_id)) _ _
            (λ positive. absurd (false≢true (sym h ∙ positive)))
            (λ b.
              let found : lookup peer_id (modify peer_id left s.peer_stats) ≡ some (left stats) =
                lookup-modify peer_id peer_id left s.peer_stats ∙ rw (n, e) refl in
              subst (IsAway a params until) (sym found) refl))

  -- A peer whose score is not positive does not get rid of its behaviour and slow peer penalties by
  -- leaving and coming back, whatever `onDecay` does meanwhile, if its last run is not behind the time of leaving and
  -- `retain_score`.
  pub behaviour-connect-away :
      (s : Score R) (peer_id now : ℕ) (times : List ℕ)
      → a.lt (null a) (score a params s peer_id) ≡ false
      → All (λ time. time ≤ now + params.retain_score) times
      → behaviour
          (connect a params (decays a params (disconnect a params s peer_id now) times) peer_id)
          peer_id
        ≡ behaviour s peer_id
  behaviour-connect-away s peer_id now times h l =
      let left = disconnect a params s peer_id now in
      behaviour-connect (decays a params left times) peer_id
      ∙ ap behaviour_of (
          lookup-decays a params left peer_id (now + params.retain_score) times
            (disconnect-IsAway s peer_id now h) l)
      ∙ behaviour-disconnect s peer_id now h
