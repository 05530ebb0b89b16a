-- ===== src/Gossip/Promises/Tests.antt =====
-- The promises on concrete inputs. A message and a peer are numbers here.
use leanp2p.Prelude.{ℕ, ◌≡◌, refl, List, [], ◌∷◌}
use leanp2p.Prelude.Eq.{nat_eq}
use leanp2p.Gossip.Promises.{clear_expired}
use leanp2p.Gossip.Promises.Expired.{count, broken, broken_all, count-clear_expired}

abbrev promised : List (ℕ × List (ℕ × ℕ))
promised = (1, (7, 50) ∷ (8, 90) ∷ []) ∷ (2, (7, 40) ∷ []) ∷ []

count-clear_expired_example : count 7 (clear_expired 60 promised).1 ≡ broken_all 60 7 promised
count-clear_expired_example = count-clear_expired 60 7 promised

broken_twice : broken_all 60 7 promised ≡ 2
unfolding broken_all broken
broken_twice = refl
