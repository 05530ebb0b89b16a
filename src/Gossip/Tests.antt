-- ===== src/Gossip/Tests.antt =====
-- The parts of gossip on concrete inputs. A key is a number here.
use leanp2p.Prelude.{
  ℕ, ◌+◌, ◌/◌, ◌≤◌, ◌≡◌, refl, arith, true, List, [], ◌∷◌, some, leb, if◌then◌else◌,
}
use leanp2p.Prelude.Eq.{nat_eq}
use leanp2p.Gossip.TimeCache.{
  KeyCache, size, contains, clear_expired, clear_loop, duplicate_insert, idontwant_insert,
  k_capacity,
}
use leanp2p.Prelude.Maps.{has, member}
use leanp2p.Gossip.TimeCache.Expiry.{IsValid, expiry, live, contains-clear_expired}
use leanp2p.Gossip.TimeCache.Insert.{duplicate_insert_twice}
use leanp2p.Gossip.TimeCache.Capacity.{idontwant_insert_fits}
use leanp2p.Gossip.Backoff.{init, get}
use leanp2p.Gossip.Backoff.Update.{Call, updating, shifting, run, run_plain, get-run}
use leanp2p.Gossip.History.{shifts, get-shifts, get-shift_all}
use leanp2p.Gossip.History as H

abbrev held : KeyCache ℕ
held = record { ttl = 100; map = (7, tt) ∷ []; expirations = (150, 7) ∷ [] }

held-IsValid : IsValid 60 held
unfolding member
held-IsValid = record {
  aligned = refl;
  unique = ground arith;
  ascending = ground arith;
  bounded = ground arith;
}

contains-clear_expired_example :
    contains (clear_expired held 120) 7 ≡ live 120 (expiry 7 held.expirations)
contains-clear_expired_example = contains-clear_expired held 60 120 7 held-IsValid

taken : (duplicate_insert held 8 120 121).1 ≡ true
unfolding duplicate_insert clear_expired clear_loop contains has
taken = refl

duplicate_insert_twice_example :
    (duplicate_insert (duplicate_insert held 8 120 121).0 8 200 200).1 ≡ leb (121 + 100) 200
duplicate_insert_twice_example =
    duplicate_insert_twice held 8 60 120 121 200 200 (omega arith) (omega arith) held-IsValid taken

fits : size held ≤ k_capacity
unfolding size
fits = omega arith

idontwant_insert_fits_example :
    (c' : KeyCache ℕ) × (idontwant_insert held 8 120 ≡ some c')
    × (size c' ≤ k_capacity)
    × (contains c' 8 ≡ true)
    × IsValid (if contains held 8 then 60 else 120) c'
idontwant_insert_fits_example = idontwant_insert_fits held 8 60 120 (omega arith) held-IsValid fits

abbrev calls : List Call
calls = updating 7 3 ∷ shifting ∷ updating 8 99 ∷ shifting ∷ updating 7 5 ∷ []

get-run_example : get (run calls (init 60 1 1)) 8 ≡ run_plain (60 / 1 + 1) calls (λ _. 0) 8
get-run_example = get-run calls 60 1 1 8

abbrev window : List (List ℕ)
window = (5 ∷ []) ∷ (3 ∷ 4 ∷ []) ∷ (1 ∷ 2 ∷ []) ∷ []

get-shifts_example : H.get (1 + 2) (shifts 1 window).1 ≡ H.get 2 window
get-shifts_example = get-shifts 1 2 window (omega arith)
