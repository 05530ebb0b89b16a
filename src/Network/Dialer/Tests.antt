-- ===== src/Network/Dialer/Tests.antt =====
-- A dial of three addresses: no transport for 3, an error from 4, a connection from 5. A second dial of the peer
-- comes meanwhile.
use leanp2p.Prelude.{ℕ, ◌≡◌, refl, Bool, not, ◌==◌, [], ◌∷◌, some, if◌then◌else◌}
use leanp2p.Prelude.Eq.{nat_eq}
use leanp2p.Prelude.Maps.{lookup, has, erase, emplace, modify, insert, member, keys}
use leanp2p.Network.Manager.{fresh, get_best_connection_for_peer}
use leanp2p.Network.Dialer.{
  another_dial_in_progress, connected, failed, Attempt, reached, refused, Dialer, set_ctx,
  resume_found, rotate_queue, rotate, resume, dial_new, dial, add_new, complete_dial,
  address_failed,
}
use leanp2p.Network.Dialer.Alone.{drive, served, first_reached, last_refused, answer, drive-dial}
use leanp2p.Network.Dialer.System.{
  System, turn, IsConsistent, start, calling, resuming, Interleaved-IsConsistent,
}

abbrev can_dial : ℕ → Bool
can_dial addr = not (addr == 3)

abbrev remote : ℕ → ℕ
remote conn = 7

abbrev attempt : ℕ → Attempt
attempt addr = if addr == 5 then reached 50 else refused addr

abbrev idle : Dialer
idle = record { cmgr = fresh; addr_repo = []; dialing_peers = [] }

abbrev empty : System
empty = record { dialer = idle; waits = []; answers = [] }

abbrev called : System
called = turn empty 7 (dial can_dial remote idle 7 (3 ∷ 4 ∷ []))

abbrev called_again : System
called_again = turn called 7 (dial can_dial remote called.dialer 7 (4 ∷ 5 ∷ []))

abbrev resumed : System
resumed =
    turn (record called_again { waits = erase 7 called_again.waits }) 7
      (resume can_dial remote called_again.dialer 7 4 (attempt 4))

resumed_answers : resumed.answers ≡ (7, failed another_dial_in_progress) ∷ []
unfolding turn resume dial get_best_connection_for_peer lookup emplace has modify erase add_new
    dial_new rotate rotate_queue resume_found complete_dial set_ctx address_failed member insert
resumed_answers = refl

resumed_waits : resumed.waits ≡ (7, 5) ∷ []
unfolding turn resume dial get_best_connection_for_peer lookup emplace has modify erase add_new
    dial_new rotate rotate_queue resume_found complete_dial set_ctx address_failed member insert
resumed_waits = refl

drive-dial_example :
    ((drive can_dial remote attempt 3 7 (dial can_dial remote idle 7 (3 ∷ 4 ∷ 5 ∷ []))).1
      ≡ some (connected 50))
    × (keys
          (drive can_dial remote attempt 3 7
            (dial can_dial remote idle 7 (3 ∷ 4 ∷ 5 ∷ []))).0.dialing_peers
        ≡ [])
unfolding get_best_connection_for_peer lookup served first_reached last_refused answer
drive-dial_example = drive-dial can_dial remote attempt 7 idle 3 (4 ∷ 5 ∷ []) refl refl

Interleaved-IsConsistent_example : IsConsistent resumed
unfolding turn resume dial get_best_connection_for_peer lookup emplace has modify erase add_new
    dial_new rotate rotate_queue resume_found complete_dial set_ctx address_failed member insert
Interleaved-IsConsistent_example = Interleaved-IsConsistent can_dial remote (
    resuming called_again 7 4 (attempt 4) refl
      (calling called 7 (4 ∷ 5 ∷ []) (calling empty 7 (3 ∷ 4 ∷ []) (start idle refl))))
