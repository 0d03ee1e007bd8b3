-- ===== src/Tests/Posix.antt =====
-- The properties of src/port/posix/posix_ipc_port.c, at states of one actor.
use actor_framework_cxx.Slot.{stored, zero_msg}
use actor_framework_cxx.Prelude.{
  ℕ, ◌+◌, length, ◌++◌, ◌≡◌, refl, ◌⊎◌, true, false, some, [], ◌∷◌, arith,
}
use actor_framework_cxx.State.{ok, err, enomem, emsgsize, Msg}
use actor_framework_cxx.PosixPort.{
  waiting as asleep, asleep as asleep_at, finished, PortState, send_state, inner, outer, goes_on,
  handles, thread_step, stop_posix, restart_posix, too_big, absent, init_posix, join_helper,
  send_after_posix, delay_state, cancel_begun, posix_pushed, wake, send_kept, cancel_delayed,
}
use actor_framework_cxx.PosixPort.Mailbox.{RingValid, queue_of, send_state_lem, thread_step-inner}
use actor_framework_cxx.PosixPort.Draining.{thread_run, thread_ends}
use actor_framework_cxx.PosixPort.Delay.{stops_helper}
use actor_framework_cxx.PosixPort.Threads.{
  is_over, returns, wakes, sends_kept, receives, JoinsBy, Reachable, inits, delays,
}
use actor_framework_cxx.Tests.{lp64, request_msg, reply_msg}

-- A POSIX actor with one waiting message, and a delayed send that is not due yet.
abbrev posix_state : PortState
posix_state = record {
  owner = some 1;
  ring = zero_msg ∷ request_msg ∷ [];
  slot_size = 48;
  capacity = 2;
  head = 1;
  tail = 0;
  count = 1;
  running = true;
  joined = false;
  delay_active = true;
  delay_cancel = false;
  delay_msg = reply_msg;
  delay_ms = 50;
  helper = asleep;
}

posix_state-RingValid : RingValid posix_state
posix_state-RingValid = record {
  positive = omega arith;
  complete = refl;
  head_bounded = omega arith;
  count_bounded = omega arith;
  tail_next = refl;
}

send_state_lem_example :
    let (rc, q) = send_state lp64 request_msg posix_state in
    RingValid q
    × (((rc ≡ ok)
          × (too_big lp64 posix_state request_msg ≡ false)
          × (queue_of q ≡ queue_of posix_state ++ (stored request_msg ∷ [])))
        ⊎ ((rc ≡ err enomem) × (length (queue_of posix_state) ≡ 2) × (q ≡ posix_state))
        ⊎ ((rc ≡ err emsgsize) × (too_big lp64 posix_state request_msg ≡ true) × (q ≡ posix_state)))
send_state_lem_example = send_state_lem lp64 request_msg posix_state posix_state-RingValid

thread_step-inner_example :
    let (act, t, q) = thread_step inner posix_state in
    RingValid q
    × (((m : Msg) × (act ≡ handles m) × (t ≡ inner) × (queue_of posix_state ≡ m ∷ queue_of q))
        ⊎ ((act ≡ goes_on) × (t ≡ outer) × (queue_of posix_state ≡ []) × (q ≡ posix_state)))
thread_step-inner_example = thread_step-inner posix_state posix_state-RingValid

-- The actor starts, and a send to it is delayed.
abbrev delayed_state : PortState
delayed_state =
    (send_after_posix (join_helper lp64) ok 2 reply_msg 50
      (init_posix lp64 true ok 1 2 2 (record posix_state { helper = absent })).1).1

delayed_state-Reachable : Reachable lp64 delayed_state
unfolding init_posix join_helper send_kept wake cancel_begun
delayed_state-Reachable =
    delays (join_helper lp64) ok 2 50 reply_msg _ (returns _ refl)
      (inits true ok 1 2 2 (record posix_state { helper = absent }) refl)

-- While the helper is joined, a message arrives.
abbrev joined : PortState → PortState
joined p =
    let q = (send_state lp64 request_msg p).1 in
    let u = wake q.helper q in send_kept lp64 u.helper u

joined-JoinsBy : JoinsBy lp64 joined delayed_state
unfolding init_posix join_helper send_after_posix delay_state cancel_begun send_state posix_pushed
    wake send_kept cancel_delayed actor_framework_cxx.Slot.slot_size_of
joined-JoinsBy = receives request_msg _ _ (wakes _ _ (sends_kept _ _ (returns _ refl)))

stops_helper_example :
    (is_over (stop_posix joined delayed_state).helper ≡ true)
    × ((stop_posix joined delayed_state).running ≡ false)
    × ((stop_posix joined delayed_state).delay_active ≡ false)
    × (is_over (restart_posix joined delayed_state).helper ≡ true)
    × ((restart_posix joined delayed_state).count ≡ 0)
    × ((restart_posix joined delayed_state).delay_active ≡ false)
stops_helper_example = stops_helper lp64 joined delayed_state delayed_state-Reachable joined-JoinsBy

-- The same actor, stopped.
abbrev stopped_state : PortState
stopped_state = record posix_state { running = false }

stopped_state-RingValid : RingValid stopped_state
stopped_state-RingValid = record {
  positive = omega arith;
  complete = refl;
  head_bounded = omega arith;
  count_bounded = omega arith;
  tail_next = refl;
}

thread_ends_example :
    ((thread_run 3 inner stopped_state).0 ≡ queue_of stopped_state)
    × ((thread_run 3 inner stopped_state).1 ≡ finished)
    × ((thread_run 3 inner stopped_state).2.count ≡ 0)
    × ((thread_run 4 asleep_at stopped_state).0 ≡ queue_of stopped_state)
    × ((thread_run 4 asleep_at stopped_state).1 ≡ finished)
    × ((thread_run 4 asleep_at stopped_state).2.count ≡ 0)
    × ((n : ℕ) → thread_run (n + 1) outer stopped_state ≡ ([], finished, stopped_state))
thread_ends_example = thread_ends stopped_state stopped_state-RingValid refl
