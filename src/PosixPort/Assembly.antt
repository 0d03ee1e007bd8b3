-- ===== src/PosixPort/Assembly.antt =====
-- The functions of src/port/posix/posix_ipc_port.c as a port: each works on the state of its actor,
-- and no other thread runs while one of them joins the helper of a delayed send.
use actor_framework_cxx.Slot.{Abi}
use actor_framework_cxx.State.{on_port}
use actor_framework_cxx.Prelude.{
  ℕ, ◌+◌, ◌*◌, ◌/◌, ◌%◌, Bool, ◌≡◌, refl, List, ◌++◌, u32, get_or, take, drop,
}
use actor_framework_cxx.State.{Rc, ok, World, update}
use actor_framework_cxx.Ask.Reply.{timeout_expired}
use actor_framework_cxx.Interface.{Port, App, Isolated}
use actor_framework_cxx.Lifecycle.States.{KeepsLifecycle}
use actor_framework_cxx.PosixPort.{
  PortState, Posix, send_state, init_posix, stop_posix, restart_posix, send_after_posix,
  join_helper, schedule_posix, run_all_posix,
}

-- All port states, and the detached threads that wait for the timeout of an ask.
pub record PosixWorld : Type 0 where
  pub states : Posix
  pub timers : List (ℕ × ℕ × ℕ)

-- `ipc_port_now_ms`, of the time that `clock_gettime` gives.
abbrev pub now_of : (tv_sec tv_nsec : ℕ) → ℕ
now_of s ns = u32 ((s * 1000 + ns / 1000000) % 18446744073709551616)

abbrev pub set_state : ℕ → PortState → PosixWorld → PosixWorld
set_state a p s = record s { states = update s.states a p }

abbrev pub write_back : ℕ → Rc × PortState → World PosixWorld → Rc × World PosixWorld
write_back a (rc, p) w = (rc, on_port (set_state a p) w)

-- With what `calloc`, `malloc` and `pthread_create` return for an actor, and the clock.
module _ (abi : Abi) (memory : ℕ → Bool) (create : ℕ → Rc) (clock : World PosixWorld → ℕ × ℕ) where
  unfoldable pub posix_schedule : (a id ms : ℕ) → World PosixWorld → Rc × World PosixWorld
  posix_schedule a id ms w =
      let (rc, t) = schedule_posix (memory a) (create a) a id ms w.port.timers in
      (rc, on_port (λ s. record s { timers = t }) w)

  unfoldable pub posix_port : Port PosixWorld
  unfolding posix_schedule
  posix_port = record {
    actor_init = λ a w.
        let x = w.core.actors a in
        write_back a
          (init_posix abi (memory a) (create a) a x.queue_depth x.max_payload_size
            (w.port.states a))
          w;
    start = λ a w. (ok, w);
    stop_actor = λ a w. on_port (set_state a (stop_posix (join_helper abi) (w.port.states a))) w;
    restart_actor =
        λ a w. (ok, on_port (set_state a (restart_posix (join_helper abi) (w.port.states a))) w);
    send = λ a m w. write_back a (send_state abi m (w.port.states a)) w;
    send_isr = λ a m w. write_back a (send_state abi m (w.port.states a)) w;
    send_after = λ a m ms w.
        write_back a
          (send_after_posix (join_helper abi) (create a) (w.core.actors a).max_payload_size m ms
            (w.port.states a))
          w;
    schedule_ask_timeout = posix_schedule;
    run_all =
        λ w. (ok, on_port (λ s. record s { states = run_all_posix w.core.actor_list s.states }) w);
    now_ms = λ w. now_of (clock w).0 (clock w).1;
  }

  -- `ask_timeout_thread_fn` of one of the detached threads, once its time has come.
  unfoldable pub ask_timeout_thread_fn : ℕ → World PosixWorld → World PosixWorld
  ask_timeout_thread_fn i w =
      let timeout = get_or w.port.timers i (0, 0, 0) in
      let gone = take i w.port.timers ++ drop (i + 1) w.port.timers in
      timeout_expired posix_port timeout.0 timeout.1 (on_port (λ s. record s { timers = gone }) w)

  pub posix_port-Isolated : Isolated posix_port
  unfolding posix_port
  posix_port-Isolated = record {
    send = λ a m w. refl;
    send_isr = λ a m w. refl;
    schedule = λ a id ms w. refl;
  }

  pub posix_port-KeepsLifecycle :
      (app : App PosixWorld)
      → ((h a : ℕ) (w : World PosixWorld)
          → (app.lifecycle_hook h a w).core.lifecycle ≡ w.core.lifecycle)
      → KeepsLifecycle posix_port app
  unfolding posix_port
  posix_port-KeepsLifecycle app hook = record {
    actor_init = λ a w. refl;
    start = λ a w. refl;
    stop_actor = λ a w. refl;
    run_all = λ w. refl;
    hook = hook;
  }
