-- ===== src/PosixPort/Threads.antt =====
-- The threads that share the delayed send of an actor in src/port/posix/posix_ipc_port.c: callers, the
-- thread of the actor, and the helper. A second call that cancels a helper while the first one joins it is left
-- out: it would join the same thread again, which POSIX does not define.
use actor_framework_cxx.Prelude.{ℕ, ◌<◌, ◌≡◌, true, false, Bool}
use actor_framework_cxx.State.{Rc, Msg}
use actor_framework_cxx.Slot.{Abi}
use actor_framework_cxx.PosixPort.{
  Helper, absent, waiting, sending, ended, PortState, send_state, posix_taken, wake, send_kept,
  cancel_begun, stop_posix, restart_posix, send_after_posix, init_posix,
}

-- No helper thread runs.
abbrev pub is_over : Helper → Bool
is_over absent = true
is_over waiting = false
is_over (sending m) = false
is_over ended = true

module _ (abi : Abi) where
  -- What happens while a caller joins the helper: the helper goes on, others send to the actor, and its
  -- thread takes messages. `pthread_join` returns when the helper has ended.
  pub data Joins : PortState → PortState → Type 0 where
    returns : (p : PortState) → is_over p.helper ≡ true → Joins p p
    wakes : (p q : PortState) → Joins (wake p.helper p) q → Joins p q
    sends_kept : (p q : PortState) → Joins (send_kept abi p.helper p) q → Joins p q
    receives : (m : Msg) (p q : PortState) → Joins (send_state abi m p).1 q → Joins p q
    takes : (p q : PortState) → 0 < p.count → Joins (posix_taken p).1 q → Joins p q

  -- Joining the helper of a state, with `joined` for what happens meanwhile.
  abbrev pub JoinsBy : (joined : PortState → PortState) → PortState → Type 0
  JoinsBy joined p = Joins (cancel_begun p) (joined (cancel_begun p))

  -- The states that an actor's port state can have, from its start on. Before, no helper ran.
  pub data Reachable : PortState → Type 0 where
    inits :
        (memory : Bool) (create : Rc) (a depth max : ℕ) (p : PortState)
        → is_over p.helper ≡ true
        → Reachable (init_posix abi memory create a depth max p).1
    wakes : (p : PortState) → Reachable p → Reachable (wake p.helper p)
    sends_kept : (p : PortState) → Reachable p → Reachable (send_kept abi p.helper p)
    receives : (m : Msg) (p : PortState) → Reachable p → Reachable (send_state abi m p).1
    takes : (p : PortState) → 0 < p.count → Reachable p → Reachable (posix_taken p).1
    delays :
        (joined : PortState → PortState) (create : Rc) (max ms : ℕ) (m : Msg) (p : PortState)
        → JoinsBy joined p
        → Reachable p
        → Reachable (send_after_posix joined create max m ms p).1
    stops :
        (joined : PortState → PortState) (p : PortState)
        → JoinsBy joined p
        → Reachable p
        → Reachable (stop_posix joined p)
    restarts :
        (joined : PortState → PortState) (p : PortState)
        → JoinsBy joined p
        → Reachable p
        → Reachable (restart_posix joined p)
