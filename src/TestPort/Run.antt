-- ===== src/TestPort/Run.antt =====
-- `ipc_test_run_until_idle` of src/port/test/ipc_test_port.c: it hands out what waits in the
-- mailboxes until none has anything, over the `handler` of the actors.
pub mod Idle
pub mod Valid
use mathlib.Core.Option
use actor_framework_cxx.State.{on_port}
use actor_framework_cxx.Prelude.{
  ℕ, zero, suc, ◌+◌, Bool, true, false, ◌||◌, not, Option, none, some, List, [], ◌∷◌, ◌==◌,
  if◌then◌else◌,
}
use actor_framework_cxx.State.{Msg, World}
use actor_framework_cxx.TestPort.{ActorState, TestState, state_for, put, taken}

abbrev pub add_left : ℕ → ℕ × World TestState → ℕ × World TestState
add_left n (k, w) = (n + k, w)

module _ (handler : ℕ → Msg → World TestState → World TestState) where
  unfoldable pub turn_in : ℕ → Option ActorState → World TestState → Bool × World TestState
  turn_in a none w = (false, w)
  turn_in a (some s) w =
      if not s.started || s.count == 0
      then (false, w)
      else (true, handler a ((taken s).0) (on_port (put ((taken s).1)) w))

  -- One actor's turn in the loop: whether a message was dispatched.
  unfoldable pub turn : ℕ → World TestState → Bool × World TestState
  turn a w = turn_in a (state_for a w.port) w

  -- The inner loop, with the number of messages dispatched.
  unfoldable pub pass : List ℕ → World TestState → ℕ × World TestState
  pass [] w = (0, w)
  pass (a ∷ l) w =
      let (hit, w1) = turn a w in let (n, w2) = pass l w1 in (if hit then suc n else n, w2)

  -- The outer loop; `none` where the fuel ends first.
  unfoldable pub run_until_idle : (fuel : ℕ) → World TestState → Option (ℕ × World TestState)
  run_until_idle zero w = none
  run_until_idle (suc f) w =
      let (n, w1) = pass w.core.actor_list w in
      let rest = run_until_idle f w1 in
      if n == 0 then some (0, w1) else Option.map (add_left n) rest
