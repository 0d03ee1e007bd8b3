-- ===== src/TestPort/Restart.antt =====
-- `ipc_actor_fail` of src/ipc.c with the restart strategy, on the port of
-- src/port/test/ipc_test_port.c.
use actor_framework_cxx.Slot.{Abi, zero_msg}
use actor_framework_cxx.State.{on_port}
use actor_framework_cxx.Prelude.{
  ℕ, ◌≡◌, refl, ◌∙◌, Bool, true, Option, none, some, [], ◌==◌, if◌then◌else◌, arith,
}
use actor_framework_cxx.State.{Rc, ok, supervise_restart, World}
use actor_framework_cxx.Interface.{App}
use actor_framework_cxx.Lifecycle.{call_hook, call_failure_hook, restart_one, supervise, actor_fail}
use actor_framework_cxx.Ring.{held-zero}
use actor_framework_cxx.TestPort.{
  ActorState, TestState, state_for, put, restart_state, restart_actor, test_port,
}
use actor_framework_cxx.TestPort.Mailbox.{IsValid, contents, state_for-actor, state_for-put}
use actor_framework_cxx.TestPort.Invariant.{emptied}

abbrev pub empty : ActorState → ActorState
empty s = record s { head = 0; tail = 0; count = 0 }

restart_actor-started :
    (a : ℕ) (s : ActorState) (w : World TestState)
    → state_for a w.port ≡ some s
    → s.started ≡ true
    → restart_actor a w ≡ (ok, on_port (put (empty s)) w)
unfolding restart_actor restart_state
restart_actor-started a s w e u = rw e (ground (arith, u))

-- Hooks that leave the port and the actors alone.
pub record QuietHooks (app : App TestState) : Type 0 where
  pub hook_port : (h a : ℕ) (w : World TestState) → (app.lifecycle_hook h a w).port ≡ w.port
  pub failure_port :
      (h a : ℕ) (rc : Rc) (w : World TestState) → (app.failure_hook h a rc w).port ≡ w.port
  pub failure_actors :
      (h a : ℕ) (rc : Rc) (w : World TestState)
      → (app.failure_hook h a rc w).core.actors ≡ w.core.actors

module _ (abi : Abi) (calloc : (count size : ℕ) → Bool) (app : App TestState)
    (quiet : QuietHooks app) where
  call_hook-port :
      (h : Option ℕ) (a : ℕ) (w : World TestState)
      → (call_hook (test_port abi calloc) app h a w).port ≡ w.port
  call_hook-port none a w = refl
  call_hook-port (some h) a w = quiet.hook_port h a w

  restart_one-empty :
      (a : ℕ) (s : ActorState) (w : World TestState)
      → state_for a w.port ≡ some s
      → s.started ≡ true
      → let r = restart_one (test_port abi calloc) app a w in
        (r.0 ≡ ok) × (r.1.port ≡ put (empty s) w.port)
  unfolding restart_one test_port
  restart_one-empty a s w e u =
      let w1 = call_hook (test_port abi calloc) app (w.core.actors a).stop_hook a w in
      let q = call_hook-port (w.core.actors a).stop_hook a w in
      rw (restart_actor-started a s w1 (rw q e) u)
        (refl, call_hook-port _ a (on_port (put (empty s)) w1) ∙ rw q refl)

  actor_fail-empty :
      (o : Option ℕ) (a : ℕ) (s : ActorState) (rc : Rc) (w : World TestState)
      → (w.core.actors a).supervision ≡ supervise_restart
      → state_for a w.port ≡ some s
      → s.started ≡ true
      → let w' = call_failure_hook (test_port abi calloc) app o a rc w in
        let r = supervise (test_port abi calloc) app (w'.core.actors a).supervision a w' in
        (r.0 ≡ ok) × (r.1.port ≡ put (empty s) w.port)
  unfolding supervise
  actor_fail-empty none a s rc w k e u = rw k (restart_one-empty a s w e u)
  actor_fail-empty (some h) a s rc w k e u =
      let w' = app.failure_hook h a rc w in
      let q = quiet.failure_port h a rc w in
      let z = restart_one-empty a s w' (rw q e) u in
      rw (quiet.failure_actors h a rc w, k) (z.0, z.1 ∙ rw q refl)

  -- An actor that fails under the restart strategy loses what waits in its mailbox, which is valid
  -- and started as before; the call returns 0 and no other mailbox changes. The mailbox is valid and
  -- started, and the hooks leave the port and the actors alone.
  pub restart_empties :
      (a : ℕ) (s : ActorState) (rc : Rc) (w : World TestState)
      → (w.core.actors a).supervision ≡ supervise_restart
      → state_for a w.port ≡ some s
      → s.started ≡ true
      → IsValid s
      → let r = actor_fail (test_port abi calloc) app (some a) rc w in
        (r.0 ≡ ok)
        × (s' : ActorState) × IsValid s'
        × (s'.started ≡ true)
        × (contents s' ≡ [])
        × ((b : ℕ) → state_for b r.1.port ≡ (if a == b then some s' else state_for b w.port))
  unfolding actor_fail
  restart_empties a s rc w k e u v =
      let (z, q) = actor_fail-empty (w.core.actors a).failure_hook a s rc w k e u in
      (
        z,
        empty s,
        emptied s v,
        u,
        held-zero zero_msg s.queue s.capacity 0,
        λ b. rw q (state_for-put a b w.port s (empty s) e (state_for-actor a w.port s e)),
      )
