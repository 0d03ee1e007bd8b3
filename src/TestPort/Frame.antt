-- ===== src/TestPort/Frame.antt =====
-- The test port of src/port/test/ipc_test_port.c leaves the core alone.
use actor_framework_cxx.Slot.{Abi}
use actor_framework_cxx.Prelude.{
  ℕ, Bool, inl, inr, Bool-cases, length, ◌==◌, ◌≡◌, refl, ap, Option, none, some, arith,
}
use actor_framework_cxx.State.{Msg, Core, World}
use actor_framework_cxx.Interface.{App, Isolated}
use actor_framework_cxx.Lifecycle.States.{KeepsLifecycle}
use actor_framework_cxx.TestPort.{
  ActorState, TestState, enqueue, enqueue_in, stop_actor, stop_state, init_state, init_in,
  actor_init, test_port,
}

enqueue_in-core :
    (o : Option ActorState) (m : Msg) (max : ℕ) (w : World TestState)
    → (enqueue_in o m max w).1.core ≡ w.core
unfolding enqueue_in
enqueue_in-core none m max w = refl
enqueue_in-core (some s) m max w = ground arith

enqueue-core : (a : ℕ) (m : Msg) (w : World TestState) → (enqueue a m w).1.core ≡ w.core
unfolding enqueue
enqueue-core a m w = enqueue_in-core _ m _ w

stop_state-core : (o : Option ActorState) (w : World TestState) → (stop_state o w).core ≡ w.core
unfolding stop_state
stop_state-core none w = refl
stop_state-core (some s) w = refl

stop_actor-core : (a : ℕ) (w : World TestState) → (stop_actor a w).core ≡ w.core
unfolding stop_actor
stop_actor-core a w = stop_state-core _ w

module _ (abi : Abi) (calloc : (count size : ℕ) → Bool) where
  init_state-core :
      (depth max : ℕ) (s : ActorState) (w : World TestState)
      → (init_state abi calloc depth max s w).1.core ≡ w.core
  unfolding init_state
  init_state-core depth max s w = ground arith

  init_in-core :
      (o : Option ActorState) (a depth max : ℕ) (w : World TestState)
      → (init_in abi calloc o a depth max w).1.core ≡ w.core
  unfolding init_in
  init_in-core (some s) a depth max w = init_state-core depth max s w
  init_in-core none a depth max w = elim (Bool-cases (length w.port == 32)) [
    | inl full ↦ rw full refl
    | inr room ↦ rw room (init_state-core depth max _ _)
  ]

  actor_init-core : (a : ℕ) (w : World TestState) → (actor_init abi calloc a w).1.core ≡ w.core
  unfolding actor_init
  actor_init-core a w = elim (Bool-cases ((w.core.actors a).queue_depth == 0)) [
    | inl z ↦ rw z refl
    | inr nz ↦ rw nz (init_in-core _ a _ _ w)
  ]

  pub test_port-Isolated : Isolated (test_port abi calloc)
  unfolding test_port
  test_port-Isolated = record {
    send = enqueue-core;
    send_isr = enqueue-core;
    schedule = λ a id ms w. refl;
  }

  pub test_port-KeepsLifecycle :
      (app : App TestState)
      → ((h a : ℕ) (w : World TestState)
          → (app.lifecycle_hook h a w).core.lifecycle ≡ w.core.lifecycle)
      → KeepsLifecycle (test_port abi calloc) app
  unfolding test_port
  test_port-KeepsLifecycle app hook = record {
    actor_init = λ a w. ap (λ (c : Core). c.lifecycle) (actor_init-core a w);
    start = λ a w. refl;
    stop_actor = λ a w. ap (λ (c : Core). c.lifecycle) (stop_actor-core a w);
    run_all = λ w. refl;
    hook = hook;
  }
