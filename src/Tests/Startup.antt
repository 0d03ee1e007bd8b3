-- ===== src/Tests/Startup.antt =====
-- The properties of the start and the stop of actors in src/ipc.c, at states of the system of
-- Tests.
use actor_framework_cxx.Slot.{slot_size_of}
use actor_framework_cxx.Prelude.{◌≡◌, ◌≢◌, refl, ◌⊎◌, none, some, [], ◌∷◌, ◌==◌, if◌then◌else◌}
use actor_framework_cxx.State.{
  ok, err, ealready, eagain, ebusy, stopped, running, stopping, World, on_core,
}
use actor_framework_cxx.Interface.{Port}
use actor_framework_cxx.TestPort.{TestState, test_port}
use actor_framework_cxx.TestPort.Frame.{test_port-KeepsLifecycle}
use actor_framework_cxx.Lifecycle.{set_lifecycle, start_all_actors, stop_list, start_one}
use actor_framework_cxx.Lifecycle.States.{start_all_actors-lifecycle}
use actor_framework_cxx.Lifecycle.Startup.{Starts, thread_failure_rolls_back}
use actor_framework_cxx.TestPort.{state_for, put, init_state, init_in, actor_init}
use actor_framework_cxx.Tests.{lp64, memory, port, app, running_core}

-- Both actors are registered and stopped, and the port knows neither.
abbrev stopped_world : World TestState
stopped_world = record { core = record running_core { lifecycle = stopped }; port = [] }

start_all_actors-lifecycle_example :
    let (rc, w') = start_all_actors port app stopped_world in
    ((stopped ≡ stopped)
      × (((rc ≡ ok) × (w'.core.lifecycle ≡ running))
          ⊎ ((rc ≢ ok) × (w'.core.lifecycle ≡ stopping))))
    ⊎ ((stopped ≡ stopping) × (rc ≡ err ebusy) × (w' ≡ stopped_world))
    ⊎ ((stopped ≡ running) × (rc ≡ err ealready) × (w' ≡ stopped_world))
start_all_actors-lifecycle_example =
    start_all_actors-lifecycle port app (test_port-KeepsLifecycle lp64 memory app (λ h a w. refl))
      stopped_world

-- A port on which the thread of actor 1 does not start.
abbrev threadless : Port TestState
threadless = record port { start = λ a w. (if a == 1 then err eagain else ok, w) }

abbrev first_started : World TestState
first_started = (start_one threadless app none 0 (on_core (set_lifecycle running) stopped_world)).2

abbrev second_failed : World TestState
second_failed = (start_one threadless app (some 0) 1 first_started).2

thread_failure_rolls_back_example : start_all_actors threadless app stopped_world ≡ (
  err eagain,
  on_core (set_lifecycle stopping) (stop_list threadless app (0 ∷ 1 ∷ []) second_failed),
)
unfolding Starts start_one test_port actor_init init_in init_state state_for put slot_size_of
thread_failure_rolls_back_example =
    thread_failure_rolls_back threadless app stopped_world first_started second_failed (0 ∷ []) [] 1
      (some 0) (err eagain) refl refl refl (refl, tt) (refl, (refl, refl)) refl refl
