-- ===== src/Lifecycle.antt =====
-- Starting, stopping and supervision of actors, in src/ipc.c.
pub mod States
pub mod Startup
use actor_framework_cxx.Prelude.{
  ℕ, Bool, true, false, ◌&&◌, Option, none, some, List, [], ◌∷◌, ◌==◌, if◌then◌else◌, replicate,
}
use actor_framework_cxx.State.{
  Rc, ok, err, einval, ealready, ebusy, is_zero, Lifecycle, stopped, running, stopping, is_stopping,
  is_stopped, is_running, Supervision, supervise_none, supervise_stop, supervise_restart,
  bad_supervision, zeroed, Config, Core, World, on_core,
}
use actor_framework_cxx.Interface.{Port, App}

abbrev pub set_lifecycle : Lifecycle → Core → Core
set_lifecycle l c = record c { lifecycle = l }

-- `_ipc_reset_for_testing`
pub reset_for_testing : Config → Core → Core
reset_for_testing cfg c = record c {
  actor_list = [];
  reg_table = [];
  sub_table = [];
  handler_table = [];
  ask_table = replicate cfg.max_inflight zeroed;
  next_ask_id = 1;
  lifecycle = stopped;
}

module _ {P : Type 0} (port : Port P) (app : App P) where
  -- `if (a->hook) a->hook(a);`
  abbrev pub call_hook : Option ℕ → ℕ → World P → World P
  call_hook none a w = w
  call_hook (some h) a w = app.lifecycle_hook h a w

  -- The stop hook, then the stop request to the port.
  unfoldable pub stop_one : ℕ → World P → World P
  stop_one a w = port.stop_actor a (call_hook (w.core.actors a).stop_hook a w)

  pub stop_list : List ℕ → World P → World P
  stop_list [] w = w
  stop_list (a ∷ t) w = stop_list t (stop_one a w)

  -- `stop_actors_through`: the loop ends behind `last`.
  pub stop_through : ℕ → List ℕ → World P → World P
  stop_through last [] w = w
  stop_through last (a ∷ t) w =
      let w' = stop_one a w in let rest = stop_through last t w' in if a == last then w' else rest

  stop_started : Option ℕ → World P → World P
  stop_started none w = w
  stop_started (some last) w = stop_through last w.core.actor_list w

  -- The start fails: the actors that have started are stopped.
  fail_start : Rc → Option ℕ → World P → Rc × World P
  unfolding stop_started
  fail_start rc last w = (rc, on_core (set_lifecycle stopping) (stop_started last w))

  -- `ipc_port_actor_init`, the start hook and `ipc_port_start` of one actor: the first error, with
  -- what counts as the last actor started then.
  unfoldable pub start_one : Option ℕ → ℕ → World P → Rc × Option ℕ × World P
  start_one last a w =
      let (rc, w1) = port.actor_init a w in
      let w2 = call_hook (w1.core.actors a).start_hook a w1 in
      let (rc', w3) = port.start a w2 in if is_zero rc then (rc', some a, w3) else (rc, last, w1)

  -- The loop of `ipc_start_all_actors`.
  pub start_list : Option ℕ → List ℕ → World P → Rc × World P
  unfolding fail_start
  start_list last [] w = (ok, w)
  start_list last (a ∷ t) w =
      let (rc, last', w') = start_one last a w in
      let rest = start_list last' t w' in if is_zero rc then rest else fail_start rc last' w'

  -- `ipc_start_all_actors`
  pub start_all_actors : World P → Rc × World P
  start_all_actors w =
      if is_stopped w.core.lifecycle
      then start_list none w.core.actor_list (on_core (set_lifecycle running) w)
      else (err (if is_stopping w.core.lifecycle then ebusy else ealready), w)

  -- `ipc_run_all`
  pub run_all : World P → Rc × World P
  run_all w =
      let (rc, w') = port.run_all w in
      if is_zero rc && is_stopping w'.core.lifecycle
      then (rc, on_core (set_lifecycle stopped) w')
      else (rc, w')

  -- `ipc_stop_all`
  pub stop_all : World P → World P
  stop_all w =
      if is_running w.core.lifecycle
      then stop_list w.core.actor_list (on_core (set_lifecycle stopping) w)
      else w

  abbrev pub call_failure_hook : Option ℕ → ℕ → Rc → World P → World P
  call_failure_hook none a reason w = w
  call_failure_hook (some h) a reason w = app.failure_hook h a reason w

  -- The stop hook, the soft restart of the port, and the start hook if that succeeds.
  unfoldable pub restart_one : ℕ → World P → Rc × World P
  restart_one a w =
      let (rc, w') = port.restart_actor a (call_hook (w.core.actors a).stop_hook a w) in
      if is_zero rc then (ok, call_hook (w'.core.actors a).start_hook a w') else (rc, w')

  -- The `switch` of `ipc_actor_fail`.
  unfoldable pub supervise : Supervision → ℕ → World P → Rc × World P
  supervise supervise_none a w = (ok, w)
  supervise supervise_stop a w = (ok, stop_one a w)
  supervise supervise_restart a w = restart_one a w
  supervise bad_supervision a w = (err einval, w)

  -- `ipc_actor_fail`
  unfoldable pub actor_fail : Option ℕ → (reason : Rc) → World P → Rc × World P
  actor_fail none reason w = (err einval, w)
  actor_fail (some a) reason w =
      let w' = call_failure_hook (w.core.actors a).failure_hook a reason w in
      supervise (w'.core.actors a).supervision a w'
