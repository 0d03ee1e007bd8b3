-- ===== src/Lifecycle/States.antt =====
-- The lifecycle of src/ipc.c as a state machine: stopped, running, stopping.
use actor_framework_cxx.Prelude.{
  ℕ, ◌≡◌, ◌≢◌, refl, ◌∙◌, Bool-cases, inl, inr, ◌⊎◌, false, Option, none, some, List, [], ◌∷◌,
  arith,
}
use actor_framework_cxx.State.{
  Rc, ok, err, ealready, ebusy, is_zero, Lifecycle, stopped, running, stopping, World, on_core,
}
use actor_framework_cxx.Interface.{Port, App}
use actor_framework_cxx.Lifecycle.{
  set_lifecycle, stop_one, stop_list, call_hook, fail_start, start_one, start_list,
  start_all_actors, run_all, stop_all,
}

-- What the port and the application's hooks do not touch: the lifecycle.
pub record KeepsLifecycle {P : Type 0} (port : Port P) (app : App P) : Type 0 where
  pub actor_init : (a : ℕ) (w : World P) → (port.actor_init a w).1.core.lifecycle ≡ w.core.lifecycle
  pub start : (a : ℕ) (w : World P) → (port.start a w).1.core.lifecycle ≡ w.core.lifecycle
  pub stop_actor : (a : ℕ) (w : World P) → (port.stop_actor a w).core.lifecycle ≡ w.core.lifecycle
  pub run_all : (w : World P) → (port.run_all w).1.core.lifecycle ≡ w.core.lifecycle
  pub hook : (h a : ℕ) (w : World P) → (app.lifecycle_hook h a w).core.lifecycle ≡ w.core.lifecycle

module _ {P : Type 0} (port : Port P) (app : App P) (keeps : KeepsLifecycle port app) where
  call_hook-lifecycle :
      (h : Option ℕ) (a : ℕ) (w : World P)
      → (call_hook port app h a w).core.lifecycle ≡ w.core.lifecycle
  call_hook-lifecycle none a w = refl
  call_hook-lifecycle (some h) a w = keeps.hook h a w

  stop_one-lifecycle :
      (a : ℕ) (w : World P) → (stop_one port app a w).core.lifecycle ≡ w.core.lifecycle
  unfolding stop_one
  stop_one-lifecycle a w =
      keeps.stop_actor a (call_hook port app (w.core.actors a).stop_hook a w)
      ∙ call_hook-lifecycle (w.core.actors a).stop_hook a w

  stop_list-lifecycle :
      (t : List ℕ) (w : World P) → (stop_list port app t w).core.lifecycle ≡ w.core.lifecycle
  unfolding stop_list
  stop_list-lifecycle [] w = refl
  stop_list-lifecycle (a ∷ t) w =
      stop_list-lifecycle t (stop_one port app a w) ∙ stop_one-lifecycle a w

  start_one-lifecycle :
      (last : Option ℕ) (a : ℕ) (w : World P)
      → (start_one port app last a w).2.core.lifecycle ≡ w.core.lifecycle
  unfolding start_one
  start_one-lifecycle last a w =
      let (rc, w1) = port.actor_init a w in
      let w2 = call_hook port app (w1.core.actors a).start_hook a w1 in
      elim (Bool-cases (is_zero rc)) [
        | inl z ↦ rw z (
            keeps.start a w2
            ∙ call_hook-lifecycle (w1.core.actors a).start_hook a w1
            ∙ keeps.actor_init a w)
        | inr z ↦ rw z (keeps.actor_init a w)
      ]

  start_list-outcome :
      (last : Option ℕ) (t : List ℕ) (w : World P)
      → let (rc, w') = start_list port app last t w in
        ((rc ≡ ok) × (w'.core.lifecycle ≡ w.core.lifecycle))
        ⊎ ((rc ≢ ok) × (w'.core.lifecycle ≡ stopping))
  unfolding start_list fail_start
  start_list-outcome last [] w = inl (refl, refl)
  start_list-outcome last (a ∷ t) w =
      let (rc, l, w1) = start_one port app last a w in
      elim (Bool-cases (is_zero rc)) [
        | inl z ↦ rw z (rw (start_one-lifecycle last a w) at (start_list-outcome l t w1))
        | inr z ↦ rw z (inr (nonzero rc z, refl))
      ]
    where
      nonzero : (rc : Rc) → is_zero rc ≡ false → rc ≢ ok
      nonzero rc h e = ground arith

  -- A start while stopped either returns 0 and leaves the framework running, or returns an error and
  -- leaves it stopping, so that it can be joined. Started while stopping, it is refused with -EBUSY,
  -- and while running with -EALREADY, and nothing changes. The port and the hooks leave the
  -- lifecycle alone.
  pub start_all_actors-lifecycle :
      (w : World P)
      → let (rc, w') = start_all_actors port app w in
        ((w.core.lifecycle ≡ stopped)
          × (((rc ≡ ok) × (w'.core.lifecycle ≡ running))
              ⊎ ((rc ≢ ok) × (w'.core.lifecycle ≡ stopping))))
        ⊎ ((w.core.lifecycle ≡ stopping) × (rc ≡ err ebusy) × (w' ≡ w))
        ⊎ ((w.core.lifecycle ≡ running) × (rc ≡ err ealready) × (w' ≡ w))
  unfolding start_all_actors
  start_all_actors-lifecycle w = elim (lifecycle-cases w.core.lifecycle) [
    | inl e ↦
        rw e (
          inl (refl, start_list-outcome none w.core.actor_list (on_core (set_lifecycle running) w)))
    | inr (inl e) ↦ ground arith
    | inr (inr e) ↦ ground arith
  ]
    where
      lifecycle-cases : (l : Lifecycle) → (l ≡ stopped) ⊎ (l ≡ stopping) ⊎ (l ≡ running)
      lifecycle-cases stopped = inl refl
      lifecycle-cases stopping = inr (inl refl)
      lifecycle-cases running = inr (inr refl)

  -- A stop and a join that succeeds bring a running framework back to stopped, from where it can be
  -- started again; before the join a start is refused with -EBUSY. The port and the hooks leave the
  -- lifecycle alone.
  pub stop_then_join :
      (w : World P)
      → w.core.lifecycle ≡ running
      → (port.run_all (stop_all port app w)).0 ≡ ok
      → ((start_all_actors port app (stop_all port app w)).0 ≡ err ebusy)
        × ((run_all port app (stop_all port app w)).0 ≡ ok)
        × ((run_all port app (stop_all port app w)).1.core.lifecycle ≡ stopped)
  unfolding run_all start_all_actors
  stop_then_join w r j =
      let u = stop_all port app w in
      let halting : u.core.lifecycle ≡ stopping = after_stop r in
      (rw halting, ground (arith, keeps.run_all u), ground (arith, keeps.run_all u))
    where
      after_stop : w.core.lifecycle ≡ running → (stop_all port app w).core.lifecycle ≡ stopping
      after_stop e = unfold stop_all in rw e (stop_list-lifecycle _ _)
