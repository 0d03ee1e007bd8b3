-- ===== src/Tests/Locks.antt =====
-- Two threads at the ask lock of src/ipc.c: thread 0 asks and thread 1 cancels. Thread 0 gets the lock,
-- thread 1 spins until thread 0 releases it, and then runs its part.
use actor_framework_cxx.Prelude.{ℕ, ◌≡◌, refl, false, List, [], ◌∷◌, arith}
use actor_framework_cxx.State.{Core}
use actor_framework_cxx.Ask.{new_slot}
use actor_framework_cxx.Ask.Regions.{AsksValid}
use actor_framework_cxx.Interleaving.{Event, Schedule}
use actor_framework_cxx.AskLock.{
  Part, Machine, holding, lock_asks, unlock_asks, advance, turn, entered_at, unlocked, Run, begin,
  step,
}
use actor_framework_cxx.AskLock.Atomic.{mutual_exclusion}
use actor_framework_cxx.AskLock.Progress.{turns, spinner_enters}
use actor_framework_cxx.AskLock.Parts.{
  Locals, reserve_part, cancel_part, asks, cancels, part, parts, locked_all,
}
use actor_framework_cxx.AskLock.Parts.Locked.{lock-Schedule}
use actor_framework_cxx.Tests.{cfg, running_core, idle_valid}

abbrev ask_part : Part Locals Core
ask_part = reserve_part cfg (λ id. new_slot id 11 0 0 7)

abbrev stop_part : Part Locals Core
stop_part = cancel_part 0 1

-- Both threads are in the loop of `lock_asks`, and thread 0 has taken the lock.
abbrev contended : Machine Locals Core
contended =
    turn 1 stop_part (turn 0 ask_part (turn 1 stop_part (turn 0 ask_part (unlocked running_core))))

contended-Run : Run running_core (ask_part ∷ []) contended
unfolding turn advance lock_asks entered_at
contended-Run = step (step (step (step begin 0 ask_part) 1 stop_part) 0 ask_part) 1 stop_part

mutual_exclusion_example : ◌≡◌ {A = ℕ} 0 0
unfolding turn advance lock_asks
mutual_exclusion_example = mutual_exclusion contended-Run 0 0 refl refl

spinner_enters_example :
    (h count : ℕ) × ((turns count h stop_part contended).flag ≡ false)
    × ((turn 1 stop_part (turns count h stop_part contended)).points 1
        ≡ holding stop_part.locals stop_part.code)
unfolding turn advance lock_asks
spinner_enters_example = spinner_enters stop_part contended-Run 1 stop_part refl

-- Thread 0 releases the lock, and thread 1 runs its part and releases it too.
abbrev last : Machine Locals Core
last = turns 5 1 stop_part (turns 4 0 ask_part contended)

last-Run : Run running_core (stop_part ∷ ask_part ∷ []) last
unfolding turn turns advance lock_asks unlock_asks entered_at
last-Run =
    step
      (step
        (step
          (step
            (step
              (step (step (step (step contended-Run 0 ask_part) 0 ask_part) 0 ask_part) 0 ask_part)
              1 stop_part)
            1 stop_part)
          1 stop_part)
        1 stop_part)
      1 stop_part

lock-Schedule_example :
    (last.guarded ≡ locked_all cfg (cancels 0 1 ∷ asks 11 0 0 7 ∷ []) running_core)
    × (es : List Event) × Schedule cfg running_core es last.guarded
    × AsksValid cfg last.guarded
unfolding turn turns advance lock_asks unlock_asks parts part
lock-Schedule_example =
    lock-Schedule cfg (omega arith) (cancels 0 1 ∷ asks 11 0 0 7 ∷ []) last-Run idle_valid refl
