-- ===== src/AskLock.antt =====
-- The ask lock of src/ipc.c: `lock_asks` spins on an atomic flag and `unlock_asks` clears it. Threads
-- run the parts between the two one instruction at a time, and any of them may run next.
pub mod Invariant
pub mod Atomic
pub mod Progress
pub mod Parts
use actor_framework_cxx.Prelude.{ℕ, Bool, true, false, List, [], ◌∷◌}
use actor_framework_cxx.State.{update}

-- One instruction under the lock, on the locals of its thread and on what the lock guards.
abbrev pub Instruction : (L S : Type 0) → Type 0
Instruction L S = L × S → L × S

-- What a thread runs between `lock_asks` and `unlock_asks`, with its locals at the start.
pub record Part (L S : Type 0) : Type 0 where
  pub locals : L
  pub code : List (Instruction L S)

pub execute : {L S : Type 0} → List (Instruction L S) → L × S → L × S
execute [] p = p
execute (f ∷ code) p = execute code (f p)

-- Where a thread is: it does not use the lock, it is in the loop of `lock_asks`, or it has the lock
-- and the rest of its instructions to run.
pub data Point (L S : Type 0) : Type 0 where
  outside : Point L S
  spinning : Part L S → Point L S
  holding : L → List (Instruction L S) → Point L S

-- `ask_lock`, what it guards, and the threads.
pub record Machine (L S : Type 0) : Type 0 where
  pub flag : Bool
  pub guarded : S
  pub points : ℕ → Point L S

-- `lock_asks`: one `atomic_flag_test_and_set`, which sets the flag and tests what it was.
unfoldable pub lock_asks : {L S : Type 0} → Part L S → Bool → Point L S × Bool
lock_asks part true = (spinning part, true)
lock_asks part false = (holding part.locals part.code, true)

-- `unlock_asks`
unfoldable pub unlock_asks : {L S : Type 0} → Bool → Point L S × Bool
unlock_asks flag = (outside, false)

-- One step of a thread at the given point; from outside, it goes to `lock_asks` for `wanted`.
unfoldable pub advance :
    {L S : Type 0} → (wanted : Part L S) → Point L S → Bool → S → (Point L S × Bool) × S
unfolding lock_asks unlock_asks
advance wanted outside flag s = ((spinning wanted, flag), s)
advance wanted (spinning part) flag s = (lock_asks part flag, s)
advance wanted (holding l []) flag s = (unlock_asks flag, s)
advance wanted (holding l (f ∷ code)) flag s = let r = f (l, s) in ((holding r.0 code, flag), r.1)

abbrev pub place :
    {L S : Type 0} → (thread : ℕ) → (Point L S × Bool) × S → Machine L S → Machine L S
place i r y = record { flag = r.0.1; guarded = r.1; points = update y.points i r.0.0 }

unfoldable pub turn :
    {L S : Type 0} → (thread : ℕ) → (wanted : Part L S) → Machine L S → Machine L S
unfolding advance
turn i wanted y = place i (advance wanted (y.points i) y.flag y.guarded) y

-- The part that a step takes the lock for, if any, before the parts that took it earlier.
unfoldable pub entered_at : {L S : Type 0} → Point L S → Bool → List (Part L S) → List (Part L S)
entered_at (spinning part) false parts = part ∷ parts
entered_at (spinning part) true parts = parts
entered_at outside flag parts = parts
entered_at (holding l code) flag parts = parts

-- The machine where no thread uses the lock, `ATOMIC_FLAG_INIT`.
abbrev pub unlocked : {L S : Type 0} → S → Machine L S
unlocked s = record { flag = false; guarded = s; points = λ i. outside }

-- The steps of any threads in any order, with the parts that took the lock, the last first.
pub data Run {L S : Type 0} (s : S) : List (Part L S) → Machine L S → Type 0 where
  begin : Run s [] (unlocked s)
  step :
      {parts : List (Part L S)} {y : Machine L S}
      → Run s parts y
      → (thread : ℕ) (wanted : Part L S)
      → Run s (entered_at (y.points thread) y.flag parts) (turn thread wanted y)

-- Parts run one after the other, each as a whole.
pub effect : {L S : Type 0} → List (Part L S) → S → S
unfolding execute
effect [] s = s
effect (part ∷ parts) s = (execute part.code (part.locals, effect parts s)).1

abbrev pub is_holding : {L S : Type 0} → Point L S → Bool
is_holding outside = false
is_holding (spinning part) = false
is_holding (holding l code) = true
