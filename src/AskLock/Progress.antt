-- ===== src/AskLock/Progress.antt =====
-- The loop of `lock_asks` in src/ipc.c ends: who has the lock releases it, and then a thread that
-- spins takes it by its next test.
use actor_framework_cxx.Prelude.{
  ℕ, zero, suc, ◌≡◌, ◌≢◌, refl, sym, ◌∙◌, ap, true, false, List, [], ◌∷◌, length,
}
use mathlib.Core.Bool.{false≢true}
use actor_framework_cxx.AskLock.{
  Instruction, Part, Point, outside, spinning, holding, Machine, lock_asks, unlock_asks, advance,
  turn, Run, effect, is_holding,
}
use actor_framework_cxx.AskLock.Invariant.{Run-Holds, Holds, free, held, update-same, update-other}

-- Steps of one thread.
unfoldable pub turns :
    {L S : Type 0} → (count thread : ℕ) → (wanted : Part L S) → Machine L S → Machine L S
turns zero h wanted y = y
turns (suc k) h wanted y = turns k h wanted (turn h wanted y)

module _ {L S : Type 0} (wanted : Part L S) where
  turn-point :
      (y : Machine L S) (h : ℕ)
      → (turn h wanted y).points h ≡ (advance wanted (y.points h) y.flag y.guarded).0.0
  unfolding turn
  turn-point y h = update-same y.points h (advance wanted (y.points h) y.flag y.guarded).0.0

  turn-other : (y : Machine L S) (h i : ℕ) → i ≢ h → (turn h wanted y).points i ≡ y.points i
  unfolding turn
  turn-other y h i n =
      update-other y.points h (advance wanted (y.points h) y.flag y.guarded).0.0 i n

  turn-unlocks :
      (y : Machine L S) (h : ℕ) (l : L) → y.points h ≡ holding l [] → (turn h wanted y).flag ≡ false
  unfolding turn advance unlock_asks
  turn-unlocks y h l e = ap (λ p. (advance wanted p y.flag y.guarded).0.1) e

  turn-works :
      (y : Machine L S) (h : ℕ) (l : L) (f : Instruction L S) (code : List (Instruction L S))
      → y.points h ≡ holding l (f ∷ code)
      → (turn h wanted y).points h ≡ holding (f (l, y.guarded)).0 code
  unfolding advance
  turn-works y h l f code e = turn-point y h ∙ ap (λ p. (advance wanted p y.flag y.guarded).0.0) e

  -- The holder runs the rest of its code and clears the flag; the other threads stay where they are.
  releases :
      (h i : ℕ)
      → i ≢ h
      → (code : List (Instruction L S)) (l : L) (y : Machine L S) → y.points h ≡ holding l code
      → let y' = turns (suc (length code)) h wanted y in
        (y'.flag ≡ false) × (y'.points i ≡ y.points i)
  unfolding turns
  releases h i n [] l y e = (turn-unlocks y h l e, turn-other y h i n)
  releases h i n (f ∷ code) l y e =
      let rest =
        releases h i n code (f (l, y.guarded)).0 (turn h wanted y) (turn-works y h l f code e) in
      (rest.0, rest.1 ∙ turn-other y h i n)

  -- A thread that spins while the flag is clear has the lock after its next step.
  enters :
      (y : Machine L S) (i : ℕ) (part : Part L S)
      → y.points i ≡ spinning part
      → y.flag ≡ false
      → (turn i wanted y).points i ≡ holding part.locals part.code
  unfolding advance lock_asks
  enters y i part e c =
      turn-point y i
      ∙ ap (λ p. (advance wanted p y.flag y.guarded).0.0) e
      ∙ ap (λ b. (lock_asks part b).0) c

  -- What a thread that holds the lock has left to run.
  code_of : Point L S → List (Instruction L S)
  code_of outside = []
  code_of (spinning part) = []
  code_of (holding l code) = code

  holding-cases : (p : Point L S) → is_holding p ≡ true → (l : L) × (p ≡ holding l (code_of p))
  unfolding code_of
  holding-cases outside e = absurd (false≢true e)
  holding-cases (spinning part) e = absurd (false≢true e)
  holding-cases (holding l code) e = (l, refl)

  -- No thread spins for ever while the others run: wherever the threads are, some thread clears the
  -- flag within finitely many steps of its own (none if the flag is clear), and then the first step
  -- of a thread that spins gives it the lock, at the first of its instructions.
  pub spinner_enters :
      {s : S} {parts : List (Part L S)} {y : Machine L S}
      → Run s parts y
      → (i : ℕ) (part : Part L S) → y.points i ≡ spinning part
      → (h count : ℕ) × ((turns count h wanted y).flag ≡ false)
        × ((turn i wanted (turns count h wanted y)).points i ≡ holding part.locals part.code)
  unfolding turns
  spinner_enters {s} {parts} {y} r i part e = by_holder (Run-Holds r)
    where
      by_holder :
          Holds (effect parts s) y
          → (h count : ℕ) × ((turns count h wanted y).flag ≡ false)
            × ((turn i wanted (turns count h wanted y)).points i ≡ holding part.locals part.code)
      by_holder (free c n g) = (0, 0, c, enters y i part e c)
      by_holder (held h c q n g) =
          let (l, at) = holding-cases (y.points h) q in
          let apart = λ (same : i ≡ h).
            false≢true (sym (ap is_holding e) ∙ ap (λ j. is_holding (y.points j)) same ∙ q) in
          let (clear, stays) = releases h i apart (code_of (y.points h)) l y at in
          let k = suc (length (code_of (y.points h))) in
          (h, k, clear, enters (turns k h wanted y) i part (stays ∙ e) clear)
