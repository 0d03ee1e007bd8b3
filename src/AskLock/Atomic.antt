-- ===== src/AskLock/Atomic.antt =====
-- What `lock_asks` and `unlock_asks` of src/ipc.c promise the parts between them: one thread at a
-- time, and each part as a whole.
use actor_framework_cxx.Prelude.{
  ℕ, ◌≡◌, ◌≢◌, sym, ◌∙◌, inl, inr, true, false, List, arith, ==→eq, Bool-cases, ◌==◌,
}
use mathlib.Core.Bool.{false≢true}
use actor_framework_cxx.AskLock.{Part, Machine, Run, effect, is_holding}
use actor_framework_cxx.AskLock.Invariant.{Run-Holds, Holds, free, held}

module _ {L S : Type 0} {s : S} {parts : List (Part L S)} {y : Machine L S} where
  -- However the threads are interleaved, two of them are never between `lock_asks` and
  -- `unlock_asks` at the same time.
  pub mutual_exclusion :
      Run s parts y
      → (i j : ℕ) → is_holding (y.points i) ≡ true
      → is_holding (y.points j) ≡ true
      → i ≡ j
  mutual_exclusion r i j p q = only (Run-Holds r)
    where
      at_holder :
          (h : ℕ) (n : (k : ℕ) → k ≢ h → is_holding (y.points k) ≡ false)
          → (k : ℕ) → is_holding (y.points k) ≡ true
          → k ≡ h
      at_holder h n k e = elim (Bool-cases (k == h)) [
        | inl same ↦ ==→eq k h same
        | inr other ↦ absurd (false≢true (sym (n k (ground (arith, other))) ∙ e))
      ]

      only : Holds (effect parts s) y → i ≡ j
      only (free f n g) = absurd (false≢true (sym (n i) ∙ p))
      only (held h f e n g) = at_holder h n i p ∙ sym (at_holder h n j q)

  -- While the flag is clear, what the lock guards is as if every part that took the lock had run as
  -- a whole, in the order in which they took it.
  pub free-effect : Run s parts y → y.flag ≡ false → y.guarded ≡ effect parts s
  free-effect r c = at_rest (Run-Holds r)
    where
      at_rest : Holds (effect parts s) y → y.guarded ≡ effect parts s
      at_rest (free f n g) = g
      at_rest (held h f e n g) = absurd (false≢true (sym c ∙ f))
