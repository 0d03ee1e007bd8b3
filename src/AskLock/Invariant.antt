-- ===== src/AskLock/Invariant.antt =====
-- What holds of the ask lock of src/ipc.c at every step: the flag is set while one thread is between
-- `lock_asks` and `unlock_asks`.
use actor_framework_cxx.Prelude.{
  ℕ, ◌≡◌, ◌≢◌, refl, sym, ◌∙◌, ap, subst, inl, inr, Bool, true, false, Bool-cases, List, [], ◌∷◌,
  arith, ◌==◌, ==→eq,
}
use actor_framework_cxx.State.{update}
use mathlib.Core.Bool.{false≢true}
use actor_framework_cxx.AskLock.{
  Part, execute, Point, outside, spinning, holding, Machine, lock_asks, unlock_asks, advance, place,
  turn, entered_at, Run, begin, step, effect, is_holding,
}

module _ {L S : Type 0} where
  -- What the thread still does to what the lock guards.
  pub remaining : Point L S → S → S
  remaining outside s = s
  remaining (spinning part) s = s
  remaining (holding l code) s = (execute code (l, s)).1

  -- The flag is clear and no thread holds the lock, or it is set and one does. What the lock guards
  -- is `t`, after what that thread still does.
  pub data Holds (t : S) (y : Machine L S) : Type 0 where
    free : y.flag ≡ false → ((i : ℕ) → is_holding (y.points i) ≡ false) → y.guarded ≡ t → Holds t y
    held :
        (h : ℕ)
        → y.flag ≡ true
        → is_holding (y.points h) ≡ true
        → ((i : ℕ) → i ≢ h → is_holding (y.points i) ≡ false)
        → remaining (y.points h) y.guarded ≡ t
        → Holds t y

  pub update-same : (f : ℕ → Point L S) (i : ℕ) (x : Point L S) → update f i x i ≡ x
  update-same f i x = ground arith

  pub update-other :
      (f : ℕ → Point L S) (i : ℕ) (x : Point L S) (j : ℕ) → j ≢ i → update f i x j ≡ f j
  update-other f i x j n = ground (arith, n)

  update-quiet :
      (f : ℕ → Point L S) (i : ℕ) (x : Point L S)
      → is_holding x ≡ false
      → (j : ℕ) → (j ≢ i → is_holding (f j) ≡ false)
      → is_holding (update f i x j) ≡ false
  update-quiet f i x q j h = elim (Bool-cases (j == i)) [
    | inl e ↦ rw e q
    | inr e ↦ rw e (h (ground (arith, e)))
  ]

  -- A thread that does not hold the lock is not the one that holds it.
  apart :
      (y : Machine L S) (i h : ℕ)
      → is_holding (y.points i) ≡ false
      → is_holding (y.points h) ≡ true
      → h ≢ i
  apart y i h q e same =
      absurd (false≢true (sym q ∙ ap (λ j. is_holding (y.points j)) (sym same) ∙ e))

  module _ (y : Machine L S) (t : S) (i : ℕ) where
    -- A step of a thread that does not hold the lock before it nor after it.
    wait-Holds :
        (x : Point L S)
        → is_holding (y.points i) ≡ false
        → is_holding x ≡ false
        → Holds t y
        → Holds t (place i ((x, y.flag), y.guarded) y)
    wait-Holds x was q (free f n g) = free f (λ j. update-quiet y.points i x q j (λ _. n j)) g
    wait-Holds x was q (held h f e n g) =
        let same = update-other y.points i x h (apart y i h was e) in
        held h f (ap is_holding same ∙ e)
          (λ j other. update-quiet y.points i x q j (λ _. n j other))
          (ap (λ p. remaining p y.guarded) same ∙ g)

    -- A step to which the lock is given or that keeps it: no other thread holds it.
    held-Holds :
        (x : Point L S) (s : S)
        → is_holding x ≡ true
        → ((j : ℕ) → j ≢ i → is_holding (y.points j) ≡ false)
        → remaining x s ≡ t
        → Holds t (place i ((x, true), s) y)
    held-Holds x s q n g =
        let same = update-same y.points i x in
        held i refl (ap is_holding same ∙ q)
          (λ j other. ap is_holding (update-other y.points i x j other) ∙ n j other)
          (ap (λ p. remaining p s) same ∙ g)

    -- While thread `i` holds the lock.
    owned :
        is_holding (y.points i) ≡ true
        → Holds t y
        → (y.flag ≡ true)
          × ((j : ℕ) → j ≢ i → is_holding (y.points j) ≡ false)
          × (remaining (y.points i) y.guarded ≡ t)
    owned q (free f n g) = absurd (false≢true (sym (n i) ∙ q))
    owned q (held h f e n g) = elim (Bool-cases (i == h)) [
      | inl same ↦
          let k = ==→eq i h same in
          (
            f,
            (λ j other. n j (λ z. other (z ∙ sym k))),
            ap (λ j. remaining (y.points j) y.guarded) k ∙ g,
          )
      | inr other ↦ absurd (false≢true (sym (n i (ground (arith, other))) ∙ q))
    ]

    -- While the flag is clear.
    nobody :
        y.flag ≡ false → Holds t y → ((j : ℕ) → is_holding (y.points j) ≡ false) × (y.guarded ≡ t)
    nobody c (free f n g) = (n, g)
    nobody c (held h f e n g) = absurd (false≢true (sym c ∙ f))

    -- `unlock_asks`
    clear-Holds :
        ((j : ℕ) → j ≢ i → is_holding (y.points j) ≡ false)
        → y.guarded ≡ t
        → Holds t (place i ((outside, false), y.guarded) y)
    clear-Holds n g = free refl (λ j. update-quiet y.points i outside refl j (n j)) g

  -- One step by any thread.
  advance-Holds :
      (y : Machine L S) (parts : List (Part L S)) (s : S) (i : ℕ) (wanted : Part L S)
      → (p : Point L S) → y.points i ≡ p
      → (f : Bool) → y.flag ≡ f
      → Holds (effect parts s) y
      → Holds (effect (entered_at p f parts) s) (place i (advance wanted p f y.guarded) y)
  unfolding advance lock_asks unlock_asks entered_at effect execute remaining
  advance-Holds y parts s i wanted outside e f c v =
      subst (λ b. Holds (effect parts s) (place i ((spinning wanted, b), y.guarded) y)) c
        (wait-Holds y (effect parts s) i (spinning wanted) (ap is_holding e) refl v)
  advance-Holds y parts s i wanted (spinning part) e true c v =
      subst (λ b. Holds (effect parts s) (place i ((spinning part, b), y.guarded) y)) c
        (wait-Holds y (effect parts s) i (spinning part) (ap is_holding e) refl v)
  advance-Holds y parts s i wanted (spinning part) e false c v =
      let (n, g) = nobody y (effect parts s) i c v in
      held-Holds y (effect (part ∷ parts) s) i (holding part.locals part.code) y.guarded refl
        (λ j _. n j) (ap (λ z. (execute part.code (part.locals, z)).1) g)
  advance-Holds y parts s i wanted (holding l []) e f c v =
      let (_, n, r) = owned y (effect parts s) i (ap is_holding e) v in
      clear-Holds y (effect parts s) i n (sym (ap (λ p. remaining p y.guarded) e) ∙ r)
  advance-Holds y parts s i wanted (holding l (g ∷ code)) e f c v =
      let (set, n, r) = owned y (effect parts s) i (ap is_holding e) v in
      let after = g (l, y.guarded) in
      subst (λ b. Holds (effect parts s) (place i ((holding after.0 code, b), after.1) y))
        (sym set ∙ c)
        (held-Holds y (effect parts s) i (holding after.0 code) after.1 refl n
          (sym (ap (λ p. remaining p y.guarded) e) ∙ r))

  -- Every machine that the threads can reach.
  pub Run-Holds :
      {s : S} {parts : List (Part L S)} {y : Machine L S} → Run s parts y → Holds (effect parts s) y
  unfolding effect turn
  Run-Holds begin = free refl (λ i. refl) refl
  Run-Holds {s} (step {parts} {y} r i wanted) =
      advance-Holds y parts s i wanted (y.points i) refl y.flag refl (Run-Holds r)
