-- ===== src/TestPort/Run/Idle.antt =====
-- The loop of `ipc_test_run_until_idle` in src/port/test/ipc_test_port.c ends.
use actor_framework_cxx.State.{on_port}
use actor_framework_cxx.Prelude.{
  ℕ, zero, suc, ◌+◌, ◌<◌, ◌≡◌, refl, sym, ap, Bool, false, ◌&&◌, ◌||◌, not, Option, none, some,
  List, [], ◌∷◌, ◌==◌, if◌then◌else◌, inl, inr, ==→eq, Bool-cases, Option-cases, arith,
}
use mathlib.Core.Option.{some-injective}
use actor_framework_cxx.State.{Msg, World}
use actor_framework_cxx.TestPort.{ActorState, TestState, state_for, put, taken}
use actor_framework_cxx.TestPort.Mailbox.{state_for-actor}
use actor_framework_cxx.TestPort.Run.{turn_in, turn, pass, run_until_idle}

-- How many messages wait in all mailboxes.
unfoldable pub total : TestState → ℕ
total [] = 0
total (s ∷ t) = s.count + total t

total-put :
    (a : ℕ) (t : TestState) (s s' : ActorState)
    → state_for a t ≡ some s
    → s'.actor ≡ a
    → total (put s' t) + s.count ≡ total t + s'.count
unfolding total put state_for
total-put a [] s s' h e = cc
total-put a (x ∷ t) s s' h e = elim (Bool-cases (x.actor == a)) [
  | inl q ↦
      let same : x ≡ s = some-injective x s (rw q at h) in
      let c : x.count ≡ s.count = ap (λ (y : ActorState). y.count) same in ground (arith, q, e, c)
  | inr q ↦ let ih = total-put a t s s' (rw q at h) e in ground (arith, q, ih)
]

taken_less :
    (a : ℕ) (s : ActorState) (t : TestState)
    → state_for a t ≡ some s
    → 0 < s.count
    → total t ≡ suc (total (put ((taken s).1) t))
unfolding taken
taken_less a s t h c = omega (arith, total-put a t s ((taken s).1) h (state_for-actor a t s h))

abbrev is_waiting : Option ActorState → Bool
is_waiting none = false
is_waiting (some s) = s.started && not (s.count == 0)

-- No actor of the list has a message that waits for a turn.
abbrev pub Idle : List ℕ → World TestState → Type 0
Idle [] w = Unit {0}
Idle (a ∷ l) w = (is_waiting (state_for a w.port) ≡ false) × Idle l w

module _ (handler : ℕ → Msg → World TestState → World TestState)
    (quiet : (a : ℕ) (m : Msg) (w : World TestState) → (handler a m w).port ≡ w.port) where
  turn-idle :
      (a : ℕ) (w : World TestState)
      → (turn handler a w).0 ≡ false
      → (is_waiting (state_for a w.port) ≡ false) × ((turn handler a w).1 ≡ w)
  unfolding turn turn_in
  turn-idle a w h = elim (Option-cases (state_for a w.port)) [
    | inl e ↦ rw e (refl, refl)
    | inr (s, e) ↦ elim (Bool-cases (not s.started || s.count == 0)) [
      | inl idle ↦ rw (e, idle) (ground (arith, idle), refl)
      | inr busy ↦ absurd (ground (arith, rw (e, busy) at h))
    ]
  ]

  turn-total :
      (a : ℕ) (w : World TestState)
      → let (hit, w') = turn handler a w in
        (if hit then suc (total w'.port) else total w'.port) ≡ total w.port
  unfolding turn turn_in
  turn-total a w = elim (Option-cases (state_for a w.port)) [
    | inl e ↦ rw e refl
    | inr (s, e) ↦ elim (Bool-cases (not s.started || s.count == 0)) [
      | inl idle ↦ rw (e, idle) refl
      | inr busy ↦
          let q = quiet a ((taken s).0) (on_port (put ((taken s).1)) w) in
          let k = taken_less a s w.port e (ground (arith, busy)) in rw (e, busy, q) (sym k)
    ]
  ]

  pass-total :
      (l : List ℕ) (w : World TestState)
      → let (n, w') = pass handler l w in n + total w'.port ≡ total w.port
  unfolding pass
  pass-total [] w = omega arith
  pass-total (a ∷ l) w = ground (arith, turn-total a w, pass-total l (turn handler a w).1)

  pass-quiet :
      (l : List ℕ) (w : World TestState)
      → (pass handler l w).0 ≡ 0
      → Idle l w × ((pass handler l w).1 ≡ w)
  unfolding pass
  pass-quiet [] w h = (tt, refl)
  pass-quiet (a ∷ l) w h = elim (Bool-cases (turn handler a w).0) [
    | inl hit ↦ absurd (ground (arith, hit))
    | inr idle ↦
        let (i, same) = turn-idle a w idle in
        let (r, e) = pass-quiet l w (rw (idle, same) at h) in ((i, r), rw same e)
  ]

  -- Run with fuel for more rounds than messages wait, the loop ends, with every actor of the list
  -- idle; what it returns is the number of messages that have left the mailboxes. The handlers leave
  -- the port alone: they send nothing.
  pub run_until_idle_lem :
      (fuel : ℕ) (w : World TestState)
      → total w.port < fuel
      → (n : ℕ) × (w' : World TestState) × (run_until_idle handler fuel w ≡ some (n, w'))
        × (n + total w'.port ≡ total w.port)
        × Idle w'.core.actor_list w'
  unfolding run_until_idle
  run_until_idle_lem zero w h = absurd (omega arith)
  run_until_idle_lem (suc f) w h =
      let l = w.core.actor_list in
      let w1 = (pass handler l w).1 in
      let t = pass-total l w in
      elim (Bool-cases ((pass handler l w).0 == 0)) [
        | inl z ↦
            let (i, e) = pass-quiet l w (==→eq (pass handler l w).0 0 z) in
            (0, w1, rw z refl, ground (arith, t, z), rw e i)
        | inr nz ↦
            let (n, w2, e, k, i) = run_until_idle_lem f w1 (ground (arith, t, nz)) in
            ((pass handler l w).0 + n, w2, rw (nz, e) refl, omega (arith, t, k), i)
      ]
