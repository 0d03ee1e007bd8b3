-- ===== src/TestPort/Run/Valid.antt =====
-- The loop of `ipc_test_run_until_idle` in src/port/test/ipc_test_port.c keeps the mailboxes valid.
use actor_framework_cxx.State.{on_port}
use actor_framework_cxx.Prelude.{
  ℕ, zero, suc, ◌≡◌, refl, subst, Bool, true, false, ◌||◌, not, Option, none, some, List, [], ◌∷◌,
  ◌==◌, if◌then◌else◌, inl, inr, Bool-cases, Option-cases, arith,
}
use actor_framework_cxx.State.{Msg, World}
use actor_framework_cxx.TestPort.{ActorState, TestState, state_for, put, taken}
use actor_framework_cxx.TestPort.Mailbox.{taken-contents, state_for-actor}
use actor_framework_cxx.TestPort.Invariant.{PortValid, put-PortValid}
use actor_framework_cxx.TestPort.Run.{turn_in, turn, pass, run_until_idle}

taken-actor : (s : ActorState) (a : ℕ) → s.actor ≡ a → ((taken s).1).actor ≡ a
unfolding taken
taken-actor s a e = e

taken-started : (s : ActorState) → ((taken s).1).started ≡ s.started
unfolding taken
taken-started s = refl

branch :
    (b : Bool) (x y : Bool × World TestState)
    → (b ≡ true → PortValid x.1.port)
    → (b ≡ false → PortValid y.1.port)
    → PortValid (if b then x else y).1.port
branch true x y f g = f refl
branch false x y f g = g refl

module _ (handler : ℕ → Msg → World TestState → World TestState)
    (keeps : (a : ℕ) (m : Msg) (w : World TestState)
      → PortValid w.port
      → PortValid (handler a m w).port) where
  turn_in-PortValid :
      (a : ℕ) (o : Option ActorState) (w : World TestState)
      → PortValid w.port
      → state_for a w.port ≡ o
      → PortValid (turn_in handler a o w).1.port
  unfolding turn_in
  turn_in-PortValid a none w v e = v
  turn_in-PortValid a (some s) w v e =
      branch (not s.started || s.count == 0) (false, w)
        (true, handler a ((taken s).0) (on_port (put ((taken s).1)) w)) (λ idle. v)
        (λ q. keeps a ((taken s).0) (on_port (put ((taken s).1)) w) (
          put-PortValid a w.port s ((taken s).1) v e
            (taken-actor s a (state_for-actor a w.port s e))
            (λ u. (taken-contents s (v a s e (ground (arith, q))) (ground (arith, q))).0)))

  pass-PortValid :
      (l : List ℕ) (w : World TestState) → PortValid w.port → PortValid (pass handler l w).1.port
  unfolding pass turn
  pass-PortValid [] w v = v
  pass-PortValid (a ∷ l) w v =
      pass-PortValid l _ (turn_in-PortValid a (state_for a w.port) w v refl)

  -- Where the loop ends, the mailboxes of all started actors are valid. They are so before, and each
  -- handler keeps them so.
  pub run_until_idle-PortValid :
      (fuel : ℕ) (w : World TestState) (n : ℕ) (w' : World TestState)
      → PortValid w.port
      → run_until_idle handler fuel w ≡ some (n, w')
      → PortValid w'.port
  unfolding run_until_idle
  run_until_idle-PortValid zero w n w' v e = cc
  run_until_idle-PortValid (suc f) w n w' v e =
      let (k, w1) = pass handler w.core.actor_list w in
      let v1 = pass-PortValid w.core.actor_list w v in
      elim (Bool-cases (k == 0)) [
        | inl z ↦
            let q : w1 ≡ w' = ground (arith, rw z at e) in
            subst (λ (u : World TestState). PortValid u.port) q v1
        | inr nz ↦ elim (Option-cases (run_until_idle handler f w1)) [
          | inl q ↦ absurd (ground (arith, rw (nz, q) at e))
          | inr ((j, w2), q) ↦
              let same : w2 ≡ w' = ground (arith, rw (nz, q) at e) in
              subst (λ (u : World TestState). PortValid u.port) same
                (run_until_idle-PortValid f w1 j w2 v1 q)
        ]
      ]
