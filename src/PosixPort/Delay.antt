-- ===== src/PosixPort/Delay.antt =====
-- The delayed send of src/port/posix/posix_ipc_port.c: one helper thread at most.
use actor_framework_cxx.Slot.{Abi}
use actor_framework_cxx.Prelude.{
  ℕ, ◌≡◌, refl, ap, sym, ◌∙◌, Bool, true, false, arith, if◌then◌else◌,
}
use mathlib.Core.Bool.{false≢true}
use actor_framework_cxx.State.{Rc, Msg}
use actor_framework_cxx.PosixPort.{
  Helper, absent, waiting, sending, ended, PortState, send_state, posix_pushed, posix_taken, wake,
  send_kept, join_helper, cancel_begun, cancel_ended, cancel_delayed, stop_posix, restart_posix,
  delay_state, send_after_posix, init_posix,
}
use actor_framework_cxx.PosixPort.Threads.{
  is_over, Joins, returns, wakes, sends_kept, receives, takes, JoinsBy, Reachable, inits, delays,
  stops, restarts,
}

-- The flag of the helper is set while it may run.
abbrev DelayValid : PortState → Type 0
DelayValid p = p.delay_active ≡ false → is_over p.helper ≡ true

-- A helper does not begin by itself, and the flag is not its own.
wake-over : (h : Helper) (p : PortState) → is_over h ≡ true → p.helper ≡ h → (wake h p).helper ≡ h
unfolding wake
wake-over absent p o e = e
wake-over waiting p o e = absurd (false≢true o)
wake-over (sending m) p o e = absurd (false≢true o)
wake-over ended p o e = e

wake-active : (h : Helper) (p : PortState) → (wake h p).delay_active ≡ p.delay_active
unfolding wake
wake-active absent p = refl
wake-active waiting p = refl
wake-active (sending m) p = refl
wake-active ended p = refl

send_state_delay :
    (abi : Abi) (m : Msg) (p : PortState)
    → ((send_state abi m p).1.helper ≡ p.helper)
      × ((send_state abi m p).1.delay_active ≡ p.delay_active)
unfolding send_state posix_pushed
send_state_delay abi m p = ground arith

send_kept-over :
    (abi : Abi) (h : Helper) (p : PortState)
    → is_over h ≡ true
    → p.helper ≡ h
    → is_over (send_kept abi h p).helper ≡ true
unfolding send_kept
send_kept-over abi absent p o e = ap is_over e
send_kept-over abi waiting p o e = absurd (false≢true o)
send_kept-over abi (sending m) p o e = refl
send_kept-over abi ended p o e = ap is_over e

send_kept-active :
    (abi : Abi) (h : Helper) (p : PortState) → (send_kept abi h p).delay_active ≡ p.delay_active
unfolding send_kept
send_kept-active abi absent p = refl
send_kept-active abi waiting p = refl
send_kept-active abi (sending m) p = (send_state_delay abi m p).1
send_kept-active abi ended p = refl

module _ (abi : Abi) where
  Joins-over : (p q : PortState) → Joins abi p q → is_over q.helper ≡ true
  Joins-over p _ (returns _ e) = e
  Joins-over p q (wakes _ _ r) = Joins-over (wake p.helper p) q r
  Joins-over p q (sends_kept _ _ r) = Joins-over (send_kept abi p.helper p) q r
  Joins-over p q (receives m _ _ r) = Joins-over (send_state abi m p).1 q r
  Joins-over p q (takes _ _ l r) = Joins-over (posix_taken p).1 q r

  cancel_delayed-over :
      (joined : PortState → PortState) (p : PortState)
      → DelayValid p
      → JoinsBy abi joined p
      → ((cancel_delayed joined p).delay_active ≡ false)
        × (is_over (cancel_delayed joined p).helper ≡ true)
  unfolding cancel_delayed cancel_ended
  cancel_delayed-over joined p v r = by_flag p.delay_active refl
    where
      by_flag :
          (b : Bool)
          → p.delay_active ≡ b
          → let q : PortState = if b then cancel_ended (joined (cancel_begun p)) else p in
            (q.delay_active ≡ false) × (is_over q.helper ≡ true)
      by_flag true e = (refl, Joins-over (cancel_begun p) (joined (cancel_begun p)) r)
      by_flag false e = (e, v e)

  delay_state-DelayValid :
      (create : Rc) (max ms : ℕ) (m : Msg) (p : PortState)
      → is_over p.helper ≡ true
      → DelayValid (delay_state create max m ms p).1
  unfolding delay_state
  delay_state-DelayValid create max ms m p o = ground (arith, o)

  init_posix-over :
      (memory : Bool) (create : Rc) (a depth max : ℕ) (p : PortState)
      → (init_posix abi memory create a depth max p).1.helper ≡ p.helper
  unfolding init_posix
  init_posix-over memory create a depth max p = ground arith

  posix_taken-DelayValid : (p : PortState) → DelayValid p → DelayValid (posix_taken p).1
  unfolding posix_taken
  posix_taken-DelayValid p v = v

  module _ (joined : PortState → PortState) (p : PortState) (v : DelayValid p)
      (j : JoinsBy abi joined p) where
    send_after_posix-DelayValid :
        (create : Rc) (max ms : ℕ) (m : Msg)
        → DelayValid (send_after_posix joined create max m ms p).1
    unfolding send_after_posix
    send_after_posix-DelayValid create max ms m =
        delay_state-DelayValid create max ms m (cancel_delayed joined p)
          (cancel_delayed-over joined p v j).1

    stop_posix-DelayValid : DelayValid (stop_posix joined p)
    unfolding stop_posix
    stop_posix-DelayValid e = (cancel_delayed-over joined p v j).1

    restart_posix-DelayValid : DelayValid (restart_posix joined p)
    unfolding restart_posix
    restart_posix-DelayValid e = (cancel_delayed-over joined p v j).1

  -- The flag is set while a helper may run, in every state.
  Reachable-DelayValid : (p : PortState) → Reachable abi p → DelayValid p
  Reachable-DelayValid _ (inits memory create a depth max p o) e =
      ap is_over (init_posix-over memory create a depth max p) ∙ o
  Reachable-DelayValid _ (wakes p r) e =
      let o = Reachable-DelayValid p r (sym (wake-active p.helper p) ∙ e) in
      ap is_over (wake-over p.helper p o refl) ∙ o
  Reachable-DelayValid _ (sends_kept p r) e =
      send_kept-over abi p.helper p
        (Reachable-DelayValid p r (sym (send_kept-active abi p.helper p) ∙ e)) refl
  Reachable-DelayValid _ (receives m p r) e =
      let (h, a) = send_state_delay abi m p in ap is_over h ∙ Reachable-DelayValid p r (sym a ∙ e)
  Reachable-DelayValid _ (takes p l r) e = posix_taken-DelayValid p (Reachable-DelayValid p r) e
  Reachable-DelayValid _ (delays joined create max ms m p j r) e =
      send_after_posix-DelayValid joined p (Reachable-DelayValid p r) j create max ms m e
  Reachable-DelayValid _ (stops joined p j r) e =
      stop_posix-DelayValid joined p (Reachable-DelayValid p r) j e
  Reachable-DelayValid _ (restarts joined p j r) e =
      restart_posix-DelayValid joined p (Reachable-DelayValid p r) j e

  -- When a stop or a restart of an actor returns, no helper thread of it runs, so that none sends any more,
  -- and a stopped actor's thread is told to end: whatever sends, delayed sends, stops and restarts came
  -- before, wherever the helper stands, and whatever it, other senders and the thread of the actor
  -- do while it is joined. No second delayed send, stop or restart runs at the same time.
  pub stops_helper :
      (joined : PortState → PortState) (p : PortState)
      → Reachable abi p
      → JoinsBy abi joined p
      → (is_over (stop_posix joined p).helper ≡ true)
        × ((stop_posix joined p).running ≡ false)
        × ((stop_posix joined p).delay_active ≡ false)
        × (is_over (restart_posix joined p).helper ≡ true)
        × ((restart_posix joined p).count ≡ 0)
        × ((restart_posix joined p).delay_active ≡ false)
  unfolding stop_posix restart_posix
  stops_helper joined p r j =
      let (a, o) = cancel_delayed-over joined p (Reachable-DelayValid p r) j in
      (o, refl, a, o, refl, a)

-- A helper that still waits for its time when the actor is stopped sends nothing: what waits in the
-- mailbox stays as it is. The helper waits, its flag is set, and no other thread runs meanwhile.
pub stop_drops_delayed :
    (abi : Abi) (p : PortState)
    → p.delay_active ≡ true
    → p.helper ≡ waiting
    → ((stop_posix (join_helper abi) p).ring ≡ p.ring)
      × ((stop_posix (join_helper abi) p).head ≡ p.head)
      × ((stop_posix (join_helper abi) p).count ≡ p.count)
unfolding stop_posix cancel_delayed cancel_begun cancel_ended join_helper
stop_drops_delayed abi p a h = rw (a, h) (unfold wake send_kept in (refl, refl, refl))
