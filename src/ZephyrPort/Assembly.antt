-- ===== src/ZephyrPort/Assembly.antt =====
-- The functions of src/port/zephyr/zephyr_ipc_port.c as a port of the core of src/ipc.c: what the core
-- relies on, and the path of a timeout from its timer to the mailbox.
use actor_framework_cxx.Prelude.{
  ℕ, zero, suc, ◌<◌, ◌≤◌, ◌≡◌, ◌≢◌, ◌∙◌, get_or, set, leb, Bool-cases, inl, inr, refl, sym, ap,
  subst, ==_refl, false, some, List, [], ◌∷◌, ◌++◌, length, if◌then◌else◌, arith,
}
use actor_framework_cxx.State.{is_zero, on_core, Msg, Slot, Config, World, on_port}
use actor_framework_cxx.Interface.{App, Isolated}
use actor_framework_cxx.Lifecycle.States.{KeepsLifecycle}
use actor_framework_cxx.Slot.{Abi, stored}
use actor_framework_cxx.Ask.{timeout_msg, unqueue_timeout}
use actor_framework_cxx.Ask.Regions.{pending, AsksValid}
use actor_framework_cxx.Ask.Reply.{timeout_expired}
use actor_framework_cxx.Ask.Reply.Timeout.{queued, marked, expired-step, timeout_expired-queued}
use actor_framework_cxx.ZephyrPort.Services.{Kernel, IsKernel}
use actor_framework_cxx.ZephyrPort.Timeouts.{Timeout, unused, Pool, timeout_fires}
use actor_framework_cxx.ZephyrPort.Timeouts.Valid.{used_at}
use actor_framework_cxx.Ring.{get_or-set_self, get_or-set_ne}
use actor_framework_cxx.ZephyrPort.Queue.{mailbox, send-room}
use actor_framework_cxx.ZephyrPort.{
  ZephyrWorld, ZephyrConfig, schedule_zephyr, zephyr_port, ask_timeout_work_fn,
}

-- Outside the list nothing is written.
get_or-set_out :
    (l : List Timeout) (i : ℕ) (t : Timeout) → length l ≤ i → get_or (set l i t) i unused ≡ unused
get_or-set_out [] i t h = refl
get_or-set_out (x ∷ l) zero t h = absurd (omega (arith, h))
get_or-set_out (x ∷ l) (suc i) t h = get_or-set_out l i t (omega (arith, h))

-- The place of a timer that ended is free, and the other places are as before.
fires_free : (i : ℕ) (p : Pool) → used_at (timeout_fires i p).1 i ≡ false
unfolding timeout_fires
fires_free i p = elim (Bool-cases (leb (length p.timeouts) i)) [
  | inl out ↦ ap (λ (t : Timeout). t.used) (get_or-set_out p.timeouts i _ (ground (arith, out)))
  | inr l ↦ ap (λ (t : Timeout). t.used) (get_or-set_self unused p.timeouts i _ (ground (arith, l)))
]

fires_others :
    (i j : ℕ) (p : Pool)
    → j ≢ i
    → get_or (timeout_fires i p).1.timeouts j unused ≡ get_or p.timeouts j unused
unfolding timeout_fires
fires_others i j p n = get_or-set_ne unused p.timeouts i j _ (λ e. n (sym e))

module _ {Q W : Type 0} (kernel : Kernel Q W) (cfg : ZephyrConfig) (abi : Abi)
    (uptime : World (ZephyrWorld Q W) → ℕ) where
  schedule_zephyr-core :
      (a id ms : ℕ) (w : World (ZephyrWorld Q W))
      → (schedule_zephyr kernel cfg abi a id ms w).1.core ≡ w.core
  unfolding schedule_zephyr
  schedule_zephyr-core a id ms w = ground arith

  pub zephyr_port-Isolated : Isolated (zephyr_port kernel cfg abi uptime)
  unfolding zephyr_port
  zephyr_port-Isolated = record {
    send = λ a m w. refl;
    send_isr = λ a m w. refl;
    schedule = schedule_zephyr-core;
  }

  pub zephyr_port-KeepsLifecycle :
      (app : App (ZephyrWorld Q W))
      → ((h a : ℕ) (w : World (ZephyrWorld Q W))
          → (app.lifecycle_hook h a w).core.lifecycle ≡ w.core.lifecycle)
      → KeepsLifecycle (zephyr_port kernel cfg abi uptime) app
  unfolding zephyr_port
  zephyr_port-KeepsLifecycle app hook = record {
    actor_init = λ a w. refl;
    start = λ a w. refl;
    stop_actor = λ a w. refl;
    run_all = λ w. refl;
    hook = hook;
  }

  module _ (laws : IsKernel kernel) (core_cfg : Config) where
    abbrev pub mailbox_of : ℕ → World (ZephyrWorld Q W) → List Msg
    mailbox_of a w = mailbox kernel laws cfg abi (w.port.states a)

    -- The message is behind those of a mailbox, the ask is closed to replies, and the timeouts are as
    -- before.
    abbrev pub Expired : (a id : ℕ) → Slot → (w w' : World (ZephyrWorld Q W)) → Type 0
    Expired a id s w w' =
        (mailbox_of a w' ≡ mailbox_of a w ++ (stored (timeout_msg id) ∷ []))
        × (pending id w'.core ≡ some (queued s))
        × (w'.port.pool ≡ w.port.pool)

    sent-Expired :
        (a id : ℕ) (w : World (ZephyrWorld Q W)) (s : Slot)
        → AsksValid core_cfg w.core
        → pending id w.core ≡ some s
        → s.actor ≡ a
        → s.timeout_queued ≡ false
        → length (mailbox_of a w) < laws.depth (w.port.states a).msgq
        → Expired a id s w (timeout_expired (zephyr_port kernel cfg abi uptime) a id w)
    unfolding zephyr_port
    sent-Expired a id w s v p own idle room =
        let port = zephyr_port kernel cfg abi uptime in
        let iso = zephyr_port-Isolated in
        let w1 = marked core_cfg port iso a id w v s p own idle in
        let step = expired-step core_cfg port iso a id w v s p own idle in
        let r =
          send-room kernel laws cfg abi (w1.core.actors a).max_payload_size (timeout_msg id)
            (w.port.states a) room refl in
        let x = port.send a (timeout_msg id) w1 in
        let sent : timeout_expired port a id w ≡ x.1 =
          step ∙ ap (λ rc. if is_zero rc then x.1 else on_core (unqueue_timeout a id) x.1) r.0 in
        (
          ap (mailbox_of a) sent ∙ rw (==_refl a) r.1,
          timeout_expired-queued core_cfg port iso a id w v s p own idle r.0 id
              ∙ rw (==_refl id) refl,
          ap (λ (z : World (ZephyrWorld Q W)). z.port.pool) sent,
        )

    -- The timer of an ask on Zephyr, from its end to the mailbox: where the timeout at a place stands for
    -- a pending ask of an actor and the actor's queue has room, the timeout message goes behind the
    -- messages that wait, the place is free, the other places are as before, and the ask is closed to replies. The ask table is valid,
    -- and no timeout of the ask is under way.
    pub timer_sends :
        (i a id : ℕ) (w : World (ZephyrWorld Q W)) (s : Slot)
        → AsksValid core_cfg w.core
        → pending id w.core ≡ some s
        → s.actor ≡ a
        → s.timeout_queued ≡ false
        → (timeout_fires i w.port.pool).0 ≡ (a, id)
        → length (mailbox_of a w) < laws.depth (w.port.states a).msgq
        → let w' = ask_timeout_work_fn kernel cfg abi uptime i w in
          (mailbox_of a w' ≡ mailbox_of a w ++ (stored (timeout_msg id) ∷ []))
          × (pending id w'.core ≡ some (queued s))
          × (used_at w'.port.pool i ≡ false)
          × ((j : ℕ)
              → j ≢ i
              → get_or w'.port.pool.timeouts j unused ≡ get_or w.port.pool.timeouts j unused)
    unfolding ask_timeout_work_fn
    timer_sends i a id w s v p own idle t room =
        let w1 =
          on_port (λ (z : ZephyrWorld Q W). record z { pool = (timeout_fires i w.port.pool).1 })
            w in
        let port = zephyr_port kernel cfg abi uptime in
        let (sent, closed, kept) =
          subst (λ (x : ℕ × ℕ). Expired a id s w1 (timeout_expired port x.0 x.1 w1)) (sym t)
            (sent-Expired a id w1 s v p own idle room) in
        (
          sent,
          closed,
          ap (λ q. used_at q i) kept ∙ fires_free i w.port.pool,
          λ j n. ap (λ q. get_or q.timeouts j unused) kept ∙ fires_others i j w.port.pool n,
        )
