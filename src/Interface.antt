-- ===== src/Interface.antt =====
-- The two seams of the core: src/ipc_port.h, the operations of a port, and the application's
-- functions that the core calls (hooks, handlers, callbacks).
-- Each operation transforms the whole state: what other threads do to the core while the call
-- runs, outside the ask lock, is part of what it does.
use actor_framework_cxx.Prelude.{ℕ, ◌≡◌}
use actor_framework_cxx.State.{Rc, Msg, Payload, World}

-- ipc_port.h
pub record Port (P : Type 0) : Type 0 where
  pub actor_init : ℕ → World P → Rc × World P
  pub start : ℕ → World P → Rc × World P
  pub stop_actor : ℕ → World P → World P
  pub restart_actor : ℕ → World P → Rc × World P
  pub send : ℕ → Msg → World P → Rc × World P
  pub send_isr : ℕ → Msg → World P → Rc × World P
  pub send_after : ℕ → Msg → ℕ → World P → Rc × World P
  pub schedule_ask_timeout : ℕ → ℕ → ℕ → World P → Rc × World P
  pub run_all : World P → Rc × World P
  pub now_ms : World P → ℕ

-- The call that `ipc_dispatch_actor_handlers` ends in: a function of the application with its
-- arguments.
pub data Invocation : Type 0 where
  to_callback : (callback self : ℕ) → (result : Rc) → Payload → (size : ℕ) → Msg → Invocation
  to_handler : (handler self : ℕ) → Payload → Msg → Invocation
  to_unknown : (handler self : ℕ) → Msg → Invocation
  to_nothing : Invocation

-- What the application's functions do, by their numbers.
pub record App (P : Type 0) : Type 0 where
  pub lifecycle_hook : (hook self : ℕ) → World P → World P
  pub failure_hook : (hook self : ℕ) → Rc → World P → World P
  pub invoke : Invocation → World P → World P

-- The port's calls leave the core alone: no other thread changes it while they run. The ports of
-- src/port write their own state only.
pub record Isolated {P : Type 0} (port : Port P) : Type 0 where
  pub send : (a : ℕ) (m : Msg) (w : World P) → (port.send a m w).1.core ≡ w.core
  pub send_isr : (a : ℕ) (m : Msg) (w : World P) → (port.send_isr a m w).1.core ≡ w.core
  pub schedule : (a id ms : ℕ) (w : World P) → (port.schedule_ask_timeout a id ms w).1.core ≡ w.core
