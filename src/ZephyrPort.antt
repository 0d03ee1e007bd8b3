-- ===== src/ZephyrPort.antt =====
-- The Zephyr port of src/port/zephyr/zephyr_ipc_port.c, over a kernel that is a parameter.
pub mod Services
pub mod Timeouts
pub mod Queue
pub mod Assembly
use actor_framework_cxx.Prelude.{
  ℕ, ◌+◌, ◌-◌, Bool, true, false, ◌&&◌, ◌||◌, not, Option, none, some, List, [], ◌∷◌, ltb, ◌==◌,
  if◌then◌else◌,
}
use actor_framework_cxx.State.{
  Rc, ok, err, einval, enomem, emsgsize, enosys, is_zero, Msg, Actor, Core, World, update, on_port,
}
use actor_framework_cxx.Interface.{Port, Isolated}
use actor_framework_cxx.Slot.{Abi, align_up, payload_room, stored, zero_msg}
use actor_framework_cxx.ZephyrPort.Services.{Kernel}
use actor_framework_cxx.ZephyrPort.Timeouts.{Pool, schedule_timeout, timeout_fires}
use actor_framework_cxx.Ask.Reply.{timeout_expired}

-- `CONFIG_ACTOR_SEND_AFTER` and `CONFIG_ACTOR_ASK`.
pub record ZephyrConfig : Type 0 where
  pub send_after : Bool
  pub ask : Bool

-- `struct ipc_port_state`: for a pointer, whether it is not NULL; for the thread, whether it lives.
pub record ZephyrState (Q W : Type 0) : Type 0 where
  pub msgq : Q
  pub thread : Bool
  pub has_stack : Bool
  pub stack_size : ℕ
  pub has_msgq_buf : Bool
  pub queue_depth : ℕ
  pub has_send_slot : Bool
  pub has_recv_slot : Bool
  pub slot_size : ℕ
  pub delayed_work : W
  pub delayed_msg : Msg
  pub has_delayed_payload : Bool
  pub owner : Option ℕ

pub record ZephyrWorld (Q W : Type 0) : Type 0 where
  pub states : ℕ → ZephyrState Q W
  pub pool : Pool

module _ {Q W : Type 0} (kernel : Kernel Q W) (cfg : ZephyrConfig) (abi : Abi) where
  -- `rc == 0 ? 0 : -ENOMEM`, with the queue that `k_msgq_put` leaves.
  unfoldable pub put_result : ZephyrState Q W → Rc × Q → Rc × ZephyrState Q W
  put_result p r = (if is_zero r.0 then ok else err enomem, record p { msgq = r.1 })

  -- `ipc_port_send` on the state of the actor.
  unfoldable pub send_zephyr : (max_payload_size : ℕ) → Msg → ZephyrState Q W → Rc × ZephyrState Q W
  unfolding put_result
  send_zephyr max m p =
      if ltb max m.size
      then (err emsgsize, p)
      else if ltb (payload_room abi p.slot_size) m.size
      then (err enomem, p)
      else put_result p (kernel.msgq_put (stored m) p.msgq)

  -- What `k_msgq_get` gave: the message for the handler and the queue, or `none` where the thread waits.
  unfoldable pub taken : ZephyrState Q W → Option (Msg × Q) → Option (Msg × ZephyrState Q W)
  taken p none = none
  taken p (some r) = some (r.0, record p { msgq = r.1 })

  -- A turn of either loop of `ipc_thread_fn`.
  unfoldable pub thread_gets : ZephyrState Q W → Option (Msg × ZephyrState Q W)
  unfolding taken
  thread_gets p = taken p (kernel.msgq_get p.msgq)

  -- `delayed_work_fn`
  unfoldable pub delayed_work_fn : (max_payload_size : ℕ) → ZephyrState Q W → ZephyrState Q W
  delayed_work_fn max p = (send_zephyr max p.delayed_msg p).1

  -- `cancel_delayed_send`, and the same lines in `ipc_port_send_after`.
  unfoldable pub cancel_result :
      (max_payload_size : ℕ) → Bool × W → ZephyrState Q W → ZephyrState Q W
  cancel_result max r p = record (if r.0 then delayed_work_fn max p else p) { delayed_work = r.1 }

  unfoldable pub cancel_zephyr : (max_payload_size : ℕ) → ZephyrState Q W → ZephyrState Q W
  unfolding cancel_result
  cancel_zephyr max p = cancel_result max (kernel.work_cancel_flush p.delayed_work) p

  -- The lines of a stop and of a restart under `CONFIG_ACTOR_SEND_AFTER`.
  abbrev pub flushed : Bool → (max_payload_size : ℕ) → ZephyrState Q W → ZephyrState Q W
  flushed true max p = cancel_zephyr max p
  flushed false max p = p

  -- `ipc_port_send_after` on the state of the actor.
  unfoldable pub send_after_zephyr :
      (max_payload_size : ℕ) → Msg → (delay_ms : ℕ) → ZephyrState Q W → Rc × ZephyrState Q W
  send_after_zephyr max m ms p =
      if not cfg.send_after
      then (err enosys, p)
      else if ltb max m.size
      then (err emsgsize, p)
      else (let q = cancel_zephyr max p in
          (
            ok,
            record q {
              delayed_msg = stored m;
              delayed_work = kernel.work_reschedule ms q.delayed_work;
            },
          ))

  -- The tests that `ipc_port_actor_init` begins with.
  unfoldable pub resources_ready : Actor → ZephyrState Q W → Bool
  resources_ready x p =
      p.has_stack
      && p.has_msgq_buf
      && not (p.stack_size == 0)
      && not (p.queue_depth == 0)
      && not (ltb p.slot_size (align_up abi.header abi.alignment))
      && p.has_send_slot
      && p.has_recv_slot
      && x.stack_size == p.stack_size
      && x.queue_depth == p.queue_depth

  -- The end of `ipc_port_actor_init`, from `CONFIG_ACTOR_SEND_AFTER` on.
  unfoldable pub launched : (send_after : Bool) → ℕ → ZephyrState Q W → Rc × ZephyrState Q W
  launched false a p = (ok, record p { thread = true })
  launched true a p =
      if p.has_delayed_payload
      then (ok, record p { owner = some a; delayed_work = kernel.work_init; thread = true })
      else (err einval, p)

  -- `ipc_port_actor_init`
  unfoldable pub init_zephyr : ℕ → Actor → ZephyrState Q W → Rc × ZephyrState Q W
  unfolding launched
  init_zephyr a x p =
      if resources_ready x p
      then launched cfg.send_after a
          (record p { msgq = kernel.msgq_init p.slot_size p.queue_depth })
      else (err einval, p)

  -- `ipc_port_stop_actor`
  unfoldable pub stop_zephyr : (max_payload_size : ℕ) → ZephyrState Q W → ZephyrState Q W
  stop_zephyr max p = record (flushed cfg.send_after max p) { thread = false }

  -- `ipc_port_restart_actor`
  unfoldable pub restart_zephyr : (max_payload_size : ℕ) → ZephyrState Q W → ZephyrState Q W
  restart_zephyr max p =
      let q = flushed cfg.send_after max p in record q { msgq = kernel.msgq_purge q.msgq }

  abbrev pub set_zephyr : ℕ → ZephyrState Q W → ZephyrWorld Q W → ZephyrWorld Q W
  set_zephyr a p s = record s { states = update s.states a p }

  abbrev pub put_back :
      ℕ → Rc × ZephyrState Q W → World (ZephyrWorld Q W) → Rc × World (ZephyrWorld Q W)
  put_back a r w = (r.0, on_port (set_zephyr a r.1) w)

  -- `ipc_port_schedule_ask_timeout`
  unfoldable pub schedule_zephyr :
      (a id ms : ℕ) → World (ZephyrWorld Q W) → Rc × World (ZephyrWorld Q W)
  schedule_zephyr a id ms w =
      let (rc, p) = schedule_timeout a id w.port.pool in
      if cfg.ask then (rc, on_port (λ s. record s { pool = p }) w) else (err enosys, w)

  unfoldable pub zephyr_port : (uptime : World (ZephyrWorld Q W) → ℕ) → Port (ZephyrWorld Q W)
  zephyr_port uptime = record {
    actor_init = λ a w. put_back a (init_zephyr a (w.core.actors a) (w.port.states a)) w;
    start = λ a w. (ok, w);
    stop_actor = λ a w.
        on_port (set_zephyr a (stop_zephyr (w.core.actors a).max_payload_size (w.port.states a))) w;
    restart_actor = λ a w. (
      ok,
      on_port (set_zephyr a (restart_zephyr (w.core.actors a).max_payload_size (w.port.states a)))
          w,
    );
    send =
        λ a m w. put_back a (send_zephyr (w.core.actors a).max_payload_size m (w.port.states a)) w;
    send_isr =
        λ a m w. put_back a (send_zephyr (w.core.actors a).max_payload_size m (w.port.states a)) w;
    send_after = λ a m ms w.
        put_back a (send_after_zephyr (w.core.actors a).max_payload_size m ms (w.port.states a)) w;
    schedule_ask_timeout = schedule_zephyr;
    run_all = λ w. (ok, w);
    now_ms = uptime;
  }

  -- `ask_timeout_work_fn` of the timeout at a place.
  unfoldable pub ask_timeout_work_fn :
      (uptime : World (ZephyrWorld Q W) → ℕ) → ℕ → World (ZephyrWorld Q W) → World (ZephyrWorld Q W)
  ask_timeout_work_fn uptime i w =
      let r = timeout_fires i w.port.pool in
      timeout_expired (zephyr_port uptime) r.0.0 r.0.1 (on_port (λ s. record s { pool = r.1 }) w)
