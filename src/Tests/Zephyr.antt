-- ===== src/Tests/Zephyr.antt =====
-- The properties of src/port/zephyr/zephyr_ipc_port.c, over a kernel whose queues are lists and whose
-- work items are flags, at states of two actors.
use actor_framework_cxx.Prelude.{
  get_or as list_get_or, Name, ◌+◌, ℕ, zero, suc, ◌<◌, ◌≤◌, ◌≡◌, ◌≢◌, refl, ap, sym, Bool, true,
  false, not, Bool-cases, inl, inr, Option, none, some, List, [], ◌∷◌, ◌++◌, length, ltb, ◌==◌,
  if◌then◌else◌, arith,
}
use mathlib.Core.Option.{get_or}
use actor_framework_cxx.State.{Rc, ok, err, einval, Msg, Actor, World}
use actor_framework_cxx.Slot.{stored, zero_msg}
use actor_framework_cxx.Ask.{timeout_msg}
use actor_framework_cxx.Ask.Regions.{pending}
use actor_framework_cxx.AskTable.Lookup.{lookup}
use actor_framework_cxx.Ask.Reply.Timeout.{queued}
use actor_framework_cxx.ZephyrPort.Services.{Kernel, IsKernel}
use actor_framework_cxx.ZephyrPort.Timeouts.{
  unused, find_unused, Pool, schedule_at, schedule_timeout, timeout_fires,
}
use actor_framework_cxx.ZephyrPort.Timeouts.Valid.{PoolValid, used_at}
use actor_framework_cxx.ZephyrPort.Timeouts.Kept.{Meanwhile, done, schedules, fires, timeout_kept}
use actor_framework_cxx.ZephyrPort.Queue.{QueueValid, Posted, send_zephyr_lem}
use actor_framework_cxx.ZephyrPort.Assembly.{mailbox_of, timer_sends}
use actor_framework_cxx.ZephyrPort.{
  ZephyrConfig, ZephyrState, ZephyrWorld, init_zephyr, send_zephyr, ask_timeout_work_fn,
}
use actor_framework_cxx.Definition.{actor_of, depth_of, port_state_of, zephyr_define}
use actor_framework_cxx.Definition.Ready.{defined_ready}
use actor_framework_cxx.Tests.{cfg, lp64, asking_core, asking_valid, waiting, request_msg}

-- A queue: the messages, oldest first, and how many it holds.
abbrev Queue : Type 0
Queue = List Msg × ℕ

abbrev put : Msg → Queue → Rc × Queue
put m q = if ltb (length q.0) q.1 then (ok, (q.0 ++ (m ∷ []), q.1)) else (err einval, q)

abbrev get : Queue → Option (Msg × Queue)
get ([], n) = none
get (m ∷ l, n) = some (m, (l, n))

-- A work item: whether it is scheduled, where a cancellation finds it before its handler runs.
abbrev list_kernel : Kernel Queue Bool
list_kernel = record {
  msgq_init = λ size depth. ([], depth);
  msgq_put = put;
  msgq_get = get;
  msgq_purge = λ q. ([], q.1);
  work_init = false;
  work_reschedule = λ ms b. true;
  work_cancel_flush = λ b. (false, false);
}

put_room :
    (m : Msg) (q : Queue)
    → length q.0 < q.1
    → ((put m q).0 ≡ ok) × ((put m q).1.0 ≡ q.0 ++ (m ∷ []))
put_room m q h = elim (Bool-cases (ltb (length q.0) q.1)) [
  | inl e ↦ rw e (refl, refl)
  | inr e ↦ absurd (ground (arith, e, h))
]

einval_ne_ok : err einval ≢ ok
einval_ne_ok e = cc

put_full : (m : Msg) (q : Queue) → q.1 ≤ length q.0 → ((put m q).0 ≢ ok) × ((put m q).1.0 ≡ q.0)
put_full m q h = elim (Bool-cases (ltb (length q.0) q.1)) [
  | inl e ↦ absurd (ground (arith, e, h))
  | inr e ↦ rw e (einval_ne_ok, refl)
]

put_depth : (m : Msg) (q : Queue) → (put m q).1.1 ≡ q.1
put_depth m q = ground arith

get-none : (q : Queue) → get q ≡ none → q.0 ≡ []
get-none ([], n) e = refl
get-none (m ∷ l, n) e = absurd (cc)

get-some : (q : Queue) (m : Msg) (r : Queue) → get q ≡ some (m, r) → (q.0 ≡ m ∷ r.0) × (r.1 ≡ q.1)
get-some ([], n) m r e = absurd (cc)
get-some (x ∷ l, n) m r e =
    let p : (x, (l, n)) ≡ (m, r) = ap (λ (o : Option (Msg × Queue)). get_or o (x, (l, n))) e in
    (ap (λ (y : Msg × Queue). y.0 ∷ y.1.0) p, sym (ap (λ (y : Msg × Queue). y.1.1) p))

abbrev list_kernel-IsKernel : IsKernel list_kernel
list_kernel-IsKernel = record {
  contents = λ q. q.0;
  depth = λ q. q.1;
  idle = λ b. not b;
  init_empty = λ size d. refl;
  init_depth = λ size d. refl;
  put_room = put_room;
  put_full = put_full;
  put_depth = put_depth;
  get_none = get-none;
  get_some = get-some;
  purge_empty = λ q. refl;
  purge_depth = λ q. refl;
  flush_idle = λ b. refl;
  idle_stays = λ b e. refl;
}

abbrev zephyr_cfg : ZephyrConfig
zephyr_cfg = record { send_after = true; ask = true }

-- An actor whose queue holds one message of two.
abbrev zephyr_state : ZephyrState Queue Bool
zephyr_state = record {
  msgq = (request_msg ∷ [], 2);
  thread = true;
  has_stack = true;
  stack_size = 1024;
  has_msgq_buf = true;
  queue_depth = 2;
  has_send_slot = true;
  has_recv_slot = true;
  slot_size = 48;
  delayed_work = false;
  delayed_msg = zero_msg;
  has_delayed_payload = true;
  owner = some 0;
}

send_zephyr_lem_example :
    let r = send_zephyr list_kernel zephyr_cfg lp64 4 request_msg zephyr_state in
    Posted list_kernel list_kernel-IsKernel zephyr_cfg lp64 4 request_msg zephyr_state r
    × QueueValid list_kernel list_kernel-IsKernel zephyr_cfg lp64 r.1
send_zephyr_lem_example =
    send_zephyr_lem list_kernel list_kernel-IsKernel zephyr_cfg lp64 4 request_msg zephyr_state
      (omega arith)

-- Of three timeouts the first is used.
abbrev pool : Pool
pool = record {
  timeouts = record { used = true; actor = 1; ask_id = 9 } ∷ unused ∷ unused ∷ [];
  scheduled = λ i. if i == 0 then 1 else 0;
}

pool-PoolValid : PoolValid pool
pool-PoolValid zero = refl
pool-PoolValid (suc zero) = refl
pool-PoolValid (suc (suc zero)) = refl
pool-PoolValid (suc (suc (suc i))) = ground arith

-- Actor 0 waits for the ask 1; another ask follows, and the first timeout ends.
abbrev armed_pool : Pool
armed_pool = (schedule_timeout 0 1 pool).1

abbrev later_pool : Pool
later_pool = (timeout_fires 0 (schedule_timeout 0 2 armed_pool).1).1

later : Meanwhile 1 armed_pool later_pool
unfolding schedule_timeout schedule_at timeout_fires find_unused
later = schedules 0 2 armed_pool later_pool (
    fires 0 (schedule_timeout 0 2 armed_pool).1 later_pool (λ e. absurd (omega (arith, e)))
      (omega arith) (done later_pool))

timeout_kept_example :
    ((schedule_timeout 0 1 pool).0 ≡ ok)
    × (later_pool.scheduled 1 ≡ 1)
    × ((timeout_fires 1 later_pool).0 ≡ (0, 1))
    × (used_at (timeout_fires 1 later_pool).1 1 ≡ false)
unfolding find_unused
timeout_kept_example = timeout_kept 1 0 1 pool later_pool pool-PoolValid refl later

abbrev zephyr_world : World (ZephyrWorld Queue Bool)
zephyr_world = record {
  core = asking_core;
  port = record { states = λ a. zephyr_state; pool = later_pool };
}

abbrev expired_world : World (ZephyrWorld Queue Bool)
expired_world = ask_timeout_work_fn list_kernel zephyr_cfg lp64 (λ w. 0) 1 zephyr_world

timer_sends_example :
    let boxes = mailbox_of list_kernel zephyr_cfg lp64 (λ w. 0) list_kernel-IsKernel cfg 0 in
    (boxes expired_world ≡ boxes zephyr_world ++ (stored (timeout_msg 1) ∷ []))
    × (pending 1 expired_world.core ≡ some (queued waiting))
    × (used_at expired_world.port.pool 1 ≡ false)
    × ((j : ℕ)
        → j ≢ 1
        → list_get_or expired_world.port.pool.timeouts j unused
          ≡ list_get_or later_pool.timeouts j unused)
unfolding lookup schedule_timeout schedule_at timeout_fires find_unused
timer_sends_example =
    timer_sends list_kernel zephyr_cfg lp64 (λ w. 0) list_kernel-IsKernel cfg 1 0 1 zephyr_world
      waiting asking_valid refl refl refl refl (omega arith)

abbrev some_name : Name
some_name = 97 ∷ []

-- The kernel rounds a stack up.
abbrev stack_sizeof : ℕ → ℕ
stack_sizeof n = n + 64

abbrev defined_actor : Actor × ZephyrState Queue Bool
defined_actor = (
  actor_of some_name 1088 (depth_of lp64 2 4) 4,
  port_state_of stack_sizeof zephyr_cfg lp64 ([], 0) false 1024 2 4,
)

abbrev zephyr_started : Rc × ZephyrState Queue Bool
zephyr_started = init_zephyr list_kernel zephyr_cfg lp64 0 defined_actor.0 defined_actor.1

abbrev first_sent : Rc × ZephyrState Queue Bool
first_sent = send_zephyr list_kernel zephyr_cfg lp64 4 request_msg zephyr_started.1

defined_ready_example :
    (zephyr_started.0 ≡ ok)
    × (zephyr_started.1.thread ≡ true)
    × (zephyr_started.1.msgq.1 ≡ 2)
    × (first_sent.0 ≡ ok)
    × (first_sent.1.msgq.0 ≡ stored request_msg ∷ [])
unfolding zephyr_define
defined_ready_example =
    defined_ready list_kernel list_kernel-IsKernel stack_sizeof zephyr_cfg lp64 ([], 0) false
      some_name 1024 2 4 4 60 0 request_msg defined_actor refl refl (omega arith) (omega arith)
      (omega arith) (omega arith) refl
