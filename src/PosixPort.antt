-- ===== src/PosixPort.antt =====
-- The POSIX port of src/port/posix/posix_ipc_port.c: for each actor a ring of copied messages, its
-- thread, and one helper thread for a delayed send. What runs under `lock` or `delay_lock` is one
-- function. The results of `calloc`, `malloc` and `pthread_create` and the layout of C's types are
-- parameters; a blocked call is one that goes on when its thread does. What runs during the join of a helper,
-- where `delay_lock` is free, is an argument.
pub mod Mailbox
pub mod Delay
pub mod Threads
pub mod Draining
pub mod Assembly
use actor_framework_cxx.Slot.{Abi, align_up, payload_room, size_t, slot_size_of, stored, zero_msg}
use actor_framework_cxx.Prelude.{
  ℕ, ◌+◌, ◌-◌, ◌%◌, Bool, true, false, ◌&&◌, not, Option, none, some, List, [], ◌∷◌, get_or, set,
  take, replicate, ltb, leb, max, ◌==◌, if◌then◌else◌,
}
use actor_framework_cxx.State.{Rc, ok, err, enomem, emsgsize, is_zero, Msg, World, update}

-- Where the helper thread of a delayed send stands: there is none, it waits for its time, it is about
-- to send, outside the lock, or it has ended.
pub data Helper : Type 0 where
  absent waiting : Helper
  sending : Msg → Helper
  ended : Helper

-- `struct ipc_port_state`; the slots of `ring` as the messages stored there.
pub record PortState : Type 0 where
  pub owner : Option ℕ
  pub ring : List Msg
  pub slot_size : ℕ
  pub capacity : ℕ
  pub head : ℕ
  pub tail : ℕ
  pub count : ℕ
  pub running : Bool
  pub joined : Bool
  pub delay_active : Bool
  pub delay_cancel : Bool
  pub delay_msg : Msg
  pub delay_ms : ℕ
  pub helper : Helper

-- The port states by their actors.
abbrev pub Posix : Type 0
Posix = ℕ → PortState

-- `store_msg` fails.
abbrev pub too_big : Abi → PortState → Msg → Bool
too_big abi p m = ltb (payload_room abi p.slot_size) m.size

-- The end of `ipc_port_send`, where the message is stored.
unfoldable pub posix_pushed : Msg → PortState → PortState
posix_pushed m p = record p {
  ring = set p.ring p.tail (stored m);
  tail = (p.tail + 1) % p.capacity;
  count = p.count + 1;
}

-- `ipc_port_send` on the state of the actor.
unfoldable pub send_state : Abi → Msg → PortState → Rc × PortState
send_state abi m p =
    if leb p.capacity p.count
    then (err enomem, p)
    else if too_big abi p m
    then (err emsgsize, p)
    else (ok, posix_pushed m p)

-- The turn of the inner loop of `ipc_thread_fn`: the message loaded from the slot, and the ring.
unfoldable pub posix_taken : PortState → Msg × PortState
posix_taken p = (
  get_or p.ring p.head zero_msg,
  record p { head = (p.head + 1) % p.capacity; count = p.count - 1 },
)

-- Where the thread of an actor stands in `ipc_thread_fn`: at the test of the outer loop, at that of
-- the wait, at that of the inner loop, or at its end.
pub data Thread : Type 0 where
  outer asleep inner finished : Thread

-- What a step of the thread does besides: nothing, wait on the condition, or call the handler.
pub data Act : Type 0 where
  goes_on waits : Act
  handles : Msg → Act

-- `ipc_thread_fn`, from one test to the next.
unfoldable pub thread_step : Thread → PortState → Act × Thread × PortState
thread_step outer p = if p.running then (goes_on, asleep, p) else (goes_on, finished, p)
thread_step asleep p = if p.count == 0 && p.running then (waits, asleep, p) else (goes_on, inner, p)
thread_step inner p =
    if p.count == 0
    then (goes_on, outer, p)
    else (handles ((posix_taken p).0), inner, (posix_taken p).1)
thread_step finished p = (goes_on, finished, p)

-- `delay_thread_fn` up to its unlock, when its time has come or it was cancelled.
unfoldable pub wake : Helper → PortState → PortState
wake waiting p = record p {
  delay_cancel = false;
  helper = if p.delay_cancel then ended else sending p.delay_msg;
}
wake _ p = p

-- ... and the send behind the unlock.
unfoldable pub send_kept : Abi → Helper → PortState → PortState
send_kept abi (sending m) p = record ((send_state abi m p).1) { helper = ended }
send_kept abi _ p = p

-- `pthread_join` of the helper where no other thread runs meanwhile: the helper goes on to its end.
unfoldable pub join_helper : Abi → PortState → PortState
join_helper abi p = let q = wake p.helper p in send_kept abi q.helper q

-- `cancel_delayed_send` up to the unlock before `pthread_join`, where the flag is set, ...
unfoldable pub cancel_begun : PortState → PortState
cancel_begun p = record p { delay_cancel = true }

-- ... and from the lock after it on.
unfoldable pub cancel_ended : PortState → PortState
cancel_ended p = record p { delay_cancel = false; delay_active = false }

-- `cancel_delayed_send`, and the same lines in `ipc_port_send_after`, with what the threads do while the
-- caller is in `pthread_join` and has given up the lock.
unfoldable pub cancel_delayed : (joined : PortState → PortState) → PortState → PortState
unfolding cancel_begun cancel_ended
cancel_delayed joined p = if p.delay_active then cancel_ended (joined (cancel_begun p)) else p

-- `ipc_port_stop_actor`
unfoldable pub stop_posix : (joined : PortState → PortState) → PortState → PortState
stop_posix joined p = record (cancel_delayed joined p) { running = false }

-- `ipc_port_restart_actor`
unfoldable pub restart_posix : (joined : PortState → PortState) → PortState → PortState
restart_posix joined p = record (cancel_delayed joined p) {
  head = 0;
  tail = 0;
  count = 0;
  running = true;
}

-- The end of `ipc_port_send_after`: the message is kept, and a helper is started for it.
unfoldable pub delay_state :
    (create : Rc) → (max_payload_size : ℕ) → Msg → ℕ → PortState → Rc × PortState
delay_state create max m ms p =
    if ltb max m.size
    then (err emsgsize, p)
    else (let q : PortState = record p { delay_msg = stored m; delay_ms = ms } in
        if is_zero create
        then (ok, record q { delay_active = true; helper = waiting })
        else (create, q))

-- `ipc_port_send_after`
unfoldable pub send_after_posix :
    (joined : PortState → PortState)
    → (create : Rc) → (max_payload_size : ℕ) → Msg
    → ℕ
    → PortState
    → Rc × PortState
send_after_posix joined create max m ms p = delay_state create max m ms (cancel_delayed joined p)

-- `cleanup_actor`
abbrev pub cleaned : PortState → PortState
cleaned p = record p { owner = none; ring = [] }

-- `ipc_port_run_all`, once the threads have ended.
unfoldable pub run_all_posix : List ℕ → Posix → Posix
run_all_posix [] t = t
run_all_posix (a ∷ l) t =
    run_all_posix l
      (if (t a).joined then t else update t a (cleaned (record (t a) { joined = true })))

-- `ipc_port_actor_init`, with whether the three calls of `calloc` succeed and what `pthread_create`
-- returns.
unfoldable pub init_posix :
    Abi
    → (memory : Bool) → (create : Rc) → (actor queue_depth max_payload_size : ℕ) → PortState
    → Rc × PortState
init_posix abi memory create a depth max p =
    let q : PortState = record p {
      joined = true;
      owner = some a;
      slot_size = slot_size_of abi max;
    } in
    let r : PortState = record q {
      ring = replicate depth zero_msg;
      capacity = depth;
      head = 0;
      tail = 0;
      count = 0;
      running = true;
      joined = false;
      delay_active = false;
      delay_cancel = false;
    } in
    if not memory
    then (err enomem, record q { ring = [] })
    else if is_zero create
    then (ok, r)
    else (create, record r { ring = []; running = false; joined = true })

-- `ipc_port_schedule_ask_timeout`: the timers of asks that run, each with its actor, ask and time.
unfoldable pub schedule_posix :
    (memory : Bool) → (create : Rc) → (a id ms : ℕ) → List (ℕ × ℕ × ℕ) → Rc × List (ℕ × ℕ × ℕ)
schedule_posix memory create a id ms timers =
    if not memory
    then (err enomem, timers)
    else if is_zero create
    then (ok, (a, id, ms) ∷ timers)
    else (create, timers)
