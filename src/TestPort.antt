-- ===== src/TestPort.antt =====
-- The deterministic port of src/port/test/ipc_test_port.c: one mailbox of copied messages for each
-- actor, in a table of at most 32. `calloc` and the layout of C's types are parameters.
pub mod Mailbox
pub mod Delivered
pub mod Published
pub mod Answered
pub mod Reserved
pub mod Requested
pub mod Conversation
pub mod Frame
pub mod Restart
pub mod Invariant
pub mod Run
use Prim.Native.Nat.{bit_and}
use actor_framework_cxx.Prelude.{
  ℕ, zero, ◌+◌, ◌-◌, ◌*◌, ◌%◌, Bool, true, false, ◌||◌, not, Option, none, some, List, [], ◌∷◌,
  ◌++◌, length, get_or, set, take, replicate, ltb, ◌==◌, if◌then◌else◌,
}
use actor_framework_cxx.State.{
  Rc, ok, err, einval, enomem, eperm, emsgsize, enosys, Kind, event, Payload, Msg, Core, World,
  on_port,
}
use actor_framework_cxx.Slot.{Abi, slot_size_of, zero_msg, stored}
use actor_framework_cxx.Interface.{Port, Isolated}

-- `ipc_test_actor_state_t`; the slots of `queue` as the messages that are stored there.
pub record ActorState : Type 0 where
  pub actor : ℕ
  pub queue : List Msg
  pub slot_size : ℕ
  pub capacity : ℕ
  pub head : ℕ
  pub tail : ℕ
  pub count : ℕ
  pub started : Bool

-- `actor_states`, of which `actor_state_count` are in use.
abbrev pub TestState : Type 0
TestState = List ActorState

-- `release_state`
abbrev pub released : ActorState → ActorState
released s = record {
  actor = s.actor;
  queue = [];
  slot_size = 0;
  capacity = 0;
  head = 0;
  tail = 0;
  count = 0;
  started = false;
}

-- `state_for(actor, false)`
unfoldable pub state_for : ℕ → TestState → Option ActorState
state_for a [] = none
state_for a (s ∷ t) = if s.actor == a then some s else state_for a t

-- A state written back through the pointer that `state_for` gave.
unfoldable pub put : ActorState → TestState → TestState
put s [] = []
put s (x ∷ t) = if x.actor == s.actor then s ∷ t else x ∷ put s t

-- The end of `enqueue`.
unfoldable pub pushed : Msg → ActorState → ActorState
pushed m s = record s {
  queue = set s.queue s.tail (stored m);
  tail = (s.tail + 1) % s.capacity;
  count = s.count + 1;
}

-- The message that `ipc_test_run_until_idle` takes out of a mailbox, and the mailbox after that.
unfoldable pub taken : ActorState → Msg × ActorState
taken s = (
  get_or s.queue s.head zero_msg,
  record s { head = (s.head + 1) % s.capacity; count = s.count - 1 },
)

unfoldable pub enqueue_in :
    Option ActorState → Msg → (max_payload_size : ℕ) → World TestState → Rc × World TestState
enqueue_in none m max w = (err eperm, w)
enqueue_in (some s) m max w =
    if not s.started
    then (err eperm, w)
    else if ltb max m.size
    then (err emsgsize, w)
    else if s.count == s.capacity
    then (err enomem, w)
    else (ok, on_port (put (pushed m s)) w)

-- `enqueue`, which `ipc_port_send` and `ipc_port_send_isr` call.
unfoldable pub enqueue : ℕ → Msg → World TestState → Rc × World TestState
enqueue a m w = enqueue_in (state_for a w.port) m (w.core.actors a).max_payload_size w

unfoldable pub stop_state : Option ActorState → World TestState → World TestState
stop_state none w = w
stop_state (some s) w = on_port (put (record s { started = false; count = 0 })) w

-- `ipc_port_stop_actor`
unfoldable pub stop_actor : ℕ → World TestState → World TestState
stop_actor a w = stop_state (state_for a w.port) w

unfoldable pub restart_state : Option ActorState → World TestState → Rc × World TestState
restart_state none w = (err eperm, w)
restart_state (some s) w =
    if not s.started
    then (err eperm, w)
    else (ok, on_port (put (record s { head = 0; tail = 0; count = 0 })) w)

-- `ipc_port_restart_actor`
unfoldable pub restart_actor : ℕ → World TestState → Rc × World TestState
restart_actor a w = restart_state (state_for a w.port) w

-- `ipc_port_run_all`
unfoldable pub release_all : TestState → TestState
release_all [] = []
release_all (s ∷ t) = released s ∷ release_all t

module _ (abi : Abi) (calloc : (count size : ℕ) → Bool) where
  -- `ipc_port_actor_init` on the state that `state_for(actor, true)` gave.
  unfoldable pub init_state :
      (queue_depth max_payload_size : ℕ) → ActorState → World TestState → Rc × World TestState
  init_state depth max s w =
      let slot = slot_size_of abi max in
      if not (calloc depth slot) || not (calloc 1 slot)
      then (err enomem, on_port (put (released s)) w)
      else (
        ok,
        on_port
            (put (record (released s) {
              queue = replicate depth zero_msg;
              slot_size = slot;
              capacity = depth;
              started = true;
            }))
            w,
      )

  unfoldable pub init_in :
      Option ActorState
      → ℕ
      → (queue_depth max_payload_size : ℕ) → World TestState
      → Rc × World TestState
  init_in (some s) a depth max w = init_state depth max s w
  init_in none a depth max w =
      let s : ActorState = released (record {
        actor = a;
        queue = [];
        slot_size = 0;
        capacity = 0;
        head = 0;
        tail = 0;
        count = 0;
        started = false;
      }) in
      if length w.port == 32
      then (err enomem, w)
      else init_state depth max s (on_port (λ t. t ++ (s ∷ [])) w)

  -- `ipc_port_actor_init`
  unfoldable pub actor_init : ℕ → World TestState → Rc × World TestState
  actor_init a w =
      let x = w.core.actors a in
      if x.queue_depth == 0
      then (err einval, w)
      else init_in (state_for a w.port) a x.queue_depth x.max_payload_size w

  unfoldable pub test_port : Port TestState
  test_port = record {
    actor_init = actor_init;
    start = λ a w. (ok, w);
    stop_actor = stop_actor;
    restart_actor = restart_actor;
    send = enqueue;
    send_isr = enqueue;
    send_after = λ a m ms w. (err enosys, w);
    schedule_ask_timeout = λ a id ms w. (err enosys, w);
    run_all = λ w. (ok, on_port release_all w);
    now_ms = λ w. 0;
  }
