-- ===== src/Tests.antt =====
-- A small system: two actors on the test port of src/port/test/ipc_test_port.c, where actor 0 asks
-- actor 1. The child modules apply the properties at its states.
pub mod Asks
pub mod Conversations
pub mod Registration
pub mod Sends
pub mod Startup
pub mod Histories
pub mod Posix
pub mod Slots
pub mod Links
pub mod Interleavings
pub mod Locks
pub mod Basic
pub mod Zephyr
pub mod Actors
use actor_framework_cxx.Slot.{Abi, slot_size_of, stored, zero_msg}
use actor_framework_cxx.Prelude.{
  Option, length, ◌++◌, ◌+◌, ℕ, zero, suc, ◌≡◌, ◌≢◌, refl, ◌⊎◌, inl, Bool, true, false, none, some,
  [], ◌∷◌, arith, ◌==◌, if◌then◌else◌, replicate,
}
use mathlib.Core.Option.{get_or}
use actor_framework_cxx.State.{
  Rc, ok, err, einval, enomem, emsgsize, ealready, enoent, eagain, ebusy, is_full, event, cmd, Desc,
  Msg, Policy, fail, drop_message, supervise_none, supervise_restart, Actor, Slot, zeroed, stopped,
  running, stopping, Config, Core, World, on_core,
}
use actor_framework_cxx.Interface.{Port, App, Isolated, to_callback}
use actor_framework_cxx.TestPort.{
  pushed, stop_actor, restart_actor, release_all, TestState, ActorState, test_port, enqueue,
}
use actor_framework_cxx.TestPort.Frame.{test_port-Isolated, test_port-KeepsLifecycle}
use actor_framework_cxx.TestPort.Mailbox.{Sent, enqueue-Sent}
use actor_framework_cxx.AskTable.{alloc_pending_ask, search_id, find_pending_ask, alloc_ask_id}
use actor_framework_cxx.AskTable.Lookup.{lookup}
use actor_framework_cxx.AskTable.Fresh.{IsFresh, alloc_ask_id-IsFresh}
use actor_framework_cxx.Ask.Regions.{pending, AsksValid, mark_ask, mark_found}
use actor_framework_cxx.Ask.Request.{finish_ask, time_ask, reserved_ask, prepared_ask, ask_with_id}
use actor_framework_cxx.PosixPort.{
  waiting as asleep, PortState, send_state, inner, outer, goes_on, handles, thread_step, stop_posix,
  restart_posix, too_big,
}
use actor_framework_cxx.PosixPort.Mailbox.{RingValid, queue_of, send_state_lem, thread_step-inner}
use actor_framework_cxx.PosixPort.Delay.{stops_helper, stop_drops_delayed}
use actor_framework_cxx.History.{Run, start, next, asks, replies, dispatches, Run-AsksValid}
use actor_framework_cxx.Dispatch.RoundTrip.{ask_reply_callback}
use actor_framework_cxx.TestPort.Restart.{QuietHooks, restart_empties}
use actor_framework_cxx.Lifecycle.{actor_fail}
use actor_framework_cxx.TestPort.Invariant.{PortValid, calls-PortValid}
use actor_framework_cxx.TestPort.Run.{run_until_idle, pass, turn, turn_in}
use actor_framework_cxx.TestPort.Run.Idle.{Idle, total, run_until_idle_lem}
use actor_framework_cxx.TestPort.Run.Valid.{run_until_idle-PortValid}
use actor_framework_cxx.Ask.Reply.{reply, reply_error, timeout_expired, reply_valid, send_reply}
use actor_framework_cxx.Ask.Reply.Once.{
  Answered, reply-Answered, reply_error-Answered, answered_once,
}
use actor_framework_cxx.Ask.Reply.Timeout.{
  timeout_expired-ignored, timeout_expired-queued, timeout_expired-unqueued, timeout_reopens,
  queued, unqueued,
}
use actor_framework_cxx.Ask.Cancel.{owner, ask_cancel_lem}
use actor_framework_cxx.Ask.{reserve_ask, reserve_at, ask_cancel, claim_found, claim_reply}
use actor_framework_cxx.Descriptor.{ensure_id, valid_descriptor, make_msg}
use actor_framework_cxx.Delivery.{
  prepare_for, prepare_valid, prepare_registered_cmd, deliver, apply_mailbox_overflow_policy,
  find_registered, send, send_to, publish,
}
use actor_framework_cxx.Delivery.Overflow.{sends-not_full}
use actor_framework_cxx.Delivery.Publish.{subscribers, first_error, publish_each, publish_lem}
use actor_framework_cxx.Dispatch.{
  dispatch, to_registered, take_callback, take_found, answer, find_handler,
}
use actor_framework_cxx.Dispatch.Callbacks.{Ends, callback_once, callback_only}
use actor_framework_cxx.Registry.{
  has_collision, detect_id_collision, has_route, is_listed, append_actor, register_cmd_at,
  register_cmd, registration_closed, register_static, bind_handler, bind_routed, route_handler,
  handler_registered, register_handler_static,
}
use actor_framework_cxx.Registry.Valid.{RegistryValid}
use actor_framework_cxx.Registry.Routing.{register_handler_static-Valid, registered_command}
use actor_framework_cxx.Lifecycle.{
  set_lifecycle, start_all_actors, run_all, stop_all, stop_list, start_one,
}
use actor_framework_cxx.Lifecycle.States.{start_all_actors-lifecycle, stop_then_join}
use actor_framework_cxx.Lifecycle.Startup.{
  Starts, thread_failure_rolls_back, init_failure_rolls_back,
}
use actor_framework_cxx.TestPort.{
  state_for, put, enqueue_in, init_state, init_in, actor_init, taken,
}
use actor_framework_cxx.TestPort.Mailbox.{IsValid, contents, taken-contents}
use actor_framework_cxx.Ask.Request.Outcome.{Asked, ask_with_id-Asked}

abbrev pub cfg : Config
cfg = record { max_registrations = 4; max_subscriptions = 4; max_inflight = 2; asserts = true }

-- An LP64 machine.
abbrev pub lp64 : Abi
lp64 = record { header = 32; alignment = 16 }

abbrev pub memory : (count size : ℕ) → Bool
memory count size = true

abbrev pub port : Port TestState
port = test_port lp64 memory

pub iso : Isolated port
iso = test_port-Isolated lp64 memory

-- An application whose functions do nothing.
abbrev pub app : App TestState
app = record { lifecycle_hook = λ h a w. w; failure_hook = λ h a rc w. w; invoke = λ call w. w }

abbrev pub actor_with : ℕ → Policy → Actor
actor_with depth policy = record {
  name = 97 ∷ [];
  start_hook = some 1;
  stop_hook = none;
  unknown_handler = none;
  supervision = supervise_none;
  failure_hook = none;
  stack_size = 1024;
  queue_depth = depth;
  max_payload_size = 4;
  overflow_policy = policy;
  dropped_messages = 0;
}

-- A request (0), the reply to it (1), and an event (2).
abbrev pub desc : ℕ → Desc
desc zero = record { id = 10; kind = cmd; size = 2; name = some (113 ∷ []) }
desc (suc zero) = record { id = 11; kind = cmd; size = 1; name = some (114 ∷ []) }
desc _ = record { id = 12; kind = event; size = 1; name = some (101 ∷ []) }

abbrev pub fresh_core : Core
fresh_core = record {
  actor_list = [];
  reg_table = [];
  sub_table = [];
  handler_table = [];
  ask_table = replicate 2 zeroed;
  next_ask_id = 1;
  lifecycle = stopped;
  actors = λ a. actor_with 2 fail;
  descs = desc;
}

-- Both actors run, actor 1 handles the request, and both are subscribed to the event.
abbrev pub running_core : Core
running_core = record fresh_core {
  actor_list = 0 ∷ 1 ∷ [];
  reg_table = record { msg_id = 10; msg_name = 113 ∷ []; actor = 1 } ∷ [];
  sub_table =
      record { msg_id = 12; msg_name = 101 ∷ []; actor = 0 }
      ∷ record { msg_id = 12; msg_name = 101 ∷ []; actor = 1 }
      ∷ [];
  lifecycle = running;
}

-- Actor 1 has a handler for the request.
abbrev pub handled_core : Core
handled_core = record running_core {
  handler_table = record { actor = 1; msg_id = 10; handler = 3 } ∷ [];
}

abbrev pub mailbox : ℕ → ActorState
mailbox a = record {
  actor = a;
  queue = replicate 2 zero_msg;
  slot_size = 48;
  capacity = 2;
  head = 0;
  tail = 0;
  count = 0;
  started = true;
}

pub mailbox-IsValid : (a : ℕ) → IsValid (mailbox a)
mailbox-IsValid a = record {
  positive = omega arith;
  complete = refl;
  head_bounded = omega arith;
  count_bounded = omega arith;
  tail_next = refl;
}

abbrev pub world_of : Core → World TestState
world_of c = record { core = c; port = mailbox 0 ∷ mailbox 1 ∷ [] }

abbrev pub idle_world : World TestState
idle_world = world_of running_core

-- Actor 0 has asked actor 1, under the id 1.
abbrev pub waiting : Slot
waiting = record {
  used = true;
  reply_sent = false;
  timeout_queued = false;
  ask_id = 1;
  reply_id = 11;
  deadline_ms = 0;
  actor = 0;
  callback = 7;
}

abbrev pub asking_core : Core
asking_core = record running_core { ask_table = waiting ∷ zeroed ∷ []; next_ask_id = 2 }

abbrev pub asking_world : World TestState
asking_world = world_of asking_core

abbrev pub request_msg : Msg
request_msg = record {
  id = 10;
  kind = cmd;
  size = 2;
  payload = some (1 ∷ 2 ∷ []);
  ask_id = 1;
  reply_id = 11;
  result = ok;
}

abbrev pub reply_msg : Msg
reply_msg = record {
  id = 11;
  kind = cmd;
  size = 1;
  payload = some (5 ∷ []);
  ask_id = 1;
  reply_id = 0;
  result = ok;
}

pub idle_valid : AsksValid cfg running_core
idle_valid = record { table = ground arith; size = refl; counter = omega arith }

pub asking_valid : AsksValid cfg asking_core
unfolding lookup
asking_valid = record { table = ground arith; size = refl; counter = omega arith }
