-- ===== src/Definition.antt =====
-- What the macros of include/ipc.h, of src/port/posix/ipc_actor_define.h and of
-- src/port/zephyr/ipc_actor_define.h define: message descriptors, the largest payload of some message
-- types, and actors with their static resources. `none` stands for an assertion that
-- fails.
pub mod Largest
pub mod Ready
pub mod Response
use actor_framework_cxx.Prelude.{
  ℕ, ◌*◌, ◌/◌, Bool, true, false, ◌||◌, ◌&&◌, not, Option, none, some, List, [], ◌∷◌, Name, ltb,
  ◌==◌, if◌then◌else◌,
}
use actor_framework_cxx.State.{
  Rc, is_zero, Payload, Config, Kind, event, cmd, Desc, Actor, fail, supervise_none,
}
use actor_framework_cxx.Slot.{Abi, slot_size_of, zero_msg}
use actor_framework_cxx.ZephyrPort.{ZephyrConfig, ZephyrState}

-- `IPC_CMD_DEFINE` and `IPC_CMD_DEFINE_LOCAL`, of the size of the payload type.
abbrev pub cmd_define : (size : ℕ) → Name → Desc
cmd_define size name = record { id = 0; kind = cmd; size = size; name = some name }

-- `IPC_EVENT_DEFINE` and `IPC_EVENT_DEFINE_LOCAL`
abbrev pub event_define : (size : ℕ) → Name → Desc
event_define size name = record { id = 0; kind = event; size = size; name = some name }

-- The conditional that each `IPC_MESSAGE_MAXn` with n > 1 is.
abbrev pub larger : (before size : ℕ) → ℕ
larger before size = if ltb size before then before else size

-- `IPC_MESSAGE_MAX` of a first payload size and of the others, which follow it.
unfoldable pub message_max : ℕ → List ℕ → ℕ
message_max before [] = before
message_max before (size ∷ sizes) = message_max (larger before size) sizes

-- The `struct ipc_actor` that `_IPC_ACTOR_DEFINE` initialises.
abbrev pub actor_of : Name → (stack_size queue_depth max_payload : ℕ) → Actor
actor_of name stack_size queue_depth max_payload = record {
  name = name;
  start_hook = none;
  stop_hook = none;
  unknown_handler = none;
  supervision = supervise_none;
  failure_hook = none;
  stack_size = stack_size;
  queue_depth = queue_depth;
  max_payload_size = max_payload;
  overflow_policy = fail;
  dropped_messages = 0;
}

-- `_IPC_ACTOR_DEFINE` on POSIX.
unfoldable pub posix_define : Name → (stack_sz qdepth max_payload : ℕ) → Option Actor
posix_define name stack_sz qdepth max_payload =
    if stack_sz == 0 || qdepth == 0 then none else some (actor_of name stack_sz qdepth max_payload)

-- `sizeof(actor_sym##_msgq_buf) / actor_sym##_msg_slot_size`
abbrev pub depth_of : Abi → (qdepth max_payload : ℕ) → ℕ
depth_of abi qdepth max_payload =
    qdepth * slot_size_of abi max_payload / slot_size_of abi max_payload

-- With `K_THREAD_STACK_SIZEOF` of a stack that `K_THREAD_STACK_DEFINE` declares, and the queue and the
-- work item of static storage.
module _ {Q W : Type 0} (stack_sizeof : ℕ → ℕ) (cfg : ZephyrConfig) (abi : Abi) (msgq : Q)
    (work : W) where
  -- The `struct ipc_port_state` that the macro initialises.
  abbrev pub port_state_of : (stack_sz qdepth max_payload : ℕ) → ZephyrState Q W
  port_state_of stack_sz qdepth max_payload = record {
    msgq = msgq;
    thread = false;
    has_stack = true;
    stack_size = stack_sizeof stack_sz;
    has_msgq_buf = true;
    queue_depth = depth_of abi qdepth max_payload;
    has_send_slot = true;
    has_recv_slot = true;
    slot_size = slot_size_of abi max_payload;
    delayed_work = work;
    delayed_msg = zero_msg;
    has_delayed_payload = cfg.send_after;
    owner = none;
  }

  -- `_IPC_ACTOR_DEFINE` on Zephyr.
  unfoldable pub zephyr_define :
      Name → (stack_sz qdepth max_payload : ℕ) → Option (Actor × ZephyrState Q W)
  zephyr_define name stack_sz qdepth max_payload =
      if stack_sz == 0 || qdepth == 0
      then none
      else some (
        actor_of name (stack_sizeof stack_sz) (depth_of abi qdepth max_payload) max_payload,
        port_state_of stack_sz qdepth max_payload,
      )

-- `_IPC_ACTOR_RESPONSE_HANDLE_IMPL`: the test of a reply before the typed handler gets its result and
-- payload; the inner `none` is a return without that call. `matches` is whether the request's reply
-- descriptor is the one of the handler.
unfoldable pub response_adapter :
    Config
    → (matches : Bool) → (payload_size : ℕ) → Rc
    → Payload
    → (reply_size : ℕ) → Option (Option (Rc × Payload))
response_adapter cfg matches payload_size result payload reply_size =
    if cfg.asserts && not matches
    then none
    else if is_zero result && not (reply_size == payload_size)
    then (if cfg.asserts then none else some none)
    else some (some (result, payload))
