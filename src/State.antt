-- ===== src/State.antt =====
-- The data of include/ipc.h and of src/ipc.c: results, descriptors, messages, actors, the tables
-- that the core keeps, and the state that an API call transforms.
-- A pointer to an actor or to a descriptor is its number in the store, and `none` is NULL.
-- A function pointer (hook, handler, callback) is a number that the application interprets.
use actor_framework_cxx.Prelude.{ℕ, Bool, true, false, Option, List, Name, ◌==◌, if◌then◌else◌}

-- The numbers of <errno.h> that the framework names; `other` is any other of them.
pub data Errno : Type 0 where
  einval enoent emsgsize enomem eagain ealready ebusy eperm etimedout enosys eexist : Errno
  other : ℕ → Errno

-- An `int` result: 0, IPC_DELIVERY_DROPPED, the negative of an error number, or any other value
-- that an application passes to `ipc_reply_error`.
pub data Rc : Type 0 where
  ok dropped : Rc
  err : Errno → Rc
  value : ℕ → Rc

abbrev pub is_zero : Rc → Bool
is_zero ok = true
is_zero dropped = false
is_zero (err e) = false
is_zero (value n) = false

-- `rc == -ENOMEM || rc == -EAGAIN`
abbrev pub is_full : Rc → Bool
is_full (err enomem) = true
is_full (err eagain) = true
is_full _ = false

-- `ipc_msg_kind_t`; `bad` stands for an integer that is neither enumerator.
pub data Kind : Type 0 where
  event cmd bad : Kind

-- `kind == expected`, for one of the two enumerators.
abbrev pub is_kind : Kind → Kind → Bool
is_kind event event = true
is_kind cmd cmd = true
is_kind _ _ = false

-- A buffer that a caller passes, as the bytes found there.
abbrev pub Payload : Type 0
Payload = Option (List ℕ)

-- `ipc_msg_desc_t`
pub record Desc : Type 0 where
  pub id : ℕ
  pub kind : Kind
  pub size : ℕ
  pub name : Option Name

-- `struct ipc_msg`
pub record Msg : Type 0 where
  pub id : ℕ
  pub kind : Kind
  pub size : ℕ
  pub payload : Payload
  pub ask_id : ℕ
  pub reply_id : ℕ
  pub result : Rc

-- `ipc_mailbox_overflow_policy_t`, with an integer that is neither enumerator.
pub data Policy : Type 0 where
  fail drop_message bad_policy : Policy

abbrev pub is_drop : Policy → Bool
is_drop drop_message = true
is_drop _ = false

-- `ipc_supervision_strategy_t`, with an integer that is no enumerator.
pub data Supervision : Type 0 where
  supervise_none supervise_stop supervise_restart bad_supervision : Supervision

-- `struct ipc_actor` with its `cfg`. The link `_next` is the order of `Core.actor_list`, and the
-- opaque `port` is the port's own state.
pub record Actor : Type 0 where
  pub name : Name
  pub start_hook : Option ℕ
  pub stop_hook : Option ℕ
  pub unknown_handler : Option ℕ
  pub supervision : Supervision
  pub failure_hook : Option ℕ
  pub stack_size : ℕ
  pub queue_depth : ℕ
  pub max_payload_size : ℕ
  pub overflow_policy : Policy
  pub dropped_messages : ℕ

-- `ipc_registration_t`, and `ipc_subscription_t`, which has the same fields.
pub record Route : Type 0 where
  pub msg_id : ℕ
  pub msg_name : Name
  pub actor : ℕ

-- `ipc_handler_binding_t`
pub record Binding : Type 0 where
  pub actor : ℕ
  pub msg_id : ℕ
  pub handler : ℕ

-- `ipc_pending_ask_t`. `actor` and `callback` are read of a slot in use only, where neither is NULL.
pub record Slot : Type 0 where
  pub used : Bool
  pub reply_sent : Bool
  pub timeout_queued : Bool
  pub ask_id : ℕ
  pub reply_id : ℕ
  pub deadline_ms : ℕ
  pub actor : ℕ
  pub callback : ℕ

-- A slot after `memset(pending, 0, sizeof(*pending))`.
abbrev pub zeroed : Slot
zeroed = record {
  used = false;
  reply_sent = false;
  timeout_queued = false;
  ask_id = 0;
  reply_id = 0;
  deadline_ms = 0;
  actor = 0;
  callback = 0;
}

-- `ipc_lifecycle_state_t`
pub data Lifecycle : Type 0 where
  stopped running stopping : Lifecycle

abbrev pub is_stopped : Lifecycle → Bool
is_stopped stopped = true
is_stopped _ = false

abbrev pub is_running : Lifecycle → Bool
is_running running = true
is_running _ = false

abbrev pub is_stopping : Lifecycle → Bool
is_stopping stopping = true
is_stopping _ = false

-- The compile-time limits of ipc_internal.h, and whether `assert` is compiled in.
pub record Config : Type 0 where
  pub max_registrations : ℕ
  pub max_subscriptions : ℕ
  pub max_inflight : ℕ
  pub asserts : Bool

-- The objects of static storage that the core reads and writes. A table with its count is the list
-- of its entries in use; `ask_table` is the whole array.
pub record Core : Type 0 where
  pub actor_list : List ℕ
  pub reg_table : List Route
  pub sub_table : List Route
  pub handler_table : List Binding
  pub ask_table : List Slot
  pub next_ask_id : ℕ
  pub lifecycle : Lifecycle
  pub actors : ℕ → Actor
  pub descs : ℕ → Desc

-- The core beside the state of the port that is linked in.
pub record World (P : Type 0) : Type 0 where
  pub core : Core
  pub port : P

-- One object of a store given anew.
abbrev pub update : {A : Type 0} → (ℕ → A) → ℕ → A → ℕ → A
update f k v j = if j == k then v else f j

abbrev pub with_actor : ℕ → Actor → Core → Core
with_actor a x c = record c { actors = update c.actors a x }

abbrev pub with_asks : List Slot → Core → Core
with_asks t c = record c { ask_table = t }

abbrev pub on_core : {P : Type 0} → (Core → Core) → World P → World P
on_core f w = record w { core = f w.core }

abbrev pub on_port : {P : Type 0} → (P → P) → World P → World P
on_port f w = record w { port = f w.port }
