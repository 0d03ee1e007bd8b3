-- ===== src/Registry/Setup.antt =====
-- The static constructors of an application, which the macros of src/ipc_actor_define_common.h and of
-- src/port/posix/ipc_actor_define.h and src/port/zephyr/ipc_actor_define.h declare and the C runtime
-- runs before `main`: each calls a registration function of src/ipc.c.
pub mod Lists
pub mod Valid
pub mod Names
pub mod Declared
pub mod Bound
pub mod Typed
use mathlib.Core.Option
use actor_framework_cxx.Prelude.{ℕ, Option, none, some, List, [], ◌∷◌}
use actor_framework_cxx.State.{Supervision, Config, Core}
use actor_framework_cxx.Registry.{
  register_static, register_handler_static, register_start_hook_static, register_stop_hook_static,
  register_unknown_hook_static, register_supervision_static, register_failure_hook_static,
}

-- `IPC_ACTOR_DEFINE`, `IPC_ACTOR_HANDLE`, `IPC_START_HOOK`, `IPC_STOP_HOOK`, `IPC_UNKNOWN`,
-- `IPC_SUPERVISE` and `IPC_FAIL_HOOK` for an actor.
pub data Constructor : Type 0 where
  defines : (actor : ℕ) → Constructor
  handles : (actor desc handler : ℕ) → Constructor
  starts_with stops_with unknown_with fails_with : (actor hook : ℕ) → Constructor
  supervises : (actor : ℕ) → Supervision → Constructor

module _ (cfg : Config) where
  unfoldable pub construct : Constructor → Core → Option Core
  construct (defines a) c = register_static cfg a c
  construct (handles a d h) c = register_handler_static cfg a d h c
  construct (starts_with a h) c = register_start_hook_static cfg a (some h) c
  construct (stops_with a h) c = register_stop_hook_static cfg a (some h) c
  construct (unknown_with a h) c = register_unknown_hook_static cfg a (some h) c
  construct (fails_with a h) c = register_failure_hook_static cfg a (some h) c
  construct (supervises a s) c = register_supervision_static cfg a s c

  -- All constructors, in the order in which the runtime takes them; one that aborts ends the program.
  unfoldable pub construct_all : List Constructor → Core → Option Core
  construct_all [] c = some c
  construct_all (k ∷ ks) c = Option.bind (construct k c) (construct_all ks)
