-- ===== src/Lib.antt =====
-- A model of the actor framework: actors with mailboxes that exchange commands, events, and asks
-- that are answered through callbacks.
--
-- The parts, and the files that model them:
-- - State: the data of include/ipc.h (descriptors, messages, actors, policies) and the static
--   tables of src/ipc.c, as the record `Core`. A pointer to an actor or to a descriptor is its
--   number in a store; a function pointer is a number. `World` is the core beside the state of a
--   port.
-- - Interface: src/ipc_port.h as the record `Port`, the functions of the application as `App`,
--   and what the core relies on: `Isolated`, that the port's sends leave the core alone.
-- - Descriptor: `_ipc_fnv1a` of src/ipc_internal.h, `_ipc_ensure_id`, `valid_descriptor`,
--   `make_msg`.
-- - AskTable: `find_pending_ask`, `alloc_pending_ask` and `alloc_ask_id`, and the table of
--   pending asks as a finite map from ids to slots.
-- - Delivery: `apply_mailbox_overflow_policy`, `ipc_send_raw`, `ipc_send_after_raw`,
--   `ipc_publish_raw`, `ipc_send_to_raw`.
-- - Ask: `ipc_ask_with_id_raw`, `ipc_ask_cancel`, `ipc_reply_raw`, `ipc_reply_error_raw` and
--   `ipc_ask_timeout_expired`. What C does between `lock_asks` and `unlock_asks` is one function
--   of the core; the calls of the port between them are those of `Port`.
-- - Dispatch: `ipc_dispatch_actor_handlers`, which hands a message to a callback, to a handler,
--   or to the hook for unknown messages.
-- - History: sequences of the calls of Ask and Dispatch, as a step relation.
-- - Interleaving: what runs between `lock_asks` and `unlock_asks`, by any threads in any order, as a
--   step relation whose steps say what they do to the set of asks.
-- - AskLock: `lock_asks` and `unlock_asks` on the atomic flag, with threads that run the code between
--   them one instruction at a time; AskLock/Parts: that code, for every place where src/ipc.c takes the
--   lock, and the function of the core that stands for it in the other files.
-- - Registry: the `_ipc_actor_register_*_static` functions, with the tables that they build;
--   Registry/Links: the walk over the links of the actor list; Registry/Setup: the static
--   constructors of an application, which call these functions.
-- - Definition: the macros of include/ipc.h, src/port/posix/ipc_actor_define.h and
--   src/port/zephyr/ipc_actor_define.h that define descriptors and actors.
-- - Configuration: the options of src/port/zephyr/Kconfig, the ipc_config.h of the ports and the static
--   assertions. Ask/Disabled: the build without asks.
-- - Lifecycle: `ipc_start_all_actors`, `ipc_run_all`, `ipc_stop_all`, `ipc_actor_fail`.
-- - Slot: the macros of include/ipc.h that lay out the slots of a mailbox, and `store_msg` and
--   `load_msg` of the ports, byte by byte.
-- - TestPort: src/port/test/ipc_test_port.c, a port with a ring of messages for each actor; it
--   fills `Port` and `Isolated`; its loop `ipc_test_run_until_idle` is TestPort/Run;
--   TestPort/Delivered, TestPort/Published, TestPort/Requested (with TestPort/Reserved) and
--   TestPort/Answered join it to the commands, events, requests and replies of src/ipc.c, and
--   TestPort/Conversation joins a request to its reply. Ring: the queue that such a ring holds, and
--   the invariant that its fields keep.
-- - PosixPort: src/port/posix/posix_ipc_port.c, on the state of one actor: `ipc_port_send`, the
--   thread `ipc_thread_fn`, the helper `delay_thread_fn` of a delayed send, stop, restart and
--   start; what runs while one of them joins the helper, with its lock free, is an argument, and
--   PosixPort/Threads says what that can be; PosixPort/Assembly makes a `Port` of them, where nothing else
--   runs meanwhile, and has the threads of ask timeouts.
-- - ZephyrPort: src/port/zephyr/zephyr_ipc_port.c, over a kernel that is a parameter
--   (ZephyrPort/Services: message queues and delayable work items with the laws that the kernel
--   documents); ZephyrPort/Timeouts: the pool of ask timeouts.
-- - Examples: led_actor.c, button_actor.c and app_actor.c of examples/led_actor, whose handlers are
--   functions of the state that they keep, with the calls that they make; and examples/basic_zephyr,
--   with the constructors that their macros declare.
-- - Tests: a system of two actors on the test port, one actor on POSIX and one on Zephyr, at which
--   the theorems are applied.
-- - Prelude: Boolean tests, lists with native indices, names of the library.
--
-- An operation takes the state and returns it beside its result, on every branch; `abort()` and a
-- failed `assert` are `none`. Three loops have no structural bound. That of `alloc_ask_id`: with
-- `limit` candidates to check, of which at most one is skipped for being 0, `limit` + 2 rounds
-- are enough. The walk over the links of the actor list has one round more than there are actors.
-- The loop of `ipc_test_run_until_idle` does not end where handlers keep sending; its
-- fuel is a parameter, and more rounds than messages wait are enough where they send nothing.
--
-- Not modelled: the memory orders of the atomic flag, whose steps are taken as one after the other,
-- and the locks of the ports: what runs under one of them is one function, and on POSIX a second
-- call that joins the helper of a delayed send while a first one does is left out, which the
-- pthreads leave undefined. The theorems on whole calls take a port that leaves the
-- core alone; what threads do to the asks between two locked parts of a call is Interleaving.
-- Diagnostics, which only assert or print; the adapters that the macros put around handlers,
-- which convert a pointer; the pthreads and the kernel that the ports stand on; what the
-- examples print, and the tests.
pub mod Prelude
pub mod State
pub mod Slot
pub mod Interface
pub mod Interleaving
pub mod AskLock
pub mod AskTable
pub mod Descriptor
pub mod Delivery
pub mod Ask
pub mod Dispatch
pub mod Registry
pub mod History
pub mod Lifecycle
pub mod Ring
pub mod TestPort
pub mod Tests
pub mod PosixPort
pub mod ZephyrPort
pub mod Definition
pub mod Configuration
pub mod Examples
