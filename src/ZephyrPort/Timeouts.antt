-- ===== src/ZephyrPort/Timeouts.antt =====
-- The pool of ask timeouts in src/port/zephyr/zephyr_ipc_port.c: `ask_timeouts`, and the work items
-- that the kernel keeps for it.
pub mod Valid
pub mod Kept
use mathlib.Core.Option
use actor_framework_cxx.Prelude.{
  ℕ, zero, suc, ◌+◌, Bool, true, false, Option, none, some, List, [], ◌∷◌, get_or, set, ◌==◌,
  if◌then◌else◌,
}
use actor_framework_cxx.State.{Rc, ok, err, enomem, update}

-- `zephyr_ask_timeout_t`
pub record Timeout : Type 0 where
  pub used : Bool
  pub actor : ℕ
  pub ask_id : ℕ

abbrev pub unused : Timeout
unused = record { used = false; actor = 0; ask_id = 0 }

-- The loop of `ipc_port_schedule_ask_timeout`: the first timeout that is not used.
unfoldable pub find_unused : List Timeout → Option ℕ
find_unused [] = none
find_unused (t ∷ l) = if t.used then Option.map suc (find_unused l) else some 0

-- The pool, with how many times the kernel still has to run the handler of each work item.
pub record Pool : Type 0 where
  pub timeouts : List Timeout
  pub scheduled : ℕ → ℕ

-- `ipc_port_schedule_ask_timeout`: the timeout is filled, and its work item is initialised and scheduled.
unfoldable pub schedule_at : (a id : ℕ) → Pool → Option ℕ → Rc × Pool
schedule_at a id p none = (err enomem, p)
schedule_at a id p (some i) = (
  ok,
  record p {
    timeouts = set p.timeouts i (record { used = true; actor = a; ask_id = id });
    scheduled = update p.scheduled i (p.scheduled i + 1);
  },
)

unfoldable pub schedule_timeout : (a id : ℕ) → Pool → Rc × Pool
unfolding schedule_at
schedule_timeout a id p = schedule_at a id p (find_unused p.timeouts)

-- The locked part of `ask_timeout_work_fn`: the actor and the ask for which it goes on to call
-- `ipc_ask_timeout_expired`.
unfoldable pub timeout_fires : ℕ → Pool → (ℕ × ℕ) × Pool
timeout_fires i p =
    let t = get_or p.timeouts i unused in
    (
      (t.actor, t.ask_id),
      record p {
        timeouts = set p.timeouts i (record t { used = false });
        scheduled = update p.scheduled i 0;
      },
    )
