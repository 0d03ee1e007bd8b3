-- ===== src/ZephyrPort/Services.antt =====
-- What src/port/zephyr/zephyr_ipc_port.c calls of the Zephyr kernel: its message queues and its
-- delayable work items, as operations, and what their documentation says of them.
use actor_framework_cxx.Prelude.{
  ℕ, ◌<◌, ◌≤◌, ◌≡◌, ◌≢◌, Bool, true, false, Option, none, some, List, [], ◌∷◌, ◌++◌, length,
}
use actor_framework_cxx.State.{Rc, ok, Msg}

-- `k_msgq_init`, `k_msgq_put` and `k_msgq_get` with `K_NO_WAIT`, `k_msgq_purge`; a slot is the message
-- that it holds. `k_work_init_delayable`, `k_work_reschedule`, and `k_work_cancel_delayable` followed by
-- `k_work_flush`, which says too whether the handler of the item ran meanwhile.
pub record Kernel (Q W : Type 0) : Type 0 where
  pub msgq_init : (slot_size depth : ℕ) → Q
  pub msgq_put : Msg → Q → Rc × Q
  pub msgq_get : Q → Option (Msg × Q)
  pub msgq_purge : Q → Q
  pub work_init : W
  pub work_reschedule : (ms : ℕ) → W → W
  pub work_cancel_flush : W → Bool × W

-- A message queue is first in, first out, and holds `depth` messages; a work item that was cancelled
-- and flushed is idle, and the handler of an idle item does not run.
pub record IsKernel {Q W : Type 0} (k : Kernel Q W) : Type 0 where
  pub contents : Q → List Msg
  pub depth : Q → ℕ
  pub idle : W → Bool
  pub init_empty : (size d : ℕ) → contents (k.msgq_init size d) ≡ []
  pub init_depth : (size d : ℕ) → depth (k.msgq_init size d) ≡ d
  pub put_room :
      (m : Msg) (q : Q)
      → length (contents q) < depth q
      → ((k.msgq_put m q).0 ≡ ok) × (contents (k.msgq_put m q).1 ≡ contents q ++ (m ∷ []))
  pub put_full :
      (m : Msg) (q : Q)
      → depth q ≤ length (contents q)
      → ((k.msgq_put m q).0 ≢ ok) × (contents (k.msgq_put m q).1 ≡ contents q)
  pub put_depth : (m : Msg) (q : Q) → depth (k.msgq_put m q).1 ≡ depth q
  pub get_none : (q : Q) → k.msgq_get q ≡ none → contents q ≡ []
  pub get_some :
      (q : Q) (m : Msg) (q' : Q)
      → k.msgq_get q ≡ some (m, q')
      → (contents q ≡ m ∷ contents q') × (depth q' ≡ depth q)
  pub purge_empty : (q : Q) → contents (k.msgq_purge q) ≡ []
  pub purge_depth : (q : Q) → depth (k.msgq_purge q) ≡ depth q
  pub flush_idle : (w : W) → idle (k.work_cancel_flush w).1 ≡ true
  pub idle_stays : (w : W) → idle w ≡ true → (k.work_cancel_flush w).0 ≡ false
