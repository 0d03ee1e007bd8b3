-- ===== src/Ask.antt =====
-- Ask and reply, in src/ipc.c: the parts that run under the ask lock. Each part between `lock_asks` and `unlock_asks` is one function of
-- the core; what runs between two of them is a call of the port, and stands in the modules below.
pub mod Disabled
pub mod Regions
pub mod Laws
pub mod Reserve
pub mod Cancel
pub mod Request
pub mod Reply
use actor_framework_cxx.Prelude.{
  ℕ, Bool, true, false, ◌&&◌, ◌||◌, not, Option, none, some, ltb, ◌==◌, if◌then◌else◌, set,
}
use actor_framework_cxx.State.{
  Rc, ok, err, einval, enoent, emsgsize, ealready, eperm, etimedout, cmd, Msg, Slot, is_running,
  Config, Core, with_asks,
}
use actor_framework_cxx.AskTable.{
  Search, found, exhausted, out_of_fuel, find_pending_ask, alloc_pending_ask, alloc_ask_id,
  clear_found,
}

-- The locked part that frees the slot of an ask, if it is still pending.
unfoldable pub drop_ask : ℕ → Core → Core
drop_ask id c = with_asks (clear_found (find_pending_ask id c.ask_table) c.ask_table) c

-- `_ipc_set_next_ask_id_for_testing`
abbrev pub set_next_ask_id : ℕ → Core → Core
set_next_ask_id next_id c = record c { next_ask_id = next_id }

-- What the ask writes into its slot.
abbrev pub new_slot : (id reply_id deadline self callback : ℕ) → Slot
new_slot id reply_id deadline self callback = record {
  used = true;
  reply_sent = false;
  timeout_queued = false;
  ask_id = id;
  reply_id = reply_id;
  deadline_ms = deadline;
  actor = self;
  callback = callback;
}

unfoldable pub reserve_at : ℕ → (ℕ → Slot) → Search × ℕ → Core → Option ℕ × Core
reserve_at i slot (found id, next) c =
    (some id, record c { ask_table = set c.ask_table i (slot id); next_ask_id = next })
reserve_at i slot (exhausted, next) c = (none, record c { next_ask_id = next })
reserve_at i slot (out_of_fuel, next) c = (none, record c { next_ask_id = next })

-- The first locked part of `ipc_ask_with_id_raw`: a slot and an id, or -ENOMEM.
unfoldable pub reserve_ask : Config → (ℕ → Slot) → Core → Option ℕ × Core
unfolding reserve_at
reserve_ask cfg slot c = elim (alloc_pending_ask c.ask_table) [
  | none ↦ (none, c)
  | some i ↦ reserve_at i slot (alloc_ask_id cfg.max_inflight c.ask_table c.next_ask_id) c
]

-- `ipc_ask_cancel`
unfoldable pub cancel_found : ℕ → ℕ → Core → Option (ℕ × Slot) → Rc × Core
cancel_found self id c none = (err enoent, c)
cancel_found self id c (some (i, s)) =
    if s.actor == self then (ok, drop_ask id c) else (err enoent, c)

unfoldable pub ask_cancel : (self : Option ℕ) → ℕ → Core → Rc × Core
unfolding cancel_found
ask_cancel none id c = (err einval, c)
ask_cancel (some self) id c =
    if id == 0
    then (err einval, c)
    else if not (is_running c.lifecycle)
    then (err eperm, c)
    else cancel_found self id c (find_pending_ask id c.ask_table)

-- What the locked part of a reply decides: an error, or the actor that asked.
pub data Claim : Type 0 where
  denied : Rc → Claim
  claimed : ℕ → Claim

unfoldable pub claim_found : Msg → (reply_id size : ℕ) → Core → Option (ℕ × Slot) → Claim × Core
claim_found m reply_id size c none = (denied (err enoent), c)
claim_found m reply_id size c (some (i, s)) =
    if not (s.reply_id == reply_id) || not (m.reply_id == reply_id)
    then (denied (err einval), c)
    else if s.reply_sent
    then (denied (err ealready), c)
    else if ltb (c.actors s.actor).max_payload_size size
    then (denied (err emsgsize), drop_ask m.ask_id c)
    else (claimed s.actor, with_asks (set c.ask_table i (record s { reply_sent = true })) c)

-- The first locked part of `ipc_reply_raw`.
unfoldable pub claim_reply : Msg → (reply_id size : ℕ) → Core → Claim × Core
unfolding claim_found
claim_reply m reply_id size c =
    claim_found m reply_id size c (find_pending_ask m.ask_id c.ask_table)

unfoldable pub error_found : Msg → Core → Option (ℕ × Slot) → Claim × Core
error_found m c none = (denied (err enoent), c)
error_found m c (some (i, s)) =
    if not (s.reply_id == m.reply_id)
    then (denied (err einval), c)
    else if s.reply_sent
    then (denied (err ealready), c)
    else (claimed s.actor, with_asks (set c.ask_table i (record s { reply_sent = true })) c)

-- The first locked part of `ipc_reply_error_raw`.
unfoldable pub claim_error : Msg → Core → Claim × Core
unfolding error_found
claim_error m c = error_found m c (find_pending_ask m.ask_id c.ask_table)

-- `ipc_ask_timeout_msg_id`
abbrev pub timeout_msg_id : ℕ
timeout_msg_id = 0xffff_ffff

abbrev pub timeout_msg : ℕ → Msg
timeout_msg id = record {
  id = timeout_msg_id;
  kind = cmd;
  size = 0;
  payload = none;
  ask_id = id;
  reply_id = 0;
  result = err etimedout;
}

unfoldable pub queue_found : ℕ → Core → Option (ℕ × Slot) → Bool × Core
queue_found a c none = (false, c)
queue_found a c (some (i, s)) = if not (s.actor == a) || s.timeout_queued then (false, c) else (
  true,
  with_asks (set c.ask_table i (record s { reply_sent = true; timeout_queued = true })) c,
)

-- The first locked part of `ipc_ask_timeout_expired`: whether a timeout message is to be sent.
unfoldable pub queue_timeout : ℕ → ℕ → Core → Bool × Core
unfolding queue_found
queue_timeout a id c = queue_found a c (find_pending_ask id c.ask_table)

unfoldable pub unqueue_found : ℕ → Core → Option (ℕ × Slot) → Core
unqueue_found a c none = c
unqueue_found a c (some (i, s)) =
    if s.actor == a
    then with_asks (set c.ask_table i (record s { reply_sent = false; timeout_queued = false })) c
    else c

-- The second locked part, after the message could not be sent.
unfoldable pub unqueue_timeout : ℕ → ℕ → Core → Core
unfolding unqueue_found
unqueue_timeout a id c = unqueue_found a c (find_pending_ask id c.ask_table)
