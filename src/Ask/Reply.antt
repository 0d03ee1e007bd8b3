-- ===== src/Ask/Reply.antt =====
-- `ipc_reply_raw`, `ipc_reply_error_raw` and `ipc_ask_timeout_expired` of src/ipc.c.
pub mod Claims
pub mod Once
pub mod Timeout
use actor_framework_cxx.Prelude.{
  ℕ, Bool, true, false, ◌||◌, not, Option, none, some, ◌==◌, if◌then◌else◌,
}
use actor_framework_cxx.State.{
  Rc, ok, err, einval, is_zero, cmd, Payload, Msg, Core, World, on_core,
}
use actor_framework_cxx.Interface.{Port}
use actor_framework_cxx.Descriptor.{ensure_id, valid_descriptor, make_msg}
use actor_framework_cxx.Delivery.{deliver}
use actor_framework_cxx.Ask.{
  Claim, denied, claimed, drop_ask, claim_reply, claim_error, timeout_msg, queue_timeout,
  unqueue_timeout,
}

-- The message that carries a result and no payload.
abbrev pub error_msg : Msg → Rc → Msg
error_msg m rc = record {
  id = m.reply_id;
  kind = cmd;
  size = 0;
  payload = none;
  ask_id = m.ask_id;
  reply_id = 0;
  result = rc;
}

module _ {P : Type 0} (port : Port P) where
  -- `if (rc)`: the slot of an ask that could not be answered is freed.
  abbrev pub or_drop : ℕ → Rc × World P → Rc × World P
  or_drop id (rc, w) = if is_zero rc then (ok, w) else (rc, on_core (drop_ask id) w)

  unfoldable pub send_reply : Msg → Claim × Core → World P → Rc × World P
  send_reply m (denied rc, c) w = (rc, record w { core = c })
  send_reply m (claimed target, c) w =
      or_drop m.ask_id (deliver port target m (record w { core = c }))

  unfoldable pub reply_valid : Msg → ℕ → Payload → World P → Rc × World P
  unfolding send_reply
  reply_valid m d payload w =
      let x = w.core.descs d in
      send_reply (record (make_msg x payload) { ask_id = m.ask_id })
        (claim_reply m x.id x.size w.core) w

  -- `ipc_reply_raw`
  unfoldable pub reply : Option Msg → Option ℕ → Payload → World P → Rc × World P
  unfolding reply_valid
  reply (some m) (some d) payload w =
      if m.ask_id == 0 || not (valid_descriptor (some d) cmd w.core)
      then (err einval, w)
      else reply_valid m d payload (on_core (ensure_id d) w)
  reply _ _ payload w = (err einval, w)

  unfoldable pub send_error : Msg → Claim × Core → World P → Rc × World P
  send_error m (denied rc, c) w = (rc, record w { core = c })
  send_error m (claimed target, c) w = or_drop m.ask_id (port.send target m (record w { core = c }))

  -- `ipc_reply_error_raw`. The slot's `reply_id` is the request's, by the test before.
  unfoldable pub reply_error : Option Msg → Rc → World P → Rc × World P
  unfolding send_error
  reply_error none rc w = (err einval, w)
  reply_error (some m) rc w =
      if m.ask_id == 0 || m.reply_id == 0 || is_zero rc
      then (err einval, w)
      else send_error (error_msg m rc) (claim_error m w.core) w

  unfoldable pub send_timeout : ℕ → ℕ → Bool × Core → World P → World P
  send_timeout a id (false, c) w = w
  send_timeout a id (true, c) w =
      let (rc, w') = port.send a (timeout_msg id) (record w { core = c }) in
      if is_zero rc then w' else on_core (unqueue_timeout a id) w'

  -- `ipc_ask_timeout_expired`
  unfoldable pub timeout_expired : (actor ask_id : ℕ) → World P → World P
  unfolding send_timeout
  timeout_expired a id w = send_timeout a id (queue_timeout a id w.core) w
