-- ===== src/Ask/Request.antt =====
-- `ipc_ask_with_id_raw` and `ipc_ask_raw` of src/ipc.c.
pub mod Finish
pub mod Outcome
use actor_framework_cxx.Prelude.{ℕ, ◌+◌, ◌&&◌, not, Option, none, some, u32, ltb, if◌then◌else◌}
use actor_framework_cxx.State.{
  Rc, ok, err, einval, emsgsize, enomem, is_zero, cmd, Payload, Msg, Config, Core, World, on_core,
}
use actor_framework_cxx.Interface.{Port}
use actor_framework_cxx.Descriptor.{ensure_id, valid_descriptor}
use actor_framework_cxx.Delivery.{Prepared, refused, ready, prepare_registered_cmd, deliver}
use actor_framework_cxx.Ask.{drop_ask, new_slot, reserve_ask}

module _ {P : Type 0} (cfg : Config) (port : Port P) where
  -- The end of `ipc_ask_with_id_raw`, from the send of the request on.
  unfoldable pub finish_ask : (target : ℕ) → Msg → ℕ → World P → Rc × ℕ × World P
  finish_ask target m id w =
      let (rc, w') = deliver port target m w in
      if is_zero rc then (ok, id, w') else (rc, 0, on_core (drop_ask id) w')

  -- ... and from `ipc_port_schedule_ask_timeout` on.
  unfoldable pub time_ask : (self timeout_ms target : ℕ) → Msg → ℕ → World P → Rc × ℕ × World P
  unfolding finish_ask
  time_ask self timeout_ms target m id w =
      let (rc, w') = port.schedule_ask_timeout self id timeout_ms w in
      if not (ltb 0 timeout_ms)
      then finish_ask target m id w
      else if is_zero rc
      then finish_ask target m id w'
      else (rc, 0, on_core (drop_ask id) w')

  unfoldable pub reserved_ask :
      (self timeout_ms reply_id target : ℕ) → Msg → Option ℕ × Core → World P → Rc × ℕ × World P
  unfolding time_ask
  reserved_ask self timeout_ms reply_id target m (none, c) w =
      (err enomem, 0, record w { core = c })
  reserved_ask self timeout_ms reply_id target m (some id, c) w =
      time_ask self timeout_ms target (record m { ask_id = id; reply_id = reply_id }) id
        (record w { core = c })

  -- `timeout_ms > 0 ? now_ms + timeout_ms : 0`
  abbrev pub deadline_of : ℕ → World P → ℕ
  deadline_of timeout_ms w = if ltb 0 timeout_ms then u32 (port.now_ms w + timeout_ms) else 0

  unfoldable pub prepared_ask :
      (self reply : ℕ) → (callback timeout_ms : ℕ) → Prepared × Core → World P → Rc × ℕ × World P
  unfolding reserved_ask
  prepared_ask self reply callback timeout_ms (refused rc, c) w = (rc, 0, record w { core = c })
  prepared_ask self reply callback timeout_ms (ready target m, c) w =
      let w' = record w { core = ensure_id reply c } in
      let x = w'.core.descs reply in
      let slot = λ (id : ℕ). new_slot id x.id (deadline_of timeout_ms w') self callback in
      if ltb (w'.core.actors self).max_payload_size x.size
      then (err emsgsize, 0, w')
      else reserved_ask self timeout_ms x.id target m (reserve_ask cfg slot w'.core) w'

  -- `ipc_ask_with_id_raw`: the result, `*ask_id_out`, and the state.
  unfoldable pub ask_with_id :
      (self request : Option ℕ)
      → Payload
      → (reply callback : Option ℕ) → (timeout_ms : ℕ) → World P
      → Rc × ℕ × World P
  unfolding prepared_ask
  ask_with_id (some self) request payload (some reply) (some callback) timeout_ms w =
      if valid_descriptor request cmd w.core && valid_descriptor (some reply) cmd w.core
      then prepared_ask self reply callback timeout_ms
          (prepare_registered_cmd request payload w.core) w
      else (err einval, 0, w)
  ask_with_id _ _ _ _ _ _ w = (err einval, 0, w)

  -- `ipc_ask_raw`
  pub ask :
      (self request : Option ℕ)
      → Payload
      → (reply callback : Option ℕ) → (timeout_ms : ℕ) → World P
      → Rc × World P
  ask self request payload reply callback timeout_ms w =
      let (rc, id, w') = ask_with_id self request payload reply callback timeout_ms w in (rc, w')
