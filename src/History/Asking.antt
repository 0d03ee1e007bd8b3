-- ===== src/History/Asking.antt =====
-- `ipc_ask_with_id_raw` of src/ipc.c keeps the table of pending asks valid.
use actor_framework_cxx.Prelude.{ℕ, ◌+◌, ◌≤◌, refl, inl, inr, ◌&&◌, not, Option, none, some, ltb}
use actor_framework_cxx.State.{Rc, is_zero, cmd, Payload, Msg, Config, Core, World}
use actor_framework_cxx.Interface.{Port, Isolated}
use actor_framework_cxx.Descriptor.{ensure_id, valid_descriptor}
use actor_framework_cxx.Delivery.{deliver, Prepared, refused, ready}
use actor_framework_cxx.Delivery.Frame.{ensure_id-SameAsks, prepare-SameAsks, deliver-SameAsks}
use actor_framework_cxx.Ask.{new_slot, reserve_ask}
use actor_framework_cxx.Ask.Regions.{AsksValid, drop_ask-AsksValid}
use actor_framework_cxx.Ask.Laws.{SameAsks-AsksValid}
use actor_framework_cxx.Ask.Reserve.{reserve_ask-cases}
use actor_framework_cxx.Ask.Request.{
  deadline_of, finish_ask, time_ask, reserved_ask, prepared_ask, ask_with_id,
}
use actor_framework_cxx.Ask.Reply.{reply}
use actor_framework_cxx.History.Calls.{branch-AsksValid}

module _ {P : Type 0} (cfg : Config) (port : Port P) (iso : Isolated port) where
  abbrev result_core : Rc × ℕ × World P → Core
  result_core r = r.2.core

  finish_ask-AsksValid :
      (target : ℕ) (m : Msg) (id : ℕ) (w : World P)
      → AsksValid cfg w.core
      → AsksValid cfg (finish_ask cfg port target m id w).2.core
  unfolding finish_ask
  finish_ask-AsksValid target m id w v =
      let (rc, w') = deliver port target m w in
      let v' : AsksValid cfg w'.core =
        SameAsks-AsksValid (deliver-SameAsks port iso target m w) v in
      branch-AsksValid cfg result_core (is_zero rc) _ _ v' (drop_ask-AsksValid cfg w'.core v' id)

  time_ask-AsksValid :
      (self timeout_ms target : ℕ) (m : Msg) (id : ℕ) (w : World P)
      → AsksValid cfg w.core
      → AsksValid cfg (time_ask cfg port self timeout_ms target m id w).2.core
  unfolding time_ask
  time_ask-AsksValid self timeout_ms target m id w v =
      let (rc, w') = port.schedule_ask_timeout self id timeout_ms w in
      let v' : AsksValid cfg w'.core = rw (iso.schedule self id timeout_ms w) v in
      branch-AsksValid cfg result_core (not (ltb 0 timeout_ms)) _ _
        (finish_ask-AsksValid target m id w v)
        (branch-AsksValid cfg result_core (is_zero rc) _ _ (finish_ask-AsksValid target m id w' v')
          (drop_ask-AsksValid cfg w'.core v' id))

  module _ (hl : cfg.max_inflight + 2 ≤ 4294967296) where
    reserved_ask-AsksValid :
        (self timeout_ms reply_id target deadline callback : ℕ) (m : Msg) (c : Core) (w : World P)
        → AsksValid cfg c
        → let slot = λ (id : ℕ). new_slot id reply_id deadline self callback in
          AsksValid cfg
            (reserved_ask cfg port self timeout_ms reply_id target m
              (reserve_ask cfg slot c)
              w).2.core
    unfolding reserved_ask
    reserved_ask-AsksValid self timeout_ms reply_id target deadline callback m c w v =
        let slot = λ (id : ℕ). new_slot id reply_id deadline self callback in
        elim (reserve_ask-cases cfg c v hl slot (λ id. refl) (λ id. refl)) [
          | inl (e, full) ↦ rw e v
          | inr (id, c', e, r) ↦
              rw e (time_ask-AsksValid self timeout_ms target _ id (record w { core = c' }) r.valid)
        ]

    prepared_ask-AsksValid :
        (self reply callback timeout_ms : ℕ) (p : Prepared × Core) (w : World P)
        → AsksValid cfg p.1
        → AsksValid cfg (prepared_ask cfg port self reply callback timeout_ms p w).2.core
    unfolding prepared_ask
    prepared_ask-AsksValid self reply callback timeout_ms (refused rc, c) w v = v
    prepared_ask-AsksValid self reply callback timeout_ms (ready target m, c) w v =
        let c' = ensure_id reply c in
        let w' : World P = record w { core = c' } in
        let x = c'.descs reply in
        let v' : AsksValid cfg c' = SameAsks-AsksValid (ensure_id-SameAsks reply c) v in
        branch-AsksValid cfg result_core (ltb (c'.actors self).max_payload_size x.size) _ _ v' (
          reserved_ask-AsksValid self timeout_ms x.id target (deadline_of cfg port timeout_ms w')
            callback m c' w' v')

    pub ask_with_id-AsksValid :
        (self request : Option ℕ) (payload : Payload) (d callback : Option ℕ) (timeout_ms : ℕ)
        (w : World P)
        → AsksValid cfg w.core
        → AsksValid cfg (ask_with_id cfg port self request payload d callback timeout_ms w).2.core
    unfolding ask_with_id
    ask_with_id-AsksValid (some self) request payload (some reply) (some callback) timeout_ms w v =
        branch-AsksValid cfg result_core
          (valid_descriptor request cmd w.core && valid_descriptor (some reply) cmd w.core) _ _
          (prepared_ask-AsksValid self reply callback timeout_ms _ w
            (SameAsks-AsksValid (prepare-SameAsks request payload w.core) v))
          v
    ask_with_id-AsksValid none request payload d callback timeout_ms w v = v
    ask_with_id-AsksValid (some self) request payload none callback timeout_ms w v = v
    ask_with_id-AsksValid (some self) request payload (some reply) none timeout_ms w v = v
