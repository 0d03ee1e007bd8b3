-- ===== src/Delivery.antt =====
-- Sending, in src/ipc.c: the overflow policy of a mailbox, routed commands, delayed commands,
-- fan-out of events, and direct delivery.
pub mod Frame
pub mod Overflow
pub mod Publish
use actor_framework_cxx.Prelude.{
  ℕ, ◌+◌, Bool, true, false, ◌&&◌, ◌||◌, not, Option, none, some, List, [], ◌∷◌, u32, ltb, ◌==◌,
  if◌then◌else◌,
}
use actor_framework_cxx.State.{
  Rc, ok, dropped, err, einval, enoent, emsgsize, eperm, is_zero, is_full, event, cmd, is_kind,
  Payload, Msg, Policy, bad_policy, is_drop, Actor, Route, is_stopped, is_running, Core, World,
  with_actor, on_core,
}
use actor_framework_cxx.Interface.{Port}
use actor_framework_cxx.Descriptor.{ensure_id, valid_descriptor, make_msg}

-- `find_registered`
unfoldable pub find_registered : ℕ → List Route → Option ℕ
find_registered id [] = none
find_registered id (r ∷ t) = if r.msg_id == id then some r.actor else find_registered id t

-- One more drop of the actor, modulo 2 ^ 32.
abbrev pub count_drop : Actor → Actor
count_drop a = record a { dropped_messages = u32 (a.dropped_messages + 1) }

-- `apply_mailbox_overflow_policy`
unfoldable pub apply_mailbox_overflow_policy : {P : Type 0} → ℕ → Rc → World P → Rc × World P
apply_mailbox_overflow_policy a rc w =
    let x = w.core.actors a in
    if not (is_full rc) || not (is_drop x.overflow_policy)
    then (rc, w)
    else (dropped, on_core (with_actor a (count_drop x)) w)

-- What `prepare_registered_cmd` leaves: an error, or the target and the message.
pub data Prepared : Type 0 where
  refused : Rc → Prepared
  ready : ℕ → Msg → Prepared

unfoldable pub prepare_for : ℕ → Payload → Core → Option ℕ → Prepared × Core
prepare_for d payload c none = (refused (err enoent), c)
prepare_for d payload c (some target) =
    if ltb (c.actors target).max_payload_size (c.descs d).size
    then (refused (err emsgsize), c)
    else (ready target (make_msg (c.descs d) payload), c)

unfoldable pub prepare_valid : ℕ → Payload → Core → Prepared × Core
unfolding prepare_for
prepare_valid d payload c = prepare_for d payload c (find_registered (c.descs d).id c.reg_table)

-- `prepare_registered_cmd`
unfoldable pub prepare_registered_cmd : Option ℕ → Payload → Core → Prepared × Core
unfolding prepare_valid
prepare_registered_cmd none payload c = (refused (err einval), c)
prepare_registered_cmd (some d) payload c =
    if valid_descriptor (some d) cmd c
    then prepare_valid d payload (ensure_id d c)
    else (refused (err einval), c)

-- `ipc_actor_set_mailbox_overflow_policy`
abbrev is_policy : Policy → Bool
is_policy bad_policy = false
is_policy _ = true

pub set_mailbox_overflow_policy : Option ℕ → Policy → Core → Rc × Core
set_mailbox_overflow_policy none policy c = (err einval, c)
set_mailbox_overflow_policy (some a) policy c =
    if not (is_policy policy)
    then (err einval, c)
    else if not (is_stopped c.lifecycle)
    then (err eperm, c)
    else (ok, with_actor a (record (c.actors a) { overflow_policy = policy }) c)

-- `ipc_actor_dropped_message_count`
pub dropped_message_count : Option ℕ → Core → ℕ
dropped_message_count none c = 0
dropped_message_count (some a) c = (c.actors a).dropped_messages

module _ {P : Type 0} (port : Port P) where
  -- `apply_mailbox_overflow_policy(target, ipc_port_send(target, &msg))`
  unfoldable pub deliver : ℕ → Msg → World P → Rc × World P
  deliver a m w = let (rc, w') = port.send a m w in apply_mailbox_overflow_policy a rc w'

  unfoldable pub send_prepared : Prepared × Core → World P → Rc × World P
  send_prepared (refused rc, c) w = (rc, record w { core = c })
  send_prepared (ready target m, c) w = deliver target m (record w { core = c })

  -- `ipc_send_raw`
  unfoldable pub send : Option ℕ → Payload → World P → Rc × World P
  unfolding send_prepared
  send d payload w = send_prepared (prepare_registered_cmd d payload w.core) w

  delay_prepared : ℕ → Prepared × Core → World P → Rc × World P
  delay_prepared ms (refused rc, c) w = (rc, record w { core = c })
  delay_prepared ms (ready target m, c) w = port.send_after target m ms (record w { core = c })

  -- `ipc_send_after_raw`
  pub send_after : Option ℕ → (delay_ms : ℕ) → Payload → World P → Rc × World P
  unfolding delay_prepared
  send_after d ms payload w = delay_prepared ms (prepare_registered_cmd d payload w.core) w

  -- One subscriber's turn in `publish_prepared_msg`.
  unfoldable pub publish_to : ℕ → Msg → World P → Rc × World P
  publish_to a m w =
      if ltb (w.core.actors a).max_payload_size m.size then (err emsgsize, w) else deliver a m w

  -- `if (rc && !first_rc) first_rc = rc;`
  abbrev pub keep_first : Rc → Rc → Rc
  keep_first first rc = if not (is_zero rc) && is_zero first then rc else first

  publish_turn : Msg → ℕ → Route → Rc → World P → Rc × World P
  publish_turn m id s first w =
      if s.msg_id == id
      then (let (rc, w') = publish_to s.actor m w in (keep_first first rc, w'))
      else (first, w)

  -- `publish_prepared_msg`; the subscriptions do not change while actors run.
  pub publish_loop : Msg → ℕ → List Route → Rc → World P → Rc × World P
  unfolding publish_turn
  publish_loop m id [] first w = (first, w)
  publish_loop m id (s ∷ t) first w =
      let (first', w') = publish_turn m id s first w in publish_loop m id t first' w'

  publish_valid : ℕ → Payload → World P → Rc × World P
  publish_valid d payload w =
      let x = w.core.descs d in
      publish_loop (record (make_msg x payload) { kind = event }) x.id w.core.sub_table ok w

  -- `ipc_publish_raw`
  pub publish : Option ℕ → Payload → World P → Rc × World P
  unfolding publish_valid
  publish none payload w = (err einval, w)
  publish (some d) payload w =
      if valid_descriptor (some d) event w.core
      then publish_valid d payload (on_core (ensure_id d) w)
      else (err einval, w)

  -- `ipc_send_to_raw`
  pub send_to : (actor desc : Option ℕ) → Payload → World P → Rc × World P
  send_to none d payload w = (err einval, w)
  send_to (some a) none payload w = (err einval, w)
  send_to (some a) (some d) payload w =
      let x = w.core.descs d in
      if not (is_kind x.kind cmd) && not (is_kind x.kind event)
      then (err einval, w)
      else if not (is_running w.core.lifecycle)
      then (err eperm, w)
      else if x.id == 0
      then (err einval, w)
      else if ltb (w.core.actors a).max_payload_size x.size
      then (err emsgsize, w)
      else (let (rc, w') = port.send_isr a (make_msg x payload) w in
          apply_mailbox_overflow_policy a rc w')
