-- ===== src/Delivery/Overflow.antt =====
-- The overflow policy of a mailbox, over the calls of src/ipc.c that send.
use actor_framework_cxx.Prelude.{ℕ, ◌≡◌, refl, true, false, Option, none, some, arith}
use actor_framework_cxx.State.{Rc, is_full, is_drop, Payload, Msg, Core, World}
use actor_framework_cxx.Interface.{Port, Isolated}
use actor_framework_cxx.Descriptor.{ensure_id, make_msg}
use actor_framework_cxx.Delivery.{
  apply_mailbox_overflow_policy, Prepared, refused, ready, prepare_registered_cmd, deliver, send,
  send_prepared, send_to,
}

-- Every mailbox drops what it cannot hold.
abbrev pub AllDrop : Core → Type 0
AllDrop c = (a : ℕ) → is_drop (c.actors a).overflow_policy ≡ true

-- Whatever the port says of a mailbox: `rc` or a counted drop.
policy-not_full :
    {P : Type 0} (a : ℕ) (rc : Rc) (w : World P)
    → is_drop (w.core.actors a).overflow_policy ≡ true
    → is_full (apply_mailbox_overflow_policy a rc w).0 ≡ false
unfolding apply_mailbox_overflow_policy
policy-not_full a rc w h = ground arith

actors-ensure_id : (d : ℕ) (c : Core) → (ensure_id d c).actors ≡ c.actors
unfolding ensure_id
actors-ensure_id d c = ground arith

abbrev NotFull : Prepared → Type 0
NotFull (refused rc) = is_full rc ≡ false
NotFull (ready target m) = Unit {0}

-- What `prepare_registered_cmd` refuses is no full mailbox, and no policy changes.
prepare_lem :
    (d : Option ℕ) (payload : Payload) (c : Core)
    → ((prepare_registered_cmd d payload c).1.actors ≡ c.actors)
      × NotFull (prepare_registered_cmd d payload c).0
unfolding prepare_registered_cmd
prepare_lem none payload c = (refl, refl)
prepare_lem (some d) payload c = ground (arith, actors-ensure_id d c)

module _ {P : Type 0} (port : Port P) (iso : Isolated port) where
  send_prepared-NotFull :
      (p : Prepared × Core) (w : World P)
      → p.1.actors ≡ w.core.actors
      → NotFull p.0
      → AllDrop w.core
      → is_full (send_prepared port p w).0 ≡ false
  unfolding send_prepared deliver
  send_prepared-NotFull (refused rc, c) w e n h = n
  send_prepared-NotFull (ready a m, c) w e n h =
      let w1 : World P = record w { core = c } in
      let (rc, w') = port.send a m w1 in policy-not_full a rc w' (rw (iso.send a m w1, e) (h a))

  -- With the policy that drops, no send reports a full mailbox: neither a routed command nor a
  -- direct delivery returns -ENOMEM or -EAGAIN, whatever the port returns. Every actor has that
  -- policy, and the port leaves the core alone.
  pub sends-not_full :
      (actor d : Option ℕ) (payload : Payload) (w : World P)
      → AllDrop w.core
      → (is_full (send port d payload w).0 ≡ false)
        × (is_full (send_to port actor d payload w).0 ≡ false)
  unfolding send send_to
  sends-not_full actor d payload w h = (
    (let (e, n) = prepare_lem d payload w.core in
        send_prepared-NotFull (prepare_registered_cmd d payload w.core) w e n h),
    direct actor d,
  )
    where
      isr :
          (a : ℕ) (m : Msg)
          → is_full
              (apply_mailbox_overflow_policy a (port.send_isr a m w).0 (port.send_isr a m w).1).0
            ≡ false
      isr a m = policy-not_full a _ _ (rw (iso.send_isr a m w) (h a))

      direct : (actor d : Option ℕ) → is_full (send_to port actor d payload w).0 ≡ false
      direct none d = refl
      direct (some a) none = refl
      direct (some a) (some d) = ground (arith, isr a (make_msg (w.core.descs d) payload))
