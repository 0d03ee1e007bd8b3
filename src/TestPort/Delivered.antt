-- ===== src/TestPort/Delivered.antt =====
-- A command from `ipc_send_raw` of src/ipc.c over the mailbox of src/port/test/ipc_test_port.c to the
-- handler that `ipc_dispatch_actor_handlers` calls.
use actor_framework_cxx.Prelude.{
  ℕ, ◌≡◌, ◌≢◌, ◌⊎◌, refl, sym, ap, subst, ◌∙◌, inl, inr, true, false, Bool, Bool-cases, ◌==◌, ltb,
  if◌then◌else◌, some, [], ◌∷◌, ◌++◌, arith,
}
use actor_framework_cxx.State.{
  Rc, ok, err, einval, emsgsize, enomem, cmd, is_full, is_drop, Payload, Msg, Core, World,
}
use actor_framework_cxx.Interface.{Port, to_handler}
use actor_framework_cxx.Descriptor.{ensure_id, valid_descriptor, make_msg}
use actor_framework_cxx.Slot.{Abi, stored}
use actor_framework_cxx.Delivery.{
  find_registered, apply_mailbox_overflow_policy, refused, prepare_for, prepare_valid,
  prepare_registered_cmd, deliver, send_prepared, send,
}
use actor_framework_cxx.Dispatch.{dispatch, find_handler, to_registered, or_unknown}
use actor_framework_cxx.Dispatch.Callbacks.{dispatch-zero}
use actor_framework_cxx.TestPort.{ActorState, TestState, state_for, enqueue, test_port}
use actor_framework_cxx.TestPort.Mailbox.{
  IsValid, contents, Sent, queued, too_big, no_room, enqueue-Sent,
}

-- What a send of the message `m` to the actor `a`, with the mailbox `s` and the handler `h`, leaves:
-- the message waits behind the others and goes to the handler when it is dispatched, or the result is
-- not 0 and no mailbox is changed.
abbrev pub Delivered :
    (a h : ℕ) → Msg → ActorState → World TestState → Rc × World TestState → Type 0
Delivered a h m s w r =
    ((r.0 ≡ ok)
      × (s' : ActorState) × IsValid s'
      × (contents s' ≡ contents s ++ (stored m ∷ []))
      × ((b : ℕ) → state_for b r.1.port ≡ (if a == b then some s' else state_for b w.port))
      × (dispatch (some a) (some (stored m)) r.1.core
          ≡ (to_handler h a (stored m).payload (stored m), r.1.core)))
    ⊎ ((r.0 ≢ ok) × (r.1.port ≡ w.port))

pub handler_called :
    (a h : ℕ) (m : Msg) (c : Core)
    → m.ask_id ≡ 0
    → find_handler a m.id c.handler_table ≡ some h
    → dispatch (some a) (some m) c ≡ (to_handler h a m.payload m, c)
unfolding to_registered
handler_called a h m c z f =
    dispatch-zero c a m (ground (arith, z))
    ∙ ap (λ o. (or_unknown a m o (c.actors a).unknown_handler, c)) f

pub policy_kept :
    (a : ℕ) (rc : Rc) (w : World TestState)
    → is_full rc ≡ false
    → apply_mailbox_overflow_policy a rc w ≡ (rc, w)
unfolding apply_mailbox_overflow_policy
policy_kept a rc w e = rw e refl

-- A full mailbox, with and without the dropping policy.
pub policy_full :
    (a : ℕ) (w : World TestState)
    → let r = apply_mailbox_overflow_policy a (err enomem) w in (r.0 ≢ ok) × (r.1.port ≡ w.port)
unfolding apply_mailbox_overflow_policy
policy_full a w = elim (Bool-cases (is_drop (w.core.actors a).overflow_policy)) [
  | inl y ↦ rw y ((λ e. cc), refl)
  | inr n ↦ rw n ((λ e. cc), refl)
]

module _ (abi : Abi) (calloc : (count size : ℕ) → Bool) where
  abbrev port : Port TestState
  port = test_port abi calloc

  deliver-Delivered :
      (a h : ℕ) (m : Msg) (s : ActorState) (w : World TestState)
      → state_for a w.port ≡ some s
      → IsValid s
      → s.started ≡ true
      → m.ask_id ≡ 0
      → find_handler a m.id w.core.handler_table ≡ some h
      → Delivered a h m s w (deliver port a m w)
  unfolding deliver test_port
  deliver-Delivered a h m s w p v started z f =
      by_sent (enqueue a m w) (enqueue-Sent a m s w p v started)
    where
      by_sent :
          (r : Rc × World TestState)
          → Sent a m s w r
          → Delivered a h m s w (apply_mailbox_overflow_policy a r.0 r.1)
      by_sent r (queued s' e fits v' st cap q put core) =
          subst (Delivered a h m s w)
            (sym (policy_kept a r.0 r.1 (ap is_full e) ∙ ap (λ (x : Rc). (x, r.1)) e))
            (inl (
              refl,
              s',
              v',
              q,
              put,
              handler_called a h (stored m) r.1.core z
                  (ap (λ (c : Core). find_handler a m.id c.handler_table) core ∙ f),
            ))
      by_sent r (too_big e big) =
          subst (λ u. Delivered a h m s w (apply_mailbox_overflow_policy a u.0 u.1)) (sym e)
            (subst (Delivered a h m s w) (sym (policy_kept a (err emsgsize) w refl))
              (inr ((λ z. cc), refl)))
      by_sent r (no_room e full) =
          subst (λ u. Delivered a h m s w (apply_mailbox_overflow_policy a u.0 u.1)) (sym e)
            (inr (policy_full a w))

  pub prepare-route :
      (d a : ℕ) (payload : Payload) (c : Core)
      → valid_descriptor (some d) cmd c ≡ true
      → let k = ensure_id d c in
        find_registered (k.descs d).id k.reg_table ≡ some a
        → prepare_registered_cmd (some d) payload c ≡ prepare_for d payload k (some a)
  unfolding prepare_registered_cmd prepare_valid
  prepare-route d a payload c v r =
      ap (λ b. if b then prepare_valid d payload (ensure_id d c) else (refused (err einval), c)) v
      ∙ ap (prepare_for d payload (ensure_id d c)) r

  -- A command that is sent to a mailbox of the test port that is valid and started: either the result
  -- is 0, the message with the sender's bytes waits behind those that were there, no other mailbox is
  -- changed, and when its actor dispatches it, it goes to the handler registered for the command, with
  -- those bytes; or the result is not 0 and no mailbox is changed. The descriptor is one of a command with a
  -- name, its id has a route to the actor, and the actor has a handler for it, as registration leaves them.
  pub send-Delivered :
      (d a h : ℕ) (payload : Payload) (s : ActorState) (w : World TestState)
      → valid_descriptor (some d) cmd w.core ≡ true
      → find_registered ((ensure_id d w.core).descs d).id (ensure_id d w.core).reg_table ≡ some a
      → find_handler a ((ensure_id d w.core).descs d).id (ensure_id d w.core).handler_table ≡ some h
      → state_for a w.port ≡ some s
      → IsValid s
      → s.started ≡ true
      → Delivered a h
          (make_msg ((ensure_id d w.core).descs d) payload)
          s
          w
          (send port (some d) payload w)
  unfolding send send_prepared prepare_for
  send-Delivered d a h payload s w v route handler p valid started =
      let k = ensure_id d w.core in
      let x = k.descs d in
      subst (λ q. Delivered a h (make_msg x payload) s w (send_prepared port q w))
        (sym (prepare-route d a payload w.core v route))
        (elim (Bool-cases (ltb (k.actors a).max_payload_size x.size)) [
          | inl big ↦ rw big (inr ((λ z. cc), refl))
          | inr fits ↦ rw fits (
              deliver-Delivered a h (make_msg x payload) s (record w { core = k }) p valid started
                refl handler)
        ])
