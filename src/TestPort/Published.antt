-- ===== src/TestPort/Published.antt =====
-- An event from `ipc_publish_raw` of src/ipc.c in the mailboxes of src/port/test/ipc_test_port.c.
pub mod Copies
pub mod Turn
use actor_framework_cxx.Prelude.{
  ℕ, zero, suc, ◌+◌, ◌≤◌, ◌<◌, ◌≡◌, ◌≢◌, ◌⊎◌, refl, sym, ap, subst, ◌∙◌, inl, inr, true, false,
  Bool, Bool-cases, ◌==◌, ==→eq, ==_refl, ltb, if◌then◌else◌, Option, none, some, List, [], ◌∷◌,
  ◌++◌, append_assoc, append-nil, length, length-append, replicate, not, ◌||◌, arith,
}
use actor_framework_cxx.State.{
  Rc, ok, dropped, err, emsgsize, enomem, is_full, is_drop, event, Payload, Msg, Core, World,
  on_core,
}
use actor_framework_cxx.Descriptor.{ensure_id, valid_descriptor, make_msg}
use actor_framework_cxx.Interface.{Port}
use actor_framework_cxx.TestPort.Frame.{test_port-Isolated}
use actor_framework_cxx.Slot.{Abi, stored, zero_msg}
use actor_framework_cxx.Ring.{length-held}
use actor_framework_cxx.Delivery.{apply_mailbox_overflow_policy, deliver, publish_to, publish}
use actor_framework_cxx.Delivery.Publish.{subscribers, publish_each, first_error, publish_lem}
use actor_framework_cxx.TestPort.{
  ActorState, TestState, state_for, put, pushed, enqueue, enqueue_in, test_port,
}
use actor_framework_cxx.TestPort.Mailbox.{
  IsValid, contents, Sent, queued, too_big, no_room, enqueue-Sent, state_for-put, state_for-actor,
}
use actor_framework_cxx.TestPort.Published.Copies.{
  Copied, none-Copied, other-Copied, refused-Copied, taken-Copied,
}
use actor_framework_cxx.TestPort.Published.Turn.{
  ne_of, publish_to_max, publish_to_other, publish_to_self,
}

module _ (abi : Abi) (calloc : (count size : ℕ) → Bool) where
  abbrev port : Port TestState
  port = test_port abi calloc

  -- All deliveries of a publication, for one mailbox.
  publish_each-Copied :
      (l : List ℕ) (m : Msg) (b : ℕ) (s : ActorState) (w : World TestState)
      → state_for b w.port ≡ some s
      → IsValid s
      → s.started ≡ true
      → (s' : ActorState) × (state_for b (publish_each port m l w).1.port ≡ some s')
        × Copied l b m s s' (w.core.actors b).max_payload_size
  unfolding publish_each
  publish_each-Copied [] m b s w p v st = (s, p, none-Copied b m s _ v st)
  publish_each-Copied (a ∷ l) m b s w p v st =
      let w1 = (publish_to port a m w).1 in
      let max = publish_to_max abi calloc a b m w in
      elim (Bool-cases (a == b)) [
        | inr e ↦
            let other : b ≢ a = λ z. ne_of a b e (sym z) in
            let (s', q, k) =
              publish_each-Copied l m b s w1 (publish_to_other abi calloc a b m w other ∙ p) v st in
            (s', q, other-Copied l a b m s s' _ e (subst (Copied l b m s s') max k))
        | inl e ↦
            subst
              (λ x.
                (s' : ActorState) × (state_for b
                    (publish_each port m l (publish_to port x m w).1).1.port
                  ≡ some s')
                × Copied (x ∷ l) b m s s' (w.core.actors b).max_payload_size)
              (sym (==→eq a b e))
              (elim (publish_to_self abi calloc b m s w p v st) [
                | inl (q, why) ↦
                    let u = (publish_to port b m w).1 in
                    let (s', q', k) = publish_each-Copied l m b s u q v st in
                    (
                      s',
                      q',
                      refused-Copied l b m s s' _ why
                          (subst (Copied l b m s s') (publish_to_max abi calloc b b m w) k),
                    )
                | inr (s1, q, v1, st1, cap, c) ↦
                    let u = (publish_to port b m w).1 in
                    let (s', q', k) = publish_each-Copied l m b s1 u q v1 st1 in
                    (
                      s',
                      q',
                      taken-Copied l b m s s1 s' _ cap c
                          (subst (Copied l b m s1 s') (publish_to_max abi calloc b b m w) k),
                    )
              ])
      ]

  -- An event that is published over the test port, in the mailbox of any actor that is valid and started:
  -- behind the messages that waited there are as many copies of the event, with the publisher's bytes, as
  -- the actor has subscriptions to it, or fewer, where the event is larger than the actor's
  -- limit or the mailbox is full; and the result is the first that is not 0, be it a negative error or
  -- the positive IPC_DELIVERY_DROPPED. The descriptor is a valid event.
  pub publish-Copied :
      (d : ℕ) (payload : Payload) (b : ℕ) (s : ActorState) (w : World TestState)
      → valid_descriptor (some d) event w.core ≡ true
      → state_for b w.port ≡ some s
      → IsValid s
      → s.started ≡ true
      → let w1 = on_core (ensure_id d) w in
        let x = w1.core.descs d in
        let m = record (make_msg x payload) { kind = event } in
        let l = subscribers x.id w1.core.sub_table in
        let r = publish port (some d) payload w in
        (r.0 ≡ first_error (publish_each port m l w1).0)
        × (s' : ActorState) × (state_for b r.1.port ≡ some s')
        × Copied l b m s s' (w1.core.actors b).max_payload_size
  publish-Copied d payload b s w h p v st =
      let w1 = on_core (ensure_id d) w in
      let x = w1.core.descs d in
      let m : Msg = record (make_msg x payload) { kind = event } in
      let l = subscribers x.id w1.core.sub_table in
      let e = publish_lem port d payload w h in
      let (s', q, k) = publish_each-Copied l m b s w1 p v st in
      (
        ap (λ (r : Rc × World TestState). r.0) e,
        s',
        ap (λ (r : Rc × World TestState). state_for b r.1.port) e ∙ q,
        k,
      )
