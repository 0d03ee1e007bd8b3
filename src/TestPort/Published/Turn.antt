-- ===== src/TestPort/Published/Turn.antt =====
-- One delivery of a publication of src/ipc.c over src/port/test/ipc_test_port.c: the mailbox of its actor,
-- and the others.
use actor_framework_cxx.Prelude.{
  ℕ, ◌<◌, ◌≡◌, ◌≢◌, ◌⊎◌, refl, ap, ◌∙◌, inl, inr, true, false, Bool, Bool-cases, ◌==◌, ==_refl, ltb,
  if◌then◌else◌, Option, none, some, [], ◌∷◌, ◌++◌, length, arith,
}
use actor_framework_cxx.State.{Rc, err, emsgsize, Msg, Core, World}
use actor_framework_cxx.Interface.{Port}
use actor_framework_cxx.TestPort.Frame.{test_port-Isolated}
use actor_framework_cxx.Slot.{Abi, stored}
use actor_framework_cxx.Delivery.{apply_mailbox_overflow_policy, deliver, publish_to}
use actor_framework_cxx.TestPort.{
  ActorState, TestState, state_for, put, pushed, enqueue, enqueue_in, test_port,
}
use actor_framework_cxx.TestPort.Mailbox.{
  IsValid, contents, Sent, queued, too_big, no_room, enqueue-Sent, state_for-put, state_for-actor,
}

policy-max :
    (a b : ℕ) (rc : Rc) (w : World TestState)
    → ((apply_mailbox_overflow_policy a rc w).1.core.actors b).max_payload_size
      ≡ (w.core.actors b).max_payload_size
unfolding apply_mailbox_overflow_policy
policy-max a b rc w = ground arith

policy-port :
    (a : ℕ) (rc : Rc) (w : World TestState) → (apply_mailbox_overflow_policy a rc w).1.port ≡ w.port
unfolding apply_mailbox_overflow_policy
policy-port a rc w = ground arith

pub ne_of : (a b : ℕ) → (a == b) ≡ false → a ≢ b
ne_of a b e z = ground (arith, e, z)

pushed-actor_kept : (m : Msg) (x : ActorState) → (pushed m x).actor ≡ x.actor
unfolding pushed
pushed-actor_kept m x = refl

enqueue_in-other :
    (b : ℕ) (x : ActorState) (m : Msg) (max : ℕ) (w : World TestState)
    → state_for b (put (pushed m x) w.port) ≡ state_for b w.port
    → state_for b (enqueue_in (some x) m max w).1.port ≡ state_for b w.port
unfolding enqueue_in
enqueue_in-other b x m max w h = ground (arith, h)

enqueue-other :
    (a b : ℕ) (m : Msg) (w : World TestState)
    → b ≢ a
    → state_for b (enqueue a m w).1.port ≡ state_for b w.port
unfolding enqueue
enqueue-other a b m w n = by_state (state_for a w.port) refl
  where
    by_state :
        (o : Option ActorState)
        → state_for a w.port ≡ o
        → state_for b (enqueue_in o m (w.core.actors a).max_payload_size w).1.port
          ≡ state_for b w.port
    by_state none e = unfold enqueue_in in refl
    by_state (some x) e =
        let owner = pushed-actor_kept m x ∙ state_for-actor a w.port x e in
        let put_other = state_for-put a b w.port x (pushed m x) e owner in
        let other : (a == b) ≡ false = ground (arith, n) in
        enqueue_in-other b x m (w.core.actors a).max_payload_size w
          (put_other ∙ ap (λ c. if c then some (pushed m x) else state_for b w.port) other)

module _ (abi : Abi) (calloc : (count size : ℕ) → Bool) where
  abbrev port : Port TestState
  port = test_port abi calloc

  -- One delivery of a publication is a test of the size and a send under the policy.
  publish_to-cases :
      (a : ℕ) (m : Msg) (w : World TestState)
      → (((w.core.actors a).max_payload_size < m.size)
          × (publish_to port a m w ≡ (err emsgsize, w)))
        ⊎ (publish_to port a m w
            ≡ apply_mailbox_overflow_policy a (enqueue a m w).0 (enqueue a m w).1)
  unfolding publish_to deliver test_port
  publish_to-cases a m w = elim (Bool-cases (ltb (w.core.actors a).max_payload_size m.size)) [
    | inl big ↦ inl (ground (arith, big), rw big refl)
    | inr fits ↦ inr (rw fits refl)
  ]

  pub publish_to_max :
      (a b : ℕ) (m : Msg) (w : World TestState)
      → ((publish_to port a m w).1.core.actors b).max_payload_size
        ≡ (w.core.actors b).max_payload_size
  unfolding enqueue test_port
  publish_to_max a b m w = elim (publish_to-cases a m w) [
    | inl (big, e) ↦ ap (λ (r : Rc × World TestState). (r.1.core.actors b).max_payload_size) e
    | inr e ↦
        ap (λ (r : Rc × World TestState). (r.1.core.actors b).max_payload_size) e
        ∙ policy-max a b (enqueue a m w).0 (enqueue a m w).1
        ∙ ap (λ (c : Core). (c.actors b).max_payload_size)
            ((test_port-Isolated abi calloc).send a m w)
  ]

  pub publish_to_other :
      (a b : ℕ) (m : Msg) (w : World TestState)
      → b ≢ a
      → state_for b (publish_to port a m w).1.port ≡ state_for b w.port
  publish_to_other a b m w n = elim (publish_to-cases a m w) [
    | inl (big, e) ↦ ap (λ (r : Rc × World TestState). state_for b r.1.port) e
    | inr e ↦
        ap (λ (r : Rc × World TestState). state_for b r.1.port) e
        ∙ ap (state_for b) (policy-port a (enqueue a m w).0 (enqueue a m w).1)
        ∙ enqueue-other a b m w n
  ]

  -- The delivery to an actor in its own mailbox: nothing is changed there where the message is too
  -- large or the mailbox is full, and else it goes behind those that wait.
  pub publish_to_self :
      (b : ℕ) (m : Msg) (s : ActorState) (w : World TestState)
      → state_for b w.port ≡ some s
      → IsValid s
      → s.started ≡ true
      → ((state_for b (publish_to port b m w).1.port ≡ some s)
          × (((w.core.actors b).max_payload_size < m.size) ⊎ (length (contents s) ≡ s.capacity)))
        ⊎ ((s' : ActorState) × (state_for b (publish_to port b m w).1.port ≡ some s')
            × IsValid s'
            × (s'.started ≡ true)
            × (s'.capacity ≡ s.capacity)
            × (contents s' ≡ contents s ++ (stored m ∷ [])))
  publish_to_self b m s w p v st = elim (publish_to-cases b m w) [
    | inl (big, e) ↦ inl (ap (λ (r : Rc × World TestState). state_for b r.1.port) e ∙ p, inl big)
    | inr e ↦ by_sent (enqueue b m w) (enqueue-Sent b m s w p v st) (
        ap (λ (r : Rc × World TestState). state_for b r.1.port) e
        ∙ ap (state_for b) (policy-port b (enqueue b m w).0 (enqueue b m w).1))
  ]
    where
      by_sent :
          (r : Rc × World TestState)
          → Sent b m s w r
          → state_for b (publish_to port b m w).1.port ≡ state_for b r.1.port
          → ((state_for b (publish_to port b m w).1.port ≡ some s)
              × (((w.core.actors b).max_payload_size < m.size)
                  ⊎ (length (contents s) ≡ s.capacity)))
            ⊎ ((s' : ActorState) × (state_for b (publish_to port b m w).1.port ≡ some s')
                × IsValid s'
                × (s'.started ≡ true)
                × (s'.capacity ≡ s.capacity)
                × (contents s' ≡ contents s ++ (stored m ∷ [])))
      by_sent r (queued s' z fits v' st' cap c put core) q = inr (
        s',
        q ∙ put b ∙ ap (λ t. if t then some s' else state_for b w.port) (==_refl b),
        v',
        st',
        cap,
        c,
      )
      by_sent r (too_big z big) q =
          inl (q ∙ ap (λ (u : Rc × World TestState). state_for b u.1.port) z ∙ p, inl big)
      by_sent r (no_room z full) q =
          inl (q ∙ ap (λ (u : Rc × World TestState). state_for b u.1.port) z ∙ p, inr full)
