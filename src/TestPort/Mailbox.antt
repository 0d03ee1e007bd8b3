-- ===== src/TestPort/Mailbox.antt =====
-- The mailboxes of src/port/test/ipc_test_port.c as queues: first in, first out.
use actor_framework_cxx.Slot.{stored, zero_msg}
use actor_framework_cxx.State.{on_port}
use actor_framework_cxx.Prelude.{
  ℕ, ◌<◌, ◌≤◌, ◌≡◌, refl, ◌∙◌, true, false, List, [], ◌∷◌, ◌++◌, arith, length, some, ◌==◌, ltb,
  inl, inr, if◌then◌else◌, Bool-cases,
}
use actor_framework_cxx.State.{Rc, ok, err, emsgsize, enomem, Msg, World}
use actor_framework_cxx.Ring.{held, length-held}
use actor_framework_cxx.Ring.Shape.{IsRing, push_lem, take_lem}
use actor_framework_cxx.TestPort.{
  ActorState, TestState, pushed, taken, put, state_for, enqueue, enqueue_in,
}

-- A mailbox in use.
abbrev pub IsValid : ActorState → Type 0
IsValid s = IsRing s.queue s.capacity s.head s.tail s.count

-- The messages that wait in a mailbox, oldest first.
abbrev pub contents : ActorState → List Msg
contents s = held zero_msg s.queue s.capacity s.head s.count

-- A message that is put into a mailbox that is not full goes behind those that wait.
pub pushed-contents :
    (m : Msg) (s : ActorState)
    → IsValid s
    → s.count < s.capacity
    → IsValid (pushed m s) × (contents (pushed m s) ≡ contents s ++ (stored m ∷ []))
unfolding pushed
pushed-contents m s v h = push_lem zero_msg s.queue s.capacity s.head s.tail s.count (stored m) v h

-- The message that is taken out of a mailbox is the oldest, and the others stay in their order.
pub taken-contents :
    (s : ActorState)
    → IsValid s
    → 0 < s.count
    → IsValid ((taken s).1) × (contents s ≡ (taken s).0 ∷ contents ((taken s).1))
unfolding taken
taken-contents s v h = take_lem zero_msg s.queue s.capacity s.head s.tail s.count v h

pub state_for-actor :
    (a : ℕ) (t : TestState) (s : ActorState) → state_for a t ≡ some s → s.actor ≡ a
unfolding state_for
state_for-actor a [] s h = cc
state_for-actor a (x ∷ t) s h = elim (Bool-cases (x.actor == a)) [
  | inl e ↦ ground (arith, rw e at h)
  | inr e ↦ state_for-actor a t s (rw e at h)
]

-- Writing back the state of an actor that has one changes that state only.
pub state_for-put :
    (a b : ℕ) (t : TestState) (s s' : ActorState)
    → state_for a t ≡ some s
    → s'.actor ≡ a
    → state_for b (put s' t) ≡ (if a == b then some s' else state_for b t)
unfolding state_for put
state_for-put a b [] s s' h e = cc
state_for-put a b (x ∷ t) s s' h e = elim (Bool-cases (x.actor == a)) [
  | inl q ↦ ground (arith, q)
  | inr q ↦ let ih = state_for-put a b t s s' (rw q at h) e in ground (arith, q, ih)
]

-- What a call of `ipc_port_send` for the actor `a` with the mailbox `s` does to the port.
pub data Sent (a : ℕ) (m : Msg) (s : ActorState) (w : World TestState) (r : Rc × World TestState)
    : Type 0 where
  queued :
      (s' : ActorState)
      → r.0 ≡ ok
      → m.size ≤ (w.core.actors a).max_payload_size
      → IsValid s'
      → s'.started ≡ true
      → s'.capacity ≡ s.capacity
      → contents s' ≡ contents s ++ (stored m ∷ [])
      → ((b : ℕ) → state_for b r.1.port ≡ (if a == b then some s' else state_for b w.port))
      → r.1.core ≡ w.core
      → Sent a m s w r
  too_big : r ≡ (err emsgsize, w) → (w.core.actors a).max_payload_size < m.size → Sent a m s w r
  no_room : r ≡ (err enomem, w) → length (contents s) ≡ s.capacity → Sent a m s w r

pushed-actor :
    (a : ℕ) (m : Msg) (s : ActorState) (w : World TestState)
    → state_for a w.port ≡ some s
    → (pushed m s).actor ≡ a
unfolding pushed
pushed-actor a m s w h = state_for-actor a w.port s h

pushed_fields :
    (m : Msg) (s : ActorState)
    → s.started ≡ true
    → ((pushed m s).started ≡ true) × ((pushed m s).capacity ≡ s.capacity)
unfolding pushed
pushed_fields m s st = (st, refl)

enqueue-room :
    (a : ℕ) (m : Msg) (s : ActorState) (w : World TestState)
    → state_for a w.port ≡ some s
    → s.started ≡ true
    → ltb (w.core.actors a).max_payload_size m.size ≡ false
    → (s.count == s.capacity) ≡ false
    → enqueue a m w ≡ (ok, on_port (put (pushed m s)) w)
unfolding enqueue enqueue_in
enqueue-room a m s w h st fits room = rw (h, room, fits) (ground (arith, st))

-- A send to an actor with a started, valid mailbox: the message goes behind those that wait there,
-- and no other mailbox and nothing of the core changes; or it is refused with -EMSGSIZE for its
-- size or with -ENOMEM for a full mailbox, and nothing changes.
pub enqueue-Sent :
    (a : ℕ) (m : Msg) (s : ActorState) (w : World TestState)
    → state_for a w.port ≡ some s
    → IsValid s
    → s.started ≡ true
    → Sent a m s w (enqueue a m w)
unfolding enqueue enqueue_in
enqueue-Sent a m s w h v st = elim (Bool-cases (ltb (w.core.actors a).max_payload_size m.size)) [
  | inl big ↦ rw (h, st, big) (too_big refl (ground (arith, big)))
  | inr fits ↦ elim (Bool-cases (s.count == s.capacity)) [
    | inl full ↦
        rw (h, st, fits, full)
          (no_room refl
            (length-held zero_msg s.queue s.capacity s.head s.count ∙ ground (arith, full)))
    | inr room ↦
        let q = pushed-contents m s v (ground (arith, room)) in
        let e = enqueue-room a m s w h st fits room in
        rw e (
          queued (pushed m s) refl (ground (arith, fits)) q.0 (pushed_fields m s st).0
            (pushed_fields m s st).1 q.1
            (λ b. state_for-put a b w.port s (pushed m s) h (pushed-actor a m s w h)) refl)
  ]
]
