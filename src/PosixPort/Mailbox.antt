-- ===== src/PosixPort/Mailbox.antt =====
-- The ring of src/port/posix/posix_ipc_port.c as a queue: first in, first out.
use actor_framework_cxx.Slot.{Abi, stored, zero_msg}
use actor_framework_cxx.Prelude.{
  ◌<◌, ◌≡◌, refl, ap, ◌∙◌, true, false, List, [], ◌∷◌, ◌++◌, length, ◌⊎◌, inl, inr, Bool-cases, leb,
  arith, ◌==◌,
}
use actor_framework_cxx.State.{ok, err, enomem, emsgsize, Msg}
use actor_framework_cxx.Ring.{held, held-zero, length-held}
use actor_framework_cxx.Ring.Shape.{IsRing, push_lem, take_lem}
use actor_framework_cxx.PosixPort.{
  PortState, too_big, posix_pushed, send_state, posix_taken, outer, inner, goes_on, handles,
  thread_step,
}

-- The ring of an actor whose resources are ready.
abbrev pub RingValid : PortState → Type 0
RingValid p = IsRing p.ring p.capacity p.head p.tail p.count

-- The messages that wait, oldest first.
abbrev pub queue_of : PortState → List Msg
queue_of p = held zero_msg p.ring p.capacity p.head p.count

posix_pushed-queue_of :
    (m : Msg) (p : PortState)
    → RingValid p
    → p.count < p.capacity
    → RingValid (posix_pushed m p) × (queue_of (posix_pushed m p) ≡ queue_of p ++ (stored m ∷ []))
unfolding posix_pushed
posix_pushed-queue_of m p v h =
    push_lem zero_msg p.ring p.capacity p.head p.tail p.count (stored m) v h

-- A send on a valid ring: with room and a payload that fits its slots the copied message goes behind
-- those that wait; a full ring is refused with -ENOMEM and too large a payload with -EMSGSIZE, and
-- nothing changes. The ring stays valid.
pub send_state_lem :
    (abi : Abi) (m : Msg) (p : PortState)
    → RingValid p
    → let (rc, q) = send_state abi m p in
      RingValid q
      × (((rc ≡ ok) × (too_big abi p m ≡ false) × (queue_of q ≡ queue_of p ++ (stored m ∷ [])))
          ⊎ ((rc ≡ err enomem) × (length (queue_of p) ≡ p.capacity) × (q ≡ p))
          ⊎ ((rc ≡ err emsgsize) × (too_big abi p m ≡ true) × (q ≡ p)))
unfolding send_state
send_state_lem abi m p v = elim (Bool-cases (leb p.capacity p.count)) [
  | inl full ↦ rw full (
    v,
    inr (
        inl (
          refl,
          length-held zero_msg p.ring p.capacity p.head p.count
              ∙ ground (arith, full, v.count_bounded),
          refl,
        )),
  )
  | inr room ↦ elim (Bool-cases (too_big abi p m)) [
    | inl big ↦ rw (room, big) (v, inr (inr (refl, refl, refl)))
    | inr fits ↦
        let q = posix_pushed-queue_of m p v (ground (arith, room)) in
        rw (room, fits) (q.0, inl (refl, refl, q.1))
  ]
]

pub posix_taken-queue_of :
    (p : PortState)
    → RingValid p
    → 0 < p.count
    → RingValid ((posix_taken p).1)
      × (queue_of p ≡ (posix_taken p).0 ∷ queue_of ((posix_taken p).1))
unfolding posix_taken
posix_taken-queue_of p v h = take_lem zero_msg p.ring p.capacity p.head p.tail p.count v h

-- The inner loop of an actor's thread on a valid ring: it hands the oldest message to the handler and
-- leaves the others in their order, and goes back to the outer loop only when none waits, even if the
-- actor was stopped meanwhile. The ring stays valid.
pub thread_step-inner :
    (p : PortState)
    → RingValid p
    → let (act, t, q) = thread_step inner p in
      RingValid q
      × (((m : Msg) × (act ≡ handles m) × (t ≡ inner) × (queue_of p ≡ m ∷ queue_of q))
          ⊎ ((act ≡ goes_on) × (t ≡ outer) × (queue_of p ≡ []) × (q ≡ p)))
unfolding thread_step
thread_step-inner p v = elim (Bool-cases (p.count == 0)) [
  | inl z ↦ rw z (
    v,
    inr (
      refl,
      refl,
      ap (λ k. held zero_msg p.ring p.capacity p.head k) (ground (arith, z))
          ∙ held-zero zero_msg p.ring p.capacity p.head,
      refl,
    ),
  )
  | inr nz ↦
      let q = posix_taken-queue_of p v (ground (arith, nz)) in
      rw nz (q.0, inl ((posix_taken p).0, refl, refl, q.1))
]
