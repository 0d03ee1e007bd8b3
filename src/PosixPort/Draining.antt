-- ===== src/PosixPort/Draining.antt =====
-- The thread of an actor in src/port/posix/posix_ipc_port.c, `ipc_thread_fn`, on its own: nobody
-- sends while it runs.
use actor_framework_cxx.Slot.{zero_msg}
use actor_framework_cxx.Prelude.{
  ℕ, zero, suc, ◌+◌, ◌-◌, ◌<◌, ◌≡◌, refl, sym, ap, ◌∙◌, false, List, [], ◌∷◌, arith,
}
use actor_framework_cxx.State.{Msg}
use actor_framework_cxx.Ring.{held, held-zero}
use actor_framework_cxx.PosixPort.{
  PortState, posix_taken, Thread, outer, inner, asleep, finished, Act, goes_on, handles,
  thread_step,
}
use actor_framework_cxx.PosixPort.Mailbox.{RingValid, queue_of, posix_taken-queue_of}

abbrev pub handled : Act → List Msg → List Msg
handled (handles m) l = m ∷ l
handled _ l = l

-- So many steps of the thread: the messages handed to the handler, oldest first, and where it is then.
unfoldable pub thread_run : ℕ → Thread → PortState → List Msg × Thread × PortState
thread_run zero t p = ([], t, p)
thread_run (suc n) t p =
    let (act, t1, p1) = thread_step t p in
    let (l, t2, p2) = thread_run n t1 p1 in (handled act l, t2, p2)

taken-count : (p : PortState) → ((posix_taken p).1).count ≡ p.count - 1
unfolding posix_taken
taken-count p = refl

taken-running : (p : PortState) → ((posix_taken p).1).running ≡ p.running
unfolding posix_taken
taken-running p = refl

step-idle : (p : PortState) → p.count ≡ 0 → thread_step inner p ≡ (goes_on, outer, p)
unfolding thread_step
step-idle p e = ground (arith, e)

step-busy :
    (p : PortState)
    → 0 < p.count
    → thread_step inner p ≡ (handles ((posix_taken p).0), inner, (posix_taken p).1)
unfolding thread_step
step-busy p e = ground (arith, e)

step-end : (p : PortState) → p.running ≡ false → thread_step outer p ≡ (goes_on, finished, p)
unfolding thread_step
step-end p r = ground (arith, r)

step-wakes : (p : PortState) → p.running ≡ false → thread_step asleep p ≡ (goes_on, inner, p)
unfolding thread_step
step-wakes p r = ground (arith, r)

stays_finished : (n : ℕ) (p : PortState) → thread_run n finished p ≡ ([], finished, p)
unfolding thread_run thread_step
stays_finished zero p = refl
stays_finished (suc n) p = rw (stays_finished n p) refl

ends_at_once :
    (p : PortState) → p.running ≡ false → (n : ℕ) → thread_run (n + 1) outer p ≡ ([], finished, p)
unfolding thread_run
ends_at_once p r n =
    let k : n + 1 ≡ suc n = omega arith in rw (k, step-end p r) (rw (stays_finished n p) refl)

-- The thread hands out what waits and ends.
Drained : ℕ → Thread → PortState → Type 0
Drained n t p =
    ((thread_run n t p).0 ≡ queue_of p)
    × ((thread_run n t p).1 ≡ finished)
    × ((thread_run n t p).2.count ≡ 0)

drains :
    (n : ℕ) (p : PortState)
    → p.count ≡ n
    → RingValid p
    → p.running ≡ false
    → Drained (suc (suc n)) inner p
unfolding thread_run Drained
drains zero p e v r =
    rw (step-idle p e, step-end p r)
      (
        sym (
            ap (λ k. held zero_msg p.ring p.capacity p.head k) e
            ∙ held-zero zero_msg p.ring p.capacity p.head),
        refl,
        e,
      )
drains (suc n) p e v r =
    let (w, q) = posix_taken-queue_of p v (omega arith) in
    let (l, t, k) =
      drains n ((posix_taken p).1) (omega (arith, taken-count p)) w (taken-running p ∙ r) in
    rw (step-busy p (omega arith)) (ap (λ l. (posix_taken p).0 ∷ l) l ∙ sym q, t, k)

-- The thread of an actor that was stopped ends, from each of its tests: from the wait or from the inner
-- loop on it hands out every message that waits, in the order in which they came, and reaches its end with
-- none left, in three steps more than messages wait; at the test of the outer loop, where it also is before
-- it first takes the lock, it ends at once, handles nothing, and leaves what waits in the mailbox. The
-- ring is valid, and nobody sends meanwhile.
pub thread_ends :
    (p : PortState)
    → RingValid p
    → p.running ≡ false
    → ((thread_run (p.count + 2) inner p).0 ≡ queue_of p)
      × ((thread_run (p.count + 2) inner p).1 ≡ finished)
      × ((thread_run (p.count + 2) inner p).2.count ≡ 0)
      × ((thread_run (p.count + 3) asleep p).0 ≡ queue_of p)
      × ((thread_run (p.count + 3) asleep p).1 ≡ finished)
      × ((thread_run (p.count + 3) asleep p).2.count ≡ 0)
      × ((n : ℕ) → thread_run (n + 1) outer p ≡ ([], finished, p))
unfolding thread_run Drained
thread_ends p v r =
    let d = drains p.count p refl v r in
    let n : p.count + 2 ≡ suc (suc p.count) = omega arith in
    let k : p.count + 3 ≡ suc (suc (suc p.count)) = omega arith in
    rw (n, k, step-wakes p r) (d.0, d.1, d.2, d.0, d.1, d.2, ends_at_once p r)
