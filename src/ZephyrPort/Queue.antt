-- ===== src/ZephyrPort/Queue.antt =====
-- The message queue of an actor in src/port/zephyr/zephyr_ipc_port.c, on any kernel that keeps what its
-- documentation says: first in, first out.
use actor_framework_cxx.Prelude.{
  ◌<◌, ◌≤◌, ◌≡◌, refl, true, false, Bool, Bool-cases, Option, none, some, List, [], ◌∷◌, ◌++◌, inl,
  inr, ℕ, length, length-append, ltb, arith,
}
use actor_framework_cxx.State.{Rc, ok, dropped, err, value, enomem, emsgsize, is_zero, Msg}
use actor_framework_cxx.Slot.{Abi, payload_room, stored}
use actor_framework_cxx.ZephyrPort.Services.{Kernel, IsKernel}
use actor_framework_cxx.ZephyrPort.{
  ZephyrState, ZephyrConfig, put_result, send_zephyr, taken, thread_gets, cancel_zephyr,
  cancel_result, flushed, restart_zephyr, stop_zephyr, delayed_work_fn,
}

is_zero-ok : (rc : Rc) → rc ≡ ok → is_zero rc ≡ true
is_zero-ok rc h = rw h refl

is_zero-err : (rc : Rc) → (rc ≡ ok → ⊥) → is_zero rc ≡ false
is_zero-err ok h = absurd (h refl)
is_zero-err dropped h = refl
is_zero-err (err e) h = refl
is_zero-err (value n) h = refl

module _ {Q W : Type 0} (kernel : Kernel Q W) (laws : IsKernel kernel) (cfg : ZephyrConfig)
    (abi : Abi) where
  -- The messages that wait, oldest first.
  abbrev pub mailbox : ZephyrState Q W → List Msg
  mailbox p = laws.contents p.msgq

  -- No more messages wait than the queue has slots.
  abbrev pub QueueValid : ZephyrState Q W → Type 0
  QueueValid p = length (mailbox p) ≤ laws.depth p.msgq

  -- What a send of `m` on `p` can give: the result, and the state after it.
  pub data Posted (max : ℕ) (m : Msg) (p : ZephyrState Q W) (r : Rc × ZephyrState Q W)
      : Type 0 where
    queued :
        r.0 ≡ ok
        → mailbox r.1 ≡ mailbox p ++ (stored m ∷ [])
        → m.size ≤ max
        → m.size ≤ payload_room abi p.slot_size
        → Posted max m p r
    over_limit : r ≡ (err emsgsize, p) → max < m.size → Posted max m p r
    over_slot : r ≡ (err enomem, p) → payload_room abi p.slot_size < m.size → Posted max m p r
    full :
        r.0 ≡ err enomem
        → mailbox r.1 ≡ mailbox p
        → length (mailbox p) ≡ laws.depth p.msgq
        → Posted max m p r

  put_result-Posted :
      (max : ℕ) (m : Msg) (p : ZephyrState Q W)
      → QueueValid p
      → m.size ≤ max
      → m.size ≤ payload_room abi p.slot_size
      → let r = put_result kernel cfg abi p (kernel.msgq_put (stored m) p.msgq) in
        Posted max m p r × QueueValid r.1
  unfolding put_result
  put_result-Posted max m p v h k =
      elim (Bool-cases (ltb (length (mailbox p)) (laws.depth p.msgq))) [
        | inl room ↦
            let law = laws.put_room (stored m) p.msgq (ground (arith, room)) in
            rw (is_zero-ok _ law.0) (
              queued refl law.1 h k,
              ground (
                arith,
                room,
                law.1,
                laws.put_depth (stored m) p.msgq,
                length-append (mailbox p) (stored m ∷ []),
              ),
            )
        | inr no_room ↦
            let law = laws.put_full (stored m) p.msgq (ground (arith, no_room)) in
            rw (is_zero-err _ law.0) (
              full refl law.1 (ground (arith, no_room, v)),
              ground (arith, v, law.1, laws.put_depth (stored m) p.msgq),
            )
      ]

  -- A send on Zephyr, over any kernel that keeps its laws, whose queue holds no more than its slots:
  -- the copied message goes behind those that wait, or it is refused with -EMSGSIZE over the actor's
  -- limit, with -ENOMEM where it does not fit a slot, and with -ENOMEM where the queue is full, and the
  -- messages that wait are the same. The queue holds no more than its slots again.
  pub send_zephyr_lem :
      (max : ℕ) (m : Msg) (p : ZephyrState Q W)
      → QueueValid p
      → let r = send_zephyr kernel cfg abi max m p in Posted max m p r × QueueValid r.1
  unfolding send_zephyr
  send_zephyr_lem max m p v = elim (Bool-cases (ltb max m.size)) [
    | inl big ↦ rw big (over_limit refl (ground (arith, big)), v)
    | inr fits ↦ elim (Bool-cases (ltb (payload_room abi p.slot_size) m.size)) [
      | inl over ↦ rw (fits, over) (over_slot refl (ground (arith, over)), v)
      | inr under ↦
          rw (fits, under)
            (put_result-Posted max m p v (ground (arith, fits)) (ground (arith, under)))
    ]
  ]

  pub send-room :
      (max : ℕ) (m : Msg) (p : ZephyrState Q W)
      → length (mailbox p) < laws.depth p.msgq
      → m.size ≡ 0
      → let r = send_zephyr kernel cfg abi max m p in
        (r.0 ≡ ok) × (mailbox r.1 ≡ mailbox p ++ (stored m ∷ []))
  send-room max m p room e = elim (send_zephyr_lem max m p (omega (arith, room))).0 [
    | queued z q h k ↦ (z, q)
    | over_limit z h ↦ absurd (omega (arith, h, e))
    | over_slot z h ↦ absurd (omega (arith, h, e))
    | full z q n ↦ absurd (omega (arith, n, room))
  ]

  -- What the thread of an actor takes next: the oldest message, and the others wait in their order; the
  -- thread waits only where none does.
  pub data Taken (p : ZephyrState Q W) : Option (Msg × ZephyrState Q W) → Type 0 where
    oldest :
        (m : Msg) (q : ZephyrState Q W)
        → mailbox p ≡ m ∷ mailbox q
        → QueueValid q
        → Taken p (some (m, q))
    idles : mailbox p ≡ [] → Taken p none

  taken-Taken :
      (p : ZephyrState Q W) (o : Option (Msg × Q))
      → QueueValid p
      → kernel.msgq_get p.msgq ≡ o
      → Taken p (taken kernel cfg abi p o)
  unfolding taken
  taken-Taken p none v z = idles (laws.get_none p.msgq z)
  taken-Taken p (some (m, q)) v e =
      let law = laws.get_some p.msgq m q e in
      oldest m (record p { msgq = q }) law.0 (ground (arith, v, law.0, law.1))

  -- The thread of an actor on Zephyr takes the oldest message and leaves the others in their order, and
  -- it waits only where no message does. The queue held no more than its slots, and does so again.
  pub thread_gets-Taken :
      (p : ZephyrState Q W) → QueueValid p → Taken p (thread_gets kernel cfg abi p)
  unfolding thread_gets
  thread_gets-Taken p v = taken-Taken p (kernel.msgq_get p.msgq) v refl

  send_zephyr-thread :
      (max : ℕ) (m : Msg) (p : ZephyrState Q W)
      → (send_zephyr kernel cfg abi max m p).1.thread ≡ p.thread
  unfolding send_zephyr put_result
  send_zephyr-thread max m p = ground arith

  cancel_result-thread :
      (max : ℕ) (ran : Bool) (w : W) (p : ZephyrState Q W)
      → (cancel_result kernel cfg abi max (ran, w) p).thread ≡ p.thread
  unfolding cancel_result delayed_work_fn
  cancel_result-thread max true w p = send_zephyr-thread max p.delayed_msg p
  cancel_result-thread max false w p = refl

  flushed-idle :
      (b : Bool) (max : ℕ) (p : ZephyrState Q W)
      → b ≡ true
      → let q = flushed kernel cfg abi b max p in
        (laws.idle q.delayed_work ≡ true) × (q.thread ≡ p.thread)
  unfolding cancel_zephyr cancel_result
  flushed-idle true max p h =
      let r = kernel.work_cancel_flush p.delayed_work in
      (laws.flush_idle p.delayed_work, cancel_result-thread max r.0 r.1 p)
  flushed-idle false max p h = absurd (ground (arith, h))

  -- With delayed sends compiled in, an actor on Zephyr that was restarted has no message that waits, and
  -- one that was restarted or stopped has no delayed send that could still run; a stopped one has no
  -- thread. It is so also where the handler of the delayed send ran while it was cancelled.
  pub restart_clears :
      (max : ℕ) (p : ZephyrState Q W)
      → cfg.send_after ≡ true
      → let q = restart_zephyr kernel cfg abi max p in
        let s = stop_zephyr kernel cfg abi max p in
        (mailbox q ≡ [])
        × (laws.idle q.delayed_work ≡ true)
        × (q.thread ≡ p.thread)
        × (laws.idle s.delayed_work ≡ true)
        × (s.thread ≡ false)
  unfolding restart_zephyr stop_zephyr
  restart_clears max p h =
      let f = flushed-idle cfg.send_after max p h in (laws.purge_empty _, f.0, f.1, f.0, refl)
