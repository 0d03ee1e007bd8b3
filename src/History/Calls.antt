-- ===== src/History/Calls.antt =====
-- Each call of src/ipc.c but the ask itself that touches pending asks keeps their table valid.
use actor_framework_cxx.Prelude.{
  ℕ, inl, inr, Bool-cases, Option-cases, true, false, ◌||◌, not, Bool, Option, none, some, ◌==◌,
  if◌then◌else◌, arith,
}
use actor_framework_cxx.State.{
  Rc, is_zero, cmd, Payload, Msg, Slot, is_running, Config, Core, World, on_core,
}
use actor_framework_cxx.Interface.{Port, Isolated}
use actor_framework_cxx.Descriptor.{ensure_id, valid_descriptor}
use actor_framework_cxx.Delivery.{deliver}
use actor_framework_cxx.Delivery.Frame.{ensure_id-SameAsks, deliver-SameAsks}
use actor_framework_cxx.Ask.{
  Claim, denied, claimed, ask_cancel, claim_reply, claim_error, timeout_msg, unqueue_timeout,
  queue_timeout, cancel_found,
}
use actor_framework_cxx.Ask.Regions.{
  pending, AsksValid, drop_ask-AsksValid, mark_ask-AsksValid, mark_queued-KeepsId,
  mark_unqueued-KeepsId, queue_timeout-some, queue_timeout-none, unqueue_timeout-some,
  unqueue_timeout-none,
}
use actor_framework_cxx.Ask.Laws.{SameAsks-AsksValid}
use actor_framework_cxx.Ask.Reply.{
  or_drop, send_reply, reply_valid, reply, send_error, reply_error, error_msg, send_timeout,
  timeout_expired,
}
use actor_framework_cxx.Ask.Reply.Claims.{claim_reply-Claimed, claim_error-Claimed}
use actor_framework_cxx.Dispatch.{dispatch}
use actor_framework_cxx.Dispatch.Callbacks.{ends, dispatch-none, dispatch-some, dispatch-zero}

-- Each branch of a conditional on its own.
pub branch-AsksValid :
    {A : Type 0} (cfg : Config) (core : A → Core) (b : Bool) (x y : A)
    → AsksValid cfg (core x)
    → AsksValid cfg (core y)
    → AsksValid cfg (core (if b then x else y))
branch-AsksValid cfg core true x y f g = f
branch-AsksValid cfg core false x y f g = g

cancel_found-AsksValid :
    (cfg : Config) (self id : ℕ) (c : Core) (o : Option (ℕ × Slot))
    → AsksValid cfg c
    → AsksValid cfg (cancel_found self id c o).1
unfolding cancel_found
cancel_found-AsksValid cfg self id c none v = v
cancel_found-AsksValid cfg self id c (some (i, s)) v =
    branch-AsksValid cfg (λ (r : Rc × Core). r.1) (s.actor == self) _ _
      (drop_ask-AsksValid cfg c v id) v

pub ask_cancel-AsksValid :
    (cfg : Config) (self : Option ℕ) (id : ℕ) (c : Core)
    → AsksValid cfg c
    → AsksValid cfg (ask_cancel self id c).1
unfolding ask_cancel
ask_cancel-AsksValid cfg none id c v = v
ask_cancel-AsksValid cfg (some self) id c v =
    branch-AsksValid cfg (λ (r : Rc × Core). r.1) (id == 0) _ _ v
      (branch-AsksValid cfg (λ (r : Rc × Core). r.1) (not (is_running c.lifecycle)) _ _ v
        (cancel_found-AsksValid cfg self id c _ v))

pub dispatch-AsksValid :
    (cfg : Config) (self : Option ℕ) (m : Option Msg) (c : Core)
    → AsksValid cfg c
    → AsksValid cfg (dispatch self m c).1
dispatch-AsksValid cfg none m c v = unfold dispatch in v
dispatch-AsksValid cfg (some self) none c v = unfold dispatch in v
dispatch-AsksValid cfg (some self) (some m) c v = elim (Bool-cases (m.ask_id == 0)) [
  | inl z ↦ rw (dispatch-zero c self m z) v
  | inr nz ↦ elim (Option-cases (pending m.ask_id c)) [
    | inl p ↦ rw (dispatch-none c self m (ground (arith, nz)) p) v
    | inr (s, p) ↦ rw (dispatch-some c self m (ground (arith, nz)) s p) (
        branch-AsksValid cfg (λ (r : _ × Core). r.1) (ends self m s) _ _
          (drop_ask-AsksValid cfg c v m.ask_id) v)
  ]
]

module _ {P : Type 0} (cfg : Config) (port : Port P) (iso : Isolated port) where
  or_drop-AsksValid :
      (id : ℕ) (r : Rc × World P)
      → AsksValid cfg r.1.core
      → AsksValid cfg (or_drop port id r).1.core
  or_drop-AsksValid id (rc, w) v =
      branch-AsksValid cfg (λ (r : Rc × World P). r.1.core) (is_zero rc) _ _ v
        (drop_ask-AsksValid cfg w.core v id)

  send_reply-AsksValid :
      (m : Msg) (k : Claim × Core) (w : World P)
      → AsksValid cfg k.1
      → AsksValid cfg (send_reply port m k w).1.core
  unfolding send_reply
  send_reply-AsksValid m (denied rc, c) w v = v
  send_reply-AsksValid m (claimed target, c) w v =
      or_drop-AsksValid m.ask_id (deliver port target m (record w { core = c }))
        (SameAsks-AsksValid (deliver-SameAsks port iso target m (record w { core = c })) v)

  send_error-AsksValid :
      (m : Msg) (k : Claim × Core) (w : World P)
      → AsksValid cfg k.1
      → AsksValid cfg (send_error port m k w).1.core
  unfolding send_error
  send_error-AsksValid m (denied rc, c) w v = v
  send_error-AsksValid m (claimed target, c) w v =
      or_drop-AsksValid m.ask_id (port.send target m (record w { core = c }))
        (rw (iso.send target m (record w { core = c })) v)

  pub reply-AsksValid :
      (m : Option Msg) (d : Option ℕ) (payload : Payload) (w : World P)
      → AsksValid cfg w.core
      → AsksValid cfg (reply port m d payload w).1.core
  unfolding reply reply_valid
  reply-AsksValid none d payload w v = v
  reply-AsksValid (some m) none payload w v = v
  reply-AsksValid (some m) (some d) payload w v =
      let w' : World P = on_core (ensure_id d) w in
      let v' : AsksValid cfg w'.core = SameAsks-AsksValid (ensure_id-SameAsks d w.core) v in
      let x = w'.core.descs d in
      branch-AsksValid cfg (λ (r : Rc × World P). r.1.core)
        (m.ask_id == 0 || not (valid_descriptor (some d) cmd w.core)) _ _ v
        (send_reply-AsksValid _ (claim_reply m x.id x.size w'.core) w'
          (claim_reply-Claimed cfg w'.core v' m x.id x.size).1)

  pub reply_error-AsksValid :
      (m : Option Msg) (rc : Rc) (w : World P)
      → AsksValid cfg w.core
      → AsksValid cfg (reply_error port m rc w).1.core
  unfolding reply_error
  reply_error-AsksValid none rc w v = v
  reply_error-AsksValid (some m) rc w v =
      branch-AsksValid cfg (λ (r : Rc × World P). r.1.core)
        (m.ask_id == 0 || m.reply_id == 0 || is_zero rc) _ _ v
        (send_error-AsksValid (error_msg m rc) (claim_error m w.core) w
          (claim_error-Claimed cfg w.core v m).1)

  queue_timeout-AsksValid :
      (a id : ℕ) (c : Core) → AsksValid cfg c → AsksValid cfg (queue_timeout a id c).1
  queue_timeout-AsksValid a id c v = elim (Option-cases (pending id c)) [
    | inl p ↦ rw (queue_timeout-none c id p a) v
    | inr (s, p) ↦ rw (queue_timeout-some c id s p a) (
        branch-AsksValid cfg (λ (r : Bool × Core). r.1) (not (s.actor == a) || s.timeout_queued) _ _
          v (mark_ask-AsksValid cfg c v _ mark_queued-KeepsId id))
  ]

  unqueue_timeout-AsksValid :
      (a id : ℕ) (c : Core) → AsksValid cfg c → AsksValid cfg (unqueue_timeout a id c)
  unqueue_timeout-AsksValid a id c v = elim (Option-cases (pending id c)) [
    | inl p ↦ rw (unqueue_timeout-none c id p a) v
    | inr (s, p) ↦ rw (unqueue_timeout-some c id s p a) (
        branch-AsksValid cfg (λ (r : Core). r) (s.actor == a) _ _
          (mark_ask-AsksValid cfg c v _ mark_unqueued-KeepsId id) v)
  ]

  send_timeout-AsksValid :
      (a id : ℕ) (k : Bool × Core) (w : World P)
      → AsksValid cfg w.core
      → AsksValid cfg k.1
      → AsksValid cfg (send_timeout port a id k w).core
  unfolding send_timeout
  send_timeout-AsksValid a id (false, c) w v vk = v
  send_timeout-AsksValid a id (true, c) w v vk =
      let w1 : World P = record w { core = c } in
      let (rc, w') = port.send a (timeout_msg id) w1 in
      let v' : AsksValid cfg w'.core = rw (iso.send a (timeout_msg id) w1) vk in
      branch-AsksValid cfg (λ (r : World P). r.core) (is_zero rc) _ _ v'
        (unqueue_timeout-AsksValid a id w'.core v')

  pub timeout_expired-AsksValid :
      (a id : ℕ) (w : World P)
      → AsksValid cfg w.core
      → AsksValid cfg (timeout_expired port a id w).core
  unfolding timeout_expired
  timeout_expired-AsksValid a id w v =
      send_timeout-AsksValid a id (queue_timeout a id w.core) w v
        (queue_timeout-AsksValid a id w.core v)
