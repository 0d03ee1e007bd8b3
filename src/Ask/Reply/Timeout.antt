-- ===== src/Ask/Reply/Timeout.antt =====
-- `ipc_ask_timeout_expired` of src/ipc.c, over any port that leaves the core alone.
use actor_framework_cxx.Prelude.{
  ℕ, ◌⊎◌, inl, inr, Bool-cases, Option-cases, sym, subst, refl, none, ◌≡◌, ◌≢◌, ◌∙◌, ==_refl, ◌||◌,
  not, true, false, Option, some, arith, ◌==◌, if◌then◌else◌,
}
use mathlib.Core.Option.{some-injective}
use actor_framework_cxx.State.{
  Rc, ok, dropped, err, value, is_zero, Slot, Config, Core, World, on_core,
}
use actor_framework_cxx.Interface.{Port, Isolated}
use actor_framework_cxx.Ask.{unqueue_timeout, timeout_msg}
use actor_framework_cxx.Ask.Regions.{
  pending, AsksValid, mark_ask, pending-mark_ask, mark_ask-AsksValid, mark_queued-KeepsId,
  mark_unqueued-KeepsId, queue_timeout-some, queue_timeout-none, unqueue_timeout-some,
}
use actor_framework_cxx.Ask.Reply.{timeout_expired, send_timeout}

-- The slot while a timeout message is under way, and after that message could not be sent.
abbrev pub queued : Slot → Slot
queued s = record s { reply_sent = true; timeout_queued = true }

abbrev pub unqueued : Slot → Slot
unqueued s = record s { reply_sent = false; timeout_queued = false }

abbrev pub with_core : {P : Type 0} → World P → Core → World P
with_core w c = record w { core = c }

nothing : {B : Type 0} (s : Slot) → none ≡ some s → B
nothing s e = cc

ok-cases : (rc : Rc) → (rc ≡ ok) ⊎ (rc ≢ ok)
ok-cases ok = inl refl
ok-cases dropped = inr (λ e. cc)
ok-cases (err x) = inr (λ e. cc)
ok-cases (value n) = inr (λ e. cc)

nonzero : (rc : Rc) → rc ≢ ok → is_zero rc ≡ false
nonzero rc h = ground arith

-- What `ipc_ask_timeout_expired` of the actor `a` and the ask `id` leaves: nothing is changed where the
-- ask is not pending for the actor or its timeout was queued before. Else, where the port sends the
-- message, the ask is closed to replies, and where it does not, it is open to replies and to another
-- timeout. All other asks are as before.
abbrev pub Expired : {P : Type 0} → Port P → (a id : ℕ) → World P → World P → Type 0
Expired port a id w w' =
    ((w' ≡ w)
      × ((s : Slot) → pending id w.core ≡ some s → (not (s.actor == a) || s.timeout_queued) ≡ true))
    ⊎ ((s : Slot) × (pending id w.core ≡ some s)
        × (s.actor ≡ a)
        × (s.timeout_queued ≡ false)
        × (let rc = (port.send a (timeout_msg id) (with_core w (mark_ask id queued w.core))).0 in
            ((rc ≡ ok)
              × ((j : ℕ)
                  → pending j w'.core ≡ (if id == j then some (queued s) else pending j w.core)))
            ⊎ ((rc ≢ ok)
                × ((j : ℕ)
                    → pending j w'.core
                      ≡ (if id == j then some (unqueued s) else pending j w.core)))))

merge :
    (id j : ℕ) (x y p q : Option Slot)
    → q ≡ (if id == j then x else p)
    → (if id == j then y else q) ≡ (if id == j then y else p)
merge id j x y p q h = ground arith

module _ {P : Type 0} (cfg : Config) (port : Port P) (iso : Isolated port) where
  -- Nothing happens where the ask is not pending for the actor, or its timeout is already under way.
  pub timeout_expired-ignored :
      (a id : ℕ) (w : World P)
      → ((s : Slot) → pending id w.core ≡ some s → (not (s.actor == a) || s.timeout_queued) ≡ true)
      → timeout_expired port a id w ≡ w
  unfolding timeout_expired
  timeout_expired-ignored a id w h = elim (Option-cases (pending id w.core)) [
    | inl p ↦ rw (queue_timeout-none w.core id p a, send_timeout)
    | inr (s, p) ↦ rw (queue_timeout-some w.core id s p a, h s p, send_timeout)
  ]

  module _ (a id : ℕ) (w : World P) (v : AsksValid cfg w.core) (s : Slot)
      (p : pending id w.core ≡ some s) (own : s.actor ≡ a) (idle : s.timeout_queued ≡ false) where
    abbrev pub marked : World P
    marked = with_core w (mark_ask id queued w.core)

    pub expired-step : timeout_expired port a id w ≡ (
        let (rc, w') = port.send a (timeout_msg id) marked in
        if is_zero rc then w' else on_core (unqueue_timeout a id) w')
    unfolding timeout_expired send_timeout
    expired-step =
        let q : (not (s.actor == a) || s.timeout_queued) ≡ false = ground arith in
        rw (queue_timeout-some w.core id s p a, q)

    -- The first timeout of an ask of the actor whose message goes out: the ask stays pending, closed
    -- to replies, and every other ask is as before. The table is valid, the ask is pending for the
    -- actor, no timeout of it is queued, and the port leaves the core alone.
    pub timeout_expired-queued :
        (port.send a (timeout_msg id) marked).0 ≡ ok
        → (j : ℕ)
        → pending j (timeout_expired port a id w).core
          ≡ (if id == j then some (queued s) else pending j w.core)
    timeout_expired-queued h j =
        rw (expired-step, h, iso.send a (timeout_msg id) marked)
          (pending-mark_ask cfg w.core v queued mark_queued-KeepsId id j s p)

    -- Where the message of the first timeout does not go out, the ask is open to replies again, and
    -- every other ask is as before. The table is valid, the ask is pending for the actor, no timeout
    -- of it is queued, and the port leaves the core alone.
    pub timeout_expired-unqueued :
        (port.send a (timeout_msg id) marked).0 ≢ ok
        → (j : ℕ)
        → pending j (timeout_expired port a id w).core
          ≡ (if id == j then some (unqueued s) else pending j w.core)
    timeout_expired-unqueued h j =
        rw (expired-step, nonzero (port.send a (timeout_msg id) marked).0 h)
          (rw
            (
              iso.send a (timeout_msg id) marked,
              unqueue_timeout-some (mark_ask id queued w.core) id (queued s) now_queued a,
              is_own,
            )
            (pending-mark_ask cfg (mark_ask id queued w.core)
                (mark_ask-AsksValid cfg w.core v queued mark_queued-KeepsId id) unqueued
                mark_unqueued-KeepsId id j (queued s) now_queued
              ∙ merge id j (some (queued s)) (some (unqueued s)) (pending j w.core) _
                  (pending-mark_ask cfg w.core v queued mark_queued-KeepsId id j s p)))
      where
        is_own : ((queued s).actor == a) ≡ true
        is_own = ground arith

        now_queued : pending id (mark_ask id queued w.core) ≡ some (queued s)
        now_queued =
            pending-mark_ask cfg w.core v queued mark_queued-KeepsId id id s p ∙ rw (==_refl id)

    -- An ask that is answered already is marked as not answered when its first timeout expires and
    -- the message does not go out. The table is valid, the ask is pending for the actor, no timeout
    -- of it is queued, and the port leaves the core alone.
    pub timeout_reopens :
        s.reply_sent ≡ true
        → (port.send a (timeout_msg id) marked).0 ≢ ok
        → (pending id (timeout_expired port a id w).core ≡ some (record s { reply_sent = false }))
    timeout_reopens n h = timeout_expired-unqueued h id ∙ rw (==_refl id) (ground arith)

  -- A timeout, on every branch: it changes nothing if the ask is not pending for the actor or its
  -- timeout was queued before; else the ask stays pending, closed to replies and to timeouts if the
  -- port sends the message, and open to both if it does not, even if it had been answered. The other
  -- asks are as before. The table is valid, and the port leaves the core alone.
  pub timeout_expired_lem :
      (a id : ℕ) (w : World P)
      → AsksValid cfg w.core
      → Expired port a id w (timeout_expired port a id w)
  timeout_expired_lem a id w v = elim (Option-cases (pending id w.core)) [
    | inl p ↦
        let gone = λ (s : Slot) (q : pending id w.core ≡ some s). nothing s (sym p ∙ q) in
        inl (timeout_expired-ignored a id w gone, gone)
    | inr (s, p) ↦ elim (Bool-cases (not (s.actor == a) || s.timeout_queued)) [
      | inl late ↦
          let same = λ (t : Slot) (q : pending id w.core ≡ some t).
            subst (λ u. (not (u.actor == a) || u.timeout_queued) ≡ true)
              (some-injective s t (sym p ∙ q)) late in
          inl (timeout_expired-ignored a id w same, same)
      | inr first ↦
          let own : s.actor ≡ a = ground arith in
          let idle : s.timeout_queued ≡ false = ground arith in
          let rc = (port.send a (timeout_msg id) (with_core w (mark_ask id queued w.core))).0 in
          inr (
            s,
            p,
            own,
            idle,
            elim (ok-cases rc) [
              | inl sent ↦ inl (sent, timeout_expired-queued a id w v s p own idle sent)
              | inr lost ↦ inr (lost, timeout_expired-unqueued a id w v s p own idle lost)
            ],
          )
    ]
  ]
