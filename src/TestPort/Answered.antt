-- ===== src/TestPort/Answered.antt =====
-- A reply from `ipc_reply_raw` of src/ipc.c over the mailbox of src/port/test/ipc_test_port.c to the
-- callback that `ipc_dispatch_actor_handlers` calls.
use actor_framework_cxx.Prelude.{
  ℕ, ◌<◌, ◌≡◌, ◌≢◌, refl, sym, ap, ◌∙◌, inl, inr, true, Bool, Bool-cases, ◌==◌, ==_refl, ltb,
  if◌then◌else◌, some, [], ◌∷◌, ◌++◌, not, ◌||◌, arith,
}
use actor_framework_cxx.State.{
  Rc, ok, dropped, err, value, einval, emsgsize, ealready, cmd, is_full, Payload, Msg, Slot, Config,
  Core, World, on_core,
}
use actor_framework_cxx.Interface.{Port, Invocation, to_callback}
use actor_framework_cxx.Descriptor.{ensure_id, valid_descriptor, make_msg}
use actor_framework_cxx.Slot.{Abi, stored}
use actor_framework_cxx.Delivery.{apply_mailbox_overflow_policy, deliver}
use actor_framework_cxx.Delivery.Frame.{ensure_id-SameAsks}
use actor_framework_cxx.Ask.{denied, claimed, drop_ask}
use actor_framework_cxx.Ask.Regions.{
  pending, AsksValid, mark_ask, pending-mark_ask, mark_sent-KeepsId, claim_reply-some,
}
use actor_framework_cxx.Ask.Laws.{SameAsks-AsksValid, SameAsks-pending}
use actor_framework_cxx.Ask.Reply.{or_drop, send_reply, reply_valid, reply}
use actor_framework_cxx.Ask.Reply.Claims.{sent}
use actor_framework_cxx.Dispatch.{dispatch}
use actor_framework_cxx.Dispatch.Callbacks.{ends, dispatch-some}
use actor_framework_cxx.TestPort.{ActorState, TestState, state_for, enqueue, test_port}
use actor_framework_cxx.TestPort.Mailbox.{
  IsValid, contents, Sent, queued, too_big, no_room, enqueue-Sent,
}
use actor_framework_cxx.TestPort.Delivered.{policy_kept, policy_full}

-- The message `r` waits in the mailbox of the actor, behind what waited in `s`, and calls the
-- callback when the actor dispatches it.
abbrev pub Answers : (self callback : ℕ) → Msg → ActorState → World TestState → Type 0
Answers self callback r s w =
    (s' : ActorState) × (state_for self w.port ≡ some s')
    × IsValid s'
    × (contents s' ≡ contents s ++ (r ∷ []))
    × ((dispatch (some self) (some r) w.core).0 ≡ to_callback callback self ok r.payload r.size r)

too_big_ne_ok : err emsgsize ≢ ok
too_big_ne_ok e = cc

einval_ne_ok : err einval ≢ ok
einval_ne_ok e = cc

module _ (abi : Abi) (calloc : (count size : ℕ) → Bool) where
  abbrev port : Port TestState
  port = test_port abi calloc

  -- A delivery that returned 0.
  pub delivered :
      (a : ℕ) (m : Msg) (s : ActorState) (w w' : World TestState)
      → state_for a w.port ≡ some s
      → IsValid s
      → s.started ≡ true
      → deliver port a m w ≡ (ok, w')
      → (s' : ActorState) × (state_for a w'.port ≡ some s')
        × IsValid s'
        × (contents s' ≡ contents s ++ (stored m ∷ []))
        × (w'.core ≡ w.core)
  unfolding deliver test_port
  delivered a m s w w' p v st e = by_sent (enqueue a m w) (enqueue-Sent a m s w p v st) e
    where
      by_sent :
          (r : Rc × World TestState)
          → Sent a m s w r
          → apply_mailbox_overflow_policy a r.0 r.1 ≡ (ok, w')
          → (s' : ActorState) × (state_for a w'.port ≡ some s')
            × IsValid s'
            × (contents s' ≡ contents s ++ (stored m ∷ []))
            × (w'.core ≡ w.core)
      by_sent r (queued s' z fits v' st' cap c put core) q =
          let same : w' ≡ r.1 =
            sym (ap (λ (u : Rc × World TestState). u.1) q)
            ∙ ap (λ (u : Rc × World TestState). u.1) (policy_kept a r.0 r.1 (ap is_full z)) in
          (
            s',
            ap (λ (u : World TestState). state_for a u.port) same
                ∙ put a
                ∙ ap (λ t. if t then some s' else state_for a w.port) (==_refl a),
            v',
            c,
            ap (λ (u : World TestState). u.core) same ∙ core,
          )
      by_sent r (too_big z big) q = absurd (
          too_big_ne_ok (
            sym (
              ap (λ u. (apply_mailbox_overflow_policy a u.0 u.1).0) z
              ∙ ap (λ (u : Rc × World TestState). u.0) (policy_kept a (err emsgsize) w refl))
            ∙ ap (λ (u : Rc × World TestState). u.0) q))
      by_sent r (no_room z full) q = absurd (
          (policy_full a w).0 (
            sym (ap (λ u. (apply_mailbox_overflow_policy a u.0 u.1).0) z)
            ∙ ap (λ (u : Rc × World TestState). u.0) q))

  or_drop_ok :
      (id : ℕ) (q : Rc × World TestState) (w' : World TestState)
      → or_drop port id q ≡ (ok, w')
      → q ≡ (ok, w')
  or_drop_ok id (ok, w) w' e = e
  or_drop_ok id (dropped, w) w' e = cc
  or_drop_ok id (err x, w) w' e = cc
  or_drop_ok id (value n, w) w' e = cc

  -- Where the locked part refuses a reply, the call does not return 0.
  denied_ne_ok :
      {B : Type 0} (m : Msg) (x : Rc) (c : Core) (w w' : World TestState)
      → x ≢ ok
      → send_reply port m (denied x, c) w ≡ (ok, w')
      → B
  unfolding send_reply
  denied_ne_ok m x c w w' n e = absurd (n (ap (λ (u : Rc × World TestState). u.0) e))

  module _ (cfg : Config) (m : Msg) (d : ℕ) (payload : Payload) (w w' : World TestState)
      (v : AsksValid cfg w.core) (h : 0 < m.ask_id) (t : Slot)
      (p : pending m.ask_id w.core ≡ some t) (s : ActorState)
      (at : state_for t.actor w.port ≡ some s) (sv : IsValid s) (st : s.started ≡ true) where
    abbrev answer : Msg
    answer = record (make_msg (w.core.descs d) payload) { ask_id = m.ask_id }

    abbrev marked : Core
    marked = mark_ask m.ask_id sent w.core

    claimed-Answers :
        t.reply_id ≡ (w.core.descs d).id
        → send_reply port answer (claimed t.actor, marked) w ≡ (ok, w')
        → Answers t.actor t.callback (stored answer) s w'
    unfolding send_reply
    claimed-Answers same e =
        let w2 : World TestState = record w { core = marked } in
        let sent_ok = or_drop_ok m.ask_id (deliver port t.actor answer w2) w' e in
        let (s', q, v', c, k) = delivered t.actor answer s w2 w' at sv st sent_ok in
        let open_ask : pending m.ask_id w'.core ≡ some (sent t) =
          ap (pending m.ask_id) k
          ∙ pending-mark_ask cfg w.core v sent mark_sent-KeepsId m.ask_id m.ask_id t p
          ∙ ap (λ b. if b then some (sent t) else pending m.ask_id w.core) (==_refl m.ask_id) in
        let hit : ends t.actor (stored answer) (sent t) ≡ true = ground (arith, same) in
        (
          s',
          q,
          v',
          c,
          ap (λ (u : Invocation × Core). u.0)
                (dispatch-some w'.core t.actor (stored answer) h (sent t) open_ask)
              ∙ rw hit refl,
        )

    reply_valid-Answers :
        reply_valid port m d payload w ≡ (ok, w') → Answers t.actor t.callback (stored answer) s w'
    unfolding reply_valid
    reply_valid-Answers e =
        let x = w.core.descs d in
        let e' =
          ap (λ k. send_reply port answer k w) (sym (claim_reply-some w.core m t p x.id x.size))
          ∙ e in
        elim (Bool-cases (not (t.reply_id == x.id) || not (m.reply_id == x.id))) [
          | inl bad ↦ denied_ne_ok m (err einval) w.core w w' (λ z. cc) (rw bad at e')
          | inr named ↦ elim (Bool-cases t.reply_sent) [
            | inl late ↦
                denied_ne_ok m (err ealready) w.core w w' (λ z. cc) (rw (named, late) at e')
            | inr first ↦ elim (Bool-cases (ltb (w.core.actors t.actor).max_payload_size x.size)) [
              | inl big ↦
                  denied_ne_ok m (err emsgsize) (drop_ask m.ask_id w.core) w w' (λ z. cc)
                    (rw (named, first, big) at e')
              | inr fits ↦ claimed-Answers (ground (arith, named)) (rw (named, first, fits) at e')
            ]
          ]
        ]

  -- A reply over the test port that returned 0, to a request of a pending ask, from its call to the
  -- callback: the reply, with the replier's bytes, waits in the mailbox of the actor that
  -- asked, behind what waited there, and when that actor dispatches it, its callback is called
  -- with the result 0 and those bytes. The ask table is valid, and the mailbox is valid and started.
  pub reply-Answers :
      (cfg : Config) (m : Msg) (d : ℕ) (payload : Payload) (w w' : World TestState) (t : Slot)
      (s : ActorState)
      → AsksValid cfg w.core
      → pending m.ask_id w.core ≡ some t
      → state_for t.actor w.port ≡ some s
      → IsValid s
      → s.started ≡ true
      → reply port (some m) (some d) payload w ≡ (ok, w')
      → let x = (ensure_id d w.core).descs d in
        Answers t.actor t.callback (stored (record (make_msg x payload) { ask_id = m.ask_id })) s w'
  unfolding reply
  reply-Answers cfg m d payload w w' t s v p at sv st e =
      let same = ensure_id-SameAsks d w.core in
      let w1 = on_core (ensure_id d) w in
      elim (Bool-cases (m.ask_id == 0 || not (valid_descriptor (some d) cmd w.core))) [
        | inl bad ↦ absurd (einval_ne_ok (ap (λ (u : Rc × World TestState). u.0) (rw bad at e)))
        | inr good ↦
            let h : 0 < m.ask_id = ground (arith, good) in
            reply_valid-Answers cfg m d payload w1 w' (SameAsks-AsksValid same v) h t
              (SameAsks-pending same m.ask_id ∙ p) s at sv st (rw good at e)
      ]
