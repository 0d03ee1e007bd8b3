-- ===== src/Ask/Reply/Once.antt =====
-- An ask is answered once: what `ipc_reply_raw` and `ipc_reply_error_raw` of src/ipc.c do to the
-- pending asks, over any port that leaves the core alone.
use actor_framework_cxx.Prelude.{
  ℕ, ◌⊎◌, inl, inr, Bool-cases, ◌<◌, ◌≡◌, ◌≢◌, refl, ◌∙◌, ==_refl, ◌||◌, not, true, false, Option,
  none, some, arith, ◌==◌, if◌then◌else◌,
}
use actor_framework_cxx.State.{
  Rc, ok, err, ealready, is_zero, cmd, Payload, Msg, Slot, Config, Core, World, on_core,
}
use actor_framework_cxx.Interface.{Port, Isolated}
use actor_framework_cxx.Descriptor.{ensure_id, valid_descriptor, make_msg}
use actor_framework_cxx.Delivery.{deliver}
use actor_framework_cxx.Delivery.Frame.{
  SameAsks, SameAsks-refl, ensure_id-SameAsks, deliver-SameAsks,
}
use actor_framework_cxx.Ask.{Claim, denied, claimed, claim_reply, claim_error}
use actor_framework_cxx.Ask.Regions.{pending, AsksValid, pending-drop_ask, claim_error-some}
use actor_framework_cxx.Ask.Reply.Claims.{sent, Claimed, claim_reply-Claimed, claim_error-Claimed}
use actor_framework_cxx.Ask.Laws.{nonzero→ne_ok, SameAsks-AsksValid, SameAsks-pending}
use actor_framework_cxx.Ask.Reply.{
  error_msg, or_drop, send_reply, reply_valid, reply, send_error, reply_error,
}

-- What a call that answers the request `m` leaves: the ask marked as answered, or, with an error,
-- the asks as they were but for this one, which may be gone.
abbrev pub Answered : {P : Type 0} → Msg → Core → Rc × World P → Type 0
Answered m c r =
    ((r.0 ≡ ok)
      × (s : Slot) × (pending m.ask_id c ≡ some s)
      × (s.reply_sent ≡ false)
      × (s.reply_id ≡ m.reply_id)
      × ((j : ℕ) → pending j r.1.core ≡ (if m.ask_id == j then some (sent s) else pending j c)))
    ⊎ ((r.0 ≢ ok)
        × (((j : ℕ) → pending j r.1.core ≡ pending j c)
            ⊎ ((j : ℕ) → pending j r.1.core ≡ (if m.ask_id == j then none else pending j c))))

drop_over :
    (id j : ℕ) (x p q : Option Slot)
    → q ≡ (if id == j then x else p)
    → (if id == j then none else q) ≡ (if id == j then none else p)
drop_over id j x p q h = ground arith

module _ {P : Type 0} (cfg : Config) (port : Port P) (iso : Isolated port) where
  -- The send, and the freeing of the slot where it fails.
  or_drop-Answered :
      (m : Msg) (c : Core) (target : ℕ) (w : World P) (r : Rc × World P)
      → AsksValid cfg w.core
      → SameAsks w.core r.1.core
      → Claimed m c (claimed target, w.core)
      → Answered m c (or_drop port m.ask_id r)
  or_drop-Answered m c target w (rc, w') v same (s, p, a, n, e, adds) =
      elim (Bool-cases (is_zero rc)) [
        | inl z ↦ rw z (inl (refl, s, p, n, e, λ j. SameAsks-pending same j ∙ adds j))
        | inr z ↦ rw z (
            inr (
              nonzero→ne_ok rc z,
              inr (λ j.
                  pending-drop_ask cfg w'.core (SameAsks-AsksValid same v) m.ask_id j
                  ∙ drop_over m.ask_id j (some (sent s)) (pending j c) (pending j w'.core)
                      (SameAsks-pending same j ∙ adds j)),
            ))
      ]

  send_reply-Answered :
      (m out : Msg) (k : Claim × Core) (w : World P)
      → AsksValid cfg k.1
      → Claimed m w.core k
      → Answered m w.core (send_reply port (record out { ask_id = m.ask_id }) k w)
  unfolding send_reply
  send_reply-Answered m out (denied rc, c) w v (z, k) = inr (nonzero→ne_ok rc z, k)
  send_reply-Answered m out (claimed target, c) w v k =
      let w' : World P = record w { core = c } in
      let out' : Msg = record out { ask_id = m.ask_id } in
      or_drop-Answered m w.core target w' (deliver port target out' w') v
        (deliver-SameAsks port iso target out' w') k

  send_error-Answered :
      (m out : Msg) (k : Claim × Core) (w : World P)
      → AsksValid cfg k.1
      → Claimed m w.core k
      → Answered m w.core (send_error port (record out { ask_id = m.ask_id }) k w)
  unfolding send_error
  send_error-Answered m out (denied rc, c) w v (z, k) = inr (nonzero→ne_ok rc z, k)
  send_error-Answered m out (claimed target, c) w v k =
      let w' : World P = record w { core = c } in
      let out' : Msg = record out { ask_id = m.ask_id } in
      let q = iso.send target out' w' in
      or_drop-Answered m w.core target w' (port.send target out' w') v (rw q (SameAsks-refl c)) k

  -- States that agree on the ask table start the same call.
  Answered-SameAsks :
      (m : Msg) (c c' : Core) (r : Rc × World P) → SameAsks c c' → Answered m c' r → Answered m c r
  Answered-SameAsks m c c' r same a = let e = same.ask_table in rw (← e) a

  reply_valid-Answered :
      (m : Msg) (d : ℕ) (payload : Payload) (w : World P)
      → AsksValid cfg w.core
      → Answered m w.core (reply_valid port m d payload w)
  unfolding reply_valid
  reply_valid-Answered m d payload w v =
      let x = w.core.descs d in
      let k = claim_reply-Claimed cfg w.core v m x.id x.size in
      send_reply-Answered m (make_msg x payload) (claim_reply m x.id x.size w.core) w k.1 k.0

  -- A reply, on every branch: 0 means that the ask was pending and unanswered, waits for this reply,
  -- and is marked as answered; with any other result the pending asks are as before, but for the
  -- ask of the request, which may have been freed. The table is valid, and the port leaves the core
  -- alone.
  pub reply-Answered :
      (m : Msg) (d : Option ℕ) (payload : Payload) (w : World P)
      → AsksValid cfg w.core
      → Answered m w.core (reply port (some m) d payload w)
  unfolding reply
  reply-Answered m none payload w v = inr (λ e. cc, inl (λ j. refl))
  reply-Answered m (some d) payload w v =
      let w' : World P = on_core (ensure_id d) w in
      let same = ensure_id-SameAsks d w.core in
      elim (Bool-cases (m.ask_id == 0 || not (valid_descriptor (some d) cmd w.core))) [
        | inl bad ↦ rw bad (inr (λ e. cc, inl (λ j. refl)))
        | inr good ↦ rw good (
            Answered-SameAsks m w.core w'.core (reply_valid port m d payload w') same
              (reply_valid-Answered m d payload w' (SameAsks-AsksValid same v)))
      ]

  -- An error in place of a reply, on every branch: 0 means that the ask was pending and unanswered,
  -- waits for the reply that the request names, and is marked as answered; with any other result the
  -- pending asks are as before, but for the ask of the request, which may have been freed. The table
  -- is valid, and the port leaves the core alone.
  pub reply_error-Answered :
      (m : Msg) (rc : Rc) (w : World P)
      → AsksValid cfg w.core
      → Answered m w.core (reply_error port (some m) rc w)
  unfolding reply_error
  reply_error-Answered m rc w v =
      elim (Bool-cases (m.ask_id == 0 || m.reply_id == 0 || is_zero rc)) [
        | inl bad ↦ rw bad (inr (λ e. cc, inl (λ j. refl)))
        | inr good ↦
            let k = claim_error-Claimed cfg w.core v m in
            rw good (send_error-Answered m (error_msg m rc) (claim_error m w.core) w k.1 k.0)
      ]

  -- Once an ask is marked as answered, an error reply to its request is refused with -EALREADY, and
  -- nothing changes.
  reply_error_sent :
      (m : Msg) (rc : Rc) (w : World P) (s : Slot)
      → pending m.ask_id w.core ≡ some s
      → s.reply_sent ≡ true
      → s.reply_id ≡ m.reply_id
      → 0 < m.ask_id
      → 0 < m.reply_id
      → is_zero rc ≡ false
      → reply_error port (some m) rc w ≡ (err ealready, w)
  unfolding reply_error send_error
  reply_error_sent m rc w s p n e hi hr z = ground (arith, claim_error-some w.core m s p)

  -- An ask is answered once: after a reply to a request returned 0, an error reply to the same
  -- request is refused with -EALREADY and changes nothing. The table is valid, the port leaves the
  -- core alone, and the error is not 0.
  pub answered_once :
      (m : Msg) (d : Option ℕ) (payload : Payload) (rc : Rc) (w w' : World P)
      → AsksValid cfg w.core
      → reply port (some m) d payload w ≡ (ok, w')
      → 0 < m.ask_id
      → 0 < m.reply_id
      → is_zero rc ≡ false
      → reply_error port (some m) rc w' ≡ (err ealready, w')
  answered_once m d payload rc w w' v h hi hr z = elim (rw h at (reply-Answered m d payload w v)) [
    | inl (_, s, p, n, e, adds) ↦
        reply_error_sent m rc w' (sent s) (adds m.ask_id ∙ rw (==_refl m.ask_id)) refl e hi hr z
    | inr (bad, _) ↦ absurd (bad refl)
  ]
