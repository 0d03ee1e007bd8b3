-- ===== src/TestPort/Reserved.antt =====
-- The reservation and the send of a request by `ipc_ask_with_id_raw` of src/ipc.c over the mailbox of
-- src/port/test/ipc_test_port.c.
use actor_framework_cxx.Prelude.{
  ℕ, ◌+◌, ◌<◌, ◌≤◌, ◌≡◌, ◌≢◌, ◌⊎◌, refl, sym, ap, subst, ◌∙◌, inl, inr, true, false, Bool, ==_refl,
  if◌then◌else◌, some, [], ◌∷◌, ◌++◌, arith,
}
use actor_framework_cxx.State.{
  Rc, ok, dropped, err, value, enomem, is_zero, Msg, Slot, Config, Core, World, on_core,
}
use actor_framework_cxx.Interface.{Port, to_handler}
use actor_framework_cxx.Slot.{Abi, stored}
use actor_framework_cxx.Delivery.{deliver}
use actor_framework_cxx.Ask.{new_slot, reserve_ask, drop_ask}
use actor_framework_cxx.Ask.Regions.{pending, AsksValid}
use actor_framework_cxx.Ask.Laws.{nonzero→ne_ok}
use actor_framework_cxx.Ask.Reserve.{Reserved, reserve_ask-cases}
use actor_framework_cxx.Ask.Request.{finish_ask, time_ask, reserved_ask}
use actor_framework_cxx.Dispatch.{dispatch, find_handler, to_registered, or_unknown}
use actor_framework_cxx.Dispatch.Callbacks.{ends, dispatch-some}
use actor_framework_cxx.TestPort.{ActorState, TestState, state_for, test_port}
use actor_framework_cxx.TestPort.Mailbox.{IsValid, contents}
use actor_framework_cxx.TestPort.Answered.{delivered}

-- The request `m` waits in the mailbox of the actor, behind what waited in `s`, and goes to the
-- handler when the actor dispatches it.
abbrev pub Requests : (a h : ℕ) → Msg → ActorState → World TestState → Type 0
Requests a h m s w =
    (s' : ActorState) × (state_for a w.port ≡ some s')
    × IsValid s'
    × (contents s' ≡ contents s ++ (m ∷ []))
    × (dispatch (some a) (some m) w.core ≡ (to_handler h a m.payload m, w.core))

-- The ask `id` is pending for the actor that asks, with its callback and the id of the reply.
abbrev pub Awaits : (id reply_id self callback : ℕ) → Core → Type 0
Awaits id reply_id self callback c =
    (t : Slot) × (pending id c ≡ some t)
    × (t.actor ≡ self)
    × (t.callback ≡ callback)
    × (t.reply_id ≡ reply_id)

-- A result other than 0 is none of a call that returned 0.
pub refusal :
    {B : Type 0} (r : Rc × ℕ × World TestState) (n : ℕ) (w : World TestState)
    → is_zero r.0 ≡ false
    → r ≡ (ok, n, w)
    → B
refusal r n w z e = absurd (nonzero→ne_ok r.0 z (ap (λ (u : Rc × ℕ × World TestState). u.0) e))

module _ (abi : Abi) (calloc : (count size : ℕ) → Bool) (cfg : Config) where
  abbrev port : Port TestState
  port = test_port abi calloc

  -- The end of an ask that returned 0.
  finish_ok :
      (a : ℕ) (m : Msg) (id n : ℕ) (w w' : World TestState)
      → finish_ask cfg port a m id w ≡ (ok, n, w')
      → (deliver port a m w ≡ (ok, w')) × (n ≡ id)
  unfolding finish_ask
  finish_ok a m id n w w' e = by_result (deliver port a m w) e
    where
      by_result :
          (q : Rc × World TestState)
          → ◌≡◌ {A = Rc × ℕ × World TestState}
              (if is_zero q.0 then (ok, id, q.1) else (q.0, 0, on_core (drop_ask id) q.1))
              (ok, n, w')
          → (q ≡ (ok, w')) × (n ≡ id)
      by_result (ok, u) z = (
        ap (λ (r : Rc × ℕ × World TestState). (ok, r.2)) z,
        sym (ap (λ (r : Rc × ℕ × World TestState). r.1) z),
      )
      by_result (dropped, u) z = cc
      by_result (err x, u) z = cc
      by_result (value x, u) z = cc

  -- The request goes past the asks to the handlers.
  request_handled :
      (a h : ℕ) (m : Msg) (c : Core) (t : Slot)
      → 0 < m.ask_id
      → pending m.ask_id c ≡ some t
      → ends a m t ≡ false
      → find_handler a m.id c.handler_table ≡ some h
      → dispatch (some a) (some m) c ≡ (to_handler h a m.payload m, c)
  unfolding to_registered
  request_handled a h m c t pos p miss f =
      dispatch-some c a m pos t p
      ∙ rw miss refl
      ∙ ap (λ o. (or_unknown a m o (c.actors a).unknown_handler, c)) f

  -- An ask whose request has its target, from the reservation of its slot on.
  module _ (hl : cfg.max_inflight + 2 ≤ 4294967296) (self reply_id a h callback deadline n : ℕ)
      (m : Msg) (w w' : World TestState) (v : AsksValid cfg w.core) (s : ActorState)
      (at : state_for a w.port ≡ some s) (sv : IsValid s) (st : s.started ≡ true)
      (apart : (self ≢ a) ⊎ (reply_id ≢ m.id)) where
    abbrev slot_of : ℕ → Slot
    slot_of id = new_slot id reply_id deadline self callback

    abbrev request_of : ℕ → Msg
    request_of id = record m { ask_id = id; reply_id = reply_id }

    passes_by : (id : ℕ) → ends a (stored (request_of id)) (slot_of id) ≡ false
    passes_by id = ground (arith, apart)

    pub reserved_ask-Requests :
        find_handler a m.id w'.core.handler_table ≡ some h
        → reserved_ask cfg port self 0 reply_id a m (reserve_ask cfg slot_of w.core) w ≡ (ok, n, w')
        → Requests a h (stored (request_of n)) s w' × Awaits n reply_id self callback w'.core
    unfolding reserved_ask time_ask
    reserved_ask-Requests f e =
        elim (reserve_ask-cases cfg w.core v hl slot_of (λ id. refl) (λ id. refl)) [
          | inl (q, full) ↦ refusal (err enomem, 0, w) n w' refl (rw q at e)
          | inr (id, c', q, r) ↦ asked id c' r (rw q at e)
        ]
      where
        asked :
            (id : ℕ) (c' : Core)
            → Reserved cfg slot_of w.core c' id
            → time_ask cfg port self 0 a (request_of id) id (record w { core = c' }) ≡ (ok, n, w')
            → Requests a h (stored (request_of n)) s w' × Awaits n reply_id self callback w'.core
        asked id c' r e =
            let w2 : World TestState = record w { core = c' } in
            let (sent_ok, same) = finish_ok a (request_of id) id n w2 w' e in
            let (s', q, v', c, k) =
              delivered abi calloc a (request_of id) s w2 w' at sv st sent_ok in
            let waits : pending id w'.core ≡ some (slot_of id) =
              ap (pending id) k
              ∙ r.adds id
              ∙ ap (λ b. if b then some (slot_of id) else pending id w.core) (==_refl id) in
            subst
              (λ i.
                Requests a h (stored (request_of i)) s w' × Awaits i reply_id self callback w'.core)
              (sym same)
              (
                (
                  s',
                  q,
                  v',
                  c,
                  request_handled a h (stored (request_of id)) w'.core (slot_of id) r.positive waits
                      (passes_by id) f,
                ),
                (slot_of id, waits, refl, refl, refl),
              )
