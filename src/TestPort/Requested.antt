-- ===== src/TestPort/Requested.antt =====
-- A request from `ipc_ask_with_id_raw` of src/ipc.c over the mailbox of src/port/test/ipc_test_port.c to
-- the handler that `ipc_dispatch_actor_handlers` calls.
use actor_framework_cxx.Prelude.{
  ℕ, ◌+◌, ◌≤◌, ◌≡◌, ◌≢◌, ◌⊎◌, refl, sym, ap, ◌∙◌, inl, inr, true, Bool, Bool-cases, ltb, some, ◌&&◌,
  arith,
}
use actor_framework_cxx.State.{ok, err, einval, emsgsize, cmd, Payload, Config, Core, World}
use actor_framework_cxx.Interface.{Port}
use actor_framework_cxx.Descriptor.{ensure_id, valid_descriptor, make_msg}
use actor_framework_cxx.Slot.{Abi, stored}
use actor_framework_cxx.Delivery.{ready, find_registered, prepare_for}
use actor_framework_cxx.Delivery.Frame.{ensure_id-SameAsks}
use actor_framework_cxx.Ask.Regions.{AsksValid}
use actor_framework_cxx.Ask.Laws.{SameAsks-AsksValid}
use actor_framework_cxx.Ask.Request.{deadline_of, prepared_ask, ask_with_id}
use actor_framework_cxx.Dispatch.{find_handler}
use actor_framework_cxx.TestPort.{ActorState, TestState, state_for, test_port}
use actor_framework_cxx.TestPort.Mailbox.{IsValid}
use actor_framework_cxx.TestPort.Delivered.{prepare-route}
use actor_framework_cxx.TestPort.Reserved.{Requests, Awaits, refusal, reserved_ask-Requests}

module _ (abi : Abi) (calloc : (count size : ℕ) → Bool) (cfg : Config) where
  abbrev port : Port TestState
  port = test_port abi calloc

  -- The request of a command with the target `a`, once the core has its id.
  prepared_ask-Requests :
      (self d a h reply callback n : ℕ) (payload : Payload) (k : Core) (w w' : World TestState)
      (s : ActorState)
      → cfg.max_inflight + 2 ≤ 4294967296
      → AsksValid cfg k
      → state_for a w.port ≡ some s
      → IsValid s
      → s.started ≡ true
      → let x = k.descs d in
        let y = (ensure_id reply k).descs reply in
        find_handler a x.id w'.core.handler_table ≡ some h
        → (self ≢ a) ⊎ (y.id ≢ x.id)
        → prepared_ask cfg port self reply callback 0 (prepare_for d payload k (some a)) w
          ≡ (ok, n, w')
        → Requests a h (stored (record (make_msg x payload) { ask_id = n; reply_id = y.id })) s w'
          × Awaits n y.id self callback w'.core
  unfolding prepare_for
  prepared_ask-Requests self d a h reply callback n payload k w w' s hl v at sv st f apart e =
      elim (Bool-cases (ltb (k.actors a).max_payload_size (k.descs d).size)) [
        | inl big ↦
            refusal (err emsgsize, 0, record w { core = k }) n w' refl
              (unfold prepared_ask in rw big at e)
        | inr fits ↦ of_ready (rw fits at e)
      ]
    where
      of_ready :
          prepared_ask cfg port self reply callback 0 (ready a (make_msg (k.descs d) payload), k) w
            ≡ (ok, n, w')
          → Requests a h
              (stored (record (make_msg (k.descs d) payload) {
                ask_id = n;
                reply_id = ((ensure_id reply k).descs reply).id;
              }))
              s
              w'
            × Awaits n ((ensure_id reply k).descs reply).id self callback w'.core
      of_ready z =
          unfold prepared_ask in
          let k2 = ensure_id reply k in
          let w2 : World TestState = record w { core = k2 } in
          let y = k2.descs reply in
          elim (Bool-cases (ltb (k2.actors self).max_payload_size y.size)) [
            | inl big ↦ refusal (err emsgsize, 0, w2) n w' refl (rw big at z)
            | inr fits ↦
                reserved_ask-Requests abi calloc cfg hl self y.id a h callback
                  (deadline_of cfg port 0 w2) n (make_msg (k.descs d) payload) w2 w'
                  (SameAsks-AsksValid (ensure_id-SameAsks reply k) v) s at sv st apart f
                  (rw fits at z)
          ]

  -- A request over the test port, from an ask without a timeout that returned 0 to the handler: the
  -- request, with the bytes of the actor that asks, the id of the ask and that of the reply, waits in the
  -- mailbox of the actor to which the command is routed, behind what waited there, and when that
  -- actor dispatches it, it goes to its handler, while the ask is pending with its callback and the id of the reply. The ask table is valid and has less than 2 ^ 32 - 1 slots, the
  -- mailbox is valid and started, the handler is registered when the ask returns, and the actor does not ask
  -- itself with one id for the request and the reply.
  pub ask-Requests :
      (self d a h reply callback n : ℕ) (payload : Payload) (w w' : World TestState)
      (s : ActorState)
      → cfg.max_inflight + 2 ≤ 4294967296
      → AsksValid cfg w.core
      → state_for a w.port ≡ some s
      → IsValid s
      → s.started ≡ true
      → let c = ensure_id d w.core in
        let x = c.descs d in
        let y = (ensure_id reply c).descs reply in
        find_registered x.id c.reg_table ≡ some a
        → find_handler a x.id w'.core.handler_table ≡ some h
        → (self ≢ a) ⊎ (y.id ≢ x.id)
        → ask_with_id cfg port (some self) (some d) payload (some reply) (some callback) 0 w
          ≡ (ok, n, w')
        → Requests a h (stored (record (make_msg x payload) { ask_id = n; reply_id = y.id })) s w'
          × Awaits n y.id self callback w'.core
  unfolding ask_with_id
  ask-Requests self d a h reply callback n payload w w' s hl v at sv st route f apart e =
      elim (Bool-cases
        (valid_descriptor (some d) cmd w.core && valid_descriptor (some reply) cmd w.core)) [
          | inl good ↦
              prepared_ask-Requests self d a h reply callback n payload (ensure_id d w.core) w w' s
                hl (SameAsks-AsksValid (ensure_id-SameAsks d w.core) v) at sv st f apart
                (ap (λ q. prepared_ask cfg port self reply callback 0 q w)
                    (sym (prepare-route abi calloc d a payload w.core (ground (arith, good)) route))
                  ∙ rw good at e)
          | inr bad ↦ refusal (err einval, 0, w) n w' refl (rw bad at e)
        ]
