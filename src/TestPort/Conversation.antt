-- ===== src/TestPort/Conversation.antt =====
-- An ask from `ipc_ask_with_id_raw` of src/ipc.c to the callback, over the mailboxes of
-- src/port/test/ipc_test_port.c.
use actor_framework_cxx.Prelude.{ℕ, ◌+◌, ◌≤◌, ◌≡◌, ◌≢◌, ◌⊎◌, subst, Bool, ap, ◌∙◌, some, true}
use actor_framework_cxx.State.{Rc, ok, Payload, Config, World}
use actor_framework_cxx.Interface.{Port}
use actor_framework_cxx.Descriptor.{ensure_id, make_msg}
use actor_framework_cxx.Slot.{Abi, stored}
use actor_framework_cxx.Delivery.{find_registered}
use actor_framework_cxx.Ask.Regions.{AsksValid}
use actor_framework_cxx.Ask.Request.{ask_with_id}
use actor_framework_cxx.Ask.Reply.{reply}
use actor_framework_cxx.Dispatch.{find_handler}
use actor_framework_cxx.History.Asking.{ask_with_id-AsksValid}
use actor_framework_cxx.TestPort.{ActorState, TestState, state_for, test_port}
use actor_framework_cxx.TestPort.Mailbox.{IsValid}
use actor_framework_cxx.TestPort.Frame.{test_port-Isolated}
use actor_framework_cxx.TestPort.Reserved.{Requests}
use actor_framework_cxx.TestPort.Requested.{ask-Requests}
use actor_framework_cxx.TestPort.Answered.{Answers, reply-Answers}

module _ (abi : Abi) (calloc : (count size : ℕ) → Bool) (cfg : Config) where
  abbrev port : Port TestState
  port = test_port abi calloc

  -- An ask without a timeout that returned 0, and the reply to it that returned 0, with whatever the
  -- mailboxes hold when the reply is sent: the request waits in the mailbox of the actor to which the
  -- command is routed and goes to its handler with the bytes of the actor that asks, and the reply waits
  -- in the mailbox of that actor and calls the callback of the ask with the result 0 and the bytes of the replier. The ask
  -- table is valid and has less than 2 ^ 32 - 1 slots, the mailboxes are valid and started when a
  -- message is sent to them, the handler is registered when the ask returns, the actor does not ask itself
  -- with one id for the request and the reply, and the reply is sent from the core that the ask left.
  pub ask_and_reply :
      (self d a h expected callback n : ℕ) (payload : Payload) (w w' : World TestState)
      (s : ActorState)
      → cfg.max_inflight + 2 ≤ 4294967296
      → AsksValid cfg w.core
      → state_for a w.port ≡ some s
      → IsValid s
      → s.started ≡ true
      → let c = ensure_id d w.core in
        let x = c.descs d in
        let y = (ensure_id expected c).descs expected in
        let m = stored (record (make_msg x payload) { ask_id = n; reply_id = y.id }) in
        find_registered x.id c.reg_table ≡ some a
        → find_handler a x.id w'.core.handler_table ≡ some h
        → (self ≢ a) ⊎ (y.id ≢ x.id)
        → ask_with_id cfg port (some self) (some d) payload (some expected) (some callback) 0 w
          ≡ (ok, n, w')
        → (p : TestState) (s1 : ActorState) (sent : ℕ) (answer : Payload) (w2 : World TestState)
        → state_for self p ≡ some s1
        → IsValid s1
        → s1.started ≡ true
        → reply port (some m) (some sent) answer (record w' { port = p }) ≡ (ok, w2)
        → let z = (ensure_id sent w'.core).descs sent in
          Requests a h m s w'
          × Answers self callback (stored (record (make_msg z answer) { ask_id = n })) s1 w2
  ask_and_reply self d a h expected callback n payload w w' s hl v at sv st route f apart e p s1
        sent answer w2 at1 sv1 st1 e1 =
      let (handled, (t, waits, asker, its_callback, _)) =
        ask-Requests abi calloc cfg self d a h expected callback n payload w w' s hl v at sv st
          route f apart e in
      let valid : AsksValid cfg w'.core =
        subst (λ (q : Rc × ℕ × World TestState). AsksValid cfg q.2.core) e
          (ask_with_id-AsksValid cfg port (test_port-Isolated abi calloc) hl (some self) (some d)
            payload (some expected) (some callback) 0 w v) in
      (
        handled,
        subst
            (λ (q : ℕ × ℕ).
              Answers q.0 q.1
                (stored
                  (record (make_msg ((ensure_id sent w'.core).descs sent) answer) { ask_id = n }))
                s1 w2)
            (ap (λ i. (i, t.callback)) asker ∙ ap (λ i. (self, i)) its_callback)
            (reply-Answers abi calloc cfg _ sent answer (record w' { port = p }) w2 t s1 valid waits
              (ap (λ i. state_for i p) asker ∙ at1) sv1 st1 e1),
      )
