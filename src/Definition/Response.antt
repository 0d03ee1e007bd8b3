-- ===== src/Definition/Response.antt =====
-- The typed response handler that `_IPC_ACTOR_RESPONSE_HANDLE_IMPL` of src/ipc_actor_define_common.h
-- makes the callback of an ask, behind the dispatch of src/ipc.c.
use actor_framework_cxx.Prelude.{
  ℕ, ◌+◌, ◌≤◌, ◌≡◌, ◌⊎◌, inl, inr, ap, ◌∙◌, true, false, Option, none, some, arith,
}
use actor_framework_cxx.State.{Rc, ok, is_zero, Payload, Msg, Config, World}
use actor_framework_cxx.Interface.{
  Port, Isolated, Invocation, to_callback, to_handler, to_unknown, to_nothing,
}
use actor_framework_cxx.Ask.Regions.{AsksValid}
use actor_framework_cxx.Ask.Request.{ask_with_id}
use actor_framework_cxx.Ask.Reply.{reply}
use actor_framework_cxx.Dispatch.{dispatch}
use actor_framework_cxx.Dispatch.RoundTrip.{ask_reply_callback}
use actor_framework_cxx.Definition.{response_adapter}

-- What the typed handler gets of a call of its callback: none where the adapter fails an assertion,
-- and the inner none where it is not called.
abbrev pub typed_call : Config → (payload_size : ℕ) → Invocation → Option (Option (Rc × Payload))
typed_call cfg n (to_callback f a rc payload size m) = response_adapter cfg true n rc payload size
typed_call cfg n (to_handler h a payload m) = some none
typed_call cfg n (to_unknown h a m) = some none
typed_call cfg n to_nothing = some none

passes :
    (cfg : Config) (n : ℕ) (rc : Rc) (payload : Payload) (size : ℕ)
    → (is_zero rc ≡ false) ⊎ (size ≡ n)
    → response_adapter cfg true n rc payload size ≡ some (some (rc, payload))
unfolding response_adapter
passes cfg n rc payload size (inl e) = ground (arith, e)
passes cfg n rc payload size (inr e) = ground (arith, e)

-- Once an ask returned 0 and a reply to a request `m` with its id returned 0, the message `r` that
-- carries the reply, dispatched by the asker, makes the typed handler get the result and the payload of
-- that message, and the adapter does not abort, with and without assertions: the message is an error, or it
-- has the size of the handler's payload. The ask table is valid before the ask, it has less than
-- 2 ^ 32 - 1 slots, and the port leaves the core alone.
pub typed_round_trip :
    {P : Type 0} (cfg : Config) (port : Port P) (iso : Isolated port) (self request : ℕ)
    (payload : Payload) (d callback timeout_ms : ℕ) (w : World P) (id : ℕ) (w1 : World P) (m : Msg)
    (e : Option ℕ) (answer : Payload) (w2 : World P) (r : Msg) (payload_size : ℕ)
    → AsksValid cfg w.core
    → cfg.max_inflight + 2 ≤ 4294967296
    → ask_with_id cfg port (some self) (some request) payload (some d) (some callback) timeout_ms w
      ≡ (ok, id, w1)
    → m.ask_id ≡ id
    → reply port (some m) e answer w1 ≡ (ok, w2)
    → r.ask_id ≡ id
    → r.id ≡ m.reply_id
    → (is_zero r.result ≡ false) ⊎ (r.size ≡ payload_size)
    → let call = (dispatch (some self) (some r) w2.core).0 in
      (call ≡ to_callback callback self r.result r.payload r.size r)
      × (typed_call cfg payload_size call ≡ some (some (r.result, r.payload)))
typed_round_trip cfg port iso self request payload d callback timeout_ms w id w1 m e answer w2 r n v
      hl asked hm replied hr hi fits =
    let c =
      ask_reply_callback cfg port iso self request payload d callback timeout_ms w id w1 m e answer
        w2 r v hl asked hm replied hr hi in
    (c, ap (typed_call cfg n) c ∙ passes cfg n r.result r.payload r.size fits)
