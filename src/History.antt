-- ===== src/History.antt =====
-- Sequences of the calls of src/ipc.c that touch pending asks, in any order and for any actors: each
-- call is one step of the core.
pub mod Calls
pub mod Asking
use actor_framework_cxx.Prelude.{ℕ, ◌≤◌, ◌+◌, Option}
use actor_framework_cxx.State.{Rc, Payload, Msg, Config, Core, World}
use actor_framework_cxx.Interface.{Port, Isolated}
use actor_framework_cxx.Ask.{ask_cancel}
use actor_framework_cxx.Ask.Regions.{AsksValid}
use actor_framework_cxx.Ask.Request.{ask_with_id}
use actor_framework_cxx.Ask.Reply.{reply, reply_error, timeout_expired}
use actor_framework_cxx.Dispatch.{dispatch}
use actor_framework_cxx.History.Calls.{
  reply-AsksValid, reply_error-AsksValid, timeout_expired-AsksValid, ask_cancel-AsksValid,
  dispatch-AsksValid,
}
use actor_framework_cxx.History.Asking.{ask_with_id-AsksValid}

module _ {P : Type 0} (cfg : Config) (port : Port P) where
  -- One call, and a change of the port's own state between two calls. A dispatch is the part before
  -- the chosen function runs; that function makes further calls.
  pub data Step : World P → World P → Type 0 where
    asks :
        (self request : Option ℕ) (payload : Payload) (d callback : Option ℕ) (timeout_ms : ℕ)
        (w : World P)
        → Step w ((ask_with_id cfg port self request payload d callback timeout_ms w).2)
    replies :
        (m : Option Msg) (d : Option ℕ) (payload : Payload) (w : World P)
        → Step w ((reply port m d payload w).1)
    fails : (m : Option Msg) (rc : Rc) (w : World P) → Step w ((reply_error port m rc w).1)
    expires : (a id : ℕ) (w : World P) → Step w (timeout_expired port a id w)
    cancels :
        (self : Option ℕ) (id : ℕ) (w : World P)
        → Step w (record w { core = (ask_cancel self id w.core).1 })
    dispatches :
        (self : Option ℕ) (m : Option Msg) (w : World P)
        → Step w (record w { core = (dispatch self m w.core).1 })
    port_moves : (p : P) (w : World P) → Step w (record w { port = p })

  pub data Run : World P → World P → Type 0 where
    start : (w : World P) → Run w w
    next : (w w1 w2 : World P) → Run w w1 → Step w1 w2 → Run w w2

  module _ (iso : Isolated port) (hl : cfg.max_inflight + 2 ≤ 4294967296) where
    Step-AsksValid : (w w' : World P) → Step w w' → AsksValid cfg w.core → AsksValid cfg w'.core
    Step-AsksValid w _ (asks self request payload d callback timeout_ms _) v =
        ask_with_id-AsksValid cfg port iso hl self request payload d callback timeout_ms w v
    Step-AsksValid w _ (replies m d payload _) v = reply-AsksValid cfg port iso m d payload w v
    Step-AsksValid w _ (fails m rc _) v = reply_error-AsksValid cfg port iso m rc w v
    Step-AsksValid w _ (expires a id _) v = timeout_expired-AsksValid cfg port iso a id w v
    Step-AsksValid w _ (cancels self id _) v = ask_cancel-AsksValid cfg self id w.core v
    Step-AsksValid w _ (dispatches self m _) v = dispatch-AsksValid cfg self m w.core v
    Step-AsksValid w _ (port_moves p _) v = v

    -- After any sequence of asks, replies, errors, timeouts, cancellations and dispatches, in any
    -- order, the ask table is valid: it has its size, and the asks in use have non-zero 32-bit ids of
    -- their own. It is valid at the start, and the port leaves the core alone.
    pub Run-AsksValid : (w w' : World P) → Run w w' → AsksValid cfg w.core → AsksValid cfg w'.core
    Run-AsksValid w _ (start _) v = v
    Run-AsksValid w w' (next _ w1 _ r s) v = Step-AsksValid w1 w' s (Run-AsksValid w w1 r v)
