-- ===== src/Interleaving.antt =====
-- The ask lock of src/ipc.c: threads run the parts between `lock_asks` and `unlock_asks` one after
-- the other, in any order, and between them what leaves the asks alone.
pub mod Balance
pub mod Steps
use actor_framework_cxx.Prelude.{
  ℕ, ◌+◌, ◌<◌, Option, none, some, List, [], ◌∷◌, ◌==◌, if◌then◌else◌,
}
use actor_framework_cxx.State.{Rc, ok, err, emsgsize, Msg, Slot, Config, Core}
use actor_framework_cxx.Interface.{Invocation, to_callback}
use actor_framework_cxx.Delivery.Frame.{SameAsks}
use actor_framework_cxx.Ask.{
  Claim, denied, new_slot, reserve_ask, drop_ask, ask_cancel, claim_reply, claim_error,
  queue_timeout, unqueue_timeout, set_next_ask_id,
}
use actor_framework_cxx.Ask.Regions.{pending}
use actor_framework_cxx.Dispatch.{dispatch}

-- What one locked part does to the set of asks: a new one, one whose callback is called, one that is
-- freed with no callback, or none of these.
pub data Event : Type 0 where
  reserved called freed : ℕ → Event
  silent : Event

abbrev pub reserve_event : Option ℕ → Event
reserve_event none = silent
reserve_event (some id) = reserved id

-- A drop through what `find_pending_ask` returned.
abbrev pub drop_event : ℕ → Option Slot → Event
drop_event id none = silent
drop_event id (some s) = freed id

-- A reply that does not fit frees the ask.
abbrev pub claim_event : ℕ → Claim → Event
claim_event id (denied (err emsgsize)) = freed id
claim_event id _ = silent

abbrev pub cancel_event : ℕ → Rc → Event
cancel_event id ok = freed id
cancel_event id _ = silent

abbrev pub call_event : ℕ → Invocation → Event
call_event id (to_callback f self rc payload size m) = called id
call_event id _ = silent

module _ (cfg : Config) where
  abbrev pub reserve_slot : (reply_id deadline self callback : ℕ) → Core → Option ℕ × Core
  reserve_slot reply_id deadline self callback =
      reserve_ask cfg (λ id. new_slot id reply_id deadline self callback)

  -- One locked part, by any thread: of an ask, of an ask or an answer that failed, of a reply, of an
  -- error, of a timeout before and after its message, of a cancellation, of a dispatch, and of the counter set by a test; or
  -- anything else, which leaves the asks alone.
  pub data Section : Core → Event → Core → Type 0 where
    reserves :
        (reply_id deadline self callback : ℕ) (c : Core)
        → Section c
            (reserve_event (reserve_slot reply_id deadline self callback c).0)
            (reserve_slot reply_id deadline self callback c).1
    drops : (id : ℕ) (c : Core) → Section c (drop_event id (pending id c)) (drop_ask id c)
    claims :
        (m : Msg) (reply_id size : ℕ) (c : Core)
        → Section c
            (claim_event m.ask_id (claim_reply m reply_id size c).0)
            (claim_reply m reply_id size c).1
    fails :
        (m : Msg) (c : Core)
        → Section c (claim_event m.ask_id (claim_error m c).0) (claim_error m c).1
    queues : (a id : ℕ) (c : Core) → Section c silent (queue_timeout a id c).1
    unqueues : (a id : ℕ) (c : Core) → Section c silent (unqueue_timeout a id c)
    cancels :
        (self : Option ℕ) (id : ℕ) (c : Core)
        → Section c (cancel_event id (ask_cancel self id c).0) (ask_cancel self id c).1
    dispatches :
        (self : Option ℕ) (m : Msg) (c : Core)
        → Section c (call_event m.ask_id (dispatch self (some m) c).0) (dispatch self (some m) c).1
    recounts :
        (next_id : ℕ) (c : Core)
        → next_id < 4294967296
        → Section c silent (set_next_ask_id next_id c)
    elsewhere : (c c' : Core) → SameAsks c c' → Section c silent c'

  -- A schedule of locked parts, with their events, the last first.
  pub data Schedule : Core → List Event → Core → Type 0 where
    start : (c : Core) → Schedule c [] c
    next :
        (c c1 c2 : Core) (es : List Event) (e : Event)
        → Schedule c es c1
        → Section c1 e c2
        → Schedule c (e ∷ es) c2

abbrev pub one_if : ℕ → ℕ → ℕ
one_if id j = if id == j then 1 else 0

-- How often an ask with the id `j` was reserved, and how often one ended.
abbrev pub opens : ℕ → Event → ℕ
opens j (reserved id) = one_if id j
opens j _ = 0

abbrev pub calls : ℕ → Event → ℕ
calls j (called id) = one_if id j
calls j _ = 0

abbrev pub frees : ℕ → Event → ℕ
frees j (freed id) = one_if id j
frees j _ = 0

pub count : (Event → ℕ) → List Event → ℕ
count f [] = 0
count f (e ∷ es) = f e + count f es
