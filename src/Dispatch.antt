-- ===== src/Dispatch.antt =====
-- `ipc_dispatch_actor_handlers` of src/ipc.c: which function of the application gets a message.
pub mod Callbacks
pub mod RoundTrip
use actor_framework_cxx.Prelude.{
  ℕ, Bool, true, false, ◌&&◌, Option, none, some, List, [], ◌∷◌, ◌==◌, if◌then◌else◌,
}
use actor_framework_cxx.State.{Msg, Binding, Slot, Core, World}
use actor_framework_cxx.Interface.{Invocation, to_callback, to_handler, to_unknown, to_nothing, App}
use actor_framework_cxx.AskTable.{find_pending_ask}
use actor_framework_cxx.Ask.{drop_ask, timeout_msg_id}

-- The loop over `handler_table`: the first handler that `self` registered for the message.
unfoldable pub find_handler : (self id : ℕ) → List Binding → Option ℕ
find_handler self id [] = none
find_handler self id (b ∷ t) =
    if b.actor == self && b.msg_id == id then some b.handler else find_handler self id t

unfoldable pub take_found : ℕ → Msg → Core → Option (ℕ × Slot) → Option ℕ × Core
take_found self m c none = (none, c)
take_found self m c (some (i, s)) =
    if m.id == timeout_msg_id && s.actor == self && s.timeout_queued
    then (some s.callback, drop_ask m.ask_id c)
    else if s.actor == self && s.reply_id == m.id
    then (some s.callback, drop_ask m.ask_id c)
    else (none, c)

-- The locked part: the callback of the ask that the message ends, whose slot it frees.
unfoldable pub take_callback : ℕ → Msg → Core → Option ℕ × Core
unfolding take_found
take_callback self m c = take_found self m c (find_pending_ask m.ask_id c.ask_table)

abbrev pub or_unknown : ℕ → Msg → Option ℕ → Option ℕ → Invocation
or_unknown self m (some h) unknown = to_handler h self m.payload m
or_unknown self m none (some h) = to_unknown h self m
or_unknown self m none none = to_nothing

-- Past the ask table: the handler, or else the hook for unknown messages.
unfoldable pub to_registered : ℕ → Msg → Core → Invocation
to_registered self m c =
    or_unknown self m (find_handler self m.id c.handler_table) (c.actors self).unknown_handler

unfoldable pub answer : ℕ → Msg → Option ℕ × Core → Invocation × Core
answer self m (some f, c) = (to_callback f self m.result m.payload m.size m, c)
answer self m (none, c) = (to_registered self m c, c)

-- The choice of `ipc_dispatch_actor_handlers`, with the state in which the chosen function starts.
unfoldable pub dispatch : Option ℕ → Option Msg → Core → Invocation × Core
unfolding answer
dispatch (some self) (some m) c =
    if m.ask_id == 0 then (to_registered self m c, c) else answer self m (take_callback self m c)
dispatch _ _ c = (to_nothing, c)

module _ {P : Type 0} (app : App P) where
  run_invocation : World P → Invocation × Core → World P
  run_invocation w (call, c) = app.invoke call (record w { core = c })

  -- `ipc_dispatch_actor_handlers`
  pub dispatch_actor_handlers : Option ℕ → Option Msg → World P → World P
  unfolding run_invocation
  dispatch_actor_handlers self m w = run_invocation w (dispatch self m w.core)
