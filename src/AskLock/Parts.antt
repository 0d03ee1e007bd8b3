-- ===== src/AskLock/Parts.antt =====
-- The code between `lock_asks` and `unlock_asks` in src/ipc.c, instruction by instruction: every part that
-- src/ipc.c runs under the lock, and the function of the core that stands for it elsewhere in the model.
pub mod Locked
use actor_framework_cxx.Prelude.{
  ℕ, ◌+◌, false, Bool, Option, none, some, List, [], ◌∷◌, ◌==◌, set, u32, if◌then◌else◌,
}
use actor_framework_cxx.State.{Slot, Msg, Config, Core, with_asks}
use actor_framework_cxx.AskTable.{
  Search, found, exhausted, out_of_fuel, find_pending_ask, alloc_pending_ask, alloc_ask_id,
  clear_found,
}
use actor_framework_cxx.Ask.{
  Claim, drop_ask, new_slot, reserve_ask, cancel_found, claim_found, claim_reply, error_found,
  claim_error, queue_found, queue_timeout, unqueue_found, unqueue_timeout, set_next_ask_id,
}
use actor_framework_cxx.Dispatch.{take_found, take_callback}
use actor_framework_cxx.AskLock.{Instruction, Part}

-- The locals of these parts: `pending` as a pointer that `find_pending_ask` or `alloc_pending_ask`
-- returned, the result of `alloc_ask_id`, and what a reply decides.
pub record Locals : Type 0 where
  pub pending : Option (ℕ × Slot)
  pub free_slot : Option ℕ
  pub search : Search
  pub decision : Option Claim
  pub queued : Bool
  pub callback : Option ℕ

abbrev pub no_locals : Locals
no_locals = record {
  pending = none;
  free_slot = none;
  search = exhausted;
  decision = none;
  queued = false;
  callback = none;
}

abbrev part_of : List (Instruction Locals Core) → Part Locals Core
part_of code = record { locals = no_locals; code = code }

-- `pending = find_pending_ask(ask_id)`
abbrev look_up : ℕ → Instruction Locals Core
look_up id r = (record r.0 { pending = find_pending_ask id r.1.ask_table }, r.1)

-- `if (pending) memset(pending, 0, sizeof(*pending))`
abbrev erase : Instruction Locals Core
erase r = (r.0, with_asks (clear_found r.0.pending r.1.ask_table) r.1)

-- The part after an ask, a reply or a timeout that could not be sent.
abbrev pub drop_part : ℕ → Part Locals Core
drop_part id = part_of (look_up id ∷ erase ∷ [])

-- `if (!pending || pending->actor != self)`
unfoldable pub own_only : ℕ → Option (ℕ × Slot) → Option (ℕ × Slot)
own_only self none = none
own_only self (some (i, s)) = if s.actor == self then some (i, s) else none

abbrev check_owner : ℕ → Instruction Locals Core
check_owner self r = (record r.0 { pending = own_only self r.0.pending }, r.1)

-- The part of `ipc_ask_cancel`.
abbrev pub cancel_part : (self id : ℕ) → Part Locals Core
cancel_part self id = part_of (look_up id ∷ check_owner self ∷ erase ∷ [])

abbrev decide : Msg → (reply_id size : ℕ) → Instruction Locals Core
decide m reply_id size r =
    let d = claim_found m reply_id size r.1 r.0.pending in (record r.0 { decision = some d.0 }, d.1)

-- The first part of `ipc_reply_raw`.
abbrev pub claim_part : Msg → (reply_id size : ℕ) → Part Locals Core
claim_part m reply_id size = part_of (look_up m.ask_id ∷ decide m reply_id size ∷ [])

-- `pending = alloc_pending_ask()`
abbrev find_free : Instruction Locals Core
find_free r = (record r.0 { free_slot = alloc_pending_ask r.1.ask_table }, r.1)

-- `rc = alloc_ask_id(&ask_id)`, unless no slot is free.
unfoldable pub draw_for : Config → Option ℕ → Instruction Locals Core
draw_for cfg none r = r
draw_for cfg (some i) r =
    let d = alloc_ask_id cfg.max_inflight r.1.ask_table r.1.next_ask_id in
    (record r.0 { search = d.0 }, record r.1 { next_ask_id = d.1 })

abbrev draw_id : Config → Instruction Locals Core
draw_id cfg r = draw_for cfg r.0.free_slot r

-- `*pending = ...`, unless no slot is free or no id.
unfoldable pub fill : (ℕ → Slot) → Option ℕ → Search → Core → Core
fill slot (some i) (found id) c = with_asks (set c.ask_table i (slot id)) c
fill slot (some i) exhausted c = c
fill slot (some i) out_of_fuel c = c
fill slot none s c = c

abbrev fill_slot : (ℕ → Slot) → Instruction Locals Core
fill_slot slot r = (r.0, fill slot r.0.free_slot r.0.search r.1)

-- The first part of `ipc_ask_with_id_raw`.
abbrev pub reserve_part : Config → (ℕ → Slot) → Part Locals Core
reserve_part cfg slot = part_of (find_free ∷ draw_id cfg ∷ fill_slot slot ∷ [])

-- The tests and the writes of `ipc_reply_error_raw` after `find_pending_ask`.
abbrev decide_error : Msg → Instruction Locals Core
decide_error m r =
    let d = error_found m r.1 r.0.pending in (record r.0 { decision = some d.0 }, d.1)

-- The first part of `ipc_reply_error_raw`.
abbrev pub error_part : Msg → Part Locals Core
error_part m = part_of (look_up m.ask_id ∷ decide_error m ∷ [])

-- The tests and the writes of `ipc_ask_timeout_expired`, before and after the message.
abbrev decide_timeout : ℕ → Instruction Locals Core
decide_timeout a r = let d = queue_found a r.1 r.0.pending in (record r.0 { queued = d.0 }, d.1)

abbrev reopen : ℕ → Instruction Locals Core
reopen a r = (r.0, unqueue_found a r.1 r.0.pending)

-- The two parts of `ipc_ask_timeout_expired`.
abbrev pub queue_part : (a id : ℕ) → Part Locals Core
queue_part a id = part_of (look_up id ∷ decide_timeout a ∷ [])

abbrev pub unqueue_part : (a id : ℕ) → Part Locals Core
unqueue_part a id = part_of (look_up id ∷ reopen a ∷ [])

-- The two tests of `ipc_dispatch_actor_handlers`, each with its writes.
abbrev take_answer : ℕ → Msg → Instruction Locals Core
take_answer self m r =
    let d = take_found self m r.1 r.0.pending in (record r.0 { callback = d.0 }, d.1)

-- The part of `ipc_dispatch_actor_handlers`.
abbrev pub take_part : ℕ → Msg → Part Locals Core
take_part self m = part_of (look_up m.ask_id ∷ take_answer self m ∷ [])

-- The part of `_ipc_set_next_ask_id_for_testing`.
abbrev pub recount_part : ℕ → Part Locals Core
recount_part next_id = part_of ((λ r. (r.0, set_next_ask_id (u32 next_id) r.1)) ∷ [])

-- What a thread takes the lock for.
pub data Locking : Type 0 where
  asks : (reply_id deadline self callback : ℕ) → Locking
  drops : (id : ℕ) → Locking
  cancels : (self id : ℕ) → Locking
  replies : Msg → (reply_id size : ℕ) → Locking
  fails : Msg → Locking
  queues unqueues : (a id : ℕ) → Locking
  takes : (self : ℕ) → Msg → Locking
  recounts : (next_id : ℕ) → Locking

-- Its instructions, ...
unfoldable pub part : Config → Locking → Part Locals Core
part cfg (asks reply_id deadline self callback) =
    reserve_part cfg (λ id. new_slot id reply_id deadline self callback)
part cfg (drops id) = drop_part id
part cfg (cancels self id) = cancel_part self id
part cfg (replies m reply_id size) = claim_part m reply_id size
part cfg (fails m) = error_part m
part cfg (queues a id) = queue_part a id
part cfg (unqueues a id) = unqueue_part a id
part cfg (takes self m) = take_part self m
part cfg (recounts next_id) = recount_part next_id

-- ... and the function of the core that stands for them.
unfoldable pub locked : Config → Locking → Core → Core
locked cfg (asks reply_id deadline self callback) c =
    (reserve_ask cfg (λ id. new_slot id reply_id deadline self callback) c).1
locked cfg (drops id) c = drop_ask id c
locked cfg (cancels self id) c = (cancel_found self id c (find_pending_ask id c.ask_table)).1
locked cfg (replies m reply_id size) c = (claim_reply m reply_id size c).1
locked cfg (fails m) c = (claim_error m c).1
locked cfg (queues a id) c = (queue_timeout a id c).1
locked cfg (unqueues a id) c = unqueue_timeout a id c
locked cfg (takes self m) c = (take_callback self m c).1
locked cfg (recounts next_id) c = set_next_ask_id (u32 next_id) c

unfoldable pub parts : Config → List Locking → List (Part Locals Core)
parts cfg [] = []
parts cfg (o ∷ os) = part cfg o ∷ parts cfg os

-- These functions one after the other, the last first.
unfoldable pub locked_all : Config → List Locking → Core → Core
locked_all cfg [] c = c
locked_all cfg (o ∷ os) c = locked cfg o (locked_all cfg os c)
