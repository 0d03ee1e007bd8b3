-- ===== src/Tests/Interleavings.antt =====
-- A schedule of the locked parts of src/ipc.c: while actor 0 asks, another ask of its is cancelled; its
-- timeout is queued and taken back; then the reply is claimed and dispatched.
use actor_framework_cxx.Prelude.{ℕ, ◌+◌, ◌≡◌, some, [], ◌∷◌, arith}
use actor_framework_cxx.State.{Core}
use actor_framework_cxx.Ask.Regions.{pending, AsksValid}
use actor_framework_cxx.Interleaving.{
  reserves, claims, cancels, dispatches, Schedule, start, next, reserved, called, silent, freed,
  opens, calls, frees, count, reserve_slot,
}
use actor_framework_cxx.Interleaving.Balance.{weight}
use actor_framework_cxx.Interleaving.Steps.{Schedule-Sound}
use actor_framework_cxx.Ask.{claim_reply, ask_cancel, reserve_ask, drop_ask}
use actor_framework_cxx.Dispatch.{dispatch, take_callback}
use actor_framework_cxx.AskTable.{find_pending_ask, alloc_pending_ask, alloc_ask_id, clear_found}
use actor_framework_cxx.Tests.{cfg, running_core, idle_valid, request_msg, reply_msg}

abbrev reserved_core : Core
reserved_core = (reserve_slot cfg 11 0 0 7 running_core).1

abbrev other_core : Core
other_core = (reserve_slot cfg 11 0 1 8 reserved_core).1

abbrev claimed_core : Core
claimed_core = (claim_reply request_msg 11 1 other_core).1

abbrev cancelled_core : Core
cancelled_core = (ask_cancel (some 1) 2 claimed_core).1

abbrev dispatched_core : Core
dispatched_core = (dispatch (some 0) (some reply_msg) cancelled_core).1

schedule :
    Schedule cfg running_core
      (called 1 ∷ freed 2 ∷ silent ∷ reserved 2 ∷ reserved 1 ∷ [])
      dispatched_core
unfolding dispatch take_callback ask_cancel claim_reply reserve_ask drop_ask find_pending_ask
    alloc_pending_ask alloc_ask_id clear_found
schedule =
    next running_core cancelled_core dispatched_core _ _
      (next running_core claimed_core cancelled_core _ _
        (next running_core other_core claimed_core _ _
          (next running_core reserved_core other_core _ _
            (next running_core running_core reserved_core _ _ (start running_core)
              (reserves 11 0 0 7 running_core))
            (reserves 11 0 1 8 reserved_core))
          (claims request_msg 11 1 other_core))
        (cancels (some 1) 2 claimed_core))
      (dispatches (some 0) reply_msg cancelled_core)

Schedule-Sound_example :
    let es = called 1 ∷ freed 2 ∷ silent ∷ reserved 2 ∷ reserved 1 ∷ [] in
    AsksValid cfg dispatched_core
    × ((j : ℕ)
        → count (opens j) es + weight (pending j running_core)
          ≡ count (calls j) es + count (frees j) es + weight (pending j dispatched_core))
Schedule-Sound_example =
    Schedule-Sound cfg (omega arith) running_core dispatched_core
      (called 1 ∷ freed 2 ∷ silent ∷ reserved 2 ∷ reserved 1 ∷ []) schedule idle_valid
