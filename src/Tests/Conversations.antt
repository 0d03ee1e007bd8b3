-- ===== src/Tests/Conversations.antt =====
-- An ask and its reply over the mailboxes of src/port/test/ipc_test_port.c, at a state of the system of Tests.
use actor_framework_cxx.Prelude.{refl, inl, some, [], ◌∷◌, arith}
use actor_framework_cxx.State.{Msg, World}
use actor_framework_cxx.Descriptor.{ensure_id, valid_descriptor, make_msg}
use actor_framework_cxx.Slot.{stored}
use actor_framework_cxx.AskTable.{find_pending_ask, alloc_ask_id, alloc_pending_ask}
use actor_framework_cxx.AskTable.Lookup.{lookup}
use actor_framework_cxx.Ask.Regions.{AsksValid}
use actor_framework_cxx.Ask.{reserve_ask, claim_found, claim_reply}
use actor_framework_cxx.Ask.Request.{ask_with_id, prepared_ask, reserved_ask, time_ask, finish_ask}
use actor_framework_cxx.Ask.Reply.{reply, reply_valid, send_reply}
use actor_framework_cxx.Delivery.{
  find_registered, deliver, apply_mailbox_overflow_policy, prepare_for, prepare_valid,
  prepare_registered_cmd,
}
use actor_framework_cxx.Dispatch.{find_handler}
use actor_framework_cxx.TestPort.{TestState, state_for, test_port, enqueue, put, pushed, enqueue_in}
use actor_framework_cxx.TestPort.Reserved.{Requests}
use actor_framework_cxx.TestPort.Answered.{Answers}
use actor_framework_cxx.TestPort.Conversation.{ask_and_reply}
use actor_framework_cxx.Tests.{
  lp64, memory, mailbox-IsValid, desc, cfg, port, handled_core, mailbox, world_of, idle_world,
}

handled_valid : AsksValid cfg handled_core
unfolding lookup
handled_valid = record { table = ground arith; size = refl; counter = omega arith }

abbrev asked : World TestState
asked =
    (ask_with_id cfg port (some 0) (some 0) (some (1 ∷ 2 ∷ [])) (some 1) (some 7) 0
      (world_of handled_core)).2

abbrev request : Msg
request = stored (record (make_msg (desc 0) (some (1 ∷ 2 ∷ []))) { ask_id = 1; reply_id = 11 })

-- The mailbox of actor 1 is empty again when it replies.
abbrev replied : World TestState
replied =
    (reply port (some request) (some 1) (some (5 ∷ [])) (record asked { port = idle_world.port })).1

ask_and_reply_example :
    Requests 1 3 request (mailbox 1) asked
    × Answers 0 7
        (stored (record (make_msg (desc 1) (some (5 ∷ []))) { ask_id = 1 }))
        (mailbox 0)
        replied
unfolding ask_with_id prepared_ask reserved_ask time_ask finish_ask reserve_ask alloc_ask_id
    alloc_pending_ask prepare_registered_cmd prepare_valid prepare_for find_registered find_handler
    reply reply_valid send_reply claim_reply claim_found find_pending_ask lookup valid_descriptor
    ensure_id deliver apply_mailbox_overflow_policy test_port enqueue enqueue_in state_for put
    pushed
ask_and_reply_example =
    ask_and_reply lp64 memory cfg 0 0 1 3 1 7 1 (some (1 ∷ 2 ∷ [])) (world_of handled_core) asked
      (mailbox 1) (omega arith) handled_valid refl (mailbox-IsValid 1) refl refl refl
      (inl (omega arith)) refl idle_world.port (mailbox 0) 1 (some (5 ∷ [])) replied refl
      (mailbox-IsValid 0) refl refl
