-- ===== src/Tests/Asks.antt =====
-- The properties of the asks of src/ipc.c, at states of the system of Tests.
use actor_framework_cxx.Prelude.{
  ℕ, ◌≡◌, ◌≢◌, refl, ◌⊎◌, inl, true, none, some, [], ◌∷◌, arith, ◌==◌, if◌then◌else◌,
}
use actor_framework_cxx.State.{Rc, ok, err, ealready, enoent, eagain, Slot, zeroed, World}
use actor_framework_cxx.Interface.{to_callback}
use actor_framework_cxx.TestPort.{TestState, test_port, enqueue}
use actor_framework_cxx.AskTable.{find_pending_ask, alloc_ask_id}
use actor_framework_cxx.AskTable.Lookup.{lookup}
use actor_framework_cxx.AskTable.Fresh.{IsFresh, alloc_ask_id-IsFresh}
use actor_framework_cxx.Ask.Regions.{pending, AsksValid}
use actor_framework_cxx.Ask.Request.{ask_with_id}
use actor_framework_cxx.Ask.Reply.{reply, reply_error, timeout_expired, reply_valid, send_reply}
use actor_framework_cxx.Ask.Reply.Once.{Answered, reply-Answered, answered_once}
use actor_framework_cxx.Ask.Reply.Timeout.{Expired, timeout_expired_lem}
use actor_framework_cxx.Ask.Cancel.{owner, ask_cancel_lem}
use actor_framework_cxx.Ask.{ask_cancel, claim_found, claim_reply}
use actor_framework_cxx.Descriptor.{ensure_id, valid_descriptor, make_msg}
use actor_framework_cxx.Delivery.{deliver, apply_mailbox_overflow_policy}
use actor_framework_cxx.Dispatch.{dispatch, to_registered, take_callback, take_found, answer}
use actor_framework_cxx.Dispatch.Callbacks.{Ends, callback_once, callback_only}
use actor_framework_cxx.TestPort.{state_for, put, pushed, enqueue_in}
use actor_framework_cxx.TestPort.Answered.{Answers, reply-Answers}
use actor_framework_cxx.Slot.{stored}
use actor_framework_cxx.Ask.Request.Outcome.{Asked, ask_with_id-Asked}
use actor_framework_cxx.Tests.{
  lp64, memory, mailbox-IsValid, desc, cfg, port, running_core, mailbox, idle_world, waiting,
  asking_core, asking_world, request_msg, reply_msg, iso, idle_valid, asking_valid,
}

ask_with_id-Asked_example :
    Asked cfg port iso 0 7 running_core
      (ask_with_id cfg port (some 0) (some 0) (some (1 ∷ 2 ∷ [])) (some 1) (some 7) 0 idle_world)
ask_with_id-Asked_example =
    ask_with_id-Asked cfg port iso (some 0) (some 0) (some (1 ∷ 2 ∷ [])) (some 1) (some 7) 0
      idle_world idle_valid (omega arith)

alloc_ask_id-IsFresh_example :
    IsFresh asking_core.ask_table (alloc_ask_id 2 asking_core.ask_table 4294967295)
unfolding lookup
alloc_ask_id-IsFresh_example =
    alloc_ask_id-IsFresh 2 asking_core.ask_table 4294967295 (omega arith) (omega arith)
      asking_valid.table (omega arith)

callback_once_example :
    let (call, c') = dispatch (some 0) (some reply_msg) asking_core in
    (call ≡ to_callback 7 0 ok (some (5 ∷ [])) 1 reply_msg)
    × (dispatch (some 0) (some reply_msg) c' ≡ (to_registered 0 reply_msg c', c'))
    × ((j : ℕ) → pending j c' ≡ (if 1 == j then none else pending j asking_core))
unfolding lookup
callback_once_example =
    callback_once cfg asking_core reply_msg reply_msg 0 waiting asking_valid (omega arith) refl refl
      (inl refl)

abbrev asker : ℕ
asker = 0

abbrev handed : ℕ
handed = 7

callback_only_example :
    (s : Slot) × (pending 1 asking_core ≡ some s)
    × (s.actor ≡ asker)
    × Ends reply_msg s
    × (handed ≡ s.callback)
    × (asker ≡ asker)
    × (reply_msg.result ≡ reply_msg.result)
    × (reply_msg.payload ≡ reply_msg.payload)
    × (reply_msg.size ≡ reply_msg.size)
    × (reply_msg ≡ reply_msg)
unfolding dispatch take_callback take_found answer find_pending_ask
callback_only_example =
    callback_only asking_core 0 reply_msg 7 0 ok (some (5 ∷ [])) 1 reply_msg refl

-- Actor 1 has replied.
abbrev answered : Rc × World TestState
answered = reply port (some request_msg) (some 1) (some (5 ∷ [])) asking_world

answered_ok : answered ≡ (ok, answered.1)
unfolding reply reply_valid send_reply claim_reply claim_found find_pending_ask valid_descriptor
    ensure_id deliver apply_mailbox_overflow_policy test_port enqueue enqueue_in state_for
answered_ok = refl

answered_once_example :
    reply_error port (some request_msg) (err eagain) answered.1 ≡ (err ealready, answered.1)
answered_once_example =
    answered_once cfg port iso request_msg (some 1) (some (5 ∷ [])) (err eagain) asking_world
      answered.1 asking_valid answered_ok (omega arith) (omega arith) refl

reply-Answered_example : Answered request_msg asking_core answered
reply-Answered_example =
    reply-Answered cfg port iso request_msg (some 1) (some (5 ∷ [])) asking_world asking_valid

ask_cancel_lem_example :
    let (rc, c') = ask_cancel (some 0) 1 asking_core in
    ((rc ≡ ok)
      × (owner 1 asking_core ≡ some 0)
      × ((j : ℕ) → pending j c' ≡ (if 1 == j then none else pending j asking_core)))
    ⊎ ((rc ≡ err enoent) × (owner 1 asking_core ≢ some 0) × (c' ≡ asking_core))
ask_cancel_lem_example = ask_cancel_lem cfg asking_core 0 1 asking_valid (omega arith) refl

-- Actor 1 has replied, and the mailbox of actor 0 is full.
abbrev replied : Slot
replied = record waiting { reply_sent = true }

abbrev full_world : World TestState
full_world = record {
  core = record asking_core { ask_table = replied ∷ zeroed ∷ [] };
  port = record (mailbox 0) { count = 2 } ∷ mailbox 1 ∷ [];
}

full_valid : AsksValid cfg full_world.core
unfolding lookup
full_valid = record { table = ground arith; size = refl; counter = omega arith }

timeout_expired_lem_example : Expired port 0 1 full_world (timeout_expired port 0 1 full_world)
timeout_expired_lem_example = timeout_expired_lem cfg port iso 0 1 full_world full_valid

abbrev replied_to : World TestState
replied_to = (reply port (some request_msg) (some 1) (some (5 ∷ [])) asking_world).1

reply-Answers_example :
    let m = record (make_msg (desc 1) (some (5 ∷ []))) { ask_id = 1 } in
    Answers 0 7 (stored m) (mailbox 0) replied_to
unfolding reply reply_valid send_reply claim_reply claim_found find_pending_ask lookup
    valid_descriptor ensure_id deliver apply_mailbox_overflow_policy test_port enqueue enqueue_in
    state_for put pushed
reply-Answers_example =
    reply-Answers lp64 memory cfg request_msg 1 (some (5 ∷ [])) asking_world replied_to waiting
      (mailbox 0) asking_valid refl refl (mailbox-IsValid 0) refl refl
