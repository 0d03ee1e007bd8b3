-- ===== src/Tests/Histories.antt =====
-- The properties of sequences of calls, from an ask to its callback, and of mailboxes, on the test
-- port of src/port/test.
use actor_framework_cxx.Slot.{zero_msg}
use actor_framework_cxx.Prelude.{
  inr, ◌+◌, ℕ, zero, suc, ◌≡◌, refl, true, some, [], ◌∷◌, arith, ◌==◌, if◌then◌else◌,
}
use actor_framework_cxx.State.{ok, err, einval, Msg, fail, supervise_restart, World}
use actor_framework_cxx.Interface.{to_callback}
use actor_framework_cxx.TestPort.{
  pushed, stop_actor, restart_actor, release_all, TestState, ActorState, test_port, enqueue,
}
use actor_framework_cxx.AskTable.{alloc_pending_ask, search_id, find_pending_ask, alloc_ask_id}
use actor_framework_cxx.Ask.Request.{finish_ask, time_ask, reserved_ask, prepared_ask, ask_with_id}
use actor_framework_cxx.History.{Run, start, next, asks, replies, dispatches}
use actor_framework_cxx.Definition.Response.{typed_call, typed_round_trip}
use actor_framework_cxx.TestPort.Restart.{QuietHooks, restart_empties}
use actor_framework_cxx.Lifecycle.{actor_fail}
use actor_framework_cxx.TestPort.Invariant.{PortValid, calls-PortValid}
use actor_framework_cxx.TestPort.Run.{run_until_idle}
use actor_framework_cxx.TestPort.Run.Idle.{Idle, total, run_until_idle_lem}
use actor_framework_cxx.Ask.Reply.{reply, reply_valid, send_reply}
use actor_framework_cxx.Ask.{reserve_ask, reserve_at, claim_found, claim_reply}
use actor_framework_cxx.Descriptor.{ensure_id, valid_descriptor}
use actor_framework_cxx.Delivery.{
  prepare_for, prepare_valid, prepare_registered_cmd, deliver, apply_mailbox_overflow_policy,
  find_registered,
}
use actor_framework_cxx.Dispatch.{dispatch}
use actor_framework_cxx.TestPort.{state_for, put, enqueue_in, actor_init}
use actor_framework_cxx.TestPort.Mailbox.{IsValid, contents}
use actor_framework_cxx.Tests.{
  cfg, lp64, memory, port, app, actor_with, mailbox, idle_world, asking_core, request_msg,
  reply_msg, iso, idle_valid,
}

abbrev one_waits : ActorState
one_waits = record (mailbox 1) { queue = request_msg ∷ zero_msg ∷ []; tail = 1; count = 1 }

one_waits-IsValid : IsValid one_waits
one_waits-IsValid = record {
  positive = omega arith;
  complete = refl;
  head_bounded = omega arith;
  count_bounded = omega arith;
  tail_next = refl;
}

-- The ask of actor 0 has been sent.
abbrev asked_world : World TestState
asked_world = record { core = asking_core; port = mailbox 0 ∷ one_waits ∷ [] }

asked_ok :
    ask_with_id cfg port (some 0) (some 0) (some (1 ∷ 2 ∷ [])) (some 1) (some 7) 0 idle_world
    ≡ (ok, 1, asked_world)
unfolding ask_with_id prepared_ask reserved_ask time_ask finish_ask reserve_ask reserve_at
    alloc_pending_ask alloc_ask_id search_id find_pending_ask prepare_registered_cmd prepare_valid
    prepare_for find_registered valid_descriptor ensure_id deliver apply_mailbox_overflow_policy
    test_port enqueue enqueue_in state_for put pushed
asked_ok = refl

abbrev replied_world : World TestState
replied_world = (reply port (some request_msg) (some 1) (some (5 ∷ [])) asked_world).1

replied_ok :
    reply port (some request_msg) (some 1) (some (5 ∷ [])) asked_world ≡ (ok, replied_world)
unfolding reply reply_valid send_reply claim_reply claim_found find_pending_ask valid_descriptor
    ensure_id deliver apply_mailbox_overflow_policy test_port enqueue enqueue_in state_for
replied_ok = refl

typed_round_trip_example :
    let call = (dispatch (some 0) (some reply_msg) replied_world.core).0 in
    (call ≡ to_callback 7 0 ok (some (5 ∷ [])) 1 reply_msg)
    × (typed_call cfg 1 call ≡ some (some (ok, some (5 ∷ []))))
typed_round_trip_example =
    typed_round_trip cfg port iso 0 0 (some (1 ∷ 2 ∷ [])) 1 7 0 idle_world 1 asked_world request_msg
      (some 1) (some (5 ∷ [])) replied_world reply_msg 1 idle_valid (omega arith) asked_ok refl
      replied_ok refl refl (inr refl)

asked_world-PortValid : PortValid asked_world.port
unfolding state_for
asked_world-PortValid zero s p u = ground (arith, p)
asked_world-PortValid (suc zero) s p u = ground (arith, p)
asked_world-PortValid (suc (suc a)) s p u = absurd (ground (arith, p))

calls-PortValid_example :
    PortValid (actor_init lp64 memory 1 asked_world).1.port
    × PortValid (enqueue 1 request_msg asked_world).1.port
    × PortValid (stop_actor 1 asked_world).port
    × PortValid (restart_actor 1 asked_world).1.port
    × PortValid (release_all asked_world.port)
calls-PortValid_example =
    calls-PortValid lp64 memory 1 request_msg asked_world asked_world-PortValid

-- Actors that do nothing with what they get.
abbrev ignore : ℕ → Msg → World TestState → World TestState
ignore a m w = w

run_until_idle_lem_example :
    (n : ℕ) × (w' : World TestState) × (run_until_idle ignore 5 asked_world ≡ some (n, w'))
    × (n + total w'.port ≡ total asked_world.port)
    × Idle w'.core.actor_list w'
unfolding total
run_until_idle_lem_example = run_until_idle_lem ignore (λ a m w. refl) 5 asked_world (omega arith)

-- Actor 0 asks, actor 1 replies, and actor 0 gets the reply.
abbrev after_ask : World TestState
after_ask =
    (ask_with_id cfg port (some 0) (some 0) (some (1 ∷ 2 ∷ [])) (some 1) (some 7) 0 idle_world).2

abbrev after_reply : World TestState
after_reply = (reply port (some request_msg) (some 1) (some (5 ∷ [])) after_ask).1

abbrev after_callback : World TestState
after_callback = record after_reply {
  core = (dispatch (some 0) (some reply_msg) after_reply.core).1;
}

history : Run cfg port idle_world after_callback
history =
    next idle_world after_reply after_callback
      (next idle_world after_ask after_reply
        (next idle_world idle_world after_ask (start idle_world)
          (asks (some 0) (some 0) (some (1 ∷ 2 ∷ [])) (some 1) (some 7) 0 idle_world))
        (replies (some request_msg) (some 1) (some (5 ∷ [])) after_ask))
      (dispatches (some 0) (some reply_msg) after_reply)

-- The actors are to be restarted when they fail.
abbrev restarting_world : World TestState
restarting_world = record asked_world {
  core = record asking_core {
    actors = λ a. record (actor_with 2 fail) { supervision = supervise_restart };
  };
}

app-QuietHooks : QuietHooks app
app-QuietHooks = record {
  hook_port = λ h a w. refl;
  failure_port = λ h a rc w. refl;
  failure_actors = λ h a rc w. refl;
}

restart_empties_example :
    let r = actor_fail port app (some 1) (err einval) restarting_world in
    (r.0 ≡ ok)
    × (s' : ActorState) × IsValid s'
    × (s'.started ≡ true)
    × (contents s' ≡ [])
    × ((b : ℕ)
        → state_for b r.1.port ≡ (if 1 == b then some s' else state_for b restarting_world.port))
unfolding state_for
restart_empties_example =
    restart_empties lp64 memory app app-QuietHooks 1 one_waits (err einval) restarting_world refl
      refl refl one_waits-IsValid
