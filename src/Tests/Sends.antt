-- ===== src/Tests/Sends.antt =====
-- The properties of the sends and the events of src/ipc.c, at states of the system of Tests.
use actor_framework_cxx.Prelude.{◌≡◌, refl, false, some, [], ◌∷◌}
use actor_framework_cxx.State.{is_full, event, Msg, drop_message, World, on_core}
use actor_framework_cxx.TestPort.{ActorState, TestState, state_for}
use actor_framework_cxx.TestPort.Published.{publish-Copied}
use actor_framework_cxx.TestPort.Published.Copies.{Copied}
use actor_framework_cxx.TestPort.Delivered.{Delivered, send-Delivered}
use actor_framework_cxx.Dispatch.{find_handler}
use actor_framework_cxx.Descriptor.{ensure_id, valid_descriptor, make_msg}
use actor_framework_cxx.Delivery.{find_registered, send, send_to, publish}
use actor_framework_cxx.Delivery.Overflow.{sends-not_full}
use actor_framework_cxx.Delivery.Publish.{subscribers, first_error, publish_each}
use actor_framework_cxx.Tests.{
  lp64, memory, mailbox-IsValid, port, actor_with, desc, running_core, handled_core, mailbox,
  world_of, iso,
}

abbrev event_msg : Msg
event_msg = record (make_msg (desc 2) (some (9 ∷ []))) { kind = event }

-- All mailboxes drop what they cannot hold, and that of actor 1 is full.
abbrev dropping_world : World TestState
dropping_world = record {
  core = record running_core { actors = λ a. actor_with 2 drop_message };
  port = mailbox 0 ∷ record (mailbox 1) { count = 2 } ∷ [];
}

sends-not_full_example :
    (is_full (send port (some 0) (some (1 ∷ 2 ∷ [])) dropping_world).0 ≡ false)
    × (is_full (send_to port (some 1) (some 0) (some (1 ∷ 2 ∷ [])) dropping_world).0 ≡ false)
sends-not_full_example =
    sends-not_full port iso (some 1) (some 0) (some (1 ∷ 2 ∷ [])) dropping_world (λ a. refl)

send-Delivered_example :
    Delivered 1 3
      (make_msg (desc 0) (some (1 ∷ 2 ∷ [])))
      (mailbox 1)
      (world_of handled_core)
      (send port (some 0) (some (1 ∷ 2 ∷ [])) (world_of handled_core))
unfolding ensure_id valid_descriptor find_registered find_handler state_for
send-Delivered_example =
    send-Delivered lp64 memory 0 1 3 (some (1 ∷ 2 ∷ [])) (mailbox 1) (world_of handled_core) refl
      refl refl refl (mailbox-IsValid 1) refl

publish-Copied_example :
    let w1 = on_core (ensure_id 2) (world_of running_core) in
    let m = record (make_msg (w1.core.descs 2) (some (9 ∷ []))) { kind = event } in
    let l = subscribers (w1.core.descs 2).id w1.core.sub_table in
    let r = publish port (some 2) (some (9 ∷ [])) (world_of running_core) in
    (r.0 ≡ first_error (publish_each port m l w1).0)
    × (s' : ActorState) × (state_for 1 r.1.port ≡ some s')
    × Copied l 1 m (mailbox 1) s' (w1.core.actors 1).max_payload_size
unfolding valid_descriptor state_for
publish-Copied_example =
    publish-Copied lp64 memory 2 (some (9 ∷ [])) 1 (mailbox 1) (world_of running_core) refl refl
      (mailbox-IsValid 1) refl
