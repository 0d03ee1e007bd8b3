-- ===== src/Tests/Registration.antt =====
-- The properties of the static registration of src/ipc.c, for an actor and a command.
use actor_framework_cxx.Prelude.{ℕ, zero, suc, Name, ap, inl, ◌≡◌, refl, some, arith, List, [], ◌∷◌}
use mathlib.Core.Option.{get_or}
use actor_framework_cxx.State.{Msg, cmd, ok, Core, supervise_restart}
use actor_framework_cxx.Descriptor.{ensure_id}
use actor_framework_cxx.Delivery.{find_registered}
use actor_framework_cxx.Dispatch.{find_handler, to_registered, dispatch}
use actor_framework_cxx.Registry.{
  has_collision, detect_id_collision, has_route, is_listed, append_actor, register_cmd_at,
  register_cmd, registration_closed, register_static, bind_handler, bind_routed, route_handler,
  handler_registered, register_handler_static, register_field_static, set_registered,
  register_supervision_static, register_start_hook_static, subscribe_event, subscribe_event_at,
  has_subscription,
}
use actor_framework_cxx.Registry.Valid.{RegistryValid}
use actor_framework_cxx.Registry.Routing.{registered_command}
use mathlib.Core.List.{Mem}
use actor_framework_cxx.Registry.Setup.Declared.{final_id}
use actor_framework_cxx.Registry.Setup.Typed.{name_of, handlers_typed}
use actor_framework_cxx.Registry.Setup.{
  Constructor, defines, handles, supervises, starts_with, construct, construct_all,
}
use actor_framework_cxx.Registry.Setup.Lists.{empty, no_route}
use actor_framework_cxx.Registry.Setup.Valid.{SetupValid, construct_all-SetupValid}
use actor_framework_cxx.Tests.{cfg, fresh_core}

-- A routed command: actor 1 registers the request.
abbrev registered : Core
registered = get_or (register_handler_static cfg 1 0 3 fresh_core) fresh_core

registered_ok : register_handler_static cfg 1 0 3 fresh_core ≡ some registered
unfolding register_handler_static handler_registered bind_routed bind_handler route_handler
    register_cmd register_cmd_at registration_closed register_static append_actor is_listed
    ensure_id detect_id_collision has_collision has_route
registered_ok = refl

fresh_registry : RegistryValid cfg fresh_core
fresh_registry = record {
  routes = tt;
  subscriptions = tt;
  routes_handled = tt;
  subscriptions_handled = tt;
  names_rr = tt;
  names_rs = tt;
  names_sr = tt;
  names_ss = tt;
  reg_bound = omega arith;
  sub_bound = omega arith;
  handlers = refl;
}

fresh_valid : SetupValid cfg fresh_core
fresh_valid = record {
  registry = fresh_registry;
  distinct = empty;
  routed = no_route;
  subscribed = no_route;
}

-- An application of two actors: actor 1 handles the request and the event, and is restarted when it
-- fails; actor 0, which is defined later, handles the event too.
abbrev application : List Constructor
application =
    defines 1
    ∷ handles 1 0 3
    ∷ handles 0 2 4
    ∷ supervises 1 supervise_restart
    ∷ defines 0
    ∷ handles 1 2 5
    ∷ starts_with 0 1
    ∷ []

abbrev built : Core
built = get_or (construct_all cfg application fresh_core) fresh_core

built_ok : construct_all cfg application fresh_core ≡ some built
unfolding mathlib.Core.Option.bind actor_framework_cxx.Registry.same_name construct_all construct
    register_field_static set_registered register_supervision_static register_start_hook_static
    subscribe_event subscribe_event_at has_subscription register_handler_static handler_registered
    bind_routed bind_handler route_handler register_cmd register_cmd_at registration_closed
    register_static append_actor is_listed ensure_id detect_id_collision has_collision has_route
built_ok = refl

construct_all-SetupValid_example : SetupValid cfg built
construct_all-SetupValid_example =
    construct_all-SetupValid cfg application fresh_core built fresh_valid built_ok

registered_command_example :
    (find_registered (registered.descs 0).id registered.reg_table ≡ some 1)
    × (find_handler 1 (registered.descs 0).id registered.handler_table ≡ some 3)
unfolding register_handler_static handler_registered bind_routed bind_handler route_handler
    register_cmd register_cmd_at registration_closed register_static append_actor is_listed
    ensure_id detect_id_collision has_collision has_route find_handler
registered_command_example =
    registered_command cfg 1 0 3 fresh_core registered refl refl registered_ok refl

abbrev question : Msg
question = record {
  id = 10;
  kind = cmd;
  size = 2;
  payload = some (1 ∷ 2 ∷ []);
  ask_id = 0;
  reply_id = 0;
  result = ok;
}

-- The first byte of a name.
abbrev first_byte : Name → ℕ
first_byte [] = 0
first_byte (a ∷ l) = a

request_size :
    (d : ℕ)
    → name_of fresh_core d ≡ name_of fresh_core 0
    → (fresh_core.descs d).size ≡ (fresh_core.descs 0).size
request_size zero e = refl
request_size (suc zero) e = absurd (omega (arith, ap first_byte e))
request_size (suc (suc d)) e = absurd (omega (arith, ap first_byte e))

handlers_typed_example :
    (d : ℕ) × Mem (handles 1 d 3) application
    × (10 ≡ final_id fresh_core d)
    × (name_of fresh_core d ≡ name_of fresh_core 0)
    × (2 ≡ (fresh_core.descs d).size)
    × (◌≡◌ {A = ℕ} 1 1)
    × (question.payload ≡ question.payload)
    × (question ≡ question)
unfolding dispatch to_registered find_handler construct_all construct mathlib.Core.Option.bind
    register_static register_handler_static is_listed ensure_id register_cmd detect_id_collision
    has_collision has_route subscribe_event has_subscription register_supervision_static
    actor_framework_cxx.Registry.same_name register_start_hook_static
handlers_typed_example =
    handlers_typed cfg application fresh_core built fresh_valid refl built_ok 0
      (inl (inl (refl, refl))) (λ a d h m e. request_size d e) built built refl 1 3 1 question
      question question.payload refl refl refl
