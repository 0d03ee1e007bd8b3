-- ===== src/Tests/Basic.antt =====
-- The example examples/basic_zephyr at work: its constructors build the tables, and the exchange that
-- `basic_actor_init` starts counts five pings and five pongs.
use mathlib.Core.Option.{get_or}
use actor_framework_cxx.Prelude.{◌+◌, ◌≡◌, refl, false, some, [], ◌∷◌}
use actor_framework_cxx.State.{Core}
use actor_framework_cxx.Definition.{actor_of}
use actor_framework_cxx.Descriptor.{ensure_id}
use actor_framework_cxx.Registry.{
  register_static, is_listed, register_supervision_static, register_start_hook_static,
  register_stop_hook_static, register_unknown_hook_static, register_failure_hook_static,
  register_handler_static, register_cmd, detect_id_collision, has_collision, has_route,
  append_actor, bind_handler, bind_routed, handler_registered, register_cmd_at,
  register_field_static, registration_closed, route_handler, same_name, set_registered,
}
use actor_framework_cxx.Registry.Setup.{construct_all}
use actor_framework_cxx.Examples.Basic.{
  BasicState, basic_desc, basic_constructors, basic_max_payload,
}
use actor_framework_cxx.Tests.{cfg, fresh_core}

abbrev started : BasicState
started = record { ping_count = 0; pong_count = 0; restart_pending = false; restart_count = 0 }

abbrev five : BasicState
five = record { ping_count = 5; pong_count = 5; restart_pending = false; restart_count = 0 }

-- The core of the example before its constructors run, with its actors and its descriptors,
-- whose ids are taken as computed, and smaller than they are.
abbrev basic_core : Core
basic_core = record fresh_core {
  descs = λ d. record (basic_desc d) { id = d + 1 };
  actors = λ a. actor_of (105 ∷ 112 ∷ 99 ∷ []) 1024 4 (basic_max_payload a);
}

abbrev basic_built : Core
basic_built = get_or (construct_all cfg basic_constructors basic_core) basic_core

basic_built_ok : construct_all cfg basic_constructors basic_core ≡ some basic_built
unfolding construct_all mathlib.Core.Option.bind actor_framework_cxx.Registry.Setup.construct
    register_static is_listed register_supervision_static register_start_hook_static
    register_stop_hook_static register_unknown_hook_static register_failure_hook_static
    register_handler_static ensure_id register_cmd detect_id_collision has_collision has_route
    append_actor bind_handler bind_routed handler_registered register_cmd_at register_field_static
    registration_closed route_handler same_name set_registered
basic_built_ok = refl
