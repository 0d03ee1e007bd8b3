-- ===== src/Registry.antt =====
-- Static registration, in src/ipc.c: the actor list, the command routes, the event subscriptions and
-- the handler table. `none` stands for `abort()`, which a failed `assert` calls too.
pub mod Added
pub mod Tables
pub mod Valid
pub mod Routing
pub mod Links
pub mod Setup
use actor_framework_cxx.Prelude.{
  ℕ, ◌+◌, Bool, true, false, ◌&&◌, ◌||◌, not, Option, none, some, List, [], ◌∷◌, ◌++◌, Name, leb,
  ◌==◌, if◌then◌else◌, length,
}
use actor_framework_cxx.State.{
  Rc, ok, err, enomem, ealready, eexist, is_zero, event, cmd, is_kind, Desc, Supervision, Actor,
  Route, Binding, is_stopped, Config, Core, with_actor,
}
use actor_framework_cxx.Descriptor.{ensure_id, name_bytes, has_name}

-- `strcmp(a, b) == 0`
unfoldable pub same_name : Name → Name → Bool
same_name [] [] = true
same_name (a ∷ s) (b ∷ t) = a == b && same_name s t
same_name _ _ = false

-- One loop of `detect_id_collision`: another name under the same id.
unfoldable pub has_collision : ℕ → Name → List Route → Bool
has_collision id name [] = false
has_collision id name (r ∷ t) =
    (r.msg_id == id && not (same_name r.msg_name name)) || has_collision id name t

-- `detect_id_collision`
unfoldable pub detect_id_collision : Desc → Core → Rc
detect_id_collision d c =
    let name = name_bytes d.name in
    if has_collision d.id name c.reg_table || has_collision d.id name c.sub_table
    then err eexist
    else ok

unfoldable pub has_route : ℕ → List Route → Bool
has_route id [] = false
has_route id (r ∷ t) = r.msg_id == id || has_route id t

unfoldable pub has_subscription : ℕ → ℕ → List Route → Bool
has_subscription id actor [] = false
has_subscription id actor (r ∷ t) =
    (r.msg_id == id && r.actor == actor) || has_subscription id actor t

abbrev pub route_of : Desc → ℕ → Route
route_of d actor = record { msg_id = d.id; msg_name = name_bytes d.name; actor = actor }

-- `assert(0)`, and what follows it in a build without assertions.
abbrev or_abort {ℓ} : {A : Type ℓ} → Config → A → Option A
or_abort cfg a = if cfg.asserts then none else some a

unfoldable pub is_listed : ℕ → List ℕ → Bool
is_listed a [] = false
is_listed a (b ∷ t) = b == a || is_listed a t

-- The list walk of `_ipc_actor_register_static`.
unfoldable pub append_actor : ℕ → Core → Core
append_actor a c =
    if is_listed a c.actor_list then c else record c { actor_list = c.actor_list ++ (a ∷ []) }

module _ (cfg : Config) where
  -- `register_cmd_unlocked`, from after `_ipc_ensure_id` on.
  unfoldable pub register_cmd_at : ℕ → Desc → Core → Option (Rc × Core)
  register_cmd_at actor d c =
      if not (is_zero (detect_id_collision d c))
      then some (detect_id_collision d c, c)
      else if has_route d.id c.reg_table
      then or_abort cfg (err ealready, c)
      else if leb cfg.max_registrations (length c.reg_table)
      then or_abort cfg (err enomem, c)
      else some (ok, record c { reg_table = c.reg_table ++ (route_of d actor ∷ []) })

  -- `register_cmd_unlocked`
  unfoldable pub register_cmd : (actor desc : ℕ) → Core → Option (Rc × Core)
  unfolding register_cmd_at
  register_cmd actor d c =
      let c' = ensure_id d c in
      if cfg.asserts && not (is_kind (c.descs d).kind cmd)
      then none
      else register_cmd_at actor (c'.descs d) c'

  -- `subscribe_event_unlocked`, from after `_ipc_ensure_id` on. Without room for subscriptions its
  -- loop is compiled out, and the table is empty.
  unfoldable pub subscribe_event_at : ℕ → Desc → Core → Rc × Core
  subscribe_event_at actor d c =
      if not (is_zero (detect_id_collision d c))
      then (detect_id_collision d c, c)
      else if has_subscription d.id actor c.sub_table
      then (err ealready, c)
      else if leb cfg.max_subscriptions (length c.sub_table)
      then (err enomem, c)
      else (ok, record c { sub_table = c.sub_table ++ (route_of d actor ∷ []) })

  -- `subscribe_event_unlocked`
  unfoldable pub subscribe_event : (actor desc : ℕ) → Core → Option (Rc × Core)
  unfolding subscribe_event_at
  subscribe_event actor d c =
      let c' = ensure_id d c in
      if cfg.asserts && not (is_kind (c.descs d).kind event)
      then none
      else some (subscribe_event_at actor (c'.descs d) c')

  -- `registration_closed`
  unfoldable pub registration_closed : Core → Option Bool
  registration_closed c = if is_stopped c.lifecycle then some false else or_abort cfg true

  -- The rest of a registration function, which returns at once where registration is closed.
  abbrev unless_closed : Core → Option Core → Option Core
  unless_closed c rest = elim (registration_closed c) [
    | none ↦ none
    | some true ↦ some c
    | some false ↦ rest
  ]

  -- `_ipc_actor_register_static`
  unfoldable pub register_static : ℕ → Core → Option Core
  unfolding append_actor registration_closed
  register_static a c = unless_closed c (some (append_actor a c))

  unfoldable pub bind_handler : (actor desc handler : ℕ) → Core → Option Core
  bind_handler actor d handler c =
      if leb (cfg.max_registrations + cfg.max_subscriptions) (length c.handler_table)
      then none
      else some (record c {
        handler_table =
            c.handler_table
            ++ (record { actor = actor; msg_id = (c.descs d).id; handler = handler } ∷ []);
      })

  unfoldable pub bind_routed : (actor desc handler : ℕ) → Option (Rc × Core) → Option Core
  unfolding bind_handler
  bind_routed actor d handler none = none
  bind_routed actor d handler (some (rc, c)) =
      if is_zero rc then bind_handler actor d handler c else none

  -- The route of a handler, by the kind of its message.
  unfoldable pub route_handler : (actor desc : ℕ) → Core → Option (Rc × Core)
  route_handler actor d c =
      if is_kind (c.descs d).kind event then subscribe_event actor d c else register_cmd actor d c

  unfoldable pub handler_registered : (actor desc handler : ℕ) → Option Core → Option Core
  unfolding bind_routed route_handler
  handler_registered actor d handler none = none
  handler_registered actor d handler (some c) =
      bind_routed actor d handler (route_handler actor d (ensure_id d c))

  -- `_ipc_actor_register_handler_static`. A descriptor without a name is not hashed: C reads through
  -- the null pointer there.
  unfoldable pub register_handler_static : (actor desc handler : ℕ) → Core → Option Core
  unfolding handler_registered registration_closed
  register_handler_static actor d handler c = unless_closed c (
      if has_name (c.descs d).name
      then handler_registered actor d handler (register_static actor c)
      else none)

  -- The five functions that set a field of the actor.
  unfoldable pub set_registered : ℕ → (Actor → Actor) → Option Core → Option Core
  set_registered a f none = none
  set_registered a f (some c) = some (with_actor a (f (c.actors a)) c)

  unfoldable pub register_field_static : ℕ → (Actor → Actor) → Core → Option Core
  unfolding set_registered registration_closed
  register_field_static a f c = unless_closed c (set_registered a f (register_static a c))

  -- `_ipc_actor_register_start_hook_static`
  unfoldable pub register_start_hook_static : ℕ → Option ℕ → Core → Option Core
  unfolding register_field_static
  register_start_hook_static a hook = register_field_static a (λ x. record x { start_hook = hook })

  -- `_ipc_actor_register_stop_hook_static`
  unfoldable pub register_stop_hook_static : ℕ → Option ℕ → Core → Option Core
  unfolding register_field_static
  register_stop_hook_static a hook = register_field_static a (λ x. record x { stop_hook = hook })

  -- `_ipc_actor_register_unknown_hook_static`
  unfoldable pub register_unknown_hook_static : ℕ → Option ℕ → Core → Option Core
  unfolding register_field_static
  register_unknown_hook_static a hook =
      register_field_static a (λ x. record x { unknown_handler = hook })

  -- `_ipc_actor_register_supervision_static`
  unfoldable pub register_supervision_static : ℕ → Supervision → Core → Option Core
  unfolding register_field_static
  register_supervision_static a s = register_field_static a (λ x. record x { supervision = s })

  -- `_ipc_actor_register_failure_hook_static`
  unfoldable pub register_failure_hook_static : ℕ → Option ℕ → Core → Option Core
  unfolding register_field_static
  register_failure_hook_static a hook =
      register_field_static a (λ x. record x { failure_hook = hook })
