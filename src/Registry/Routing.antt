-- ===== src/Registry/Routing.antt =====
-- Static registration in src/ipc.c as a whole: it keeps the tables valid, and what it registered is
-- what a send finds.
use actor_framework_cxx.Prelude.{
  ℕ, ◌≡◌, inl, inr, sym, ap, subst, ◌∙◌, Bool-cases, true, false, none, some, List, arith, ==_refl,
}
use actor_framework_cxx.State.{event, is_kind, Desc, is_stopped, Config, Core}
use actor_framework_cxx.Descriptor.{ensure_id}
use actor_framework_cxx.Delivery.{find_registered}
use actor_framework_cxx.Dispatch.{find_handler}
use actor_framework_cxx.Registry.{route_of, append_actor, register_handler_static}
use actor_framework_cxx.Registry.Tables.{find_handler-append, find_registered-append}
use actor_framework_cxx.Registry.Added.{
  binding_of, CommandAdded, prepared_core, register_handler_static-Added,
}
use actor_framework_cxx.Registry.Valid.{RegistryValid, CommandAdded-Valid, EventAdded-Valid}

-- The invariant speaks of the tables only.
frame :
    (cfg : Config) (c : Core) (l : List ℕ) (f : ℕ → Desc)
    → RegistryValid cfg c
    → RegistryValid cfg (record c { actor_list = l; descs = f })
frame cfg c l f v = record {
  routes = v.routes;
  subscriptions = v.subscriptions;
  routes_handled = v.routes_handled;
  subscriptions_handled = v.subscriptions_handled;
  names_rr = v.names_rr;
  names_rs = v.names_rs;
  names_sr = v.names_sr;
  names_ss = v.names_ss;
  reg_bound = v.reg_bound;
  sub_bound = v.sub_bound;
  handlers = v.handlers;
}

module _ (cfg : Config) (a d h : ℕ) where
  prepared-frame :
      (c : Core)
      → prepared_core cfg a d h c ≡ record c {
        actor_list = (prepared_core cfg a d h c).actor_list;
        descs = (prepared_core cfg a d h c).descs;
      }
  unfolding prepared_core append_actor ensure_id
  prepared-frame c = ground arith

  prepared-Valid : (c : Core) → RegistryValid cfg c → RegistryValid cfg (prepared_core cfg a d h c)
  prepared-Valid c v = subst (RegistryValid cfg) (sym (prepared-frame c)) (frame cfg c _ _ v)

  pub closed_unchanged :
      (c c' : Core)
      → is_stopped c.lifecycle ≡ false
      → register_handler_static cfg a d h c ≡ some c'
      → c' ≡ c
  unfolding register_handler_static
  closed_unchanged c c' s e = ground arith

  -- Registering a handler keeps the tables valid: one route to a command, one subscription of an
  -- actor to an event, a handler behind each, one name for an id, and no table past its capacity.
  -- The registration returns, that is, it does not abort.
  pub register_handler_static-Valid :
      (c c' : Core)
      → RegistryValid cfg c
      → register_handler_static cfg a d h c ≡ some c'
      → RegistryValid cfg c'
  register_handler_static-Valid c c' v e = elim (Bool-cases (is_stopped c.lifecycle)) [
    | inr closed ↦ rw (closed_unchanged c c' closed e) v
    | inl free ↦
        let c1 = prepared_core cfg a d h c in
        let v1 = prepared-Valid c v in
        elim (register_handler_static-Added cfg a d h c c' free e) [
          | inl (k, w) ↦ EventAdded-Valid cfg (c1.descs d) a h c1 c' v1 w
          | inr (k, w) ↦ CommandAdded-Valid cfg (c1.descs d) a h c1 c' v1 w
        ]
  ]

  command_found :
      (x : Desc) (c1 c' : Core)
      → CommandAdded cfg x a h c1 c'
      → find_handler a x.id c1.handler_table ≡ none
      → (find_registered x.id c'.reg_table ≡ some a)
        × (find_handler a x.id c'.handler_table ≡ some h)
  command_found x c1 c' w fresh = rw w.result (
    find_registered-append c1.reg_table (route_of x a) w.fresh,
    find_handler-append a x.id c1.handler_table (binding_of x a h)
        ∙ rw (fresh, ==_refl a, ==_refl x.id),
  )

  -- A command that was registered while registration is open is routed to its actor, under the id
  -- that its descriptor has now; and a message of that id finds the new handler there, if the actor
  -- had none for the id.
  pub registered_command :
      (c c' : Core)
      → is_stopped c.lifecycle ≡ true
      → is_kind (c'.descs d).kind event ≡ false
      → register_handler_static cfg a d h c ≡ some c'
      → find_handler a (c'.descs d).id c.handler_table ≡ none
      → (find_registered (c'.descs d).id c'.reg_table ≡ some a)
        × (find_handler a (c'.descs d).id c'.handler_table ≡ some h)
  registered_command c c' free kind e fresh =
      elim (register_handler_static-Added cfg a d h c c' free e) [
        | inl (k, w) ↦ absurd (ground (arith, w.result))
        | inr (k, w) ↦
            let c1 = prepared_core cfg a d h c in
            let same : c1.descs d ≡ c'.descs d = ap (λ (q : Core). q.descs d) (sym w.result) in
            let tables : c1.handler_table ≡ c.handler_table =
              ap (λ (q : Core). q.handler_table) (prepared-frame c) in
            rw (← same) (
              command_found (c1.descs d) c1 c' w (
                ap (find_handler a (c1.descs d).id) tables
                ∙ ap (λ (x : Desc). find_handler a x.id c.handler_table) same
                ∙ fresh))
      ]
