-- ===== src/Registry/Valid.antt =====
-- The invariant of the tables that static registration in src/ipc.c builds.
use actor_framework_cxx.Prelude.{
  ℕ, ◌+◌, ◌≤◌, ◌≡◌, inl, inr, ◌∙◌, true, false, some, List, [], ◌∷◌, ◌++◌, arith, ==_refl, length,
  length-append, Option-cases,
}
use actor_framework_cxx.State.{is_zero, Desc, Binding, Config, Core}
use actor_framework_cxx.Descriptor.{name_bytes}
use actor_framework_cxx.Dispatch.{find_handler}
use actor_framework_cxx.Registry.{has_collision, detect_id_collision, route_of}
use actor_framework_cxx.Registry.Tables.{
  DistinctRoutes, DistinctSubscriptions, Handled, Agree, DistinctRoutes-append,
  DistinctSubscriptions-append, find_handler-append, Handled-append_binding, Handled-append,
  Agree-append_left, Agree-append_right, has_collision-append_self,
}
use actor_framework_cxx.Registry.Added.{binding_of, CommandAdded, EventAdded}

-- One route to a command and one subscription of an actor to an event; each leads to a handler;
-- an id stands for one name; each table is within its capacity, and there is a handler for each
-- route.
pub record RegistryValid (cfg : Config) (c : Core) : Type 0 where
  pub routes : DistinctRoutes c.reg_table
  pub subscriptions : DistinctSubscriptions c.sub_table
  pub routes_handled : Handled c.handler_table c.reg_table
  pub subscriptions_handled : Handled c.handler_table c.sub_table
  pub names_rr : Agree c.reg_table c.reg_table
  pub names_rs : Agree c.reg_table c.sub_table
  pub names_sr : Agree c.sub_table c.reg_table
  pub names_ss : Agree c.sub_table c.sub_table
  pub reg_bound : length c.reg_table ≤ cfg.max_registrations
  pub sub_bound : length c.sub_table ≤ cfg.max_subscriptions
  pub handlers : length c.handler_table ≡ length c.reg_table + length c.sub_table

agrees_both :
    (x : Desc) (c : Core)
    → is_zero (detect_id_collision x c) ≡ true
    → (has_collision x.id (name_bytes x.name) c.reg_table ≡ false)
      × (has_collision x.id (name_bytes x.name) c.sub_table ≡ false)
unfolding detect_id_collision
agrees_both x c h = ground arith

-- The new binding is found, unless an older one of the actor for that id comes first.
found_handler :
    (x : Desc) (a h : ℕ) (ht : List Binding)
    → (k : ℕ) × (find_handler a x.id (ht ++ (binding_of x a h ∷ [])) ≡ some k)
found_handler x a h ht = elim (Option-cases (find_handler a x.id ht)) [
  | inl e ↦ (h, find_handler-append a x.id ht (binding_of x a h) ∙ rw (e, ==_refl a, ==_refl x.id))
  | inr (k, e) ↦ (k, find_handler-append a x.id ht (binding_of x a h) ∙ rw e)
]

module _ (cfg : Config) (x : Desc) (a h : ℕ) (c c' : Core) (v : RegistryValid cfg c) where
  pub CommandAdded-Valid : CommandAdded cfg x a h c c' → RegistryValid cfg c'
  CommandAdded-Valid w =
      let (k, found) = found_handler x a h c.handler_table in
      let r = route_of x a in
      let b = binding_of x a h in
      let (nr, ns) = agrees_both x c w.agrees in
      rw w.result (record {
        routes = DistinctRoutes-append c.reg_table r v.routes w.fresh;
        subscriptions = v.subscriptions;
        routes_handled =
            Handled-append _ c.reg_table r k
              (Handled-append_binding c.handler_table b c.reg_table v.routes_handled) found;
        subscriptions_handled =
            Handled-append_binding c.handler_table b c.sub_table v.subscriptions_handled;
        names_rr =
            Agree-append_left c.reg_table _ r
              (Agree-append_right c.reg_table c.reg_table r v.names_rr nr)
              (has_collision-append_self c.reg_table r nr);
        names_rs = Agree-append_left c.reg_table c.sub_table r v.names_rs ns;
        names_sr = Agree-append_right c.sub_table c.reg_table r v.names_sr ns;
        names_ss = v.names_ss;
        reg_bound = omega (arith, length-append c.reg_table (r ∷ []), w.room);
        sub_bound = v.sub_bound;
        handlers = omega (
          arith,
          length-append c.reg_table (r ∷ []),
          length-append c.handler_table (b ∷ []),
          v.handlers,
        );
      })

  pub EventAdded-Valid : EventAdded cfg x a h c c' → RegistryValid cfg c'
  EventAdded-Valid w =
      let (k, found) = found_handler x a h c.handler_table in
      let r = route_of x a in
      let b = binding_of x a h in
      let (nr, ns) = agrees_both x c w.agrees in
      rw w.result (record {
        routes = v.routes;
        subscriptions = DistinctSubscriptions-append c.sub_table r v.subscriptions w.fresh;
        routes_handled = Handled-append_binding c.handler_table b c.reg_table v.routes_handled;
        subscriptions_handled =
            Handled-append _ c.sub_table r k
              (Handled-append_binding c.handler_table b c.sub_table v.subscriptions_handled) found;
        names_rr = v.names_rr;
        names_rs = Agree-append_right c.reg_table c.sub_table r v.names_rs nr;
        names_sr = Agree-append_left c.sub_table c.reg_table r v.names_sr nr;
        names_ss =
            Agree-append_left c.sub_table _ r
              (Agree-append_right c.sub_table c.sub_table r v.names_ss ns)
              (has_collision-append_self c.sub_table r ns);
        reg_bound = v.reg_bound;
        sub_bound = omega (arith, length-append c.sub_table (r ∷ []), w.room);
        handlers = omega (
          arith,
          length-append c.sub_table (r ∷ []),
          length-append c.handler_table (b ∷ []),
          v.handlers,
        );
      })
