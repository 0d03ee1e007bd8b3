-- ===== src/Registry/Setup/Valid.antt =====
-- What the static constructors of an application build with src/ipc.c, in whatever order they run.
use actor_framework_cxx.Prelude.{
  ℕ, ◌≡◌, refl, sym, ap, subst, ◌∙◌, Bool-cases, inl, inr, some, List, [], ◌∷◌, ◌++◌, arith,
}
use mathlib.Core.Option
use mathlib.Core.Option.{get_or}
use actor_framework_cxx.State.{Actor, Desc, Route, is_stopped, Config, Core, with_actor}
use actor_framework_cxx.Descriptor.{ensure_id}
use actor_framework_cxx.Registry.{
  is_listed, append_actor, registration_closed, register_static, register_handler_static,
  set_registered, register_field_static, route_of, register_start_hook_static,
  register_stop_hook_static, register_unknown_hook_static, register_supervision_static,
  register_failure_hook_static,
}
use actor_framework_cxx.Registry.Added.{prepared_core, register_handler_static-Added}
use actor_framework_cxx.Registry.Valid.{RegistryValid}
use actor_framework_cxx.Registry.Routing.{register_handler_static-Valid, closed_unchanged}
use actor_framework_cxx.Registry.Setup.{
  Constructor, defines, handles, starts_with, stops_with, unknown_with, fails_with, supervises,
  construct, construct_all,
}
use actor_framework_cxx.Registry.Setup.Lists.{
  Distinct, Listed, added, is_listed-added_self, Distinct-added, Listed-added, Listed-append,
}

-- The tables are valid, no actor is listed twice, and every route and subscription leads to a listed
-- actor, which is one that a start of the framework starts.
pub record SetupValid (cfg : Config) (c : Core) : Type 0 where
  pub registry : RegistryValid cfg c
  pub distinct : Distinct c.actor_list
  pub routed : Listed c.actor_list c.reg_table
  pub subscribed : Listed c.actor_list c.sub_table

-- The tables alone matter to the tables' invariant.
registry_frame :
    (cfg : Config) (c : Core) (l : List ℕ) (g : ℕ → Actor)
    → RegistryValid cfg c
    → RegistryValid cfg (record c { actor_list = l; actors = g })
registry_frame cfg c l g v = record {
  routes = v.routes;
  subscriptions = v.subscriptions;
  routes_handled = v.routes_handled;
  subscriptions_handled = v.subscriptions_handled;
  names_rr = v.names_rr;
  names_rs = v.names_rs;
  names_sr = v.names_sr;
  names_ss = v.names_ss;
  reg_bound = v.reg_bound;
  sub_bound = v.sub_bound;
  handlers = v.handlers;
}

appended : (a : ℕ) (c : Core) → append_actor a c ≡ record c { actor_list = added a c.actor_list }
unfolding append_actor
appended a c = elim (Bool-cases (is_listed a c.actor_list)) [
  | inl t ↦ rw t refl
  | inr n ↦ rw n refl
]

some_inj : (c d : Core) → some c ≡ some d → c ≡ d
some_inj c d e = ap (λ o. get_or o c) e

module _ (cfg : Config) where
  listed-SetupValid :
      (a : ℕ) (c : Core)
      → SetupValid cfg c
      → SetupValid cfg (record c { actor_list = added a c.actor_list })
  listed-SetupValid a c v = record {
    registry = registry_frame cfg c (added a c.actor_list) c.actors v.registry;
    distinct = Distinct-added a c.actor_list v.distinct;
    routed = Listed-added a c.actor_list c.reg_table v.routed;
    subscribed = Listed-added a c.actor_list c.sub_table v.subscribed;
  }

  append_actor-SetupValid :
      (a : ℕ) (c : Core) → SetupValid cfg c → SetupValid cfg (append_actor a c)
  append_actor-SetupValid a c v =
      subst (SetupValid cfg) (sym (appended a c)) (listed-SetupValid a c v)

  register_static-SetupValid :
      (a : ℕ) (c c' : Core)
      → SetupValid cfg c
      → register_static cfg a c ≡ some c'
      → SetupValid cfg c'
  unfolding register_static registration_closed
  register_static-SetupValid a c c' v e = elim (Bool-cases (is_stopped c.lifecycle)) [
    | inl free ↦ subst (SetupValid cfg) (ground (arith, e, free)) (append_actor-SetupValid a c v)
    | inr closed ↦ subst (SetupValid cfg) (ground (arith, e, closed)) v
  ]

  with_actor-SetupValid :
      (a : ℕ) (x : Actor) (c : Core) → SetupValid cfg c → SetupValid cfg (with_actor a x c)
  with_actor-SetupValid a x c v = record {
    registry = registry_frame cfg c c.actor_list (with_actor a x c).actors v.registry;
    distinct = v.distinct;
    routed = v.routed;
    subscribed = v.subscribed;
  }

  register_field_static-SetupValid :
      (a : ℕ) (f : Actor → Actor) (c c' : Core)
      → SetupValid cfg c
      → register_field_static cfg a f c ≡ some c'
      → SetupValid cfg c'
  unfolding register_field_static register_static set_registered registration_closed
  register_field_static-SetupValid a f c c' v e = elim (Bool-cases (is_stopped c.lifecycle)) [
    | inl free ↦
        let c1 = append_actor a c in
        subst (SetupValid cfg) (ground (arith, e, free))
          (with_actor-SetupValid a (f (c1.actors a)) c1 (append_actor-SetupValid a c v))
    | inr closed ↦ subst (SetupValid cfg) (ground (arith, e, closed)) v
  ]

  prepared_lists :
      (a d h : ℕ) (c : Core)
      → let c1 = prepared_core cfg a d h c in
        (c1.actor_list ≡ added a c.actor_list)
        × (c1.reg_table ≡ c.reg_table)
        × (c1.sub_table ≡ c.sub_table)
  unfolding prepared_core append_actor ensure_id
  prepared_lists a d h c = ground arith

  -- The routes with one to the actor added.
  routes_added :
      (a : ℕ) (l k : List ℕ) (t u : List Route) (x : Desc)
      → k ≡ added a l
      → u ≡ t
      → Listed l t
      → Listed k (u ++ (route_of x a ∷ []))
  routes_added a l k t u x e q s =
      subst (λ k. Listed k (u ++ (route_of x a ∷ []))) (sym e)
        (subst (λ u. Listed (added a l) (u ++ (route_of x a ∷ []))) (sym q)
          (Listed-append (added a l) t (route_of x a) (is_listed-added_self a l)
            (Listed-added a l t s)))

  routes_kept :
      (a : ℕ) (l k : List ℕ) (t u : List Route) → k ≡ added a l → u ≡ t → Listed l t → Listed k u
  routes_kept a l k t u e q s =
      subst (λ k. Listed k u) (sym e)
        (subst (λ u. Listed (added a l) u) (sym q) (Listed-added a l t s))

  register_handler_static-SetupValid :
      (a d h : ℕ) (c c' : Core)
      → SetupValid cfg c
      → register_handler_static cfg a d h c ≡ some c'
      → SetupValid cfg c'
  register_handler_static-SetupValid a d h c c' v e =
      let valid = register_handler_static-Valid cfg a d h c c' v.registry e in
      let c1 = prepared_core cfg a d h c in
      let (actors, routes, subs) = prepared_lists a d h c in
      let x = c1.descs d in
      elim (Bool-cases (is_stopped c.lifecycle)) [
        | inr closed ↦ subst (SetupValid cfg) (sym (closed_unchanged cfg a d h c c' closed e)) v
        | inl free ↦ elim (register_handler_static-Added cfg a d h c c' free e) [
          | inl (k, w) ↦
              let list = ap (λ (q : Core). q.actor_list) w.result ∙ actors in
              let regs = ap (λ (q : Core). q.reg_table) w.result ∙ routes in
              record {
                registry = valid;
                distinct = subst Distinct (sym list) (Distinct-added a c.actor_list v.distinct);
                routed =
                    routes_kept a c.actor_list c'.actor_list c.reg_table c'.reg_table list regs
                      v.routed;
                subscribed =
                    subst (λ t. Listed c'.actor_list t)
                      (sym (ap (λ (q : Core). q.sub_table) w.result))
                      (routes_added a c.actor_list c'.actor_list c.sub_table c1.sub_table x list
                        subs v.subscribed);
              }
          | inr (k, w) ↦
              let list = ap (λ (q : Core). q.actor_list) w.result ∙ actors in
              let others = ap (λ (q : Core). q.sub_table) w.result ∙ subs in
              record {
                registry = valid;
                distinct = subst Distinct (sym list) (Distinct-added a c.actor_list v.distinct);
                routed =
                    subst (λ t. Listed c'.actor_list t)
                      (sym (ap (λ (q : Core). q.reg_table) w.result))
                      (routes_added a c.actor_list c'.actor_list c.reg_table c1.reg_table x list
                        routes v.routed);
                subscribed =
                    routes_kept a c.actor_list c'.actor_list c.sub_table c'.sub_table list others
                      v.subscribed;
              }
        ]
      ]

  construct-SetupValid :
      (k : Constructor) (c c' : Core)
      → SetupValid cfg c
      → construct cfg k c ≡ some c'
      → SetupValid cfg c'
  unfolding construct register_start_hook_static register_stop_hook_static
      register_unknown_hook_static register_supervision_static register_failure_hook_static
  construct-SetupValid (defines a) c c' v e = register_static-SetupValid a c c' v e
  construct-SetupValid (handles a d h) c c' v e = register_handler_static-SetupValid a d h c c' v e
  construct-SetupValid (starts_with a h) c c' v e =
      register_field_static-SetupValid a (λ x. record x { start_hook = some h }) c c' v e
  construct-SetupValid (stops_with a h) c c' v e =
      register_field_static-SetupValid a (λ x. record x { stop_hook = some h }) c c' v e
  construct-SetupValid (unknown_with a h) c c' v e =
      register_field_static-SetupValid a (λ x. record x { unknown_handler = some h }) c c' v e
  construct-SetupValid (fails_with a h) c c' v e =
      register_field_static-SetupValid a (λ x. record x { failure_hook = some h }) c c' v e
  construct-SetupValid (supervises a s) c c' v e =
      register_field_static-SetupValid a (λ x. record x { supervision = s }) c c' v e

  -- Whatever an application defines and in whatever order its static constructors run, if none of them
  -- aborts: there is one route to a command, one subscription of an actor to an event, a handler behind
  -- each, one name for an id, and no table past its capacity; no actor is listed twice; and every route
  -- and every subscription leads to a listed actor. So it was before the first of them.
  pub construct_all-SetupValid :
      (ks : List Constructor) (c c' : Core)
      → SetupValid cfg c
      → construct_all cfg ks c ≡ some c'
      → SetupValid cfg c'
  unfolding construct_all
  construct_all-SetupValid [] c c' v e = subst (SetupValid cfg) (some_inj c c' e) v
  construct_all-SetupValid (k ∷ ks) c c' v e =
      let steps = (Option.bind-eq-some_iff (construct cfg k c) (construct_all cfg ks)).0 e in
      construct_all-SetupValid ks steps.0 c' (construct-SetupValid k c steps.0 v steps.1) steps.2
