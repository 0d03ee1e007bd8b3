-- ===== src/Registry/Added.antt =====
-- What a successful `_ipc_actor_register_handler_static` of src/ipc.c adds to the tables.
use actor_framework_cxx.Prelude.{
  ℕ, ◌<◌, ◌≡◌, ◌⊎◌, inl, inr, refl, ap, ◌∙◌, Bool-cases, true, false, Option, none, some, [], ◌∷◌,
  ◌++◌, arith, length,
}
use actor_framework_cxx.State.{Rc, is_zero, event, is_kind, Desc, Binding, is_stopped, Config, Core}
use actor_framework_cxx.Descriptor.{ensure_id}
use actor_framework_cxx.Descriptor.Laws.{ensure_id_idem}
use actor_framework_cxx.Registry.{
  detect_id_collision, has_route, has_subscription, route_of, register_cmd_at, register_cmd,
  subscribe_event_at, subscribe_event, append_actor, register_static, bind_routed, route_handler,
  handler_registered, register_handler_static,
}

-- The new entry of the handler table.
abbrev pub binding_of : Desc → (actor handler : ℕ) → Binding
binding_of x actor handler = record { actor = actor; msg_id = x.id; handler = handler }

-- A command was registered: its id was new, and has one route and one handler now.
pub record CommandAdded (cfg : Config) (x : Desc) (a h : ℕ) (c c' : Core) : Type 0 where
  pub agrees : is_zero (detect_id_collision x c) ≡ true
  pub fresh : has_route x.id c.reg_table ≡ false
  pub room : length c.reg_table < cfg.max_registrations
  pub result : c' ≡ record c {
    reg_table = c.reg_table ++ (route_of x a ∷ []);
    handler_table = c.handler_table ++ (binding_of x a h ∷ []);
  }

-- An event was registered: the actor was not subscribed to it, and is now.
pub record EventAdded (cfg : Config) (x : Desc) (a h : ℕ) (c c' : Core) : Type 0 where
  pub agrees : is_zero (detect_id_collision x c) ≡ true
  pub fresh : has_subscription x.id a c.sub_table ≡ false
  pub room : length c.sub_table < cfg.max_subscriptions
  pub result : c' ≡ record c {
    sub_table = c.sub_table ++ (route_of x a ∷ []);
    handler_table = c.handler_table ++ (binding_of x a h ∷ []);
  }

module _ (cfg : Config) (a d h : ℕ) where
  register_cmd_at-ok :
      (x : Desc) (c c' : Core) (rc : Rc)
      → register_cmd_at cfg a x c ≡ some (rc, c')
      → is_zero rc ≡ true
      → (is_zero (detect_id_collision x c) ≡ true)
        × (has_route x.id c.reg_table ≡ false)
        × (length c.reg_table < cfg.max_registrations)
        × (c' ≡ record c { reg_table = c.reg_table ++ (route_of x a ∷ []) })
  unfolding register_cmd_at
  register_cmd_at-ok x c c' rc e z = ground arith

  subscribe_event_at-ok :
      (x : Desc) (c : Core)
      → is_zero (subscribe_event_at cfg a x c).0 ≡ true
      → (is_zero (detect_id_collision x c) ≡ true)
        × (has_subscription x.id a c.sub_table ≡ false)
        × (length c.sub_table < cfg.max_subscriptions)
        × ((subscribe_event_at cfg a x c).1
            ≡ record c { sub_table = c.sub_table ++ (route_of x a ∷ []) })
  unfolding subscribe_event_at
  subscribe_event_at-ok x c z = ground arith

  bind_routed-some :
      (o : Option (Rc × Core)) (c' : Core)
      → bind_routed cfg a d h o ≡ some c'
      → (rc : Rc) × (c : Core) × (o ≡ some (rc, c))
        × (is_zero rc ≡ true)
        × (c' ≡ record c { handler_table = c.handler_table ++ (binding_of (c.descs d) a h ∷ []) })
  unfolding bind_routed
  bind_routed-some none c' e = cc
  bind_routed-some (some (rc, c)) c' e = (rc, c, refl, ground arith, ground arith)

  -- The core in which the route is added: the actor is listed, and the descriptor has its id.
  unfoldable pub prepared_core : Core → Core
  unfolding append_actor
  prepared_core c = ensure_id d (append_actor a c)

  handler_registered_of_open :
      (c c' : Core)
      → is_stopped c.lifecycle ≡ true
      → register_handler_static cfg a d h c ≡ some c'
      → bind_routed cfg a d h (route_handler cfg a d (prepared_core c)) ≡ some c'
  unfolding register_handler_static handler_registered register_static prepared_core
  handler_registered_of_open c c' is_open e = ground arith

  subscribe_event-ok :
      (c c2 : Core) (rc : Rc)
      → ensure_id d c ≡ c
      → subscribe_event cfg a d c ≡ some (rc, c2)
      → is_zero rc ≡ true
      → (is_zero (subscribe_event_at cfg a (c.descs d) c).0 ≡ true)
        × (c2 ≡ (subscribe_event_at cfg a (c.descs d) c).1)
  unfolding subscribe_event
  subscribe_event-ok c c2 rc fixed e z = let e' = rw fixed at e in (ground arith, ground arith)

  register_cmd-ok :
      (c c2 : Core) (rc : Rc)
      → ensure_id d c ≡ c
      → register_cmd cfg a d c ≡ some (rc, c2)
      → register_cmd_at cfg a (c.descs d) c ≡ some (rc, c2)
  unfolding register_cmd
  register_cmd-ok c c2 rc fixed e = let e' = rw fixed at e in ground arith

  -- A route that was added, with its handler.
  route_handler-Added :
      (c c' c2 : Core) (rc : Rc)
      → ensure_id d c ≡ c
      → route_handler cfg a d c ≡ some (rc, c2)
      → is_zero rc ≡ true
      → c' ≡ record c2 { handler_table = c2.handler_table ++ (binding_of (c2.descs d) a h ∷ []) }
      → let x = c.descs d in
        ((is_kind x.kind event ≡ true) × EventAdded cfg x a h c c')
        ⊎ ((is_kind x.kind event ≡ false) × CommandAdded cfg x a h c c')
  unfolding route_handler
  route_handler-Added c c' c2 rc fixed e z q = elim (Bool-cases (is_kind (c.descs d).kind event)) [
    | inl k ↦
        let s = subscribe_event-ok c c2 rc fixed (rw k at e) z in
        let f = subscribe_event_at-ok (c.descs d) c s.0 in
        inl (k, record { agrees = f.0; fresh = f.1; room = f.2; result = finish q (s.1 ∙ f.3) })
    | inr k ↦
        let f =
          register_cmd_at-ok (c.descs d) c c2 rc (register_cmd-ok c c2 rc fixed (rw k at e)) z in
        inr (k, record { agrees = f.0; fresh = f.1; room = f.2; result = finish q f.3 })
  ]
    where
      finish :
          {k : Core}
          → c'
            ≡ record c2 { handler_table = c2.handler_table ++ (binding_of (c2.descs d) a h ∷ []) }
          → c2 ≡ k
          → c' ≡ record k { handler_table = k.handler_table ++ (binding_of (k.descs d) a h ∷ []) }
      finish q r =
          q
          ∙ ap
              (λ (k : Core). record k {
                handler_table = k.handler_table ++ (binding_of (k.descs d) a h ∷ []);
              })
              r

  -- Where registration is open, it succeeds only by adding the route and the handler of the
  -- message, by its kind.
  pub register_handler_static-Added :
      (c c' : Core)
      → is_stopped c.lifecycle ≡ true
      → register_handler_static cfg a d h c ≡ some c'
      → let c1 = prepared_core c in
        let x = c1.descs d in
        ((is_kind x.kind event ≡ true) × EventAdded cfg x a h c1 c')
        ⊎ ((is_kind x.kind event ≡ false) × CommandAdded cfg x a h c1 c')
  unfolding prepared_core
  register_handler_static-Added c c' is_open e =
      let c1 = prepared_core c in
      let (rc, c2, r, z, q) =
        bind_routed-some (route_handler cfg a d c1) c'
          (handler_registered_of_open c c' is_open e) in
      route_handler-Added c1 c' c2 rc (ensure_id_idem d (append_actor a c)) r z q
