-- ===== src/Registry/Setup/Bound.antt =====
-- The handler table of src/ipc.c while the constructors of `IPC_ACTOR_HANDLE` fill it: each entry stands
-- for a declared handler, under the id that its descriptor keeps.
use mathlib.Core.Option
use mathlib.Core.Option.{get_or, some-injective}
use mathlib.Core.List.{Mem, mem-cons}
use mathlib.Core.Logic.Or
use actor_framework_cxx.Prelude.{
  ℕ, ◌≡◌, refl, sym, ap, subst, ◌∙◌, Bool-cases, inl, inr, some, List, [], ◌∷◌, ◌++◌, arith, ◌==◌,
  ==_refl, ==→eq, Name, if◌then◌else◌,
}
use actor_framework_cxx.State.{Actor, Route, is_stopped, Config, Core, with_actor}
use actor_framework_cxx.Descriptor.{ensure_id, name_bytes}
use actor_framework_cxx.Descriptor.Laws.{with_id, with_id_idem, descs-ensure_id}
use actor_framework_cxx.Registry.{
  route_of, append_actor, registration_closed, register_static, register_handler_static,
  set_registered, register_field_static, register_start_hook_static, register_stop_hook_static,
  register_unknown_hook_static, register_supervision_static, register_failure_hook_static,
}
use actor_framework_cxx.Registry.Added.{prepared_core, binding_of, register_handler_static-Added}
use actor_framework_cxx.Registry.Routing.{closed_unchanged}
use actor_framework_cxx.Registry.Setup.Names.{Routed, Grown, Named-kept, Named-added}
use actor_framework_cxx.Registry.Setup.{
  Constructor, defines, handles, starts_with, stops_with, unknown_with, fails_with, supervises,
  construct, construct_all,
}
use actor_framework_cxx.Registry.Setup.Declared.{
  final_id, AllDeclared, AllDeclared-append, AllDeclared-Grown,
}

module _ (full : List Constructor) (ids : ℕ → ℕ) (names : ℕ → Name) where
  pub record Bound (c : Core) : Type 0 where
    pub keeps_ids : (d : ℕ) → final_id c d ≡ ids d
    pub keeps_names : (d : ℕ) → name_bytes (c.descs d).name ≡ names d
    pub bindings : AllDeclared full ids names c.reg_table c.sub_table c.handler_table

  -- The tables are those of another core.
  abbrev SameTables : (k c : Core) → Type 0
  SameTables k c =
      (k.handler_table ≡ c.handler_table)
      × (k.reg_table ≡ c.reg_table)
      × (k.sub_table ≡ c.sub_table)

  same-AllDeclared :
      (c k : Core)
      → SameTables k c
      → AllDeclared full ids names c.reg_table c.sub_table c.handler_table
      → AllDeclared full ids names k.reg_table k.sub_table k.handler_table
  same-AllDeclared c k (h, r, s) b =
      subst (AllDeclared full ids names k.reg_table k.sub_table) (sym h) (
        subst (λ t. AllDeclared full ids names t k.sub_table c.handler_table) (sym r)
          (subst (λ t. AllDeclared full ids names c.reg_table t c.handler_table) (sym s) b))

  Bound-same : (c k : Core) → k.descs ≡ c.descs → SameTables k c → Bound c → Bound k
  Bound-same c k e q v = record {
    keeps_ids = λ d. ap (λ f. (with_id (f d)).id) e ∙ v.keeps_ids d;
    keeps_names = λ d. ap (λ f. name_bytes (f d).name) e ∙ v.keeps_names d;
    bindings = same-AllDeclared c k q v.bindings;
  }

  module _ (cfg : Config) where
    append_same :
        (a : ℕ) (c : Core) → ((append_actor a c).descs ≡ c.descs) × SameTables (append_actor a c) c
    unfolding append_actor
    append_same a c = ground arith

    append_actor-Bound : (a : ℕ) (c : Core) → Bound c → Bound (append_actor a c)
    append_actor-Bound a c v =
        Bound-same c (append_actor a c) (append_same a c).0 (append_same a c).1 v

    register_static-Bound :
        (a : ℕ) (c c' : Core) → Bound c → register_static cfg a c ≡ some c' → Bound c'
    unfolding register_static registration_closed
    register_static-Bound a c c' v e = elim (Bool-cases (is_stopped c.lifecycle)) [
      | inl free ↦ subst Bound (ground (arith, e, free)) (append_actor-Bound a c v)
      | inr closed ↦ subst Bound (ground (arith, e, closed)) v
    ]

    register_field_static-Bound :
        (a : ℕ) (f : Actor → Actor) (c c' : Core)
        → Bound c
        → register_field_static cfg a f c ≡ some c'
        → Bound c'
    unfolding register_field_static register_static set_registered registration_closed
    register_field_static-Bound a f c c' v e = elim (Bool-cases (is_stopped c.lifecycle)) [
      | inl free ↦
          let c1 = append_actor a c in
          subst Bound (ground (arith, e, free)) (
            Bound-same c1 (with_actor a (f (c1.actors a)) c1) refl (refl, refl, refl)
              (append_actor-Bound a c v))
      | inr closed ↦ subst Bound (ground (arith, e, closed)) v
    ]

    ensure_id_same : (d : ℕ) (c : Core) → SameTables (ensure_id d c) c
    unfolding ensure_id
    ensure_id_same d c = ground arith

    ensure_id_names : (d j : ℕ) (c : Core) → ((ensure_id d c).descs j).name ≡ (c.descs j).name
    unfolding ensure_id
    ensure_id_names d j c = ground arith

    ensure_id-Bound : (d : ℕ) (c : Core) → Bound c → Bound (ensure_id d c)
    ensure_id-Bound d c v = record {
      keeps_ids = λ j.
          ap (λ x. (with_id x).id) (descs-ensure_id d j c) ∙ elim (Bool-cases (j == d)) [
            | inl same ↦
                ap (λ b. (with_id (if b then with_id (c.descs d) else c.descs j)).id) same
                ∙ ap (λ x. x.id) (with_id_idem (c.descs d))
                ∙ v.keeps_ids d
                ∙ ap ids (sym (==→eq j d same))
            | inr other ↦
                ap (λ b. (with_id (if b then with_id (c.descs d) else c.descs j)).id) other
                ∙ v.keeps_ids j
          ];
      keeps_names = λ j. ap name_bytes (ensure_id_names d j c) ∙ v.keeps_names j;
      bindings = same-AllDeclared c (ensure_id d c) (ensure_id_same d c) v.bindings;
    }

    -- The descriptor of a handler gets its id before its binding is made.
    prepared_core-Bound :
        (a d h : ℕ) (c : Core)
        → Bound c
        → Bound (prepared_core cfg a d h c) × (((prepared_core cfg a d h c).descs d).id ≡ ids d)
    unfolding prepared_core
    prepared_core-Bound a d h c v =
        let c1 = append_actor a c in
        let v1 = append_actor-Bound a c v in
        (
          ensure_id-Bound d c1 v1,
          ap (λ x. x.id) (descs-ensure_id d d c1)
              ∙ ap (λ b. (if b then with_id (c1.descs d) else c1.descs d).id) (==_refl d)
              ∙ v1.keeps_ids d,
        )

    append-Bound :
        (a d h : ℕ) (c c' : Core)
        → Bound c
        → (c.descs d).id ≡ ids d
        → Mem (handles a d h) full
        → c'.descs ≡ c.descs
        → Grown c.reg_table c.sub_table c'.reg_table c'.sub_table
        → Routed (ids d) (names d) c'.reg_table c'.sub_table
        → c'.handler_table ≡ c.handler_table ++ (binding_of (c.descs d) a h ∷ [])
        → Bound c'
    append-Bound a d h c c' v i m same g r t = record {
      keeps_ids = λ j. ap (λ f. (with_id (f j)).id) same ∙ v.keeps_ids j;
      keeps_names = λ j. ap (λ f. name_bytes (f j).name) same ∙ v.keeps_names j;
      bindings = subst (AllDeclared full ids names c'.reg_table c'.sub_table) (sym t) (
          AllDeclared-append full ids names c'.reg_table c'.sub_table c.handler_table
            (binding_of (c.descs d) a h)
            (AllDeclared-Grown full ids names c.reg_table c.sub_table c'.reg_table c'.sub_table
              c.handler_table g v.bindings)
            (d, m, i, r));
    }

    -- A route or a subscription at the end of its table.
    route_Grown : (rs ss : List Route) (r : Route) → Grown rs ss (rs ++ (r ∷ [])) ss
    route_Grown rs ss r id n (inl p) = inl (Named-kept id n rs r p)
    route_Grown rs ss r id n (inr p) = inr p

    subscription_Grown : (rs ss : List Route) (r : Route) → Grown rs ss rs (ss ++ (r ∷ []))
    subscription_Grown rs ss r id n (inl p) = inl p
    subscription_Grown rs ss r id n (inr p) = inr (Named-kept id n ss r p)

    register_handler_static-Bound :
        (a d h : ℕ) (c c' : Core)
        → Bound c
        → Mem (handles a d h) full
        → register_handler_static cfg a d h c ≡ some c'
        → Bound c'
    register_handler_static-Bound a d h c c' v m e = elim (Bool-cases (is_stopped c.lifecycle)) [
      | inr closed ↦ subst Bound (sym (closed_unchanged cfg a d h c c' closed e)) v
      | inl free ↦
          let c1 = prepared_core cfg a d h c in
          let (v1, i) = prepared_core-Bound a d h c v in
          elim (register_handler_static-Added cfg a d h c c' free e) [
            | inl (k, w) ↦
                let r = route_of (c1.descs d) a in
                subst Bound (sym w.result) (
                  append-Bound a d h c1 _ v1 i m refl
                    (subscription_Grown c1.reg_table c1.sub_table r)
                    (inr (Named-added (ids d) (names d) c1.sub_table r i (v1.keeps_names d))) refl)
            | inr (k, w) ↦
                let r = route_of (c1.descs d) a in
                subst Bound (sym w.result) (
                  append-Bound a d h c1 _ v1 i m refl (route_Grown c1.reg_table c1.sub_table r)
                    (inl (Named-added (ids d) (names d) c1.reg_table r i (v1.keeps_names d))) refl)
          ]
    ]

    construct-Bound :
        (k : Constructor) (c c' : Core)
        → Bound c
        → Mem k full
        → construct cfg k c ≡ some c'
        → Bound c'
    unfolding construct register_start_hook_static register_stop_hook_static
        register_unknown_hook_static register_supervision_static register_failure_hook_static
    construct-Bound (defines a) c c' v m e = register_static-Bound a c c' v e
    construct-Bound (handles a d h) c c' v m e = register_handler_static-Bound a d h c c' v m e
    construct-Bound (starts_with a h) c c' v m e =
        register_field_static-Bound a (λ x. record x { start_hook = some h }) c c' v e
    construct-Bound (stops_with a h) c c' v m e =
        register_field_static-Bound a (λ x. record x { stop_hook = some h }) c c' v e
    construct-Bound (unknown_with a h) c c' v m e =
        register_field_static-Bound a (λ x. record x { unknown_handler = some h }) c c' v e
    construct-Bound (fails_with a h) c c' v m e =
        register_field_static-Bound a (λ x. record x { failure_hook = some h }) c c' v e
    construct-Bound (supervises a s) c c' v m e =
        register_field_static-Bound a (λ x. record x { supervision = s }) c c' v e

    pub construct_all-Bound :
        (ks : List Constructor) (c c' : Core)
        → Bound c
        → ((k : Constructor) → Mem k ks → Mem k full)
        → construct_all cfg ks c ≡ some c'
        → Bound c'
    unfolding construct_all
    construct_all-Bound [] c c' v h e = subst Bound (some-injective c c' e) v
    construct_all-Bound (k ∷ ks) c c' v h e =
        let steps = (Option.bind-eq-some_iff (construct cfg k c) (construct_all cfg ks)).0 e in
        construct_all-Bound ks steps.0 c'
          (construct-Bound k c steps.0 v (h k (mem-cons.1 (Or.inl refl))) steps.1)
          (λ j m. h j (mem-cons.1 (Or.inr m))) steps.2
