-- ===== src/Registry/Setup/Declared.antt =====
-- Handlers that an application declares with `IPC_ACTOR_HANDLE`, as bindings of the handler table of
-- src/ipc.c.
use mathlib.Core.Option.{some-injective}
use mathlib.Core.List.{Mem}
use actor_framework_cxx.Prelude.{
  ℕ, ◌≡◌, sym, subst, ◌∙◌, Bool-cases, inl, inr, some, List, [], ◌∷◌, ◌++◌, arith, ◌==◌, Name, ◌&&◌,
}
use actor_framework_cxx.State.{Route, Binding, Core}
use actor_framework_cxx.Descriptor.Laws.{with_id}
use actor_framework_cxx.Registry.Setup.Names.{Routed, Grown}
use actor_framework_cxx.Registry.Setup.{Constructor, handles}
use actor_framework_cxx.Dispatch.{find_handler}

-- The id of a descriptor, once it is computed.
abbrev pub final_id : Core → ℕ → ℕ
final_id c d = (with_id (c.descs d)).id

module _ (full : List Constructor) (ids : ℕ → ℕ) (names : ℕ → Name) where
  -- A handler that the application declares, under the id of the descriptor that it is declared for,
  -- which has a route or a subscription under its name.
  abbrev pub Declared : (routes subscriptions : List Route) → Binding → Type 0
  Declared rs ss b =
      (d : ℕ) × Mem (handles b.actor d b.handler) full
      × (b.msg_id ≡ ids d)
      × Routed (ids d) (names d) rs ss

  abbrev pub AllDeclared : (routes subscriptions : List Route) → List Binding → Type 0
  AllDeclared rs ss [] = Unit {0}
  AllDeclared rs ss (b ∷ t) = Declared rs ss b × AllDeclared rs ss t

  pub AllDeclared-append :
      (rs ss : List Route) (t : List Binding) (b : Binding)
      → AllDeclared rs ss t
      → Declared rs ss b
      → AllDeclared rs ss (t ++ (b ∷ []))
  AllDeclared-append rs ss [] b h k = (k, tt)
  AllDeclared-append rs ss (x ∷ t) b h k = (h.0, AllDeclared-append rs ss t b h.1 k)

  pub AllDeclared-Grown :
      (rs ss rs' ss' : List Route) (t : List Binding)
      → Grown rs ss rs' ss'
      → AllDeclared rs ss t
      → AllDeclared rs' ss' t
  AllDeclared-Grown rs ss rs' ss' [] g h = tt
  AllDeclared-Grown rs ss rs' ss' (b ∷ t) g ((d, m, i, r), h) =
      ((d, m, i, g (ids d) (names d) r), AllDeclared-Grown rs ss rs' ss' t g h)

  -- What the dispatch finds was declared, for the actor and for the id of the message.
  pub find_handler-Declared :
      (rs ss : List Route) (self id h : ℕ) (t : List Binding)
      → AllDeclared rs ss t
      → find_handler self id t ≡ some h
      → (d : ℕ) × Mem (handles self d h) full × (id ≡ ids d) × Routed (ids d) (names d) rs ss
  unfolding find_handler
  find_handler-Declared rs ss self id h [] v e = cc
  find_handler-Declared rs ss self id h (b ∷ t) v e =
      elim (Bool-cases (b.actor == self && b.msg_id == id)) [
        | inr n ↦ find_handler-Declared rs ss self id h t v.1 (rw n at e)
        | inl y ↦
            let handler : b.handler ≡ h = some-injective b.handler h (rw y at e) in
            let actor : b.actor ≡ self = ground arith in
            let msg_id : b.msg_id ≡ id = ground arith in
            let (d, m, i, r) = v.0 in
            (
              d,
              subst (λ a. Mem (handles a d h) full) actor
                  (subst (λ f. Mem (handles b.actor d f) full) handler m),
              sym msg_id ∙ i,
              r,
            )
      ]
