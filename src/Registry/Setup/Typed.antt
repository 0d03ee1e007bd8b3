-- ===== src/Registry/Setup/Typed.antt =====
-- Which handlers of an application get a message: what `ipc_dispatch_actor_handlers` of src/ipc.c finds
-- in the handler table that the constructors of `IPC_ACTOR_HANDLE` filled.
use mathlib.Core.List.{Mem}
use actor_framework_cxx.Prelude.{
  ℕ, ◌≡◌, refl, sym, ap, subst, ◌∙◌, Bool-cases, inl, inr, Option, none, some, List, [], arith,
  ◌==◌, Name,
}
use actor_framework_cxx.State.{Msg, Payload, Slot, Config, Core}
use actor_framework_cxx.Interface.{to_handler}
use actor_framework_cxx.Registry.Setup.{Constructor, handles, construct_all}
use actor_framework_cxx.Dispatch.{
  find_handler, to_registered, dispatch, answer, take_callback, take_found, or_unknown,
}
use actor_framework_cxx.AskTable.{find_pending_ask}
use actor_framework_cxx.Ask.{drop_ask}
use actor_framework_cxx.Descriptor.{name_bytes}
use actor_framework_cxx.Registry.Setup.Names.{Routed, one_name}
use actor_framework_cxx.Registry.Setup.Valid.{SetupValid, construct_all-SetupValid}
use actor_framework_cxx.Registry.Setup.Declared.{final_id, AllDeclared, find_handler-Declared}
use actor_framework_cxx.Registry.Setup.Bound.{Bound, construct_all-Bound}

or_unknown-found :
    (self : ℕ) (m : Msg) (o u : Option ℕ) (h a : ℕ) (p : Payload) (n : Msg)
    → or_unknown self m o u ≡ to_handler h a p n
    → (o ≡ some h) × (a ≡ self) × (p ≡ m.payload) × (n ≡ m)
or_unknown-found self m (some g) u h a p n e = (cc, cc, cc, cc)
or_unknown-found self m none (some g) h a p n e = cc
or_unknown-found self m none none h a p n e = cc

to_registered-found :
    (self : ℕ) (m : Msg) (c : Core) (h a : ℕ) (p : Payload) (n : Msg)
    → to_registered self m c ≡ to_handler h a p n
    → (find_handler self m.id c.handler_table ≡ some h) × (a ≡ self) × (p ≡ m.payload) × (n ≡ m)
unfolding to_registered
to_registered-found self m c =
    or_unknown-found self m (find_handler self m.id c.handler_table) (c.actors self).unknown_handler

answer-found :
    (self : ℕ) (m : Msg) (c c' : Core) (r : Option ℕ × Core) (h a : ℕ) (p : Payload) (n : Msg)
    → r.1.handler_table ≡ c.handler_table
    → answer self m r ≡ (to_handler h a p n, c')
    → (find_handler self m.id c.handler_table ≡ some h) × (a ≡ self) × (p ≡ m.payload) × (n ≡ m)
unfolding answer
answer-found self m c c' (some f, k) h a p n t e = cc
answer-found self m c c' (none, k) h a p n t e =
    let (f, x, y, z) = to_registered-found self m k h a p n (ap (λ r. r.0) e) in
    (ap (find_handler self m.id) (sym t) ∙ f, x, y, z)

-- Ending an ask leaves the handlers alone.
take_callback-handlers :
    (self : ℕ) (m : Msg) (c : Core) → (take_callback self m c).1.handler_table ≡ c.handler_table
unfolding take_callback
take_callback-handlers self m c = by_found (find_pending_ask m.ask_id c.ask_table)
  where
    by_found : (o : Option (ℕ × Slot)) → (take_found self m c o).1.handler_table ≡ c.handler_table
    by_found none = unfold take_found in refl
    by_found (some (i, s)) = unfold take_found drop_ask in ground arith

-- What the dispatch gives a handler.
to_handler-found :
    (self : ℕ) (m : Msg) (c c' : Core) (h a : ℕ) (p : Payload) (n : Msg)
    → dispatch (some self) (some m) c ≡ (to_handler h a p n, c')
    → (find_handler self m.id c.handler_table ≡ some h) × (a ≡ self) × (p ≡ m.payload) × (n ≡ m)
unfolding dispatch
to_handler-found self m c c' h a p n e = elim (Bool-cases (m.ask_id == 0)) [
  | inl z ↦ to_registered-found self m c h a p n (ap (λ r. r.0) (rw z at e))
  | inr nz ↦
      answer-found self m c c' (take_callback self m c) h a p n (take_callback-handlers self m c)
        (rw nz at e)
]

-- The bytes of the name of a descriptor.
abbrev pub name_of : Core → ℕ → Name
name_of c d = name_bytes (c.descs d).name

-- The message types of an application are kept apart: a message that was made for a descriptor goes only
-- to a handler that the application declares, for the dispatching actor, for a descriptor of the
-- same id, the same name and the same size, and the handler gets the payload of the message. The handlers are
-- those that the constructors of the application leave, in whatever order they run. Before them the tables
-- were valid and there was no handler; the descriptor of the message has a route or a subscription
-- under its name after them; and declared descriptors of its name have its size, as the copies
-- have that one header defines.
pub handlers_typed :
    (cfg : Config) (ks : List Constructor) (c built : Core)
    → SetupValid cfg c
    → c.handler_table ≡ []
    → construct_all cfg ks c ≡ some built
    → (e : ℕ) → Routed (final_id c e) (name_of c e) built.reg_table built.sub_table
    → ((a d h : ℕ)
        → Mem (handles a d h) ks
        → name_of c d ≡ name_of c e
        → (c.descs d).size ≡ (c.descs e).size)
    → (w w' : Core) → w.handler_table ≡ built.handler_table
    → (self h a : ℕ) (m n : Msg) (p : Payload) → m.id ≡ final_id c e
    → m.size ≡ (c.descs e).size
    → dispatch (some self) (some m) w ≡ (to_handler h a p n, w')
    → (d : ℕ) × Mem (handles self d h) ks
      × (m.id ≡ final_id c d)
      × (name_of c d ≡ name_of c e)
      × (m.size ≡ (c.descs d).size)
      × (a ≡ self)
      × (p ≡ m.payload)
      × (n ≡ m)
handlers_typed cfg ks c built valid empty r e routed agree w w' t self h a m n p i size q =
    let (f, actor, payload, msg) = to_handler-found self m w w' h a p n q in
    let start : Bound ks (final_id c) (name_of c) c = record {
      keeps_ids = λ d. refl;
      keeps_names = λ d. refl;
      bindings =
          subst (AllDeclared ks (final_id c) (name_of c) c.reg_table c.sub_table) (sym empty) tt;
    } in
    let done = construct_all-Bound ks (final_id c) (name_of c) cfg ks c built start (λ k m. m) r in
    let table =
      subst (AllDeclared ks (final_id c) (name_of c) built.reg_table built.sub_table) (sym t)
        done.bindings in
    let (d, mem, same, named) =
      find_handler-Declared ks (final_id c) (name_of c) built.reg_table built.sub_table self m.id h
        w.handler_table table f in
    let built_valid = (construct_all-SetupValid cfg ks c built valid r).registry in
    let one =
      one_name built (final_id c e) (name_of c e) (name_of c d) built_valid routed (
        subst (λ k. Routed k (name_of c d) built.reg_table built.sub_table) (sym same ∙ i) named) in
    (d, mem, same, one, size ∙ sym (agree self d h mem one), actor, payload, msg)
