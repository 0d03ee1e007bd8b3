-- ===== src/Ask/Disabled.antt =====
-- A build of src/ipc.c with IPC_CONFIG_ENABLE_ASK 0: the functions that stand in for asks and replies,
-- and the dispatch, whose part for asks is left out.
use actor_framework_cxx.Prelude.{ℕ, ◌≡◌, inl, inr, ◌⊎◌, Option, none, some, Bool-cases, ◌==◌, arith}
use actor_framework_cxx.State.{Rc, err, enosys, Payload, Msg, Core, World}
use actor_framework_cxx.Interface.{Invocation, to_nothing}
use actor_framework_cxx.Ask.Regions.{pending}
use actor_framework_cxx.Dispatch.{dispatch, to_registered}
use actor_framework_cxx.Dispatch.Callbacks.{dispatch-zero, dispatch-none}

-- `ipc_ask_cancel`
abbrev pub disabled_ask_cancel : (self : Option ℕ) → ℕ → Core → Rc × Core
disabled_ask_cancel self id c = (err enosys, c)

module _ {P : Type 0} where
  -- `ipc_ask_with_id_raw`, which writes the id 0.
  abbrev pub disabled_ask_with_id :
      (self request : Option ℕ)
      → Payload
      → (reply_desc callback : Option ℕ) → (timeout_ms : ℕ) → World P
      → Rc × ℕ × World P
  disabled_ask_with_id self request payload reply_desc callback timeout_ms w = (err enosys, 0, w)

  -- `ipc_ask_raw`
  abbrev pub disabled_ask :
      (self request : Option ℕ)
      → Payload
      → (reply_desc callback : Option ℕ) → (timeout_ms : ℕ) → World P
      → Rc × World P
  disabled_ask self request payload reply_desc callback timeout_ms w = (err enosys, w)

  -- `ipc_reply_raw`
  abbrev pub disabled_reply : Option Msg → Option ℕ → Payload → World P → Rc × World P
  disabled_reply m reply_desc payload w = (err enosys, w)

  -- `ipc_reply_error_raw`
  abbrev pub disabled_reply_error : Option Msg → Rc → World P → Rc × World P
  disabled_reply_error m result w = (err enosys, w)

  -- `ipc_ask_timeout_expired`
  abbrev pub disabled_timeout_expired : ℕ → ℕ → World P → World P
  disabled_timeout_expired a id w = w

-- `ipc_dispatch_actor_handlers`
unfoldable pub disabled_dispatch : Option ℕ → Option Msg → Core → Invocation × Core
disabled_dispatch (some self) (some m) c = (to_registered self m c, c)
disabled_dispatch (some self) none c = (to_nothing, c)
disabled_dispatch none m c = (to_nothing, c)

-- Both builds dispatch a message alike that carries no ask, or the id of an ask that is not pending.
pub dispatch-disabled :
    (self : ℕ) (m : Msg) (c : Core)
    → (m.ask_id ≡ 0) ⊎ (pending m.ask_id c ≡ none)
    → dispatch (some self) (some m) c ≡ disabled_dispatch (some self) (some m) c
unfolding disabled_dispatch
dispatch-disabled self m c (inl z) = dispatch-zero c self m (ground (arith, z))
dispatch-disabled self m c (inr p) = elim (Bool-cases (m.ask_id == 0)) [
  | inl z ↦ dispatch-zero c self m z
  | inr nz ↦ dispatch-none c self m (ground (arith, nz)) p
]
