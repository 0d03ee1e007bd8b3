-- ===== src/Dispatch/Callbacks.antt =====
-- When `ipc_dispatch_actor_handlers` of src/ipc.c calls the callback of an ask: once, and for the
-- ask's own message only.
use actor_framework_cxx.Prelude.{
  ℕ, ◌⊎◌, inl, inr, Bool-cases, Option-cases, ◌<◌, ◌≡◌, ◌≢◌, refl, ◌∙◌, ==_refl, ◌&&◌, ◌||◌, Bool,
  true, none, some, arith, ◌==◌, if◌then◌else◌,
}
use actor_framework_cxx.State.{Msg, Slot, Config, Core, Rc, Payload}
use actor_framework_cxx.Interface.{to_callback}
use actor_framework_cxx.AskTable.Lookup.{find-none, find-some_of_lookup}
use actor_framework_cxx.Ask.{drop_ask, timeout_msg_id}
use actor_framework_cxx.Ask.Regions.{pending, AsksValid, pending-drop_ask}
use actor_framework_cxx.Dispatch.{dispatch, to_registered, answer, take_callback, take_found}

-- The message ends the ask: it is the reply that the ask waits for, or its queued timeout.
abbrev pub Ends : Msg → Slot → Type 0
Ends m s = (s.reply_id ≡ m.id) ⊎ ((m.id ≡ timeout_msg_id) × (s.timeout_queued ≡ true))

-- The tests of the code, in one.
abbrev pub ends : ℕ → Msg → Slot → Bool
ends self m s =
    (m.id == timeout_msg_id && s.actor == self && s.timeout_queued)
    || (s.actor == self && s.reply_id == m.id)

module _ (c : Core) (self : ℕ) (m : Msg) (h : 0 < m.ask_id) where
  -- No pending ask: the message goes to the handlers.
  pub dispatch-none :
      pending m.ask_id c ≡ none → dispatch (some self) (some m) c ≡ (to_registered self m c, c)
  unfolding dispatch take_callback
  dispatch-none p = rw (find-none m.ask_id c.ask_table p, take_found, answer) (ground arith)

  pub dispatch-some :
      (s : Slot)
      → pending m.ask_id c ≡ some s
      → dispatch (some self) (some m) c ≡ (
          if ends self m s
          then (to_callback s.callback self m.result m.payload m.size m, drop_ask m.ask_id c)
          else (to_registered self m c, c))
  unfolding dispatch take_callback
  dispatch-some s p =
      let (i, e) = find-some_of_lookup m.ask_id c.ask_table s p in
      rw (e, take_found, answer) (ground arith)

pub dispatch-zero :
    (c : Core) (self : ℕ) (m : Msg)
    → m.ask_id == 0 ≡ true
    → dispatch (some self) (some m) c ≡ (to_registered self m c, c)
unfolding dispatch
dispatch-zero c self m z = rw z

registered-ne-callback :
    (c : Core) (self : ℕ) (m : Msg) (f a : ℕ) (rc : Rc) (payload : Payload) (size : ℕ) (m' : Msg)
    → to_registered self m c ≢ to_callback f a rc payload size m'
unfolding to_registered
registered-ne-callback c self m f a rc payload size m' e = ground arith

-- An ask of an actor ends once: its reply, or its queued timeout, calls its callback with the
-- message's result and payload and frees the ask; from then on a message `n` that carries its id
-- goes to the handlers of whatever actor `b` it reaches; and all other asks stay pending. The table
-- is valid, and the message is not one that a plain send made.
pub callback_once :
    (cfg : Config) (c : Core) (m n : Msg) (b : ℕ) (s : Slot)
    → AsksValid cfg c
    → 0 < m.ask_id
    → n.ask_id ≡ m.ask_id
    → pending m.ask_id c ≡ some s
    → Ends m s
    → let (call, c') = dispatch (some s.actor) (some m) c in
      (call ≡ to_callback s.callback s.actor m.result m.payload m.size m)
      × (dispatch (some b) (some n) c' ≡ (to_registered b n c', c'))
      × ((j : ℕ) → pending j c' ≡ (if m.ask_id == j then none else pending j c))
callback_once cfg c m n b s v h same p e =
    rw (dispatch-some c s.actor m h s p, taken)
      (refl, dispatch-none (drop_ask m.ask_id c) b n (rw same h) gone, freed)
  where
    freed :
        (j : ℕ) → pending j (drop_ask m.ask_id c) ≡ (if m.ask_id == j then none else pending j c)
    freed = pending-drop_ask cfg c v m.ask_id

    gone : pending n.ask_id (drop_ask m.ask_id c) ≡ none
    gone = rw same (freed m.ask_id ∙ rw (==_refl m.ask_id))

    taken : ends s.actor m s ≡ true
    taken = ground arith

-- The callback of an ask is called only where the ask is pending for the actor that dispatches, and
-- by the message that ends it; the arguments are the actor, and the result and payload of the
-- message.
pub callback_only :
    (c : Core) (self : ℕ) (m : Msg) (f a : ℕ) (rc : Rc) (payload : Payload) (size : ℕ) (m' : Msg)
    → (dispatch (some self) (some m) c).0 ≡ to_callback f a rc payload size m'
    → (s : Slot) × (pending m.ask_id c ≡ some s)
      × (s.actor ≡ self)
      × Ends m s
      × (f ≡ s.callback)
      × (a ≡ self)
      × (rc ≡ m.result)
      × (payload ≡ m.payload)
      × (size ≡ m.size)
      × (m' ≡ m)
callback_only c self m f a rc payload size m' e = elim (Bool-cases (m.ask_id == 0)) [
  | inl z ↦ absurd (registered-ne-callback c self m f a rc payload size m' (direct z))
  | inr nz ↦
      let h : 0 < m.ask_id = ground arith in
      elim (Option-cases (pending m.ask_id c)) [
        | inl p ↦ absurd (
            registered-ne-callback c self m f a rc payload size m'
              (rw (dispatch-none c self m h p) at e))
        | inr (s, p) ↦ elim (Bool-cases (ends self m s)) [
          | inl t ↦
              let q = of_call s t (rw (dispatch-some c self m h s p, t) at e) in
              (s, p, q.0, q.1, q.2, q.3, q.4, q.5, q.6, q.7)
          | inr t ↦ absurd (
              registered-ne-callback c self m f a rc payload size m'
                (rw (dispatch-some c self m h s p, t) at e))
        ]
      ]
]
  where
    direct : m.ask_id == 0 ≡ true → to_registered self m c ≡ to_callback f a rc payload size m'
    direct z = rw (dispatch-zero c self m z) at e

    of_call :
        (s : Slot)
        → ends self m s ≡ true
        → to_callback s.callback self m.result m.payload m.size m
          ≡ to_callback f a rc payload size m'
        → (s.actor ≡ self)
          × Ends m s
          × (f ≡ s.callback)
          × (a ≡ self)
          × (rc ≡ m.result)
          × (payload ≡ m.payload)
          × (size ≡ m.size)
          × (m' ≡ m)
    of_call s t q = ground arith
