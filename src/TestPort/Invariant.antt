-- ===== src/TestPort/Invariant.antt =====
-- Every call of src/port/test/ipc_test_port.c keeps the mailboxes of started actors valid.
use mathlib.Core.Option.{some-injective}
use actor_framework_cxx.Slot.{Abi, slot_size_of, zero_msg}
use actor_framework_cxx.Prelude.{
  ℕ, ◌<◌, ◌≡◌, refl, sym, ap, subst, ◌∙◌, Bool, true, false, ◌||◌, not, Option, none, some, [], ◌∷◌,
  ◌++◌, ◌==◌, if◌then◌else◌, ltb, inl, inr, ==_refl, Bool-cases, arith, length,
}
use actor_framework_cxx.State.{Rc, Msg, World}
use actor_framework_cxx.TestPort.{
  ActorState, TestState, released, state_for, put, pushed, enqueue_in, enqueue, stop_state,
  stop_actor, restart_state, restart_actor, release_all, init_state, init_in, actor_init,
}
use actor_framework_cxx.Ring.Shape.{fresh_lem, emptied_lem}
use actor_framework_cxx.TestPort.Mailbox.{IsValid, pushed-contents, state_for-actor, state_for-put}

-- The mailboxes of the started actors are valid.
abbrev pub PortValid : TestState → Type 0
PortValid t = (a : ℕ) (s : ActorState) → state_for a t ≡ some s → s.started ≡ true → IsValid s

-- A state written back for the actor `a`.
pub put-PortValid :
    (a : ℕ) (t : TestState) (s s' : ActorState)
    → PortValid t
    → state_for a t ≡ some s
    → s'.actor ≡ a
    → (s'.started ≡ true → IsValid s')
    → PortValid (put s' t)
put-PortValid a t s s' v h e ok b x p u = elim (Bool-cases (a == b)) [
  | inl q ↦
      let same : s' ≡ x =
        some-injective s' x (sym (state_for-put a b t s s' h e ∙ rw q refl) ∙ p) in
      subst IsValid same (ok (ap (λ (y : ActorState). y.started) same ∙ u))
  | inr q ↦ v b x (sym (state_for-put a b t s s' h e ∙ rw q refl) ∙ p) u
]

-- Each branch of a conditional on its own.
branch-PortValid :
    (b : Bool) (x y : Rc × World TestState)
    → (b ≡ true → PortValid x.1.port)
    → (b ≡ false → PortValid y.1.port)
    → PortValid (if b then x else y).1.port
branch-PortValid true x y f g = f refl
branch-PortValid false x y f g = g refl

pushed-actor : (m : Msg) (s : ActorState) (a : ℕ) → s.actor ≡ a → (pushed m s).actor ≡ a
unfolding pushed
pushed-actor m s a e = e

enqueue_in-PortValid :
    (a : ℕ) (o : Option ActorState) (m : Msg) (max : ℕ) (w : World TestState)
    → PortValid w.port
    → state_for a w.port ≡ o
    → PortValid (enqueue_in o m max w).1.port
unfolding enqueue_in
enqueue_in-PortValid a none m max w v e = v
enqueue_in-PortValid a (some s) m max w v e =
    branch-PortValid (not s.started) _ _ (λ n. v)
      (λ u.
        branch-PortValid (ltb max m.size) _ _ (λ big. v)
          (λ fits.
            branch-PortValid (s.count == s.capacity) _ _ (λ full. v)
              (λ room.
                put-PortValid a w.port s (pushed m s) v e
                  (pushed-actor m s a (state_for-actor a w.port s e))
                  (λ k.
                    let ok = v a s e (ground (arith, u)) in
                    (pushed-contents m s ok (ground (arith, room, ok.count_bounded))).0))))

stop_state-PortValid :
    (a : ℕ) (o : Option ActorState) (w : World TestState)
    → PortValid w.port
    → state_for a w.port ≡ o
    → PortValid (stop_state o w).port
unfolding stop_state
stop_state-PortValid a none w v e = v
stop_state-PortValid a (some s) w v e =
    put-PortValid a w.port s (record s { started = false; count = 0 }) v e
      (state_for-actor a w.port s e) (λ u. cc)

pub emptied : (s : ActorState) → IsValid s → IsValid (record s { head = 0; tail = 0; count = 0 })
emptied s v = emptied_lem s.queue s.capacity s.head s.tail s.count v

restart_state-PortValid :
    (a : ℕ) (o : Option ActorState) (w : World TestState)
    → PortValid w.port
    → state_for a w.port ≡ o
    → PortValid (restart_state o w).1.port
unfolding restart_state
restart_state-PortValid a none w v e = v
restart_state-PortValid a (some s) w v e =
    branch-PortValid (not s.started) _ _ (λ n. v)
      (λ u.
        put-PortValid a w.port s (record s { head = 0; tail = 0; count = 0 }) v e
          (state_for-actor a w.port s e) (λ k. emptied s (v a s e k)))

release_all-stopped :
    (a : ℕ) (t : TestState) (s : ActorState)
    → state_for a (release_all t) ≡ some s
    → s.started ≡ false
unfolding release_all state_for
release_all-stopped a [] s h = cc
release_all-stopped a (x ∷ t) s h = elim (Bool-cases (x.actor == a)) [
  | inl q ↦ ap (λ (y : ActorState). y.started) (sym (some-injective (released x) s (rw q at h)))
  | inr q ↦ release_all-stopped a t s (rw q at h)
]

-- A new state at the end of the table.
state_for-append :
    (a b : ℕ) (t : TestState) (s : ActorState)
    → state_for a t ≡ none
    → s.actor ≡ a
    → state_for b (t ++ (s ∷ [])) ≡ (if a == b then some s else state_for b t)
unfolding state_for
state_for-append a b [] s h e = ground (arith, e)
state_for-append a b (x ∷ t) s h e = elim (Bool-cases (x.actor == a)) [
  | inl q ↦ absurd (ground (arith, rw q at h))
  | inr q ↦ let ih = state_for-append a b t s (rw q at h) e in ground (arith, q, ih)
]

append-PortValid :
    (a : ℕ) (t : TestState) (s : ActorState)
    → PortValid t
    → state_for a t ≡ none
    → s.actor ≡ a
    → s.started ≡ false
    → PortValid (t ++ (s ∷ []))
append-PortValid a t s v h e z b x p u = elim (Bool-cases (a == b)) [
  | inl q ↦
      let same : s ≡ x = some-injective s x (sym (state_for-append a b t s h e ∙ rw q refl) ∙ p) in
      absurd (ground (arith, sym z ∙ ap (λ (y : ActorState). y.started) same ∙ u))
  | inr q ↦ v b x (sym (state_for-append a b t s h e ∙ rw q refl) ∙ p) u
]

module _ (abi : Abi) (calloc : (count size : ℕ) → Bool) where
  init_state-PortValid :
      (a depth max : ℕ) (s : ActorState) (w : World TestState)
      → PortValid w.port
      → state_for a w.port ≡ some s
      → 0 < depth
      → PortValid (init_state abi calloc depth max s w).1.port
  unfolding init_state
  init_state-PortValid a depth max s w v e d =
      let slot = slot_size_of abi max in
      let own = state_for-actor a w.port s e in
      branch-PortValid (not (calloc depth slot) || not (calloc 1 slot)) _ _
        (λ n. put-PortValid a w.port s (released s) v e own (λ u. cc))
        (λ y. put-PortValid a w.port s _ v e own (λ u. fresh_lem zero_msg depth d))

  init_in-PortValid :
      (o : Option ActorState) (a depth max : ℕ) (w : World TestState)
      → PortValid w.port
      → state_for a w.port ≡ o
      → 0 < depth
      → PortValid (init_in abi calloc o a depth max w).1.port
  unfolding init_in
  init_in-PortValid (some s) a depth max w v e d = init_state-PortValid a depth max s w v e d
  init_in-PortValid none a depth max w v e d =
      branch-PortValid (length w.port == 32) _ _ (λ full. v)
        (λ room.
          init_state-PortValid a depth max _ _ (append-PortValid a w.port _ v e refl refl)
            (state_for-append a a w.port _ e refl ∙ rw (==_refl a) refl) d)

  -- Every call of the port leaves the mailboxes of all started actors valid: the initialisation of an
  -- actor, a send, a stop, a restart, and the release of all. They are valid before the call.
  pub calls-PortValid :
      (a : ℕ) (m : Msg) (w : World TestState)
      → PortValid w.port
      → PortValid (actor_init abi calloc a w).1.port
        × PortValid (enqueue a m w).1.port
        × PortValid (stop_actor a w).port
        × PortValid (restart_actor a w).1.port
        × PortValid (release_all w.port)
  unfolding actor_init enqueue stop_actor restart_actor
  calls-PortValid a m w v =
      let x = w.core.actors a in
      (
        branch-PortValid (x.queue_depth == 0) _ _ (λ z. v)
            (λ nz.
              init_in-PortValid (state_for a w.port) a x.queue_depth x.max_payload_size w v refl
                (ground (arith, nz))),
        enqueue_in-PortValid a (state_for a w.port) m x.max_payload_size w v refl,
        stop_state-PortValid a (state_for a w.port) w v refl,
        restart_state-PortValid a (state_for a w.port) w v refl,
        λ b s p u. absurd (ground (arith, sym (release_all-stopped b w.port s p) ∙ u)),
      )
