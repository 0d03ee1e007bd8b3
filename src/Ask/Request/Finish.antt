-- ===== src/Ask/Request/Finish.antt =====
-- The end of `ipc_ask_with_id_raw` in src/ipc.c, from the reserved slot on.
use actor_framework_cxx.Prelude.{
  ℕ, ◌⊎◌, inl, inr, Bool-cases, ◌≡◌, ◌≢◌, refl, subst, ◌∙◌, ap, none, ◌==◌, if◌then◌else◌, ltb,
}
use actor_framework_cxx.State.{Rc, ok, is_zero, Msg, Config, Core, World}
use actor_framework_cxx.Interface.{Port, Isolated}
use actor_framework_cxx.Delivery.{deliver}
use actor_framework_cxx.Delivery.Frame.{SameAsks, deliver-SameAsks}
use actor_framework_cxx.Ask.Regions.{pending, AsksValid, pending-drop_ask}
use actor_framework_cxx.Ask.Laws.{nonzero→ne_ok, SameAsks-AsksValid, SameAsks-pending}
use actor_framework_cxx.Ask.Request.{finish_ask, time_ask}

module _ {P : Type 0} (cfg : Config) (port : Port P) (iso : Isolated port) where
  -- The end of an ask whose slot is reserved under `id`: it stays, or it is freed.
  unfoldable pub Finished : ℕ → Core → Rc × ℕ × World P → Type 0
  Finished id c (rc, out, w') =
      ((rc ≡ ok) × (out ≡ id) × ((j : ℕ) → pending j w'.core ≡ pending j c))
      ⊎ ((rc ≢ ok)
          × (out ≡ 0)
          × ((j : ℕ) → pending j w'.core ≡ (if id == j then none else pending j c)))

  finish_ask-Finished :
      (target : ℕ) (m : Msg) (id : ℕ) (w : World P)
      → AsksValid cfg w.core
      → Finished id w.core (finish_ask cfg port target m id w)
  unfolding finish_ask Finished
  finish_ask-Finished target m id w v =
      let (rc, w') = deliver port target m w in
      let same : SameAsks w.core w'.core = deliver-SameAsks port iso target m w in
      elim (Bool-cases (is_zero rc)) [
        | inl z ↦ rw z (inl (refl, refl, SameAsks-pending same))
        | inr z ↦ rw z (
            inr (
              nonzero→ne_ok rc z,
              refl,
              λ j.
                  pending-drop_ask cfg w'.core (SameAsks-AsksValid same v) id j
                  ∙ ap (λ p. if id == j then none else p) (SameAsks-pending same j),
            ))
      ]

  pub time_ask-Finished :
      (self timeout_ms target : ℕ) (m : Msg) (id : ℕ) (w : World P)
      → AsksValid cfg w.core
      → Finished id w.core (time_ask cfg port self timeout_ms target m id w)
  unfolding time_ask Finished
  time_ask-Finished self timeout_ms target m id w v =
      let (rc, w') = port.schedule_ask_timeout self id timeout_ms w in
      let same : w'.core ≡ w.core = iso.schedule self id timeout_ms w in
      elim (Bool-cases (ltb 0 timeout_ms)) [
        | inl timed ↦ elim (Bool-cases (is_zero rc)) [
          | inl z ↦
              rw (timed, z)
                (subst (λ c. Finished id c (finish_ask cfg port target m id w')) same
                  (finish_ask-Finished target m id w' (rw same v)))
          | inr z ↦
              rw (timed, z)
                (inr (nonzero→ne_ok rc z, refl, rw same (pending-drop_ask cfg w.core v id)))
        ]
        | inr untimed ↦ rw untimed (finish_ask-Finished target m id w v)
      ]
