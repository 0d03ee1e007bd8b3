-- ===== src/Ask/Cancel.antt =====
-- `ipc_ask_cancel` of src/ipc.c.
use actor_framework_cxx.Prelude.{
  ℕ, ◌⊎◌, inl, inr, Bool-cases, Option-cases, ◌<◌, ◌≡◌, ◌≢◌, refl, ap, Option, none, some, arith,
  ◌==◌, if◌then◌else◌,
}
use mathlib.Core.Option
use actor_framework_cxx.State.{ok, err, enoent, is_running, Config, Core, running}
use actor_framework_cxx.Ask.{ask_cancel}
use actor_framework_cxx.Ask.Regions.{
  pending, AsksValid, pending-drop_ask, ask_cancel-some, ask_cancel-none,
}

-- The actor whose ask is pending under an id.
abbrev pub owner : ℕ → Core → Option ℕ
owner id c = Option.map (λ s. s.actor) (pending id c)

-- While actors run, a cancellation succeeds exactly for a pending ask of the caller, which is gone
-- then while all others stay; any other is refused with -ENOENT and changes nothing. The id is not
-- 0, and the ask table is valid.
pub ask_cancel_lem :
    (cfg : Config) (c : Core) (self id : ℕ)
    → AsksValid cfg c
    → 0 < id
    → c.lifecycle ≡ running
    → let (rc, c') = ask_cancel (some self) id c in
      ((rc ≡ ok)
        × (owner id c ≡ some self)
        × ((j : ℕ) → pending j c' ≡ (if id == j then none else pending j c)))
      ⊎ ((rc ≡ err enoent) × (owner id c ≢ some self) × (c' ≡ c))
ask_cancel_lem cfg c self id v h r = elim (Option-cases (pending id c)) [
  | inl p ↦
      rw (ask_cancel-none c id p self h (ap is_running r)) (inr (refl, ground (arith, p), refl))
  | inr (s, p) ↦
      rw (ask_cancel-some c id s p self h (ap is_running r)) (elim (Bool-cases (s.actor == self)) [
        | inl own ↦ rw own (inl (refl, ground (arith, p), pending-drop_ask cfg c v id))
        | inr other ↦ rw other (inr (refl, ground (arith, p), refl))
      ])
]
