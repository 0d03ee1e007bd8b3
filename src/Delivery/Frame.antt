-- ===== src/Delivery/Frame.antt =====
-- What sending leaves alone: the ask table, the counter and the lifecycle, on every branch.
use actor_framework_cxx.Prelude.{ℕ, ◌≡◌, refl, ◌∙◌, false, Option, none, some, arith}
use actor_framework_cxx.State.{Rc, is_zero, Payload, Msg, Core, World}
use actor_framework_cxx.Interface.{Port, Isolated}
use actor_framework_cxx.Descriptor.{ensure_id}
use actor_framework_cxx.Delivery.{
  apply_mailbox_overflow_policy, Prepared, refused, ready, prepare_registered_cmd, deliver,
}

-- Two states of the core that differ at most in descriptors and actors.
pub record SameAsks (c c' : Core) : Type 0 where
  pub ask_table : c'.ask_table ≡ c.ask_table
  pub next_ask_id : c'.next_ask_id ≡ c.next_ask_id
  pub lifecycle : c'.lifecycle ≡ c.lifecycle

pub SameAsks-refl : (c : Core) → SameAsks c c
SameAsks-refl c = record { ask_table = refl; next_ask_id = refl; lifecycle = refl }

pub SameAsks-trans : {c d e : Core} → SameAsks c d → SameAsks d e → SameAsks c e
SameAsks-trans s t = record {
  ask_table = t.ask_table ∙ s.ask_table;
  next_ask_id = t.next_ask_id ∙ s.next_ask_id;
  lifecycle = t.lifecycle ∙ s.lifecycle;
}

pub ensure_id-SameAsks : (d : ℕ) (c : Core) → SameAsks c (ensure_id d c)
unfolding ensure_id
ensure_id-SameAsks d c = ground arith

pub prepare-SameAsks :
    (d : Option ℕ) (payload : Payload) (c : Core)
    → SameAsks c (prepare_registered_cmd d payload c).1
unfolding prepare_registered_cmd
prepare-SameAsks none payload c = SameAsks-refl c
prepare-SameAsks (some d) payload c = ground (arith, ensure_id-SameAsks d c)

-- Where a command is refused, the result is an error.
abbrev pub Refusal : Prepared → Type 0
Refusal (refused rc) = is_zero rc ≡ false
Refusal (ready target m) = Unit {0}

pub prepare-Refusal :
    (d : Option ℕ) (payload : Payload) (c : Core) → Refusal (prepare_registered_cmd d payload c).0
unfolding prepare_registered_cmd
prepare-Refusal none payload c = refl
prepare-Refusal (some d) payload c = ground arith

module _ {P : Type 0} where
  pub policy-SameAsks :
      (a : ℕ) (rc : Rc) (w : World P)
      → SameAsks w.core (apply_mailbox_overflow_policy a rc w).1.core
  unfolding apply_mailbox_overflow_policy
  policy-SameAsks a rc w = ground arith

  pub deliver-SameAsks :
      (port : Port P)
      → Isolated port
      → (a : ℕ) (m : Msg) (w : World P) → SameAsks w.core (deliver port a m w).1.core
  unfolding deliver
  deliver-SameAsks port iso a m w =
      let (rc, w') = port.send a m w in ground (arith, policy-SameAsks a rc w', iso.send a m w)
