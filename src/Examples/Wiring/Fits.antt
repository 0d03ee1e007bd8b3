-- ===== src/Examples/Wiring/Fits.antt =====
-- The static assertions of `IPC_ACTOR_HANDLE` and `IPC_ACTOR_RESPONSE_HANDLE` in examples/led_actor: what
-- an actor handles fits the slots of its mailbox.
use actor_framework_cxx.Prelude.{ℕ, ◌≤◌, List, [], ◌∷◌}
use actor_framework_cxx.Definition.{message_max}
use actor_framework_cxx.Definition.Largest.{IsSize, here, there, message_max-all}
use actor_framework_cxx.Registry.Setup.{Constructor, handles}
use actor_framework_cxx.Examples.Wiring.{
  MsgTypes, led_constructors, app_constructors, button_constructors, led_max_payload,
  app_max_payload, button_max_payload,
}

-- Every handler in the list is for a payload of at most the given size.
abbrev pub Fits : (sizeof : ℕ → ℕ) → (max_payload : ℕ) → List Constructor → Type 0
Fits sizeof max [] = Unit {0}
Fits sizeof max (handles a d h ∷ l) = (sizeof d ≤ max) × Fits sizeof max l
Fits sizeof max (k ∷ l) = Fits sizeof max l

-- The size at each place of the list.
fits_at : {first n : ℕ} {l : List ℕ} → IsSize n (first ∷ l) → n ≤ message_max first l
fits_at {first} {n} {l} s = message_max-all first n l s

-- Whatever the sizes of the payload types are, each message that an actor of the example handles, and the
-- response that the consumer waits for, fits the largest payload that the actor is defined with.
pub handled-Fits :
    (t : MsgTypes) (sizeof : ℕ → ℕ)
    → Fits sizeof (led_max_payload t sizeof) (led_constructors t)
      × Fits sizeof (app_max_payload t sizeof) (app_constructors t)
      × Fits sizeof (button_max_payload t sizeof) (button_constructors t)
      × (sizeof t.get_led_state_response ≤ app_max_payload t sizeof)
handled-Fits t sizeof = search (fits_at, here, there) depth 9
