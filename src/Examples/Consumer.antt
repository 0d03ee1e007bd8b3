-- ===== src/Examples/Consumer.antt =====
-- examples/led_actor/app_actor.c: the consumer of the button's events, which drives the LED.
pub mod Path
use actor_framework_cxx.Prelude.{ℕ, ◌+◌, ◌*◌, ◌%◌, List, [], ◌∷◌}
use actor_framework_cxx.Examples.Led.{LedMsg, led_on, led_off, led_blink, get_led_state}
use actor_framework_cxx.Examples.Button.{
  ButtonCall, arms_tick, clicks, double_clicks, holds, faults,
}

-- The calls of the actor: `ipc_send` of a command to the LED actor, `ipc_ask_with_id` and
-- `ipc_ask_with` of a request with a timeout, and `ipc_publish` of a fault.
pub data ConsumerCall : Type 0 where
  sends : LedMsg → ConsumerCall
  asks : LedMsg → (timeout_ms : ℕ) → ConsumerCall
  publishes_fault : (error_code channel : ℕ) → ConsumerCall

-- What the handlers of the actor do with an event that the button publishes: `on_click`,
-- `on_double_click`, `on_hold` and `led_fault_handler`. The brightness is a `uint8_t`.
unfoldable pub consume : ButtonCall → List ConsumerCall
consume (arms_tick seq) = []
consume (clicks b) = sends (led_on ((50 + b * 20) % 256)) ∷ []
consume (double_clicks b) = sends (led_blink 150 200) ∷ []
consume (holds b ms) = sends led_off ∷ []
consume (faults code channel) = []

-- `app_run`
abbrev pub app_run : List ConsumerCall
app_run = asks (get_led_state 0) 1000 ∷ asks (get_led_state 2) 1000 ∷ publishes_fault 0xDEAD 1 ∷ []
