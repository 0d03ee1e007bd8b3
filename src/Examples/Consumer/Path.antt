-- ===== src/Examples/Consumer/Path.antt =====
-- The path of a press through examples/led_actor: from the ticks of button_actor.c over the events that
-- app_actor.c handles to the commands that led_actor.c gets.
use actor_framework_cxx.Prelude.{ℕ, zero, suc, ◌≡◌, ◌≢◌, ◌⊎◌, List, [], ◌∷◌, ◌++◌}
use actor_framework_cxx.Examples.Led.{
  LedState, LedMsg, led_on, led_off, led_blink, LedCall, sends_blink_after, led_handle,
}
use actor_framework_cxx.Examples.Button.{ButtonCall}
use actor_framework_cxx.Examples.Consumer.{ConsumerCall, sends, consume}

-- The commands among the calls of the consumer, for all events, in order.
abbrev pub sent : List ConsumerCall → List LedMsg
sent [] = []
sent (sends m ∷ l) = m ∷ sent l
sent (c ∷ l) = sent l

unfoldable pub commands : List ButtonCall → List LedMsg
commands [] = []
commands (e ∷ l) = sent (consume e) ++ commands l

-- The LED actor handles commands one after the other.
unfoldable pub led_handle_all : List LedMsg → LedState → LedState × List LedCall
led_handle_all [] s = (s, [])
led_handle_all (m ∷ ms) s =
    let r = led_handle m s in let q = led_handle_all ms r.0 in (q.0, r.1 ++ q.1)

-- The commands that a press with a number makes the LED actor handle: LedOn with the brightness of the
-- first button, LedBlink, or LedOff for each of the six holds.
abbrev pub press_commands : ℕ → List LedMsg
press_commands zero = led_on 50 ∷ []
press_commands (suc zero) = led_blink 150 200 ∷ []
press_commands _ = led_off ∷ led_off ∷ led_off ∷ led_off ∷ led_off ∷ led_off ∷ []

-- The LED after a press with a number: it blinks after a double click, and does not after the others.
abbrev pub LedEnd : ℕ → LedState × List LedCall → Type 0
LedEnd id r =
    ((id ≡ 1) × (p : ℕ) × (b : ℕ) × (r.1 ≡ sends_blink_after p p b ∷ []))
    ⊎ ((id ≢ 1) × (r.0.blink_remaining ≡ 0) × (r.1 ≡ []))
