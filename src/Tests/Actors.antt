-- ===== src/Tests/Actors.antt =====
-- The actors of examples/led_actor, at single runs: a blink after an LedOff and a failure, and a hold.
use actor_framework_cxx.Prelude.{◌+◌, ◌≡◌, ◌≢◌, ◌⊎◌, refl, false, [], ◌∷◌, arith}
use actor_framework_cxx.Examples.Led.{
  LedState, led_off, led_blink, sends_blink_after, led_handle, handles_msg, fails, starts, led_run,
  LedValid, blink_goes_on,
}

abbrev led_start : LedState
led_start = record {
  blink_remaining = 0;
  blink_period = 0;
  blink_brightness = 0;
  disabled = false;
  restart_pending = false;
  restart_count = 0;
}

led_start-LedValid : LedValid led_start
led_start-LedValid = record { enabled = refl; bounded = omega arith }

-- The actor blinks, is switched off, fails, and is started again.
abbrev led_ended : LedState
led_ended =
    led_run (handles_msg (led_blink 150 200) ∷ handles_msg led_off ∷ fails ∷ starts ∷ []) led_start

blink_goes_on_example :
    let r = led_handle (led_blink 150 200) led_ended in
    (((led_ended.blink_remaining ≡ 0)
        × (r.1 ≡ sends_blink_after 150 150 200 ∷ [])
        × (r.0.blink_remaining ≡ 4))
      ⊎ ((led_ended.blink_remaining ≢ 0)
          × (r.1
              ≡ sends_blink_after led_ended.blink_period led_ended.blink_period
                  led_ended.blink_brightness
                ∷ [])
          × (r.0.blink_remaining + 1 ≡ led_ended.blink_remaining)))
blink_goes_on_example =
    blink_goes_on (handles_msg (led_blink 150 200) ∷ handles_msg led_off ∷ fails ∷ starts ∷ []) 150
      200 led_start led_start-LedValid
