-- ===== src/Examples/Led.antt =====
-- examples/led_actor/led_actor.c: the hooks and the handlers of the LED actor.
use actor_framework_cxx.Prelude.{
  ℕ, ◌+◌, ◌-◌, ◌≤◌, ◌≡◌, ◌≢◌, ◌⊎◌, refl, Bool, true, false, Bool-cases, ==→eq, inl, inr, List, [],
  ◌∷◌, ltb, ◌==◌, if◌then◌else◌, u32, arith,
}

-- The static variables behind the LED actor.
pub record LedState : Type 0 where
  pub blink_remaining : ℕ
  pub blink_period : ℕ
  pub blink_brightness : ℕ
  pub disabled : Bool
  pub restart_pending : Bool
  pub restart_count : ℕ

-- The messages that the actor handles, with the fields of their payloads.
pub data LedMsg : Type 0 where
  led_on : (brightness : ℕ) → LedMsg
  led_off : LedMsg
  led_blink : (period_ms brightness : ℕ) → LedMsg
  get_led_state : (channel : ℕ) → LedMsg
  led_fault : (error_code channel : ℕ) → LedMsg

-- The calls that the handlers make: `ipc_send_after` of a LedBlink, `ipc_reply`, `ipc_reply_error` with
-- -ENODEV, and `ipc_actor_fail` with -EIO.
pub data LedCall : Type 0 where
  sends_blink_after : (delay_ms period_ms brightness : ℕ) → LedCall
  replies : (channel on brightness on_time_ms : ℕ) → LedCall
  replies_no_device fails_io : LedCall

-- `led_on_start`
abbrev pub led_on_start : LedState → LedState
led_on_start s = record s { disabled = false; blink_remaining = 0; restart_pending = false }

-- `led_on_failure`
abbrev pub led_on_failure : LedState → LedState
led_on_failure s = record s { restart_count = u32 (s.restart_count + 1); restart_pending = true }

-- The first test of `led_blink_handler`: a blink begins with five ticks.
unfoldable pub blink_begun : (period_ms brightness : ℕ) → LedState → LedState
blink_begun p b s =
    if s.blink_remaining == 0
    then record s { blink_period = p; blink_brightness = b; blink_remaining = 5 }
    else s

-- ... and the second: a tick, and the message for the next.
unfoldable pub blink_tick : LedState → LedState × List LedCall
blink_tick s =
    if ltb 0 s.blink_remaining
    then (
      record s { blink_remaining = s.blink_remaining - 1 },
      sends_blink_after s.blink_period s.blink_period s.blink_brightness ∷ [],
    )
    else (s, [])

-- The handlers.
unfoldable pub led_handle : LedMsg → LedState → LedState × List LedCall
unfolding blink_begun blink_tick
led_handle (led_on b) s = if s.disabled then (s, []) else (record s { blink_remaining = 0 }, [])
led_handle led_off s = (record s { blink_remaining = 0 }, [])
led_handle (led_blink p b) s = if s.disabled then (s, []) else blink_tick (blink_begun p b s)
led_handle (get_led_state ch) s =
    if ltb 1 ch
    then (s, replies_no_device ∷ [])
    else (s, replies ch (if s.disabled then 0 else 1) 80 12345 ∷ [])
led_handle (led_fault code ch) s = (s, fails_io ∷ [])

-- What may happen to the actor: a message, a failure, or a start.
pub data LedStep : Type 0 where
  handles_msg : LedMsg → LedStep
  fails starts : LedStep

abbrev pub led_step : LedStep → LedState → LedState
led_step (handles_msg m) s = (led_handle m s).0
led_step fails s = led_on_failure s
led_step starts s = led_on_start s

unfoldable pub led_run : List LedStep → LedState → LedState
led_run [] s = s
led_run (e ∷ es) s = led_run es (led_step e s)

-- Nothing disables the LED, and a blink has five ticks at most.
pub record LedValid (s : LedState) : Type 0 where
  pub enabled : s.disabled ≡ false
  pub bounded : s.blink_remaining ≤ 5

led_handle-LedValid : (m : LedMsg) (s : LedState) → LedValid s → LedValid (led_handle m s).0
unfolding led_handle blink_begun blink_tick
led_handle-LedValid (led_on b) s v = record {
  enabled = ground (arith, v.enabled);
  bounded = ground (arith, v.bounded);
}
led_handle-LedValid led_off s v = record { enabled = v.enabled; bounded = omega arith }
led_handle-LedValid (led_blink p b) s v = record {
  enabled = ground (arith, v.enabled);
  bounded = ground (arith, v.bounded);
}
led_handle-LedValid (get_led_state ch) s v = record {
  enabled = ground (arith, v.enabled);
  bounded = ground (arith, v.bounded);
}
led_handle-LedValid (led_fault code ch) s v = v

led_step-LedValid : (e : LedStep) (s : LedState) → LedValid s → LedValid (led_step e s)
led_step-LedValid (handles_msg m) s v = led_handle-LedValid m s v
led_step-LedValid fails s v = record { enabled = v.enabled; bounded = v.bounded }
led_step-LedValid starts s v = record { enabled = refl; bounded = omega arith }

led_run-LedValid : (es : List LedStep) (s : LedState) → LedValid s → LedValid (led_run es s)
unfolding led_run
led_run-LedValid [] s v = v
led_run-LedValid (e ∷ es) s v = led_run-LedValid es (led_step e s) (led_step-LedValid e s v)

ne_zero : (n : ℕ) → (n == 0) ≡ false → n ≢ 0
ne_zero n h e = ground (arith, h, e)

blink_first :
    (p b : ℕ) (t : LedState)
    → t.disabled ≡ false
    → t.blink_remaining ≡ 0
    → let r = led_handle (led_blink p b) t in
      (r.1 ≡ sends_blink_after p p b ∷ []) × (r.0.blink_remaining ≡ 4)
unfolding led_handle blink_begun blink_tick
blink_first p b t e z = ground (arith, e, z)

blink_next :
    (p b : ℕ) (t : LedState)
    → t.disabled ≡ false
    → t.blink_remaining ≢ 0
    → let r = led_handle (led_blink p b) t in
      (r.1 ≡ sends_blink_after t.blink_period t.blink_period t.blink_brightness ∷ [])
      × (r.0.blink_remaining + 1 ≡ t.blink_remaining)
unfolding led_handle blink_begun blink_tick
blink_next p b t e n = ground (arith, e, n)

-- A LedBlink that the LED actor handles makes it send another LedBlink later, whatever it has handled
-- before, LedOn and LedOff included, and after any failures and starts: no message before it ends the
-- blink. Where no blink is under way a new one of five ticks begins with the payload that arrived, and
-- otherwise the old one goes on. The LED was enabled, with no more than five ticks to go.
pub blink_goes_on :
    (es : List LedStep) (p b : ℕ) (s : LedState)
    → LedValid s
    → let t = led_run es s in
      let r = led_handle (led_blink p b) t in
      (((t.blink_remaining ≡ 0) × (r.1 ≡ sends_blink_after p p b ∷ []) × (r.0.blink_remaining ≡ 4))
        ⊎ ((t.blink_remaining ≢ 0)
            × (r.1 ≡ sends_blink_after t.blink_period t.blink_period t.blink_brightness ∷ [])
            × (r.0.blink_remaining + 1 ≡ t.blink_remaining)))
blink_goes_on es p b s v =
    let t = led_run es s in
    let w = led_run-LedValid es s v in
    elim (Bool-cases (t.blink_remaining == 0)) [
      | inl z ↦
          let e = ==→eq t.blink_remaining 0 z in
          let r = blink_first p b t w.enabled e in inl (e, r.0, r.1)
      | inr n ↦
          let e = ne_zero t.blink_remaining n in
          let r = blink_next p b t w.enabled e in inr (e, r.0, r.1)
    ]
