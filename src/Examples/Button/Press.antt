-- ===== src/Examples/Button/Press.antt =====
-- What one press of the simulated button of examples/led_actor/button_actor.c comes to, by its number.
use actor_framework_cxx.Prelude.{
  ℕ, zero, suc, ◌+◌, ◌%◌, ◌<◌, ◌≡◌, refl, false, List, [], ◌∷◌, ◌++◌, u32, arith,
}
use actor_framework_cxx.Examples.Button.{
  ButtonState, btn_idle, first_down, ButtonCall, arms_tick, clicks, double_clicks, holds, faults,
  on_tick, phase_tick, idle_tick, down_tick, held_tick, hold_event, stuck_event, release,
}

-- The events among the calls.
abbrev pub published : List ButtonCall → List ButtonCall
published [] = []
published (arms_tick seq ∷ l) = published l
published (c ∷ l) = c ∷ published l

-- So many ticks, with the events that they publish, when no fault is handled meanwhile.
unfoldable pub ticks_run : ℕ → ButtonState → ButtonState × List ButtonCall
ticks_run zero s = (s, [])
ticks_run (suc n) s = let r = on_tick s in let q = ticks_run n r.0 in (q.0, published r.1 ++ q.1)

-- A state with no hold under way.
abbrev pub calm : (ticks btn_id presses : ℕ) → ButtonState
calm t b n = record {
  phase = btn_idle;
  ticks = t;
  btn_id = b;
  presses = n;
  hold_ticks = 0;
  fault_fired = false;
}

abbrev down : (btn_id presses : ℕ) → ButtonState
down b n = record (calm 0 b n) { phase = first_down }

abbrev pub hold_second : List ButtonCall
hold_second = holds 2 1000 ∷ []

-- The ticks that a press takes, its events, and what it leaves.
abbrev pub press_ticks : ℕ → ℕ
press_ticks (suc (suc k)) = 26
press_ticks k = 1

abbrev pub press_events : ℕ → List ButtonCall
press_events zero = clicks 0 ∷ []
press_events (suc zero) = double_clicks 1 ∷ []
press_events _ =
    holds 2 1000
    ∷ holds 2 1000
    ∷ holds 2 1000
    ∷ holds 2 1000
    ∷ holds 2 1000
    ∷ faults 0xBADC0DE 2
    ∷ holds 2 1000
    ∷ []

abbrev pub press_leaves : ℕ → ℕ → ButtonState
press_leaves zero n = calm 250 0 n
press_leaves (suc zero) n = calm 250 1 n
press_leaves _ n = calm 0 2 (u32 (n + 1) % 3)

click_press : (n : ℕ) → ticks_run 1 (down 0 n) ≡ (press_leaves 0 n, press_events 0)
unfolding ticks_run on_tick phase_tick down_tick
click_press n = refl

double_press : (n : ℕ) → ticks_run 1 (down 1 n) ≡ (press_leaves 1 n, press_events 1)
unfolding ticks_run on_tick phase_tick down_tick
double_press n = refl

hold_press : (n : ℕ) → ticks_run 26 (down 2 n) ≡ (press_leaves 2 n, press_events 2)
unfolding ticks_run on_tick phase_tick down_tick held_tick hold_event stuck_event release
hold_press n = refl

press_by_id :
    (k n : ℕ) → k < 3 → ticks_run (press_ticks k) (down k n) ≡ (press_leaves k n, press_events k)
press_by_id zero n h = click_press n
press_by_id (suc zero) n h = double_press n
press_by_id (suc (suc zero)) n h = hold_press n
press_by_id (suc (suc (suc k))) n h = absurd (omega (arith, h))

-- The presses of the simulated button take turns by their number modulo 3: a click and a double click
-- take two ticks each, and a hold takes 27 ticks, publishes a hold of one second six times and a fault
-- after the fifth of them, and is released with the sixth. Between presses no hold and no fault is left.
-- No fault is handled during the press.
pub press_outcome :
    (t b n : ℕ)
    → let id = n % 3 in
      ticks_run (press_ticks id + 1) (calm t b n) ≡ (press_leaves id (u32 (n + 1)), press_events id)
unfolding ticks_run on_tick phase_tick idle_tick
press_outcome t b n =
    let one : press_ticks (n % 3) + 1 ≡ suc (press_ticks (n % 3)) = omega arith in
    rw one (press_by_id (n % 3) (u32 (n + 1)) (omega arith))
