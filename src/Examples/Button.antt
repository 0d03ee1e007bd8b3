-- ===== src/Examples/Button.antt =====
-- examples/led_actor/button_actor.c: the state machine of the simulated button.
pub mod Press
use actor_framework_cxx.Prelude.{
  ℕ, ◌+◌, ◌%◌, ◌≤◌, ◌<◌, ◌≡◌, refl, Bool, true, false, ◌&&◌, not, List, [], ◌∷◌, ◌++◌, ltb, leb,
  ◌==◌, if◌then◌else◌, u32, arith,
}

-- `btn_state_t`
pub data Phase : Type 0 where
  btn_idle first_down held : Phase

-- The static variables behind the button.
pub record ButtonState : Type 0 where
  pub phase : Phase
  pub ticks : ℕ
  pub btn_id : ℕ
  pub presses : ℕ
  pub hold_ticks : ℕ
  pub fault_fired : Bool

-- The calls that a tick makes: `ipc_send_after` of the next tick, and `ipc_publish` of each event.
pub data ButtonCall : Type 0 where
  arms_tick : (seq : ℕ) → ButtonCall
  clicks double_clicks : (button_id : ℕ) → ButtonCall
  holds : (button_id hold_ms : ℕ) → ButtonCall
  faults : (error_code channel : ℕ) → ButtonCall

-- A part of the tick: the state after it, and the events that it publishes.
abbrev Outcome : Type 0
Outcome = ButtonState × List ButtonCall

unfoldable pub idle_tick : ButtonState → Outcome
idle_tick s = (
  record s { btn_id = s.presses % 3; presses = u32 (s.presses + 1); phase = first_down; ticks = 0 },
  [],
)

unfoldable pub down_tick : ButtonState → Outcome
down_tick s =
    if s.btn_id == 0 && leb 250 s.ticks
    then (record s { phase = btn_idle }, clicks s.btn_id ∷ [])
    else if s.btn_id == 1 && leb 250 s.ticks
    then (record s { phase = btn_idle }, double_clicks s.btn_id ∷ [])
    else if s.btn_id == 2 && leb 500 s.ticks
    then (record s { phase = held; ticks = 0 }, [])
    else (s, [])

-- The three tests of BTN_HELD, one after the other.
unfoldable pub hold_event : ButtonState → Outcome
hold_event s =
    if leb 1000 s.ticks then (record s { ticks = 0 }, holds s.btn_id s.ticks ∷ []) else (s, [])

unfoldable pub stuck_event : ButtonState → Outcome
stuck_event s =
    if s.ticks == 0 && leb 4 s.hold_ticks && not s.fault_fired
    then (record s { fault_fired = true }, faults 0xBADC0DE s.btn_id ∷ [])
    else (s, [])

unfoldable pub release : ButtonState → ButtonState
release s =
    if s.ticks == 0
    then (if leb 5 s.hold_ticks
        then record s {
          hold_ticks = 0;
          fault_fired = false;
          phase = btn_idle;
          presses = u32 (s.presses + 1) % 3;
        }
        else record s { hold_ticks = u32 (s.hold_ticks + 1) })
    else s

unfoldable pub held_tick : ButtonState → Outcome
unfolding hold_event stuck_event release
held_tick s = let h = hold_event s in let f = stuck_event h.0 in (release f.0, h.1 ++ f.1)

unfoldable pub phase_tick : Phase → ButtonState → Outcome
unfolding idle_tick down_tick held_tick
phase_tick btn_idle s = idle_tick s
phase_tick first_down s = down_tick s
phase_tick held s = held_tick s

-- `on_tick`
unfoldable pub on_tick : ButtonState → Outcome
unfolding phase_tick
on_tick s =
    let t : ButtonState = record s { ticks = u32 (s.ticks + 250) } in
    let r = phase_tick t.phase t in (r.0, arms_tick t.ticks ∷ r.1)

-- `on_fault`
abbrev pub on_fault : ButtonState → ButtonState
on_fault s = record s { phase = btn_idle; ticks = 0; hold_ticks = 0; fault_fired = false }
