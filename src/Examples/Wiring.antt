-- ===== src/Examples/Wiring.antt =====
-- How examples/led_actor is put together: the actors, their messages and the constructors that the
-- macros of led_actor.c, app_actor.c and button_actor.c declare, and the calls of main.c.
pub mod Fits
use actor_framework_cxx.Prelude.{ℕ, List, [], ◌∷◌}
use actor_framework_cxx.State.{Rc, Desc, supervise_restart}
use actor_framework_cxx.Definition.{cmd_define, event_define, message_max}
use actor_framework_cxx.Registry.Setup.{
  Constructor, defines, handles, starts_with, stops_with, unknown_with, fails_with, supervises,
}
use actor_framework_cxx.Examples.Consumer.{ConsumerCall, app_run}

abbrev pub led_actor : ℕ
led_actor = 0

abbrev pub app_actor : ℕ
app_actor = 1

abbrev pub button_actor : ℕ
button_actor = 2

-- The message types, by the number of their descriptor. A descriptor that a header defines is one for
-- each file that includes it, with one name and so with one id.
pub record MsgTypes : Type 0 where
  pub led_on : ℕ
  pub led_off : ℕ
  pub led_blink : ℕ
  pub get_led_state_request : ℕ
  pub get_led_state_response : ℕ
  pub led_fault : ℕ
  pub button_click : ℕ
  pub button_double_click : ℕ
  pub button_hold : ℕ
  pub button_tick : ℕ

abbrev pub msg_types : MsgTypes
msg_types = record {
  led_on = 0;
  led_off = 1;
  led_blink = 2;
  get_led_state_request = 3;
  get_led_state_response = 4;
  led_fault = 5;
  button_click = 6;
  button_double_click = 7;
  button_hold = 8;
  button_tick = 9;
}

-- Of led_actor.c, with hooks 1 to 4 and the handlers in their order.
abbrev pub led_constructors : MsgTypes → List Constructor
led_constructors t =
    defines led_actor
    ∷ supervises led_actor supervise_restart
    ∷ starts_with led_actor 1
    ∷ stops_with led_actor 2
    ∷ unknown_with led_actor 3
    ∷ fails_with led_actor 4
    ∷ handles led_actor t.led_on 11
    ∷ handles led_actor t.led_off 12
    ∷ handles led_actor t.led_blink 13
    ∷ handles led_actor t.get_led_state_request 14
    ∷ handles led_actor t.led_fault 15
    ∷ []

-- Of app_actor.c, with hooks 5 to 7.
abbrev pub app_constructors : MsgTypes → List Constructor
app_constructors t =
    defines app_actor
    ∷ starts_with app_actor 5
    ∷ stops_with app_actor 6
    ∷ unknown_with app_actor 7
    ∷ handles app_actor t.led_fault 21
    ∷ handles app_actor t.button_click 22
    ∷ handles app_actor t.button_double_click 23
    ∷ handles app_actor t.button_hold 24
    ∷ []

-- Of button_actor.c, with hooks 8 to 10.
abbrev pub button_constructors : MsgTypes → List Constructor
button_constructors t =
    defines button_actor
    ∷ starts_with button_actor 8
    ∷ stops_with button_actor 9
    ∷ unknown_with button_actor 10
    ∷ handles button_actor t.button_tick 31
    ∷ handles button_actor t.led_fault 32
    ∷ []

-- The largest payloads of the actors, of the sizes of the payload types.
abbrev pub led_max_payload : MsgTypes → (sizeof : ℕ → ℕ) → ℕ
led_max_payload t sizeof = message_max (sizeof t.led_on) (
    sizeof t.led_off
    ∷ sizeof t.led_blink
    ∷ sizeof t.get_led_state_request
    ∷ sizeof t.led_fault
    ∷ sizeof t.get_led_state_response
    ∷ [])

abbrev pub app_max_payload : MsgTypes → (sizeof : ℕ → ℕ) → ℕ
app_max_payload t sizeof = message_max (sizeof t.led_fault) (
    sizeof t.get_led_state_response
    ∷ sizeof t.button_click
    ∷ sizeof t.button_double_click
    ∷ sizeof t.button_hold
    ∷ [])

abbrev pub button_max_payload : MsgTypes → (sizeof : ℕ → ℕ) → ℕ
button_max_payload t sizeof = message_max (sizeof t.button_tick) (sizeof t.led_fault ∷ [])

-- The calls of `main`; `kicks` is `ipc_send_after` of a ButtonTick by `button_actor_kick`.
pub data LedMainCall : Type 0 where
  inits : (actor : ℕ) → LedMainCall
  starts_all stops_all runs_all : LedMainCall
  sleeps : (ms : ℕ) → LedMainCall
  runs_app : List ConsumerCall → LedMainCall
  kicks : (seq delay_ms : ℕ) → LedMainCall

abbrev pub button_actor_kick : LedMainCall
button_actor_kick = kicks 1 1000

abbrev pub led_main : List LedMainCall
led_main =
    inits led_actor
    ∷ inits app_actor
    ∷ inits button_actor
    ∷ starts_all
    ∷ sleeps 10
    ∷ runs_app app_run
    ∷ sleeps 100
    ∷ button_actor_kick
    ∷ sleeps 8000
    ∷ stops_all
    ∷ runs_all
    ∷ []
