-- ===== src/Examples/Basic.antt =====
-- examples/basic_zephyr/src/main.c: two actors that exchange pings and pongs, answer a request for
-- their counts, and are restarted after a fault.
pub mod Exchange
use actor_framework_cxx.Prelude.{
  ℕ, zero, suc, ◌+◌, Bool, true, false, Option, none, some, List, [], ◌∷◌, ◌++◌, ltb, ◌==◌,
  if◌then◌else◌, u32,
}
use actor_framework_cxx.State.{Desc, supervise_restart}
use actor_framework_cxx.Definition.{cmd_define, message_max}
use actor_framework_cxx.Registry.Setup.{
  Constructor, defines, handles, starts_with, stops_with, unknown_with, fails_with, supervises,
}

-- The static variables, where the two counts are an `atomic_uint`.
pub record BasicState : Type 0 where
  pub ping_count : ℕ
  pub pong_count : ℕ
  pub restart_pending : Bool
  pub restart_count : ℕ

-- The commands that the handlers get, with the field of the payload.
pub data BasicMsg : Type 0 where
  basic_ping basic_pong : (count : ℕ) → BasicMsg
  basic_status_request : (request_id : ℕ) → BasicMsg
  basic_fault : (code : ℕ) → BasicMsg

-- The calls that the handlers make: `ipc_send`, `ipc_send_after`, `ipc_reply`, `ipc_reply_error` with
-- -EINVAL, and `ipc_actor_fail` with -EIO.
pub data BasicCall : Type 0 where
  sends : BasicMsg → BasicCall
  sends_after : BasicMsg → (delay_ms : ℕ) → BasicCall
  replies_status : (request_id ping_count pong_count : ℕ) → BasicCall
  replies_invalid fails_io : BasicCall

-- `on_basic_ping`, `on_basic_pong`, `on_basic_status_request` and `on_basic_fault`.
unfoldable pub basic_handle : BasicMsg → BasicState → BasicState × List BasicCall
basic_handle (basic_ping count) s =
    (record s { ping_count = u32 (s.ping_count + 1) }, sends (basic_pong count) ∷ [])
basic_handle (basic_pong count) s = (
  record s { pong_count = u32 (s.pong_count + 1) },
  if ltb count 5 then sends_after (basic_ping (u32 (count + 1))) 1000 ∷ [] else [],
)
basic_handle (basic_status_request id) s =
    if id == 0
    then (s, replies_invalid ∷ [])
    else (s, replies_status id s.ping_count s.pong_count ∷ [])
basic_handle (basic_fault code) s = (s, fails_io ∷ [])

-- `pong_on_start`
abbrev pub pong_on_start : BasicState → BasicState
pong_on_start s = if s.restart_pending then record s { restart_pending = false } else s

-- `pong_on_failure`
abbrev pub pong_on_failure : BasicState → BasicState
pong_on_failure s = record s { restart_count = u32 (s.restart_count + 1); restart_pending = true }

-- The calls of `main` once its sleeps are over, and `ipc_send` of the first ping by
-- `basic_actor_init`, which makes it if the actors start.
pub data MainCall : Type 0 where
  asks_status : (request_id timeout_ms : ℕ) → MainCall
  main_sends : BasicMsg → MainCall
  main_sends_after : BasicMsg → (delay_ms : ℕ) → MainCall
  sleeps : (ms : ℕ) → MainCall
  stops_all : MainCall

abbrev pub basic_actor_init : (started : Bool) → List MainCall
basic_actor_init true = main_sends (basic_ping 1) ∷ []
basic_actor_init false = []

abbrev pub basic_main : List MainCall
basic_main =
    sleeps 6000
    ∷ asks_status 1 1000
    ∷ asks_status 0 1000
    ∷ sleeps 100
    ∷ main_sends_after (basic_ping 99) 1000
    ∷ main_sends (basic_fault 0xBADCAFE)
    ∷ sleeps 1200
    ∷ stops_all
    ∷ []

-- The descriptors BasicPing, BasicPong, BasicFault, BasicStatusRequest and BasicStatusResponse, by
-- their numbers, with payloads of `uint32_t` fields.
abbrev pub basic_desc : ℕ → Desc
basic_desc zero = cmd_define 4 (66 ∷ 97 ∷ 115 ∷ 105 ∷ 99 ∷ 80 ∷ 105 ∷ 110 ∷ 103 ∷ [])
basic_desc (suc zero) = cmd_define 4 (66 ∷ 97 ∷ 115 ∷ 105 ∷ 99 ∷ 80 ∷ 111 ∷ 110 ∷ 103 ∷ [])
basic_desc (suc (suc zero)) =
    cmd_define 4 (66 ∷ 97 ∷ 115 ∷ 105 ∷ 99 ∷ 70 ∷ 97 ∷ 117 ∷ 108 ∷ 116 ∷ [])
basic_desc (suc (suc (suc zero))) = cmd_define 4 (
    66 ∷ 97 ∷ 115 ∷ 105 ∷ 99 ∷ 83 ∷ 116 ∷ 97 ∷ 116 ∷ 117 ∷ 115 ∷ 82 ∷ 101 ∷ 113 ∷ 117 ∷ 101 ∷ 115
    ∷ 116 ∷ [])
basic_desc _ = cmd_define 12 (
    66 ∷ 97 ∷ 115 ∷ 105 ∷ 99 ∷ 83 ∷ 116 ∷ 97 ∷ 116 ∷ 117 ∷ 115 ∷ 82 ∷ 101 ∷ 115 ∷ 112 ∷ 111 ∷ 110
    ∷ 115 ∷ 101 ∷ [])

-- The largest payloads of ping_actor (0) and pong_actor (1).
abbrev pub basic_max_payload : (actor : ℕ) → ℕ
basic_max_payload zero = message_max 4 (12 ∷ [])
basic_max_payload _ = message_max 4 (4 ∷ 4 ∷ [])

-- The constructors that the macros declare: hooks 1 to 7 in the order of the file, and the handlers by
-- the number of the descriptor.
abbrev pub basic_constructors : List Constructor
basic_constructors =
    defines 0
    ∷ defines 1
    ∷ supervises 1 supervise_restart
    ∷ starts_with 0 1
    ∷ stops_with 0 2
    ∷ unknown_with 0 3
    ∷ starts_with 1 4
    ∷ stops_with 1 5
    ∷ unknown_with 1 6
    ∷ fails_with 1 7
    ∷ handles 1 0 0
    ∷ handles 0 1 1
    ∷ handles 1 3 3
    ∷ handles 1 2 2
    ∷ []
