-- ===== src/Examples/Basic/Exchange.antt =====
-- The exchange of pings and pongs in examples/basic_zephyr/src/main.c: how it ends.
use actor_framework_cxx.Prelude.{
  ℕ, zero, suc, ◌+◌, ◌-◌, Option, none, some, List, [], ◌∷◌, ◌++◌, ltb, if◌then◌else◌, u32,
}
use actor_framework_cxx.Examples.Basic.{
  BasicState, BasicMsg, BasicCall, sends, sends_after, basic_handle,
}

-- The messages that a handler sends, at once or later.
abbrev pub sent : List BasicCall → List BasicMsg
sent [] = []
sent (sends m ∷ l) = m ∷ sent l
sent (sends_after m ms ∷ l) = m ∷ sent l
sent (c ∷ l) = sent l

-- The actors handle what was sent, the oldest first, until nothing is left; `none` when the fuel is
-- used up before.
unfoldable pub exchange : (fuel : ℕ) → List BasicMsg → BasicState → Option BasicState
exchange f [] s = some s
exchange zero (m ∷ ms) s = none
exchange (suc f) (m ∷ ms) s = let r = basic_handle m s in exchange f (ms ++ sent r.1) r.0

-- How many pings follow from one, itself counted.
abbrev pub rounds : (count : ℕ) → ℕ
rounds count = if ltb count 5 then 6 - count else 1

abbrev pub counted : (rounds : ℕ) → BasicState → BasicState
counted n s = record s { ping_count = u32 (s.ping_count + n); pong_count = u32 (s.pong_count + n) }

-- The fuel for so many rounds.
abbrev pub twice : ℕ → ℕ
twice zero = zero
twice (suc n) = suc (suc (twice n))
