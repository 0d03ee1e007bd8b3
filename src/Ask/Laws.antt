-- ===== src/Ask/Laws.antt =====
-- Facts that the proofs about ask and reply share: results, and states that agree on the asks.
use actor_framework_cxx.Prelude.{ℕ, ◌≡◌, ◌≢◌, true, false, arith}
use actor_framework_cxx.State.{Rc, ok, is_zero, Config, Core}
use actor_framework_cxx.Delivery.Frame.{SameAsks}
use actor_framework_cxx.Ask.Regions.{pending, AsksValid}

pub is_zero→ok : (rc : Rc) → is_zero rc ≡ true → rc ≡ ok
is_zero→ok rc h = ground arith

pub nonzero→ne_ok : (rc : Rc) → is_zero rc ≡ false → rc ≢ ok
nonzero→ne_ok rc h e = ground arith

-- Only the table and the counter matter to the invariant.
pub SameAsks-AsksValid :
    {cfg : Config} {c c' : Core} → SameAsks c c' → AsksValid cfg c → AsksValid cfg c'
SameAsks-AsksValid s v = record {
  table = rw s.ask_table v.table;
  size = rw s.ask_table v.size;
  counter = rw s.next_ask_id v.counter;
}

pub SameAsks-pending : {c c' : Core} → SameAsks c c' → (j : ℕ) → pending j c' ≡ pending j c
SameAsks-pending s j = rw s.ask_table
