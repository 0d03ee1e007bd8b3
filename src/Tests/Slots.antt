-- ===== src/Tests/Slots.antt =====
-- The properties of the slots of a mailbox, for the messages of the system of Tests on an LP64 machine.
use actor_framework_cxx.Prelude.{
  ◌+◌, ◌*◌, ◌%◌, ◌<◌, ◌≤◌, ◌≡◌, ◌⊎◌, refl, length, drop, replicate, arith,
}
use actor_framework_cxx.State.{ok, err, emsgsize, event}
use actor_framework_cxx.Slot.{align_up, slot_size_of, stored}
use actor_framework_cxx.Slot.Size.{slot_size_of_lem}
use actor_framework_cxx.Slot.Memory.{SlotMemory, store_msg, load_msg, readable, load-store}
use actor_framework_cxx.Tests.{lp64, request_msg}

slot_size_of_lem_example :
    (slot_size_of lp64 4 % 16 ≡ 0)
    × (align_up 32 16 % 16 ≡ 0)
    × (32 ≤ align_up 32 16)
    × (align_up 32 16 + 4 ≤ slot_size_of lp64 4)
    × (slot_size_of lp64 4 < align_up 32 16 + 4 + 16)
    × (slot_size_of lp64 4 < 32 + 4 + 2 * 16)
slot_size_of_lem_example = slot_size_of_lem lp64 4 4 60 refl refl (omega arith)

-- A slot that an older message has filled.
abbrev stale : SlotMemory
stale = record {
  header = record { id = 3; kind = event; size = 4; ask_id = 0; reply_id = 0; result = ok };
  body = replicate 16 255;
}

load-store_example :
    let (rc, s') = store_msg lp64 48 request_msg stale in
    ((2 ≤ 16)
      × (rc ≡ ok)
      × (readable (load_msg s') ≡ stored request_msg)
      × (length s'.body ≡ 16)
      × (drop 2 s'.body ≡ drop 2 stale.body))
    ⊎ ((16 < 2) × (rc ≡ err emsgsize) × (s' ≡ stale))
load-store_example = load-store lp64 48 request_msg stale (omega arith) refl
