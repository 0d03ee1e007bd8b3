-- ===== src/Slot.antt =====
-- The slots of a mailbox, which src/port/posix, src/port/zephyr and src/port/test share: the macros of
-- include/ipc.h that lay them out, and the copy of a message that they hold.
pub mod Size
pub mod Memory
use Prim.Native.Nat.{bit_and}
use actor_framework_cxx.Prelude.{
  ℕ, ◌+◌, ◌-◌, ◌%◌, Option, none, some, List, [], take, replicate, ltb, if◌then◌else◌,
}
use actor_framework_cxx.State.{ok, event, Msg}

-- `sizeof(ipc_msg_slot_header_t)` and `IPC_ALIGNOF(max_align_t)`.
pub record Abi : Type 0 where
  pub header : ℕ
  pub alignment : ℕ

abbrev pub size_t : ℕ → ℕ
size_t n = n % 18446744073709551616

-- `IPC_ALIGN_UP`, on `size_t`.
abbrev pub align_up : ℕ → ℕ → ℕ
align_up value alignment =
    bit_and (size_t (value + (alignment - 1))) (18446744073709551616 - alignment)

-- `IPC_MSG_SLOT_SIZE`, over `IPC_MSG_SLOT_HEADER_SIZE`.
unfoldable pub slot_size_of : Abi → ℕ → ℕ
slot_size_of abi max_payload_size =
    align_up (size_t (align_up abi.header abi.alignment + max_payload_size)) abi.alignment

-- `slot_size - IPC_MSG_SLOT_HEADER_SIZE`, on `size_t`.
abbrev pub payload_room : Abi → ℕ → ℕ
payload_room abi slot_size =
    if ltb slot_size (align_up abi.header abi.alignment)
    then slot_size + (18446744073709551616 - align_up abi.header abi.alignment)
    else slot_size - align_up abi.header abi.alignment

-- A slot that `calloc` made.
abbrev pub zero_msg : Msg
zero_msg = record {
  id = 0;
  kind = event;
  size = 0;
  payload = some [];
  ask_id = 0;
  reply_id = 0;
  result = ok;
}

-- The bytes that `memcpy` or `memset` puts behind the header.
abbrev pub bytes_of : Msg → List ℕ
bytes_of m = elim m.payload [ none ↦ replicate m.size 0 | some bytes ↦ take m.size bytes ]

-- A message as it stands in a slot.
abbrev pub stored : Msg → Msg
stored m = record m { payload = some (bytes_of m) }
