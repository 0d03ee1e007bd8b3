-- ===== src/Slot/Memory.antt =====
-- A slot as memory: `store_msg` and `load_msg` of src/port/posix/posix_ipc_port.c and of
-- src/port/zephyr/zephyr_ipc_port.c, field by field and byte by byte.
use actor_framework_cxx.Prelude.{
  ℕ, zero, suc, ◌+◌, ◌≤◌, ◌<◌, ◌≡◌, ◌⊎◌, refl, sym, ap, ◌∙◌, Bool-cases, inl, inr, none, some, List,
  [], ◌∷◌, ◌++◌, arith, ltb, if◌then◌else◌, length, length-append, length-replicate, take, drop,
  replicate,
}
use actor_framework_cxx.State.{Rc, ok, err, emsgsize, Kind, Payload, Msg}
use actor_framework_cxx.Slot.{Abi, align_up, payload_room, bytes_of, stored}

-- `ipc_msg_slot_header_t`
pub record Header : Type 0 where
  pub id : ℕ
  pub kind : Kind
  pub size : ℕ
  pub ask_id : ℕ
  pub reply_id : ℕ
  pub result : Rc

-- The header of a slot and the bytes behind it, which older messages may have left.
pub record SlotMemory : Type 0 where
  pub header : Header
  pub body : List ℕ

abbrev pub header_of : Msg → Header
header_of m = record {
  id = m.id;
  kind = m.kind;
  size = m.size;
  ask_id = m.ask_id;
  reply_id = m.reply_id;
  result = m.result;
}

-- `memcpy` and `memset` to the start of a block.
pub overwrite : List ℕ → List ℕ → List ℕ
overwrite bytes body = bytes ++ drop (length bytes) body

-- `store_msg`
pub store_msg : Abi → (slot_size : ℕ) → Msg → SlotMemory → Rc × SlotMemory
store_msg abi slot_size m s =
    if ltb (payload_room abi slot_size) m.size
    then (err emsgsize, s)
    else (ok, record { header = header_of m; body = overwrite (bytes_of m) s.body })

-- `load_msg`: the payload points to all that stands behind the header.
pub load_msg : SlotMemory → Msg
load_msg s = record {
  id = s.header.id;
  kind = s.header.kind;
  size = s.header.size;
  payload = some s.body;
  ask_id = s.header.ask_id;
  reply_id = s.header.reply_id;
  result = s.header.result;
}

-- A caller's buffer has the bytes that the message says.
abbrev pub IsFilled : Msg → Type 0
IsFilled m = elim m.payload [ none ↦ Unit {0} | some bytes ↦ m.size ≤ length bytes ]

-- What a receiver may read of a message: so many bytes as its size says.
abbrev pub readable : Msg → Msg
readable m = record m { payload = some (bytes_of m) }

length-take : (n : ℕ) (l : List ℕ) → n ≤ length l → length (take n l) ≡ n
length-take zero l h = refl
length-take (suc n) [] h = absurd (omega arith)
length-take (suc n) (x ∷ l) h = ap suc (length-take n l (omega arith))

length-drop : (n : ℕ) (l : List ℕ) → n ≤ length l → length (drop n l) + n ≡ length l
length-drop zero l h = omega arith
length-drop (suc n) [] h = absurd (omega arith)
length-drop (suc n) (x ∷ l) h = omega (arith, length-drop n l (omega arith))

take-append : (l r : List ℕ) → take (length l) (l ++ r) ≡ l
take-append [] r = refl
take-append (x ∷ l) r = ap (λ k. x ∷ k) (take-append l r)

drop-append : (l r : List ℕ) → drop (length l) (l ++ r) ≡ r
drop-append [] r = refl
drop-append (x ∷ l) r = drop-append l r

length-bytes_of : (m : Msg) → IsFilled m → length (bytes_of m) ≡ m.size
length-bytes_of m f = go m.payload f
  where
    go :
        (p : Payload)
        → elim p as (λ q. Type 0) [ none ↦ Unit {0} | some bytes ↦ m.size ≤ length bytes ]
        → length
            (elim p as (λ q. List ℕ) [ none ↦ replicate m.size 0 | some bytes ↦ take m.size bytes ])
          ≡ m.size
    go none h = length-replicate m.size 0
    go (some bytes) h = length-take m.size bytes h

-- A message that fits comes back as it was sent: all fields of the header, and its payload, copied or
-- zeroed where there was none. The write stays within the slot, and the bytes behind the payload are as
-- before; a message that does not fit is refused with -EMSGSIZE, and the slot is as before. The slot has
-- the size that the port has noted, and the sender's buffer the bytes of the message.
pub load-store :
    (abi : Abi) (slot_size : ℕ) (m : Msg) (s : SlotMemory)
    → IsFilled m
    → align_up abi.header abi.alignment + length s.body ≡ slot_size
    → let (rc, s') = store_msg abi slot_size m s in
      ((m.size ≤ length s.body)
        × (rc ≡ ok)
        × (readable (load_msg s') ≡ stored m)
        × (length s'.body ≡ length s.body)
        × (drop m.size s'.body ≡ drop m.size s.body))
      ⊎ ((length s.body < m.size) × (rc ≡ err emsgsize) × (s' ≡ s))
unfolding store_msg load_msg overwrite
load-store abi slot_size m s f h =
    let room = payload_room abi slot_size in
    elim (Bool-cases (ltb room m.size)) [
      | inl big ↦ rw big (inr (ground (arith, h, big), refl, refl))
      | inr fits ↦
          let n = length-bytes_of m f in
          let l : m.size ≤ length s.body = ground (arith, h, fits) in
          let front : take m.size (bytes_of m ++ drop (length (bytes_of m)) s.body) ≡ bytes_of m =
            ap (λ k. take k (bytes_of m ++ drop (length (bytes_of m)) s.body)) (sym n)
            ∙ take-append (bytes_of m) (drop (length (bytes_of m)) s.body) in
          rw fits (
            inl (
              l,
              refl,
              ap (λ (b : List ℕ). record m { payload = some b }) front,
              length-append (bytes_of m) (drop (length (bytes_of m)) s.body)
                  ∙ omega
                      (arith, n, length-drop m.size s.body l, ap (λ k. length (drop k s.body)) n),
              ap (λ k. drop k (bytes_of m ++ drop (length (bytes_of m)) s.body)) (sym n)
                  ∙ drop-append (bytes_of m) (drop (length (bytes_of m)) s.body)
                  ∙ ap (λ k. drop k s.body) n,
            ))
    ]
