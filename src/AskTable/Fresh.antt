-- ===== src/AskTable/Fresh.antt =====
-- `alloc_ask_id` of src/ipc.c finds an unused correlation id whenever a slot is free, with
-- wrap-around of the 32-bit counter: by a pigeonhole over the candidates ahead.
use actor_framework_cxx.Prelude.{
  ℕ, zero, suc, ◌⊎◌, inl, inr, Bool-cases, Option-cases, ◌+◌, ◌-◌, ◌%◌, ◌<◌, ◌≤◌, ◌≡◌, refl, true,
  ◌&&◌, none, some, List, [], ◌∷◌, arith, u32, ltb, ◌==◌, ==→eq, if◌then◌else◌,
}
use actor_framework_cxx.State.{Slot}
use actor_framework_cxx.AskTable.{
  Search, found, find_pending_ask, is_found, search_id, alloc_ask_id,
}
use actor_framework_cxx.AskTable.Lookup.{lookup, IsValid, lookup-eq_none, find-some}
use actor_framework_cxx.AskTable.Alloc.{count_used}

-- How many increments take the counter from `n` to `id`.
abbrev distance : ℕ → ℕ → ℕ
distance n id = (id + 4294967296 - n) % 4294967296

-- The used slots whose id is among the next `k` values of the counter.
abbrev ahead : ℕ → ℕ → List Slot → ℕ
ahead n k [] = 0
ahead n k (s ∷ t) = if s.used && ltb (distance n s.ask_id) k then suc (ahead n k t) else ahead n k t

-- 1 if the counter passes 0 within the next `k` values.
abbrev zero_ahead : ℕ → ℕ → ℕ
zero_ahead n k = if ltb (distance n 0) k then 1 else 0

-- The ids of used slots are 32-bit numbers.
abbrev Bounded : List Slot → Type 0
Bounded [] = Unit {0}
Bounded (s ∷ t) = (s.used ≡ true → s.ask_id < 4294967296) × Bounded t

Bounded-of_IsValid : (t : List Slot) → IsValid t → Bounded t
Bounded-of_IsValid [] w = tt
Bounded-of_IsValid (s ∷ t) w = (λ u. (w.0 u).2, Bounded-of_IsValid t w.1)

ahead-le-count : (n k : ℕ) (t : List Slot) → ahead n k t ≤ count_used t
ahead-le-count n k [] = omega arith
ahead-le-count n k (s ∷ t) = ground (arith, ahead-le-count n k t)

distance-next :
    (n id : ℕ)
    → n < 4294967296
    → id < 4294967296
    → ((n ≡ id) × (distance n id ≡ 0) × (distance (u32 (n + 1)) id ≡ 4294967295))
      ⊎ (distance n id ≡ distance (u32 (n + 1)) id + 1)
distance-next n id hn hi = elim (Bool-cases (n == id)) [
  | inl e ↦ let q : n ≡ id = ground arith in inl (q, omega arith, omega arith)
  | inr e ↦ let q : n ≡ id → ⊥ = ground arith in inr (omega arith)
]

-- One increment brings no id closer than it was, and leaves the current one out.
ahead-next :
    (n k : ℕ) (t : List Slot)
    → n < 4294967296
    → suc k ≤ 4294967296
    → Bounded t
    → ahead (u32 (n + 1)) k t ≤ ahead n (suc k) t
ahead-next n k [] hn hk b = omega arith
ahead-next n k (s ∷ t) hn hk b = elim (Bool-cases s.used) [
  | inl u ↦ ground (arith, ahead-next n k t hn hk b.1, distance-next n s.ask_id hn (b.0 u))
  | inr u ↦ ground (arith, ahead-next n k t hn hk b.1)
]

ahead-next_taken :
    (n k : ℕ) (t : List Slot) (x : Slot)
    → n < 4294967296
    → suc k ≤ 4294967296
    → Bounded t
    → lookup n t ≡ some x
    → ahead (u32 (n + 1)) k t < ahead n (suc k) t
unfolding lookup
ahead-next_taken n k [] x hn hk b h = cc
ahead-next_taken n k (s ∷ t) x hn hk b h = elim (Bool-cases (s.used && s.ask_id == n)) [
  | inl hit ↦
      let u : s.used ≡ true = ground arith in
      let q : s.ask_id ≡ n = ground arith in
      ground (arith, ahead-next n k t hn hk b.1, distance-next n s.ask_id hn (b.0 u))
  | inr miss ↦
      let ih : ahead (u32 (n + 1)) k t < ahead n (suc k) t =
        ahead-next_taken n k t x hn hk b.1 (ground arith) in
      elim (Bool-cases s.used) [
        | inl u ↦ ground (arith, ih, distance-next n s.ask_id hn (b.0 u))
        | inr u ↦ ground (arith, ih)
      ]
]

zero_ahead-next :
    (n k : ℕ)
    → n < 4294967296
    → suc k ≤ 4294967296
    → zero_ahead (u32 (n + 1)) k ≤ zero_ahead n (suc k)
zero_ahead-next n k hn hk = ground (arith, distance-next n 0 hn (omega arith))

zero_ahead-pass :
    (n k : ℕ) → n ≡ 0 → suc k ≤ 4294967296 → zero_ahead (u32 (n + 1)) k < zero_ahead n (suc k)
zero_ahead-pass n k z hk = ground arith

-- What a successful search returns: an id that no pending ask has, and the next counter value.
abbrev pub IsFresh : List Slot → Search × ℕ → Type 0
IsFresh t r =
    (id : ℕ) × (r.0 ≡ found id)
    × (lookup id t ≡ none)
    × (0 < id)
    × (id < 4294967296)
    × (r.1 ≡ u32 (id + 1))

search_id-skip :
    (f left : ℕ) (t : List Slot) (n : ℕ)
    → 0 < left
    → n ≡ 0
    → search_id (suc f) left t n ≡ search_id f left t (u32 (n + 1))
unfolding search_id
search_id-skip f left t n hl z = ground arith

search_id-retry :
    (f left : ℕ) (t : List Slot) (n : ℕ)
    → 0 < left
    → 0 < n
    → is_found (find_pending_ask n t) ≡ true
    → search_id (suc f) left t n ≡ search_id f (left - 1) t (u32 (n + 1))
unfolding search_id
search_id-retry f left t n hl z h = ground arith

search_id-hit :
    (f left : ℕ) (t : List Slot) (n : ℕ)
    → 0 < left
    → 0 < n
    → find_pending_ask n t ≡ none
    → search_id (suc f) left t n ≡ (found n, u32 (n + 1))
unfolding search_id
search_id-hit f left t n hl z h = ground arith

search_id-IsFresh :
    (f left : ℕ) (t : List Slot) (n : ℕ)
    → f ≤ 4294967296
    → n < 4294967296
    → Bounded t
    → ahead n f t < left
    → left + zero_ahead n f < f
    → IsFresh t (search_id f left t n)
search_id-IsFresh zero left t n hf hn b ha hz = absurd (omega arith)
search_id-IsFresh (suc f) left t n hf hn b ha hz = elim (Bool-cases (n == 0)) [
  | inl z ↦
      let q : n ≡ 0 = ==→eq n 0 z in
      rw (search_id-skip f left t n (omega arith) q) (
        search_id-IsFresh f left t (u32 (n + 1)) (omega arith) (omega arith) b
          (omega (arith, ahead-next n f t hn hf b)) (omega (arith, zero_ahead-pass n f q hf)))
  | inr nz ↦
      let pos : 0 < n = ground arith in
      elim (Option-cases (find_pending_ask n t)) [
        | inl free ↦
            rw (search_id-hit f left t n (omega arith) pos free)
              (n, refl, lookup-eq_none n t free, pos, hn, refl)
        | inr ((i, s), taken) ↦
            let fewer : ahead (u32 (n + 1)) f t < ahead n (suc f) t =
              ahead-next_taken n f t s hn hf b (find-some n t i s taken).2 in
            rw (search_id-retry f left t n (omega arith) pos (rw taken)) (
              search_id-IsFresh f (left - 1) t (u32 (n + 1)) (omega arith) (omega arith) b
                (omega (arith, fewer)) (omega (arith, zero_ahead-next n f hn hf)))
      ]
]

-- With fewer than `limit` asks pending the search ends before its fuel does, and finds a non-zero
-- 32-bit id that no pending ask has, from which the counter goes on. The table is valid, the counter
-- is a 32-bit number, and `limit` is at least 2 below 2 ^ 32.
pub alloc_ask_id-IsFresh :
    (limit : ℕ) (t : List Slot) (n : ℕ)
    → limit + 2 ≤ 4294967296
    → n < 4294967296
    → IsValid t
    → count_used t < limit
    → IsFresh t (alloc_ask_id limit t n)
unfolding alloc_ask_id
alloc_ask_id-IsFresh limit t n hl hn w hc =
    search_id-IsFresh (limit + 2) limit t n hl hn (Bounded-of_IsValid t w)
      (omega (arith, ahead-le-count n (limit + 2) t)) (ground arith)
