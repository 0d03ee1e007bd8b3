-- ===== src/AskTable.antt =====
-- The table of pending asks of src/ipc.c: `find_pending_ask`, `alloc_pending_ask` and
-- `alloc_ask_id`. A pointer into the table is the index, beside the slot found there.
pub mod Lookup
pub mod Alloc
pub mod Fresh
use actor_framework_cxx.Prelude.{
  ℕ, zero, suc, ◌+◌, ◌-◌, Bool, true, false, ◌&&◌, Option, none, some, List, [], ◌∷◌, u32, ◌==◌,
  if◌then◌else◌, set,
}
use actor_framework_cxx.State.{Slot, zeroed}
use mathlib.Core.Option

abbrev next_index : ℕ × Slot → ℕ × Slot
next_index (i, s) = (suc i, s)

-- `find_pending_ask`
unfoldable pub find_pending_ask : ℕ → List Slot → Option (ℕ × Slot)
find_pending_ask id [] = none
find_pending_ask id (s ∷ t) =
    if s.used && s.ask_id == id then some (0, s) else Option.map next_index (find_pending_ask id t)

-- `alloc_pending_ask`: the first slot that is not used.
unfoldable pub alloc_pending_ask : List Slot → Option ℕ
alloc_pending_ask [] = none
alloc_pending_ask (s ∷ t) = if s.used then Option.map suc (alloc_pending_ask t) else some 0

-- How the loop of `alloc_ask_id` ends.
pub data Search : Type 0 where
  found : ℕ → Search
  exhausted out_of_fuel : Search

abbrev is_found : Option (ℕ × Slot) → Bool
is_found none = false
is_found (some p) = true

-- The loop of `alloc_ask_id`, with `left` candidates still to check and `next_ask_id` at `n`; it
-- returns the new `next_ask_id` too.
unfoldable pub search_id : (fuel left : ℕ) → List Slot → ℕ → Search × ℕ
search_id zero left t n = (out_of_fuel, n)
search_id (suc f) left t n =
    let skip = search_id f left t (u32 (n + 1)) in
    let retry = search_id f (left - 1) t (u32 (n + 1)) in
    if left == 0
    then (exhausted, n)
    else if n == 0
    then skip
    else if is_found (find_pending_ask n t)
    then retry
    else (found n, u32 (n + 1))

-- `alloc_ask_id`. Of `limit` + 1 candidates in a row at most one is 0.
unfoldable pub alloc_ask_id : (limit : ℕ) → List Slot → ℕ → Search × ℕ
unfolding search_id
alloc_ask_id limit t n = search_id (limit + 2) limit t n

-- `memset(pending, 0, sizeof(*pending))` through what `find_pending_ask` returned, if not NULL.
unfoldable pub clear_found : Option (ℕ × Slot) → List Slot → List Slot
clear_found none t = t
clear_found (some (i, s)) t = set t i zeroed
