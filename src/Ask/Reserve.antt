-- ===== src/Ask/Reserve.antt =====
-- The first locked part of `ipc_ask_with_id_raw` in src/ipc.c.
use actor_framework_cxx.Prelude.{
  ℕ, ◌⊎◌, inl, inr, Option-cases, ◌+◌, ◌<◌, ◌≤◌, ◌≡◌, refl, ◌∙◌, ap, true, none, some, arith, ◌==◌,
  if◌then◌else◌, set, length-set, u32,
}
use actor_framework_cxx.State.{Slot, Config, Core}
use actor_framework_cxx.AskTable.{Search, found, alloc_pending_ask, alloc_ask_id}
use actor_framework_cxx.AskTable.Alloc.{
  count_used, alloc-some, alloc-none, lookup-alloc, alloc-IsValid,
}
use actor_framework_cxx.AskTable.Fresh.{alloc_ask_id-IsFresh}
use actor_framework_cxx.Ask.{reserve_ask, reserve_at}
use actor_framework_cxx.Ask.Regions.{pending, AsksValid}

-- What a successful reservation of a slot under `id` does.
pub record Reserved (cfg : Config) (slot : ℕ → Slot) (c c' : Core) (id : ℕ) : Type 0 where
  pub fresh : pending id c ≡ none
  pub positive : 0 < id
  pub bounded : id < 4294967296
  pub adds : (j : ℕ) → pending j c' ≡ (if id == j then some (slot id) else pending j c)
  pub valid : AsksValid cfg c'
  pub actors : c'.actors ≡ c.actors

reserve_at-found :
    (i id n : ℕ) (slot : ℕ → Slot) (r : Search × ℕ) (c : Core)
    → r.0 ≡ found id
    → r.1 ≡ n
    → reserve_at i slot r c
      ≡ (some id, record c { ask_table = set c.ask_table i (slot id); next_ask_id = n })
unfolding reserve_at
reserve_at-found i id n slot (s, m) c e q = ground arith

module _ (cfg : Config) (c : Core) (v : AsksValid cfg c) (hl : cfg.max_inflight + 2 ≤ 4294967296)
    (slot : ℕ → Slot) (hu : (id : ℕ) → (slot id).used ≡ true)
    (hi : (id : ℕ) → (slot id).ask_id ≡ id) where
  reserve_at-Reserved :
      (i id : ℕ)
      → alloc_pending_ask c.ask_table ≡ some i
      → pending id c ≡ none
      → 0 < id
      → id < 4294967296
      → Reserved cfg slot c
          (record c { ask_table = set c.ask_table i (slot id); next_ask_id = u32 (id + 1) })
          id
  reserve_at-Reserved i id room fresh positive bounded = record {
    fresh = fresh;
    positive = positive;
    bounded = bounded;
    adds = λ j.
        lookup-alloc j c.ask_table i (slot id) room (hu id) (rw (hi id) fresh)
        ∙ ap (λ k. if k == j then some (slot id) else pending j c) (hi id);
    valid = record {
      table =
          alloc-IsValid c.ask_table i (slot id) room (hu id) (rw (hi id) fresh)
            (rw (hi id) positive) (rw (hi id) bounded) v.table;
      size = length-set c.ask_table i (slot id) ∙ v.size;
      counter = omega arith;
    };
    actors = refl;
  }

  -- Reserving ends in a full table and nothing done, or in one more pending ask.
  pub reserve_ask-cases :
      ((reserve_ask cfg slot c ≡ (none, c)) × (count_used c.ask_table ≡ cfg.max_inflight))
      ⊎ ((id : ℕ) × (c' : Core) × (reserve_ask cfg slot c ≡ (some id, c'))
          × Reserved cfg slot c c' id)
  unfolding reserve_ask
  reserve_ask-cases = elim (Option-cases (alloc_pending_ask c.ask_table)) [
    | inl full ↦ inl (rw (full, reserve_ask), alloc-none c.ask_table full ∙ v.size)
    | inr (i, room) ↦
        let r = alloc_ask_id cfg.max_inflight c.ask_table c.next_ask_id in
        let (id, e, fresh, positive, bounded, next) =
          alloc_ask_id-IsFresh cfg.max_inflight c.ask_table c.next_ask_id hl v.counter v.table
            (omega (arith, alloc-some c.ask_table i room, v.size)) in
        inr (
          id,
          record c { ask_table = set c.ask_table i (slot id); next_ask_id = u32 (id + 1) },
          rw (room, reserve_ask) (reserve_at-found i id (u32 (id + 1)) slot r c e next),
          reserve_at-Reserved i id room fresh positive bounded,
        )
  ]
