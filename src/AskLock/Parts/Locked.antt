-- ===== src/AskLock/Parts/Locked.antt =====
-- The instructions that src/ipc.c runs between `lock_asks` and `unlock_asks`, by any threads in any
-- interleaving, and the functions of the core that stand for them.
use actor_framework_cxx.Prelude.{
  ℕ, ◌+◌, ◌≤◌, ◌≡◌, false, refl, sym, ap, subst, ◌∙◌, Option, none, some, List, [], ◌∷◌, ◌==◌, ◌&&◌,
  inl, inr, Bool-cases, Option-cases, arith, u32,
}
use actor_framework_cxx.State.{Slot, Msg, Config, Core, with_asks}
use actor_framework_cxx.Delivery.Frame.{SameAsks-refl}
use actor_framework_cxx.AskTable.{
  Search, found, exhausted, out_of_fuel, find_pending_ask, alloc_pending_ask, alloc_ask_id,
  clear_found,
}
use actor_framework_cxx.Ask.{
  drop_ask, new_slot, reserve_at, reserve_ask, cancel_found, claim_reply, claim_error,
  queue_timeout, unqueue_timeout, timeout_msg_id,
}
use actor_framework_cxx.Ask.Regions.{AsksValid}
use actor_framework_cxx.Dispatch.{take_found, take_callback}
use actor_framework_cxx.Interleaving.{Event, silent, Section, Schedule, start, next, drop_event}
use actor_framework_cxx.Interleaving as Sections
use actor_framework_cxx.Interleaving.Steps.{Schedule-Sound}
use actor_framework_cxx.AskLock.{Part, execute, Machine, Run, effect}
use actor_framework_cxx.AskLock.Atomic.{free-effect}
use actor_framework_cxx.AskLock.Parts.{
  Locals, own_only, draw_for, fill, reserve_part, Locking, asks, drops, cancels, replies, fails,
  queues, unqueues, takes, recounts, part, locked, parts, locked_all,
}

-- What a part does to the core, run as a whole.
abbrev result : Part Locals Core → Core → Core
result p c = (execute p.code (p.locals, c)).1

module _ (cfg : Config) where
  -- A cancellation by what `find_pending_ask` returned.
  result-cancel :
      (self id : ℕ) (c : Core) (o : Option (ℕ × Slot))
      → find_pending_ask id c.ask_table ≡ o
      → with_asks (clear_found (own_only self o) c.ask_table) c ≡ (cancel_found self id c o).1
  unfolding own_only clear_found cancel_found drop_ask
  result-cancel self id c none h = refl
  result-cancel self id c (some (i, s)) h = elim (Bool-cases (s.actor == self)) [
    | inl own ↦ rw own (ap (λ o. with_asks (clear_found o c.ask_table) c) (sym h))
    | inr other ↦ rw other refl
  ]

  module _ (slot : ℕ → Slot) (c : Core) where
    -- The writes of an ask, one after the other, by the slot and by the search for an id.
    fill-reserve_at :
        (i : ℕ) (r : Search × ℕ)
        → (reserve_at i slot r c).1 ≡ fill slot (some i) r.0 (record c { next_ask_id = r.1 })
    unfolding fill reserve_at
    fill-reserve_at i (found id, n) = refl
    fill-reserve_at i (exhausted, n) = refl
    fill-reserve_at i (out_of_fuel, n) = refl

    result-reserve : (reserve_ask cfg slot c).1 ≡ result (reserve_part cfg slot) c
    unfolding execute reserve_ask draw_for
    result-reserve = elim (Option-cases (alloc_pending_ask c.ask_table)) [
      | inl full ↦ unfold fill in rw (full, reserve_ask) refl
      | inr (i, room) ↦
          rw (room, reserve_ask)
            (fill-reserve_at i (alloc_ask_id cfg.max_inflight c.ask_table c.next_ask_id))
    ]

  -- The instructions of each part come to its function.
  result-locked : (o : Locking) (c : Core) → result (part cfg o) c ≡ locked cfg o c
  unfolding part locked execute drop_ask claim_reply claim_error queue_timeout unqueue_timeout
      take_callback
  result-locked (asks reply_id deadline self callback) c =
      sym (result-reserve (λ id. new_slot id reply_id deadline self callback) c)
  result-locked (drops id) c = refl
  result-locked (cancels self id) c = result-cancel self id c (find_pending_ask id c.ask_table) refl
  result-locked (replies m reply_id size) c = refl
  result-locked (fails m) c = refl
  result-locked (queues a id) c = refl
  result-locked (unqueues a id) c = refl
  result-locked (takes self m) c = refl
  result-locked (recounts next_id) c = refl

  effect-locked_all : (os : List Locking) (c : Core) → effect (parts cfg os) c ≡ locked_all cfg os c
  unfolding effect parts locked_all
  effect-locked_all [] c = refl
  effect-locked_all (o ∷ os) c =
      result-locked o (effect (parts cfg os) c) ∙ ap (locked cfg o) (effect-locked_all os c)

  -- Each function does to the asks what a step of a schedule does.
  abbrev IsStep : Core → Core → Type 0
  IsStep c c' = (e : Event) × Section cfg c e c'

  unchanged : (c : Core) → IsStep c c
  unchanged c = (silent, Sections.elsewhere c c (SameAsks-refl c))

  cancel_found-IsStep :
      (self id : ℕ) (c : Core) (o : Option (ℕ × Slot)) → IsStep c (cancel_found self id c o).1
  unfolding cancel_found
  cancel_found-IsStep self id c none = unchanged c
  cancel_found-IsStep self id c (some (i, s)) = elim (Bool-cases (s.actor == self)) [
    | inl own ↦ rw own (_, Sections.drops id c)
    | inr other ↦ rw other (unchanged c)
  ]

  take_found-IsStep :
      (self : ℕ) (m : Msg) (c : Core) (o : Option (ℕ × Slot)) → IsStep c (take_found self m c o).1
  unfolding take_found
  take_found-IsStep self m c none = unchanged c
  take_found-IsStep self m c (some (i, s)) =
      elim (Bool-cases (m.id == timeout_msg_id && s.actor == self && s.timeout_queued)) [
        | inl late ↦ rw late (_, Sections.drops m.ask_id c)
        | inr other ↦ elim (Bool-cases (s.actor == self && s.reply_id == m.id)) [
          | inl answers ↦ rw (other, answers) (_, Sections.drops m.ask_id c)
          | inr neither ↦ rw (other, neither) (unchanged c)
        ]
      ]

  locked-IsStep : (o : Locking) (c : Core) → IsStep c (locked cfg o c)
  unfolding locked take_callback
  locked-IsStep (asks reply_id deadline self callback) c =
      (_, Sections.reserves reply_id deadline self callback c)
  locked-IsStep (drops id) c = (_, Sections.drops id c)
  locked-IsStep (cancels self id) c =
      cancel_found-IsStep self id c (find_pending_ask id c.ask_table)
  locked-IsStep (replies m reply_id size) c = (_, Sections.claims m reply_id size c)
  locked-IsStep (fails m) c = (_, Sections.fails m c)
  locked-IsStep (queues a id) c = (_, Sections.queues a id c)
  locked-IsStep (unqueues a id) c = (_, Sections.unqueues a id c)
  locked-IsStep (takes self m) c =
      take_found-IsStep self m c (find_pending_ask m.ask_id c.ask_table)
  locked-IsStep (recounts next_id) c = (_, Sections.recounts (u32 next_id) c (omega arith))

  locked_all-Schedule :
      (os : List Locking) (c : Core) → (es : List Event) × Schedule cfg c es (locked_all cfg os c)
  unfolding locked_all
  locked_all-Schedule [] c = ([], start c)
  locked_all-Schedule (o ∷ os) c =
      let (es, r) = locked_all-Schedule os c in
      let (e, t) = locked-IsStep o (locked_all cfg os c) in
      (e ∷ es, next c (locked_all cfg os c) (locked cfg o (locked_all cfg os c)) es e r t)

  -- Whatever the threads take the lock for, and however their instructions are interleaved: when the flag
  -- is clear, the core is what the functions of the model leave that stand for these parts, one after the
  -- other in the order in which the lock was taken. They are a schedule of locked parts, and the ask
  -- table is valid if it was at the start and has less than 2 ^ 32 - 1 slots.
  pub lock-Schedule :
      cfg.max_inflight + 2 ≤ 4294967296
      → (os : List Locking) {c : Core} {y : Machine Locals Core} → Run c (parts cfg os) y
      → AsksValid cfg c
      → y.flag ≡ false
      → (y.guarded ≡ locked_all cfg os c)
        × (es : List Event) × Schedule cfg c es y.guarded
        × AsksValid cfg y.guarded
  lock-Schedule hl os {c} {y} r v clear =
      let same = free-effect r clear ∙ effect-locked_all os c in
      let (es, t) = locked_all-Schedule os c in
      let t' = subst (Schedule cfg c es) (sym same) t in
      (same, es, t', (Schedule-Sound cfg hl c y.guarded es t' v).0)
