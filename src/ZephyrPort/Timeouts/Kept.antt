-- ===== src/ZephyrPort/Timeouts/Kept.antt =====
-- The pool of ask timeouts in src/port/zephyr/zephyr_ipc_port.c over time: what other asks and other
-- timers do between the schedule of a timeout and its end.
use actor_framework_cxx.Prelude.{
  ℕ, ◌<◌, ◌≡◌, ◌≢◌, ◌+◌, some, List, ◌∙◌, refl, sym, ap, subst, true, false, length, length-set,
  if◌then◌else◌, get_or, arith,
}
use actor_framework_cxx.State.{ok}
use actor_framework_cxx.Ring.{get_or-set_self, get_or-set_ne}
use actor_framework_cxx.ZephyrPort.Timeouts.{
  Timeout, unused, find_unused, Pool, schedule_at, schedule_timeout, timeout_fires,
}
use actor_framework_cxx.ZephyrPort.Timeouts.Valid.{
  PoolValid, used_at, Found, found, find_unused-Found, written-PoolValid, armed, exhausted,
  schedule_timeout-Scheduled, timeout_fires-PoolValid,
}

-- What happens to the pool meanwhile: asks schedule timeouts, and the timers of other timeouts than the
-- one at `i` end.
pub data Meanwhile (i : ℕ) : Pool → Pool → Type 0 where
  done : (p : Pool) → Meanwhile i p p
  schedules : (a id : ℕ) (p q : Pool) → Meanwhile i (schedule_timeout a id p).1 q → Meanwhile i p q
  fires :
      (j : ℕ) (p q : Pool)
      → j ≢ i
      → j < length p.timeouts
      → Meanwhile i (timeout_fires j p).1 q
      → Meanwhile i p q

-- The timeout at a place stands for an ask of an actor.
abbrev pub Holds : (i a id : ℕ) → Pool → Type 0
Holds i a id p =
    PoolValid p
    × (i < length p.timeouts)
    × (get_or p.timeouts i unused ≡ record { used = true; actor = a; ask_id = id })

Holds-used : (i a id : ℕ) (p : Pool) → Holds i a id p → p.scheduled i ≡ 1
Holds-used i a id p h = h.0 i ∙ ap (λ (t : Timeout). if t.used then 1 else 0) h.2

schedule-Holds :
    (i a id b k : ℕ) (p : Pool) → Holds i a id p → Holds i a id (schedule_timeout b k p).1
schedule-Holds i a id b k p h =
    let r = schedule_timeout-Scheduled b k p h.0 in
    let busy = Holds-used i a id p h in
    elim r.0 [
      | exhausted e all ↦ subst (λ q. Holds i a id q) (sym (ap (λ x. x.1) e)) h
      | armed j e l z one t others n ↦
          let apart : i ≢ j = λ q. absurd (omega (arith, busy, z, ap p.scheduled q)) in
          (r.1, omega (arith, n, h.1), (others i apart).0 ∙ h.2)
    ]

fires-Holds :
    (i a id j : ℕ) (p : Pool)
    → j ≢ i
    → j < length p.timeouts
    → Holds i a id p
    → Holds i a id (timeout_fires j p).1
unfolding timeout_fires
fires-Holds i a id j p n l h =
    let t = get_or p.timeouts j unused in
    (
      timeout_fires-PoolValid j p h.0 l,
      omega (arith, h.1, length-set p.timeouts j (record t { used = false })),
      get_or-set_ne unused p.timeouts j i (record t { used = false }) n ∙ h.2,
    )

Meanwhile-Holds : (i a id : ℕ) (p q : Pool) → Meanwhile i p q → Holds i a id p → Holds i a id q
Meanwhile-Holds i a id p _ (done _) h = h
Meanwhile-Holds i a id p q (schedules b k _ _ m) h =
    Meanwhile-Holds i a id (schedule_timeout b k p).1 q m (schedule-Holds i a id b k p h)
Meanwhile-Holds i a id p q (fires j _ _ n l m) h =
    Meanwhile-Holds i a id (timeout_fires j p).1 q m (fires-Holds i a id j p n l h)

found-free :
    (l : List Timeout) (i : ℕ)
    → Found l (some i)
    → (i < length l) × ((get_or l i unused).used ≡ false)
found-free l i (found _ h e before) = (h, e)

armed-Holds :
    (i a id : ℕ) (p : Pool)
    → PoolValid p
    → find_unused p.timeouts ≡ some i
    → ((schedule_timeout a id p).0 ≡ ok) × Holds i a id (schedule_timeout a id p).1
unfolding schedule_timeout schedule_at
armed-Holds i a id p v e =
    let f = found-free p.timeouts i (subst (Found p.timeouts) e (find_unused-Found p.timeouts)) in
    let t : Timeout = record { used = true; actor = a; ask_id = id } in
    let z : p.scheduled i ≡ 0 = v i ∙ ap (λ b. if b then 1 else 0) f.1 in
    subst (λ o. ((schedule_at a id p o).0 ≡ ok) × Holds i a id (schedule_at a id p o).1) (sym e)
      (
        refl,
        (
          written-PoolValid p i (p.scheduled i + 1) t v f.0 (omega (arith, z)),
          omega (arith, f.0, length-set p.timeouts i t),
          get_or-set_self unused p.timeouts i t f.0,
        ),
      )

-- Where the search finds an unused timeout, it is scheduled for the ask of the actor; after any sequence
-- of other schedules and of ends of other timeouts it is still scheduled once; and when it ends then,
-- it ends for that actor and that ask, and its place is free again. The work items scheduled at the
-- start are those of the used timeouts.
pub timeout_kept :
    (i a id : ℕ) (p q : Pool)
    → PoolValid p
    → find_unused p.timeouts ≡ some i
    → Meanwhile i (schedule_timeout a id p).1 q
    → ((schedule_timeout a id p).0 ≡ ok)
      × (q.scheduled i ≡ 1)
      × ((timeout_fires i q).0 ≡ (a, id))
      × (used_at (timeout_fires i q).1 i ≡ false)
unfolding timeout_fires
timeout_kept i a id p q v e m =
    let r = armed-Holds i a id p v e in
    let h = Meanwhile-Holds i a id (schedule_timeout a id p).1 q m r.1 in
    (
      r.0,
      Holds-used i a id q h,
      ap (λ (t : Timeout). (t.actor, t.ask_id)) h.2,
      ap (λ (t : Timeout). t.used)
          (get_or-set_self unused q.timeouts i
            (record (get_or q.timeouts i unused) { used = false }) h.1),
    )
