-- ===== src/ZephyrPort/Timeouts/Valid.antt =====
-- The pool of ask timeouts in src/port/zephyr/zephyr_ipc_port.c: a timeout is used as long as its work
-- item is scheduled, so none is scheduled twice.
use mathlib.Core.Option
use actor_framework_cxx.Prelude.{
  ℕ, zero, suc, ◌+◌, ◌<◌, ◌≡◌, ◌≢◌, ==_refl, ==→eq, refl, sym, inl, inr, ap, ◌∙◌, Bool, true, false,
  Option, none, some, List, [], ◌∷◌, length, get_or, set, length-set, Bool-cases, ◌==◌,
  if◌then◌else◌, arith,
}
use actor_framework_cxx.Ring.{get_or-set_self, get_or-set_ne}
use actor_framework_cxx.State.{Rc, ok, err, enomem, update}
use actor_framework_cxx.ZephyrPort.Timeouts.{
  Timeout, unused, find_unused, Pool, schedule_at, schedule_timeout, timeout_fires,
}

-- Whether the timeout at a place is used.
abbrev pub used_at : Pool → ℕ → Bool
used_at p i = (get_or p.timeouts i unused).used

-- A work item is scheduled once where its timeout is used, and not at all elsewhere.
abbrev pub PoolValid : Pool → Type 0
PoolValid p = (i : ℕ) → p.scheduled i ≡ (if used_at p i then 1 else 0)

-- What the search for an unused timeout finds.
pub data Found (l : List Timeout) : Option ℕ → Type 0 where
  found :
      (i : ℕ)
      → i < length l
      → (get_or l i unused).used ≡ false
      → ((j : ℕ) → j < i → (get_or l j unused).used ≡ true)
      → Found l (some i)
  nothing : ((j : ℕ) → j < length l → (get_or l j unused).used ≡ true) → Found l none

Found-step :
    (t : Timeout) (l : List Timeout) (o : Option ℕ) (b : Bool)
    → t.used ≡ b
    → Found l o
    → Found (t ∷ l) (if b then Option.map suc o else some 0)
Found-step t l o false h f = found 0 (omega arith) h (λ j k. absurd (omega (arith, k)))
Found-step t l o true h (found i b e before) = found (suc i) (omega arith) e front
  where
    front : (j : ℕ) → j < suc i → (get_or (t ∷ l) j unused).used ≡ true
    front zero k = h
    front (suc j) k = before j (omega (arith, k))
Found-step t l o true h (nothing all) = nothing front
  where
    front : (j : ℕ) → j < suc (length l) → (get_or (t ∷ l) j unused).used ≡ true
    front zero k = h
    front (suc j) k = all j (omega (arith, k))

pub find_unused-Found : (l : List Timeout) → Found l (find_unused l)
unfolding find_unused
find_unused-Found [] = nothing (λ j k. absurd (omega (arith, k)))
find_unused-Found (t ∷ l) = Found-step t l (find_unused l) t.used refl (find_unused-Found l)

pub ==-ne : (i j : ℕ) → (j == i) ≡ false → i ≢ j
==-ne i j h e = ground (arith, h, e)

pub ne-== : (i j : ℕ) → j ≢ i → (j == i) ≡ false
ne-== i j h = elim (Bool-cases (j == i)) [ inl s ↦ absurd (h (==→eq j i s)) | inr o ↦ o ]

-- The pool with one timeout and the schedule of its work item written anew is valid where the two agree.
pub written-PoolValid :
    (p : Pool) (i n : ℕ) (t : Timeout)
    → PoolValid p
    → i < length p.timeouts
    → n ≡ (if t.used then 1 else 0)
    → PoolValid (record { timeouts = set p.timeouts i t; scheduled = update p.scheduled i n })
written-PoolValid p i n t v l e j =
    let once : Timeout → ℕ = λ x. if x.used then 1 else 0 in
    elim (Bool-cases (j == i)) [
      | inl s ↦ rw s (
          e
          ∙ ap once (sym (get_or-set_self unused p.timeouts i t l))
          ∙ ap (λ k. once (get_or (set p.timeouts i t) k unused)) (sym (==→eq j i s)))
      | inr o ↦ rw o (v j ∙ ap once (sym (get_or-set_ne unused p.timeouts i j t (==-ne i j o))))
    ]

-- What `schedule_timeout` can give.
pub data Scheduled (a id : ℕ) (p : Pool) (r : Rc × Pool) : Type 0 where
  armed :
      (i : ℕ)
      → r.0 ≡ ok
      → i < length p.timeouts
      → p.scheduled i ≡ 0
      → r.1.scheduled i ≡ 1
      → get_or r.1.timeouts i unused ≡ record { used = true; actor = a; ask_id = id }
      → ((j : ℕ)
          → j ≢ i
          → (get_or r.1.timeouts j unused ≡ get_or p.timeouts j unused)
            × (r.1.scheduled j ≡ p.scheduled j))
      → length r.1.timeouts ≡ length p.timeouts
      → Scheduled a id p r
  exhausted :
      r ≡ (err enomem, p)
      → ((i : ℕ) → i < length p.timeouts → p.scheduled i ≡ 1)
      → Scheduled a id p r

schedule_at-Scheduled :
    (a id : ℕ) (p : Pool) (o : Option ℕ)
    → PoolValid p
    → Found p.timeouts o
    → Scheduled a id p (schedule_at a id p o) × PoolValid (schedule_at a id p o).1
unfolding schedule_at
schedule_at-Scheduled a id p none v (nothing all) =
    (exhausted refl (λ i l. v i ∙ ap (λ b. if b then 1 else 0) (all i l)), v)
schedule_at-Scheduled a id p (some i) v (found _ l f before) =
    let t : Timeout = record { used = true; actor = a; ask_id = id } in
    let z : p.scheduled i ≡ 0 = v i ∙ ap (λ b. if b then 1 else 0) f in
    (
      armed i refl l z (rw (==_refl i) (omega (arith, z))) (get_or-set_self unused p.timeouts i t l)
          (λ j n. (get_or-set_ne unused p.timeouts i j t (λ e. n (sym e)), rw (ne-== i j n) refl))
          (length-set p.timeouts i t),
      written-PoolValid p i (p.scheduled i + 1) t v l (omega (arith, z)),
    )

-- Scheduling the timeout of an ask, where the scheduled work items are those of the used timeouts: a
-- timeout whose work item is not scheduled is filled with the actor and the ask, its work item is
-- scheduled once, and the others are as before; or it is refused with -ENOMEM, only where the work item
-- of each timeout is scheduled, and the pool is as before. The two agree again.
pub schedule_timeout-Scheduled :
    (a id : ℕ) (p : Pool)
    → PoolValid p
    → let r = schedule_timeout a id p in Scheduled a id p r × PoolValid r.1
unfolding schedule_timeout
schedule_timeout-Scheduled a id p v =
    schedule_at-Scheduled a id p (find_unused p.timeouts) v (find_unused-Found p.timeouts)

pub timeout_fires-PoolValid :
    (i : ℕ) (p : Pool) → PoolValid p → i < length p.timeouts → PoolValid (timeout_fires i p).1
unfolding timeout_fires
timeout_fires-PoolValid i p v l =
    written-PoolValid p i 0 (record (get_or p.timeouts i unused) { used = false }) v l refl
