-- ===== src/Registry/Links.antt =====
-- The walk of `_ipc_actor_register_static` in src/ipc.c over the links themselves: `_ipc_actor_list` and
-- the `_next` of each actor, which the core's `actor_list` abstracts.
pub mod Walk
use actor_framework_cxx.Prelude.{ℕ, zero, suc, Option, none, some, ◌==◌, if◌then◌else◌}
use actor_framework_cxx.State.{update}

-- `_ipc_actor_list`, and the `_next` of each actor.
pub record Links : Type 0 where
  pub first : Option ℕ
  pub next : ℕ → Option ℕ

-- What a `struct ipc_actor **` points to: the list's head, or the link of an actor.
pub data Place : Type 0 where
  head : Place
  next_of : ℕ → Place

abbrev pub read : Place → Links → Option ℕ
read head s = s.first
read (next_of x) s = s.next x

abbrev pub write : Place → Option ℕ → Links → Links
write head o s = record s { first = o }
write (next_of x) o s = record s { next = update s.next x o }

-- A turn of the loop, or the two writes behind it; `go` is the rest of the loop from the next actor on.
unfoldable pub walk_step : (go : ℕ → Option Links) → Place → ℕ → Links → Option ℕ → Option Links
walk_step go pp a s none = some (write pp (some a) (write (next_of a) none s))
walk_step go pp a s (some x) = if x == a then some s else go x

-- The loop, with rounds for it to take; `none` when they are used up.
unfoldable pub walk : ℕ → Place → ℕ → Links → Option Links
unfolding walk_step
walk zero pp a s = none
walk (suc n) pp a s = walk_step (λ x. walk n (next_of x) a s) pp a s (read pp s)
