-- ===== src/Registry/Tables.antt =====
-- The tables of src/ipc.c as lists that grow at the end.
use actor_framework_cxx.Prelude.{
  ℕ, ◌≡◌, refl, ◌∙◌, true, false, ◌&&◌, ◌||◌, not, none, some, List, [], ◌∷◌, ◌++◌, Name, arith,
  ◌==◌, if◌then◌else◌,
}
use actor_framework_cxx.State.{Route, Binding}
use actor_framework_cxx.Delivery.{find_registered}
use actor_framework_cxx.Dispatch.{find_handler}
use actor_framework_cxx.Registry.{same_name, has_collision, has_route, has_subscription}

-- Each command has one route.
abbrev pub DistinctRoutes : List Route → Type 0
DistinctRoutes [] = Unit {0}
DistinctRoutes (r ∷ t) = (has_route r.msg_id t ≡ false) × DistinctRoutes t

-- Each actor subscribes to an event once.
abbrev pub DistinctSubscriptions : List Route → Type 0
DistinctSubscriptions [] = Unit {0}
DistinctSubscriptions (r ∷ t) =
    (has_subscription r.msg_id r.actor t ≡ false) × DistinctSubscriptions t

-- Each route leads to an actor that has a handler for the message.
abbrev pub Handled : List Binding → List Route → Type 0
Handled ht [] = Unit {0}
Handled ht (r ∷ t) = ((h : ℕ) × (find_handler r.actor r.msg_id ht ≡ some h)) × Handled ht t

-- No id of the first table stands under another name in the second.
abbrev pub Agree : List Route → List Route → Type 0
Agree [] ys = Unit {0}
Agree (r ∷ t) ys = (has_collision r.msg_id r.msg_name ys ≡ false) × Agree t ys

has_route-append :
    (id : ℕ) (t : List Route) (r : Route)
    → has_route id (t ++ (r ∷ [])) ≡ (has_route id t || r.msg_id == id)
unfolding has_route
has_route-append id [] r = ground arith
has_route-append id (x ∷ t) r = ground (arith, has_route-append id t r)

pub DistinctRoutes-append :
    (t : List Route) (r : Route)
    → DistinctRoutes t
    → has_route r.msg_id t ≡ false
    → DistinctRoutes (t ++ (r ∷ []))
unfolding has_route
DistinctRoutes-append [] r d n = (refl, tt)
DistinctRoutes-append (x ∷ t) r d n =
    ground (arith, has_route-append x.msg_id t r, DistinctRoutes-append t r d.1)

has_subscription-append :
    (id a : ℕ) (t : List Route) (r : Route)
    → has_subscription id a (t ++ (r ∷ []))
      ≡ (has_subscription id a t || (r.msg_id == id && r.actor == a))
unfolding has_subscription
has_subscription-append id a [] r = ground arith
has_subscription-append id a (x ∷ t) r = ground (arith, has_subscription-append id a t r)

pub DistinctSubscriptions-append :
    (t : List Route) (r : Route)
    → DistinctSubscriptions t
    → has_subscription r.msg_id r.actor t ≡ false
    → DistinctSubscriptions (t ++ (r ∷ []))
unfolding has_subscription
DistinctSubscriptions-append [] r d n = (refl, tt)
DistinctSubscriptions-append (x ∷ t) r d n =
    ground
      (arith, has_subscription-append x.msg_id x.actor t r, DistinctSubscriptions-append t r d.1)

-- A handler that is found stays the one that is found.
pub find_handler-append :
    (a id : ℕ) (ht : List Binding) (b : Binding)
    → find_handler a id (ht ++ (b ∷ [])) ≡ (elim (find_handler a id ht) [
      | some h ↦ some h
      | none ↦ if b.actor == a && b.msg_id == id then some b.handler else none
    ])
unfolding find_handler
find_handler-append a id [] b = refl
find_handler-append a id (x ∷ ht) b = ground (arith, find_handler-append a id ht b)

pub Handled-append_binding :
    (ht : List Binding) (b : Binding) (t : List Route) → Handled ht t → Handled (ht ++ (b ∷ [])) t
Handled-append_binding ht b [] w = tt
Handled-append_binding ht b (r ∷ t) ((h, e), w) =
    ((h, find_handler-append r.actor r.msg_id ht b ∙ rw e), Handled-append_binding ht b t w)

pub Handled-append :
    (ht : List Binding) (t : List Route) (r : Route) (h : ℕ)
    → Handled ht t
    → find_handler r.actor r.msg_id ht ≡ some h
    → Handled ht (t ++ (r ∷ []))
Handled-append ht [] r h w e = ((h, e), tt)
Handled-append ht (x ∷ t) r h w e = (w.0, Handled-append ht t r h w.1 e)

pub find_registered-append :
    (t : List Route) (r : Route)
    → has_route r.msg_id t ≡ false
    → find_registered r.msg_id (t ++ (r ∷ [])) ≡ some r.actor
unfolding has_route find_registered
find_registered-append [] r n = ground arith
find_registered-append (x ∷ t) r n = ground (arith, find_registered-append t r)

same_name_refl : (s : Name) → same_name s s ≡ true
unfolding same_name
same_name_refl [] = refl
same_name_refl (a ∷ s) = ground (arith, same_name_refl s)

same_name-sym : (s t : Name) → same_name s t ≡ same_name t s
unfolding same_name
same_name-sym [] [] = refl
same_name-sym [] (b ∷ t) = refl
same_name-sym (a ∷ s) [] = refl
same_name-sym (a ∷ s) (b ∷ t) = ground (arith, same_name-sym s t)

has_collision-append :
    (id : ℕ) (name : Name) (t : List Route) (r : Route)
    → has_collision id name (t ++ (r ∷ []))
      ≡ (has_collision id name t || (r.msg_id == id && not (same_name r.msg_name name)))
unfolding has_collision
has_collision-append id name [] r = ground arith
has_collision-append id name (x ∷ t) r = ground (arith, has_collision-append id name t r)

-- An entry that agrees with a table may be added on the other side of it.
pub Agree-append_right :
    (xs ys : List Route) (r : Route)
    → Agree xs ys
    → has_collision r.msg_id r.msg_name xs ≡ false
    → Agree xs (ys ++ (r ∷ []))
unfolding has_collision
Agree-append_right [] ys r w n = tt
Agree-append_right (x ∷ xs) ys r w n = ground (
  arith,
  has_collision-append x.msg_id x.msg_name ys r,
  same_name-sym x.msg_name r.msg_name,
  Agree-append_right xs ys r w.1,
)

pub Agree-append_left :
    (xs ys : List Route) (r : Route)
    → Agree xs ys
    → has_collision r.msg_id r.msg_name ys ≡ false
    → Agree (xs ++ (r ∷ [])) ys
Agree-append_left [] ys r w n = (n, tt)
Agree-append_left (x ∷ xs) ys r w n = (w.0, Agree-append_left xs ys r w.1 n)

-- An entry does not collide with itself.
pub has_collision-append_self :
    (t : List Route) (r : Route)
    → has_collision r.msg_id r.msg_name t ≡ false
    → has_collision r.msg_id r.msg_name (t ++ (r ∷ [])) ≡ false
has_collision-append_self t r n =
    ground (arith, has_collision-append r.msg_id r.msg_name t r, same_name_refl r.msg_name)
