-- ===== src/Tests/Links.antt =====
-- The walk of `_ipc_actor_register_static` in src/ipc.c over the links of two actors, for a third.
use actor_framework_cxx.Prelude.{◌≡◌, refl, none, some, [], ◌∷◌, ◌==◌, if◌then◌else◌, arith}
use actor_framework_cxx.Registry.{is_listed, append_actor}
use actor_framework_cxx.Registry.Links.{Links, head, next_of, walk}
use actor_framework_cxx.Registry.Links.Walk.{Chain, ends, leads, Kept, walk-append_actor}
use actor_framework_cxx.Tests.{running_core}

-- Actor 0 before actor 1.
abbrev two_linked : Links
two_linked = record { first = some 0; next = λ x. if x == 0 then some 1 else none }

two_linked-Chain : Chain two_linked head (0 ∷ 1 ∷ [])
two_linked-Chain = leads head 0 (1 ∷ []) refl (leads (next_of 0) 1 [] refl (ends (next_of 1) refl))

walk-append_actor_example :
    (s' : Links) × (walk 3 head 2 two_linked ≡ some s')
    × Chain s' head (0 ∷ 1 ∷ 2 ∷ [])
    × Kept 2 two_linked s'
unfolding append_actor is_listed
walk-append_actor_example =
    walk-append_actor 2 3 running_core two_linked (omega arith) two_linked-Chain
