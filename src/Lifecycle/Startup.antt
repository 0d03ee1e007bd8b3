-- ===== src/Lifecycle/Startup.antt =====
-- `ipc_start_all_actors` of src/ipc.c: what a start that fails leaves behind.
use actor_framework_cxx.Prelude.{
  ℕ, ◌≡◌, ◌∙◌, ap, true, false, Option, none, some, List, [], ◌∷◌, ◌++◌, arith, ◌==◌, ==_refl,
  append_assoc,
}
use actor_framework_cxx.State.{Rc, ok, is_zero, running, stopping, is_stopped, World, on_core}
use actor_framework_cxx.Interface.{Port, App}
use actor_framework_cxx.Lifecycle.{
  set_lifecycle, stop_one, stop_list, stop_through, fail_start, start_one, start_list,
  start_all_actors,
}

-- No actor of the list is `a`.
abbrev pub Absent : ℕ → List ℕ → Type 0
Absent a [] = Unit {0}
Absent a (b ∷ t) = (b == a ≡ false) × Absent a t

module _ {P : Type 0} (port : Port P) (app : App P) where
  -- `stop_actors_through` stops the actors up to the first that is `last`, and no other.
  stop_through-split :
      (pre : List ℕ) (last : ℕ) (post : List ℕ) (w : World P)
      → Absent last pre
      → stop_through port app last (pre ++ (last ∷ post)) w
        ≡ stop_list port app (pre ++ (last ∷ [])) w
  unfolding stop_through stop_list
  stop_through-split [] last post w h = rw (==_refl last)
  stop_through-split (a ∷ pre) last post w h =
      rw h.0 (stop_through-split pre last post (stop_one port app a w) h.1)

  -- The start of a list of actors of which none fails.
  unfoldable pub Starts : Option ℕ → List ℕ → World P → Option ℕ → World P → Type 0
  Starts last [] w last' w' = (last ≡ last') × (w ≡ w')
  Starts last (a ∷ t) w last' w' =
      let (rc, l, w1) = start_one port app last a w in (rc ≡ ok) × Starts l t w1 last' w'

  start_list-Starts :
      (pre post : List ℕ) (last last' : Option ℕ) (w w' : World P)
      → Starts last pre w last' w'
      → start_list port app last (pre ++ post) w ≡ start_list port app last' post w'
  unfolding Starts start_list
  start_list-Starts [] post last last' w w' (e, q) = cc
  start_list-Starts (a ∷ pre) post last last' w w' (z, s) =
      let (rc, l, w1) = start_one port app last a w in
      rw z (start_list-Starts pre post l last' w1 w' s)

  -- After a successful start of one actor at least, the last of them counts as the last started.
  Starts-last :
      (pre : List ℕ) (b : ℕ) (last last' : Option ℕ) (w w' : World P)
      → Starts last (pre ++ (b ∷ [])) w last' w'
      → last' ≡ some b
  unfolding Starts start_one
  Starts-last [] b last last' w w' (z, (e, q)) = ground arith
  Starts-last (a ∷ pre) b last last' w w' (z, s) =
      let (rc, l, w1) = start_one port app last a w in Starts-last pre b l last' w1 w' s

  -- The start of all fails behind the actors `done`.
  failed_behind :
      (w w1 w2 : World P) (done post : List ℕ) (a : ℕ) (last last' : Option ℕ) (rc : Rc)
      → is_stopped w.core.lifecycle ≡ true
      → w.core.actor_list ≡ done ++ (a ∷ post)
      → Starts none done (on_core (set_lifecycle running) w) last w1
      → start_one port app last a w1 ≡ (rc, last', w2)
      → is_zero rc ≡ false
      → start_all_actors port app w ≡ fail_start port app rc last' w2
  unfolding start_all_actors start_list
  failed_behind w w1 w2 done post a last last' rc h l s e z = rw h (
      ap (λ k. start_list port app none k (on_core (set_lifecycle running) w)) l
      ∙ start_list-Starts done (a ∷ post) none last (on_core (set_lifecycle running) w) w1 s
      ∙ rw (e, z))

  -- Where an actor's port resources are ready but its thread does not start, the start returns that
  -- error, and stops the actors started before it and that actor, each once and in the order of the
  -- list, and no other; the framework is stopping then. The start is made while stopped, the actors
  -- before it start, it is none of them, and the list of actors does not change.
  pub thread_failure_rolls_back :
      (w w1 w2 : World P) (done post : List ℕ) (a : ℕ) (last : Option ℕ) (rc : Rc)
      → is_stopped w.core.lifecycle ≡ true
      → w.core.actor_list ≡ done ++ (a ∷ post)
      → w2.core.actor_list ≡ done ++ (a ∷ post)
      → Absent a done
      → Starts none done (on_core (set_lifecycle running) w) last w1
      → start_one port app last a w1 ≡ (rc, some a, w2)
      → is_zero rc ≡ false
      → start_all_actors port app w
        ≡ (rc, on_core (set_lifecycle stopping) (stop_list port app (done ++ (a ∷ [])) w2))
  unfolding fail_start
  thread_failure_rolls_back w w1 w2 done post a last rc h l l2 n s e z =
      failed_behind w w1 w2 done post a last (some a) rc h l s e z
      ∙ ap (λ (u : World P). (rc, on_core (set_lifecycle stopping) u))
          (ap (λ k. stop_through port app a k w2) l2 ∙ stop_through-split done a post w2 n)

  -- Where the port resources of an actor cannot be made ready, the start returns that error and stops
  -- exactly the actors started before it, each once and in the order of the list: that actor has
  -- nothing to stop. The framework is stopping then. The start is made while stopped, the actors
  -- before it start, the last of them comes once among them, and the list of actors does not change.
  pub init_failure_rolls_back :
      (w w1 w2 : World P) (done post : List ℕ) (b a : ℕ) (last : Option ℕ) (rc : Rc)
      → is_stopped w.core.lifecycle ≡ true
      → w.core.actor_list ≡ (done ++ (b ∷ [])) ++ (a ∷ post)
      → w2.core.actor_list ≡ (done ++ (b ∷ [])) ++ (a ∷ post)
      → Absent b done
      → Starts none (done ++ (b ∷ [])) (on_core (set_lifecycle running) w) last w1
      → port.actor_init a w1 ≡ (rc, w2)
      → is_zero rc ≡ false
      → start_all_actors port app w
        ≡ (rc, on_core (set_lifecycle stopping) (stop_list port app (done ++ (b ∷ [])) w2))
  unfolding fail_start
  init_failure_rolls_back w w1 w2 done post b a last rc h l l2 n s e z =
      failed_behind w w1 w2 (done ++ (b ∷ [])) post a last last rc h l s (unready last) z
      ∙ ap (λ (o : Option ℕ). fail_start port app rc o w2)
          (Starts-last done b none last (on_core (set_lifecycle running) w) w1 s)
      ∙ ap (λ (u : World P). (rc, on_core (set_lifecycle stopping) u))
          (ap (λ k. stop_through port app b k w2) (l2 ∙ append_assoc done (b ∷ []) (a ∷ post))
            ∙ stop_through-split done b (a ∷ post) w2 n)
    where
      unready : (last : Option ℕ) → start_one port app last a w1 ≡ (rc, last, w2)
      unready last = unfold start_one in rw (e, z)
