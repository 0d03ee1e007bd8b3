-- ===== src/Delivery/Publish.antt =====
-- `ipc_publish_raw` of src/ipc.c against its contract: one delivery to each subscriber.
use actor_framework_cxx.Prelude.{
  ℕ, ◌≡◌, ◌∙◌, ap, Bool-cases, inl, inr, true, some, List, [], ◌∷◌, arith, ◌==◌, if◌then◌else◌,
}
use actor_framework_cxx.State.{Rc, ok, is_zero, event, Payload, Msg, Route, World, on_core}
use actor_framework_cxx.Interface.{Port}
use actor_framework_cxx.Descriptor.{ensure_id, valid_descriptor, make_msg}
use actor_framework_cxx.Delivery.{publish_to, keep_first, publish_turn, publish_loop, publish}

-- The actors that subscribed to an id, in the order in which they did.
pub subscribers : ℕ → List Route → List ℕ
subscribers id [] = []
subscribers id (s ∷ t) =
    let rest = subscribers id t in if s.msg_id == id then s.actor ∷ rest else rest

-- 0, or the first other result.
pub first_error : List Rc → Rc
first_error [] = ok
first_error (rc ∷ t) = if is_zero rc then first_error t else rc

module _ {P : Type 0} (port : Port P) where
  -- One delivery after the other, whatever their results.
  unfoldable pub publish_each : Msg → List ℕ → World P → List Rc × World P
  publish_each m [] w = ([], w)
  publish_each m (a ∷ t) w =
      let (rc, w') = publish_to port a m w in
      let (rcs, w'') = publish_each m t w' in (rc ∷ rcs, w'')

  keep_first_lem :
      (first rc e : Rc)
      → (if is_zero (keep_first port first rc) then e else keep_first port first rc)
        ≡ (if is_zero first then if is_zero rc then e else rc else first)
  keep_first_lem first rc e = ground arith

  publish_loop-each :
      (m : Msg) (id : ℕ) (t : List Route) (first : Rc) (w : World P)
      → let (rcs, w') = publish_each m (subscribers id t) w in
        publish_loop port m id t first w ≡ (if is_zero first then first_error rcs else first, w')
  unfolding publish_loop publish_each subscribers first_error
  publish_loop-each m id [] first w = ground arith
  publish_loop-each m id (s ∷ t) first w = elim (Bool-cases (s.msg_id == id)) [
    | inl hit ↦
        let (rc, w') = publish_to port s.actor m w in
        rw (hit, publish_turn)
          (publish_loop-each m id t (keep_first port first rc) w'
            ∙ ap (λ (r : Rc). (r, (publish_each m (subscribers id t) w').1))
                (keep_first_lem first rc (first_error (publish_each m (subscribers id t) w').0)))
    | inr miss ↦ rw (miss, publish_turn) (publish_loop-each m id t first w)
  ]

  -- Publishing an event makes one delivery to each subscriber of its id, in the order in which they
  -- subscribed, also after a delivery failed, and returns the first result that is not 0, or 0. The
  -- descriptor is a valid event.
  pub publish_lem :
      (d : ℕ) (payload : Payload) (w : World P)
      → valid_descriptor (some d) event w.core ≡ true
      → let w1 = on_core (ensure_id d) w in
        let x = w1.core.descs d in
        let m = record (make_msg x payload) { kind = event } in
        let (rcs, w2) = publish_each m (subscribers x.id w1.core.sub_table) w1 in
        publish port (some d) payload w ≡ (first_error rcs, w2)
  unfolding publish
  publish_lem d payload w h =
      let w1 = on_core (ensure_id d) w in
      let x = w1.core.descs d in
      rw h (
        publish_loop-each (record (make_msg x payload) { kind = event }) x.id w1.core.sub_table ok
          w1)
