-- ===== src/Dispatch/RoundTrip.antt =====
-- An ask of src/ipc.c from its request to its callback, over any port that leaves the core alone.
use mathlib.Core.Option.{some-injective}
use actor_framework_cxx.Prelude.{
  ℕ, inl, inr, ◌+◌, ◌<◌, ◌≤◌, ◌≡◌, refl, sym, ap, ◌∙◌, ==_refl, true, Option, some, arith,
}
use actor_framework_cxx.State.{ok, Payload, Msg, Slot, Config, Core, World}
use actor_framework_cxx.Interface.{Port, Isolated, to_callback}
use actor_framework_cxx.Ask.Regions.{pending, AsksValid}
use actor_framework_cxx.Ask.Request.{ask_with_id}
use actor_framework_cxx.Ask.Request.Outcome.{Asked, ask_with_id-Asked}
use actor_framework_cxx.Ask.Reply.{reply}
use actor_framework_cxx.History.Asking.{ask_with_id-AsksValid}
use actor_framework_cxx.Ask.Reply.Claims.{sent}
use actor_framework_cxx.Ask.Reply.Once.{Answered, reply-Answered}
use actor_framework_cxx.Dispatch.{dispatch}
use actor_framework_cxx.Dispatch.Callbacks.{ends, dispatch-some}

module _ {P : Type 0} (cfg : Config) (port : Port P) (iso : Isolated port) where
  -- The slot that an answer of an ask leaves.
  Answered-slot :
      (m : Msg) (c : Core) (s : Slot) (w : World P)
      → Answered m c (ok, w)
      → pending m.ask_id c ≡ some s
      → (pending m.ask_id w.core ≡ some (sent s)) × (s.reply_id ≡ m.reply_id)
  Answered-slot m c s w (inl (z, s', p, n, e, f)) h =
      let same : s' ≡ s = some-injective s' s (sym p ∙ h) in
      (
        f m.ask_id ∙ rw (==_refl m.ask_id) (ap (λ (x : Slot). some (sent x)) same),
        ap (λ (x : Slot). x.reply_id) (sym same) ∙ e,
      )
  Answered-slot m c s w (inr (bad, k)) h = absurd (bad refl)

  Asked-slot :
      (self callback id : ℕ) (c : Core) (w : World P)
      → Asked cfg port iso self callback c (ok, id, w)
      → (s : Slot) × (pending id w.core ≡ some s)
        × (s.actor ≡ self)
        × (s.callback ≡ callback)
        × (0 < id)
  Asked-slot self callback id c w (inl (z, pos, b, fresh, s, a, f, n, t, adds)) =
      (s, adds id ∙ rw (==_refl id) refl, a, f, pos)
  Asked-slot self callback id c w (inr k) = absurd (k.0 refl)

  -- Once an ask returned 0, and a reply to a request `m` with its id returned 0, the message `r` that
  -- carries the reply, dispatched by the asker, calls the callback of the ask with the result and
  -- payload of that message. The ask table is valid before the ask, it has less than
  -- 2 ^ 32 - 1 slots, and the port leaves the core alone.
  pub ask_reply_callback :
      (self request : ℕ) (payload : Payload) (d callback timeout_ms : ℕ) (w : World P) (id : ℕ)
      (w1 : World P) (m : Msg) (e : Option ℕ) (answer : Payload) (w2 : World P) (r : Msg)
      → AsksValid cfg w.core
      → cfg.max_inflight + 2 ≤ 4294967296
      → ask_with_id cfg port
          (some self)
          (some request)
          payload
          (some d)
          (some callback)
          timeout_ms
          w
        ≡ (ok, id, w1)
      → m.ask_id ≡ id
      → reply port (some m) e answer w1 ≡ (ok, w2)
      → r.ask_id ≡ id
      → r.id ≡ m.reply_id
      → (dispatch (some self) (some r) w2.core).0
        ≡ to_callback callback self r.result r.payload r.size r
  ask_reply_callback self request payload d callback timeout_ms w id w1 m e answer w2 r v hl asked
        hm replied hr hi =
      let k = rw asked at (
        ask_with_id-Asked cfg port iso (some self) (some request) payload (some d) (some callback)
          timeout_ms w v hl) in
      let v1 : AsksValid cfg w1.core = rw asked at (
        ask_with_id-AsksValid cfg port iso hl (some self) (some request) payload (some d)
          (some callback) timeout_ms w v) in
      let (s, p, own, call, pos) = Asked-slot self callback id w.core w1 k in
      let k1 : Answered m w1.core (ok, w2) =
        rw replied at (reply-Answered cfg port iso m e answer w1 v1) in
      let (p2, named) = Answered-slot m w1.core s w2 k1 (rw hm p) in
      let p3 : pending r.ask_id w2.core ≡ some (sent s) =
        ap (λ j. pending j w2.core) (hr ∙ sym hm) ∙ p2 in
      let hit : ends self r (sent s) ≡ true = ground (arith, own, named, hi) in
      rw (dispatch-some w2.core self r (rw hr pos) (sent s) p3, hit) (ground (arith, call))
