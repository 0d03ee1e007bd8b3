-- ===== src/Ask/Request/Outcome.antt =====
-- How a call of `ipc_ask_with_id_raw` in src/ipc.c ends, over any port that leaves the core alone.
use actor_framework_cxx.Prelude.{
  ℕ, ◌⊎◌, inl, inr, Bool-cases, ◌+◌, ◌<◌, ◌≤◌, ◌≡◌, ◌≢◌, refl, sym, ==→eq, ◌∙◌, ap, ◌&&◌, true,
  false, Option, none, some, arith, ◌==◌, if◌then◌else◌, ltb,
}
use actor_framework_cxx.State.{
  Rc, ok, err, einval, emsgsize, enomem, cmd, is_zero, Payload, Msg, Slot, Config, Core, World,
}
use actor_framework_cxx.Interface.{Port, Isolated}
use actor_framework_cxx.Descriptor.{ensure_id, valid_descriptor}
use mathlib.Core.Option.{get_or}
use actor_framework_cxx.Delivery.{refused, ready, Prepared}
use actor_framework_cxx.Delivery.Frame.{
  SameAsks, SameAsks-refl, SameAsks-trans, Refusal, prepare-Refusal, ensure_id-SameAsks,
  prepare-SameAsks,
}
use actor_framework_cxx.Ask.{new_slot, reserve_ask}
use actor_framework_cxx.Ask.Regions.{pending, AsksValid}
use actor_framework_cxx.Ask.Reserve.{reserve_ask-cases}
use actor_framework_cxx.Ask.Laws.{nonzero→ne_ok, SameAsks-AsksValid, SameAsks-pending}
use actor_framework_cxx.Ask.Request.Finish.{Finished, time_ask-Finished}
use actor_framework_cxx.Ask.Request.{deadline_of, reserved_ask, prepared_ask, ask_with_id}

module _ {P : Type 0} (cfg : Config) (port : Port P) (iso : Isolated port) where
  -- What a whole call leaves: one more pending ask, which belongs to the caller and waits for its
  -- answer, or the pending asks as they were.
  abbrev pub Asked : (self callback : ℕ) → Core → Rc × ℕ × World P → Type 0
  Asked self callback c r =
      ((r.0 ≡ ok)
        × (0 < r.1)
        × (r.1 < 4294967296)
        × (pending r.1 c ≡ none)
        × (s : Slot) × (s.actor ≡ self)
        × (s.callback ≡ callback)
        × (s.reply_sent ≡ false)
        × (s.timeout_queued ≡ false)
        × ((j : ℕ) → pending j r.2.core ≡ (if r.1 == j then some s else pending j c)))
      ⊎ ((r.0 ≢ ok) × (r.1 ≡ 0) × ((j : ℕ) → pending j r.2.core ≡ pending j c))

  not-Asked :
      {self callback : ℕ} (c : Core) (rc : Rc) (w' : World P)
      → is_zero rc ≡ false
      → SameAsks c w'.core
      → Asked self callback c (rc, 0, w')
  not-Asked c rc w' z same = inr (nonzero→ne_ok rc z, refl, SameAsks-pending same)

  undo :
      (id j : ℕ) (x p : Option Slot)
      → (id == j ≡ true → p ≡ none)
      → (if id == j then none else if id == j then x else p) ≡ p
  undo id j x p h = ground arith

  Finished-Asked :
      (self callback id : ℕ) (s : Slot) (c c' : Core) (r : Rc × ℕ × World P)
      → s.actor ≡ self
      → s.callback ≡ callback
      → s.reply_sent ≡ false
      → s.timeout_queued ≡ false
      → 0 < id
      → id < 4294967296
      → pending id c ≡ none
      → ((j : ℕ) → pending j c' ≡ (if id == j then some s else pending j c))
      → Finished cfg port iso id c' r
      → Asked self callback c r
  unfolding Finished
  Finished-Asked self callback id s c c' (rc, out, w') ea ec er et p b fresh adds (inl (z, e, f)) =
      inl (
        z,
        rw e p,
        rw e b,
        rw e fresh,
        s,
        ea,
        ec,
        er,
        et,
        λ j. f j ∙ adds j ∙ ap (λ k. if k == j then some s else pending j c) (sym e),
      )
  Finished-Asked self callback id s c c' (rc, out, w') ea ec er et p b fresh adds (inr (z, e, f)) =
      inr (
        z,
        e,
        λ j.
            f j
            ∙ ap (λ q. if id == j then none else q) (adds j)
            ∙ undo id j (some s) (pending j c) (λ t. rw (← ==→eq id j t) fresh),
      )

  reserved_ask-Asked :
      (self callback deadline timeout_ms reply_id target : ℕ) (m : Msg) (w : World P)
      → AsksValid cfg w.core
      → cfg.max_inflight + 2 ≤ 4294967296
      → let slot = λ (id : ℕ). new_slot id reply_id deadline self callback in
        Asked self callback w.core
          (reserved_ask cfg port self timeout_ms reply_id target m (reserve_ask cfg slot w.core) w)
  unfolding reserved_ask
  reserved_ask-Asked self callback deadline timeout_ms reply_id target m w v hl =
      let slot = λ (id : ℕ). new_slot id reply_id deadline self callback in
      elim (reserve_ask-cases cfg w.core v hl slot (λ id. refl) (λ id. refl)) [
        | inl (e, full) ↦ rw e (not-Asked w.core (err enomem) w refl (SameAsks-refl w.core))
        | inr (id, c', e, r) ↦ rw e (
            Finished-Asked self callback id (slot id) w.core c' _ refl refl refl refl r.positive
              r.bounded r.fresh r.adds
              (time_ask-Finished cfg port iso self timeout_ms target _ id (record w { core = c' })
                r.valid))
      ]

  -- States that agree on the ask table start the same call.
  Asked-SameAsks :
      {self callback : ℕ} (c c' : Core) (r : Rc × ℕ × World P)
      → SameAsks c c'
      → Asked self callback c' r
      → Asked self callback c r
  Asked-SameAsks c c' r same a = let e = same.ask_table in rw (← e) a

  prepared_ask-Asked :
      (self reply callback timeout_ms : ℕ) (p : Prepared × Core) (w : World P)
      → SameAsks w.core p.1
      → AsksValid cfg w.core
      → cfg.max_inflight + 2 ≤ 4294967296
      → Refusal p.0
      → Asked self callback w.core (prepared_ask cfg port self reply callback timeout_ms p w)
  unfolding prepared_ask
  prepared_ask-Asked self reply callback timeout_ms (refused rc, c) w same v hl z =
      not-Asked w.core rc (record w { core = c }) z same
  prepared_ask-Asked self reply callback timeout_ms (ready target m, c) w same v hl z =
      let c' = ensure_id reply c in
      let w' : World P = record w { core = c' } in
      let x = c'.descs reply in
      let deadline = deadline_of cfg port timeout_ms w' in
      let slot = λ (id : ℕ). new_slot id x.id deadline self callback in
      let r = reserved_ask cfg port self timeout_ms x.id target m (reserve_ask cfg slot c') w' in
      let both : SameAsks w.core c' = SameAsks-trans same (ensure_id-SameAsks reply c) in
      elim (Bool-cases (ltb (c'.actors self).max_payload_size x.size)) [
        | inl big ↦ rw big (not-Asked w.core (err emsgsize) w' refl both)
        | inr fits ↦ rw fits (
            Asked-SameAsks w.core c' r both (
              reserved_ask-Asked self callback deadline timeout_ms x.id target m w'
                (SameAsks-AsksValid both v) hl))
      ]

  -- An ask either succeeds, with a fresh non-zero 32-bit correlation id, under which exactly one
  -- ask of the caller is now pending, unanswered, with its callback, and all others are as before;
  -- or it returns an error, with `*ask_id_out` 0 and the same asks pending as before. The ask table
  -- is valid before the call, and the port leaves the core alone.
  pub ask_with_id-Asked :
      (self request : Option ℕ) (payload : Payload) (reply callback : Option ℕ) (timeout_ms : ℕ)
      (w : World P)
      → AsksValid cfg w.core
      → cfg.max_inflight + 2 ≤ 4294967296
      → Asked
          (get_or self 0)
          (get_or callback 0)
          w.core
          (ask_with_id cfg port self request payload reply callback timeout_ms w)
  unfolding ask_with_id
  ask_with_id-Asked (some self) request payload (some reply) (some callback) timeout_ms w v hl =
      let valid = valid_descriptor request cmd w.core && valid_descriptor (some reply) cmd w.core in
      elim (Bool-cases valid) [
        | inl e ↦ rw e (
            prepared_ask-Asked self reply callback timeout_ms _ w
              (prepare-SameAsks request payload w.core) v hl
              (prepare-Refusal request payload w.core))
        | inr e ↦ rw e (not-Asked w.core (err einval) w refl (SameAsks-refl w.core))
      ]
  ask_with_id-Asked none request payload reply callback timeout_ms w v hl =
      not-Asked w.core (err einval) w refl (SameAsks-refl w.core)
  ask_with_id-Asked (some self) request payload none callback timeout_ms w v hl =
      not-Asked w.core (err einval) w refl (SameAsks-refl w.core)
  ask_with_id-Asked (some self) request payload (some reply) none timeout_ms w v hl =
      not-Asked w.core (err einval) w refl (SameAsks-refl w.core)
