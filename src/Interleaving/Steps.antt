-- ===== src/Interleaving/Steps.antt =====
-- Under every schedule of the locked parts of src/ipc.c the table of pending asks is valid, and each
-- ask ends once.
use actor_framework_cxx.Prelude.{
  ℕ, ◌+◌, ◌≤◌, ◌≡◌, refl, sym, ◌∙◌, inl, inr, Bool-cases, Option-cases, ◌||◌, not, Option, none,
  some, List, arith, ltb, ◌==◌, ==→eq, if◌then◌else◌,
}
use actor_framework_cxx.State.{Msg, Slot, is_running, Config, Core}
use actor_framework_cxx.Ask.{
  new_slot, drop_ask, ask_cancel, claim_reply, claim_error, queue_timeout, unqueue_timeout,
  set_next_ask_id,
}
use actor_framework_cxx.Ask.Regions.{
  pending, AsksValid, mark_ask, KeepsId, ask_cancel-some, ask_cancel-none, drop_ask-AsksValid,
  pending-drop_ask, mark_ask-AsksValid, pending-mark_ask, mark_sent-KeepsId, mark_queued-KeepsId,
  mark_unqueued-KeepsId, claim_reply-some, claim_reply-none, claim_error-some, claim_error-none,
  queue_timeout-some, queue_timeout-none, unqueue_timeout-some, unqueue_timeout-none,
}
use actor_framework_cxx.Ask.Laws.{SameAsks-AsksValid, SameAsks-pending}
use actor_framework_cxx.Ask.Reserve.{reserve_ask-cases}
use actor_framework_cxx.Dispatch.{dispatch, to_registered}
use actor_framework_cxx.Dispatch.Callbacks.{ends, dispatch-none, dispatch-some, dispatch-zero}
use actor_framework_cxx.Interleaving.{
  Event, freed, silent, drop_event, claim_event, cancel_event, call_event, reserve_event,
  reserve_slot, Section, reserves, drops, claims, fails, queues, unqueues, cancels, dispatches,
  recounts, elsewhere, Schedule, start, next, opens, calls, frees, count,
}
use actor_framework_cxx.Interleaving.Balance.{
  weight, Balanced, same-Balanced, mark-Balanced, freed-Balanced, called-Balanced,
  reserved-Balanced,
}

-- What a locked part guarantees.
abbrev pub Sound : Config → Core → Event → Core → Type 0
Sound cfg c e c' = AsksValid cfg c' × Balanced c e c'

-- What is registered is no callback of an ask.
registered-call_event :
    (id self : ℕ) (m : Msg) (c : Core) → call_event id (to_registered self m c) ≡ silent
unfolding to_registered
registered-call_event id self m c = ground arith

module _ (cfg : Config) (hl : cfg.max_inflight + 2 ≤ 4294967296) where
  unchanged : (c : Core) → AsksValid cfg c → Sound cfg c silent c
  unchanged c v = (v, same-Balanced c c (λ j. refl))

  module _ (c : Core) (v : AsksValid cfg c) where
    marked-Sound :
        (f : Slot → Slot)
        → KeepsId f
        → (id : ℕ) (s : Slot) → pending id c ≡ some s
        → Sound cfg c silent (mark_ask id f c)
    marked-Sound f k id s p = (
      mark_ask-AsksValid cfg c v f k id,
      mark-Balanced c (mark_ask id f c) id s p (f s) (λ j. pending-mark_ask cfg c v f k id j s p),
    )

    dropped-Sound :
        (id : ℕ) (s : Slot) → pending id c ≡ some s → Sound cfg c (freed id) (drop_ask id c)
    dropped-Sound id s p = (
      drop_ask-AsksValid cfg c v id,
      freed-Balanced c (drop_ask id c) id s p (pending-drop_ask cfg c v id),
    )

    reserves-Sound :
        (reply_id deadline self callback : ℕ)
        → let r = reserve_slot cfg reply_id deadline self callback c in
          Sound cfg c (reserve_event r.0) r.1
    reserves-Sound reply_id deadline self callback =
        let slot = λ (id : ℕ). new_slot id reply_id deadline self callback in
        elim (reserve_ask-cases cfg c v hl slot (λ id. refl) (λ id. refl)) [
          | inl (e, full) ↦ rw e (unchanged c v)
          | inr (id, c', e, r) ↦ rw e (r.valid, reserved-Balanced c c' id (slot id) r.fresh r.adds)
        ]

    drops-Sound : (id : ℕ) → Sound cfg c (drop_event id (pending id c)) (drop_ask id c)
    drops-Sound id = elim (Option-cases (pending id c)) [
      | inl p ↦ rw p (
        drop_ask-AsksValid cfg c v id,
        same-Balanced c (drop_ask id c) (λ j. pending-drop_ask cfg c v id j ∙ absent id j p),
      )
      | inr (s, p) ↦ rw p (dropped-Sound id s p)
    ]
      where
        absent :
            (id j : ℕ) → pending id c ≡ none → (if id == j then none else pending j c) ≡ pending j c
        absent id j p = elim (Bool-cases (id == j)) [
          | inl e ↦ rw (e, ← ==→eq id j e) (sym p)
          | inr e ↦ rw e refl
        ]

    claims-Sound :
        (m : Msg) (reply_id size : ℕ)
        → let r = claim_reply m reply_id size c in Sound cfg c (claim_event m.ask_id r.0) r.1
    claims-Sound m reply_id size = elim (Option-cases (pending m.ask_id c)) [
      | inl p ↦ rw (claim_reply-none c m p reply_id size) (unchanged c v)
      | inr (s, p) ↦
          rw (claim_reply-some c m s p reply_id size)
            (elim (Bool-cases (not (s.reply_id == reply_id) || not (m.reply_id == reply_id))) [
              | inl e ↦ rw e (unchanged c v)
              | inr e ↦ elim (Bool-cases s.reply_sent) [
                | inl n ↦ rw (e, n) (unchanged c v)
                | inr n ↦ elim (Bool-cases (ltb (c.actors s.actor).max_payload_size size)) [
                  | inl big ↦ rw (e, n, big) (dropped-Sound m.ask_id s p)
                  | inr fits ↦ rw (e, n, fits) (marked-Sound _ mark_sent-KeepsId m.ask_id s p)
                ]
              ]
            ])
    ]

    fails-Sound : (m : Msg) → let r = claim_error m c in Sound cfg c (claim_event m.ask_id r.0) r.1
    fails-Sound m = elim (Option-cases (pending m.ask_id c)) [
      | inl p ↦ rw (claim_error-none c m p) (unchanged c v)
      | inr (s, p) ↦ rw (claim_error-some c m s p) (elim (Bool-cases (s.reply_id == m.reply_id)) [
        | inr e ↦ rw e (unchanged c v)
        | inl e ↦ elim (Bool-cases s.reply_sent) [
          | inl n ↦ rw (e, n) (unchanged c v)
          | inr n ↦ rw (e, n) (marked-Sound _ mark_sent-KeepsId m.ask_id s p)
        ]
      ])
    ]

    queues-Sound : (a id : ℕ) → Sound cfg c silent (queue_timeout a id c).1
    queues-Sound a id = elim (Option-cases (pending id c)) [
      | inl p ↦ rw (queue_timeout-none c id p a) (unchanged c v)
      | inr (s, p) ↦
          rw (queue_timeout-some c id s p a)
            (elim (Bool-cases (not (s.actor == a) || s.timeout_queued)) [
              | inl done ↦ rw done (unchanged c v)
              | inr first ↦ rw first (marked-Sound _ mark_queued-KeepsId id s p)
            ])
    ]

    unqueues-Sound : (a id : ℕ) → Sound cfg c silent (unqueue_timeout a id c)
    unqueues-Sound a id = elim (Option-cases (pending id c)) [
      | inl p ↦ rw (unqueue_timeout-none c id p a) (unchanged c v)
      | inr (s, p) ↦ rw (unqueue_timeout-some c id s p a) (elim (Bool-cases (s.actor == a)) [
        | inl own ↦ rw own (marked-Sound _ mark_unqueued-KeepsId id s p)
        | inr other ↦ rw other (unchanged c v)
      ])
    ]

    cancels-Sound :
        (self : Option ℕ) (id : ℕ)
        → let r = ask_cancel self id c in Sound cfg c (cancel_event id r.0) r.1
    cancels-Sound none id = unfold ask_cancel in unchanged c v
    cancels-Sound (some self) id = elim (Bool-cases (id == 0)) [
      | inl z ↦ unfold ask_cancel in rw z (unchanged c v)
      | inr nz ↦ elim (Bool-cases (is_running c.lifecycle)) [
        | inr r ↦ unfold ask_cancel in rw (nz, r) (unchanged c v)
        | inl r ↦ elim (Option-cases (pending id c)) [
          | inl p ↦ rw (ask_cancel-none c id p self (ground (arith, nz)) r) (unchanged c v)
          | inr (s, p) ↦
              rw (ask_cancel-some c id s p self (ground (arith, nz)) r)
                (elim (Bool-cases (s.actor == self)) [
                  | inl own ↦ rw own (dropped-Sound id s p)
                  | inr other ↦ rw other (unchanged c v)
                ])
        ]
      ]
    ]

    not_called : (id self : ℕ) (m : Msg) → Sound cfg c (call_event id (to_registered self m c)) c
    not_called id self m = rw (registered-call_event id self m c) (unchanged c v)

    dispatches-Sound :
        (self : Option ℕ) (m : Msg)
        → let r = dispatch self (some m) c in Sound cfg c (call_event m.ask_id r.0) r.1
    dispatches-Sound none m = unfold dispatch in unchanged c v
    dispatches-Sound (some self) m = elim (Bool-cases (m.ask_id == 0)) [
      | inl z ↦ rw (dispatch-zero c self m z) (not_called m.ask_id self m)
      | inr nz ↦ elim (Option-cases (pending m.ask_id c)) [
        | inl p ↦ rw (dispatch-none c self m (ground (arith, nz)) p) (not_called m.ask_id self m)
        | inr (s, p) ↦
            rw (dispatch-some c self m (ground (arith, nz)) s p)
              (elim (Bool-cases (ends self m s)) [
                | inl hit ↦ rw hit (
                  drop_ask-AsksValid cfg c v m.ask_id,
                  called-Balanced c (drop_ask m.ask_id c) m.ask_id s p
                      (pending-drop_ask cfg c v m.ask_id),
                )
                | inr miss ↦ rw miss (not_called m.ask_id self m)
              ])
      ]
    ]

  Section-Sound :
      (c c' : Core) (e : Event) → Section cfg c e c' → AsksValid cfg c → Sound cfg c e c'
  Section-Sound c _ _ (reserves reply_id deadline self callback _) v =
      reserves-Sound c v reply_id deadline self callback
  Section-Sound c _ _ (drops id _) v = drops-Sound c v id
  Section-Sound c _ _ (claims m reply_id size _) v = claims-Sound c v m reply_id size
  Section-Sound c _ _ (fails m _) v = fails-Sound c v m
  Section-Sound c _ _ (queues a id _) v = queues-Sound c v a id
  Section-Sound c _ _ (unqueues a id _) v = unqueues-Sound c v a id
  Section-Sound c _ _ (cancels self id _) v = cancels-Sound c v self id
  Section-Sound c _ _ (dispatches self m _) v = dispatches-Sound c v self m
  Section-Sound c _ _ (recounts next_id _ h) v = (
    record { table = v.table; size = v.size; counter = h },
    same-Balanced c (set_next_ask_id next_id c) (λ j. refl),
  )
  Section-Sound c c' _ (elsewhere _ _ same) v =
      (SameAsks-AsksValid same v, same-Balanced c c' (SameAsks-pending same))

  -- Whatever the threads do and in whatever order their locked parts run: the ask table is valid, and
  -- of each id as many asks were pending at the start or reserved since as had their callback called,
  -- were freed without it, or are still pending. The table is valid at the start, and has less than 2 ^ 32 - 1 slots.
  pub Schedule-Sound :
      (c c' : Core) (es : List Event)
      → Schedule cfg c es c'
      → AsksValid cfg c
      → AsksValid cfg c'
        × ((j : ℕ)
            → count (opens j) es + weight (pending j c)
              ≡ count (calls j) es + count (frees j) es + weight (pending j c'))
  unfolding count
  Schedule-Sound c _ _ (start _) v = (v, λ j. refl)
  Schedule-Sound c c' _ (next _ c1 _ es e r s) v =
      let (v1, b) = Schedule-Sound c c1 es r v in
      let (v2, b2) = Section-Sound c1 c' e s v1 in (v2, λ j. omega (arith, b j, b2 j))
