-- ===== src/Ask/Reply/Claims.antt =====
-- The locked parts of `ipc_reply_raw` and `ipc_reply_error_raw` of src/ipc.c, on every branch.
use actor_framework_cxx.Prelude.{
  ℕ, ◌⊎◌, inl, inr, Bool-cases, Option-cases, ◌≡◌, refl, ==→eq, ◌||◌, not, true, false, none, some,
  arith, ◌==◌, if◌then◌else◌, ltb,
}
use actor_framework_cxx.State.{is_zero, Msg, Slot, Config, Core}
use actor_framework_cxx.Ask.{Claim, denied, claimed, claim_reply, claim_error}
use actor_framework_cxx.Ask.Regions.{
  pending, AsksValid, drop_ask-AsksValid, pending-drop_ask, mark_ask, mark_ask-AsksValid,
  mark_sent-KeepsId, pending-mark_ask, claim_reply-some, claim_reply-none, claim_error-some,
  claim_error-none,
}

abbrev pub sent : Slot → Slot
sent s = record s { reply_sent = true }

-- What the locked part of an answer to the request `m` does: refuse and change nothing, free the
-- slot of an ask that the answer does not fit, or mark the ask as answered.
abbrev pub Claimed : Msg → Core → Claim × Core → Type 0
Claimed m c (denied rc, c') =
    (is_zero rc ≡ false)
    × (((j : ℕ) → pending j c' ≡ pending j c)
        ⊎ ((j : ℕ) → pending j c' ≡ (if m.ask_id == j then none else pending j c)))
Claimed m c (claimed target, c') =
    (s : Slot) × (pending m.ask_id c ≡ some s)
    × (s.actor ≡ target)
    × (s.reply_sent ≡ false)
    × (s.reply_id ≡ m.reply_id)
    × ((j : ℕ) → pending j c' ≡ (if m.ask_id == j then some (sent s) else pending j c))

-- ... and it keeps the table valid.
abbrev pub ValidClaim : Config → Msg → Core → Claim × Core → Type 0
ValidClaim cfg m c k = Claimed m c k × AsksValid cfg k.1

module _ (cfg : Config) (c : Core) (v : AsksValid cfg c) (m : Msg) where
  claimed_sent :
      (s : Slot)
      → pending m.ask_id c ≡ some s
      → s.reply_sent ≡ false
      → s.reply_id ≡ m.reply_id
      → ValidClaim cfg m c (claimed s.actor, mark_ask m.ask_id sent c)
  claimed_sent s p n e = (
    (s, p, refl, n, e, λ j. pending-mark_ask cfg c v sent mark_sent-KeepsId m.ask_id j s p),
    mark_ask-AsksValid cfg c v sent mark_sent-KeepsId m.ask_id,
  )

  pub claim_reply-Claimed : (reply_id size : ℕ) → ValidClaim cfg m c (claim_reply m reply_id size c)
  claim_reply-Claimed reply_id size = elim (Option-cases (pending m.ask_id c)) [
    | inl p ↦ rw (claim_reply-none c m p reply_id size) ((refl, inl (λ j. refl)), v)
    | inr (s, p) ↦
        rw (claim_reply-some c m s p reply_id size)
          (elim (Bool-cases (not (s.reply_id == reply_id) || not (m.reply_id == reply_id))) [
            | inl e ↦ rw e ((refl, inl (λ j. refl)), v)
            | inr e ↦ elim (Bool-cases s.reply_sent) [
              | inl n ↦ rw (e, n) ((refl, inl (λ j. refl)), v)
              | inr n ↦ elim (Bool-cases (ltb (c.actors s.actor).max_payload_size size)) [
                | inl big ↦
                    rw (e, n, big)
                      (
                        (refl, inr (λ j. pending-drop_ask cfg c v m.ask_id j)),
                        drop_ask-AsksValid cfg c v m.ask_id,
                      )
                | inr fits ↦ rw (e, n, fits) (claimed_sent s p n (ground arith))
              ]
            ]
          ])
  ]

  pub claim_error-Claimed : ValidClaim cfg m c (claim_error m c)
  claim_error-Claimed = elim (Option-cases (pending m.ask_id c)) [
    | inl p ↦ rw (claim_error-none c m p) ((refl, inl (λ j. refl)), v)
    | inr (s, p) ↦ rw (claim_error-some c m s p) (elim (Bool-cases (s.reply_id == m.reply_id)) [
      | inr e ↦ rw e ((refl, inl (λ j. refl)), v)
      | inl e ↦ elim (Bool-cases s.reply_sent) [
        | inl n ↦ rw (e, n) ((refl, inl (λ j. refl)), v)
        | inr n ↦ rw (e, n) (claimed_sent s p n (==→eq _ _ e))
      ]
    ])
  ]
