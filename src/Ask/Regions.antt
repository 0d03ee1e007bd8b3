-- ===== src/Ask/Regions.antt =====
-- What each part of src/ipc.c that runs under the ask lock does to the map of pending asks.
use actor_framework_cxx.Prelude.{
  ℕ, inl, inr, Option-cases, ◌<◌, ◌≡◌, refl, ◌∙◌, true, false, ◌||◌, not, Option, none, some, arith,
  ltb, ◌==◌, if◌then◌else◌, set, length, length-set,
}
use actor_framework_cxx.State.{
  ok, err, einval, enoent, emsgsize, ealready, Msg, Slot, is_running, Config, Core, with_asks,
}
use actor_framework_cxx.AskTable.{find_pending_ask}
use actor_framework_cxx.AskTable.Lookup.{
  lookup, IsValid, find-some, find-some_of_lookup, find-none, lookup-set_found, set_found-IsValid,
  lookup-clear_found, clear_found-IsValid, length-clear_found,
}
use actor_framework_cxx.Ask.{
  drop_ask, denied, claimed, claim_found, claim_reply, error_found, claim_error, queue_found,
  queue_timeout, unqueue_found, unqueue_timeout, cancel_found, ask_cancel,
}

-- The pending ask of an id, in the core's table.
abbrev pub pending : ℕ → Core → Option Slot
pending id c = lookup id c.ask_table

-- The table has its size, its used slots have ids of their own, and the counter is a `uint32_t`.
pub record AsksValid (cfg : Config) (c : Core) : Type 0 where
  pub table : IsValid c.ask_table
  pub size : length c.ask_table ≡ cfg.max_inflight
  pub counter : c.next_ask_id < 4294967296

module _ (cfg : Config) (c : Core) (v : AsksValid cfg c) where
  pub drop_ask-AsksValid : (id : ℕ) → AsksValid cfg (drop_ask id c)
  unfolding drop_ask
  drop_ask-AsksValid id = record {
    table = clear_found-IsValid id c.ask_table v.table;
    size = length-clear_found id c.ask_table ∙ v.size;
    counter = v.counter;
  }

  pub pending-drop_ask :
      (id j : ℕ) → pending j (drop_ask id c) ≡ (if id == j then none else pending j c)
  unfolding drop_ask
  pending-drop_ask id j = lookup-clear_found id j c.ask_table v.table

-- Writing an entry through the pointer that `find_pending_ask` gave.
unfoldable pub mark_found : (Slot → Slot) → Core → Option (ℕ × Slot) → Core
mark_found f c none = c
mark_found f c (some (i, s)) = with_asks (set c.ask_table i (f s)) c

unfoldable pub mark_ask : ℕ → (Slot → Slot) → Core → Core
unfolding mark_found
mark_ask id f c = mark_found f c (find_pending_ask id c.ask_table)

-- An update that leaves the slot in use, under its id.
pub record KeepsId (f : Slot → Slot) : Type 0 where
  pub used : (s : Slot) → (f s).used ≡ s.used
  pub ask_id : (s : Slot) → (f s).ask_id ≡ s.ask_id

module _ (cfg : Config) (c : Core) (v : AsksValid cfg c) (f : Slot → Slot) (k : KeepsId f) where
  pub mark_ask-AsksValid : (id : ℕ) → AsksValid cfg (mark_ask id f c)
  unfolding mark_ask
  mark_ask-AsksValid id = elim (Option-cases (find_pending_ask id c.ask_table)) [
    | inl e ↦ rw (e, mark_found) v
    | inr ((i, s), e) ↦
        let h = find-some id c.ask_table i s e in
        rw (e, mark_found)
          (record {
            table =
                set_found-IsValid id c.ask_table i s (f s) e (k.used s ∙ h.0) (k.ask_id s ∙ h.1)
                  v.table;
            size = length-set c.ask_table i (f s) ∙ v.size;
            counter = v.counter;
          })
  ]

  pub pending-mark_ask :
      (id j : ℕ) (s : Slot)
      → pending id c ≡ some s
      → pending j (mark_ask id f c) ≡ (if id == j then some (f s) else pending j c)
  unfolding mark_ask
  pending-mark_ask id j s p =
      let (i, e) = find-some_of_lookup id c.ask_table s p in
      let h = find-some id c.ask_table i s e in
      rw (e, mark_found)
        (lookup-set_found id j c.ask_table i s (f s) e (k.used s ∙ h.0) (k.ask_id s ∙ h.1))

pub mark_sent-KeepsId : KeepsId (λ s. record s { reply_sent = true })
mark_sent-KeepsId = record { used = λ s. refl; ask_id = λ s. refl }

pub mark_queued-KeepsId : KeepsId (λ s. record s { reply_sent = true; timeout_queued = true })
mark_queued-KeepsId = record { used = λ s. refl; ask_id = λ s. refl }

pub mark_unqueued-KeepsId : KeepsId (λ s. record s { reply_sent = false; timeout_queued = false })
mark_unqueued-KeepsId = record { used = λ s. refl; ask_id = λ s. refl }

-- The locked parts, by the pending ask that they find.
module _ (c : Core) (m : Msg) (s : Slot) (p : pending m.ask_id c ≡ some s) where
  pub claim_reply-some :
      (reply_id size : ℕ)
      → claim_reply m reply_id size c ≡ (
          if not (s.reply_id == reply_id) || not (m.reply_id == reply_id)
          then (denied (err einval), c)
          else if s.reply_sent
          then (denied (err ealready), c)
          else if ltb (c.actors s.actor).max_payload_size size
          then (denied (err emsgsize), drop_ask m.ask_id c)
          else (claimed s.actor, mark_ask m.ask_id (λ x. record x { reply_sent = true }) c))
  unfolding claim_reply mark_ask
  claim_reply-some reply_id size =
      let (i, e) = find-some_of_lookup m.ask_id c.ask_table s p in rw (e, mark_found, claim_found)

  pub claim_error-some : claim_error m c ≡ (
      if not (s.reply_id == m.reply_id)
      then (denied (err einval), c)
      else if s.reply_sent
      then (denied (err ealready), c)
      else (claimed s.actor, mark_ask m.ask_id (λ x. record x { reply_sent = true }) c))
  unfolding claim_error mark_ask
  claim_error-some =
      let (i, e) = find-some_of_lookup m.ask_id c.ask_table s p in rw (e, mark_found, error_found)

module _ (c : Core) (id : ℕ) (s : Slot) (p : pending id c ≡ some s) where
  pub queue_timeout-some :
      (a : ℕ)
      → queue_timeout a id c ≡ (
          if not (s.actor == a) || s.timeout_queued
          then (false, c)
          else (true, mark_ask id (λ x. record x { reply_sent = true; timeout_queued = true }) c))
  unfolding queue_timeout mark_ask
  queue_timeout-some a =
      let (i, e) = find-some_of_lookup id c.ask_table s p in rw (e, mark_found, queue_found)

  pub unqueue_timeout-some :
      (a : ℕ)
      → unqueue_timeout a id c ≡ (
          if s.actor == a
          then mark_ask id (λ x. record x { reply_sent = false; timeout_queued = false }) c
          else c)
  unfolding unqueue_timeout mark_ask
  unqueue_timeout-some a =
      let (i, e) = find-some_of_lookup id c.ask_table s p in rw (e, mark_found, unqueue_found)

  pub ask_cancel-some :
      (self : ℕ)
      → 0 < id
      → is_running c.lifecycle ≡ true
      → ask_cancel (some self) id c
        ≡ (if s.actor == self then (ok, drop_ask id c) else (err enoent, c))
  unfolding ask_cancel
  ask_cancel-some self h r =
      let (i, e) = find-some_of_lookup id c.ask_table s p in rw (e, r, cancel_found) (ground arith)

-- Where nothing is pending under the id, they change nothing.
module _ (c : Core) (id : ℕ) (p : pending id c ≡ none) where
  pub queue_timeout-none : (a : ℕ) → queue_timeout a id c ≡ (false, c)
  unfolding queue_timeout
  queue_timeout-none a = rw (find-none id c.ask_table p, queue_found)

  pub unqueue_timeout-none : (a : ℕ) → unqueue_timeout a id c ≡ c
  unfolding unqueue_timeout
  unqueue_timeout-none a = rw (find-none id c.ask_table p, unqueue_found)

  pub ask_cancel-none :
      (self : ℕ)
      → 0 < id
      → is_running c.lifecycle ≡ true
      → ask_cancel (some self) id c ≡ (err enoent, c)
  unfolding ask_cancel
  ask_cancel-none self h r = rw (find-none id c.ask_table p, r, cancel_found) (ground arith)

module _ (c : Core) (m : Msg) (p : pending m.ask_id c ≡ none) where
  pub claim_reply-none :
      (reply_id size : ℕ) → claim_reply m reply_id size c ≡ (denied (err enoent), c)
  unfolding claim_reply
  claim_reply-none reply_id size = rw (find-none m.ask_id c.ask_table p, claim_found)

  pub claim_error-none : claim_error m c ≡ (denied (err enoent), c)
  unfolding claim_error
  claim_error-none = rw (find-none m.ask_id c.ask_table p, error_found)
