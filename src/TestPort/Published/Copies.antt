-- ===== src/TestPort/Published/Copies.antt =====
-- What a publication of src/ipc.c adds to a mailbox of src/port/test/ipc_test_port.c, delivery by
-- delivery.
use actor_framework_cxx.Prelude.{
  ℕ, suc, ◌≤◌, ◌<◌, ◌≡◌, ◌⊎◌, refl, sym, ap, subst, ◌∙◌, inl, inr, true, false, ◌==◌, ==_refl,
  if◌then◌else◌, List, [], ◌∷◌, ◌++◌, append_assoc, append-nil, length, length-append, replicate,
  arith,
}
use actor_framework_cxx.State.{Msg}
use actor_framework_cxx.Slot.{stored, zero_msg}
use actor_framework_cxx.Ring.{length-held}
use actor_framework_cxx.TestPort.{ActorState}
use actor_framework_cxx.TestPort.Mailbox.{IsValid, contents}

-- How often an actor stands in a list.
abbrev pub occurs : ℕ → List ℕ → ℕ
occurs b [] = 0
occurs b (a ∷ l) = if a == b then suc (occurs b l) else occurs b l

-- What a publication to the actors `l` leaves in the mailbox `s` of the actor `b`: it is `s'` then, and has
-- as many copies of the message behind what it had as the actor stands in the list, or fewer, where the
-- message is too large for the actor or the mailbox is full.
pub record Copied (l : List ℕ) (b : ℕ) (m : Msg) (s s' : ActorState) (max : ℕ) : Type 0 where
  pub copies : ℕ
  pub valid : IsValid s'
  pub started : s'.started ≡ true
  pub capacity : s'.capacity ≡ s.capacity
  pub kept : contents s' ≡ contents s ++ replicate copies (stored m)
  pub most : copies ≤ occurs b l
  pub all : (copies ≡ occurs b l) ⊎ (max < m.size) ⊎ (length (contents s') ≡ s.capacity)

pub none-Copied :
    (b : ℕ) (m : Msg) (s : ActorState) (max : ℕ)
    → IsValid s
    → s.started ≡ true
    → Copied [] b m s s max
none-Copied b m s max v st = record {
  copies = 0;
  valid = v;
  started = st;
  capacity = refl;
  kept = sym (append-nil (contents s));
  most = omega arith;
  all = inl refl;
}

-- An actor of the list with another mailbox, or none.
pub other-Copied :
    (l : List ℕ) (a b : ℕ) (m : Msg) (s s' : ActorState) (max : ℕ)
    → (a == b) ≡ false
    → Copied l b m s s' max
    → Copied (a ∷ l) b m s s' max
other-Copied l a b m s s' max e k =
    let same : occurs b l ≡ occurs b (a ∷ l) =
      sym (ap (λ t. if t then suc (occurs b l) else occurs b l) e) in
    record {
      copies = k.copies;
      valid = k.valid;
      started = k.started;
      capacity = k.capacity;
      kept = k.kept;
      most = subst (λ n. k.copies ≤ n) same k.most;
      all =
          subst (λ n. (k.copies ≡ n) ⊎ (max < m.size) ⊎ (length (contents s') ≡ s.capacity)) same
            k.all;
    }

-- A mailbox that is full stays full.
stays_full :
    (l : List ℕ) (b : ℕ) (m : Msg) (s s' : ActorState) (max : ℕ)
    → Copied l b m s s' max
    → length (contents s) ≡ s.capacity
    → length (contents s') ≡ s.capacity
stays_full l b m s s' max k full =
    let grown = ap length k.kept ∙ length-append (contents s) (replicate k.copies (stored m)) in
    let bound = length-held zero_msg s'.queue s'.capacity s'.head s'.count in
    omega (arith, full, grown, bound, k.valid.count_bounded, k.capacity)

-- The actor's turn, where its mailbox does not take the message.
pub refused-Copied :
    (l : List ℕ) (b : ℕ) (m : Msg) (s s' : ActorState) (max : ℕ)
    → (max < m.size) ⊎ (length (contents s) ≡ s.capacity)
    → Copied l b m s s' max
    → Copied (b ∷ l) b m s s' max
refused-Copied l b m s s' max why k =
    let same : occurs b (b ∷ l) ≡ suc (occurs b l) =
      ap (λ t. if t then suc (occurs b l) else occurs b l) (==_refl b) in
    record {
      copies = k.copies;
      valid = k.valid;
      started = k.started;
      capacity = k.capacity;
      kept = k.kept;
      most = omega (arith, same, k.most);
      all =
          inr (elim why [ inl big ↦ inl big | inr full ↦ inr (stays_full l b m s s' max k full) ]);
    }

-- ... and where it does.
pub taken-Copied :
    (l : List ℕ) (b : ℕ) (m : Msg) (s s1 s' : ActorState) (max : ℕ)
    → s1.capacity ≡ s.capacity
    → contents s1 ≡ contents s ++ (stored m ∷ [])
    → Copied l b m s1 s' max
    → Copied (b ∷ l) b m s s' max
taken-Copied l b m s s1 s' max cap c k =
    let same : occurs b (b ∷ l) ≡ suc (occurs b l) =
      ap (λ t. if t then suc (occurs b l) else occurs b l) (==_refl b) in
    record {
      copies = suc k.copies;
      valid = k.valid;
      started = k.started;
      capacity = k.capacity ∙ cap;
      kept =
          k.kept
          ∙ ap (λ t. t ++ replicate k.copies (stored m)) c
          ∙ append_assoc (contents s) (stored m ∷ []) (replicate k.copies (stored m));
      most = omega (arith, same, k.most);
      all = elim k.all [
        | inl e ↦ inl (ap suc e ∙ sym same)
        | inr (inl big) ↦ inr (inl big)
        | inr (inr full) ↦ inr (inr (full ∙ cap))
      ];
    }
