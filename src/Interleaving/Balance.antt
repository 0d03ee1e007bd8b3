-- ===== src/Interleaving/Balance.antt =====
-- What an event has to do with the asks that are pending before and after it.
use actor_framework_cxx.Prelude.{
  ℕ, ◌+◌, ◌≡◌, refl, subst, ==→eq, inl, inr, Bool-cases, true, Option, none, some, ◌==◌,
  if◌then◌else◌,
}
use actor_framework_cxx.State.{Slot, Core}
use actor_framework_cxx.Ask.Regions.{pending}
use actor_framework_cxx.Interleaving.{Event, reserved, called, freed, silent, opens, calls, frees}

abbrev pub weight : Option Slot → ℕ
weight none = 0
weight (some s) = 1

-- The asks of each id that were pending or new are called back, freed, or still pending.
abbrev pub Balanced : Core → Event → Core → Type 0
Balanced c e c' =
    (j : ℕ) → opens j e + weight (pending j c) ≡ calls j e + frees j e + weight (pending j c')

pub same-Balanced : (c c' : Core) → ((j : ℕ) → pending j c' ≡ pending j c) → Balanced c silent c'
same-Balanced c c' h j = rw (h j) refl

module _ (c c' : Core) (id : ℕ) (s : Slot) (p : pending id c ≡ some s) where
  found : (j : ℕ) → (id == j) ≡ true → pending j c ≡ some s
  found j e = subst (λ k. pending k c ≡ some s) (==→eq id j e) p

  pub mark-Balanced :
      (s' : Slot)
      → ((j : ℕ) → pending j c' ≡ (if id == j then some s' else pending j c))
      → Balanced c silent c'
  mark-Balanced s' h j = elim (Bool-cases (id == j)) [
    | inl e ↦ let q = found j e in rw (h j, e, q) refl
    | inr e ↦ rw (h j, e) refl
  ]

  pub freed-Balanced :
      ((j : ℕ) → pending j c' ≡ (if id == j then none else pending j c)) → Balanced c (freed id) c'
  freed-Balanced h j = elim (Bool-cases (id == j)) [
    | inl e ↦ let q = found j e in rw (h j, e, q) refl
    | inr e ↦ rw (h j, e) refl
  ]

  pub called-Balanced :
      ((j : ℕ) → pending j c' ≡ (if id == j then none else pending j c)) → Balanced c (called id) c'
  called-Balanced h j = elim (Bool-cases (id == j)) [
    | inl e ↦ let q = found j e in rw (h j, e, q) refl
    | inr e ↦ rw (h j, e) refl
  ]

pub reserved-Balanced :
    (c c' : Core) (id : ℕ) (s : Slot)
    → pending id c ≡ none
    → ((j : ℕ) → pending j c' ≡ (if id == j then some s else pending j c))
    → Balanced c (reserved id) c'
reserved-Balanced c c' id s p h j = elim (Bool-cases (id == j)) [
  | inl e ↦
      let q : pending j c ≡ none = subst (λ k. pending k c ≡ none) (==→eq id j e) p in
      rw (h j, e, q) refl
  | inr e ↦ rw (h j, e) refl
]
