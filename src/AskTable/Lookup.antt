-- ===== src/AskTable/Lookup.antt =====
-- The ask table as a finite map from correlation ids to slots, and the laws of its updates.
use actor_framework_cxx.Prelude.{
  ℕ, suc, ◌⊎◌, inl, inr, Bool-cases, Option-cases, ◌<◌, ◌≡◌, refl, true, false, ◌&&◌, Option, none,
  some, List, [], ◌∷◌, arith, ◌==◌, if◌then◌else◌, set, length, length-set,
}
use actor_framework_cxx.State.{Slot, zeroed}
use actor_framework_cxx.AskTable.{find_pending_ask, clear_found}
use mathlib.Core.Option

-- The pending ask of an id.
unfoldable pub lookup : ℕ → List Slot → Option Slot
lookup id [] = none
lookup id (s ∷ t) = if s.used && s.ask_id == id then some s else lookup id t

-- The used slots have ids of their own, each of them a non-zero `uint32_t`.
abbrev pub IsValid : List Slot → Type 0
IsValid [] = Unit {0}
IsValid (s ∷ t) =
    (s.used ≡ true → (lookup s.ask_id t ≡ none) × (0 < s.ask_id) × (s.ask_id < 4294967296))
    × IsValid t

-- What `find_pending_ask` returns is the map's entry.
pub find-lookup :
    (id : ℕ) (t : List Slot) → Option.map (λ p. p.1) (find_pending_ask id t) ≡ lookup id t
unfolding find_pending_ask lookup
find-lookup id [] = refl
find-lookup id (s ∷ t) = ground (arith, find-lookup id t)

-- The search either stops at the first slot, or goes on past it.
find-cons :
    (id : ℕ) (x : Slot) (t : List Slot) (i : ℕ) (s : Slot)
    → find_pending_ask id (x ∷ t) ≡ some (i, s)
    → ((x.used ≡ true) × (x.ask_id ≡ id) × (i ≡ 0) × (s ≡ x))
      ⊎ ((k : ℕ) × ((x.used && x.ask_id == id) ≡ false)
          × (i ≡ suc k)
          × (find_pending_ask id t ≡ some (k, s)))
unfolding find_pending_ask
find-cons id x t i s h = elim (Bool-cases (x.used && x.ask_id == id)) [
  | inl hit ↦ inl (ground arith, ground arith, ground arith, ground arith)
  | inr miss ↦ elim (Option-cases (find_pending_ask id t)) [
    | inl e ↦ absurd (ground arith)
    | inr ((k, s'), e) ↦ inr (k, miss, ground arith, ground arith)
  ]
]

pub find-some :
    (id : ℕ) (t : List Slot) (i : ℕ) (s : Slot)
    → find_pending_ask id t ≡ some (i, s)
    → (s.used ≡ true) × (s.ask_id ≡ id) × (lookup id t ≡ some s) × (i < length t)
unfolding lookup
find-some id [] i s h = unfold find_pending_ask in cc
find-some id (x ∷ t) i s h = elim (find-cons id x t i s h) [
  | inl (u, e, z, q) ↦ ground arith
  | inr (k, miss, e, rest) ↦ ground (arith, find-some id t k s rest)
]

pub find-none : (id : ℕ) (t : List Slot) → lookup id t ≡ none → find_pending_ask id t ≡ none
unfolding find_pending_ask lookup
find-none id [] h = refl
find-none id (s ∷ t) h = ground (arith, find-none id t)

pub lookup-eq_none : (id : ℕ) (t : List Slot) → find_pending_ask id t ≡ none → lookup id t ≡ none
unfolding find_pending_ask lookup
lookup-eq_none id [] h = refl
lookup-eq_none id (s ∷ t) h = ground (arith, lookup-eq_none id t)

pub find-some_of_lookup :
    (id : ℕ) (t : List Slot) (s : Slot)
    → lookup id t ≡ some s
    → (i : ℕ) × (find_pending_ask id t ≡ some (i, s))
find-some_of_lookup id t s h = elim (Option-cases (find_pending_ask id t)) [
  | inl e ↦ absurd (ground (arith, lookup-eq_none id t e))
  | inr ((i, s'), e) ↦ (i, ground (arith, find-some id t i s' e))
]

-- Writing through the pointer that `find_pending_ask` returned changes this entry alone.
pub lookup-set_found :
    (id j : ℕ) (t : List Slot) (i : ℕ) (s v : Slot)
    → find_pending_ask id t ≡ some (i, s)
    → v.used ≡ true
    → v.ask_id ≡ id
    → lookup j (set t i v) ≡ (if id == j then some v else lookup j t)
unfolding lookup
lookup-set_found id j [] i s v h hu hi = unfold find_pending_ask in cc
lookup-set_found id j (x ∷ t) i s v h hu hi = elim (find-cons id x t i s h) [
  | inl (u, e, z, q) ↦ rw z (ground arith)
  | inr (k, miss, e, rest) ↦ rw e (ground (arith, lookup-set_found id j t k s v rest hu hi))
]

pub set_found-IsValid :
    (id : ℕ) (t : List Slot) (i : ℕ) (s v : Slot)
    → find_pending_ask id t ≡ some (i, s)
    → v.used ≡ true
    → v.ask_id ≡ id
    → IsValid t
    → IsValid (set t i v)
set_found-IsValid id [] i s v h hu hi w = tt
set_found-IsValid id (x ∷ t) i s v h hu hi w = elim (find-cons id x t i s h) [
  | inl (u, e, z, q) ↦ rw z (ground arith)
  | inr (k, miss, e, rest) ↦ rw e (
      ground (
        arith,
        w.0,
        lookup-set_found id x.ask_id t k s v rest hu hi,
        set_found-IsValid id t k s v rest hu hi w.1,
      ))
]

lookup-set-zeroed :
    (id j : ℕ) (t : List Slot) (i : ℕ) (s : Slot)
    → find_pending_ask id t ≡ some (i, s)
    → IsValid t
    → lookup j (set t i zeroed) ≡ (if id == j then none else lookup j t)
unfolding lookup
lookup-set-zeroed id j [] i s h w = unfold find_pending_ask in cc
lookup-set-zeroed id j (x ∷ t) i s h w = elim (find-cons id x t i s h) [
  | inl (u, e, z, q) ↦ rw z (ground (arith, w.0))
  | inr (k, miss, e, rest) ↦ rw e (ground (arith, lookup-set-zeroed id j t k s rest w.1))
]

set-zeroed-IsValid :
    (id : ℕ) (t : List Slot) (i : ℕ) (s : Slot)
    → find_pending_ask id t ≡ some (i, s)
    → IsValid t
    → IsValid (set t i zeroed)
set-zeroed-IsValid id [] i s h w = tt
set-zeroed-IsValid id (x ∷ t) i s h w = elim (find-cons id x t i s h) [
  | inl (u, e, z, q) ↦ rw z (ground arith)
  | inr (k, miss, e, rest) ↦ rw e (
      ground (
        arith,
        w.0,
        lookup-set-zeroed id x.ask_id t k s rest w.1,
        set-zeroed-IsValid id t k s rest w.1,
      ))
]

-- Clearing an entry removes this entry alone.
pub lookup-clear_found :
    (id j : ℕ) (t : List Slot)
    → IsValid t
    → lookup j (clear_found (find_pending_ask id t) t) ≡ (if id == j then none else lookup j t)
unfolding clear_found
lookup-clear_found id j t w = elim (Option-cases (find_pending_ask id t)) [
  | inl e ↦ rw (e, clear_found) (ground (arith, lookup-eq_none id t e))
  | inr ((i, s), e) ↦ rw (e, clear_found) (lookup-set-zeroed id j t i s e w)
]

pub clear_found-IsValid :
    (id : ℕ) (t : List Slot) → IsValid t → IsValid (clear_found (find_pending_ask id t) t)
unfolding clear_found
clear_found-IsValid id t w = elim (Option-cases (find_pending_ask id t)) [
  | inl e ↦ rw (e, clear_found) w
  | inr ((i, s), e) ↦ rw (e, clear_found) (set-zeroed-IsValid id t i s e w)
]

pub length-clear_found :
    (id : ℕ) (t : List Slot) → length (clear_found (find_pending_ask id t) t) ≡ length t
unfolding clear_found
length-clear_found id t = elim (Option-cases (find_pending_ask id t)) [
  | inl e ↦ rw (e, clear_found)
  | inr ((i, s), e) ↦ rw (e, clear_found) (length-set t i zeroed)
]
