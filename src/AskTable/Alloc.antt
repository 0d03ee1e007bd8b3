-- ===== src/AskTable/Alloc.antt =====
-- The slot that `alloc_pending_ask` of src/ipc.c returns, and what filling it does to the map.
use actor_framework_cxx.Prelude.{
  ℕ, suc, ◌⊎◌, inl, inr, Bool-cases, Option-cases, ◌<◌, ◌≤◌, ◌≡◌, refl, true, false, none, some,
  List, [], ◌∷◌, arith, ◌==◌, if◌then◌else◌, set, length,
}
use actor_framework_cxx.State.{Slot}
use actor_framework_cxx.AskTable.{alloc_pending_ask}
use actor_framework_cxx.AskTable.Lookup.{lookup, IsValid}

abbrev pub count_used : List Slot → ℕ
count_used [] = 0
count_used (s ∷ t) = if s.used then suc (count_used t) else count_used t

count_used-le : (t : List Slot) → count_used t ≤ length t
count_used-le [] = omega arith
count_used-le (s ∷ t) = ground (arith, count_used-le t)

alloc-cons :
    (x : Slot) (t : List Slot) (i : ℕ)
    → alloc_pending_ask (x ∷ t) ≡ some i
    → ((x.used ≡ false) × (i ≡ 0))
      ⊎ ((k : ℕ) × (x.used ≡ true) × (i ≡ suc k) × (alloc_pending_ask t ≡ some k))
unfolding alloc_pending_ask
alloc-cons x t i h = elim (Option-cases (alloc_pending_ask t)) [
  | inl e ↦ inl (ground arith, ground arith)
  | inr (k, e) ↦ elim (Bool-cases x.used) [
    | inl u ↦ inr (k, u, ground arith, e)
    | inr u ↦ inl (u, ground arith)
  ]
]

alloc-nil : (i : ℕ) → alloc_pending_ask [] ≡ some i → ⊥
unfolding alloc_pending_ask
alloc-nil i h = cc

-- The slot lies in the table, and the table is not full.
pub alloc-some :
    (t : List Slot) (i : ℕ)
    → alloc_pending_ask t ≡ some i
    → (count_used t < length t) × (i < length t)
alloc-some [] i h = absurd (alloc-nil i h)
alloc-some (x ∷ t) i h = elim (alloc-cons x t i h) [
  | inl (u, z) ↦ ground (arith, count_used-le t)
  | inr (k, u, e, rest) ↦ ground (arith, alloc-some t k rest)
]

pub alloc-none : (t : List Slot) → alloc_pending_ask t ≡ none → count_used t ≡ length t
unfolding alloc_pending_ask
alloc-none [] h = refl
alloc-none (s ∷ t) h = elim (Option-cases (alloc_pending_ask t)) [
  | inl e ↦ ground (arith, alloc-none t e)
  | inr (k, e) ↦ absurd (ground arith)
]

-- Filling the free slot under a fresh id adds this entry alone.
pub lookup-alloc :
    (j : ℕ) (t : List Slot) (i : ℕ) (v : Slot)
    → alloc_pending_ask t ≡ some i
    → v.used ≡ true
    → lookup v.ask_id t ≡ none
    → lookup j (set t i v) ≡ (if v.ask_id == j then some v else lookup j t)
unfolding lookup
lookup-alloc j [] i v h hu hf = absurd (alloc-nil i h)
lookup-alloc j (x ∷ t) i v h hu hf = elim (alloc-cons x t i h) [
  | inl (u, z) ↦ rw z (ground arith)
  | inr (k, u, e, rest) ↦ rw e (ground (arith, lookup-alloc j t k v rest hu (ground arith)))
]

pub alloc-IsValid :
    (t : List Slot) (i : ℕ) (v : Slot)
    → alloc_pending_ask t ≡ some i
    → v.used ≡ true
    → lookup v.ask_id t ≡ none
    → 0 < v.ask_id
    → v.ask_id < 4294967296
    → IsValid t
    → IsValid (set t i v)
unfolding lookup
alloc-IsValid [] i v h hu hf p b w = tt
alloc-IsValid (x ∷ t) i v h hu hf p b w = elim (alloc-cons x t i h) [
  | inl (u, z) ↦ rw z (ground arith)
  | inr (k, u, e, rest) ↦
      let hf' : lookup v.ask_id t ≡ none = ground arith in
      rw e (
        ground (
          arith,
          w.0,
          lookup-alloc x.ask_id t k v rest hu hf',
          alloc-IsValid t k v rest hu hf' p b w.1,
        ))
]
