-- ===== src/Definition/Largest.antt =====
-- The macro `IPC_MESSAGE_MAX` of include/ipc.h gives the largest of the sizes.
use actor_framework_cxx.Prelude.{
  ℕ, ◌≤◌, ◌≡◌, ◌⊎◌, refl, sym, subst, inl, inr, List, [], ◌∷◌, Bool-cases, ltb, arith,
}
use actor_framework_cxx.Definition.{message_max, larger}

-- A size stands in a list of sizes.
pub data IsSize (n : ℕ) : List ℕ → Type 0 where
  here : (l : List ℕ) → IsSize n (n ∷ l)
  there : (m : ℕ) (l : List ℕ) → IsSize n l → IsSize n (m ∷ l)

max-first : (before : ℕ) (l : List ℕ) → before ≤ message_max before l
unfolding message_max
max-first before [] = omega arith
max-first before (m ∷ l) = ground (arith, max-first (larger before m) l)

max-all : (n before : ℕ) (l : List ℕ) → IsSize n l → n ≤ message_max before l
unfolding message_max
max-all n before _ (here l) = ground (arith, max-first (larger before n) l)
max-all n before _ (there m l s) = max-all n (larger before m) l s

pub message_max-all : (first n : ℕ) (l : List ℕ) → IsSize n (first ∷ l) → n ≤ message_max first l
message_max-all first _ _ (here l) = max-first first l
message_max-all first n _ (there _ l s) = max-all n first l s

larger-IsSize :
    (before m n : ℕ) (l : List ℕ)
    → n ≡ larger before m ⊎ IsSize n l
    → (n ≡ before) ⊎ IsSize n (m ∷ l)
larger-IsSize before m n l (inr s) = inr (there m l s)
larger-IsSize before m n l (inl e) = elim (Bool-cases (ltb m before)) [
  | inl t ↦ inl (ground (arith, e, t))
  | inr f ↦ inr (subst (λ k. IsSize k (m ∷ l)) (ground (arith, e, f)) (here l))
]

max-one :
    (before : ℕ) (l : List ℕ) → (message_max before l ≡ before) ⊎ IsSize (message_max before l) l
unfolding message_max
max-one before [] = inl refl
max-one before (m ∷ l) =
    larger-IsSize before m (message_max (larger before m) l) l (max-one (larger before m) l)

-- The macro `IPC_MESSAGE_MAX` gives one of the sizes, and no size is larger.
pub message_max-largest :
    (first : ℕ) (l : List ℕ)
    → IsSize (message_max first l) (first ∷ l)
      × ((n : ℕ) → IsSize n (first ∷ l) → n ≤ message_max first l)
message_max-largest first l = elim (max-one first l) [
  | inl e ↦ (subst (λ k. IsSize k (first ∷ l)) (sym e) (here l), λ n. message_max-all first n l)
  | inr s ↦ (there first l s, λ n. message_max-all first n l)
]
