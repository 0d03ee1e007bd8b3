-- ===== src/Registry/Setup/Lists.antt =====
-- The actor list that registration in src/ipc.c builds, and the routes that lead to its actors.
use actor_framework_cxx.Prelude.{
  ℕ, ◌≡◌, refl, ◌∙◌, true, false, ◌||◌, Bool-cases, inl, inr, List, [], ◌∷◌, ◌++◌, ◌==◌, ==_refl,
  arith, if◌then◌else◌,
}
use actor_framework_cxx.State.{Route}
use actor_framework_cxx.Registry.{is_listed}

-- No actor stands in a list twice.
pub data Distinct : List ℕ → Type 0 where
  empty : Distinct []
  new : (a : ℕ) (l : List ℕ) → is_listed a l ≡ false → Distinct l → Distinct (a ∷ l)

-- Each route leads to an actor of the list.
pub data Listed (l : List ℕ) : List Route → Type 0 where
  no_route : Listed l []
  leads_to :
      (r : Route) (t : List Route) → is_listed r.actor l ≡ true → Listed l t → Listed l (r ∷ t)

is_listed-append : (x a : ℕ) (l : List ℕ) → is_listed x (l ++ (a ∷ [])) ≡ (is_listed x l || a == x)
unfolding is_listed
is_listed-append x a [] = ground arith
is_listed-append x a (y ∷ l) = ground (arith, is_listed-append x a l)

-- The list of `append_actor`.
abbrev pub added : ℕ → List ℕ → List ℕ
added a l = if is_listed a l then l else l ++ (a ∷ [])

added-branch {ℓ} :
    (C : List ℕ → Type ℓ) (a : ℕ) (l : List ℕ)
    → (is_listed a l ≡ true → C l)
    → (is_listed a l ≡ false → C (l ++ (a ∷ [])))
    → C (added a l)
added-branch C a l f g = elim (Bool-cases (is_listed a l)) [
  | inl t ↦ rw t (f t)
  | inr n ↦ rw n (g n)
]

pub is_listed-added_self : (a : ℕ) (l : List ℕ) → is_listed a (added a l) ≡ true
is_listed-added_self a l =
    added-branch (λ k. is_listed a k ≡ true) a l (λ t. t)
      (λ n. is_listed-append a a l ∙ rw (n, ==_refl a) refl)

pub is_listed-added : (x a : ℕ) (l : List ℕ) → is_listed x l ≡ true → is_listed x (added a l) ≡ true
is_listed-added x a l h =
    added-branch (λ k. is_listed x k ≡ true) a l (λ t. h) (λ n. is_listed-append x a l ∙ rw h refl)

Distinct-append :
    (a : ℕ) (l : List ℕ) → is_listed a l ≡ false → Distinct l → Distinct (l ++ (a ∷ []))
unfolding is_listed
Distinct-append a _ n empty = new a [] refl empty
Distinct-append a _ n (new x l h d) =
    new x (l ++ (a ∷ [])) (ground (arith, is_listed-append x a l, h, n))
      (Distinct-append a l (ground (arith, n)) d)

pub Distinct-added : (a : ℕ) (l : List ℕ) → Distinct l → Distinct (added a l)
Distinct-added a l d = added-branch Distinct a l (λ t. d) (λ n. Distinct-append a l n d)

pub Listed-added : (a : ℕ) (l : List ℕ) (t : List Route) → Listed l t → Listed (added a l) t
Listed-added a l _ no_route = no_route
Listed-added a l _ (leads_to r t h s) =
    leads_to r t (is_listed-added r.actor a l h) (Listed-added a l t s)

pub Listed-append :
    (l : List ℕ) (t : List Route) (r : Route)
    → is_listed r.actor l ≡ true
    → Listed l t
    → Listed l (t ++ (r ∷ []))
Listed-append l _ r h no_route = leads_to r [] h no_route
Listed-append l _ r h (leads_to q t k s) = leads_to q (t ++ (r ∷ [])) k (Listed-append l t r h s)
