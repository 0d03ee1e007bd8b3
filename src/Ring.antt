-- ===== src/Ring.antt =====
-- The queue that a ring of slots holds, for the mailboxes of src/port/posix and src/port/test: their
-- `head`, `count` and `capacity` over an array, going round at its end.
pub mod Shape
use native.Mathlib.Nat.{mod-eq_of_lt, mod-eq-sub-mod, mod-add-mod, mod-lt}
use native.Mathlib.Decide.{dec_lt}
use actor_framework_cxx.Prelude.{
  ℕ, zero, suc, ◌+◌, ◌-◌, ◌%◌, ◌<◌, ◌≤◌, ◌≡◌, ◌≢◌, refl, sym, subst, ◌∙◌, ap, List, [], ◌∷◌, ◌++◌,
  arith, get_or, set, length, length-append,
}

index-zero : (h size : ℕ) → h < size → (h + 0) % size ≡ h
index-zero h size hh = grind arith

index-next : (h n size : ℕ) → (h + suc n) % size ≡ ((h + 1) % size + n) % size
index-next h n size = ap (λ x. x % size) (omega arith) ∙ sym (mod-add-mod (h + 1) size n)

mod-once : (x size : ℕ) → size ≤ x → x < size + size → x % size ≡ x - size
mod-once x size l g = mod-eq-sub-mod l ∙ mod-eq_of_lt {n = x - size} {m = size} (omega arith)

-- Two entries less than a whole round apart stand in two slots.
round-ne : (h k n size : ℕ) → h < size → k < n → n < size → (h + k) % size ≢ (h + n) % size
round-ne h k n size hh hk hn e = elim (dec_lt (h + n) size) [
  | Dec.yes l ↦
      let e1 = mod-eq_of_lt {n = h + n} {m = size} l in
      let e2 = mod-eq_of_lt {n = h + k} {m = size} (omega arith) in omega arith
  | Dec.no g ↦
      let e1 = mod-once (h + n) size (omega arith) (omega arith) in
      elim (dec_lt (h + k) size) [
        | Dec.yes l ↦ let e2 = mod-eq_of_lt {n = h + k} {m = size} l in omega arith
        | Dec.no f ↦ let e2 = mod-once (h + k) size (omega arith) (omega arith) in omega arith
      ]
]

module _ {A : Type 0} (d : A) where
  -- Reading and writing an array within its bounds.
  pub get_or-set_self : (xs : List A) (i : ℕ) (v : A) → i < length xs → get_or (set xs i v) i d ≡ v
  get_or-set_self [] i v h = absurd (omega arith)
  get_or-set_self (x ∷ xs) zero v h = refl
  get_or-set_self (x ∷ xs) (suc i) v h = get_or-set_self xs i v (omega arith)

  pub get_or-set_ne :
      (xs : List A) (i j : ℕ) (v : A) → i ≢ j → get_or (set xs i v) j d ≡ get_or xs j d
  get_or-set_ne [] i j v h = refl
  get_or-set_ne (x ∷ xs) zero zero v h = absurd (h refl)
  get_or-set_ne (x ∷ xs) zero (suc j) v h = refl
  get_or-set_ne (x ∷ xs) (suc i) zero v h = refl
  get_or-set_ne (x ∷ xs) (suc i) (suc j) v h = get_or-set_ne xs i j v (λ e. h (ap suc e))

  -- The entries in use, oldest first: the slot of each is its distance from the head, modulo the
  -- capacity.
  pub held : List A → (size head count : ℕ) → List A
  held buf size h zero = []
  held buf size h (suc n) = held buf size h n ++ (get_or buf ((h + n) % size) d ∷ [])

  pub held-zero : (buf : List A) (size h : ℕ) → held buf size h 0 ≡ []
  unfolding held
  held-zero buf size h = refl

  pub length-held : (buf : List A) (size h n : ℕ) → length (held buf size h n) ≡ n
  unfolding held
  length-held buf size h zero = refl
  length-held buf size h (suc n) = omega (
    arith,
    length-append (held buf size h n) (get_or buf ((h + n) % size) d ∷ []),
    length-held buf size h n,
  )

  -- Taking the oldest entry moves the head on.
  pub held-cons :
      (buf : List A) (size h n : ℕ)
      → h < size
      → held buf size h (suc n) ≡ get_or buf h d ∷ held buf size ((h + 1) % size) n
  unfolding held
  held-cons buf size h zero hh = ap (λ k. get_or buf k d ∷ []) (index-zero h size hh)
  held-cons buf size h (suc n) hh =
      ap (λ (t : List A). t ++ (get_or buf ((h + suc n) % size) d ∷ [])) (held-cons buf size h n hh)
      ∙ ap (λ k. get_or buf h d ∷ (held buf size ((h + 1) % size) n ++ (get_or buf k d ∷ [])))
          (index-next h n size)

  -- A write to a slot that is not in use changes nothing.
  held-set_free :
      (buf : List A) (size h n i : ℕ) (v : A)
      → ((k : ℕ) → k < n → i ≢ (h + k) % size)
      → held (set buf i v) size h n ≡ held buf size h n
  unfolding held
  held-set_free buf size h zero i v f = refl
  held-set_free buf size h (suc n) i v f =
      ap (λ (t : List A). t ++ (get_or (set buf i v) ((h + n) % size) d ∷ []))
        (held-set_free buf size h n i v (λ k l. f k (omega arith)))
      ∙ ap (λ x. held buf size h n ++ (x ∷ []))
          (get_or-set_ne buf i ((h + n) % size) v (f n (omega arith)))

  -- Writing the next free slot adds an entry at the end.
  pub held-snoc :
      (buf : List A) (size h n : ℕ) (v : A)
      → length buf ≡ size
      → h < size
      → n < size
      → held (set buf ((h + n) % size) v) size h (suc n) ≡ held buf size h n ++ (v ∷ [])
  unfolding held
  held-snoc buf size h n v hl hh hn =
      ap (λ (t : List A). t ++ (get_or (set buf ((h + n) % size) v) ((h + n) % size) d ∷ []))
        (held-set_free buf size h n ((h + n) % size) v
          (λ k l e. round-ne h k n size hh l hn (sym e)))
      ∙ ap (λ x. held buf size h n ++ (x ∷ []))
          (get_or-set_self buf ((h + n) % size) v
            (subst (λ x. (h + n) % size < x) (sym hl) (mod-lt (h + n) (omega arith))))
