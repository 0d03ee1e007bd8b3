-- ===== src/Registry/Links/Walk.antt =====
-- The walk over the links of the actor list does what the list of the core does.
use actor_framework_cxx.Prelude.{
  ℕ, zero, suc, ◌<◌, ◌≡◌, ◌≢◌, ◌∙◌, refl, sym, ap, subst, Bool, true, false, Bool-cases, inl, inr,
  Option, none, some, List, [], ◌∷◌, ◌++◌, length, ◌==◌, ==_refl, ==→eq, if◌then◌else◌, arith,
}
use actor_framework_cxx.State.{update, Core}
use actor_framework_cxx.Registry.{is_listed, append_actor}
use actor_framework_cxx.Registry.Setup.Lists.{added}
use actor_framework_cxx.Registry.Links.{Links, Place, head, next_of, read, write, walk_step, walk}

-- The links from a place on lead to these actors, in this order, and end.
pub data Chain (s : Links) : Place → List ℕ → Type 0 where
  ends : (pp : Place) → read pp s ≡ none → Chain s pp []
  leads :
      (pp : Place) (x : ℕ) (l : List ℕ)
      → read pp s ≡ some x
      → Chain s (next_of x) l
      → Chain s pp (x ∷ l)

-- The links that exist, other than that of the new actor, are as before.
abbrev pub Kept : ℕ → (s s' : Links) → Type 0
Kept a s s' = (q : Place) (y : ℕ) → q ≢ next_of a → read q s ≡ some y → read q s' ≡ some y

some_ne_none : (y : ℕ) → some y ≢ none
some_ne_none y e = cc

update_same : (f : ℕ → Option ℕ) (x : ℕ) (o : Option ℕ) → update f x o x ≡ o
update_same f x o = rw (==_refl x) refl

update_other : (f : ℕ → Option ℕ) (x y : ℕ) (o : Option ℕ) → y ≢ x → update f x o y ≡ f y
update_other f x y o n = elim (Bool-cases (y == x)) [
  | inl e ↦ absurd (n (==→eq y x e))
  | inr e ↦ rw e refl
]

read-write_same : (p : Place) (o : Option ℕ) (s : Links) → read p (write p o s) ≡ o
read-write_same head o s = refl
read-write_same (next_of x) o s = update_same s.next x o

read-write_ne : (p q : Place) (o : Option ℕ) (s : Links) → q ≢ p → read q (write p o s) ≡ read q s
read-write_ne head head o s n = absurd (n refl)
read-write_ne head (next_of y) o s n = refl
read-write_ne (next_of x) head o s n = refl
read-write_ne (next_of x) (next_of y) o s n = update_other s.next x y o (λ e. n (ap next_of e))

ended-Kept :
    (a : ℕ) (pp : Place) (s : Links)
    → read pp s ≡ none
    → Kept a s (write pp (some a) (write (next_of a) none s))
ended-Kept a pp s z q y n e =
    read-write_ne pp q (some a) (write (next_of a) none s)
      (λ k. some_ne_none y (sym e ∙ ap (λ p. read p s) k ∙ z))
    ∙ read-write_ne (next_of a) q none s n
    ∙ e

ended-Chain :
    (a : ℕ) (pp : Place) (s : Links)
    → pp ≢ next_of a
    → Chain (write pp (some a) (write (next_of a) none s)) pp (a ∷ [])
ended-Chain a pp s n = leads pp a [] (read-write_same pp (some a) (write (next_of a) none s)) (
    ends (next_of a) (
      read-write_ne pp (next_of a) (some a) (write (next_of a) none s) (λ e. n (sym e))
      ∙ read-write_same (next_of a) none s))

-- The walk from a place ends, with the actor added to those that follow, and the other links are kept.
abbrev Walked : ℕ → Place → List ℕ → Links → Option Links → Type 0
Walked a pp l s o = (s' : Links) × (o ≡ some s') × Chain s' pp (added a l) × Kept a s s'

found-Walked :
    (go : ℕ → Option Links) (a : ℕ) (pp : Place) (x : ℕ) (l : List ℕ) (s : Links)
    → read pp s ≡ some x
    → Chain s (next_of x) l
    → (x == a) ≡ true
    → Walked a pp (x ∷ l) s (walk_step go pp a s (some x))
unfolding walk_step is_listed
found-Walked go a pp x l s r c e = rw e (s, refl, leads pp x l r c, λ q y n k. k)

chain_if :
    (a : ℕ) (b : Bool) (s : Links) (pp : Place) (x : ℕ) (l : List ℕ)
    → Chain s pp (x ∷ (if b then l else l ++ (a ∷ [])))
    → Chain s pp (if b then x ∷ l else x ∷ (l ++ (a ∷ [])))
chain_if a true s pp x l c = c
chain_if a false s pp x l c = c

passed-Walked :
    (go : ℕ → Option Links) (a : ℕ) (pp : Place) (x : ℕ) (l : List ℕ) (s : Links)
    → pp ≢ next_of a
    → read pp s ≡ some x
    → (x == a) ≡ false
    → Walked a (next_of x) l s (go x)
    → Walked a pp (x ∷ l) s (walk_step go pp a s (some x))
unfolding walk_step is_listed
passed-Walked go a pp x l s p r e (s', w, c, k) =
    rw e (s', w, chain_if a (is_listed a l) s' pp x l (leads pp x (added a l) (k pp x p r) c), k)

next_ne : (x a : ℕ) → (x == a) ≡ false → next_of x ≢ next_of a
next_ne x a e k = ground (arith, e, k)

walk-Walked :
    (a n : ℕ) (pp : Place) (l : List ℕ) (s : Links)
    → length l < n
    → pp ≢ next_of a
    → Chain s pp l
    → Walked a pp l s (walk n pp a s)
unfolding walk walk_step is_listed
walk-Walked a zero pp l s h p c = absurd (omega (arith, h))
walk-Walked a (suc n) pp [] s h p (ends _ z) =
    let go : ℕ → Option Links = λ x. walk n (next_of x) a s in
    subst (λ o. Walked a pp [] s (walk_step go pp a s o)) (sym z)
      (
        write pp (some a) (write (next_of a) none s),
        refl,
        ended-Chain a pp s p,
        ended-Kept a pp s z,
      )
walk-Walked a (suc n) pp (x ∷ l) s h p (leads _ _ _ r c) =
    let go : ℕ → Option Links = λ x. walk n (next_of x) a s in
    subst (λ o. Walked a pp (x ∷ l) s (walk_step go pp a s o)) (sym r)
      (elim (Bool-cases (x == a)) [
        | inl e ↦ found-Walked go a pp x l s r c e
        | inr e ↦
            passed-Walked go a pp x l s p r e
              (walk-Walked a n (next_of x) l s (omega (arith, h)) (next_ne x a e) c)
      ])

head_ne : (a : ℕ) → head ≢ next_of a
head_ne a e = cc

actor_list_if :
    (b : Bool) (c d : Core)
    → (if b then c else d).actor_list ≡ (if b then c.actor_list else d.actor_list)
actor_list_if true c d = refl
actor_list_if false c d = refl

-- The walk over the links ends, within one round more than there are actors, and does to them what the
-- core's list says: where they lead to the actors of that list, they lead to those of the new list
-- afterwards, the new actor last or, if it was among them, the same. The links of other actors are
-- written to only at the end of the list.
pub walk-append_actor :
    (a n : ℕ) (c : Core) (s : Links)
    → length c.actor_list < n
    → Chain s head c.actor_list
    → (s' : Links) × (walk n head a s ≡ some s')
      × Chain s' head (append_actor a c).actor_list
      × Kept a s s'
unfolding append_actor
walk-append_actor a n c s h k =
    let (s', w, d, kept) = walk-Walked a n head c.actor_list s h (λ e. head_ne a e) k in
    (
      s',
      w,
      subst (λ l. Chain s' head l)
          (sym (
            actor_list_if (is_listed a c.actor_list) c
              (record c { actor_list = c.actor_list ++ (a ∷ []) })))
          d,
      kept,
    )
