-- ===== src/Ring/Shape.antt =====
-- A ring of slots that is in order, and what the two ports do with one: a message goes in at the
-- tail and comes out at the head, and a restart forgets all of them.
use native.Mathlib.Nat.{mod-add-mod, mod-lt, mod-eq_of_lt}
use actor_framework_cxx.Prelude.{
  ℕ, suc, ◌+◌, ◌-◌, ◌%◌, ◌<◌, ◌≤◌, ◌≡◌, sym, ◌∙◌, ap, List, [], ◌∷◌, ◌++◌, arith, length,
  length-set, length-replicate, get_or, set, replicate,
}
use actor_framework_cxx.Ring.{held, held-cons, held-snoc}

-- The slots are all there, and the tail is `count` after the head.
pub record IsRing {A : Type 0} (slots : List A) (size head tail count : ℕ) : Type 0 where
  pub positive : 0 < size
  pub complete : length slots ≡ size
  pub head_bounded : head < size
  pub count_bounded : count ≤ size
  pub tail_next : tail ≡ (head + count) % size

module _ {A : Type 0} (d : A) where
  -- A slot written at the tail of a ring that is not full.
  pub push_lem :
      (slots : List A) (size h t n : ℕ) (v : A)
      → IsRing slots size h t n
      → n < size
      → IsRing (set slots t v) size h ((t + 1) % size) (n + 1)
        × (held d (set slots t v) size h (n + 1) ≡ held d slots size h n ++ (v ∷ []))
  push_lem slots size h t n v r room = (
    record {
      positive = r.positive;
      complete = length-set slots t v ∙ r.complete;
      head_bounded = r.head_bounded;
      count_bounded = omega arith;
      tail_next =
          ap (λ x. (x + 1) % size) r.tail_next
          ∙ mod-add-mod (h + n) size 1
          ∙ ap (λ x. x % size) (omega arith);
    },
    ap (λ i. held d (set slots i v) size h (n + 1)) r.tail_next
        ∙ ap (λ k. held d (set slots ((h + n) % size) v) size h k) (omega arith)
        ∙ held-snoc d slots size h n v r.complete r.head_bounded room,
  )

  -- The slot at the head of a ring that is not empty, and the ring without it.
  pub take_lem :
      (slots : List A) (size h t n : ℕ)
      → IsRing slots size h t n
      → 0 < n
      → IsRing slots size ((h + 1) % size) t (n - 1)
        × (held d slots size h n ≡ get_or slots h d ∷ held d slots size ((h + 1) % size) (n - 1))
  take_lem slots size h t n r some_in =
      let e : n ≡ suc (n - 1) = omega arith in
      (
        record {
          positive = r.positive;
          complete = r.complete;
          head_bounded = mod-lt (h + 1) r.positive;
          count_bounded = omega (arith, r.count_bounded);
          tail_next =
              r.tail_next
              ∙ ap (λ x. x % size) (omega arith)
              ∙ sym (mod-add-mod (h + 1) size (n - 1));
        },
        ap (λ k. held d slots size h k) e ∙ held-cons d slots size h (n - 1) r.head_bounded,
      )

  pub fresh_lem : (size : ℕ) → 0 < size → IsRing (replicate size d) size 0 0 0
  fresh_lem size p = record {
    positive = p;
    complete = length-replicate size d;
    head_bounded = p;
    count_bounded = omega arith;
    tail_next = sym (mod-eq_of_lt {n = 0} {m = size} p);
  }

pub emptied_lem :
    {A : Type 0} (slots : List A) (size h t n : ℕ)
    → IsRing slots size h t n
    → IsRing slots size 0 0 0
emptied_lem slots size h t n r = record {
  positive = r.positive;
  complete = r.complete;
  head_bounded = r.positive;
  count_bounded = omega arith;
  tail_next = sym (mod-eq_of_lt {n = 0} {m = size} r.positive);
}
