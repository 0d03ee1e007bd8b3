-- ===== src/Slot/Size.antt =====
-- How large and how aligned the slots of include/ipc.h are: `IPC_ALIGN_UP` on `size_t`.
use Prim.Native.Nat.{digits, bit_and-bitwise}
use native.Mathlib.Nat.{pow-suc, one-le-pow, mod-lt, mod-add-div', mul-le-mul_right, mul-mod_left}
use native.Mathlib.Decide.{dec_lt}
use actor_framework_cxx.Prelude.{
  ℕ, zero, suc, ◌+◌, ◌-◌, ◌*◌, ◌/◌, ◌%◌, ◌^◌, ◌<◌, ◌≤◌, ◌≡◌, refl, sym, ap, ◌∙◌, min, arith,
}
use actor_framework_cxx.Slot.{Abi, size_t, align_up, slot_size_of}

-- The recursion that `bit_and` stands for.
abbrev and_fuel : ℕ → ℕ → ℕ → ℕ
and_fuel n a b = digits (λ b. zero) min n a b

-- All digits of `a` are below the `m` ones of the mask.
keep_low : (n m a : ℕ) → a ≤ n → a < 2 ^ m → and_fuel n a (2 ^ m - 1) ≡ a
keep_low zero m a h l = omega arith
keep_low (suc n) m zero h l = refl
keep_low (suc n) zero (suc a) h l = absurd (omega arith)
keep_low (suc n) (suc m) (suc a) h l =
    let p = pow-suc 2 m in
    let half : (2 ^ suc m - 1) / 2 ≡ 2 ^ m - 1 = omega arith in
    let odd : (2 ^ suc m - 1) % 2 ≡ 1 = omega (arith, one-le-pow m 2) in
    rw (half, odd) (omega (arith, keep_low n m (suc a / 2) (omega arith) (omega arith)))

-- The mask with `k` zeros below its ones clears the digits there.
clear_low :
    (k n m q r a b : ℕ)
    → a ≡ q * 2 ^ k + r
    → b ≡ (2 ^ m - 1) * 2 ^ k
    → r < 2 ^ k
    → q < 2 ^ m
    → a ≤ n
    → and_fuel n a b ≡ q * 2 ^ k
clear_low zero n m q r a b ea eb hr hq ha =
    let same_a : a ≡ q = omega arith in
    let same_b : b ≡ 2 ^ m - 1 = omega arith in
    rw same_b (keep_low n m a ha (omega arith) ∙ omega arith)
clear_low (suc k) zero m q r a b ea eb hr hq ha = omega arith
clear_low (suc k) (suc n) m q r zero b ea eb hr hq ha = omega arith
clear_low (suc k) (suc n) m q r (suc a) b ea eb hr hq ha =
    let p = pow-suc 2 k in
    let qa : q * 2 ^ suc k ≡ 2 * (q * 2 ^ k) = omega (arith, ap (λ (t : ℕ). q * t) p) in
    let qb : (2 ^ m - 1) * 2 ^ suc k ≡ 2 * ((2 ^ m - 1) * 2 ^ k) =
      omega (arith, ap (λ (t : ℕ). (2 ^ m - 1) * t) p) in
    let half_a : suc a / 2 ≡ q * 2 ^ k + r / 2 = omega arith in
    let half_b : b / 2 ≡ (2 ^ m - 1) * 2 ^ k = omega arith in
    let even_b : b % 2 ≡ 0 = omega arith in
    rw even_b (
      omega (
        arith,
        clear_low k n m q (r / 2) (suc a / 2) (b / 2) half_a half_b (omega arith) hq (omega arith),
      ))

pow-split : (k m : ℕ) → 2 ^ (k + m) ≡ 2 ^ m * 2 ^ k
pow-split zero m = let e : 0 + m ≡ m = omega arith in rw e (omega arith)
pow-split (suc k) m =
    let e : suc k + m ≡ suc (k + m) = omega arith in
    rw e (omega (arith, pow-suc 2 (k + m), pow-split k m, ap (λ (t : ℕ). 2 ^ m * t) (pow-suc 2 k)))

below : (q t a : ℕ) → q * a < t * a → q < t
below q t a h = elim (dec_lt q t) [
  | Dec.yes l ↦ l
  | Dec.no g ↦ absurd (omega (arith, mul-le-mul_right {m = t} {n = q} a (omega arith)))
]

minus_one : (t a : ℕ) → 0 < t → (t - 1) * a + a ≡ t * a
minus_one zero a h = absurd (omega arith)
minus_one (suc t) a h = grind arith

-- `IPC_ALIGN_UP` rounds up to a multiple of the alignment.
align_up_lem :
    (value k m : ℕ)
    → k + m ≡ 64
    → value + 2 ^ k ≤ 2 ^ 64
    → (q : ℕ) × (align_up value (2 ^ k) ≡ q * 2 ^ k)
      × (value ≤ align_up value (2 ^ k))
      × (align_up value (2 ^ k) < value + 2 ^ k)
align_up_lem value k m h fits =
    let a = 2 ^ k in
    let x = value + (a - 1) in
    let one = one-le-pow k 2 in
    let whole : 2 ^ m * a ≡ 2 ^ 64 = sym (pow-split k m) ∙ ap (λ t. 2 ^ t) h in
    let split = mod-add-div' x a in
    let rest = mod-lt x {m = a} (one (omega arith)) in
    let small : x / a < 2 ^ m = below (x / a) (2 ^ m) a (omega arith) in
    let mask : 18446744073709551616 - a ≡ (2 ^ m - 1) * a =
      omega (arith, whole, minus_one (2 ^ m) a (one-le-pow m 2 (omega arith))) in
    let fit : size_t x ≡ x = omega arith in
    let cleared : align_up value a ≡ x / a * a = rw fit (
      bit_and-bitwise x (18446744073709551616 - a)
      ∙ clear_low k x m (x / a) (x % a) x (18446744073709551616 - a) (omega arith) mask rest small
          (omega arith)) in
    (x / a, cleared, omega arith, omega arith)

-- The stride of the slots of a mailbox is a multiple of the alignment, so that every slot of a block
-- that is aligned is aligned; it holds the aligned header and the largest payload, with less than one
-- alignment to spare. The alignment is a power of two, and header, payload and two alignments together
-- stay below the range of `size_t`.
pub slot_size_of_lem :
    (abi : Abi) (max_payload_size k m : ℕ)
    → abi.alignment ≡ 2 ^ k
    → k + m ≡ 64
    → abi.header + max_payload_size + 2 * abi.alignment ≤ 2 ^ 64
    → let head = align_up abi.header abi.alignment in
      let slot = slot_size_of abi max_payload_size in
      (slot % abi.alignment ≡ 0)
      × (head % abi.alignment ≡ 0)
      × (abi.header ≤ head)
      × (head + max_payload_size ≤ slot)
      × (slot < head + max_payload_size + abi.alignment)
      × (slot < abi.header + max_payload_size + 2 * abi.alignment)
unfolding slot_size_of
slot_size_of_lem abi max k m ea h fits =
    let (p, up, low, high) = align_up_lem abi.header k m h (omega arith) in
    let head = align_up abi.header (2 ^ k) in
    let fit : size_t (head + max) ≡ head + max = omega arith in
    let (q, up', low', high') = align_up_lem (head + max) k m h (omega arith) in
    rw (ea, fit)
      (
        ap (λ x. x % 2 ^ k) up' ∙ mul-mod_left q (2 ^ k),
        ap (λ x. x % 2 ^ k) up ∙ mul-mod_left p (2 ^ k),
        low,
        low',
        high',
        omega (arith, high, high'),
      )
