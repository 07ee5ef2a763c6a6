-- ===== src/Mm/Buddy/Align.antt =====
-- Block arithmetic for lab6/OrangePiVer/Src/mm.c: a block of order o starts at a multiple of 2 ^ o,
-- and `idx ^ (1UL << order)` is the other half of the block of the next order.
use Prim.Native.Nat.{digits, differ, bit_xor, bit_xor-bitwise}
use native.Mathlib.Nat.{mul-mod_left, div-add-mod', two-pow-succ, one-le-pow, le_refl}
use native.Mathlib.Decide.{ℕ_discrete}
use nycu_osc_lab.Prelude.{ℕ, zero, suc, ◌+◌, ◌*◌, ◌/◌, ◌%◌, ◌^◌, ◌≤◌, ◌≡◌, refl, ap, ◌∙◌, arith}

pub pow_pos : (o : ℕ) → 1 ≤ 2 ^ o
pow_pos o = one-le-pow o 2 (omega arith)

pub pow-suc_two : (o : ℕ) → 2 ^ suc o ≡ 2 ^ o + 2 ^ o
pow-suc_two o = two-pow-succ o

-- 2 ^ (o + d), as the split loop goes down in d.
pub pow-add_suc : (o d : ℕ) → 2 ^ (o + suc d) ≡ 2 ^ (o + d) + 2 ^ (o + d)
pow-add_suc o d =
    let e : o + suc d ≡ suc (o + d) = omega arith in ap (λ t. 2 ^ t) e ∙ pow-suc_two (o + d)

pub pow-le-pow_add : (o d : ℕ) → 2 ^ o ≤ 2 ^ (o + d)
pow-le-pow_add o zero = let e : o + 0 ≡ o = omega arith in rw e (le_refl (2 ^ o))
pow-le-pow_add o (suc d) = omega (arith, pow-add_suc o d, pow-le-pow_add o d)

mod_of_mul : {a : ℕ} (q s : ℕ) → a ≡ q * s → a % s ≡ 0
mod_of_mul q s e = rw e (mul-mod_left q s)

mul_of_mod : (a s : ℕ) → a % s ≡ 0 → a ≡ a / s * s
mul_of_mod a s e = omega (arith, div-add-mod' a s)

-- Both halves of an aligned block are aligned.
pub halves_aligned : (i o : ℕ) → i % 2 ^ suc o ≡ 0 → (i % 2 ^ o ≡ 0) × ((i + 2 ^ o) % 2 ^ o ≡ 0)
halves_aligned i o h =
    let q = i / 2 ^ suc o in
    let e : i ≡ (q + q) * 2 ^ o =
      omega (arith, mul_of_mod i (2 ^ suc o) h, ap (λ (t : ℕ). q * t) (pow-suc_two o)) in
    (mod_of_mul (q + q) (2 ^ o) e, mod_of_mul (q + q + 1) (2 ^ o) (omega (arith, e)))

-- The digits of `a` exclusive or 0, with fuel `n`.
xor_digits : ℕ → ℕ → ℕ → ℕ
xor_digits = digits (λ b. b) differ

differ-zero : (x : ℕ) → differ x 0 ≡ x
differ-zero zero = refl
differ-zero (suc x) = refl

xor_digits-zero : (n a : ℕ) → a ≤ n → xor_digits n a 0 ≡ a
unfolding xor_digits
xor_digits-zero zero zero h = refl
xor_digits-zero zero (suc a) h = absurd (omega arith)
xor_digits-zero (suc n) zero h = refl
xor_digits-zero (suc n) (suc a) h =
    omega (arith, xor_digits-zero n (suc a / 2) (omega arith), differ-zero (suc a % 2))

-- One digit of a number and of a power of two.
xor_digits-one :
    (n a : ℕ) → a ≤ n → xor_digits (suc n) (suc a) 1 ≡ suc a / 2 * 2 + differ (suc a % 2) 1
unfolding xor_digits
xor_digits-one n a h = omega (arith, xor_digits-zero n (suc a / 2) (omega arith))

xor_digits-suc :
    (n a k : ℕ)
    → xor_digits (suc n) (suc a) (2 ^ suc k) ≡ xor_digits n (suc a / 2) (2 ^ k) * 2 + suc a % 2
unfolding xor_digits
xor_digits-suc n a k =
    let low : 2 ^ suc k % 2 ≡ 0 = omega (arith, pow-suc_two k) in
    let high : 2 ^ suc k / 2 ≡ 2 ^ k = omega (arith, pow-suc_two k) in
    rw (low, high)
      (ap (λ t. digits (λ b. b) differ n (suc a / 2) (2 ^ k) * 2 + t) (differ-zero (suc a % 2)))

xor_digits-nil : (n b : ℕ) → xor_digits n 0 b ≡ b
unfolding xor_digits
xor_digits-nil zero b = refl
xor_digits-nil (suc n) b = refl

mul-pow-suc : (q k : ℕ) → q * 2 ^ suc k ≡ q * 2 ^ k + q * 2 ^ k
mul-pow-suc q k = omega (arith, ap (λ (t : ℕ). q * t) (pow-suc_two k))

-- In the left half the bit is clear and is set; in the right half it is set and is cleared.
xor_digits-left : (k n a q : ℕ) → a ≤ n → a ≡ q * 2 * 2 ^ k → xor_digits n a (2 ^ k) ≡ a + 2 ^ k
xor_digits-left k n zero q h e = rw (xor_digits-nil n (2 ^ k)) (omega arith)
xor_digits-left k zero (suc a) q h e = absurd (omega arith)
xor_digits-left zero (suc n) (suc a) q h e =
    let even : suc a % 2 ≡ 0 = omega (arith, e) in
    rw (xor_digits-one n a (omega arith), even) (omega (arith, e))
xor_digits-left (suc k) (suc n) (suc a) q h e =
    let half : suc a / 2 ≡ q * 2 * 2 ^ k = omega (arith, e, mul-pow-suc q k) in
    omega (
      arith,
      xor_digits-suc n a k,
      xor_digits-left k n (suc a / 2) q (omega arith) half,
      pow-suc_two k,
      mul-pow-suc q k,
    )

xor_digits-right :
    (k n a q : ℕ) → a ≤ n → a ≡ (q * 2 + 1) * 2 ^ k → xor_digits n a (2 ^ k) + 2 ^ k ≡ a
xor_digits-right k n zero q h e = absurd (omega (arith, e, pow_pos k))
xor_digits-right k zero (suc a) q h e = absurd (omega arith)
xor_digits-right zero (suc n) (suc a) q h e =
    let odd : suc a % 2 ≡ 1 = omega (arith, e) in
    rw (xor_digits-one n a (omega arith), odd) (omega (arith, e))
xor_digits-right (suc k) (suc n) (suc a) q h e =
    let half : suc a / 2 ≡ (q * 2 + 1) * 2 ^ k = omega (arith, e, mul-pow-suc q k, pow-suc_two k) in
    omega (
      arith,
      xor_digits-suc n a k,
      xor_digits-right k n (suc a / 2) q (omega arith) half,
      pow-suc_two k,
      mul-pow-suc q k,
    )

-- Where the buddy of an aligned block lies: the second half when the block is the first half of an
-- aligned block of the next order, else the first half.
pub data BuddyAt (i o : ℕ) : Type 0 where
  right : bit_xor i (2 ^ o) ≡ i + 2 ^ o → i % 2 ^ suc o ≡ 0 → BuddyAt i o
  left : bit_xor i (2 ^ o) + 2 ^ o ≡ i → bit_xor i (2 ^ o) % 2 ^ suc o ≡ 0 → BuddyAt i o

pub buddy_at : (i o : ℕ) → i % 2 ^ o ≡ 0 → BuddyAt i o
unfolding xor_digits
buddy_at i o h = elim (ℕ_discrete (i / 2 ^ o % 2) 0) [
  | yes even ↦
      let e : i ≡ r * 2 * 2 ^ o = times (omega arith) in
      let x : bit_xor i (2 ^ o) ≡ i + 2 ^ o =
        bit_xor-bitwise i (2 ^ o) ∙ xor_digits-left o i i r (le_refl i) e in
      right x (mod_of_mul r (2 ^ suc o) (omega (arith, e, mul-pow-suc r o)))
  | no odd ↦
      let e : i ≡ (r * 2 + 1) * 2 ^ o = times (omega arith) in
      let x : bit_xor i (2 ^ o) + 2 ^ o ≡ i =
        ap (λ t. t + 2 ^ o) (bit_xor-bitwise i (2 ^ o)) ∙ xor_digits-right o i i r (le_refl i) e in
      left x (mod_of_mul r (2 ^ suc o) (omega (arith, x, e, mul-pow-suc r o)))
]
  where
    r : ℕ
    r = i / 2 ^ o / 2

    times : {q : ℕ} → i / 2 ^ o ≡ q → i ≡ q * 2 ^ o
    times e = mul_of_mod i (2 ^ o) h ∙ ap (λ t. t * 2 ^ o) e
