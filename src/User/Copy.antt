-- ===== src/User/Copy.antt =====
-- The byte loops of lab6/OrangePiVer/Src/user.c.
use native.Mathlib.Decide.{ℕ_discrete}
use nycu_osc_lab.Prelude.{ℕ, zero, suc, ◌+◌, ◌≤◌, ◌<◌, ◌≡◌, refl, ◌∙◌, ◌⊎◌, inl, update, arith}
use nycu_osc_lab.User.{Memory, mem_zero, mem_copy}

pub mem_copy_out :
    (left i dst src a : ℕ) (m : Memory)
    → (a < dst + i) ⊎ (dst + i + left ≤ a)
    → mem_copy left i dst src m a ≡ m a
unfolding mem_copy
mem_copy_out zero i dst src a m h = refl
mem_copy_out (suc left) i dst src a m h =
    mem_copy_out left (i + 1) dst src a (update m (dst + i) (m (src + i))) (omega (arith, h))
    ∙ ground (arith, h)

-- Where the two places do not overlap, the destination becomes the source.
pub mem_copy_in :
    (left i dst src n k : ℕ) (m : Memory)
    → i + left ≡ n
    → (dst + n ≤ src) ⊎ (src + n ≤ dst)
    → i ≤ k
    → k < n
    → mem_copy left i dst src m (dst + k) ≡ m (src + k)
unfolding mem_copy
mem_copy_in zero i dst src n k m e apart lo hi = absurd (omega arith)
mem_copy_in (suc left) i dst src n k m e apart lo hi = elim (ℕ_discrete k i) [
  | yes at_i ↦
      mem_copy_out left (i + 1) dst src (dst + k) (update m (dst + i) (m (src + i)))
        (inl (omega arith))
      ∙ ground (arith, at_i)
  | no ne ↦
      mem_copy_in left (i + 1) dst src n k (update m (dst + i) (m (src + i))) (omega arith) apart
        (omega arith) hi
      ∙ ground (arith, apart)
]

pub mem_zero_out :
    (left i dst a : ℕ) (m : Memory)
    → (a < dst + i) ⊎ (dst + i + left ≤ a)
    → mem_zero left i dst m a ≡ m a
unfolding mem_zero
mem_zero_out zero i dst a m h = refl
mem_zero_out (suc left) i dst a m h =
    mem_zero_out left (i + 1) dst a (update m (dst + i) 0) (omega (arith, h)) ∙ ground (arith, h)

pub mem_zero_in :
    (left i dst k : ℕ) (m : Memory) → i ≤ k → k < i + left → mem_zero left i dst m (dst + k) ≡ 0
unfolding mem_zero
mem_zero_in zero i dst k m lo hi = absurd (omega arith)
mem_zero_in (suc left) i dst k m lo hi = elim (ℕ_discrete k i) [
  | yes at_i ↦
      mem_zero_out left (i + 1) dst (dst + k) (update m (dst + i) 0) (inl (omega arith))
      ∙ ground (arith, at_i)
  | no ne ↦ mem_zero_in left (i + 1) dst k (update m (dst + i) 0) (omega arith) (omega arith)
]
