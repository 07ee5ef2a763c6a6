-- ===== src/Vm/Early/Tables.antt =====
-- The loops of setup_vm of lab6/OrangePiVer/Src/vm.c.
use Prim.Native.Nat.{bit_or}
use mathlib.Core.Path.{subst}
use native.Mathlib.Decide.{ℕ_discrete}
use nycu_osc_lab.Prelude.{ℕ, zero, suc, ◌+◌, ◌*◌, ◌≤◌, ◌<◌, ◌≡◌, refl, ap, ◌∙◌, update, arith}
use nycu_osc_lab.Vm.{pa_to_pte, pte_v}
use nycu_osc_lab.Vm.Early.{
  Addresses, Early, fill_loop, fill, clear_early, big_page, map_gib, map_gibs, clear_pmds,
  kernel_pgd_base,
}

fill_loop_out :
    (left i : ℕ) (value table : ℕ → ℕ) (j : ℕ) → j < i → fill_loop left i value table j ≡ table j
unfolding fill_loop
fill_loop_out zero i value table j lt = refl
fill_loop_out (suc left) i value table j lt =
    fill_loop_out left (i + 1) value (update table i (value i)) j (omega arith) ∙ ground (arith, lt)

fill_loop_in :
    (left i : ℕ) (value table : ℕ → ℕ) (j : ℕ)
    → i ≤ j
    → j < i + left
    → fill_loop left i value table j ≡ value j
unfolding fill_loop
fill_loop_in zero i value table j lo hi = absurd (omega arith)
fill_loop_in (suc left) i value table j lo hi = elim (ℕ_discrete j i) [
  | yes e ↦
      fill_loop_out left (i + 1) value (update table i (value i)) j (omega arith)
      ∙ ground (arith, e, ap value e)
  | no ne ↦ fill_loop_in left (i + 1) value (update table i (value i)) j (omega arith) (omega arith)
]

pub fill_in : (value table : ℕ → ℕ) (j : ℕ) → j < 512 → fill value table j ≡ value j
unfolding fill
fill_in value table j h = fill_loop_in 512 0 value table j (omega arith) h

-- The entry that leads to the table at `pa`.
unfoldable pub to_table : ℕ → ℕ
to_table pa = bit_or (pa_to_pte pa) pte_v

-- The first `n` GiB are mapped, twice.
pub record Linear (a : Addresses) (n : ℕ) (s : Early) : Type 0 where
  pub lower : (g : ℕ) → g < n → s.early_pgd g ≡ to_table (a.pmd + 4096 * g)
  pub upper : (g : ℕ) → g < n → s.early_pgd (256 + g) ≡ to_table (a.pmd + 4096 * g)
  pub rest : (i : ℕ) → 10 ≤ i → i < 256 → s.early_pgd i ≡ 0
  pub big : (g i : ℕ) → g < n → i < 512 → s.early_pmd g i ≡ big_page g i

base_is : kernel_pgd_base ≡ 256
unfolding kernel_pgd_base
base_is = refl

map_gib-Linear :
    (a : Addresses) (g : ℕ) (s : Early) → g < 10 → Linear a g s → Linear a (g + 1) (map_gib a g s)
unfolding map_gib to_table
map_gib-Linear a g s h l = record {
  lower = λ k lt. ground (arith, base_is, l.lower k);
  upper = λ k lt. ground (arith, base_is, l.upper k);
  rest = λ i lo hi. ground (arith, base_is, l.rest i);
  big = λ k i lt small. ground (arith, l.big k i, fill_in (big_page g) (s.early_pmd g) i small);
}

pub map_gibs-Linear :
    (left g : ℕ) (a : Addresses) (s : Early)
    → g + left ≡ 10
    → Linear a g s
    → Linear a 10 (map_gibs left g a s)
unfolding map_gibs
map_gibs-Linear zero g a s e l = let at : g ≡ 10 = omega arith in subst (λ n. Linear a n s) at l
map_gibs-Linear (suc left) g a s e l =
    map_gibs-Linear left (g + 1) a (map_gib a g s) (omega arith)
      (map_gib-Linear a g s (omega arith) l)

clear_pmds_pgd : (left g : ℕ) (s : Early) → (clear_pmds left g s).early_pgd ≡ s.early_pgd
unfolding clear_pmds
clear_pmds_pgd zero g s = refl
clear_pmds_pgd (suc left) g s =
    clear_pmds_pgd left (g + 1)
      (record s { early_pmd = update s.early_pmd g (clear_early (s.early_pmd g)) })

-- The tables after the second loop of setup_vm.
pub cleared-Linear :
    (a : Addresses) (s : Early)
    → Linear a 10
        (map_gibs 10 0 a (clear_pmds 10 0 (record s { early_pgd = clear_early s.early_pgd })))
unfolding clear_early
cleared-Linear a s =
    map_gibs-Linear 10 0 a (clear_pmds 10 0 (record s { early_pgd = clear_early s.early_pgd })) refl
      (record {
        lower = λ g lt. absurd (omega arith);
        upper = λ g lt. absurd (omega arith);
        rest = λ i lo hi.
            ap (λ t. t i) (clear_pmds_pgd 10 0 (record s { early_pgd = clear_early s.early_pgd }))
            ∙ fill_in (λ j. 0) s.early_pgd i (omega arith);
        big = λ g i lt small. absurd (omega arith);
      })
