-- ===== src/Vm/Early/Window.antt =====
-- map_mmio_2m_window of lab6/OrangePiVer/Src/vm.c, and what setup_vm makes.
use Prim.Native.Nat.{bit_or}
use mathlib.Core.Path.{subst}
use native.Mathlib.Decide.{ℕ_discrete}
use nycu_osc_lab.Prelude.{
  ℕ, ◌+◌, ◌*◌, ◌/◌, ◌%◌, ◌^◌, ◌≤◌, ◌<◌, ◌≡◌, ◌≢◌, refl, sym, false, ◌==◌, leb, if◌then◌else◌,
  update, arith,
}
use nycu_osc_lab.Vm.Early.{
  Addresses, Early, fill, clear_early, mmio_page, map_mmio_2m_window, map_gibs, clear_pmds,
  big_page, setup_vm,
}
use nycu_osc_lab.Vm.Early.Tables.{to_table, fill_in, Linear, cleared-Linear}

-- The 2 MiB that setup_vm maps in pages, by their number.
abbrev pub windows : ℕ → ℕ
windows t = if t == 0 then 1696 else if t == 1 then 1697 else 1792

-- The tables when the first `n` windows are mapped in pages.
pub record Sliced (a : Addresses) (n : ℕ) (s : Early) : Type 0 where
  pub used_is : s.early_pte_used ≡ n
  pub lower : (g : ℕ) → g < 10 → s.early_pgd g ≡ to_table (a.pmd + 4096 * g)
  pub upper : (g : ℕ) → g < 10 → s.early_pgd (256 + g) ≡ to_table (a.pmd + 4096 * g)
  pub rest : (i : ℕ) → 10 ≤ i → i < 256 → s.early_pgd i ≡ 0
  pub big :
      (k : ℕ)
      → k < 5120
      → ((t : ℕ) → t < n → k ≢ windows t)
      → s.early_pmd (k / 512) (k % 512) ≡ big_page (k / 512) (k % 512)
  pub slice :
      (t : ℕ)
      → t < n
      → s.early_pmd (windows t / 512) (windows t % 512) ≡ to_table (a.pte + 4096 * t)
  pub pages : (t i : ℕ) → t < n → i < 512 → s.early_pte t i ≡ mmio_page (windows t * 2 ^ 21) i

Linear-Sliced :
    (a : Addresses) (s : Early) → Linear a 10 s → Sliced a 0 (record s { early_pte_used = 0 })
Linear-Sliced a s l = record {
  used_is = refl;
  lower = l.lower;
  upper = l.upper;
  rest = l.rest;
  big = λ k h off. l.big (k / 512) (k % 512) (omega arith) (omega arith);
  slice = λ t lt. absurd (omega arith);
  pages = λ t i lt h. absurd (omega arith);
}

-- map_mmio_2m_window where there is a table left, for the window of number `k`.
sliced : Addresses → ℕ → ℕ → Early → Early
sliced a k n s = record s {
  early_pte_used = n + 1;
  early_pte = update s.early_pte n (fill (mmio_page (k * 2 ^ 21)) (clear_early (s.early_pte n)));
  early_pmd =
      update s.early_pmd (k / 512)
        (update (s.early_pmd (k / 512)) (k % 512) (to_table (a.pte + 4096 * n)));
}

window_form :
    (a : Addresses) (pa k n : ℕ) (s : Early)
    → pa / 2 ^ 21 ≡ k
    → k < 5120
    → s.early_pte_used ≡ n
    → n < 4
    → map_mmio_2m_window a pa s ≡ sliced a k n s
unfolding map_mmio_2m_window sliced to_table
window_form a pa k n s at small used lt =
    let pgd_index : k * 2 ^ 21 / 2 ^ 30 % 512 ≡ k / 512 = omega arith in
    let pmd_index : k * 2 ^ 21 / 2 ^ 21 % 512 ≡ k % 512 = omega arith in
    let in_range : leb 10 (k / 512) ≡ false = ground arith in
    let left : leb 4 n ≡ false = ground arith in
    rw (at, pgd_index, pmd_index, used, in_range, left) refl

windows_small : (t : ℕ) → windows t < 5120
windows_small t = ground arith

windows_apart : (t n : ℕ) → t < 3 → n < 3 → t ≢ n → windows t ≢ windows n
windows_apart t n ht hn ne = ground arith

window-Sliced :
    (a : Addresses) (n : ℕ) (s : Early)
    → n < 3
    → Sliced a n s
    → Sliced a (n + 1) (sliced a (windows n) n s)
unfolding sliced
window-Sliced a n s lt w = record {
  used_is = refl;
  lower = w.lower;
  upper = w.upper;
  rest = w.rest;
  big = λ k h off.
      let ne = off n (omega arith) in
      let old = w.big k h (λ t b. off t (omega arith)) in ground (arith, ne, old);
  slice = λ t h. elim (ℕ_discrete t n) [
    | yes e ↦ rw e (ground arith)
    | no ne ↦
        let apart = windows_apart t n (omega arith) lt ne in
        let old = w.slice t (omega arith) in ground (arith, apart, old)
  ];
  pages = λ t i h small. elim (ℕ_discrete t n) [
    | yes e ↦
        let new = fill_in (mmio_page (windows n * 2 ^ 21)) (clear_early (s.early_pte n)) i small in
        rw e (ground (arith, new))
    | no ne ↦ let old = w.pages t i (omega arith) small in ground (arith, ne, old)
  ];
}

window_step :
    (a : Addresses) (pa n : ℕ) (s : Early)
    → pa / 2 ^ 21 ≡ windows n
    → n < 3
    → Sliced a n s
    → Sliced a (n + 1) (map_mmio_2m_window a pa s)
window_step a pa n s at lt w =
    subst (Sliced a (n + 1))
      (sym (window_form a pa (windows n) n s at (windows_small n) w.used_is (omega arith)))
      (window-Sliced a n s lt w)

satp-Sliced :
    (a : Addresses) (n satp : ℕ) (s : Early) → Sliced a n s → Sliced a n (record s { satp = satp })
satp-Sliced a n satp s w = record {
  used_is = w.used_is;
  lower = w.lower;
  upper = w.upper;
  rest = w.rest;
  big = w.big;
  slice = w.slice;
  pages = w.pages;
}

pub setup_vm-Sliced : (a : Addresses) (s : Early) → Sliced a 3 (setup_vm a s)
unfolding setup_vm
setup_vm-Sliced a s =
    let s0 = map_gibs 10 0 a (clear_pmds 10 0 (record s { early_pgd = clear_early s.early_pgd })) in
    let w0 = Linear-Sliced a s0 (cleared-Linear a s) in
    let w1 = window_step a 0xd4000000 0 _ refl (omega arith) w0 in
    let w2 = window_step a 0xd4200000 1 _ refl (omega arith) w1 in
    satp-Sliced a 3 _ _ (window_step a 0xe0000000 2 _ refl (omega arith) w2)

pub setup_vm_satp :
    (a : Addresses) (s : Early) → (setup_vm a s).satp ≡ bit_or (8 * 2 ^ 60) (a.pgd / 2 ^ 12)
unfolding setup_vm
setup_vm_satp a s = refl
