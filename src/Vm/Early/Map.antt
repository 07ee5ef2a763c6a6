-- ===== src/Vm/Early/Map.antt =====
-- The kernel's mapping: setup_vm and drop_identity_map of lab6/OrangePiVer/Src/vm.c.
use native.Mathlib.Decide.{ℕ_discrete}
use nycu_osc_lab.Prelude.{
  ℕ, ◌+◌, ◌*◌, ◌/◌, ◌%◌, ◌^◌, ◌<◌, ◌≡◌, ◌≢◌, refl, sym, ap, ◌∙◌, ◌⊎◌, inl, inr, ◌&&◌, ◌||◌, leb,
  ltb, if◌then◌else◌, arith, some,
}
use nycu_osc_lab.Prelude.Bits.{bit_or_high}
use nycu_osc_lab.Mm.State.{kernel_va_offset}
use nycu_osc_lab.Vm.{vpn0, vpn1, vpn2}
use nycu_osc_lab.Vm.Early.{Addresses, Early, big_page, mmio_page, setup_vm}
use nycu_osc_lab.Vm.Early.Tables.{to_table}
use nycu_osc_lab.Vm.Early.Window.{windows, setup_vm-Sliced, setup_vm_satp}
use nycu_osc_lab.Vm.Early.Translate.{
  word, early_translate, Laid, word_pgd, word_pmd, word_pte, ends_big, ends_small, to_table-LeadsTo,
  big_page-LeafOf, mmio_page-LeafOf,
}

-- The device registers: the flags without PTE_X.
pub flags_of : ℕ → ℕ
flags_of pa =
    if (leb 0xd4000000 pa && ltb pa 0xd4400000) || (leb 0xe0000000 pa && ltb pa 0xe0200000)
    then 231
    else 239

-- The tables below the root, and where the root is.
pub record Inner (a : Addresses) (s : Early) : Type 0 where
  pub root : s.satp % 2 ^ 44 * 2 ^ 12 ≡ a.pgd
  pub big :
      (k : ℕ)
      → k < 5120
      → ((t : ℕ) → t < 3 → k ≢ windows t)
      → s.early_pmd (k / 512) (k % 512) ≡ big_page (k / 512) (k % 512)
  pub slice :
      (t : ℕ)
      → t < 3
      → s.early_pmd (windows t / 512) (windows t % 512) ≡ to_table (a.pte + 4096 * t)
  pub pages : (t i : ℕ) → t < 3 → i < 512 → s.early_pte t i ≡ mmio_page (windows t * 2 ^ 21) i

window_or_not : (k : ℕ) → ((t : ℕ) × (t < 3) × (k ≡ windows t)) ⊎ ((t : ℕ) → t < 3 → k ≢ windows t)
window_or_not k = elim (ℕ_discrete k 1696) [
  | yes e ↦ inl (0, omega arith, e)
  | no n0 ↦ elim (ℕ_discrete k 1697) [
    | yes e ↦ inl (1, omega arith, e)
    | no n1 ↦ elim (ℕ_discrete k 1792) [
      | yes e ↦ inl (2, omega arith, e)
      | no n2 ↦ inr (λ t h. ground (arith, n0, n1, n2))
    ]
  ]
]

vpn1_lt : (va : ℕ) → vpn1 va < 512
unfolding vpn1
vpn1_lt va = omega arith

vpn0_lt : (va : ℕ) → vpn0 va < 512
unfolding vpn0
vpn0_lt va = omega arith

flags_window : (pa t : ℕ) → t < 3 → pa / 2 ^ 21 ≡ windows t → flags_of pa ≡ 231
unfolding flags_of
flags_window pa t h e = ground arith

flags_big : (pa : ℕ) → ((t : ℕ) → t < 3 → pa / 2 ^ 21 ≢ windows t) → flags_of pa ≡ 239
unfolding flags_of
flags_big pa off = ground (arith, off 0 (omega arith), off 1 (omega arith), off 2 (omega arith))

windows_mmio : (t : ℕ) → windows t * 2 ^ 21 % 4096 ≡ 0
windows_mmio t = ground arith

-- Where the root leads to the table for the GiB of `pa`, and `va` has its offset there.
leads_to_pa :
    {a : Addresses} {s : Early} (pa va : ℕ)
    → Laid a
    → Inner a s
    → pa < 10 * 2 ^ 30
    → vpn2 va < 512
    → s.early_pgd (vpn2 va) ≡ to_table (a.pmd + 4096 * (pa / 2 ^ 30))
    → vpn1 va ≡ pa / 2 ^ 21 % 512
    → vpn0 va ≡ pa / 2 ^ 12 % 512
    → va % 2 ^ 21 ≡ pa % 2 ^ 21
    → early_translate a s va ≡ some (pa, flags_of pa)
leads_to_pa {a} {s} pa va l w h lt up at1 at0 off =
    let k = pa / 2 ^ 21 in
    let p = a.pmd + 4096 * (pa / 2 ^ 30) in
    let g_is : pa / 2 ^ 30 ≡ k / 512 = omega arith in
    let e2 : word a s (s.satp % 2 ^ 44 * 2 ^ 12 + 8 * vpn2 va) ≡ to_table p =
      ap (λ r. word a s (r + 8 * vpn2 va)) w.root ∙ (word_pgd l s (vpn2 va) lt ∙ up) in
    let l2 = to_table-LeadsTo p (omega (arith, l.pmd_aligned)) (omega (arith, l.pmd_small)) in
    let e1 : word a s (p + 8 * vpn1 va) ≡ s.early_pmd (k / 512) (k % 512) =
      word_pmd l s (pa / 2 ^ 30) (vpn1 va) (omega arith) (vpn1_lt va)
      ∙ (ap (λ g. s.early_pmd g (vpn1 va)) g_is ∙ ap (s.early_pmd (k / 512)) at1) in
    elim (window_or_not k) [
      | inr away ↦
          ends_big a s va (to_table p) p e2 l2 (big_page (k / 512) (k % 512)) (k * 2 ^ 21)
            (e1 ∙ w.big k (omega arith) away) 239 (big_page-LeafOf k (omega arith))
          ∙ (ap (λ x. some (x, 239)) (omega arith)
              ∙ ap (λ f. some (pa, f)) (sym (flags_big pa away)))
      | inl (t, small, is_t) ↦
          let q = a.pte + 4096 * t in
          let e1' : word a s (p + 8 * vpn1 va) ≡ to_table q =
            e1 ∙ (ap (λ n. s.early_pmd (n / 512) (n % 512)) is_t ∙ w.slice t small) in
          let l1 = to_table-LeadsTo q (omega (arith, l.pte_aligned)) (omega (arith, l.pte_small)) in
          let e0 =
            word_pte l s t (vpn0 va) (omega arith) (vpn0_lt va)
            ∙ w.pages t (vpn0 va) small (vpn0_lt va) in
          ends_small a s va (to_table p) p e2 l2 (to_table q) q e1'
            (mmio_page (windows t * 2 ^ 21) (vpn0 va)) (windows t * 2 ^ 21 + vpn0 va * 4096) 231 l1
            e0
            (mmio_page-LeafOf (windows t * 2 ^ 21) (vpn0 va) (windows_mmio t) (omega arith)
              (vpn0_lt va))
          ∙ (ap (λ x. some (x, 231)) (omega arith)
              ∙ ap (λ f. some (pa, f)) (sym (flags_window pa t small is_t)))
    ]

satp_root : (a : Addresses) (s : Early) → Laid a → (setup_vm a s).satp % 2 ^ 44 * 2 ^ 12 ≡ a.pgd
satp_root a s l =
    let form : (setup_vm a s).satp ≡ 8 * 2 ^ 60 + a.pgd / 2 ^ 12 =
      setup_vm_satp a s ∙ bit_or_high 60 8 (a.pgd / 2 ^ 12) (omega (arith, l.pgd_small)) in
    omega (arith, form, l.pgd_aligned, l.pgd_small)

pub setup_vm-Inner : (a : Addresses) (s : Early) → Laid a → Inner a (setup_vm a s)
setup_vm-Inner a s l =
    let w = setup_vm-Sliced a s in
    record { root = satp_root a s l; big = w.big; slice = w.slice; pages = w.pages }

lower_at :
    (pa : ℕ)
    → pa < 10 * 2 ^ 30
    → (vpn2 pa ≡ pa / 2 ^ 30) × (vpn1 pa ≡ pa / 2 ^ 21 % 512) × (vpn0 pa ≡ pa / 2 ^ 12 % 512)
unfolding vpn0 vpn1 vpn2
lower_at pa h = (omega arith, refl, refl)

upper_at :
    (pa : ℕ)
    → pa < 10 * 2 ^ 30
    → (vpn2 (kernel_va_offset + pa) ≡ 256 + pa / 2 ^ 30)
      × (vpn1 (kernel_va_offset + pa) ≡ pa / 2 ^ 21 % 512)
      × (vpn0 (kernel_va_offset + pa) ≡ pa / 2 ^ 12 % 512)
unfolding vpn0 vpn1 vpn2
upper_at pa h = (omega arith, omega arith, omega arith)

-- Through the kernel's half.
pub upper_translate :
    {a : Addresses} {s : Early} (pa : ℕ)
    → Laid a
    → Inner a s
    → ((g : ℕ) → g < 10 → s.early_pgd (256 + g) ≡ to_table (a.pmd + 4096 * g))
    → pa < 10 * 2 ^ 30
    → early_translate a s (kernel_va_offset + pa) ≡ some (pa, flags_of pa)
upper_translate {a} {s} pa l w upper h =
    let (at2, at1, at0) = upper_at pa h in
    leads_to_pa pa (kernel_va_offset + pa) l w h (omega (arith, at2))
      (ap s.early_pgd at2 ∙ upper (pa / 2 ^ 30) (omega arith)) at1 at0 (omega arith)

-- When the three tables are at pages of their own: after setup_vm, every physical address below 10 GiB
-- is reached at the same virtual address and at KERNEL_VA_OFFSET plus it, with MMIO_PAGE_FLAGS in the
-- windows 0xd4000000 to 0xd4400000 and 0xe0000000 to 0xe0200000 and KERNEL_PAGE_FLAGS elsewhere.
pub setup_vm-early_translate :
    (a : Addresses) (s : Early) (pa : ℕ)
    → Laid a
    → pa < 10 * 2 ^ 30
    → (early_translate a (setup_vm a s) pa ≡ some (pa, flags_of pa))
      × (early_translate a (setup_vm a s) (kernel_va_offset + pa) ≡ some (pa, flags_of pa))
setup_vm-early_translate a s pa l h =
    let w = setup_vm-Sliced a s in
    let inner = setup_vm-Inner a s l in
    let (at2, at1, at0) = lower_at pa h in
    (
      leads_to_pa pa pa l inner h (omega (arith, at2))
          (ap (setup_vm a s).early_pgd at2 ∙ w.lower (pa / 2 ^ 30) (omega arith)) at1 at0 refl,
      upper_translate pa l inner w.upper h,
    )
