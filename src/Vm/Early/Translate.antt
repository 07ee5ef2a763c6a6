-- ===== src/Vm/Early/Translate.antt =====
-- What the CPU makes of the tables of setup_vm of lab6/OrangePiVer/Src/vm.c.
use nycu_osc_lab.Prelude.{
  ℕ, ◌+◌, ◌-◌, ◌*◌, ◌/◌, ◌%◌, ◌^◌, ◌≤◌, ◌<◌, ◌≡◌, ◌≢◌, refl, true, false, not, ◌&&◌, ◌==◌, leb, ltb,
  if◌then◌else◌, arith, Option, none, some, u64,
}
use nycu_osc_lab.Prelude.Bits.{bit_or-one, bit_or_flags}
use nycu_osc_lab.Vm.{pa_to_pte, pte_to_pa, is_valid, is_leaf, vpn0, vpn1, vpn2}
use nycu_osc_lab.Vm.Early.{Addresses, Early, big_page, mmio_page}
use nycu_osc_lab.Vm.Early.Tables.{to_table}

-- The word at a physical address, where that is in the tables.
pub word : Addresses → Early → ℕ → ℕ
word a s p =
    if p / 4096 == a.pgd / 4096
    then s.early_pgd (p % 4096 / 8)
    else if leb (a.pmd / 4096) (p / 4096) && ltb (p / 4096) (a.pmd / 4096 + 10)
    then s.early_pmd (p / 4096 - a.pmd / 4096) (p % 4096 / 8)
    else if leb (a.pte / 4096) (p / 4096) && ltb (p / 4096) (a.pte / 4096 + 4)
    then s.early_pte (p / 4096 - a.pte / 4096) (p % 4096 / 8)
    else 0

-- Sv39, from the root table in satp.
pub early_translate : Addresses → Early → ℕ → Option (ℕ × ℕ)
early_translate a s va =
    let e2 = word a s (s.satp % 2 ^ 44 * 2 ^ 12 + 8 * vpn2 va) in
    let e1 = word a s (pte_to_pa e2 + 8 * vpn1 va) in
    let e0 = word a s (pte_to_pa e1 + 8 * vpn0 va) in
    if not (is_valid e2)
    then none
    else if is_leaf e2
    then some (pte_to_pa e2 / 2 ^ 30 * 2 ^ 30 + va % 2 ^ 30, e2 % 2 ^ 10)
    else if not (is_valid e1)
    then none
    else if is_leaf e1
    then some (pte_to_pa e1 / 2 ^ 21 * 2 ^ 21 + va % 2 ^ 21, e1 % 2 ^ 10)
    else if is_valid e0 && is_leaf e0
    then some (pte_to_pa e0 + va % 2 ^ 12, e0 % 2 ^ 10)
    else none

-- The linker puts the tables at pages of their own.
pub record Laid (a : Addresses) : Type 0 where
  pub pgd_aligned : a.pgd % 4096 ≡ 0
  pub pmd_aligned : a.pmd % 4096 ≡ 0
  pub pte_aligned : a.pte % 4096 ≡ 0
  pub pgd_pmd : (g : ℕ) → g < 10 → a.pgd ≢ a.pmd + 4096 * g
  pub pgd_pte : (t : ℕ) → t < 4 → a.pgd ≢ a.pte + 4096 * t
  pub pmd_pte : (g t : ℕ) → g < 10 → t < 4 → a.pmd + 4096 * g ≢ a.pte + 4096 * t
  pub pgd_small : a.pgd < 2 ^ 55
  pub pmd_small : a.pmd < 2 ^ 55
  pub pte_small : a.pte < 2 ^ 55

module _ {a : Addresses} (l : Laid a) (s : Early) where
  pub word_pgd : (i : ℕ) → i < 512 → word a s (a.pgd + 8 * i) ≡ s.early_pgd i
  unfolding word
  word_pgd i h =
      let same : (a.pgd + 8 * i) / 4096 ≡ a.pgd / 4096 = omega (arith, l.pgd_aligned) in
      let index : (a.pgd + 8 * i) % 4096 / 8 ≡ i = omega (arith, l.pgd_aligned) in
      ground (arith, same, index)

  pub word_pmd :
      (g i : ℕ) → g < 10 → i < 512 → word a s (a.pmd + 4096 * g + 8 * i) ≡ s.early_pmd g i
  unfolding word
  word_pmd g i hg hi =
      let al = l.pmd_aligned in
      let p = a.pmd + 4096 * g + 8 * i in
      let page : p / 4096 ≡ a.pmd / 4096 + g = omega (arith, al) in
      let index : p % 4096 / 8 ≡ i = omega (arith, al) in
      let ne : a.pmd / 4096 + g ≢ a.pgd / 4096 =
        λ e. l.pgd_pmd g hg (omega (arith, l.pgd_aligned, al, e)) in
      let entry : a.pmd / 4096 + g - a.pmd / 4096 ≡ g = omega arith in
      rw (page, index, entry) (ground (arith, ne))

  pub word_pte : (t i : ℕ) → t < 4 → i < 512 → word a s (a.pte + 4096 * t + 8 * i) ≡ s.early_pte t i
  unfolding word
  word_pte t i ht hi =
      let al = l.pte_aligned in
      let p = a.pte + 4096 * t + 8 * i in
      let page : p / 4096 ≡ a.pte / 4096 + t = omega (arith, al) in
      let index : p % 4096 / 8 ≡ i = omega (arith, al) in
      let ne : a.pte / 4096 + t ≢ a.pgd / 4096 =
        λ e. l.pgd_pte t ht (omega (arith, l.pgd_aligned, al, e)) in
      let far : a.pmd / 4096 ≤ a.pte / 4096 + t → a.pte / 4096 + t < a.pmd / 4096 + 10 → ⊥ =
        λ lo hi.
          l.pmd_pte (a.pte / 4096 + t - a.pmd / 4096) t (omega arith) ht
            (omega (arith, al, l.pmd_aligned)) in
      let out : (leb (a.pmd / 4096) (a.pte / 4096 + t)
            && ltb (a.pte / 4096 + t) (a.pmd / 4096 + 10))
          ≡ false =
        ground (arith, far) in
      let entry : a.pte / 4096 + t - a.pte / 4096 ≡ t = omega arith in
      rw (page, index, entry, out) (ground (arith, ne))

-- The entry leads to a table at `pa`, and is no leaf.
pub record LeadsTo (pte pa : ℕ) : Type 0 where
  pub valid : is_valid pte ≡ true
  pub inner : is_leaf pte ≡ false
  pub to : pte_to_pa pte ≡ pa

pub to_table-LeadsTo : (pa : ℕ) → pa % 4096 ≡ 0 → pa < 2 ^ 56 → LeadsTo (to_table pa) pa
unfolding is_valid is_leaf pa_to_pte pte_to_pa to_table
to_table-LeadsTo pa al h =
    let form = bit_or-one (pa / 2 ^ 12 * 2 ^ 10) in
    record { valid = ground (arith, form); inner = ground (arith, form); to = omega (arith, form) }

-- A leaf for `pa` with these flags.
pub record LeafOf (pte pa flags : ℕ) : Type 0 where
  pub valid : is_valid pte ≡ true
  pub mapped : is_leaf pte ≡ true
  pub at : pte_to_pa pte ≡ pa
  pub flags_are : pte % 2 ^ 10 ≡ flags

pub big_page-LeafOf : (k : ℕ) → k < 5120 → LeafOf (big_page (k / 512) (k % 512)) (k * 2 ^ 21) 239
unfolding is_valid is_leaf pa_to_pte pte_to_pa big_page
big_page-LeafOf k h =
    let form =
      bit_or_flags (u64 (k / 512 * 2 ^ 30 + k % 512 * 2 ^ 21) / 2 ^ 12) 239 (omega arith) in
    record {
      valid = ground (arith, form);
      mapped = ground (arith, form);
      at = omega (arith, form);
      flags_are = omega (arith, form);
    }

pub mmio_page-LeafOf :
    (base i : ℕ)
    → base % 4096 ≡ 0
    → base < 2 ^ 55
    → i < 512
    → LeafOf (mmio_page base i) (base + i * 4096) 231
unfolding is_valid is_leaf pa_to_pte pte_to_pa mmio_page
mmio_page-LeafOf base i al small h =
    let form = bit_or_flags (u64 (base + i * 2 ^ 12) / 2 ^ 12) 231 (omega arith) in
    record {
      valid = ground (arith, form);
      mapped = ground (arith, form);
      at = omega (arith, form);
      flags_are = omega (arith, form);
    }

module _ (a : Addresses) (s : Early) (va : ℕ) (x2 p : ℕ)
    (e2 : word a s (s.satp % 2 ^ 44 * 2 ^ 12 + 8 * vpn2 va) ≡ x2) where
  pub ends_at_root : is_valid x2 ≡ false → early_translate a s va ≡ none
  unfolding early_translate
  ends_at_root off = rw (e2, off) refl

  module _ (l2 : LeadsTo x2 p) (x1 q : ℕ) (e1 : word a s (p + 8 * vpn1 va) ≡ x1) where
    pub ends_big :
        (flags : ℕ)
        → LeafOf x1 q flags
        → early_translate a s va ≡ some (q / 2 ^ 21 * 2 ^ 21 + va % 2 ^ 21, flags)
    unfolding early_translate
    ends_big flags l1 =
        rw (e2, l2.valid, l2.inner, l2.to, e1, l1.valid, l1.mapped, l1.at, l1.flags_are) refl

    pub ends_small :
        (x0 r flags : ℕ)
        → LeadsTo x1 q
        → word a s (q + 8 * vpn0 va) ≡ x0
        → LeafOf x0 r flags
        → early_translate a s va ≡ some (r + va % 2 ^ 12, flags)
    unfolding early_translate
    ends_small x0 r flags l1 e0 l0 =
        rw
          (
            e2, l2.valid, l2.inner, l2.to, e1, l1.valid, l1.inner, l1.to, e0, l0.valid, l0.mapped,
            l0.at, l0.flags_are,
          )
          refl
