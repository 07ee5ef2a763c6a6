-- ===== src/Vm/Entry.antt =====
-- The entries of the page tables of lab6/OrangePiVer/Src/vm.c.
use Prim.Native.Nat.{bit_or}
use nycu_osc_lab.Prelude.{ℕ, ◌+◌, ◌*◌, ◌/◌, ◌%◌, ◌^◌, ◌≤◌, ◌<◌, ◌≡◌, refl, ◌∙◌, true, false, arith}
use nycu_osc_lab.Prelude.Bits.{bit_or-one, bit_or_flags}
use nycu_osc_lab.Mm.State.{phys_to_virt_addr, virt_to_phys_addr, kernel_va_offset}
use nycu_osc_lab.Vm.{pa_to_pte, pte_to_pa, is_valid, is_leaf, pte_v}

-- The table that an entry leads to.
unfoldable pub next_table : ℕ → ℕ
next_table pte = phys_to_virt_addr (pte_to_pa pte)

-- The address of a page in the kernel's linear mapping.
abbrev pub IsPage : ℕ → Type 0
IsPage p = (p % 4096 ≡ 0) × (kernel_va_offset ≤ p) × (p < kernel_va_offset + 2 ^ 38)

unfoldable pub link : ℕ → ℕ
link q = bit_or (pa_to_pte (virt_to_phys_addr q)) pte_v

link_form : (q : ℕ) → link q ≡ pa_to_pte (virt_to_phys_addr q) + 1
unfolding link pa_to_pte
link_form q = bit_or-one (pa_to_pte (virt_to_phys_addr q)) ∙ omega arith

pub record IsLink (pte q : ℕ) : Type 0 where
  pub valid : is_valid pte ≡ true
  pub inner : is_leaf pte ≡ false
  pub to : next_table pte ≡ q

pub link-IsLink : (q : ℕ) → IsPage q → IsLink (link q) q
unfolding is_valid is_leaf next_table pa_to_pte pte_to_pa phys_to_virt_addr virt_to_phys_addr
link-IsLink q h = record {
  valid = ground (arith, link_form q);
  inner = ground (arith, link_form q);
  to = omega (arith, link_form q, h);
}

pub zero-is_valid : is_valid 0 ≡ false
unfolding is_valid
zero-is_valid = refl

-- The entry that map_pages_to writes.
unfoldable pub leaf : ℕ → ℕ → ℕ
leaf pa prot = bit_or (bit_or (pa_to_pte pa) prot) pte_v

-- The entry maps to the page at `pa`, with the flags `prot` and PTE_V.
pub record IsLeaf (pte pa prot : ℕ) : Type 0 where
  pub valid : is_valid pte ≡ true
  pub mapped : is_leaf pte ≡ true
  pub page_is : pte_to_pa pte ≡ pa
  pub flags : pte / 2 % 512 ≡ prot / 2

leaf_form : (pa prot : ℕ) → prot < 2 ^ 10 → leaf pa prot ≡ pa_to_pte pa + prot / 2 * 2 + 1
unfolding leaf pa_to_pte
leaf_form pa prot h =
    bit_or-one (bit_or (pa_to_pte pa) prot) ∙ omega (arith, bit_or_flags (pa / 2 ^ 12) prot h)

pub leaf-IsLeaf :
    (pa prot : ℕ)
    → pa % 4096 ≡ 0
    → pa < 2 ^ 56
    → prot < 2 ^ 10
    → is_leaf prot ≡ true
    → IsLeaf (leaf pa prot) pa prot
unfolding is_valid is_leaf pa_to_pte pte_to_pa
leaf-IsLeaf pa prot al small h r = record {
  valid = ground (arith, leaf_form pa prot h);
  mapped = ground (arith, leaf_form pa prot h, r);
  page_is = omega (arith, leaf_form pa prot h);
  flags = omega (arith, leaf_form pa prot h);
}

pub leaf_flags : (pa prot : ℕ) → prot < 2 ^ 10 → leaf pa prot % 2 ^ 10 ≡ prot / 2 * 2 + 1
unfolding pa_to_pte
leaf_flags pa prot h = omega (arith, leaf_form pa prot h)
