-- ===== src/Vm/Early/Tests.antt =====
-- The theorems on setup_vm and drop_identity_map of lab6/OrangePiVer/Src/vm.c at a concrete layout.
use nycu_osc_lab.Prelude.{ℕ, ◌+◌, ◌*◌, ◌^◌, ◌<◌, ◌≡◌, refl, arith, none, some}
use nycu_osc_lab.Mm.State.{kernel_va_offset}
use nycu_osc_lab.Vm.Early.{Addresses, Early, setup_vm, drop_identity_map}
use nycu_osc_lab.Vm.Early.Translate.{early_translate, Laid}
use nycu_osc_lab.Vm.Early.Map.{flags_of, setup_vm-early_translate}
use nycu_osc_lab.Vm.Early.Drop.{drop_identity_map-early_translate}

abbrev linked : Addresses
linked = record { pgd = 0x220000; pmd = 0x221000; pte = 0x230000 }

linked-Laid : Laid linked
linked-Laid = record {
  pgd_aligned = refl;
  pmd_aligned = refl;
  pte_aligned = refl;
  pgd_pmd = λ g h e. omega arith;
  pgd_pte = λ t h e. omega arith;
  pmd_pte = λ g t hg ht e. omega arith;
  pgd_small = omega arith;
  pmd_small = omega arith;
  pte_small = omega arith;
}

-- What was in memory before.
abbrev ones : Early
ones = record {
  early_pgd = λ i. 1;
  early_pmd = λ g i. 1;
  early_pte = λ t i. 1;
  early_pte_used = 7;
  satp = 0;
}

-- The UART at 0xd4017000.
setup_vm-early_translate_example :
    (early_translate linked (setup_vm linked ones) 0xd4017004
      ≡ some (0xd4017004, flags_of 0xd4017004))
    × (early_translate linked (setup_vm linked ones) (kernel_va_offset + 0xd4017004)
        ≡ some (0xd4017004, flags_of 0xd4017004))
setup_vm-early_translate_example =
    setup_vm-early_translate linked ones 0xd4017004 linked-Laid (omega arith)

drop_identity_map-early_translate_example :
    ((va : ℕ)
      → va < 2 ^ 38
      → early_translate linked (drop_identity_map (setup_vm linked ones)) va ≡ none)
    × ((pa : ℕ)
        → pa < 10 * 2 ^ 30
        → early_translate linked (drop_identity_map (setup_vm linked ones)) (kernel_va_offset + pa)
          ≡ some (pa, flags_of pa))
drop_identity_map-early_translate_example =
    drop_identity_map-early_translate linked ones linked-Laid
