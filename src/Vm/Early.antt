-- ===== src/Vm/Early.antt =====
-- The kernel's first page tables: setup_vm, map_mmio_2m_window and drop_identity_map of
-- lab6/OrangePiVer/Src/vm.c. The tables are static arrays; their addresses are a parameter, and the
-- register satp is a field.
mod Tables
mod Window
mod Translate
mod Map
mod Drop
mod Tests
use Prim.Native.Nat.{bit_or}
use nycu_osc_lab.Prelude.{
  ℕ, zero, suc, ◌+◌, ◌*◌, ◌/◌, ◌%◌, ◌^◌, Bool, ◌||◌, leb, if◌then◌else◌, update, u64,
}
use nycu_osc_lab.Mm.State.{kernel_va_offset}
use nycu_osc_lab.Vm.{pt_entries, pte_v, pa_to_pte}

-- EARLY_MAP_GIB, EARLY_PTE_TABLES, KERNEL_PAGE_FLAGS and MMIO_PAGE_FLAGS.
abbrev pub early_map_gib : ℕ
early_map_gib = 10

abbrev pub early_pte_tables : ℕ
early_pte_tables = 4

abbrev pub kernel_page_flags : ℕ
kernel_page_flags = 239

abbrev pub mmio_page_flags : ℕ
mmio_page_flags = 231

-- Where early_pgd, early_pmd and early_pte are while the MMU is off.
pub record Addresses : Type 0 where
  pub pgd : ℕ
  pub pmd : ℕ
  pub pte : ℕ

pub record Early : Type 0 where
  pub early_pgd : ℕ → ℕ
  pub early_pmd : ℕ → ℕ → ℕ
  pub early_pte : ℕ → ℕ → ℕ
  pub early_pte_used : ℕ
  pub satp : ℕ

-- for (i = 0; i < SV39_PT_ENTRIES; i++) table[i] = value(i), from `i` on.
pub fill_loop : ℕ → ℕ → (ℕ → ℕ) → (ℕ → ℕ) → ℕ → ℕ
fill_loop zero i value table = table
fill_loop (suc left) i value table = fill_loop left (i + 1) value (update table i (value i))

pub fill : (ℕ → ℕ) → (ℕ → ℕ) → ℕ → ℕ
fill value table = fill_loop pt_entries 0 value table

pub clear_early : (ℕ → ℕ) → ℕ → ℕ
clear_early table = fill (λ i. 0) table

-- The page `i` of the window from `base` on.
pub mmio_page : ℕ → ℕ → ℕ
mmio_page base i = bit_or (pa_to_pte (u64 (base + i * 2 ^ 12))) mmio_page_flags

pub map_mmio_2m_window : Addresses → ℕ → Early → Early
map_mmio_2m_window a pa s =
    let base = pa / 2 ^ 21 * 2 ^ 21 in
    let pgd_index = base / 2 ^ 30 % 512 in
    let pmd_index = base / 2 ^ 21 % 512 in
    let t = s.early_pte_used in
    let pte = fill (mmio_page base) (clear_early (s.early_pte t)) in
    let pmd =
      update (s.early_pmd pgd_index) pmd_index (bit_or (pa_to_pte (a.pte + 4096 * t)) pte_v) in
    if leb early_map_gib pgd_index || leb early_pte_tables t then s else record s {
      early_pte_used = t + 1;
      early_pte = update s.early_pte t pte;
      early_pmd = update s.early_pmd pgd_index pmd;
    }

-- for (gib = 0; gib < EARLY_MAP_GIB; gib++) clear_table(early_pmd[gib]), from `gib` on.
pub clear_pmds : ℕ → ℕ → Early → Early
clear_pmds zero gib s = s
clear_pmds (suc left) gib s =
    clear_pmds left (gib + 1)
      (record s { early_pmd = update s.early_pmd gib (clear_early (s.early_pmd gib)) })

pub kernel_pgd_base : ℕ
kernel_pgd_base = kernel_va_offset / 2 ^ 30 % 512

-- The leaf for the 2 MiB number `i` of a GiB.
pub big_page : ℕ → ℕ → ℕ
big_page gib i = bit_or (pa_to_pte (u64 (gib * 2 ^ 30 + i * 2 ^ 21))) kernel_page_flags

-- One turn of the second loop of setup_vm.
pub map_gib : Addresses → ℕ → Early → Early
map_gib a gib s =
    let non_leaf_entry = bit_or (pa_to_pte (a.pmd + 4096 * gib)) pte_v in
    record s {
      early_pgd =
          update (update s.early_pgd gib non_leaf_entry) (kernel_pgd_base + gib) non_leaf_entry;
      early_pmd = update s.early_pmd gib (fill (big_page gib) (s.early_pmd gib));
    }

pub map_gibs : ℕ → ℕ → Addresses → Early → Early
map_gibs zero gib a s = s
map_gibs (suc left) gib a s = map_gibs left (gib + 1) a (map_gib a gib s)

pub setup_vm : Addresses → Early → Early
setup_vm a s =
    let cleared = clear_pmds early_map_gib 0 (record s { early_pgd = clear_early s.early_pgd }) in
    let mapped = map_gibs early_map_gib 0 a cleared in
    let s1 = map_mmio_2m_window a 0xd4000000 (record mapped { early_pte_used = 0 }) in
    let s2 = map_mmio_2m_window a 0xd4200000 s1 in
    let s3 = map_mmio_2m_window a 0xe0000000 s2 in
    record s3 { satp = bit_or (8 * 2 ^ 60) (a.pgd / 2 ^ 12) }

pub drop_loop : ℕ → ℕ → Early → Early
drop_loop zero i s = s
drop_loop (suc left) i s = drop_loop left (i + 1) (record s { early_pgd = update s.early_pgd i 0 })

pub drop_identity_map : Early → Early
drop_identity_map s = drop_loop early_map_gib 0 s
