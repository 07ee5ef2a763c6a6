-- ===== src/Vm.antt =====
-- The page tables of lab6/OrangePiVer/Src/vm.c and Inc/vm.h. A table is the pointer through which the
-- kernel reads it, and its entries are words of the memory of the allocator (Mm/State.antt), from which
-- alloc_pages takes the new tables. The address translation of the CPU and the TLB are not code.
pub mod Entry
mod Memory
pub mod Tree
mod Spares
mod Walk
mod Grow
mod Descend
mod Put
pub mod Page
pub mod Map
mod Create
mod Apart
pub mod Early
mod Tests
use Prim.Native.Nat.{bit_or}
use nycu_osc_lab.Prelude.{
  ℕ, zero, suc, ◌+◌, ◌-◌, ◌*◌, ◌/◌, ◌%◌, ◌^◌, Bool, true, false, not, ◌||◌, ◌==◌, if◌then◌else◌,
  update, Option, none, some, u64, minus_one,
}
use nycu_osc_lab.Mm.State.{Mm, page_size, phys_to_virt_addr, virt_to_phys_addr}
use nycu_osc_lab.Mm.Buddy.{alloc_pages}

-- SV39_PT_ENTRIES.
abbrev pub pt_entries : ℕ
pt_entries = 512

-- PTE_V.
abbrev pub pte_v : ℕ
pte_v = 1

pub pa_to_pte : ℕ → ℕ
pa_to_pte pa = pa / 2 ^ 12 * 2 ^ 10

pub pte_to_pa : ℕ → ℕ
pte_to_pa pte = u64 (pte / 2 ^ 10 * 2 ^ 12)

-- pte & PTE_V.
pub is_valid : ℕ → Bool
is_valid pte = pte % 2 == 1

-- pte & (PTE_R | PTE_W | PTE_X).
pub is_leaf : ℕ → Bool
is_leaf pte = not (pte / 2 % 8 == 0)

abbrev pub entry : Mm → ℕ → ℕ → ℕ
entry m table i = m.memory (table + 8 * i)

abbrev pub set_entry : ℕ → ℕ → ℕ → Mm → Mm
set_entry table i pte m = record m { memory = update m.memory (table + 8 * i) pte }

-- for (i = 0; i < SV39_PT_ENTRIES; i++), from `i` on.
pub clear_loop : ℕ → ℕ → ℕ → Mm → Mm
clear_loop zero i table m = m
clear_loop (suc left) i table m = clear_loop left (i + 1) table (set_entry table i 0 m)

pub clear_table : ℕ → Mm → Mm
clear_table table m = clear_loop pt_entries 0 table m

pub vpn2 : ℕ → ℕ
vpn2 va = va / 2 ^ 30 % 512

pub vpn1 : ℕ → ℕ
vpn1 va = va / 2 ^ 21 % 512

pub vpn0 : ℕ → ℕ
vpn0 va = va / 2 ^ 12 % 512

-- From a table to the one below, as walk_create does it at both levels. `none` is its return of 0.
pub descend : ℕ → ℕ → Mm → Option ℕ × Mm
descend table i m =
    let (new, m1) = alloc_pages 0 m in
    let made =
      set_entry table i (bit_or (pa_to_pte (virt_to_phys_addr new)) pte_v) (clear_table new m1) in
    let pte = entry m table i in
    if not (is_valid pte)
    then if new == 0 then (none, m1) else (some new, made)
    else if is_leaf pte
    then (none, m)
    else (some (phys_to_virt_addr (pte_to_pa pte)), m)

-- walk_create from the point where it has the last table.
pub pte_slot : ℕ → Option ℕ × Mm → Option ℕ × Mm
pte_slot va (none, m) = (none, m)
pte_slot va (some pte, m) = (some (pte + 8 * vpn0 va), m)

-- walk_create from the point where it has the table below the root.
pub walk_pmd : ℕ → Option ℕ × Mm → Option ℕ × Mm
walk_pmd va (none, m) = (none, m)
walk_pmd va (some pmd, m) = pte_slot va (descend pmd (vpn1 va) m)

-- The pointer to the entry of the page, or `none` for 0.
pub walk_create : ℕ → ℕ → Mm → Option ℕ × Mm
walk_create pgd va m = walk_pmd va (descend pgd (vpn2 va) m)

-- The end of one turn of the loop of map_pages_to. `false` is the return of -1.
pub write_pte : ℕ → ℕ → Option ℕ × Mm → Bool × Mm
write_pte pa prot (none, m) = (false, m)
write_pte pa prot (some slot, m) =
    let pte = bit_or (bit_or (pa_to_pte pa) prot) pte_v in
    if is_valid (m.memory slot)
    then (false, m)
    else (true, record m { memory = update m.memory slot pte })

-- One turn of the loop of map_pages_to.
pub map_page : ℕ → ℕ → ℕ → ℕ → Mm → Bool × Mm
map_page pgd va pa prot m = write_pte pa prot (walk_create pgd va m)

-- for (i = 0; i < pages; i++), from `i` on.
pub map_loop : ℕ → ℕ → ℕ → ℕ → ℕ → ℕ → Mm → ℕ × Mm
map_loop zero i pgd va pa prot m = (0, m)
map_loop (suc left) i pgd va pa prot m =
    let r = map_page pgd (u64 (va + i * page_size)) (u64 (pa + i * page_size)) prot m in
    let rest = map_loop left (i + 1) pgd va pa prot r.1 in if r.0 then rest else (minus_one, r.1)

pub map_pages_to : ℕ → ℕ → ℕ → ℕ → ℕ → Mm → ℕ × Mm
map_pages_to pgd va size pa prot m =
    let pages = u64 (size + page_size - 1) / page_size in
    if (pgd == 0) || (size == 0) then (minus_one, m) else map_loop pages 0 pgd va pa prot m

-- for (i = 256; i < SV39_PT_ENTRIES; i++), from `i` on; early_pgd is the kernel's table.
pub share_loop : ℕ → ℕ → ℕ → (ℕ → ℕ) → Mm → Mm
share_loop zero i pgd early_pgd m = m
share_loop (suc left) i pgd early_pgd m =
    share_loop left (i + 1) pgd early_pgd (set_entry pgd i (early_pgd i) m)

pub vm_create_user_pgd : (ℕ → ℕ) → Mm → ℕ × Mm
vm_create_user_pgd early_pgd m =
    let (pgd, m1) = alloc_pages 0 m in
    if pgd == 0 then (0, m1) else (pgd, share_loop 256 256 pgd early_pgd (clear_table pgd m1))
