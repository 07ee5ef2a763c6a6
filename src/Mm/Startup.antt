-- ===== src/Mm/Startup.antt =====
-- The allocator of the early boot stage in lab6/OrangePiVer/Src/mm.c: the reserved ranges, and
-- startup_alloc, which looks for room between them. The console output is left out.
mod Find
mod Tests
use nycu_osc_lab.Prelude.{
  ℕ, zero, suc, ◌+◌, ◌-◌, ◌*◌, ◌/◌, ◌%◌, ◌^◌, Bool, true, false, ◌&&◌, ltb, leb, ◌==◌,
  if◌then◌else◌, Option, none, some, List, [], ◌∷◌, ◌++◌, length, u64,
}
use nycu_osc_lab.Mm.State.{phys_to_virt_addr}

abbrev pub max_early_reserved : ℕ
max_early_reserved = 16

pub record Region : Type 0 where
  pub start : ℕ
  pub end : ℕ

-- The first early_reserved_count entries of early_reserved, startup_ptr and startup_end.
pub record Startup : Type 0 where
  pub early_reserved : List Region
  pub startup_ptr : ℕ
  pub startup_end : ℕ

-- For a power of two, as every caller has.
unfoldable pub align_up : ℕ → ℕ → ℕ
align_up val align = u64 (val + align - 1) / align * align

unfoldable pub align_down : ℕ → ℕ → ℕ
align_down val align = val / align * align

-- `none` is the endless loop when the table is full.
pub early_reserve_add : ℕ → ℕ → Startup → Option Startup
early_reserve_add start size s =
    let end = align_up (u64 (start + size)) 4096 in
    let region : Region = record { start = align_down start 4096; end = end } in
    if size == 0
    then some s
    else if leb max_early_reserved (length s.early_reserved)
    then none
    else some (record s { early_reserved = s.early_reserved ++ (region ∷ []) })

pub startup_allocator_init : ℕ → ℕ → Startup → Startup
startup_allocator_init start end s = record s {
  startup_ptr = align_up start 4096;
  startup_end = align_down end 4096;
}

pub range_overlap : ℕ → ℕ → ℕ → ℕ → Bool
range_overlap a_start a_end b_start b_end = ltb a_start b_end && ltb b_start a_end

-- for (i = 0; i < early_reserved_count; i++): the end of the first range that the candidate overlaps.
pub conflict : ℕ → ℕ → List Region → Option ℕ
conflict addr end [] = none
conflict addr end (r ∷ rs) =
    let rest = conflict addr end rs in
    if range_overlap addr end r.start r.end then some r.end else rest

-- while (addr + size <= startup_end), with fuel.
pub startup_loop : ℕ → ℕ → ℕ → ℕ → List Region → ℕ → Option ℕ
startup_loop zero size align startup_end reserved addr = none
startup_loop (suc fuel) size align startup_end reserved addr =
    if leb (u64 (addr + size)) startup_end
    then elim (conflict addr (u64 (addr + size)) reserved) [
      | none ↦ some addr
      | some r_end ↦ startup_loop fuel size align startup_end reserved (align_up r_end align)
    ]
    else none

-- The end of startup_alloc.
pub hand_out : ℕ → Startup → Option ℕ → ℕ × Startup
hand_out pages s none = (0, s)
hand_out pages s (some addr) =
    (phys_to_virt_addr addr, record s { startup_ptr = u64 (addr + pages) })

-- The virtual address, or 0 for NULL. Each range stands in the way at most once, so the fuel is enough.
pub startup_alloc : ℕ → ℕ → Startup → ℕ × Startup
startup_alloc size align s =
    let pages = align_up size 4096 in
    hand_out pages s (
      startup_loop (suc (length s.early_reserved)) pages align s.startup_end s.early_reserved
        (align_up s.startup_ptr align))
