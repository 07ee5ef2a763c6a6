-- ===== src/Mm/Init.antt =====
-- mm_init of lab6/OrangePiVer/Src/mm.c, from the memory region of the device tree to the free lists. The
-- frame array has its place already (Mm/Startup.antt); the reserved ranges are taken out afterwards.
mod Blank
mod Build
mod Start
mod Tests
use nycu_osc_lab.Prelude.{
  ℕ, zero, suc, ◌+◌, ◌-◌, ◌*◌, ◌/◌, ◌%◌, ◌^◌, Bool, ◌&&◌, leb, ltb, ◌==◌, if◌then◌else◌, update,
  Option, none, some, minus_one, sub64,
}
use nycu_osc_lab.Mm.State.{Mm, frame_array, free_area, frame_used, page_size, max_order}
use nycu_osc_lab.Mm.PageList.{list_init, add_free_block}
use nycu_osc_lab.Mm.Startup.{align_up, align_down}

-- The managed range, for the memory region that the device tree names.
pub set_range : ℕ → ℕ → Mm → Mm
set_range dtb_mem_base dtb_mem_size m =
    let base = align_up dtb_mem_base page_size in
    let size = align_down (sub64 dtb_mem_size (sub64 base dtb_mem_base)) page_size in
    record m { managed_base = base; managed_size = size; frame_count = size / page_size }

-- for (i = 0; i <= MAX_ORDER; i++) list_init(&free_area[i]), from `i` on.
pub init_areas : ℕ → ℕ → Mm → Mm
init_areas zero i m = m
init_areas (suc left) i m = init_areas left (i + 1) (list_init (free_area i) m)

pub init_frame : ℕ → Mm → Mm
init_frame i m = record m {
  order = update m.order (frame_array i) minus_one;
  state = update m.state (frame_array i) frame_used;
  in_free_list = update m.in_free_list (frame_array i) 0;
  chunk_size = update m.chunk_size (frame_array i) 0;
  chunk_pool = update m.chunk_pool (frame_array i) minus_one;
  next = update m.next (frame_array i) 0;
  prev = update m.prev (frame_array i) 0;
}

-- for (i = 0; i < frame_count; i++), from `i` on.
pub init_frames : ℕ → ℕ → Mm → Mm
init_frames zero i m = m
init_frames (suc left) i m = init_frames left (i + 1) (init_frame i m)

-- for (i = 0; i < NUM_POOLS; i++) chunk_free_list[i] = 0, from `i` on.
pub init_pools : ℕ → ℕ → Mm → Mm
init_pools zero i m = m
init_pools (suc left) i m =
    init_pools left (i + 1) (record m { chunk_free_list = update m.chunk_free_list i 0 })

-- for (order = ...; order >= 0; order--): the order of the block from `idx` on. Where no order fits,
-- selected_order is still 0.
pub select_order : ℕ → ℕ → ℕ → ℕ
select_order zero idx frame_count = 0
select_order (suc order) idx frame_count =
    let block_pages = 2 ^ suc order in
    let rest = select_order order idx frame_count in
    if (idx % block_pages == 0) && leb (idx + block_pages) frame_count then suc order else rest

-- while (idx < frame_count), with fuel.
pub build_loop : ℕ → ℕ → Mm → Option Mm
build_loop zero idx m = none
build_loop (suc fuel) idx m =
    let selected_order = select_order max_order idx m.frame_count in
    let rest = build_loop fuel (idx + 2 ^ selected_order) (add_free_block idx selected_order m) in
    if ltb idx m.frame_count then rest else some m

-- The buddy system before the reserved ranges, for the range in managed_base and frame_count. Each round of the last loop passes a frame, so the fuel
-- is enough.
pub init_buddy : Mm → Option Mm
init_buddy m =
    let m1 = init_frames m.frame_count 0 (init_areas (max_order + 1) 0 m) in
    build_loop (suc m.frame_count) 0 (init_pools 8 0 m1)
