-- ===== src/Mm/Buddy.antt =====
-- The buddy system of lab6/OrangePiVer/Src/mm.c: alloc_pages and free_pages. The console output of
-- both is left out.
pub mod Align
pub mod Frames
pub mod Split
pub mod Alloc
pub mod Merge
pub mod Free
mod Tests
pub mod Wf
use Prim.Native.Nat.{bit_xor}
use nycu_osc_lab.Prelude.{
  ℕ, zero, suc, ◌+◌, ◌-◌, ◌%◌, ◌^◌, Bool, not, ◌||◌, ltb, leb, ◌==◌, if◌then◌else◌, update,
  minus_one,
}
use nycu_osc_lab.Mm.State.{
  Mm, PagePtr, page_size, max_order, frame_free, frame_used, free_area, frame_array, frame_index,
  frame_addr, phys_to_virt_addr, kernel_ptr_to_phys, addr_to_frame_index, addr_in_managed_range,
}
use nycu_osc_lab.Mm.PageList.{list_empty, add_free_block, remove_free_block}

-- One round of the split at `current_order`: the right half goes back on a list.
unfoldable pub split_block : PagePtr → ℕ → Mm → Mm
split_block page current_order m =
    let idx = frame_index page in
    let buddy_idx = idx + 2 ^ current_order in
    let m1 = add_free_block buddy_idx current_order m in
    record m1 { order = update m1.order page current_order }

-- while (current_order > order): the first argument is current_order - order.
unfoldable pub split_loop : ℕ → PagePtr → ℕ → Mm → Mm
split_loop zero page order m = m
split_loop (suc rounds) page order m =
    split_loop rounds page order (split_block page (order + rounds) m)

-- What alloc_pages writes to the page that it returns.
unfoldable pub mark_used : PagePtr → ℕ → Mm → Mm
mark_used page order m = record m {
  order = update m.order page order;
  state = update m.state page frame_used;
  in_free_list = update m.in_free_list page 0;
  chunk_size = update m.chunk_size page 0;
  chunk_pool = update m.chunk_pool page minus_one;
}

-- The body of the `if` in alloc_pages, with the page that it finds at the head of a list.
unfoldable pub take_block : PagePtr → ℕ → ℕ → Mm → ℕ × Mm
take_block page current_order order m =
    let m1 = remove_free_block page m in
    let m2 = split_loop (current_order - order) page order m1 in
    let m3 = mark_used page order m2 in (phys_to_virt_addr (frame_addr m3 (frame_index page)), m3)

-- for (current_order = order; current_order <= MAX_ORDER; current_order++): the first argument is
-- the number of orders left. The address 0 is NULL.
unfoldable pub alloc_loop : ℕ → ℕ → ℕ → Mm → ℕ × Mm
alloc_loop zero current_order order m = (0, m)
alloc_loop (suc left) current_order order m =
    let rest = alloc_loop left (current_order + 1) order m in
    if not (list_empty (free_area current_order) m)
    then take_block (m.next (free_area current_order)) current_order order m
    else rest

unfoldable pub alloc_pages : ℕ → Mm → ℕ × Mm
alloc_pages order m =
    if ltb max_order order then (0, m) else alloc_loop (max_order + 1 - order) order order m

-- The test that stops the merge.
pub cannot_merge : PagePtr → ℕ → Mm → Bool
cannot_merge buddy order m =
    m.in_free_list buddy == 0 || (not (m.state buddy == frame_free) || not (m.order buddy == order))

-- One round of the merge with the buddy.
pub merge_block : ℕ → ℕ → Mm → ℕ × Mm
merge_block idx order m =
    let buddy_idx = bit_xor idx (2 ^ order) in
    let m1 = remove_free_block (frame_array buddy_idx) m in
    let idx' = if ltb buddy_idx idx then buddy_idx else idx in
    let page = frame_array idx' in
    (
      idx',
      record m1 {
        order = update m1.order page (order + 1);
        state = update m1.state page frame_free;
      },
    )

-- while (order < MAX_ORDER): the first argument is MAX_ORDER - order. Returns idx and order too.
pub merge_loop : ℕ → ℕ → ℕ → Mm → ℕ × ℕ × Mm
merge_loop zero idx order m = (idx, order, m)
merge_loop (suc left) idx order m =
    let buddy_idx = bit_xor idx (2 ^ order) in
    let merged = merge_block idx order m in
    let rest = merge_loop left merged.0 (order + 1) merged.1 in
    if leb m.frame_count buddy_idx
    then (idx, order, m)
    else if cannot_merge (frame_array buddy_idx) order m
    then (idx, order, m)
    else rest

-- free_pages from the metadata writes on.
pub release_block : ℕ → Mm → Mm
release_block idx m =
    let page = frame_array idx in
    let order = m.order page in
    let m1 = record m {
      state = update m.state page frame_free;
      chunk_size = update m.chunk_size page 0;
      chunk_pool = update m.chunk_pool page minus_one;
    } in
    let (idx', order', m2) = merge_loop (max_order - order) idx order m1 in
    add_free_block idx' order' m2

pub free_pages : ℕ → Mm → Mm
free_pages addr m =
    let a = kernel_ptr_to_phys addr in
    let freed = release_block (addr_to_frame_index m a) m in
    if addr == 0
    then m
    else if not (addr_in_managed_range m a)
    then m
    else if not (a % page_size == 0)
    then m
    else freed
