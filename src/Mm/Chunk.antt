-- ===== src/Mm/Chunk.antt =====
-- The chunk allocator and the entry points of lab6/OrangePiVer/Src/mm.c: allocate and free. The
-- console output is left out.
pub mod Lists
pub mod Sizes
mod Tests
use nycu_osc_lab.Prelude.{
  ℕ, zero, suc, ◌+◌, ◌*◌, ◌/◌, Bool, not, ltb, leb, ◌==◌, if◌then◌else◌, update, u64, Option, none,
  some, List, [], ◌∷◌, get_or,
}
use nycu_osc_lab.Mm.State.{
  Mm, page_size, max_alloc_size, frame_array, kernel_ptr_to_phys, addr_to_frame_index,
  addr_in_managed_range,
}
use nycu_osc_lab.Mm.Buddy.{alloc_pages, free_pages}

abbrev pub pool_sizes : List ℕ
pool_sizes = 16 ∷ 32 ∷ 64 ∷ 128 ∷ 256 ∷ 512 ∷ 1024 ∷ 2048 ∷ []

abbrev pub pool_size : ℕ → ℕ
pool_size pool = get_or pool_sizes pool 0

-- for (i = 0; i < NUM_POOLS; i++), over the sizes from index `i` on. The `none` is -1.
pub find_pool_loop : List ℕ → ℕ → ℕ → Option ℕ
find_pool_loop [] i size = none
find_pool_loop (s ∷ sizes) i size =
    let rest = find_pool_loop sizes (i + 1) size in if leb size s then some i else rest

pub find_pool : ℕ → Option ℕ
find_pool size = find_pool_loop pool_sizes 0 size

-- while (n < pages) { n <<= 1; order++; }, with fuel.
pub order_loop : ℕ → ℕ → ℕ → ℕ → ℕ
order_loop zero n pages order = order
order_loop (suc fuel) n pages order =
    let rest = order_loop fuel (u64 (n * 2)) pages (order + 1) in
    if ltb n pages then rest else order

-- n is 2 ^ order and there are less than 2 ^ 53 pages, so 63 rounds are enough.
pub size_to_order : ℕ → ℕ
size_to_order size = order_loop 63 1 (u64 (size + 4095) / page_size) 0

pub push_chunk : ℕ → ℕ → Mm → Mm
push_chunk pool ptr m =
    let m1 = record m { memory = update m.memory ptr (m.chunk_free_list pool) } in
    record m1 { chunk_free_list = update m1.chunk_free_list pool ptr }

pub pop_chunk : ℕ → Mm → ℕ × Mm
pop_chunk pool m =
    let ptr = m.chunk_free_list pool in
    (
      ptr,
      if not (ptr == 0)
          then record m { chunk_free_list = update m.chunk_free_list pool (m.memory ptr) }
          else m,
    )

-- for (off = 0; off + chunk_size <= PAGE_SIZE; off += chunk_size), with fuel.
pub refill_loop : ℕ → ℕ → ℕ → ℕ → ℕ → Mm → Mm
refill_loop zero pool chunk_size page_addr off m = m
refill_loop (suc fuel) pool chunk_size page_addr off m =
    let rest =
      refill_loop fuel pool chunk_size page_addr (off + chunk_size)
        (push_chunk pool (u64 (page_addr + off)) m) in
    if leb (off + chunk_size) page_size then rest else m

-- A chunk has at least 16 bytes, so 257 rounds are enough for a page.
pub refill_chunk_pool : ℕ → Mm → Mm
refill_chunk_pool pool m =
    let chunk_size = pool_size pool in
    let (page_addr, m1) = alloc_pages 0 m in
    let page_idx = addr_to_frame_index m1 (kernel_ptr_to_phys page_addr) in
    let m2 = record m1 {
      chunk_size = update m1.chunk_size (frame_array page_idx) chunk_size;
      chunk_pool = update m1.chunk_pool (frame_array page_idx) pool;
    } in
    let filled = refill_loop 257 pool chunk_size page_addr 0 m2 in
    if page_addr == 0 then m1 else filled

-- alloc_chunk from the point where the pool is known.
pub alloc_from_pool : ℕ → Mm → ℕ × Mm
alloc_from_pool pool m =
    let refilled = refill_chunk_pool pool m in
    pop_chunk pool (if m.chunk_free_list pool == 0 then refilled else m)

pub alloc_chunk : ℕ → Mm → ℕ × Mm
alloc_chunk size m = elim (find_pool size) [ none ↦ (0, m) | some pool ↦ alloc_from_pool pool m ]

pub free_chunk : ℕ → ℕ → Mm → Mm
unfolding push_chunk
free_chunk ptr pool m = push_chunk pool ptr m

pub allocate : ℕ → Mm → ℕ × Mm
allocate size m =
    if size == 0
    then (0, m)
    else if ltb max_alloc_size size
    then (0, m)
    else if leb size 2048
    then alloc_chunk size m
    else alloc_pages (size_to_order size) m

pub free : ℕ → Mm → Mm
free ptr m =
    let pa = kernel_ptr_to_phys ptr in
    let page = frame_array (addr_to_frame_index m pa) in
    if ptr == 0
    then m
    else if not (addr_in_managed_range m pa)
    then m
    else if not (m.chunk_size page == 0)
    then free_chunk ptr (m.chunk_pool page) m
    else free_pages ptr m
