-- ===== src/Mm/State.antt =====
-- The allocator's state: the constants of Inc/mm.h and Inc/vm.h, `struct page`, and the static
-- variables of lab6/OrangePiVer/Src/mm.c.
use nycu_osc_lab.Prelude.{ℕ, ◌+◌, ◌-◌, ◌*◌, ◌/◌, u64, sub64, Bool, ltb, leb, ◌&&◌, if◌then◌else◌}

-- PAGE_SIZE, MAX_ORDER and MAX_ALLOC_SIZE.
abbrev pub page_size : ℕ
page_size = 4096

abbrev pub max_order : ℕ
max_order = 12

abbrev pub max_alloc_size : ℕ
max_alloc_size = 16777216

-- KERNEL_VA_OFFSET.
abbrev pub kernel_va_offset : ℕ
kernel_va_offset = 0xffffffc000000000

-- FRAME_FREE and FRAME_USED.
abbrev pub frame_free : ℕ
frame_free = 0

abbrev pub frame_used : ℕ
frame_used = 1

-- A `struct page *`: 0 is NULL, 1 + order is `&free_area[order]`, 14 + idx is `&frame_array[idx]`.
abbrev pub PagePtr : Type 0
PagePtr = ℕ

abbrev pub free_area : ℕ → PagePtr
free_area order = 1 + order

abbrev pub frame_array : ℕ → PagePtr
frame_array idx = 14 + idx

-- Each field of `struct page` is a function of the page's pointer.
pub record Mm : Type 0 where
  pub managed_base : ℕ
  pub managed_size : ℕ
  pub frame_count : ℕ
  pub order : PagePtr → ℕ
  pub state : PagePtr → ℕ
  pub in_free_list : PagePtr → ℕ
  pub chunk_size : PagePtr → ℕ
  pub chunk_pool : PagePtr → ℕ
  pub prev : PagePtr → PagePtr
  pub next : PagePtr → PagePtr
  -- chunk_free_list
  pub chunk_free_list : ℕ → ℕ
  -- the pointer-sized words of physical memory, which hold the links of free chunks
  pub memory : ℕ → ℕ

unfoldable pub phys_to_virt_addr : ℕ → ℕ
phys_to_virt_addr pa = u64 (pa + kernel_va_offset)

unfoldable pub virt_to_phys_addr : ℕ → ℕ
virt_to_phys_addr va = sub64 va kernel_va_offset

unfoldable pub kernel_ptr_to_phys : ℕ → ℕ
unfolding virt_to_phys_addr
kernel_ptr_to_phys addr = if leb kernel_va_offset addr then virt_to_phys_addr addr else addr

-- `page - frame_array`.
abbrev pub frame_index : PagePtr → ℕ
frame_index page = page - 14

unfoldable pub frame_addr : Mm → ℕ → ℕ
frame_addr m idx = u64 (m.managed_base + idx * page_size)

unfoldable pub addr_to_frame_index : Mm → ℕ → ℕ
addr_to_frame_index m addr = sub64 addr m.managed_base / page_size

unfoldable pub addr_in_managed_range : Mm → ℕ → Bool
addr_in_managed_range m addr =
    leb m.managed_base addr && ltb addr (u64 (m.managed_base + m.managed_size))
