-- ===== src/Mm/Buddy/Tests.antt =====
-- Runs of the allocator of lab6/OrangePiVer/Src/mm.c, and the theorems at concrete states: four
-- frames at 0x80000000, given out as one block of order 2.
use nycu_osc_lab.Prelude.{ℕ, ◌≡◌, Bool, true, false, ◌==◌, update, if◌then◌else◌, ltb, refl, arith}
use nycu_osc_lab.Mm.State.{
  Mm, PagePtr, frame_array, free_area, kernel_ptr_to_phys, addr_in_managed_range,
  addr_to_frame_index, frame_addr, phys_to_virt_addr,
}
use nycu_osc_lab.Mm.PageList.{list_empty, add_free_block, remove_free_block}
use nycu_osc_lab.Mm.PageList.Links.{Links, live, add_free_block-Links, remove_free_block-Links}
use nycu_osc_lab.Mm.Buddy.{
  alloc_pages, alloc_loop, take_block, split_loop, split_block, mark_used, free_pages,
  release_block, merge_loop, merge_block, cannot_merge,
}
use nycu_osc_lab.Mm.Buddy.Frames.{Sound, sound}
use nycu_osc_lab.Mm.Buddy.Alloc.{Placed, Allocates, alloc_pages-Allocates, frame_va}
use nycu_osc_lab.Mm.Buddy.Free.{Freed, free_pages-Freed}

abbrev four_frames : Mm
four_frames = record {
  managed_base = 0x80000000;
  managed_size = 16384;
  frame_count = 4;
  order = λ p. if p == 14 then 2 else 4294967295;
  state = λ p. 1;
  in_free_list = λ p. 0;
  chunk_size = λ p. 0;
  chunk_pool = λ p. 4294967295;
  prev = λ p. if ltb p 14 then p else 0;
  next = λ p. if ltb p 14 then p else 0;
  chunk_free_list = λ p. 0;
  memory = λ a. 0;
}

abbrev first_given : ℕ → Bool
first_given i = i == 0

four_frames-Links : Links four_frames (λ p. 0) 1
four_frames-Links p h = ground arith

four_frames-Sound : Sound four_frames first_given
four_frames-Sound = sound {age = λ p. 0} {clock = 1} (record {
  links = four_frames-Links;
  block = λ i h. ground arith;
  apart = λ i j hi hj lt. ground arith;
  free_only = λ i h. ground arith;
  flags = λ p. omega arith;
})

four_frames-Placed : Placed four_frames
four_frames-Placed = omega arith

-- Frame 0 as a free block of order 2.
abbrev one_listed : Mm
one_listed = add_free_block 0 2 four_frames

abbrev one_age : PagePtr → ℕ
one_age = update (λ p. 0) (frame_array 0) 1

one_listed-Links : Links one_listed one_age 2
one_listed-Links = add_free_block-Links 0 2 four_frames-Links refl (omega arith)

one_listed-live : live one_listed (frame_array 0) ≡ true
unfolding add_free_block
one_listed-live = refl

remove_free_block-Links_example : Links (remove_free_block (frame_array 0) one_listed) one_age 2
remove_free_block-Links_example = remove_free_block-Links 0 one_listed-Links one_listed-live

one_listed-empty : one_listed.next (free_area 0) ≡ free_area 0
unfolding add_free_block
one_listed-empty = refl

free_pages-Freed_example :
    Freed four_frames (free_pages (frame_va four_frames 0) four_frames) first_given 0
free_pages-Freed_example = free_pages-Freed 0 four_frames-Sound four_frames-Placed refl

-- The allocator with all four frames free.
abbrev all_free : Mm
all_free = free_pages (frame_va four_frames 0) four_frames

all_free-Placed : Placed all_free
all_free-Placed = ground (arith, free_pages-Freed_example.range)

alloc_pages-Allocates_example :
    Allocates all_free (update first_given 0 false) 1 (alloc_pages 1 all_free)
alloc_pages-Allocates_example =
    alloc_pages-Allocates 1 free_pages-Freed_example.valid all_free-Placed

-- After the block is given back, a block of order 1 is cut from its start and one of order 0 from
-- the other half; a second block of order 2 is refused.
allocations :
    ((alloc_pages 1 all_free).0 ≡ frame_va four_frames 0)
    × ((alloc_pages 0 (alloc_pages 1 all_free).1).0 ≡ frame_va four_frames 2)
    × ((alloc_pages 2 (alloc_pages 1 all_free).1).0 ≡ 0)
unfolding alloc_pages alloc_loop take_block split_loop split_block mark_used list_empty
    add_free_block remove_free_block free_pages release_block merge_loop merge_block cannot_merge
    kernel_ptr_to_phys addr_in_managed_range addr_to_frame_index frame_addr phys_to_virt_addr
allocations = (refl, refl, refl)
