-- ===== src/Mm/PageList.antt =====
-- The circular doubly linked lists of lab6/OrangePiVer/Src/mm.c, with the code's pointer writes in
-- their order, and the operations on free blocks.
pub mod Links
use nycu_osc_lab.Prelude.{ℕ, Bool, ◌==◌, update, minus_one}
use nycu_osc_lab.Mm.State.{Mm, PagePtr, free_area, frame_array, frame_free}

unfoldable pub list_init : PagePtr → Mm → Mm
list_init head m =
    let m1 = record m { next = update m.next head head } in
    record m1 { prev = update m1.prev head head }

unfoldable pub list_empty : PagePtr → Mm → Bool
list_empty head m = m.next head == head

pub list_add : PagePtr → PagePtr → Mm → Mm
list_add head node m =
    let m1 = record m { next = update m.next node (m.next head) } in
    let m2 = record m1 { prev = update m1.prev node head } in
    let m3 = record m2 { prev = update m2.prev (m2.next head) node } in
    record m3 { next = update m3.next head node }

pub list_del : PagePtr → Mm → Mm
list_del node m =
    let m1 = record m { next = update m.next (m.prev node) (m.next node) } in
    let m2 = record m1 { prev = update m1.prev (m1.next node) (m1.prev node) } in
    let m3 = record m2 { next = update m2.next node 0 } in
    record m3 { prev = update m3.prev node 0 }

unfoldable pub add_free_block : ℕ → ℕ → Mm → Mm
unfolding list_add
add_free_block idx order m =
    let page = frame_array idx in
    list_add (free_area order) page (record m {
      order = update m.order page order;
      state = update m.state page frame_free;
      in_free_list = update m.in_free_list page 1;
      chunk_size = update m.chunk_size page 0;
      chunk_pool = update m.chunk_pool page minus_one;
    })

unfoldable pub remove_free_block : PagePtr → Mm → Mm
unfolding list_del
remove_free_block page m =
    let m1 = list_del page m in record m1 { in_free_list = update m1.in_free_list page 0 }
