-- ===== src/Mm/Init/Tests.antt =====
-- mm_init of lab6/OrangePiVer/Src/mm.c up to the reserved ranges, for seven pages from an address that is
-- no page.
use nycu_osc_lab.Prelude.{◌≡◌, refl, some, arith}
use nycu_osc_lab.Mm.State.{Mm}
use nycu_osc_lab.Mm.Init.{set_range, init_buddy, select_order}
use nycu_osc_lab.Mm.Init.Start.{Started, init_buddy-Started}

abbrev at_boot : Mm
at_boot = record {
  managed_base = 0;
  managed_size = 0;
  frame_count = 0;
  order = λ p. 0;
  state = λ p. 0;
  in_free_list = λ p. 0;
  chunk_size = λ p. 0;
  chunk_pool = λ p. 0;
  prev = λ p. 0;
  next = λ p. 0;
  chunk_free_list = λ i. 0;
  memory = λ a. 0;
}

init_buddy-Started_example :
    (m' : Mm) × (init_buddy (set_range 0x80000010 0x7000 at_boot) ≡ some m')
    × Started m' 0x80000010 0x7000
init_buddy-Started_example =
    init_buddy-Started 0x80000010 0x7000 at_boot (omega arith) (omega arith)
      (λ p. (λ h. refl, λ h. refl))

-- The blocks are the largest that are aligned and inside: here of 4, 2 and 1 pages.
orders : (select_order 12 0 7 ≡ 2) × (select_order 12 4 7 ≡ 1) × (select_order 12 6 7 ≡ 0)
unfolding select_order
orders = (refl, refl, refl)
