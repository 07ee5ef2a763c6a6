-- ===== src/Mm/Chunk/Tests.antt =====
-- The theorems on the chunk allocator of lab6/OrangePiVer/Src/mm.c at concrete pools and sizes.
use nycu_osc_lab.Prelude.{
  ◌-◌, ◌*◌, ◌^◌, ◌≤◌, ◌<◌, ◌≡◌, ◌⊎◌, [], ◌∷◌, ltb, ◌==◌, if◌then◌else◌, refl, arith,
}
use nycu_osc_lab.Mm.State.{Mm}
use nycu_osc_lab.Mm.Chunk.{size_to_order, refill_loop}
use nycu_osc_lab.Mm.Chunk.Sizes.{size_to_order_lem}
use nycu_osc_lab.Mm.Chunk.Lists.{IsPool, cut, refill_loop-cut}

-- Pool 3 holds the chunks at 8192 and 8320.
abbrev two_chunks : Mm
two_chunks = record {
  managed_base = 0;
  managed_size = 16384;
  frame_count = 4;
  order = λ p. 0;
  state = λ p. 1;
  in_free_list = λ p. 0;
  chunk_size = λ p. 128;
  chunk_pool = λ p. 3;
  prev = λ p. if ltb p 14 then p else 0;
  next = λ p. if ltb p 14 then p else 0;
  chunk_free_list = λ q. if q == 3 then 8192 else 0;
  memory = λ a. if a == 8192 then 8320 else 0;
}

two_chunks-IsPool : IsPool two_chunks 3 (8192 ∷ 8320 ∷ [])
two_chunks-IsPool = (refl, omega arith, (refl, omega arith, refl))

size_to_order_lem_example :
    (20000 ≤ 2 ^ size_to_order 20000 * 4096)
    × ((size_to_order 20000 ≡ 0) ⊎ (2 ^ (size_to_order 20000 - 1) * 4096 < 20000))
    × (size_to_order 20000 ≤ 12)
size_to_order_lem_example = size_to_order_lem 20000 (omega arith)

-- Pool 7 is empty, and a page at 0x80000000 gives it two chunks of 2048 bytes.
refill_loop-cut_example :
    IsPool (refill_loop 257 7 2048 0x80000000 0 two_chunks) 7 (cut 0x80000000 2048 2)
refill_loop-cut_example =
    refill_loop-cut 2 7 2048 0x80000000 two_chunks refl (omega arith) (omega arith) (omega arith)
      refl
