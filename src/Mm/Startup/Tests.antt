-- ===== src/Mm/Startup/Tests.antt =====
-- startup_alloc of lab6/OrangePiVer/Src/mm.c with two reserved ranges.
use nycu_osc_lab.Prelude.{ℕ, ◌+◌, ◌≡◌, ◌⊎◌, [], ◌∷◌, arith}
use nycu_osc_lab.Mm.State.{kernel_va_offset}
use nycu_osc_lab.Mm.Startup.{Startup, startup_alloc}
use nycu_osc_lab.Mm.Startup.Find.{Found, NoRoom, pages, startup_alloc-Found}

abbrev early : Startup
early = record {
  early_reserved = record { start = 8192; end = 20480 } ∷ record { start = 4096; end = 8192 } ∷ [];
  startup_ptr = 4096;
  startup_end = 65536;
}

startup_alloc-Found_example :
    ((a : ℕ) × (startup_alloc 5000 4096 early
        ≡ (kernel_va_offset + a, record early { startup_ptr = a + pages 5000 }))
      × Found early.startup_ptr (pages 5000) early.startup_end early.early_reserved a)
    ⊎ ((startup_alloc 5000 4096 early ≡ (0, early))
        × NoRoom early.startup_ptr (pages 5000) early.startup_end early.early_reserved)
startup_alloc-Found_example =
    startup_alloc-Found 5000 early (omega arith) (omega arith) (omega arith) (omega arith)
      (omega arith, (omega arith, tt))
