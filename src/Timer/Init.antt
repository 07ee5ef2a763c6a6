-- ===== src/Timer/Init.antt =====
-- timer_init and the clock of lab6/OrangePiVer/Src/timer.c.
use native.Mathlib.Decide.{ℕ_discrete}
use nycu_osc_lab.Prelude.{
  ℕ, zero, suc, ◌+◌, ◌*◌, ◌/◌, ◌%◌, ◌^◌, ◌≤◌, ◌<◌, ◌≡◌, refl, [], update, arith, ◌⊎◌, sub64, u64,
}
use nycu_osc_lab.Prelude.Ranges.{range, length-range, Nodup-range, Disjoint-empty, Chain-range}
use nycu_osc_lab.Timer.{
  Timers, link_events, timer_init, timer_program_next_locked, timer_get_time_us,
}
use nycu_osc_lab.Timer.Queue.{IsTimers, Armed, next_event}

link_events-out :
    (left i p : ℕ) (next : ℕ → ℕ) → (p ≤ i) ⊎ (i + left < p) → link_events left i next p ≡ next p
unfolding link_events
link_events-out zero i p next h = refl
link_events-out (suc left) i p next h =
    ground (arith, h, link_events-out left (i + 1) p (update next (1 + i) (1 + (i + 1))))

link_events-in :
    (left i p : ℕ) (next : ℕ → ℕ) → i < p → p ≤ i + left → link_events left i next p ≡ suc p
unfolding link_events
link_events-in zero i p next lo hi = absurd (omega arith)
link_events-in (suc left) i p next lo hi = elim (ℕ_discrete p (1 + i)) [
  | yes e ↦ ground (arith, link_events-out left (i + 1) p (update next (1 + i) (1 + (i + 1))), e)
  | no ne ↦
      link_events-in left (i + 1) p (update next (1 + i) (1 + (i + 1))) (omega arith) (omega arith)
]

-- After timer_init no timer waits, the free list holds the whole pool, the hardware timer is set to
-- the next event, and that is the first tick, a 32nd of a second from now.
pub timer_init-IsTimers :
    (now : ℕ) (t : Timers)
    → IsTimers (timer_init now t) [] (range 1 32)
      × Armed (timer_init now t)
      × ((timer_init now t).programmed ≡ u64 (now + 750000))
unfolding timer_init timer_program_next_locked next_event
timer_init-IsTimers now t = (
  record {
    queued = refl;
    unused =
        Chain-range (update (link_events 31 0 t.next) 32 0) 1 31 (omega arith)
          (λ q lo hi. ground (arith, link_events-in 31 0 q t.next)) refl;
    once = tt;
    free_once = Nodup-range 1 32;
    apart = Disjoint-empty (range 1 32);
    total = length-range 1 32;
    ordered = tt;
  },
  (refl, refl),
  refl,
)

-- timer_get_time_us is the number of whole microseconds since timer_init, at 24 ticks each: splitting
-- off the seconds loses no precision and never overflows.
pub timer_get_time_us_lem :
    (now : ℕ) (t : Timers) → timer_get_time_us now t ≡ sub64 now t.boot_time_base / 24
unfolding timer_get_time_us
timer_get_time_us_lem now t = split (sub64 now t.boot_time_base) (omega arith)
  where
    split :
        (ticks : ℕ)
        → ticks < 2 ^ 64
        → u64 (u64 (ticks / 24000000 * 1000000) + u64 (ticks % 24000000 * 1000000) / 24000000)
          ≡ ticks / 24
    split ticks h = omega arith
