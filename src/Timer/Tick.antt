-- ===== src/Timer/Tick.antt =====
-- The scheduler's tick in timer_handle_interrupt of lab6/OrangePiVer/Src/timer.c: after a delay the
-- next tick is set to a time that is still to come.
use nycu_osc_lab.Prelude.{
  ℕ, zero, suc, ◌+◌, ◌*◌, ◌≤◌, ◌<◌, ◌^◌, ◌≡◌, refl, inl, inr, leb, Bool-cases, arith, u64,
}
use nycu_osc_lab.Timer.{Timers, catch_up}

-- The tick has moved by a number of intervals, to the first such time after `now`; the rest of the
-- timers is as it was.
pub record CaughtUp (t t' : Timers) (now : ℕ) : Type 0 where
  pub rounds : ℕ
  pub tick_is : t'.sched_next_tick ≡ t.sched_next_tick + rounds * t.sched_tick_interval
  pub future : now < t'.sched_next_tick
  pub first : 0 < rounds → t'.sched_next_tick ≤ now + t.sched_tick_interval
  pub rest : t' ≡ record t { sched_next_tick = t'.sched_next_tick }

-- One round more.
CaughtUp-suc :
    (t t' : Timers) (now : ℕ)
    → t.sched_next_tick ≤ now
    → CaughtUp (record t { sched_next_tick = t.sched_next_tick + t.sched_tick_interval }) t' now
    → CaughtUp t t' now
CaughtUp-suc t t' now le c = record {
  rounds = suc c.rounds;
  tick_is = omega (arith, c.tick_is);
  future = c.future;
  first = λ h. near c.rounds c.tick_is c.first;
  rest = c.rest;
}
  where
    near :
        (r : ℕ)
        → t'.sched_next_tick ≡ t.sched_next_tick + t.sched_tick_interval + r * t.sched_tick_interval
        → (0 < r → t'.sched_next_tick ≤ now + t.sched_tick_interval)
        → t'.sched_next_tick ≤ now + t.sched_tick_interval
    near zero e f = omega (arith, e)
    near (suc r) e f = f (omega arith)

-- With an interval that is not 0, a clock that does not reach the end of its 64 bits and fuel for the
-- time that has gone by, the loop ends at the first tick after `now`, a whole number of intervals
-- from the old one, and changes nothing else.
pub catch_up-CaughtUp :
    (fuel now : ℕ) (t : Timers)
    → 0 < t.sched_tick_interval
    → now + t.sched_tick_interval < 2 ^ 64
    → now < t.sched_next_tick + fuel
    → CaughtUp t (catch_up fuel now t) now
unfolding catch_up
catch_up-CaughtUp zero now t pos room enough = record {
  rounds = 0;
  tick_is = omega arith;
  future = omega arith;
  first = λ h. absurd (omega arith);
  rest = refl;
}
catch_up-CaughtUp (suc fuel) now t pos room enough = elim (Bool-cases (leb t.sched_next_tick now)) [
  | inl late ↦
      let small : u64 (t.sched_next_tick + t.sched_tick_interval)
          ≡ t.sched_next_tick + t.sched_tick_interval =
        ground (arith, late) in
      rw (late, small)
        (CaughtUp-suc t _ now (ground (arith, late)) (
          catch_up-CaughtUp fuel now
            (record t { sched_next_tick = t.sched_next_tick + t.sched_tick_interval }) pos room
            (omega arith)))
  | inr early ↦ rw early (record {
    rounds = 0;
    tick_is = omega arith;
    future = ground (arith, early);
    first = λ h. absurd (omega arith);
    rest = refl;
  })
]
