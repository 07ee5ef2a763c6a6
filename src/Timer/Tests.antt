-- ===== src/Timer/Tests.antt =====
-- The timers of lab6/OrangePiVer/Src/timer.c at concrete states.
use nycu_osc_lab.Prelude.{
  ℕ, suc, ◌+◌, ◌*◌, ◌≡◌, refl, leb, ◌==◌, if◌then◌else◌, some, [], ◌∷◌, arith, true, u64,
}
use nycu_osc_lab.Prelude.Chains.{insert}
use nycu_osc_lab.Prelude.Ranges.{range, Nodup-range, Disjoint-range, Chain-range}
use nycu_osc_lab.Task.{Tasks}
use nycu_osc_lab.Timer.{Timers, timer_init, add_timer, catch_up, timer_handle_interrupt}
use nycu_osc_lab.Timer.Queue.{IsTimers, Armed, next_event, Added, add_timer-IsTimers}
use nycu_osc_lab.Timer.Tick.{CaughtUp, catch_up-CaughtUp}
use nycu_osc_lab.Timer.Init.{timer_init-IsTimers}
use nycu_osc_lab.Timer.Expire.Handle.{Handled, timer_handle_interrupt-Handled}

-- Node 1 expires at 48000000, and the other nodes are free; the next tick is at 750000.
abbrev one_timer : Timers
one_timer = record {
  expires_at = λ p. 48000000;
  callback = λ p. 100;
  arg = λ p. 7;
  next = λ p. if p == 1 then 0 else if p == 32 then 0 else suc p;
  free_list = 2;
  head = 1;
  boot_time_base = 0;
  sched_tick_interval = 750000;
  sched_next_tick = 750000;
  programmed = 750000;
  stie = true;
}

one_timer-IsTimers : IsTimers one_timer (1 ∷ []) (range 2 31)
one_timer-IsTimers = record {
  queued = (refl, omega arith, refl);
  unused = Chain-range one_timer.next 2 30 (omega arith) (λ q lo hi. ground arith) refl;
  once = (tt, tt);
  free_once = Nodup-range 2 31;
  apart = Disjoint-range 1 2 31 (omega arith);
  total = refl;
  ordered = (tt, tt);
}

one_timer-Armed : Armed one_timer
unfolding next_event
one_timer-Armed = (refl, refl)

timer_init-IsTimers_example :
    IsTimers (timer_init 1000 one_timer) [] (range 1 32)
    × Armed (timer_init 1000 one_timer)
    × ((timer_init 1000 one_timer).programmed ≡ u64 (1000 + 750000))
timer_init-IsTimers_example = timer_init-IsTimers 1000 one_timer

add_timer-IsTimers_example :
    (t' : Timers) × (add_timer 500000 200 9 1 one_timer ≡ some t')
    × IsTimers t' (insert (λ x. leb (t'.expires_at x) (t'.expires_at 2)) 2 (1 ∷ [])) (range 3 30)
    × Armed t'
    × Added one_timer t' 2 200 9 (u64 (500000 + u64 (1 * 24000000)))
add_timer-IsTimers_example =
    add_timer-IsTimers 2 500000 200 9 1 (omega arith) (omega arith) one_timer-IsTimers
      one_timer-Armed

catch_up-CaughtUp_example : CaughtUp one_timer (catch_up 10000000 2000000 one_timer) 2000000
catch_up-CaughtUp_example =
    catch_up-CaughtUp 10000000 2000000 one_timer (omega arith) (omega arith) (omega arith)

abbrev no_tasks : Tasks
no_tasks = record {
  priority = λ p. 0;
  callback = λ p. 0;
  arg = λ p. 0;
  next = λ p. 0;
  free_list = 0;
  head = 0;
  current_priority = 1;
}

-- The callback adds its argument to a counter.
abbrev count : ℕ → ℕ → ℕ × Tasks × Timers → ℕ × Tasks × Timers
count callback arg (s, k, t) = (s + arg, k, t)

timer_handle_interrupt-Handled_example :
    Handled
      (λ c a w. (w.0 + a, w.1))
      (λ i. 50000000)
      one_timer
      (0, no_tasks)
      (1 ∷ [])
      2
      (timer_handle_interrupt count 2 50000000 (λ i. 50000000) (0, no_tasks, one_timer))
timer_handle_interrupt-Handled_example =
    timer_handle_interrupt-Handled count (λ c a w. (w.0 + a, w.1)) 2 50000000 (λ i. 50000000) 0
      no_tasks one_timer (1 ∷ []) (range 2 31) (λ c a s k t. refl) (λ i j h. omega arith)
      (λ i. omega arith) (λ i. omega arith) (omega arith) one_timer-IsTimers (omega arith)
