-- ===== src/Timer.antt =====
-- The software timers of lab6/OrangePiVer/Src/timer.c: a pool of 32 nodes, a queue in order of
-- expiry, and the tick of the scheduler. The console output and the flag SIE are left out.
mod Queue
mod Tick
mod Init
mod Expire
mod Tests
use nycu_osc_lab.Prelude.{
  ℕ, zero, suc, ◌+◌, ◌-◌, ◌*◌, ◌/◌, ◌%◌, ◌^◌, Bool, true, false, not, ◌||◌, ◌&&◌, ltb, leb, ◌==◌,
  if◌then◌else◌, update, Option, none, some, u64, sub64,
}
use nycu_osc_lab.Prelude.Chains.{walk, link_after}
use nycu_osc_lab.Task.{Tasks, add_task}

abbrev pub timer_freq : ℕ
timer_freq = 24000000

abbrev pub timer_hz : ℕ
timer_hz = 32

-- A pointer to a timer_event: 0 is NULL and 1 + i is &timer_pool[i].
abbrev pub EventPtr : Type 0
EventPtr = ℕ

pub record Timers : Type 0 where
  pub expires_at : EventPtr → ℕ
  pub callback : EventPtr → ℕ
  pub arg : EventPtr → ℕ
  pub next : EventPtr → EventPtr
  pub free_list : EventPtr
  pub head : EventPtr
  pub boot_time_base : ℕ
  pub sched_tick_interval : ℕ
  pub sched_next_tick : ℕ
  -- the last argument of sbi_set_timer, and the flag STIE
  pub programmed : ℕ
  pub stie : Bool

pub timer_alloc_node : Timers → EventPtr × Timers
timer_alloc_node t =
    let n = t.free_list in
    let t1 = record t { free_list = t.next n } in
    (n, if not (n == 0) then record t1 { next = update t1.next n 0 } else t)

pub timer_free_node : EventPtr → Timers → Timers
timer_free_node n t =
    let t1 = record t { next = update t.next n t.free_list } in record t1 { free_list = n }

pub timer_program_next_locked : Timers → Timers
timer_program_next_locked t =
    let next =
      if not (t.head == 0) && ltb (t.expires_at t.head) t.sched_next_tick
      then t.expires_at t.head
      else t.sched_next_tick in
    record t { programmed = next; stie = true }

-- The links of the nodes from the first one on: each to the one behind it.
pub link_events : ℕ → ℕ → (EventPtr → EventPtr) → EventPtr → EventPtr
link_events zero i next = next
link_events (suc left) i next = link_events left (i + 1) (update next (1 + i) (1 + (i + 1)))

-- `now` is what read_time returns.
pub timer_init : ℕ → Timers → Timers
timer_init now t =
    let t1 = record t {
      boot_time_base = now;
      sched_tick_interval = timer_freq / timer_hz;
      sched_next_tick = u64 (now + timer_freq / timer_hz);
      free_list = 1;
      next = update (link_events 31 0 t.next) 32 0;
      head = 0;
    } in
    timer_program_next_locked t1

-- `sec` is the bit pattern of a signed 32-bit number. The queue has at most 32 nodes, so the walk's
-- fuel is enough. `none` is the result -1, with nothing changed.
pub add_timer : ℕ → ℕ → ℕ → ℕ → Timers → Option Timers
add_timer now callback arg sec t =
    let (n, t1) = timer_alloc_node t in
    let delay_ticks = u64 (sec * timer_freq) in
    let t2 = record t1 {
      expires_at = update t1.expires_at n (u64 (now + delay_ticks));
      callback = update t1.callback n callback;
      arg = update t1.arg n arg;
      next = update t1.next n 0;
    } in
    let cur = walk 33 t2.next (λ x. leb (t2.expires_at x) (t2.expires_at n)) t2.head in
    if (callback == 0) || leb (2 ^ 31) sec
    then none
    else if n == 0
    then none
    else if (t2.head == 0) || ltb (t2.expires_at n) (t2.expires_at t2.head)
    then some (timer_program_next_locked (record t2 { next = update t2.next n t2.head; head = n }))
    else some (record t2 { next = link_after t2.next n cur })

-- while (sched_next_tick <= now), with fuel.
pub catch_up : ℕ → ℕ → Timers → Timers
catch_up zero now t = t
catch_up (suc fuel) now t =
    let rest =
      catch_up fuel now
        (record t { sched_next_tick = u64 (t.sched_next_tick + t.sched_tick_interval) }) in
    if leb t.sched_next_tick now then rest else t

-- The head leaves the queue, and its node goes back to the pool.
pub take_timer : Timers → Timers
take_timer t = timer_free_node t.head (record t { head = t.next t.head })

-- The callbacks, which may act on the rest of the machine, the task queue and the timers, are a
-- parameter. A task of priority 1 has the number 1 + 2 ^ 31.
module _ {S : Type 0} (run : ℕ → ℕ → S × Tasks × Timers → S × Tasks × Timers) where
  -- The last step of timer_handle_interrupt: the callback becomes a task, or runs at once when the
  -- task queue is full.
  pub hand_over : ℕ → ℕ → S × Tasks × Timers → S × Tasks × Timers
  hand_over callback arg (s, k, t) =
      if callback == 0 then (s, k, t) else elim (add_task callback arg 2147483649 k) [
        | none ↦ run callback arg (s, k, t)
        | some k' ↦ (s, k', t)
      ]

  -- while (1), with fuel for the rounds and for catching up; `clock` is what read_time returns in
  -- each round. `none` when the fuel runs out.
  pub timer_handle_interrupt : ℕ → ℕ → (ℕ → ℕ) → S × Tasks × Timers → Option (S × Tasks × Timers)
  timer_handle_interrupt zero ticks clock (s, k, t) = none
  timer_handle_interrupt (suc fuel) ticks clock (s, k, t) =
      let now = clock fuel in
      let t1 = catch_up ticks now t in
      let rest =
        timer_handle_interrupt fuel ticks clock
          (hand_over (t1.callback t1.head) (t1.arg t1.head) (s, k, take_timer t1)) in
      if (t1.head == 0) || ltb now (t1.expires_at t1.head)
      then some (s, k, timer_program_next_locked t1)
      else rest

pub timer_get_boot_time : ℕ → Timers → ℕ
timer_get_boot_time now t = sub64 now t.boot_time_base / timer_freq

pub timer_trigger_now : ℕ → Timers → Timers
timer_trigger_now now t = record t { programmed = now; stie = true }

pub timer_get_time_us : ℕ → Timers → ℕ
timer_get_time_us now t =
    let ticks = sub64 now t.boot_time_base in
    let sec = ticks / timer_freq in
    let rem = ticks % timer_freq in u64 (u64 (sec * 1000000) + u64 (rem * 1000000) / timer_freq)
