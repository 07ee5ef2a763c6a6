-- ===== src/Timer/Expire/Handle.antt =====
-- timer_handle_interrupt of lab6/OrangePiVer/Src/timer.c as a whole.
use nycu_osc_lab.Prelude.{
  ℕ, zero, suc, ◌+◌, ◌≤◌, ◌<◌, ◌^◌, ◌≡◌, refl, ap, inl, inr, ltb, Option, some, List, [], ◌∷◌, ◌++◌,
  length, Bool-cases, arith, ltb→lt,
}
use nycu_osc_lab.Prelude.Inserts.{Each, Each-map}
use nycu_osc_lab.Task.{Tasks}
use nycu_osc_lab.Timer.{
  Timers, catch_up, take_timer, timer_free_node, timer_handle_interrupt, timer_program_next_locked,
}
use nycu_osc_lab.Timer.Queue.{IsTimers, Armed, timer_program_next_locked-Armed}
use nycu_osc_lab.Timer.Tick.{catch_up-CaughtUp}
use nycu_osc_lab.Timer.Expire.{
  program-IsTimers, take_timer-IsTimers, all_given, given, Quiet, handle-returns, handle-gives,
}

-- What the handler leaves when it returns in the round `round`, whose time is `clock round`: the
-- timers that expired by then have become tasks, in order, and the others wait.
pub record Handled {S : Type 0} (effect : ℕ → ℕ → S × Tasks → S × Tasks) (clock : ℕ → ℕ)
    (t : Timers) (w : S × Tasks) (queue : List ℕ) (fuel : ℕ) (r : Option (S × Tasks × Timers))
    : Type 0 where
  pub after : Timers
  pub expired : List ℕ
  pub left : List ℕ
  pub free : List ℕ
  pub round : ℕ
  pub in_time : round < fuel
  pub result :
      r
      ≡ some (
        (all_given effect t.callback t.arg expired w).0,
        (all_given effect t.callback t.arg expired w).1,
        after,
      )
  pub parts : queue ≡ expired ++ left
  pub late : Each (λ x. t.expires_at x ≤ clock round) expired
  pub early : Each (λ x. clock round < t.expires_at x) left
  pub valid : IsTimers after left free
  pub armed : Armed after
  pub tick : clock round < after.sched_next_tick

-- Timers whose tick has been moved.
abbrev ticked : ℕ → Timers → Timers
ticked tick t = record t { sched_next_tick = tick }

program-tick : (t : Timers) → (timer_program_next_locked t).sched_next_tick ≡ t.sched_next_tick
unfolding timer_program_next_locked
program-tick t = refl

ticked-IsTimers :
    {t : Timers} {queue free : List ℕ} (tick : ℕ)
    → IsTimers t queue free
    → IsTimers (ticked tick t) queue free
ticked-IsTimers tick w = record {
  queued = w.queued;
  unused = w.unused;
  once = w.once;
  free_once = w.free_once;
  apart = w.apart;
  total = w.total;
  ordered = w.ordered;
}

-- No timer has expired.
waits :
    {S : Type 0} (effect : ℕ → ℕ → S × Tasks → S × Tasks) (clock : ℕ → ℕ) (t : Timers) (s : S)
    (k : Tasks) (queue free : List ℕ) (fuel tick : ℕ) (r : Option (S × Tasks × Timers))
    → IsTimers (ticked tick t) queue free
    → clock fuel < tick
    → r ≡ some (s, k, timer_program_next_locked (ticked tick t))
    → Each (λ x. clock fuel < t.expires_at x) queue
    → Handled effect clock t (s, k) queue (suc fuel) r
unfolding all_given
waits effect clock t s k queue free fuel tick r w future e early = record {
  after = timer_program_next_locked (ticked tick t);
  expired = [];
  left = queue;
  free = free;
  round = fuel;
  in_time = omega arith;
  result = e;
  parts = refl;
  late = tt;
  early = early;
  valid = program-IsTimers w;
  armed = timer_program_next_locked-Armed (ticked tick t);
  tick = omega (arith, future, program-tick (ticked tick t));
}

-- The first timer has expired, and then those of the rest of the queue.
expires_first :
    {S : Type 0} (effect : ℕ → ℕ → S × Tasks → S × Tasks) (clock : ℕ → ℕ) (t : Timers)
    (w : S × Tasks) (x : ℕ) (queue : List ℕ) (fuel tick : ℕ) (r : Option (S × Tasks × Timers))
    → ((i : ℕ) → i < fuel → t.expires_at x ≤ clock i)
    → Handled effect clock
        (take_timer (ticked tick t))
        (given effect (t.callback x) (t.arg x) w)
        queue
        fuel
        r
    → Handled effect clock t w (x ∷ queue) (suc fuel) r
unfolding take_timer timer_free_node all_given
expires_first effect clock t w x queue fuel tick r due d = record {
  after = d.after;
  expired = x ∷ d.expired;
  left = d.left;
  free = d.free;
  round = d.round;
  in_time = omega (arith, d.in_time);
  result = d.result;
  parts = ap (λ xs. x ∷ xs) d.parts;
  late = (due d.round d.in_time, d.late);
  early = d.early;
  valid = d.valid;
  armed = d.armed;
  tick = d.tick;
}

-- Suppose the callbacks leave the timers alone, the clock does not run backwards and stays below the
-- end of its 64 bits, and there is fuel for each timer and one round more and for the ticks that were
-- missed. Then timer_handle_interrupt returns; each timer that has expired by its last look at the
-- clock has become a task, or has been called when the task queue was full, in order of expiry, and
-- no other timer has; the others still wait, the next tick is in the future, and the hardware timer
-- is set to the next event.
pub timer_handle_interrupt-Handled :
    {S : Type 0} (run : ℕ → ℕ → S × Tasks × Timers → S × Tasks × Timers)
    (effect : ℕ → ℕ → S × Tasks → S × Tasks) (fuel ticks : ℕ) (clock : ℕ → ℕ) (s : S) (k : Tasks)
    (t : Timers) (queue free : List ℕ)
    → Quiet run effect
    → ((i j : ℕ) → i ≤ j → clock j ≤ clock i)
    → ((i : ℕ) → clock i + t.sched_tick_interval < 2 ^ 64)
    → ((i : ℕ) → clock i < t.sched_next_tick + ticks)
    → 0 < t.sched_tick_interval
    → IsTimers t queue free
    → length queue < fuel
    → Handled effect clock t
        (s, k)
        queue
        fuel
        (timer_handle_interrupt run fuel ticks clock (s, k, t))
unfolding take_timer timer_free_node
timer_handle_interrupt-Handled run effect zero ticks clock s k t queue free quiet mono room enough
      pos w rounds =
    absurd (omega arith)
timer_handle_interrupt-Handled run effect (suc fuel) ticks clock s k t [] free quiet mono room
      enough pos w rounds =
    let c = catch_up-CaughtUp ticks (clock fuel) t pos (room fuel) (enough fuel) in
    waits effect clock t s k [] free fuel _ _ (ticked-IsTimers _ w) c.future
      (handle-returns run fuel ticks clock s k t _ c.rest (ground (arith, w.queued))) tt
timer_handle_interrupt-Handled run effect (suc fuel) ticks clock s k t (x ∷ queue) free quiet mono
      room enough pos w rounds =
    let c = catch_up-CaughtUp ticks (clock fuel) t pos (room fuel) (enough fuel) in
    let tick = (catch_up ticks (clock fuel) t).sched_next_tick in
    elim (Bool-cases (ltb (clock fuel) (t.expires_at x))) [
      | inl early ↦
          waits effect clock t s k (x ∷ queue) free fuel tick _ (ticked-IsTimers tick w) c.future
            (handle-returns run fuel ticks clock s k t _ c.rest
              (rw w.queued.0 (ground (arith, early))))
            (ltb→lt _ _ early, Each-map queue (λ y h. ground (arith, early, h)) w.ordered.0)
      | inr due ↦
          expires_first effect clock t (s, k) x queue fuel tick _
            (λ i h. ground (arith, mono i fuel, due))
            (rw
              (handle-gives run fuel ticks clock s k t _ c.rest effect x quiet w.queued.0
                (rw w.queued.0 (ground (arith, due, w.queued.1))))
              (timer_handle_interrupt-Handled run effect fuel ticks clock _ _
                (take_timer (ticked tick t)) queue (x ∷ free) quiet mono room
                (λ i. omega (arith, enough i, c.tick_is)) pos
                (take_timer-IsTimers x (ticked-IsTimers tick w)) (omega arith)))
    ]
