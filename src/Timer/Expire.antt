-- ===== src/Timer/Expire.antt =====
-- timer_handle_interrupt of lab6/OrangePiVer/Src/timer.c: which timers expire, and what becomes of
-- them.
pub mod Handle
use nycu_osc_lab.Prelude.{
  ℕ, zero, suc, ◌+◌, ◌*◌, ◌≤◌, ◌<◌, ◌^◌, ◌≡◌, refl, ap, ◌∙◌, ◌⊎◌, inl, inr, true, false, ltb, ◌||◌,
  ◌==◌, if◌then◌else◌, Option, none, some, List, [], ◌∷◌, ◌++◌, length, update, Bool-cases,
  Option-cases, arith,
}
use nycu_osc_lab.Prelude.Chains.{NotIn, Chain-update}
use nycu_osc_lab.Prelude.Inserts.{Each, Each-map, Disjoint-head, Disjoint-tail}
use nycu_osc_lab.Task.{Tasks, add_task}
use nycu_osc_lab.Timer.{
  Timers, catch_up, take_timer, timer_free_node, hand_over, timer_handle_interrupt,
  timer_program_next_locked,
}
use nycu_osc_lab.Timer.Queue.{IsTimers, Armed, timer_program_next_locked-Armed}
use nycu_osc_lab.Timer.Tick.{CaughtUp, catch_up-CaughtUp}

program-IsTimers :
    {t : Timers} {queue free : List ℕ}
    → IsTimers t queue free
    → IsTimers (timer_program_next_locked t) queue free
unfolding timer_program_next_locked
program-IsTimers w = record {
  queued = w.queued;
  unused = w.unused;
  once = w.once;
  free_once = w.free_once;
  apart = w.apart;
  total = w.total;
  ordered = w.ordered;
}

-- The node at the head goes from the queue to the free list.
take_timer-IsTimers :
    {t : Timers} {queue free : List ℕ} (n : ℕ)
    → IsTimers t (n ∷ queue) free
    → IsTimers (take_timer t) queue (n ∷ free)
unfolding take_timer timer_free_node
take_timer-IsTimers {t} {queue} {free} n w = rw w.queued.0 (record {
  queued = Chain-update t.next n t.free_list (t.next n) queue w.queued.2 w.once.0;
  unused =
      (refl, w.queued.1, rw own (Chain-update t.next n t.free_list t.free_list free w.unused away));
  once = w.once.1;
  free_once = (away, w.free_once);
  apart = (w.once.0, Disjoint-tail n free queue w.apart);
  total = omega (arith, w.total);
  ordered = w.ordered.1;
})
  where
    away : NotIn n free
    away = Disjoint-head n free queue w.apart

    own : update t.next n t.free_list n ≡ t.free_list
    own = ground arith

-- What becomes of a timer that expires: a task, or a direct call when the task queue is full.
pub given : {S : Type 0} → (ℕ → ℕ → S × Tasks → S × Tasks) → ℕ → ℕ → S × Tasks → S × Tasks
given effect callback arg (s, k) =
    if callback == 0 then (s, k) else elim (add_task callback arg 2147483649 k) [
      | none ↦ effect callback arg (s, k)
      | some k' ↦ (s, k')
    ]

-- The same for each timer of a list, one after the other.
pub all_given :
    {S : Type 0}
    → (ℕ → ℕ → S × Tasks → S × Tasks)
    → (ℕ → ℕ)
    → (ℕ → ℕ)
    → List ℕ
    → S × Tasks
    → S × Tasks
all_given effect callback arg [] w = w
all_given effect callback arg (x ∷ xs) w =
    all_given effect callback arg xs (given effect (callback x) (arg x) w)

-- The timers are left alone by the callbacks.
abbrev pub Quiet :
    {S : Type 0}
    → (ℕ → ℕ → S × Tasks × Timers → S × Tasks × Timers)
    → (ℕ → ℕ → S × Tasks → S × Tasks)
    → Type 0
Quiet {S} run effect =
    (c a : ℕ) (s : S) (k : Tasks) (t : Timers)
    → run c a (s, k, t) ≡ ((effect c a (s, k)).0, (effect c a (s, k)).1, t)

hand_over-given :
    {S : Type 0} (run : ℕ → ℕ → S × Tasks × Timers → S × Tasks × Timers)
    (effect : ℕ → ℕ → S × Tasks → S × Tasks) (c a : ℕ) (s : S) (k : Tasks) (t : Timers)
    → Quiet run effect
    → hand_over run c a (s, k, t) ≡ ((given effect c a (s, k)).0, (given effect c a (s, k)).1, t)
unfolding hand_over given
hand_over-given run effect c a s k t quiet = elim (Bool-cases (c == 0)) [
  | inl null ↦ rw null refl
  | inr some_callback ↦ elim (Option-cases (add_task c a 2147483649 k)) [
    | inl full ↦ rw (some_callback, full) (quiet c a s k t)
    | inr (k', added) ↦ rw (some_callback, added) refl
  ]
]

module _ {S : Type 0} (run : ℕ → ℕ → S × Tasks × Timers → S × Tasks × Timers) (fuel ticks : ℕ)
    (clock : ℕ → ℕ) (s : S) (k : Tasks) (t t1 : Timers)
    (e : catch_up ticks (clock fuel) t ≡ t1) where
  handle-returns :
      ((t1.head == 0) || ltb (clock fuel) (t1.expires_at t1.head)) ≡ true
      → timer_handle_interrupt run (suc fuel) ticks clock (s, k, t)
        ≡ some (s, k, timer_program_next_locked t1)
  unfolding timer_handle_interrupt
  handle-returns h = rw (e, h) refl

  handle-continues :
      ((t1.head == 0) || ltb (clock fuel) (t1.expires_at t1.head)) ≡ false
      → timer_handle_interrupt run (suc fuel) ticks clock (s, k, t)
        ≡ timer_handle_interrupt run fuel ticks clock
            (hand_over run (t1.callback t1.head) (t1.arg t1.head) (s, k, take_timer t1))
  unfolding timer_handle_interrupt
  handle-continues h = rw (e, h) refl

  handle-gives :
      (effect : ℕ → ℕ → S × Tasks → S × Tasks) (x : ℕ)
      → Quiet run effect
      → t1.head ≡ x
      → ((t1.head == 0) || ltb (clock fuel) (t1.expires_at t1.head)) ≡ false
      → timer_handle_interrupt run (suc fuel) ticks clock (s, k, t)
        ≡ timer_handle_interrupt run fuel ticks clock (
          (given effect (t1.callback x) (t1.arg x) (s, k)).0,
          (given effect (t1.callback x) (t1.arg x) (s, k)).1,
          take_timer t1,
        )
  handle-gives effect x quiet e' h =
      handle-continues h
      ∙ ap (timer_handle_interrupt run fuel ticks clock) (
          hand_over-given run effect (t1.callback t1.head) (t1.arg t1.head) s k (take_timer t1)
            quiet
          ∙ ap
              (λ y. (
                (given effect (t1.callback y) (t1.arg y) (s, k)).0,
                (given effect (t1.callback y) (t1.arg y) (s, k)).1,
                take_timer t1,
              ))
              e')
