-- ===== src/Thread/Create.antt =====
-- thread_create of lab6/OrangePiVer/Src/thread.c.
use native.Mathlib.Decide.{ℕ_discrete}
use nycu_osc_lab.Prelude.{
  ℕ, zero, suc, ◌+◌, ◌≤◌, ◌<◌, ◌≡◌, ◌≢◌, refl, sym, ap, ◌∙◌, ◌⊎◌, inl, inr, true, false, ◌==◌,
  Bool-cases, arith, ==_ne,
}
use nycu_osc_lab.Thread.State.{
  TaskPtr, TaskState, unused, runnable, running, zombie, Threads, Layout, is_runnable_state,
  is_unused,
}
use nycu_osc_lab.Thread.{
  runq_add, alloc_scan, alloc_task, start_thread, thread_create, kill_zombies,
}
use nycu_osc_lab.Thread.Wf.{on, Wf, Sound, sound, kill_zombies-Wf}
use nycu_osc_lab.Thread.Schedule.{current_on, in_pool}
use nycu_osc_lab.Thread.Change.{Joins, Joins-Wf}

-- alloc_scan returns an unused entry from index `i` on, or NULL when there is none.
pub alloc_scan_lem :
    (left i : ℕ) (t : Threads)
    → ((alloc_scan left i t ≡ 0)
        × ((p : TaskPtr) → i < p → p ≤ i + left → is_unused (t.state p) ≡ false))
      ⊎ ((i < alloc_scan left i t)
          × (alloc_scan left i t ≤ i + left)
          × (is_unused (t.state (alloc_scan left i t)) ≡ true))
unfolding alloc_scan
alloc_scan_lem zero i t = inl (refl, λ p lo hi. absurd (omega arith))
alloc_scan_lem (suc left) i t = elim (Bool-cases (is_unused (t.state (1 + i)))) [
  | inl free ↦ rw free (inr (omega arith, omega arith, free))
  | inr busy ↦ rw busy (elim (alloc_scan_lem left (i + 1) t) [
    | inl (e, all) ↦ inl (
      e,
      λ p lo hi. elim (ℕ_discrete p (1 + i)) [
        | yes here ↦ rw here busy
        | no ne ↦ all p (omega arith) (omega arith)
      ],
    )
    | inr (lo, hi, free) ↦ inr (omega arith, omega arith, free)
  ])
]

-- A task that may run is no unused entry, and no zombie.
live-unused : (s : TaskState) → is_runnable_state s ≡ true → is_unused s ≡ true → ⊥
live-unused unused a b = cc
live-unused runnable a b = cc
live-unused running a b = cc
live-unused zombie a b = cc

unused-off : (s : TaskState) → is_unused s ≡ true → is_runnable_state s ≡ false
unused-off unused h = refl
unused-off runnable h = cc
unused-off running h = cc
unused-off zombie h = cc

start_thread-Joins :
    (l : Layout) (fn x : TaskPtr) {t : Threads} {pos : TaskPtr → ℕ} {n : ℕ}
    → Wf t pos n
    → is_unused (t.state x) ≡ true
    → Joins t (start_thread l fn x t) x
unfolding start_thread runq_add
start_thread-Joins l fn x {t} w free =
    let full : (t.run_queue_tail == 0) ≡ false =
      ==_ne _ _ (in_pool w t.run_queue_tail w.queue.tail_on) in
    let tail_on = w.queue.tail_on in
    let ne : t.run_queue_tail ≢ x =
      λ e. live-unused (t.state x) (ap (on t) (sym e) ∙ tail_on) free in
    let ne' : t.current ≢ x =
      λ e. live-unused (t.state x) (ap (on t) (sym e) ∙ current_on t w.current_runs) free in
    rw full (record {
      next = λ p. ground (arith, ne);
      tail = refl;
      on = λ p. ground arith;
      idle = refl;
      current_runs = ground (arith, ne', w.current_runs);
      only = λ p h. ground (arith, w.only p, h);
    })

-- What thread_create does when it has a free entry: the zombies that nobody awaits are gone, and the
-- new task waits at the end of the queue, with its function and the next pid.
pub record Created (t t' : Threads) (fn x : TaskPtr) : Type 0 where
  pub in_table : (0 < x) × (x ≤ 16)
  pub was_free : is_unused ((kill_zombies t).state x) ≡ true
  pub valid : Sound t'
  pub waits : t'.state x ≡ runnable
  pub last : t'.run_queue_tail ≡ x
  pub pid_is : t'.pid x ≡ (kill_zombies t).next_pid
  pub entry_is : t'.entry x ≡ fn
  pub others : (p : TaskPtr) → p ≢ x → t'.state p ≡ (kill_zombies t).state p
  pub runs_on : t'.current ≡ (kill_zombies t).current

start_thread-Created :
    (l : Layout) (fn x : TaskPtr) (t : Threads) {pos : TaskPtr → ℕ} {n : ℕ}
    → Wf (kill_zombies t) pos n
    → is_unused ((kill_zombies t).state x) ≡ true
    → 0 < x
    → x ≤ 16
    → Created t (start_thread l fn x (kill_zombies t)) fn x
unfolding start_thread runq_add
start_thread-Created l fn x t w free lo hi = record {
  in_table = (lo, hi);
  was_free = free;
  valid = sound (Joins-Wf w (unused-off (u.state x) free) lo hi (start_thread-Joins l fn x w free));
  waits = rw full (ground arith);
  last = rw full refl;
  pid_is = rw full (ground arith);
  entry_is = rw full (ground arith);
  others = λ p ne. rw full (ground arith);
  runs_on = rw full refl;
}
  where
    u : Threads
    u = kill_zombies t

    full : (u.run_queue_tail == 0) ≡ false
    full = ==_ne _ _ (in_pool w u.run_queue_tail w.queue.tail_on)

-- In a state with the invariant, thread_create either starts a task in a free entry (`Created`), or returns NULL, and then every entry
-- is taken, also after the zombies that nobody awaits are gone.
pub thread_create-Created :
    (l : Layout) (fn : ℕ) {t : Threads}
    → Sound t
    → let r = thread_create l fn t in
      Created t r.1 fn r.0
      ⊎ ((r.0 ≡ 0)
          × (r.1 ≡ kill_zombies t)
          × Sound r.1
          × ((p : TaskPtr) → 0 < p → p ≤ 16 → is_unused (r.1.state p) ≡ false))
unfolding thread_create alloc_task
thread_create-Created l fn {t} (sound w) =
    let w' = kill_zombies-Wf w in
    elim (alloc_scan_lem 16 0 (kill_zombies t)) [
      | inl (e, all) ↦ rw e (inr (refl, refl, sound w', all))
      | inr (lo, hi, free) ↦
          let some_entry : (alloc_scan 16 0 (kill_zombies t) == 0) ≡ false = ground arith in
          rw some_entry
            (inl (start_thread-Created l fn (alloc_scan 16 0 (kill_zombies t)) t w' free lo hi))
    ]
