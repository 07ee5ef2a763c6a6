-- ===== src/Thread/Kill.antt =====
-- task_kill of lab6/OrangePiVer/Src/thread.c.
use mathlib.Core.Path.{subst}
use nycu_osc_lab.Prelude.{
  ℕ, ◌<◌, ◌≡◌, ◌≢◌, refl, sym, ◌∙◌, ◌⊎◌, inl, inr, true, false, ◌==◌, ◌||◌, update, Option, none,
  some, Bool-cases, arith, ==_ne, ==_iff,
}
use nycu_osc_lab.Thread.State.{
  TaskPtr, TaskState, unused, runnable, running, zombie, Threads, is_runnable_state, is_unused,
  is_zombie,
}
use nycu_osc_lab.Thread.{unlink, runq_remove, thread_exit, stop_task, task_kill, task_find_by_pid}
use nycu_osc_lab.Thread.Wf.{on, Wf, Sound, sound}
use nycu_osc_lab.Thread.Change.{Leaves-Sound, Before, runq_remove-unlink}
use nycu_osc_lab.Thread.Exit.{Exited, thread_exit-Exited}
use nycu_osc_lab.Thread.Find.{FirstWith, task_find_by_pid-FirstWith}
use native.Mathlib.Decide.{ℕ_discrete}

-- What task_kill does with another task: it is a zombie with the exit status, and it stands in no queue;
-- the CPU stays where it is, and the others keep their states.
pub record Stopped (t t' : Threads) (x status : ℕ) : Type 0 where
  pub valid : Sound t'
  pub dead : t'.state x ≡ zombie
  pub status_is : t'.exit_status x ≡ status
  pub off_queue : t'.next x ≡ 0
  pub stays : t'.current ≡ t.current
  pub others : (p : TaskPtr) → p ≢ x → t'.state p ≡ t.state p

-- The state after task_kill of another task.
abbrev kills : TaskPtr → TaskPtr → ℕ → Threads → Threads
kills x r status t =
    let t1 = unlink r x t in
    record t1 { exit_status = update t1.exit_status x status; state = update t1.state x zombie }

kills-Stopped :
    {t : Threads} {pos : TaskPtr → ℕ} {n : ℕ} (x r status : TaskPtr)
    → Wf t pos n
    → x ≢ 1
    → on t x ≡ true
    → x ≢ t.current
    → Before t x r
    → Stopped t (kills x r status t) x status
unfolding unlink
kills-Stopped {t} x r status w other h ne b = record {
  valid = Leaves-Sound w h other b (record {
    next = λ p. refl;
    tail = refl;
    on = λ p. ground arith;
    idle = refl;
    current_runs = ground (arith, w.current_runs, ne);
    only = λ p g. ground (arith, g, w.only p);
  });
  dead = ground arith;
  status_is = ground arith;
  off_queue = ground arith;
  stays = refl;
  others = λ p n1. ground arith;
}

live-taken : (s : TaskState) → is_runnable_state s ≡ true → (is_unused s || is_zombie s) ≡ false
live-taken unused h = cc
live-taken runnable h = refl
live-taken running h = refl
live-taken zombie h = cc

dead-or-live :
    (s : TaskState) → ((is_unused s || is_zombie s) ≡ true) ⊎ (is_runnable_state s ≡ true)
dead-or-live unused = inl refl
dead-or-live runnable = inr refl
dead-or-live running = inr refl
dead-or-live zombie = inl refl

stop_task-kills :
    (x r status : TaskPtr) (t : Threads)
    → x ≢ 0
    → x ≢ t.idle_task
    → on t x ≡ true
    → x ≢ t.current
    → runq_remove x t ≡ unlink r x t
    → stop_task x status t ≡ some (kills x r status t)
unfolding stop_task unlink
stop_task-kills x r status t nz ni h nc e =
    rw (==_ne _ _ nz, ==_ne _ _ ni, live-taken (t.state x) h, ==_ne _ _ nc, e) refl

stop_task-exits :
    (x status : TaskPtr) (t : Threads)
    → x ≢ 0
    → x ≢ t.idle_task
    → on t x ≡ true
    → x ≡ t.current
    → stop_task x status t
      ≡ some (thread_exit (record t { exit_status = update t.exit_status x status }))
unfolding stop_task
stop_task-exits x status t nz ni h e =
    rw (==_ne _ _ nz, ==_ne _ _ ni, live-taken (t.state x) h, (==_iff x t.current).1 e) refl

stop_task-none :
    (x status : TaskPtr) (t : Threads)
    → (x ≡ 0) ⊎ ((x ≡ t.idle_task) ⊎ ((is_unused (t.state x) || is_zombie (t.state x)) ≡ true))
    → stop_task x status t ≡ none
unfolding stop_task
stop_task-none x status t (inl z) = rw ((==_iff x 0).1 z) refl
stop_task-none x status t (inr (inl i)) = elim (Bool-cases (x == 0)) [
  | inl null ↦ rw null refl
  | inr found ↦ rw (found, (==_iff x t.idle_task).1 i) refl
]
stop_task-none x status t (inr (inr dead)) = elim (Bool-cases (x == 0)) [
  | inl null ↦ rw null refl
  | inr found ↦ elim (Bool-cases (x == t.idle_task)) [
    | inl idle ↦ rw (found, idle) refl
    | inr other ↦ rw (found, other, dead) refl
  ]
]

status-Sound :
    {t : Threads} {pos : TaskPtr → ℕ} {n : ℕ} (x status : ℕ)
    → Wf t pos n
    → Sound (record t { exit_status = update t.exit_status x status })
status-Sound x status w = sound (record {
  queue = w.queue;
  counted = w.counted;
  idle_is = w.idle_is;
  idle_on = w.idle_on;
  current_runs = w.current_runs;
  only = w.only;
})

-- A task that may run.
abbrev pub Alive : Threads → TaskPtr → Type 0
Alive t x = (t.state x ≡ runnable) ⊎ (t.state x ≡ running)

on-Alive : (t : Threads) (x : TaskPtr) → on t x ≡ true → Alive t x
on-Alive t x h = may_run (t.state x) h
  where
    may_run : (s : TaskState) → is_runnable_state s ≡ true → (s ≡ runnable) ⊎ (s ≡ running)
    may_run unused e = absurd (cc e)
    may_run runnable e = inl refl
    may_run running e = inr refl
    may_run zombie e = absurd (cc e)

-- An entry without a task, or with a dead one.
abbrev pub Gone : Threads → TaskPtr → Type 0
Gone t x = (t.state x ≡ unused) ⊎ (t.state x ≡ zombie)

pub dead-Gone :
    (t : Threads) (x : TaskPtr) → (is_unused (t.state x) || is_zombie (t.state x)) ≡ true → Gone t x
dead-Gone t x h = no_task (t.state x) h
  where
    no_task : (s : TaskState) → (is_unused s || is_zombie s) ≡ true → (s ≡ unused) ⊎ (s ≡ zombie)
    no_task unused e = inl refl
    no_task runnable e = absurd (cc e)
    no_task running e = absurd (cc e)
    no_task zombie e = inr refl

-- task_kill of the task `x`: it is refused, it ends the task that calls it, or it ends another one.
pub data Kills (t : Threads) (x status : ℕ) : Option Threads → Type 0 where
  refused : {r : Option Threads} → r ≡ none → (x ≡ 0) ⊎ ((x ≡ 1) ⊎ Gone t x) → Kills t x status r
  itself :
      {r : Option Threads} {t' : Threads}
      → r ≡ some t'
      → 1 < x
      → Alive t x
      → x ≡ t.current
      → Exited (record t { exit_status = update t.exit_status x status }) t' x
      → Kills t x status r
  another :
      {r : Option Threads} {t' : Threads}
      → r ≡ some t'
      → 1 < x
      → Alive t x
      → x ≢ t.current
      → Stopped t t' x status
      → Kills t x status r

pub task_kill_found :
    (pid status : ℕ) {t : Threads}
    → Sound t
    → Kills t (task_find_by_pid pid t) status (task_kill pid status t)
unfolding task_kill
task_kill_found pid status {t} (sound w) = kills_x
  where
    x : TaskPtr
    x = task_find_by_pid pid t

    with_status : Threads
    with_status = record t { exit_status = update t.exit_status x status }

    kills_x : Kills t x status (stop_task x status t)
    kills_x = elim (ℕ_discrete x 0) [
      | yes z ↦ refused (stop_task-none x status t (inl z)) (inl z)
      | no nz ↦ elim (ℕ_discrete x 1) [
        | yes i ↦ refused (stop_task-none x status t (inr (inl (i ∙ sym w.idle_is)))) (inr (inl i))
        | no ni ↦
            let task : 1 < x = omega arith in
            elim (dead-or-live (t.state x)) [
              | inl dead ↦
                  refused (stop_task-none x status t (inr (inr dead)))
                    (inr (inr (dead-Gone t x dead)))
              | inr live ↦ elim (ℕ_discrete x t.current) [
                | yes me ↦
                    itself (stop_task-exits x status t nz (λ q. ni (q ∙ w.idle_is)) live me) task
                      (on-Alive t x live) me
                      (subst (λ u. Exited with_status (thread_exit with_status) u) (sym me)
                        (thread_exit-Exited (status-Sound x status w) (λ q. ni (me ∙ q))))
                | no other ↦
                    let (r, b, e) = runq_remove-unlink x w live ni in
                    another (stop_task-kills x r status t nz (λ q. ni (q ∙ w.idle_is)) live other e)
                      task (on-Alive t x live) other (kills-Stopped x r status w ni live other b)
              ]
            ]
      ]
    ]

-- In a state with the invariant, task_kill looks for the first task of the table with the pid. It is
-- refused when there is none, for the idle task and for a task that is dead already; it ends the task
-- that calls it as thread_exit does, after it has set the exit status; and it makes another task that
-- may run a zombie (`Stopped`).
pub task_kill-Kills :
    (pid status : ℕ) {t : Threads}
    → Sound t
    → (x : TaskPtr) × FirstWith pid t x × Kills t x status (task_kill pid status t)
task_kill-Kills pid status {t} h =
    (task_find_by_pid pid t, task_find_by_pid-FirstWith pid t, task_kill_found pid status h)
