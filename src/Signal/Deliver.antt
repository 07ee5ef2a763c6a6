-- ===== src/Signal/Deliver.antt =====
-- What the delivery of a signal in lab6/OrangePiVer/Src/signal.c does to the current task.
use mathlib.Core.Path.{subst}
use nycu_osc_lab.Prelude.{
  ℕ, ◌-◌, ◌^◌, ◌≤◌, ◌<◌, ◌≡◌, ◌≢◌, refl, sym, ap, ◌∙◌, ◌⊎◌, inl, inr, true, false, update, some,
  arith,
}
use nycu_osc_lab.Thread.State.{
  TaskPtr, TaskState, unused, running, zombie, Threads, Layout, sign_extend,
}
use nycu_osc_lab.Thread.{task_find_by_pid, task_kill}
use nycu_osc_lab.Thread.Find.{HasPid, FirstWith, task_find_by_pid-FirstWith}
use nycu_osc_lab.Thread.Wf.{Sound, sound}
use nycu_osc_lab.Thread.Exit.{Exited}
use nycu_osc_lab.Thread.Kill.{Kills, refused, itself, another, task_kill_found}
use nycu_osc_lab.Signal.{TrapFrame, negated, kill_current, signal_try_deliver}
use nycu_osc_lab.Signal.Cases.{
  Lowest, Delivered, Ready, leaves, kills, starts, signal_try_deliver-Cases,
}

-- The current task has its exit status.
abbrev pub ending : Threads → ℕ → Threads
ending t status = record t { exit_status = update t.exit_status t.current status }

-- The entries that have the pid of the current task are no other than that of the current task.
abbrev pub OwnPid : Threads → Type 0
OwnPid t =
    (p : TaskPtr) → 0 < p → p ≤ 16 → HasPid (sign_extend (t.pid t.current)) t p → p ≡ t.current

running_used : (s : TaskState) → s ≡ running → s ≢ unused
running_used s e h = cc (sym e ∙ h)

running_here : (s : TaskState) → s ≡ running → (s ≡ unused) ⊎ (s ≡ zombie) → ⊥
running_here s e (inl h) = absurd (cc (sym e ∙ h))
running_here s e (inr h) = absurd (cc (sym e ∙ h))

find_current :
    (t : Threads) {x : TaskPtr}
    → t.state t.current ≡ running
    → t.current ≢ 0
    → t.current ≤ 16
    → OwnPid t
    → FirstWith (sign_extend (t.pid t.current)) t x
    → x ≡ t.current
find_current t runs nz inside own (inl (z, none_has)) =
    absurd
      (none_has t.current (omega (arith, nz)) inside (running_used (t.state t.current) runs, refl))
find_current t runs nz inside own (inr (lo, hi, has, first)) = own _ lo hi has

kill_current-some :
    (signum : ℕ) (t : Threads) {t' : Threads}
    → task_kill (sign_extend (t.pid t.current)) (negated signum) t ≡ some t'
    → kill_current signum t ≡ t'
unfolding kill_current
kill_current-some signum t e = rw (kill_current, e) refl

-- With its own pid, the current task ends as in thread_exit.
kill_current-Exited :
    (signum : ℕ) {t : Threads}
    → Sound t
    → t.current ≢ 0
    → t.current ≢ 1
    → t.current ≤ 16
    → OwnPid t
    → Exited
        (record t { exit_status = update t.exit_status t.current (negated signum) })
        (kill_current signum t)
        t.current
kill_current-Exited signum {t} (sound w) nz ni inside own =
    elim (subst (λ x. Kills t x (negated signum) (task_kill pid (negated signum) t)) here
      (task_kill_found pid (negated signum) (sound w))) [
        | refused e (inl z) ↦ absurd (nz z)
        | refused e (inr (inl i)) ↦ absurd (ni i)
        | refused e (inr (inr gone)) ↦ absurd (running_here (t.state t.current) w.current_runs gone)
        | itself e task live me d ↦
            subst (λ u. Exited (ending t (negated signum)) u t.current)
              (sym (kill_current-some signum t e)) d
        | another e task live other d ↦ absurd (other refl)
      ]
  where
    pid : ℕ
    pid = sign_extend (t.pid t.current)

    here : task_find_by_pid pid t ≡ t.current
    here = find_current t w.current_runs nz inside own (task_find_by_pid-FirstWith pid t)

-- What signal_try_deliver does on the way back to user mode.
pub data Delivery (l : Layout) (tf : TrapFrame) (t : Threads) : TrapFrame × Threads → Type 0 where
  -- nothing to do
  none_due :
      {r : TrapFrame × Threads}
      → r ≡ (tf, t)
      → (t.current ≡ 0)
        ⊎ ((t.is_user t.current ≡ false)
            ⊎ ((t.handling_signal t.current ≡ true)
                ⊎ ((i : ℕ) → 0 < i → i < 32 → t.pending_signals t.current i ≡ false)))
      → Delivery l tf t r
  -- no handler: the task ends, with -signum as its exit status
  default_action :
      {r : TrapFrame × Threads} (signum : ℕ)
      → Ready t
      → Lowest t t.current signum
      → t.signal_handlers t.current signum ≡ 0
      → r.0 ≡ tf
      → Exited
          (record t { exit_status = update t.exit_status t.current (2 ^ 32 - signum) })
          r.1
          t.current
      → Delivery l tf t r
  handler :
      {r : TrapFrame × Threads} (signum : ℕ)
      → Ready t
      → Lowest t t.current signum
      → t.signal_handlers t.current signum ≢ 0
      → Delivered l tf r.0 t r.1 signum
      → Delivery l tf t r

-- In a state with the invariant, where the idle task is no user process and no other entry of the table
-- has the pid of the current task: signal_try_deliver leaves a kernel thread, a task in a handler and a
-- task without pending signals alone. Otherwise it takes the lowest pending signal. When that has a
-- handler, the program goes on in it, and the return from the handler restores the trap frame
-- (`Delivered`); when it has none, the current task becomes a zombie with -signum as its exit status and
-- gives up the CPU as thread_exit does (`Exited`).
pub signal_try_deliver-Delivery :
    (l : Layout) (tf : TrapFrame) {t : Threads}
    → Sound t
    → t.is_user 1 ≡ false
    → t.current ≤ 16
    → OwnPid t
    → Delivery l tf t (signal_try_deliver l tf t)
signal_try_deliver-Delivery l tf {t} s idle_is_kernel inside own =
    elim (signal_try_deliver-Cases l tf t) [
      | leaves e why ↦ none_due e why
      | kills signum ready lowest unset e ↦
          let other : t.current ≢ 1 =
            λ i. cc (sym idle_is_kernel ∙ (ap t.is_user (sym i) ∙ ready.user)) in
          let status : negated signum ≡ 2 ^ 32 - signum = omega (arith, lowest.valid) in
          default_action signum ready lowest unset (ap (λ r. r.0) e) (
            subst (λ v. Exited (ending t v) (signal_try_deliver l tf t).1 t.current) status
              (subst (λ u. Exited (ending t (negated signum)) u t.current) (sym (ap (λ r. r.1) e))
                (kill_current-Exited signum s ready.found other inside own)))
      | starts signum ready lowest given d ↦ handler signum ready lowest given d
    ]
