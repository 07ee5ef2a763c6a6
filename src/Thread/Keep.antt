-- ===== src/Thread/Keep.antt =====
-- What thread_create of lab6/OrangePiVer/Src/thread.c leaves to a task that is alive.
use nycu_osc_lab.Prelude.{
  ℕ, zero, suc, ◌+◌, ◌≡◌, ◌≢◌, refl, sym, ap, ◌∙◌, inl, inr, true, false, ◌==◌, Bool-cases, arith,
}
use nycu_osc_lab.Thread.State.{
  TaskPtr, TaskState, unused, runnable, running, zombie, Threads, Layout, is_runnable_state,
  is_zombie, is_unused,
}
use nycu_osc_lab.Thread.{
  task_reap, awaited, reap_loop, kill_zombies, start_thread, runq_add, alloc_scan, alloc_task,
  thread_create,
}
use nycu_osc_lab.Thread.Create.{alloc_scan_lem}
use nycu_osc_lab.Thread.Wf.{on}

pub record Kept (t t' : Threads) (p : TaskPtr) : Type 0 where
  pub state : t'.state p ≡ t.state p
  pub is_user : t'.is_user p ≡ t.is_user p
  pub user_stack_base : t'.user_stack_base p ≡ t.user_stack_base p
  pub user_stack_top : t'.user_stack_top p ≡ t.user_stack_top p
  pub signal_handlers : t'.signal_handlers p ≡ t.signal_handlers p
  pub current : t'.current ≡ t.current

Kept-refl : (t : Threads) (p : TaskPtr) → Kept t t p
Kept-refl t p = record {
  state = refl;
  is_user = refl;
  user_stack_base = refl;
  user_stack_top = refl;
  signal_handlers = refl;
  current = refl;
}

pub Kept-trans : {t t' t'' : Threads} {p : TaskPtr} → Kept t t' p → Kept t' t'' p → Kept t t'' p
Kept-trans a b = record {
  state = b.state ∙ a.state;
  is_user = b.is_user ∙ a.is_user;
  user_stack_base = b.user_stack_base ∙ a.user_stack_base;
  user_stack_top = b.user_stack_top ∙ a.user_stack_top;
  signal_handlers = b.signal_handlers ∙ a.signal_handlers;
  current = b.current ∙ a.current;
}

task_reap-Kept : (x p : TaskPtr) (t : Threads) → x ≢ p → Kept t (task_reap x t) p
unfolding task_reap
task_reap-Kept x p t ne = record {
  state = ground arith;
  is_user = ground arith;
  user_stack_base = ground arith;
  user_stack_top = ground arith;
  signal_handlers = ground arith;
  current = ground arith;
}

reap_loop-Kept :
    (left i : ℕ) (p : TaskPtr) (t : Threads)
    → is_zombie (t.state p) ≡ false
    → Kept t (reap_loop left i t) p
unfolding reap_loop
reap_loop-Kept zero i p t h = Kept-refl t p
reap_loop-Kept (suc left) i p t h = elim (Bool-cases (is_zombie (t.state (1 + i)))) [
  | inr lives ↦ rw lives (reap_loop-Kept left (i + 1) p t h)
  | inl dead ↦ elim (Bool-cases (awaited (1 + i) t)) [
    | inl waits ↦ rw (dead, waits) (reap_loop-Kept left (i + 1) p t h)
    | inr free ↦
        let ne : 1 + i ≢ p =
          λ e. absurd (cc (sym (ap (λ x. is_zombie (t.state x)) e ∙ h) ∙ dead)) in
        let k = task_reap-Kept (1 + i) p t ne in
        rw (dead, free)
          (Kept-trans k
            (reap_loop-Kept left (i + 1) p (task_reap (1 + i) t) (ap is_zombie k.state ∙ h)))
  ]
]

live-zombie : (s : TaskState) → is_runnable_state s ≡ true → is_zombie s ≡ false
live-zombie unused h = cc
live-zombie runnable h = refl
live-zombie running h = refl
live-zombie zombie h = cc

pub kill_zombies-Kept : (p : TaskPtr) (t : Threads) → on t p ≡ true → Kept t (kill_zombies t) p
unfolding kill_zombies
kill_zombies-Kept p t h = reap_loop-Kept 15 1 p t (live-zombie (t.state p) h)

pub start_thread-Kept :
    (l : Layout) (fn x p : ℕ) (t : Threads) → x ≢ p → Kept t (start_thread l fn x t) p
unfolding start_thread runq_add
start_thread-Kept l fn x p t ne = record {
  state = ground arith;
  is_user = ground arith;
  user_stack_base = ground arith;
  user_stack_top = ground arith;
  signal_handlers = ground arith;
  current = ground arith;
}

live-unused : (s : TaskState) → is_runnable_state s ≡ true → is_unused s ≡ false
live-unused unused h = cc
live-unused runnable h = refl
live-unused running h = refl
live-unused zombie h = cc

-- thread_create leaves a task that may run alone.
pub thread_create-Kept :
    (l : Layout) (fn p : ℕ) (t : Threads) → on t p ≡ true → Kept t (thread_create l fn t).1 p
unfolding thread_create alloc_task
thread_create-Kept l fn p t h =
    let k = kill_zombies-Kept p t h in
    elim (alloc_scan_lem 16 0 (kill_zombies t)) [
      | inl (e, all) ↦ rw e k
      | inr (lo, hi, free) ↦
          let some_entry : (alloc_scan 16 0 (kill_zombies t) == 0) ≡ false = ground arith in
          let busy : is_unused ((kill_zombies t).state p) ≡ false =
            ap is_unused k.state ∙ live-unused (t.state p) h in
          let ne : alloc_scan 16 0 (kill_zombies t) ≢ p = λ e.
            absurd (cc (sym (ap (λ x. is_unused ((kill_zombies t).state x)) e ∙ busy) ∙ free)) in
          rw some_entry (
            Kept-trans k
              (start_thread-Kept l fn (alloc_scan 16 0 (kill_zombies t)) p (kill_zombies t) ne))
    ]
