-- ===== src/Thread/Wf.antt =====
-- The invariant of lab6/OrangePiVer/Src/thread.c, and the operations that leave the run queue alone.
use mathlib.Core.Path.{subst, fun_ext}
use nycu_osc_lab.Prelude.{
  ℕ, zero, suc, ◌+◌, ◌≤◌, ◌<◌, ◌≡◌, refl, sym, ◌∙◌, inl, inr, Bool, true, false, if◌then◌else◌,
  update, Bool-cases, arith,
}
use nycu_osc_lab.Thread.State.{TaskPtr, running, Threads, is_runnable_state, is_zombie}
use nycu_osc_lab.Thread.{task_reap, reap_loop, kill_zombies, awaited}
use nycu_osc_lab.Thread.Queue.{IsQueue}

-- The tasks that may run.
abbrev pub on : Threads → TaskPtr → Bool
on t p = is_runnable_state (t.state p)

-- How many of the tasks 1 to k may run.
abbrev pub count : ℕ → (TaskPtr → Bool) → ℕ
count zero f = 0
count (suc k) f = (if f (suc k) then 1 else 0) + count k f

pub count-le : (k : ℕ) (f : TaskPtr → Bool) → count k f ≤ k
count-le zero f = omega arith
count-le (suc k) f = ground (arith, count-le k f)

count-update_of_lt :
    (k x : ℕ) (f : TaskPtr → Bool) (b : Bool) → k < x → count k (update f x b) ≡ count k f
count-update_of_lt zero x f b h = refl
count-update_of_lt (suc k) x f b h = ground (arith, count-update_of_lt k x f b)

pub count-add :
    (k x : ℕ) (f : TaskPtr → Bool)
    → 0 < x
    → x ≤ k
    → f x ≡ false
    → count k (update f x true) ≡ count k f + 1
count-add zero x f lo hi h = absurd (omega arith)
count-add (suc k) x f lo hi h = ground (arith, count-add k x f, count-update_of_lt k x f true)

pub count-remove :
    (k x : ℕ) (f : TaskPtr → Bool)
    → 0 < x
    → x ≤ k
    → f x ≡ true
    → count k (update f x false) + 1 ≡ count k f
count-remove zero x f lo hi h = absurd (omega arith)
count-remove (suc k) x f lo hi h =
    ground (arith, count-remove k x f, count-update_of_lt k x f false)

-- The tasks that may run are those of the queue, the idle task is one of them, and the current task is
-- the one that runs.
pub record Wf (t : Threads) (pos : TaskPtr → ℕ) (n : ℕ) : Type 0 where
  pub queue : IsQueue t.next t.run_queue_tail (on t) pos n
  pub counted : count 16 (on t) ≡ n
  pub idle_is : t.idle_task ≡ 1
  pub idle_on : on t 1 ≡ true
  pub current_runs : t.state t.current ≡ running
  pub only : (p : TaskPtr) → t.state p ≡ running → p ≡ t.current

pub data Sound (t : Threads) : Type 0 where
  sound : {pos : TaskPtr → ℕ} {n : ℕ} → Wf t pos n → Sound t

-- The second state has the first one's queue.
pub record SameQueue (t t' : Threads) : Type 0 where
  pub next : (p : TaskPtr) → t'.next p ≡ t.next p
  pub tail : t'.run_queue_tail ≡ t.run_queue_tail
  pub on : (p : TaskPtr) → is_runnable_state (t'.state p) ≡ is_runnable_state (t.state p)
  pub idle : t'.idle_task ≡ t.idle_task
  pub current_runs : t'.state t'.current ≡ running
  pub only : (p : TaskPtr) → t'.state p ≡ running → p ≡ t'.current

pub SameQueue-Wf :
    {t t' : Threads} {pos : TaskPtr → ℕ} {n : ℕ} → SameQueue t t' → Wf t pos n → Wf t' pos n
SameQueue-Wf {t} {t'} {pos} {n} s w =
    let e_on : on t ≡ on t' = fun_ext (λ p. sym (s.on p)) in
    let e_next : t.next ≡ t'.next = fun_ext (λ p. sym (s.next p)) in
    let q1 = subst (λ f. IsQueue t.next t.run_queue_tail f pos n) e_on w.queue in
    let q2 = subst (λ f. IsQueue f t.run_queue_tail (on t') pos n) e_next q1 in
    record {
      queue = subst (λ x. IsQueue t'.next x (on t') pos n) (sym s.tail) q2;
      counted = subst (λ f. count 16 f ≡ n) e_on w.counted;
      idle_is = omega (arith, s.idle, w.idle_is);
      idle_on = s.on 1 ∙ w.idle_on;
      current_runs = s.current_runs;
      only = s.only;
    }

task_reap-SameQueue :
    {t : Threads} {pos : TaskPtr → ℕ} {n : ℕ} (x : TaskPtr)
    → Wf t pos n
    → SameQueue t (task_reap x t)
unfolding task_reap
task_reap-SameQueue {t} x w = record {
  next = λ p. ground (arith, w.queue.off x);
  tail = ground arith;
  on = λ p. ground arith;
  idle = ground arith;
  current_runs = ground (arith, w.current_runs);
  only = λ p h. ground (arith, w.only p);
}

pub task_reap-Wf :
    {t : Threads} {pos : TaskPtr → ℕ} {n : ℕ} (x : TaskPtr) → Wf t pos n → Wf (task_reap x t) pos n
task_reap-Wf x w = SameQueue-Wf (task_reap-SameQueue x w) w

reap_loop-Wf :
    (left i : ℕ) (t : Threads) {pos : TaskPtr → ℕ} {n : ℕ}
    → Wf t pos n
    → Wf (reap_loop left i t) pos n
unfolding reap_loop
reap_loop-Wf zero i t w = w
reap_loop-Wf (suc left) i t w = elim (Bool-cases (is_zombie (t.state (1 + i)))) [
  | inr lives ↦ rw lives (reap_loop-Wf left (i + 1) t w)
  | inl dead ↦ elim (Bool-cases (awaited (1 + i) t)) [
    | inl waits ↦ rw (dead, waits) (reap_loop-Wf left (i + 1) t w)
    | inr free ↦
        rw (dead, free) (reap_loop-Wf left (i + 1) (task_reap (1 + i) t) (task_reap-Wf (1 + i) w))
  ]
]

pub kill_zombies-Wf :
    {t : Threads} {pos : TaskPtr → ℕ} {n : ℕ} → Wf t pos n → Wf (kill_zombies t) pos n
unfolding kill_zombies
kill_zombies-Wf w = reap_loop-Wf 15 1 _ w
