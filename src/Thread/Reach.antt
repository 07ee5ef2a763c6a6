-- ===== src/Thread/Reach.antt =====
-- The runs of lab6/OrangePiVer/Src/thread.c: what holds after any sequence of its operations.
use nycu_osc_lab.Prelude.{
  ℕ, zero, suc, ◌+◌, ◌≤◌, ◌<◌, ◌≡◌, ◌≢◌, refl, sym, ap, ◌∙◌, ◌⊎◌, inl, inr, Bool, true, ◌==◌,
  update, Option, none, some, arith, ==_iff,
}
use mathlib.Core.Path.{subst, fun_ext}
use native.Mathlib.Decide.{ℕ_discrete, dec_le}
use nycu_osc_lab.Thread.State.{TaskPtr, unused, running, Threads, Layout, aligned, stack_size}
use nycu_osc_lab.Thread.{
  thread_init, clear_loop, runq_add, thread_create, thread_exit, schedule, idle, task_reap,
  task_kill,
}
use nycu_osc_lab.Thread.Wf.{on, count, Wf, Sound, sound, kill_zombies-Wf, task_reap-Wf}
use nycu_osc_lab.Thread.Schedule.{schedule-Wf}
use nycu_osc_lab.Thread.Create.{thread_create-Created}
use nycu_osc_lab.Thread.Exit.{thread_exit-Exited}
use nycu_osc_lab.Thread.Kill.{Kills, refused, itself, another, task_kill_found}

-- The operations. The last one stands for the writes of user.c to a task that it has created.
pub data Step (l : Layout) (t : Threads) : Threads → Type 0 where
  creates : (fn : ℕ) → Step l t (thread_create l fn t).1
  yields : Step l t (schedule t)
  idles : t.current ≡ 1 → Step l t (idle t)
  exits : t.current ≢ 1 → Step l t (thread_exit t)
  reaps : (x : TaskPtr) → Step l t (task_reap x t)
  stops : (pid status : ℕ) {t' : Threads} → task_kill pid status t ≡ some t' → Step l t t'
  adopts :
      (x parent : TaskPtr) (user : Bool)
      → Step l t (record t { parent = update t.parent x parent; is_user = update t.is_user x user })

pub data Reach (l : Layout) (s : Threads) : Threads → Type 0 where
  here : Reach l s s
  next : {t u : Threads} → Reach l s t → Step l t u → Reach l s u

given : {A : Type 0} → A → Option A → A
given d none = d
given d (some a) = a

same_result : {r : Option Threads} {t t' : Threads} → r ≡ some t → r ≡ some t' → Sound t → Sound t'
unfolding given
same_result {r} {t} e h v = subst Sound (ap (given t) (sym e ∙ h)) v

Kills-Sound :
    {t t' : Threads} {x status : ℕ} {r : Option Threads}
    → Kills t x status r
    → r ≡ some t'
    → Sound t'
Kills-Sound (refused e why) h = absurd (ground (arith, e, h))
Kills-Sound (itself e task live me d) h = same_result e h d.valid
Kills-Sound (another e task live other d) h = same_result e h d.valid

Step-Sound : {l : Layout} {t t' : Threads} → Sound t → Step l t t' → Sound t'
unfolding idle
Step-Sound {l} h (creates fn) = elim (thread_create-Created l fn h) [
  | inl c ↦ c.valid
  | inr (e, f, v, all) ↦ v
]
Step-Sound (sound w) yields = sound (schedule-Wf w)
Step-Sound (sound w) (idles e) = sound (schedule-Wf (kill_zombies-Wf w))
Step-Sound h (exits e) = (thread_exit-Exited h e).valid
Step-Sound (sound w) (reaps x) = sound (task_reap-Wf x w)
Step-Sound h (stops pid status e) = Kills-Sound (task_kill_found pid status h) e
Step-Sound (sound w) (adopts x parent user) = sound (record {
  queue = w.queue;
  counted = w.counted;
  idle_is = w.idle_is;
  idle_on = w.idle_on;
  current_runs = w.current_runs;
  only = w.only;
})

Reach-keeps : {l : Layout} {s t : Threads} → Sound s → Reach l s t → Sound t
Reach-keeps h here = h
Reach-keeps h (next r st) = Step-Sound (Reach-keeps h r) st

clear_loop-in :
    (left i p : ℕ) (t : Threads)
    → ((i < p) × (p ≤ i + left)) ⊎ ((t.state p ≡ unused) × (t.next p ≡ 0))
    → ((clear_loop left i t).state p ≡ unused) × ((clear_loop left i t).next p ≡ 0)
unfolding clear_loop
clear_loop-in zero i p t (inl h) = absurd (omega (arith, h.0, h.1))
clear_loop-in zero i p t (inr h) = h
clear_loop-in (suc left) i p t (inl h) =
    clear_loop-in left (i + 1) p _ (elim (ℕ_discrete p (1 + i)) [
      | yes e ↦ inr (ground (arith, e), ground (arith, e))
      | no ne ↦ inl (omega arith, omega arith)
    ])
clear_loop-in (suc left) i p t (inr h) =
    clear_loop-in left (i + 1) p _ (inr (ground (arith, h.0), ground (arith, h.1)))

clear_loop-tail :
    (left i : ℕ) (t : Threads) → (clear_loop left i t).run_queue_tail ≡ t.run_queue_tail
unfolding clear_loop
clear_loop-tail zero i t = refl
clear_loop-tail (suc left) i t = clear_loop-tail left (i + 1) _

-- Nothing outside the table: the memory there is no task. The queue is empty, as in the image.
pub record Blank (t : Threads) : Type 0 where
  pub state_is : (p : TaskPtr) → (p ≡ 0) ⊎ (16 < p) → t.state p ≡ unused
  pub next_is : (p : TaskPtr) → (p ≡ 0) ⊎ (16 < p) → t.next p ≡ 0
  pub tail_is : t.run_queue_tail ≡ 0

cleared :
    (t : Threads) (p : TaskPtr)
    → Blank t
    → ((clear_loop 16 0 t).state p ≡ unused) × ((clear_loop 16 0 t).next p ≡ 0)
cleared t p b = clear_loop-in 16 0 p t (elim (ℕ_discrete p 0) [
  | yes z ↦ inr (b.state_is p (inl z), b.next_is p (inl z))
  | no nz ↦ elim (dec_le p 16) [
    | yes lo ↦ inl (omega arith, lo)
    | no hi ↦ let above = inr (omega arith) in inr (b.state_is p above, b.next_is p above)
  ]
])

-- thread_init from the point where the table is clear.
abbrev booted : Layout → Threads → Threads
booted l t = record t {
  idle_task = 1;
  pid = update t.pid 1 0;
  state = update t.state 1 running;
  entry = update t.entry 1 l.idle_fn;
  stack_base = update t.stack_base 1 l.stacks;
  ra = update t.ra 1 l.idle_fn;
  sp = update t.sp 1 (aligned (l.stacks + stack_size));
  run_queue_tail = 1;
  next = update t.next 1 1;
  current = 1;
}

thread_init-booted :
    (l : Layout) (t : Threads)
    → t.run_queue_tail ≡ 0
    → thread_init l t ≡ booted l (clear_loop 16 0 t)
unfolding thread_init runq_add
thread_init-booted l t h =
    let empty : ((clear_loop 16 0 t).run_queue_tail == 0) ≡ true =
      (==_iff _ _).1 (clear_loop-tail 16 0 t ∙ h) in
    rw empty refl

booted-Wf :
    (l : Layout) (t : Threads)
    → ((p : TaskPtr) → t.state p ≡ unused)
    → ((p : TaskPtr) → t.next p ≡ 0)
    → Wf (booted l t) (λ p. 0) 1
booted-Wf l t free off = record {
  queue = record {
    tail_last = refl;
    tail_on = refl;
    links = λ p h ne. ground (arith, free p, h, ne);
    wraps = (refl, refl);
    apart = λ p q h g e. ground (arith, free p, free q, h, g);
    within = λ p h. omega arith;
    pool = λ p h. ground (arith, free p, h);
    off = λ p h. ground (arith, off p, h);
  };
  counted = ap (count 16) (fun_ext only_idle);
  idle_is = refl;
  idle_on = refl;
  current_runs = refl;
  only = λ p h. ground (arith, free p, h);
}
  where
    only_idle : (p : TaskPtr) → on (booted l t) p ≡ (p == 1)
    only_idle p = ground (arith, free p)

pub thread_init-Sound : (l : Layout) {t : Threads} → Blank t → Sound (thread_init l t)
thread_init-Sound l {t} b =
    subst Sound (sym (thread_init-booted l t b.tail_is))
      (sound (booted-Wf l (clear_loop 16 0 t) (λ p. (cleared t p b).0) (λ p. (cleared t p b).1)))

-- Whatever the threads do after thread_init, which starts with an empty queue and no task in NULL or
-- behind the table (`Blank`): the run queue is one circle of exactly the tasks that may
-- run, the idle task is among them, and exactly the current task is the running one.
pub Reach-Sound : (l : Layout) {t0 t : Threads} → Blank t0 → Reach l (thread_init l t0) t → Sound t
Reach-Sound l b r = Reach-keeps (thread_init-Sound l b) r
