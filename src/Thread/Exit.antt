-- ===== src/Thread/Exit.antt =====
-- thread_exit of lab6/OrangePiVer/Src/thread.c.
use nycu_osc_lab.Prelude.{
  ℕ, ◌≡◌, ◌≢◌, refl, sym, ap, ◌∙◌, ◌⊎◌, inl, inr, Bool, true, false, ◌==◌, not, ◌||◌, ◌&&◌,
  if◌then◌else◌, update, Bool-cases, arith, ==_ne,
}
use nycu_osc_lab.Thread.State.{
  TaskPtr, TaskState, unused, runnable, running, zombie, Threads, is_runnable_state, is_unused,
  is_zombie,
}
use nycu_osc_lab.Thread.{unlink, runq_remove, thread_exit, successor}
use nycu_osc_lab.Thread.Wf.{on, Wf, Sound, sound}
use nycu_osc_lab.Thread.Schedule.{current_on, pick_next-next, next_on}
use nycu_osc_lab.Thread.Change.{Leaves, Leaves-Sound, Before, runq_remove-unlink}

alive-on : (s : TaskState) → is_unused s ≡ false → is_zombie s ≡ false → is_runnable_state s ≡ true
alive-on unused a b = cc
alive-on runnable a b = refl
alive-on running a b = refl
alive-on zombie a b = cc

-- The parent, when there is one that is alive.
abbrev pub parent_alive : TaskPtr → Threads → Bool
parent_alive x t =
    not (t.parent x == 0)
    && (not (is_unused (t.state (t.parent x))) && not (is_zombie (t.state (t.parent x))))

successor-on :
    {t : Threads} {pos : TaskPtr → ℕ} {n : ℕ} (x : TaskPtr)
    → Wf t pos n
    → on t x ≡ true
    → on t (successor x t) ≡ true
unfolding successor
successor-on {t} x w h = elim (Bool-cases (parent_alive x t)) [
  | inl alive ↦
      rw alive (alive-on (t.state (t.parent x)) (ground (arith, alive)) (ground (arith, alive)))
  | inr gone ↦ rw gone (ap (on t) (pick_next-next w x h) ∙ next_on x w h)
]

-- The state in which thread_exit goes on with the task `c`.
abbrev exits : TaskPtr → TaskPtr → TaskPtr → Threads → Threads
exits x r c t =
    let t1 = unlink r x t in
    record t1 { state = update (update t1.state x zombie) c running; current = c }

exits-Leaves :
    (x r c : TaskPtr) (t : Threads)
    → c ≢ x
    → on t c ≡ true
    → ((p : TaskPtr) → t.state p ≡ running → p ≡ x)
    → Leaves t (exits x r c t) x r
unfolding unlink
exits-Leaves x r c t ne h one = record {
  next = λ p. refl;
  tail = refl;
  on = λ p. ground (arith, h, ne);
  idle = refl;
  current_runs = ground arith;
  only = λ p g. ground (arith, g, one p);
}

-- What thread_exit does with the task `x` that calls it: it is a zombie that stands in no queue, and the
-- CPU goes to its parent when that is alive; the others keep their states, but for the one that runs,
-- and the exit statuses stay.
pub record Exited (t t' : Threads) (x : TaskPtr) : Type 0 where
  pub valid : Sound t'
  pub dead : t'.state x ≡ zombie
  pub off_queue : t'.next x ≡ 0
  pub goes_on : on t t'.current ≡ true
  pub to_other : t'.current ≢ x
  pub to_parent : parent_alive x t ≡ true → t.parent x ≢ x → t'.current ≡ t.parent x
  pub others : (p : TaskPtr) → p ≢ x → p ≢ t'.current → t'.state p ≡ t.state p
  pub statuses : t'.exit_status ≡ t.exit_status

exits-Exited :
    {t : Threads} {pos : TaskPtr → ℕ} {n : ℕ} (r c : TaskPtr)
    → Wf t pos n
    → t.current ≢ 1
    → Before t t.current r
    → c ≢ t.current
    → on t c ≡ true
    → (parent_alive t.current t ≡ true → t.parent t.current ≢ t.current → c ≡ t.parent t.current)
    → Exited t (exits t.current r c t) t.current
unfolding unlink
exits-Exited {t} r c w other b ne h parent = record {
  valid =
      Leaves-Sound w (current_on t w.current_runs) other b
        (exits-Leaves t.current r c t ne h w.only);
  dead = ground arith;
  off_queue = ground arith;
  goes_on = h;
  to_other = ne;
  to_parent = parent;
  others = λ p n1 n2. ground arith;
  statuses = refl;
}

chosen : TaskPtr → Threads → TaskPtr
chosen x t = if (successor x t == x) || (successor x t == 0) then t.idle_task else successor x t

thread_exit-exits :
    (r : TaskPtr) (t : Threads)
    → (t.current == t.idle_task) ≡ false
    → runq_remove t.current t ≡ unlink r t.current t
    → thread_exit t ≡ exits t.current r (chosen t.current t) t
unfolding thread_exit unlink chosen
thread_exit-exits r t a e = rw (a, e) refl

chosen_cases :
    (x : TaskPtr) (t : Threads)
    → ((chosen x t ≡ t.idle_task) × ((successor x t ≡ x) ⊎ (successor x t ≡ 0)))
      ⊎ ((chosen x t ≡ successor x t) × (successor x t ≢ x))
unfolding chosen
chosen_cases x t = elim (Bool-cases ((successor x t == x) || (successor x t == 0))) [
  | inl none_fits ↦ rw none_fits (inl (refl, ground (arith, none_fits)))
  | inr fits ↦ rw fits (inr (refl, ground (arith, fits)))
]

successor-parent :
    (x : TaskPtr) (t : Threads) → parent_alive x t ≡ true → successor x t ≡ t.parent x
unfolding successor
successor-parent x t h = rw h refl

-- In a state with the invariant, a task other than the idle task that calls thread_exit leaves the CPU and the run queue (`Exited`).
pub thread_exit-Exited :
    {t : Threads} → Sound t → t.current ≢ 1 → Exited t (thread_exit t) t.current
thread_exit-Exited {t} (sound w) other =
    let x = t.current in
    let h = current_on t w.current_runs in
    let (r, b, e) = runq_remove-unlink x w h other in
    let not_idle : (t.current == t.idle_task) ≡ false = ==_ne _ _ (λ q. other (q ∙ w.idle_is)) in
    rw (thread_exit-exits r t not_idle e) (elim (chosen_cases x t) [
      | inl (to_idle, why) ↦
          exits-Exited r (chosen x t) w other b (λ q. other (sym q ∙ (to_idle ∙ w.idle_is)))
            (ap (on t) (to_idle ∙ w.idle_is) ∙ w.idle_on)
            (λ alive ne. absurd (no_parent (successor-parent x t alive) alive ne why))
      | inr (to_next, ne) ↦
          exits-Exited r (chosen x t) w other b (λ q. ne (sym to_next ∙ q))
            (ap (on t) to_next ∙ successor-on x w h)
            (λ alive other_parent. to_next ∙ successor-parent x t alive)
    ])
  where
    no_parent :
        successor t.current t ≡ t.parent t.current
        → parent_alive t.current t ≡ true
        → t.parent t.current ≢ t.current
        → (successor t.current t ≡ t.current) ⊎ (successor t.current t ≡ 0)
        → ⊥
    no_parent e alive ne (inl q) = ne (sym e ∙ q)
    no_parent e alive ne (inr q) = ground (arith, alive, e, q)
