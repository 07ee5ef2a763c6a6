-- ===== src/User/Create.antt =====
-- user_process_create of lab6/OrangePiVer/Src/user.c.
use mathlib.Core.Path.{subst}
use nycu_osc_lab.Prelude.{
  ℕ, ◌+◌, ◌-◌, ◌*◌, ◌/◌, ◌%◌, ◌≤◌, ◌<◌, ◌≡◌, ◌≢◌, refl, sym, ap, ◌∙◌, ◌⊎◌, inl, inr, true, false,
  update, arith, ==_ne, ==_iff, update_here,
}
use nycu_osc_lab.Thread.State.{TaskPtr, runnable, Threads, Layout, is_unused, aligned}
use nycu_osc_lab.Thread.{thread_create, kill_zombies}
use nycu_osc_lab.Thread.Wf.{Sound, sound}
use nycu_osc_lab.Thread.Create.{Created, thread_create-Created}
use nycu_osc_lab.User.{
  Memory, mem_zero, user_sstatus, setup_user_trapframe, set_stack, start_process,
  user_process_create,
}
use nycu_osc_lab.User.Copy.{mem_zero_in, mem_zero_out}

-- The word is `s` with SPP (bit 8) clear and SPIE (bit 5) set.
pub record ToUser (s w : ℕ) : Type 0 where
  pub spp : w / 256 % 2 ≡ 0
  pub spie : w / 32 % 2 ≡ 1
  pub low : w % 32 ≡ s % 32
  pub middle : w / 64 % 4 ≡ s / 64 % 4
  pub high : w / 512 ≡ s / 512

pub user_sstatus-ToUser : (s : ℕ) → ToUser s (user_sstatus s)
unfolding user_sstatus
user_sstatus-ToUser s = record {
  spp = omega arith;
  spie = omega arith;
  low = omega arith;
  middle = omega arith;
  high = omega arith;
}

-- A new process: it starts in user mode at the entry, at the top of its own empty stack, with no
-- signal handlers and no signals, as a child of the current task.
pub record Started (l : Layout) (sstatus entry : ℕ) (m m' : Memory) (t t' : Threads) (x : TaskPtr)
    : Type 0 where
  pub valid : Sound t'
  pub fresh : is_unused ((kill_zombies t).state x) ≡ true
  pub waits : t'.state x ≡ runnable
  pub enters : t'.entry x ≡ l.user_process_entry
  pub user : t'.is_user x ≡ true
  pub family : t'.parent x ≡ t'.current
  pub sepc : t'.trapframe x 31 ≡ entry
  pub sp : t'.trapframe x 1 ≡ t'.user_stack_top x
  pub tp : t'.trapframe x 3 ≡ l.task_addr x
  pub sstatus_is : ToUser sstatus (t'.trapframe x 32)
  pub registers : (i : ℕ) → i ≢ 1 → i ≢ 3 → i ≢ 31 → i ≢ 32 → t'.trapframe x i ≡ 0
  pub base : t'.user_stack_base x ≡ l.user_stacks + (x - 1) * 16384
  pub top :
      (t'.user_stack_top x % 16 ≡ 0)
      × (t'.user_stack_top x ≤ t'.user_stack_base x + 16384)
      × (t'.user_stack_base x + 16384 < t'.user_stack_top x + 16)
  pub stack : (k : ℕ) → k < 16384 → m' (t'.user_stack_base x + k) ≡ 0
  pub other_memory :
      (a : ℕ) → (a < t'.user_stack_base x) ⊎ (t'.user_stack_base x + 16384 ≤ a) → m' a ≡ m a
  pub no_handlers : (i : ℕ) → t'.signal_handlers x i ≡ 0
  pub no_signals : (i : ℕ) → t'.pending_signals x i ≡ false

-- What start_process does, field by field.
abbrev started : Layout → ℕ → ℕ → TaskPtr → Threads → Threads
started l sstatus entry x t =
    let t1 = set_stack l x (record t {
      is_user = update t.is_user x true;
      exit_status = update t.exit_status x 0;
      parent = update t.parent x t.current;
      signal_handlers = update t.signal_handlers x (λ i. 0);
      pending_signals = update t.pending_signals x (λ i. false);
      handling_signal = update t.handling_signal x false;
      current_signal = update t.current_signal x 0;
      signal_saved_tf = update t.signal_saved_tf x (λ i. 0);
    }) in
    record t1 { trapframe = update t1.trapframe x (setup_user_trapframe l sstatus x entry t1) }

start_process-started :
    (l : Layout) (sstatus entry x : ℕ) (t : Threads)
    → x ≢ 0
    → start_process l sstatus entry x t ≡ started l sstatus entry x t
unfolding start_process
start_process-started l sstatus entry x t nz = rw (==_ne _ _ nz) refl

started-Sound :
    (l : Layout) (sstatus entry x : ℕ) {t : Threads} → Sound t → Sound (started l sstatus entry x t)
started-Sound l sstatus entry x (sound w) = sound (record {
  queue = w.queue;
  counted = w.counted;
  idle_is = w.idle_is;
  idle_on = w.idle_on;
  current_runs = w.current_runs;
  only = w.only;
})

pub setup_user_trapframe_lem :
    (l : Layout) (sstatus entry x : ℕ) (t : Threads)
    → let tf = setup_user_trapframe l sstatus x entry t in
      (tf 31 ≡ entry)
      × (tf 1 ≡ t.user_stack_top x)
      × (tf 3 ≡ l.task_addr x)
      × (tf 32 ≡ user_sstatus sstatus)
      × ((i : ℕ) → i ≢ 1 → i ≢ 3 → i ≢ 31 → i ≢ 32 → tf i ≡ 0)
unfolding setup_user_trapframe
setup_user_trapframe_lem l sstatus entry x t =
    (refl, refl, refl, refl, λ i a b c d. ground (arith, a, b, c, d))

pub top_lem :
    (a b : ℕ)
    → a ≡ b + 16384
    → (a / 16 * 16 % 16 ≡ 0) × (a / 16 * 16 ≤ b + 16384) × (b + 16384 < a / 16 * 16 + 16)
top_lem a b e = (omega arith, omega arith, omega arith)

module _ (l : Layout) (sstatus entry x : ℕ) (m : Memory) {t t1 : Threads}
    (created : Created t t1 l.user_process_entry x) where
  base_of : (started l sstatus entry x t1).user_stack_base x ≡ l.user_stacks + (x - 1) * 16384
  base_of = update_here t1.user_stack_base x (l.user_stacks + (x - 1) * 16384)

  top_of :
      (started l sstatus entry x t1).user_stack_top x
      ≡ aligned (l.user_stacks + (x - 1 + 1) * 16384)
  top_of = update_here t1.user_stack_top x (aligned (l.user_stacks + (x - 1 + 1) * 16384))

  frame_of :
      (i : ℕ)
      → (started l sstatus entry x t1).trapframe x i
        ≡ setup_user_trapframe l sstatus x entry (started l sstatus entry x t1) i
  unfolding setup_user_trapframe
  frame_of i = ground arith

  started-Started :
      Started l sstatus entry m
        (mem_zero 16384 0 ((started l sstatus entry x t1).user_stack_base x) m)
        t
        (started l sstatus entry x t1)
        x
  started-Started =
      let t2 = started l sstatus entry x t1 in
      let (pc, sp, tp, status, rest) = setup_user_trapframe_lem l sstatus entry x t2 in
      let (a, b, c) =
        top_lem (l.user_stacks + (x - 1 + 1) * 16384) (t2.user_stack_base x)
          (omega (arith, base_of, created.in_table)) in
      record {
        valid = started-Sound l sstatus entry x created.valid;
        fresh = created.was_free;
        waits = created.waits;
        enters = created.entry_is;
        user = update_here t1.is_user x true;
        family = update_here t1.parent x t1.current;
        sepc = frame_of 31 ∙ pc;
        sp = frame_of 1 ∙ sp;
        tp = frame_of 3 ∙ tp;
        sstatus_is =
            subst (ToUser sstatus) (sym (frame_of 32 ∙ status)) (user_sstatus-ToUser sstatus);
        registers = λ i p q r s. frame_of i ∙ rest i p q r s;
        base = base_of;
        top = (omega (arith, a, top_of), omega (arith, b, top_of), omega (arith, c, top_of));
        stack = λ k lt. mem_zero_in 16384 0 (t2.user_stack_base x) k m (omega arith) lt;
        other_memory =
            λ p out. mem_zero_out 16384 0 (t2.user_stack_base x) p m (omega (arith, out));
        no_handlers = λ i. ap (λ f. f i) (update_here t1.signal_handlers x (λ i. 0));
        no_signals = λ i. ap (λ f. f i) (update_here t1.pending_signals x (λ i. false));
      }

user_process_create-started :
    (l : Layout) (sstatus entry : ℕ) (m : Memory) (t : Threads) (x : TaskPtr) (t1 : Threads)
    → thread_create l l.user_process_entry t ≡ (x, t1)
    → x ≢ 0
    → user_process_create l sstatus entry m t ≡ (
      x,
      mem_zero 16384 0 ((started l sstatus entry x t1).user_stack_base x) m,
      started l sstatus entry x t1,
    )
unfolding user_process_create
user_process_create-started l sstatus entry m t x t1 e nz =
    rw (e, ==_ne _ _ nz, start_process-started l sstatus entry x t1 nz) refl

user_process_create-none :
    (l : Layout) (sstatus entry : ℕ) (m : Memory) (t : Threads)
    → let r = thread_create l l.user_process_entry t in
      r.0 ≡ 0 → user_process_create l sstatus entry m t ≡ (0, m, r.1)
unfolding user_process_create
user_process_create-none l sstatus entry m t e = rw ((==_iff _ 0).1 e) refl

-- user_process_create makes a process, or returns NULL because every entry of the table is taken.
abbrev pub Starts : Layout → ℕ → ℕ → Memory → Threads → TaskPtr × Memory × Threads → Type 0
Starts l sstatus entry m t r =
    Started l sstatus entry m r.1 t r.2 r.0
    ⊎ ((r.0 ≡ 0)
        × (r.1 ≡ m)
        × Sound r.2
        × ((p : TaskPtr) → 0 < p → p ≤ 16 → is_unused (r.2.state p) ≡ false))

-- In a state with the invariant, user_process_create either starts a process (`Started`), or returns NULL, and then every entry of the
-- table is taken and the memory is as it was.
pub user_process_create-Starts :
    (l : Layout) (sstatus entry : ℕ) (m : Memory) {t : Threads}
    → Sound t
    → Starts l sstatus entry m t (user_process_create l sstatus entry m t)
user_process_create-Starts l sstatus entry m {t} h =
    elim (thread_create-Created l l.user_process_entry h) [
      | inr (e, same, v, all) ↦
          subst (Starts l sstatus entry m t) (sym (user_process_create-none l sstatus entry m t e))
            (inr (refl, refl, v, all))
      | inl created ↦
          subst (Starts l sstatus entry m t)
            (sym (
              user_process_create-started l sstatus entry m t _ _ refl
                (λ e. omega (arith, e, created.in_table))))
            (inl (started-Started l sstatus entry _ m created))
    ]
