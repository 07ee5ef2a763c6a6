-- ===== src/Exec/Replace.antt =====
-- What user_exec_current of lab6/OrangePiVer/Src/user.c does to the process that calls it.
use nycu_osc_lab.Prelude.{
  ℕ, ◌+◌, ◌-◌, ◌*◌, ◌%◌, ◌≤◌, ◌<◌, ◌≡◌, ◌≢◌, ◌⊎◌, true, false, Option, List, minus_one,
}
use nycu_osc_lab.Thread.State.{TaskPtr, Threads, Layout, signal_task_init}
use nycu_osc_lab.Signal.{TrapFrame}
use nycu_osc_lab.User.{Memory, mem_zero, setup_user_trapframe}
use nycu_osc_lab.User.Create.{ToUser}
use nycu_osc_lab.Initrd.{user_prog_base}
use nycu_osc_lab.Initrd.Load.{Loads}
use nycu_osc_lab.Exec.{exec_stack, Executed}

-- The program in memory `m1` takes the place of the one that called.
pub record Replaced (l : Layout) (sstatus : ℕ) (m1 : Memory) (t : Threads) (e : Executed)
    : Type 0 where
  pub succeeds : e.result ≡ 0
  pub sepc : e.frame 31 ≡ user_prog_base
  pub sp : e.frame 1 ≡ e.tasks.user_stack_top t.current
  pub tp : e.frame 3 ≡ l.task_addr t.current
  pub sstatus_is : ToUser sstatus (e.frame 32)
  pub registers : (i : ℕ) → i ≢ 1 → i ≢ 3 → i ≢ 31 → i ≢ 32 → e.frame i ≡ 0
  pub base : e.tasks.user_stack_base t.current ≡ l.user_stacks + (t.current - 1) * 16384
  pub top :
      (e.tasks.user_stack_top t.current % 16 ≡ 0)
      × (e.tasks.user_stack_top t.current ≤ e.tasks.user_stack_base t.current + 16384)
      × (e.tasks.user_stack_base t.current + 16384 < e.tasks.user_stack_top t.current + 16)
  pub stack : (k : ℕ) → k < 16384 → e.memory (e.tasks.user_stack_base t.current + k) ≡ 0
  pub other_memory :
      (a : ℕ)
      → (a < e.tasks.user_stack_base t.current) ⊎ (e.tasks.user_stack_base t.current + 16384 ≤ a)
      → e.memory a ≡ m1 a
  pub no_handlers : (i : ℕ) → e.tasks.signal_handlers t.current i ≡ 0
  pub no_signals : (i : ℕ) → e.tasks.pending_signals t.current i ≡ false
  pub not_handling : e.tasks.handling_signal t.current ≡ false
  pub same_process :
      (e.tasks.pid ≡ t.pid)
      × (e.tasks.parent ≡ t.parent)
      × (e.tasks.state ≡ t.state)
      × (e.tasks.current ≡ t.current)
      × (e.tasks.kernel_sp ≡ t.kernel_sp)
  pub other_tasks :
      (p : TaskPtr)
      → p ≢ t.current
      → (e.tasks.user_stack_base p ≡ t.user_stack_base p)
        × (e.tasks.user_stack_top p ≡ t.user_stack_top p)
        × (e.tasks.signal_handlers p ≡ t.signal_handlers p)
        × (e.tasks.pending_signals p ≡ t.pending_signals p)
        × (e.tasks.handling_signal p ≡ t.handling_signal p)

-- The tasks after a successful exec.
replaced_tasks : Layout → Threads → Threads
replaced_tasks l t = exec_stack l t.current (signal_task_init t.current t)

module _ (l : Layout) (sstatus : ℕ) (tf : TrapFrame) (m1 : Memory) (t : Threads)
    (alive : t.current ≢ 0) where
  executed : Executed
  executed = record {
    result = 0;
    frame = setup_user_trapframe l sstatus t.current user_prog_base (replaced_tasks l t);
    memory = mem_zero 16384 0 ((replaced_tasks l t).user_stack_base t.current) m1;
    tasks = replaced_tasks l t;
  }

-- What user_exec_current does.
pub data Execs (l : Layout) (sstatus start end : ℕ) (path : Option (List ℕ)) (tf : TrapFrame)
    (m : Memory) (t : Threads) : Executed → Type 0 where
  refuses :
      (t.current ≡ 0) ⊎ (t.is_user t.current ≡ false)
      → Execs l sstatus start end path tf m t
          (record { result = minus_one; frame = tf; memory = m; tasks = t })
  no_image :
      {m1 : Memory}
      → t.current ≢ 0
      → t.is_user t.current ≡ true
      → Loads m start end path true (false, m1)
      → Execs l sstatus start end path tf m t
          (record { result = minus_one; frame = tf; memory = m1; tasks = t })
  execs :
      {m1 : Memory} {e : Executed}
      → t.current ≢ 0
      → t.is_user t.current ≡ true
      → Loads m start end path true (true, m1)
      → Replaced l sstatus m1 t e
      → Execs l sstatus start end path tf m t e
