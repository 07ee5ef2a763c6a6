-- ===== src/Thread/State.antt =====
-- The task table of lab6/OrangePiVer/Src/thread.c and Inc/thread.h, and the writes to it.
use nycu_osc_lab.Prelude.{
  ℕ, ◌+◌, ◌-◌, ◌*◌, ◌/◌, ◌^◌, Bool, true, false, ltb, ◌==◌, if◌then◌else◌, update,
}

abbrev pub max_threads : ℕ
max_threads = 16

abbrev pub stack_size : ℕ
stack_size = 16384

-- A `struct task_struct *`: 0 is NULL and 1 + i is &tasks[i].
abbrev pub TaskPtr : Type 0
TaskPtr = ℕ

pub data TaskState : Type 0 where
  unused runnable running zombie : TaskState

-- Each field of `struct task_struct` is a function of the task's pointer. The words of a trap frame,
-- the registers s0 to s11 and the signals are numbered. The code reads and writes single bits of
-- pending_signals, so the word is a function from the bit's number.
pub record Threads : Type 0 where
  pub ra : TaskPtr → ℕ
  pub sp : TaskPtr → ℕ
  pub s : TaskPtr → ℕ → ℕ
  pub pid : TaskPtr → ℕ
  pub state : TaskPtr → TaskState
  pub entry : TaskPtr → ℕ
  pub stack_base : TaskPtr → ℕ
  pub next : TaskPtr → TaskPtr
  pub is_user : TaskPtr → Bool
  pub exit_status : TaskPtr → ℕ
  pub trapframe : TaskPtr → ℕ → ℕ
  pub kernel_sp : TaskPtr → ℕ
  pub user_stack_base : TaskPtr → ℕ
  pub user_stack_top : TaskPtr → ℕ
  pub parent : TaskPtr → TaskPtr
  pub signal_handlers : TaskPtr → ℕ → ℕ
  pub pending_signals : TaskPtr → ℕ → Bool
  pub handling_signal : TaskPtr → Bool
  pub current_signal : TaskPtr → ℕ
  pub signal_saved_tf : TaskPtr → ℕ → ℕ
  pub run_queue_tail : TaskPtr
  pub idle_task : TaskPtr
  pub next_pid : ℕ
  -- the register tp, which get_current reads
  pub current : TaskPtr

-- Addresses that the linker chooses.
pub record Layout : Type 0 where
  pub stacks : ℕ
  pub user_stacks : ℕ
  pub signal_stacks : ℕ
  pub idle_fn : ℕ
  pub thread_trampoline : ℕ
  pub user_process_entry : ℕ
  pub task_addr : TaskPtr → ℕ

abbrev pub is_runnable_state : TaskState → Bool
is_runnable_state unused = false
is_runnable_state runnable = true
is_runnable_state running = true
is_runnable_state zombie = false

abbrev pub is_unused : TaskState → Bool
is_unused unused = true
is_unused runnable = false
is_unused running = false
is_unused zombie = false

abbrev pub is_zombie : TaskState → Bool
is_zombie unused = false
is_zombie runnable = false
is_zombie running = false
is_zombie zombie = true

abbrev pub is_running : TaskState → Bool
is_running unused = false
is_running runnable = false
is_running running = true
is_running zombie = false

-- sp &= ~0xF
abbrev pub aligned : ℕ → ℕ
aligned a = a / 16 * 16

-- An int as a long.
abbrev pub sign_extend : ℕ → ℕ
sign_extend p = if ltb p (2 ^ 31) then p else p + (2 ^ 64 - 2 ^ 32)

abbrev pub clear_context : TaskPtr → Threads → Threads
clear_context task t = record t {
  ra = update t.ra task 0;
  sp = update t.sp task 0;
  s = update t.s task (λ i. 0);
}

-- signal_task_init of signal.c.
abbrev pub signal_task_init : TaskPtr → Threads → Threads
signal_task_init task t = if task == 0 then t else record t {
  signal_handlers = update t.signal_handlers task (λ signum. 0);
  pending_signals = update t.pending_signals task (λ i. false);
  handling_signal = update t.handling_signal task false;
  current_signal = update t.current_signal task 0;
  signal_saved_tf = update t.signal_saved_tf task (λ i. 0);
}
