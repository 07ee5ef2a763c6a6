-- ===== src/Exec.antt =====
-- The programs of the archive as processes: user_process_create_from_file and user_exec_current of
-- lab6/OrangePiVer/Src/user.c.
mod Run
mod Replace
mod Tests
use nycu_osc_lab.Prelude.{
  ℕ, zero, ◌+◌, ◌-◌, ◌*◌, Bool, true, false, not, ◌||◌, ◌==◌, if◌then◌else◌, update, Option, none,
  some, List, minus_one,
}
use nycu_osc_lab.Thread.State.{TaskPtr, Threads, Layout, aligned, signal_task_init}
use nycu_osc_lab.Thread.{thread_create}
use nycu_osc_lab.Signal.{TrapFrame}
use nycu_osc_lab.User.{Memory, mem_zero, user_stack_size, start_process, setup_user_trapframe}
use nycu_osc_lab.Initrd.{user_prog_base, user_load_image_from_initrd}

-- user_process_create_from_file from the point where it has tried to load the image. The result 0 is
-- NULL.
pub create_loaded :
    Layout → ℕ → Threads → Option (Bool × Memory) → Option (TaskPtr × Memory × Threads)
create_loaded l sstatus t none = none
create_loaded l sstatus t (some (false, m)) = some (0, m, t)
create_loaded l sstatus t (some (true, m)) =
    let (task, t1) = thread_create l l.user_process_entry t in
    let t2 = start_process l sstatus user_prog_base task t1 in
    if task == 0
    then some (0, m, t1)
    else some (task, mem_zero user_stack_size 0 (t2.user_stack_base task) m, t2)

-- `start` and `end` are the range of the archive; `none` is the search out of fuel.
pub user_process_create_from_file :
    Layout → ℕ → ℕ → ℕ → Option (List ℕ) → Memory → Threads → Option (TaskPtr × Memory × Threads)
user_process_create_from_file l sstatus start end path m t =
    create_loaded l sstatus t (user_load_image_from_initrd start end path true m)

-- The stack of the program that takes over.
pub exec_stack : Layout → TaskPtr → Threads → Threads
exec_stack l current t =
    let idx = current - 1 in
    record t {
      user_stack_base = update t.user_stack_base current (l.user_stacks + idx * user_stack_size);
      user_stack_top =
          update t.user_stack_top current (aligned (l.user_stacks + (idx + 1) * user_stack_size));
    }

-- The result of user_exec_current, the trap frame, the memory and the tasks.
pub record Executed : Type 0 where
  pub result : ℕ
  pub frame : TrapFrame
  pub memory : Memory
  pub tasks : Threads

-- user_exec_current from the point where it has tried to load the image.
pub exec_loaded : Layout → ℕ → TrapFrame → Threads → Option (Bool × Memory) → Option Executed
exec_loaded l sstatus tf t none = none
exec_loaded l sstatus tf t (some (false, m)) =
    some (record { result = minus_one; frame = tf; memory = m; tasks = t })
exec_loaded l sstatus tf t (some (true, m)) =
    let t1 = exec_stack l t.current (signal_task_init t.current t) in
    some (record {
      result = 0;
      frame = setup_user_trapframe l sstatus t.current user_prog_base t1;
      memory = mem_zero user_stack_size 0 (t1.user_stack_base t.current) m;
      tasks = t1;
    })

pub user_exec_current :
    Layout → ℕ → ℕ → ℕ → Option (List ℕ) → TrapFrame → Memory → Threads → Option Executed
user_exec_current l sstatus start end path tf m t =
    let r = exec_loaded l sstatus tf t (user_load_image_from_initrd start end path true m) in
    if (t.current == 0) || not (t.is_user t.current)
    then some (record { result = minus_one; frame = tf; memory = m; tasks = t })
    else r
