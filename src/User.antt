-- ===== src/User.antt =====
-- The user processes of lab6/OrangePiVer/Src/user.c. Memory is a function from addresses to bytes.
pub mod Copy
mod Fork
pub mod Create
mod Tests
use nycu_osc_lab.Prelude.{
  ℕ, zero, suc, ◌+◌, ◌-◌, ◌*◌, ◌/◌, ◌%◌, ◌^◌, Bool, true, false, not, ◌||◌, ◌&&◌, leb, ◌==◌,
  if◌then◌else◌, update,
}
use nycu_osc_lab.Thread.State.{TaskPtr, Threads, Layout, aligned, sign_extend, signal_task_init}
use nycu_osc_lab.Thread.{thread_create}
use nycu_osc_lab.Signal.{TrapFrame, signal_fork}

abbrev pub user_stack_size : ℕ
user_stack_size = 16384

abbrev pub Memory : Type 0
Memory = ℕ → ℕ

-- The results of a long function: -1.
abbrev pub failed : ℕ
failed = 2 ^ 64 - 1

-- for (i = 0; i < n; i++) dst[i] = 0, from `i` on.
pub mem_zero : ℕ → ℕ → ℕ → Memory → Memory
mem_zero zero i dst m = m
mem_zero (suc left) i dst m = mem_zero left (i + 1) dst (update m (dst + i) 0)

-- for (i = 0; i < n; i++) dst[i] = src[i], from `i` on.
pub mem_copy : ℕ → ℕ → ℕ → ℕ → Memory → Memory
mem_copy zero i dst src m = m
mem_copy (suc left) i dst src m = mem_copy left (i + 1) dst src (update m (dst + i) (m (src + i)))

-- sstatus with SPP clear and SPIE set.
pub user_sstatus : ℕ → ℕ
user_sstatus s =
    let cleared = s - s / 2 ^ 8 % 2 * 2 ^ 8 in cleared + (1 - cleared / 2 ^ 5 % 2) * 2 ^ 5

-- The trap frame that setup_user_trapframe makes; `sstatus` is what the register sstatus holds.
pub setup_user_trapframe : Layout → ℕ → TaskPtr → ℕ → Threads → TrapFrame
setup_user_trapframe l sstatus task entry t =
    let tf : TrapFrame = λ i. 0 in
    let tf1 = update tf 31 entry in
    let tf2 = update tf1 1 (t.user_stack_top task) in
    let tf3 = update tf2 3 (l.task_addr task) in update tf3 32 (user_sstatus sstatus)

-- The user stack of a task.
abbrev pub set_stack : Layout → TaskPtr → Threads → Threads
set_stack l task t =
    let idx = task - 1 in
    record t {
      user_stack_base = update t.user_stack_base task (l.user_stacks + idx * user_stack_size);
      user_stack_top =
          update t.user_stack_top task (aligned (l.user_stacks + (idx + 1) * user_stack_size));
      kernel_sp = update t.kernel_sp task (t.sp task);
    }

-- user_process_create from the point where it has a task.
pub start_process : Layout → ℕ → ℕ → TaskPtr → Threads → Threads
start_process l sstatus entry task t =
    let t1 = record t {
      is_user = update t.is_user task true;
      exit_status = update t.exit_status task 0;
      parent = update t.parent task t.current;
    } in
    let t2 = set_stack l task (signal_task_init task t1) in
    record t2 {
      trapframe = update t2.trapframe task (setup_user_trapframe l sstatus task entry t2);
    }

unfoldable pub user_process_create : Layout → ℕ → ℕ → Memory → Threads → TaskPtr × Memory × Threads
user_process_create l sstatus entry m t =
    let (task, t1) = thread_create l l.user_process_entry t in
    let t2 = start_process l sstatus entry task t1 in
    if task == 0
    then (0, m, t1)
    else (task, mem_zero user_stack_size 0 (t2.user_stack_base task) m, t2)

pub translate_stack_ptr : TaskPtr → TaskPtr → ℕ → Threads → ℕ
translate_stack_ptr parent child ptr t =
    if leb (t.user_stack_base parent) ptr && leb ptr (t.user_stack_top parent)
    then t.user_stack_base child + (ptr - t.user_stack_base parent)
    else ptr

-- The trap frame of the child.
pub forked_frame : Layout → TaskPtr → TaskPtr → TrapFrame → Threads → TrapFrame
forked_frame l parent child parent_tf t =
    let tf1 = update parent_tf 9 0 in
    let tf2 = update tf1 3 (l.task_addr child) in
    let tf3 = update tf2 1 (translate_stack_ptr parent child (parent_tf 1) t) in
    update tf3 7 (translate_stack_ptr parent child (parent_tf 7) t)

-- user_fork from the point where it has a child: what it does to the table of tasks.
pub fork_task : Layout → TaskPtr → TaskPtr → TrapFrame → Threads → Threads
fork_task l parent child parent_tf t =
    let t1 = set_stack l child (record t {
      is_user = update t.is_user child true;
      exit_status = update t.exit_status child 0;
    }) in
    let t2 = record t1 {
      trapframe = update t1.trapframe child (forked_frame l parent child parent_tf t1);
      parent = update t1.parent child parent;
    } in
    signal_fork parent child t2

pub user_fork : Layout → TrapFrame → Memory → Threads → ℕ × Memory × Threads
user_fork l parent_tf m t =
    let parent = t.current in
    let (child, t1) = thread_create l l.user_process_entry t in
    let t2 = fork_task l parent child parent_tf t1 in
    if (parent == 0) || not (t.is_user parent)
    then (failed, m, t)
    else if child == 0
    then (failed, m, t1)
    else (
      sign_extend (t2.pid child),
      mem_copy user_stack_size 0 (t2.user_stack_base child) (t2.user_stack_base parent) m,
      t2,
    )
