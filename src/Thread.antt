-- ===== src/Thread.antt =====
-- The threads and the scheduler of lab6/OrangePiVer/Src/thread.c: the table of 16 tasks and the
-- circular run queue. The page table of a task, which this file never touches, is left out.
pub mod State
mod Queue
pub mod Wf
mod Schedule
mod Change
pub mod Create
pub mod Exit
pub mod Find
pub mod Kill
pub mod Keep
pub mod Reap
pub mod Reach
pub mod Sample
mod Tests
use nycu_osc_lab.Prelude.{
  ℕ, zero, suc, ◌+◌, ◌-◌, ◌*◌, ◌/◌, ◌%◌, ◌^◌, Bool, true, false, not, ◌||◌, ◌&&◌, ltb, ◌==◌,
  if◌then◌else◌, update, Option, none, some, minus_one,
}
use nycu_osc_lab.Thread.State.{
  TaskPtr, TaskState, unused, runnable, running, zombie, Threads, Layout, max_threads, stack_size,
  is_runnable_state, is_unused, is_zombie, is_running, clear_context, signal_task_init, aligned,
  sign_extend,
}

pub runq_add : TaskPtr → Threads → Threads
runq_add task t =
    let t1 = record t { next = update t.next task (t.next t.run_queue_tail) } in
    let t2 = record t1 { next = update t1.next t1.run_queue_tail task } in
    if t.run_queue_tail == 0
    then record t { run_queue_tail = task; next = update t.next task task }
    else record t2 { run_queue_tail = task }

-- while (prev->next != task), with fuel. `none` is the return when it is back at the tail.
pub find_prev : ℕ → (TaskPtr → TaskPtr) → TaskPtr → TaskPtr → TaskPtr → Option TaskPtr
find_prev zero next tail task prev = none
find_prev (suc fuel) next tail task prev =
    let rest = find_prev fuel next tail task (next prev) in
    if next prev == task then some prev else if next prev == tail then none else rest

-- The end of runq_remove, with the node before the task.
pub unlink : TaskPtr → TaskPtr → Threads → Threads
unlink prev task t =
    let t1 = record t { next = update t.next prev (t.next task) } in
    let t2 = record t1 {
      run_queue_tail = if t1.run_queue_tail == task then prev else t1.run_queue_tail;
    } in
    record t2 { next = update t2.next task 0 }

-- The queue has at most 16 tasks, so the fuel is enough.
pub runq_remove : TaskPtr → Threads → Threads
runq_remove task t =
    if (t.run_queue_tail == 0) || (task == 0)
    then t
    else if t.next task == task
    then record t { run_queue_tail = 0; next = update t.next task 0 }
    else elim (find_prev 16 t.next t.run_queue_tail task t.run_queue_tail) [
      | none ↦ t
      | some prev ↦ unlink prev task t
    ]

pub is_runnable : TaskPtr → Threads → Bool
is_runnable task t = not (task == 0) && is_runnable_state (t.state task)

-- while (next != current), with fuel.
pub pick_loop : ℕ → TaskPtr → TaskPtr → Threads → TaskPtr
pick_loop zero next current t = current
pick_loop (suc fuel) next current t =
    let rest = pick_loop fuel (t.next next) current t in
    if next == current then current else if is_runnable next t then next else rest

pub pick_next : TaskPtr → Threads → TaskPtr
pick_next current t = pick_loop 16 (t.next current) current t

pub task_reap : TaskPtr → Threads → Threads
task_reap task t =
    let t1 = record t {
      pid = update t.pid task minus_one;
      state = update t.state task unused;
      entry = update t.entry task 0;
      stack_base = update t.stack_base task 0;
      next = update t.next task 0;
      is_user = update t.is_user task false;
      exit_status = update t.exit_status task 0;
      kernel_sp = update t.kernel_sp task 0;
      user_stack_base = update t.user_stack_base task 0;
      user_stack_top = update t.user_stack_top task 0;
      parent = update t.parent task 0;
    } in
    let t2 = clear_context task t1 in
    let t3 = record t2 { trapframe = update t2.trapframe task (λ i. 0) } in
    if task == 0
    then t
    else if task == t.idle_task
    then t
    else if not (is_zombie (t.state task))
    then t
    else signal_task_init task t3

-- The parent is a user process that may still wait for its child.
pub awaited : TaskPtr → Threads → Bool
awaited task t =
    let parent = t.parent task in
    not (parent == 0)
    && (t.is_user parent && (not (is_unused (t.state parent)) && not (is_zombie (t.state parent))))

-- for (i = 1; i < MAX_THREADS; i++), from index `i` on.
pub reap_loop : ℕ → ℕ → Threads → Threads
reap_loop zero i t = t
reap_loop (suc left) i t =
    let task = 1 + i in
    reap_loop left (i + 1)
      (if not (is_zombie (t.state task)) then t else if awaited task t then t else task_reap task t)

pub kill_zombies : Threads → Threads
kill_zombies t = reap_loop 15 1 t

-- for (i = 0; i < MAX_THREADS; i++), from index `i` on.
pub alloc_scan : ℕ → ℕ → Threads → TaskPtr
alloc_scan zero i t = 0
alloc_scan (suc left) i t =
    let rest = alloc_scan left (i + 1) t in if is_unused (t.state (1 + i)) then 1 + i else rest

pub alloc_task : Threads → TaskPtr × Threads
alloc_task t = let t1 = kill_zombies t in (alloc_scan 16 0 t1, t1)

-- thread_create from the point where it has a task.
pub start_thread : Layout → ℕ → TaskPtr → Threads → Threads
start_thread l fn task t =
    let idx = task - 1 in
    let t1 = clear_context task t in
    let t2 = record t1 {
      pid = update t1.pid task t1.next_pid;
      next_pid = (t1.next_pid + 1) % 2 ^ 32;
      state = update t1.state task runnable;
      entry = update t1.entry task fn;
      stack_base = update t1.stack_base task (l.stacks + idx * stack_size);
      next = update t1.next task 0;
    } in
    let t3 = record t2 {
      ra = update t2.ra task l.thread_trampoline;
      sp = update t2.sp task (aligned (l.stacks + (idx + 1) * stack_size));
    } in
    runq_add task t3

pub thread_create : Layout → ℕ → Threads → TaskPtr × Threads
thread_create l fn t =
    let (task, t1) = alloc_task t in (task, if task == 0 then t1 else start_thread l fn task t1)

-- The first loop of thread_init, which clears the entries from index `i` on.
pub clear_loop : ℕ → ℕ → Threads → Threads
clear_loop zero i t = t
clear_loop (suc left) i t =
    let task = 1 + i in
    clear_loop left (i + 1) (
      clear_context task (record t {
        pid = update t.pid task minus_one;
        state = update t.state task unused;
        entry = update t.entry task 0;
        stack_base = update t.stack_base task 0;
        next = update t.next task 0;
        is_user = update t.is_user task false;
        exit_status = update t.exit_status task 0;
        kernel_sp = update t.kernel_sp task 0;
        user_stack_base = update t.user_stack_base task 0;
        user_stack_top = update t.user_stack_top task 0;
        parent = update t.parent task 0;
      }))

-- The current flow of control becomes the idle task, the first entry of the table.
pub thread_init : Layout → Threads → Threads
thread_init l t =
    let t1 = clear_loop 16 0 t in
    let t2 = record t1 {
      idle_task = 1;
      pid = update t1.pid 1 0;
      state = update t1.state 1 running;
      entry = update t1.entry 1 l.idle_fn;
      stack_base = update t1.stack_base 1 l.stacks;
      ra = update t1.ra 1 l.idle_fn;
      sp = update t1.sp 1 (aligned (l.stacks + stack_size));
    } in
    let t3 = runq_add 1 t2 in record t3 { current = 1 }

-- switch_to(prev, next): the CPU goes on with `next`. What it does with the registers is assembly.
abbrev pub switch_to : TaskPtr → Threads → Threads
switch_to next t = record t { current = next }

pub schedule : Threads → Threads
schedule t =
    let prev = t.current in
    let next = pick_next prev t in
    let t1 =
      if is_running (t.state prev) then record t { state = update t.state prev runnable } else t in
    let t2 = record t1 { state = update t1.state next running } in
    if (prev == 0) || (t.run_queue_tail == 0)
    then t
    else if next == prev
    then t
    else switch_to next t2

-- The task that thread_exit goes on with: the parent when it is alive, or else the next one.
pub successor : TaskPtr → Threads → TaskPtr
successor prev t =
    let parent = t.parent prev in
    if not (parent == 0) && (not (is_unused (t.state parent)) && not (is_zombie (t.state parent)))
    then parent
    else pick_next prev t

-- Up to the switch to another task. The idle task, which calls schedule for ever, makes its first
-- such call.
pub thread_exit : Threads → Threads
thread_exit t =
    let prev = t.current in
    let chosen = successor prev t in
    let t1 = runq_remove prev t in
    let t2 = record t1 { state = update t1.state prev zombie } in
    let next = if (chosen == prev) || (chosen == 0) then t2.idle_task else chosen in
    let t3 = record t2 { state = update t2.state next running } in
    if prev == t.idle_task then schedule t else switch_to next t3

-- One round of the idle task.
pub idle : Threads → Threads
idle t = schedule (kill_zombies t)

-- for (i = 0; i < MAX_THREADS; i++), from index `i` on. `pid` is the pattern of a signed 64-bit number.
pub find_scan : ℕ → ℕ → ℕ → Threads → TaskPtr
find_scan zero i pid t = 0
find_scan (suc left) i pid t =
    let rest = find_scan left (i + 1) pid t in
    if not (is_unused (t.state (1 + i))) && (sign_extend (t.pid (1 + i)) == pid)
    then 1 + i
    else rest

pub task_find_by_pid : ℕ → Threads → TaskPtr
task_find_by_pid pid t = find_scan 16 0 pid t

-- task_kill from the point where the task is found. `none` is the result -1, with nothing changed.
pub stop_task : TaskPtr → ℕ → Threads → Option Threads
stop_task task status t =
    let t1 = record t { exit_status = update t.exit_status task status } in
    let removed = runq_remove task t in
    let t2 = record removed {
      exit_status = update removed.exit_status task status;
      state = update removed.state task zombie;
    } in
    if task == 0
    then none
    else if task == t.idle_task
    then none
    else if is_unused (t.state task) || is_zombie (t.state task)
    then none
    else if task == t.current
    then some (thread_exit t1)
    else some t2

pub task_kill : ℕ → ℕ → Threads → Option Threads
task_kill pid status t = stop_task (task_find_by_pid pid t) status t
