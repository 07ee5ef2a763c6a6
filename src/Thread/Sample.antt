-- ===== src/Thread/Sample.antt =====
-- The memory of lab6/OrangePiVer/Src/thread.c before thread_init, and after it, for the tests.
use nycu_osc_lab.Prelude.{◌≡◌, ◌+◌, ◌*◌, refl, false}
use nycu_osc_lab.Thread.State.{unused, Threads, Layout}
use nycu_osc_lab.Thread.{
  runq_add, clear_loop, thread_init, thread_create, start_thread, alloc_task, alloc_scan,
  kill_zombies, reap_loop, schedule, pick_next, pick_loop, is_runnable,
}
use nycu_osc_lab.Thread.Wf.{Sound}
use nycu_osc_lab.Thread.Reach.{Blank, here, next, creates, yields, Reach-Sound}

abbrev pub layout : Layout
layout = record {
  stacks = 65536;
  user_stacks = 1048576;
  signal_stacks = 2097152;
  idle_fn = 4096;
  thread_trampoline = 8192;
  user_process_entry = 20480;
  task_addr = λ p. 40960 + p * 4096;
}

abbrev pub image : Threads
image = record {
  ra = λ p. 0;
  sp = λ p. 0;
  s = λ p i. 0;
  pid = λ p. 0;
  state = λ p. unused;
  entry = λ p. 0;
  stack_base = λ p. 0;
  next = λ p. 0;
  is_user = λ p. false;
  exit_status = λ p. 0;
  trapframe = λ p i. 0;
  kernel_sp = λ p. 0;
  user_stack_base = λ p. 0;
  user_stack_top = λ p. 0;
  parent = λ p. 0;
  signal_handlers = λ p i. 0;
  pending_signals = λ p i. false;
  handling_signal = λ p. false;
  current_signal = λ p. 0;
  signal_saved_tf = λ p i. 0;
  run_queue_tail = 0;
  idle_task = 0;
  next_pid = 1;
  current = 0;
}

pub image-Blank : Blank image
image-Blank = record { state_is = λ p h. refl; next_is = λ p h. refl; tail_is = refl }

abbrev pub booted : Threads
booted = thread_init layout image

-- A second thread has the CPU.
abbrev pub second : Threads
second = schedule (thread_create layout 12288 booted).1

pub second-Sound : Sound second
second-Sound = Reach-Sound layout image-Blank (next (next here (creates 12288)) yields)

pub second_current : second.current ≡ 2
unfolding schedule thread_create thread_init runq_add clear_loop start_thread alloc_task alloc_scan
    kill_zombies reap_loop pick_next pick_loop is_runnable
second_current = refl
