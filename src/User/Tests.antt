-- ===== src/User/Tests.antt =====
-- A user process that forks: lab6/OrangePiVer/Src/user.c.
use nycu_osc_lab.Prelude.{◌+◌, ◌-◌, ◌*◌, true}
use nycu_osc_lab.Thread.State.{Threads}
use nycu_osc_lab.Thread.Sample.{layout, image-Blank, booted}
use nycu_osc_lab.Thread.Wf.{Sound, sound}
use nycu_osc_lab.Thread.Reach.{thread_init-Sound}
use nycu_osc_lab.Signal.{TrapFrame}
use nycu_osc_lab.User.{Memory, user_process_create}
use nycu_osc_lab.User.Create.{Starts, user_process_create-Starts}

-- The first task as a user process.
abbrev process : Threads
process = record booted {
  is_user = λ p. true;
  user_stack_base = λ p. 1048576 + (p - 1) * 16384;
  user_stack_top = λ p. 1048576 + p * 16384;
  signal_handlers = λ p i. 4096;
}

process-Sound : Sound process
process-Sound = elim (thread_init-Sound layout image-Blank) [
  | sound w ↦ sound (record {
    queue = w.queue;
    counted = w.counted;
    idle_is = w.idle_is;
    idle_on = w.idle_on;
    current_runs = w.current_runs;
    only = w.only;
  })
]

abbrev frame : TrapFrame
frame i = 1048576 + i

abbrev memory : Memory
memory a = a * 7

user_process_create-Starts_example :
    Starts layout 256 50331648 memory process
      (user_process_create layout 256 50331648 memory process)
user_process_create-Starts_example =
    user_process_create-Starts layout 256 50331648 memory process-Sound
