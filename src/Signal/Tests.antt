-- ===== src/Signal/Tests.antt =====
-- Runs of lab6/OrangePiVer/Src/signal.c: a process with two pending signals, and a kill.
use nycu_osc_lab.Prelude.{◌≡◌, ◌+◌, refl, ◌||◌, ◌==◌, true, arith}
use nycu_osc_lab.Thread.State.{TaskPtr, Threads}
use nycu_osc_lab.Thread.Find.{FirstWith}
use nycu_osc_lab.Thread.Sample.{
  layout, image, image-Blank, booted, second, second-Sound, second_current,
}
use nycu_osc_lab.Thread.Wf.{Sound, sound}
use nycu_osc_lab.Thread.Reach.{thread_init-Sound}
use nycu_osc_lab.Signal.{TrapFrame, signal_try_deliver, sys_kill}
use nycu_osc_lab.Signal.Cases.{Ready}
use nycu_osc_lab.Signal.Deliver.{Delivery, OwnPid, signal_try_deliver-Delivery}
use nycu_osc_lab.Signal.Send.{Sends, sys_kill-Sends}
use nycu_osc_lab.Signal.Drain.{
  Drained, started_times, handlers_of, HasHandlers, handled_times, pending_count,
  handled_times-Drained,
}

-- A user process that has the CPU, with the signals 2 and 15 pending.
abbrev process : Threads
process = record image {
  current = 2;
  is_user = λ p. p == 2;
  signal_handlers = λ p i. 4096;
  pending_signals = λ p i. (i == 2) || (i == 15);
}

abbrev frame : TrapFrame
frame i = i + 50331648

process-Ready : Ready process
process-Ready = record { found = λ e. omega (arith, e); user = refl; idle = refl }

process-HasHandlers : HasHandlers process
process-HasHandlers i lo hi e = omega (arith, e)

handled_times-Drained_example :
    (started_times (pending_count process) layout (frame, process)
      ≡ handlers_of
          (process.signal_handlers process.current)
          31
          1
          (process.pending_signals process.current))
    × Drained frame process (handled_times (pending_count process) layout (frame, process))
handled_times-Drained_example =
    handled_times-Drained layout frame process process-Ready process-HasHandlers

-- The first task becomes a user process with a handler for the signal 15.
abbrev target : Threads
target = record booted { is_user = λ p. true; signal_handlers = λ p i. 4096 }

target-Sound : Sound target
target-Sound = elim (thread_init-Sound layout image-Blank) [
  | sound w ↦ sound (record {
    queue = w.queue;
    counted = w.counted;
    idle_is = w.idle_is;
    idle_on = w.idle_on;
    current_runs = w.current_runs;
    only = w.only;
  })
]

sys_kill-Sends_example :
    (x : TaskPtr) × FirstWith 0 target x × Sends target x 15 (sys_kill 0 15 target)
sys_kill-Sends_example = sys_kill-Sends 0 15 target-Sound

-- The second task is a user process without handlers, with the signal 15 pending.
abbrev doomed : Threads
doomed = record second { is_user = λ p. p == 2; pid = λ p. p; pending_signals = λ p i. i == 15 }

doomed-Sound : Sound doomed
doomed-Sound = elim second-Sound [
  | sound w ↦ sound (record {
    queue = w.queue;
    counted = w.counted;
    idle_is = w.idle_is;
    idle_on = w.idle_on;
    current_runs = w.current_runs;
    only = w.only;
  })
]

doomed-OwnPid : OwnPid doomed
doomed-OwnPid p lo hi (used, e) = ground (arith, e, second_current)

signal_try_deliver-Delivery_example :
    Delivery layout frame doomed (signal_try_deliver layout frame doomed)
signal_try_deliver-Delivery_example =
    signal_try_deliver-Delivery layout frame doomed-Sound refl (omega (arith, second_current))
      doomed-OwnPid
