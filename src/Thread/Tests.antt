-- ===== src/Thread/Tests.antt =====
-- Runs of lab6/OrangePiVer/Src/thread.c from its start on: one thread, which exits or is killed.
use nycu_osc_lab.Prelude.{ℕ, ◌<◌, ◌≤◌, ◌≡◌, refl, ◌⊎◌, true, false, arith}
use nycu_osc_lab.Thread.State.{TaskPtr, unused, Threads, is_unused}
use nycu_osc_lab.Thread.{
  runq_add, clear_loop, thread_init, thread_create, start_thread, alloc_task, alloc_scan,
  kill_zombies, reap_loop, schedule, pick_next, pick_loop, is_runnable, thread_exit, task_kill,
}
use nycu_osc_lab.Thread.Sample.{layout, image-Blank, booted}
use nycu_osc_lab.Thread.Wf.{on, count, Sound}
use nycu_osc_lab.Thread.Schedule.{rounds, rounds-current}
use nycu_osc_lab.Thread.Create.{Created, thread_create-Created}
use nycu_osc_lab.Thread.Exit.{Exited, thread_exit-Exited}
use nycu_osc_lab.Thread.Find.{FirstWith}
use nycu_osc_lab.Thread.Kill.{Kills, task_kill-Kills}
use nycu_osc_lab.Thread.Reap.{Forgotten, kill_zombies-state}
use nycu_osc_lab.Thread.Reach.{Reach, here, next, creates, yields, exits, Reach-Sound}

abbrev two : Threads
two = (thread_create layout 12288 booted).1

-- The new thread has the CPU.
abbrev other : Threads
other = schedule two

booted_run : Reach layout booted booted
booted_run = here

two_run : Reach layout booted two
two_run = next here (creates 12288)

other_run : Reach layout booted other
other_run = next two_run yields

two-Sound : Sound two
two-Sound = Reach-Sound layout image-Blank two_run

other-Sound : Sound other
other-Sound = Reach-Sound layout image-Blank other_run

other_current : other.current ≡ 2
unfolding schedule thread_create thread_init runq_add clear_loop start_thread alloc_task alloc_scan
    kill_zombies reap_loop pick_next pick_loop is_runnable
other_current = refl

two_on : on two 2 ≡ true
unfolding thread_create thread_init runq_add clear_loop start_thread alloc_task alloc_scan
    kill_zombies reap_loop
two_on = refl

Reach-Sound_example : Sound other
Reach-Sound_example = Reach-Sound layout image-Blank other_run

rounds-current_example : (k : ℕ) × (k < count 16 (on two)) × ((rounds k two).current ≡ 2)
rounds-current_example = rounds-current 2 two-Sound two_on

thread_create-Created_example :
    let r = thread_create layout 16384 other in
    Created other r.1 16384 r.0
    ⊎ ((r.0 ≡ 0)
        × (r.1 ≡ kill_zombies other)
        × Sound r.1
        × ((p : TaskPtr) → 0 < p → p ≤ 16 → is_unused (r.1.state p) ≡ false))
thread_create-Created_example = thread_create-Created layout 16384 other-Sound

thread_exit-Exited_example : Exited other (thread_exit other) other.current
thread_exit-Exited_example = thread_exit-Exited other-Sound (λ e. omega (arith, e, other_current))

task_kill-Kills_example : (x : TaskPtr) × FirstWith 1 two x × Kills two x 9 (task_kill 1 9 two)
task_kill-Kills_example = task_kill-Kills 1 9 two-Sound

abbrev ended : Threads
ended = thread_exit other

ended-Sound : Sound ended
ended-Sound =
    Reach-Sound layout image-Blank (next other_run (exits (λ e. omega (arith, e, other_current))))

kill_zombies-state_example :
    ((1 < 2) × (2 ≤ 16) × Forgotten ended 2 × ((kill_zombies ended).state 2 ≡ unused))
    ⊎ (((1 < 2) × (2 ≤ 16) × Forgotten ended 2 → ⊥)
        × ((kill_zombies ended).state 2 ≡ ended.state 2))
kill_zombies-state_example = kill_zombies-state 2 ended-Sound
