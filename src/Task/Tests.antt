-- ===== src/Task/Tests.antt =====
-- The task queue of lab6/OrangePiVer/Src/task.c at concrete states.
use nycu_osc_lab.Prelude.{
  ℕ, suc, ◌+◌, ◌≡◌, ◌↔◌, ◌⊎◌, refl, leb, ◌==◌, if◌then◌else◌, none, some, [], ◌∷◌, arith,
}
use nycu_osc_lab.Prelude.Chains.{insert}
use nycu_osc_lab.Prelude.Ranges.{range, Nodup-range, Disjoint-range, Chain-range}
use nycu_osc_lab.Task.{Tasks, add_task, run_pending_task}
use nycu_osc_lab.Task.Queue.{IsTasks, Added, add_task-IsTasks, add_task-fails}
use nycu_osc_lab.Task.Run.{Drained, run_pending_task-Drained}

-- Node 1 waits with priority 5, the callback 100 and the argument 7; the other nodes are free.
abbrev one_waits : Tasks
one_waits = record {
  priority = λ p. 2147483653;
  callback = λ p. 100;
  arg = λ p. 7;
  next = λ p. if p == 1 then 0 else if p == 64 then 0 else suc p;
  free_list = 2;
  head = 1;
  current_priority = 1;
}

one_waits-IsTasks : IsTasks one_waits (1 ∷ []) (range 2 63)
one_waits-IsTasks = record {
  queued = (refl, omega arith, refl);
  unused = Chain-range one_waits.next 2 62 (omega arith) (λ q lo hi. ground arith) refl;
  once = (tt, tt);
  free_once = Nodup-range 2 63;
  apart = Disjoint-range 1 2 63 (omega arith);
  total = refl;
  ordered = (tt, tt);
}

add_task-IsTasks_example :
    (t' : Tasks) × (add_task 200 9 2147483653 one_waits ≡ some t')
    × IsTasks t' (insert (λ x. leb 2147483653 (t'.priority x)) 2 (1 ∷ [])) (range 3 62)
    × Added one_waits t' 2 200 9 2147483653
add_task-IsTasks_example = add_task-IsTasks 2 200 9 2147483653 (omega arith) one_waits-IsTasks

add_task-fails_example :
    (add_task 0 9 2147483653 one_waits ≡ none) ↔ (◌≡◌ {A = ℕ} 0 0 ⊎ (range 2 63 ≡ []))
add_task-fails_example = add_task-fails 0 9 2147483653 one_waits-IsTasks

-- The callback adds its argument to a counter.
abbrev count : ℕ → ℕ → ℕ × Tasks → ℕ × Tasks
count callback arg (s, t) = (s + arg, t)

run_pending_task-Drained_example :
    Drained (λ c a s. s + a) one_waits 0 (1 ∷ []) (run_pending_task count 2 (0, one_waits))
run_pending_task-Drained_example =
    run_pending_task-Drained count (λ c a s. s + a) 2 one_waits 0 (1 ∷ []) (range 2 63)
      (λ c a s t. refl) one_waits-IsTasks (omega arith)
