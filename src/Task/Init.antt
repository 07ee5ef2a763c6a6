-- ===== src/Task/Init.antt =====
-- task_init of lab6/OrangePiVer/Src/task.c: the whole pool is free.
use nycu_osc_lab.Prelude.{ℕ, zero, suc, ◌+◌, ◌≤◌, ◌<◌, ◌≡◌, refl, [], update, arith, ◌⊎◌}
use native.Mathlib.Decide.{ℕ_discrete}
use nycu_osc_lab.Prelude.Ranges.{range, length-range, Nodup-range, Disjoint-empty, Chain-range}
use nycu_osc_lab.Task.{Tasks, link_pool, task_init}
use nycu_osc_lab.Task.Queue.{IsTasks}

link_pool-out :
    (left i p : ℕ) (next : ℕ → ℕ) → (p ≤ i) ⊎ (i + left < p) → link_pool left i next p ≡ next p
unfolding link_pool
link_pool-out zero i p next h = refl
link_pool-out (suc left) i p next h =
    ground (arith, h, link_pool-out left (i + 1) p (update next (1 + i) (1 + (i + 1))))

link_pool-in :
    (left i p : ℕ) (next : ℕ → ℕ) → i < p → p ≤ i + left → link_pool left i next p ≡ suc p
unfolding link_pool
link_pool-in zero i p next lo hi = absurd (omega arith)
link_pool-in (suc left) i p next lo hi = elim (ℕ_discrete p (1 + i)) [
  | yes e ↦ ground (arith, link_pool-out left (i + 1) p (update next (1 + i) (1 + (i + 1))), e)
  | no ne ↦
      link_pool-in left (i + 1) p (update next (1 + i) (1 + (i + 1))) (omega arith) (omega arith)
]

-- After task_init no task waits, and the free list holds the whole pool.
pub task_init-IsTasks : (t : Tasks) → IsTasks (task_init t) [] (range 1 64)
unfolding task_init
task_init-IsTasks t = record {
  queued = refl;
  unused =
      Chain-range (update (link_pool 63 0 t.next) 64 0) 1 63 (omega arith)
        (λ q lo hi. ground (arith, link_pool-in 63 0 q t.next)) refl;
  once = tt;
  free_once = Nodup-range 1 64;
  apart = Disjoint-empty (range 1 64);
  total = length-range 1 64;
  ordered = tt;
}
