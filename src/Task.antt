-- ===== src/Task.antt =====
-- The task queue of lab6/OrangePiVer/Src/task.c: a pool of 64 nodes, a free list, and the queue in
-- order of priority. The interrupt flags and the nested interrupts are left out.
mod Queue
mod Init
mod Run
mod Tests
use nycu_osc_lab.Prelude.{
  ℕ, zero, suc, ◌+◌, Bool, not, ◌||◌, ltb, leb, ◌==◌, if◌then◌else◌, update, Option, none, some,
}
use nycu_osc_lab.Prelude.Chains.{walk, link_after}

-- A pointer to a task_event: 0 is NULL and 1 + i is &task_pool[i].
abbrev pub EventPtr : Type 0
EventPtr = ℕ

abbrev pub pool_size : ℕ
pool_size = 64

-- A signed 32-bit priority p is stored as p + 2 ^ 31, which keeps the order.
abbrev pub no_priority : ℕ
no_priority = 1

pub record Tasks : Type 0 where
  pub priority : EventPtr → ℕ
  pub callback : EventPtr → ℕ
  pub arg : EventPtr → ℕ
  pub next : EventPtr → EventPtr
  pub free_list : EventPtr
  pub head : EventPtr
  pub current_priority : ℕ

pub task_alloc_node : Tasks → EventPtr × Tasks
task_alloc_node t =
    let n = t.free_list in
    let t1 = record t { free_list = t.next n } in
    (n, if not (n == 0) then record t1 { next = update t1.next n 0 } else t)

pub task_free_node : EventPtr → Tasks → Tasks
task_free_node n t =
    let t1 = record t { next = update t.next n t.free_list } in record t1 { free_list = n }

-- The links of the nodes from the first one on: each to the one behind it.
pub link_pool : ℕ → ℕ → (EventPtr → EventPtr) → EventPtr → EventPtr
link_pool zero i next = next
link_pool (suc left) i next = link_pool left (i + 1) (update next (1 + i) (1 + (i + 1)))

pub task_init : Tasks → Tasks
task_init t = record t {
  free_list = 1;
  next = update (link_pool 63 0 t.next) 64 0;
  head = 0;
  current_priority = no_priority;
}

-- The queue has at most 64 nodes, so the walk's fuel is enough. `none` is the result -1.
pub add_task : ℕ → ℕ → ℕ → Tasks → Option Tasks
add_task callback arg priority t =
    let (n, t1) = task_alloc_node t in
    let t2 = record t1 {
      priority = update t1.priority n priority;
      callback = update t1.callback n callback;
      arg = update t1.arg n arg;
      next = update t1.next n 0;
    } in
    let cur = walk 65 t2.next (λ x. leb priority (t2.priority x)) t2.head in
    if callback == 0
    then none
    else if n == 0
    then none
    else if (t2.head == 0) || ltb (t2.priority t2.head) priority
    then some (record t2 { next = update t2.next n t2.head; head = n })
    else some (record t2 { next = link_after t2.next n cur })

-- The head leaves the queue, and its node goes back to the pool.
pub take_task : Tasks → Tasks
take_task t = task_free_node t.head (record t { head = t.next t.head })

-- run_pending_task, with the effect of a callback on the rest of the machine and on the queue as a
-- parameter: `run` gets the callback and its argument.
module _ {S : Type 0} (run : ℕ → ℕ → S × Tasks → S × Tasks) where
  pub run_task : S × Tasks → S × Tasks
  run_task (s, t) =
      let n = t.head in
      let (s1, t1) =
        run (t.callback n) (t.arg n)
          (s, record (take_task t) { current_priority = t.priority n }) in
      (s1, record t1 { current_priority = t.current_priority })

  -- while (1), with fuel; `none` when it runs out.
  pub run_pending_task : ℕ → S × Tasks → Option (S × Tasks)
  run_pending_task zero (s, t) = none
  run_pending_task (suc fuel) (s, t) =
      let rest = run_pending_task fuel (run_task (s, t)) in
      if t.head == 0
      then some (s, t)
      else if ltb (t.priority t.head) t.current_priority
      then some (s, t)
      else rest
