-- ===== src/Task/Run.antt =====
-- run_pending_task of lab6/OrangePiVer/Src/task.c: the callbacks that run, and in which order.
use nycu_osc_lab.Prelude.{
  ℕ, suc, ◌≤◌, ◌≡◌, refl, inl, inr, true, false, ltb, ◌==◌, Option, some, List, [], ◌∷◌, length,
  Bool-cases, arith, update, zero, ◌<◌, false, ◌++◌, ltb→lt, ap, ◌⊎◌,
}
use nycu_osc_lab.Prelude.Chains.{NotIn, Chain-update}
use nycu_osc_lab.Prelude.Inserts.{Each, Each-map, Disjoint-head, Disjoint-tail}
use nycu_osc_lab.Task.{Tasks, take_task, task_free_node, run_task, run_pending_task}
use nycu_osc_lab.Task.Queue.{IsTasks}

-- The node at the head goes from the queue to the free list.
take_task-IsTasks :
    {t : Tasks} {queue free : List ℕ} (n p : ℕ)
    → IsTasks t (n ∷ queue) free
    → IsTasks (record (take_task t) { current_priority = p }) queue (n ∷ free)
unfolding take_task task_free_node
take_task-IsTasks {t} {queue} {free} n p w = rw w.queued.0 (record {
  queued = Chain-update t.next n t.free_list (t.next n) queue w.queued.2 w.once.0;
  unused =
      (refl, w.queued.1, rw own (Chain-update t.next n t.free_list t.free_list free w.unused away));
  once = w.once.1;
  free_once = (away, w.free_once);
  apart = (w.once.0, Disjoint-tail n free queue w.apart);
  total = omega (arith, w.total);
  ordered = w.ordered.1;
})
  where
    away : NotIn n free
    away = Disjoint-head n free queue w.apart

    own : update t.next n t.free_list n ≡ t.free_list
    own = ground arith

-- The callbacks of the tasks of the list, one after the other.
pub performed : {S : Type 0} → (ℕ → ℕ → S → S) → (ℕ → ℕ) → (ℕ → ℕ) → List ℕ → S → S
performed effect callback arg [] s = s
performed effect callback arg (x ∷ xs) s =
    performed effect callback arg xs (effect (callback x) (arg x) s)

-- What run_pending_task leaves: it has run the tasks `ran`, and the tasks `left` wait.
pub record Drained {S : Type 0} (effect : ℕ → ℕ → S → S) (t : Tasks) (s : S) (queue : List ℕ)
    (r : Option (S × Tasks)) : Type 0 where
  pub after : Tasks
  pub ran : List ℕ
  pub left : List ℕ
  pub free : List ℕ
  pub result : r ≡ some (performed effect t.callback t.arg ran s, after)
  pub parts : queue ≡ ran ++ left
  pub urgent : Each (λ x. t.current_priority ≤ t.priority x) ran
  pub low : Each (λ x. t.priority x < t.current_priority) left
  pub valid : IsTasks after left free
  pub current_is : after.current_priority ≡ t.current_priority

module _ {S : Type 0} (run : ℕ → ℕ → S × Tasks → S × Tasks) (fuel : ℕ) (s : S) (t : Tasks) where
  run-returns :
      ((t.head == 0) ≡ true) ⊎ (ltb (t.priority t.head) t.current_priority ≡ true)
      → run_pending_task run (suc fuel) (s, t) ≡ some (s, t)
  unfolding run_pending_task
  run-returns (inl empty) = rw empty refl
  run-returns (inr low) = elim (Bool-cases (t.head == 0)) [
    | inl empty ↦ rw empty refl
    | inr full ↦ rw (full, low) refl
  ]

  run-continues :
      (t.head == 0) ≡ false
      → ltb (t.priority t.head) t.current_priority ≡ false
      → run_pending_task run (suc fuel) (s, t) ≡ run_pending_task run fuel (run_task run (s, t))
  unfolding run_pending_task
  run-continues full urgent = rw (full, urgent) refl

  run_task_quiet :
      (effect : ℕ → ℕ → S → S) (x : ℕ)
      → ((c a : ℕ) (s : S) (t : Tasks) → run c a (s, t) ≡ (effect c a s, t))
      → t.head ≡ x
      → run_task run (s, t) ≡ (
        effect (t.callback x) (t.arg x) s,
        record (take_task t) { current_priority = t.current_priority },
      )
  unfolding run_task
  run_task_quiet effect x quiet e =
      rw
        (quiet (t.callback t.head) (t.arg t.head) s
          (record (take_task t) { current_priority = t.priority t.head }))
        (ap
          (λ y. (
            effect (t.callback y) (t.arg y) s,
            record (take_task t) { current_priority = t.current_priority },
          ))
          e)

-- Nothing runs.
stays :
    {S : Type 0} {effect : ℕ → ℕ → S → S} {t : Tasks} {s : S} {queue free : List ℕ}
    {r : Option (S × Tasks)}
    → IsTasks t queue free
    → r ≡ some (s, t)
    → Each (λ x. t.priority x < t.current_priority) queue
    → Drained effect t s queue r
unfolding performed
stays {t} {queue} {free} w e low = record {
  after = t;
  ran = [];
  left = queue;
  free = free;
  result = e;
  parts = refl;
  urgent = tt;
  low = low;
  valid = w;
  current_is = refl;
}

-- The first task runs, and then what is left of the queue.
runs_first :
    {S : Type 0} {effect : ℕ → ℕ → S → S} {t : Tasks} {s : S} {x : ℕ} {queue : List ℕ}
    {r : Option (S × Tasks)}
    → t.current_priority ≤ t.priority x
    → Drained effect
        (record (take_task t) { current_priority = t.current_priority })
        (effect (t.callback x) (t.arg x) s)
        queue
        r
    → Drained effect t s (x ∷ queue) r
unfolding take_task task_free_node performed
runs_first {x} le d = record {
  after = d.after;
  ran = x ∷ d.ran;
  left = d.left;
  free = d.free;
  result = d.result;
  parts = ap (λ xs. x ∷ xs) d.parts;
  urgent = (le, d.urgent);
  low = d.low;
  valid = d.valid;
  current_is = d.current_is;
}

-- When the callbacks leave the queue alone and there is fuel for each task and one round more,
-- run_pending_task returns; it has run exactly the tasks whose priority is at least the current one,
-- in the queue's order, and the others still wait.
pub run_pending_task-Drained :
    {S : Type 0} (run : ℕ → ℕ → S × Tasks → S × Tasks) (effect : ℕ → ℕ → S → S) (fuel : ℕ)
    (t : Tasks) (s : S) (queue free : List ℕ)
    → ((c a : ℕ) (s : S) (t : Tasks) → run c a (s, t) ≡ (effect c a s, t))
    → IsTasks t queue free
    → length queue < fuel
    → Drained effect t s queue (run_pending_task run fuel (s, t))
run_pending_task-Drained run effect zero t s queue free quiet w enough = absurd (omega arith)
run_pending_task-Drained run effect (suc fuel) t s [] free quiet w enough =
    stays w (run-returns run fuel s t (inl (ground (arith, w.queued)))) tt
run_pending_task-Drained run effect (suc fuel) t s (x ∷ queue) free quiet w enough =
    elim (Bool-cases (ltb (t.priority x) t.current_priority)) [
      | inl stop ↦
          stays w (run-returns run fuel s t (inr (rw w.queued.0 stop)))
            (ltb→lt _ _ stop, Each-map queue (λ y h. ground (arith, stop, h)) w.ordered.0)
      | inr go ↦
          let rest =
            run_pending_task-Drained run effect fuel
              (record (take_task t) { current_priority = t.current_priority })
              (effect (t.callback x) (t.arg x) s) queue (x ∷ free) quiet
              (take_task-IsTasks x t.current_priority w) (omega arith) in
          rw
            (
              run-continues run fuel s t (ground (arith, w.queued)) (rw w.queued.0 go),
              run_task_quiet run fuel s t effect x quiet w.queued.0,
            )
            (runs_first (ground (arith, go)) rest)
    ]
