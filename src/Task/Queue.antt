-- ===== src/Task/Queue.antt =====
-- add_task of lab6/OrangePiVer/Src/task.c: the queue is a list in order of priority.
use nycu_osc_lab.Prelude.{
  ℕ, ◌+◌, ◌≤◌, ◌≡◌, ◌≢◌, ◌↔◌, ◌⊎◌, refl, inl, inr, Bool, true, false, ◌||◌, ltb, leb, ◌==◌, update,
  none, some, List, [], ◌∷◌, length, Bool-cases, arith,
}
use native.Mathlib.Decide.{ℕ_discrete}
use nycu_osc_lab.Prelude.Chains.{
  Chain, NotIn, Nodup, Disjoint, Chain-update, insert, walk, link_after,
}
use nycu_osc_lab.Prelude.Inserts.{
  Ordered, Chain-insert_front, Chain-insert_behind, Nodup-insert, Disjoint-insert, length-insert,
  Ordered-insert, Ordered-update, Chain-Each, Disjoint-Each,
}
use nycu_osc_lab.Task.{Tasks, task_alloc_node, add_task}

-- The tasks of the list wait, the first one to run first, and the nodes of the other list are free.
pub record IsTasks (t : Tasks) (queue free : List ℕ) : Type 0 where
  pub queued : Chain t.next t.head queue
  pub unused : Chain t.next t.free_list free
  pub once : Nodup queue
  pub free_once : Nodup free
  pub apart : Disjoint free queue
  pub total : length queue + length free ≡ 64
  pub ordered : Ordered (λ x y. t.priority y ≤ t.priority x) queue

-- What add_task changes besides the links.
pub record Added (t t' : Tasks) (n callback arg priority : ℕ) : Type 0 where
  pub priority_is : t'.priority ≡ update t.priority n priority
  pub callback_is : t'.callback ≡ update t.callback n callback
  pub arg_is : t'.arg ≡ update t.arg n arg
  pub current_is : t'.current_priority ≡ t.current_priority

module _ {t : Tasks} {queue free : List ℕ} (n callback arg priority : ℕ)
    (w : IsTasks t queue (n ∷ free)) where
  -- The state after the node is taken from the pool and filled in.
  abbrev pub filled : Tasks
  filled = record t {
    free_list = t.next n;
    priority = update t.priority n priority;
    callback = update t.callback n callback;
    arg = update t.arg n arg;
    next = update (update t.next n 0) n 0;
  }

  abbrev pub before : ℕ → Bool
  before x = leb priority (filled.priority x)

  fresh : NotIn n queue
  fresh = w.apart.0

  filled_queue : Chain filled.next t.head queue
  filled_queue =
      Chain-update (update t.next n 0) n 0 t.head queue
        (Chain-update t.next n 0 t.head queue w.queued fresh) fresh

  filled_free : Chain filled.next (t.next n) free
  filled_free =
      Chain-update (update t.next n 0) n 0 (t.next n) free
        (Chain-update t.next n 0 (t.next n) free w.unused.2 w.free_once.0) w.free_once.0

  filled-Ordered : Ordered (λ x y. filled.priority y ≤ filled.priority x) queue
  filled-Ordered = Ordered-update (λ p q. q ≤ p) t.priority n priority queue fresh w.ordered

  added_once : Nodup (insert before n queue)
  added_once = Nodup-insert before n queue fresh w.once

  added-Ordered : Ordered (λ x y. filled.priority y ≤ filled.priority x) (insert before n queue)
  added-Ordered =
      Ordered-insert before n (λ x y. filled.priority y ≤ filled.priority x) queue
        (λ x b. ground (arith, b)) (λ x b. ground (arith, b)) (λ x y h h'. omega (arith, h, h'))
        filled-Ordered

  -- Either way the rest of the invariant is the same.
  IsTasks-added :
      (f : ℕ → ℕ) (h : ℕ)
      → Chain f h (insert before n queue)
      → Chain f (t.next n) free
      → IsTasks (record filled { next = f; head = h }) (insert before n queue) free
  IsTasks-added f h c c' = record {
    queued = c;
    unused = c';
    once = added_once;
    free_once = w.free_once.1;
    apart = Disjoint-insert before n free queue w.free_once.0 w.apart.1;
    total = omega (arith, w.total, length-insert before n queue);
    ordered = added-Ordered;
  }

  abbrev pub front : Tasks
  front = record filled { next = update filled.next n t.head; head = n }

  abbrev pub behind : Tasks
  behind = record filled { next = link_after filled.next n (walk 65 filled.next before t.head) }

  front-IsTasks :
      ((t.head == 0) ≡ true) ⊎ (before t.head ≡ false) → IsTasks front (insert before n queue) free
  front-IsTasks h =
      IsTasks-added front.next n
        (Chain-insert_front filled.next before n t.head w.unused.1 queue filled_queue fresh h)
        (Chain-update filled.next n t.head (t.next n) free filled_free w.free_once.0)

  behind-IsTasks :
      (t.head == 0) ≡ false → before t.head ≡ true → IsTasks behind (insert before n queue) free
  behind-IsTasks full b =
      let done =
        Chain-insert_behind filled.next before n t.head w.unused.1 65 queue filled_queue w.once
          fresh (omega (arith, w.total)) full b in
      IsTasks-added behind.next t.head done.0 (
        Chain-Each behind.next filled.next (t.next n) free
          (Disjoint-Each (λ a. behind.next a ≡ filled.next a) n free queue w.free_once.0 w.apart.1
            done.1)
          filled_free)

-- With a callback and a free node, add_task succeeds: the node joins the queue behind the tasks whose
-- priority is not lower and in front of the others, so the queue stays in order of priority and first
-- come, first served among equals; the node gets the callback, the argument and the priority, and no
-- other task changes.
pub add_task-IsTasks :
    {t : Tasks} {queue free : List ℕ} (n callback arg priority : ℕ)
    → callback ≢ 0
    → IsTasks t queue (n ∷ free)
    → (t' : Tasks) × (add_task callback arg priority t ≡ some t')
      × IsTasks t' (insert (λ x. leb priority (t'.priority x)) n queue) free
      × Added t t' n callback arg priority
unfolding add_task task_alloc_node
add_task-IsTasks {t} {queue} {free} n callback arg priority nz w =
    let given : (callback == 0) ≡ false = ground arith in
    let found : (n == 0) ≡ false = ground (arith, w.unused.1) in
    elim (Bool-cases
      ((t.head == 0) || ltb ((filled n callback arg priority w).priority t.head) priority)) [
        | inl first ↦ (
          front n callback arg priority w,
          rw (given, w.unused.0, found, first) refl,
          front-IsTasks n callback arg priority w (ground (arith, first)),
          record { priority_is = refl; callback_is = refl; arg_is = refl; current_is = refl },
        )
        | inr later ↦ (
          behind n callback arg priority w,
          rw (given, w.unused.0, found, later) refl,
          behind-IsTasks n callback arg priority w (ground (arith, later)) (ground (arith, later)),
          record { priority_is = refl; callback_is = refl; arg_is = refl; current_is = refl },
        )
      ]

-- add_task fails exactly when it is given no callback or every node is in the queue.
pub add_task-fails :
    {t : Tasks} {queue free : List ℕ} (callback arg priority : ℕ)
    → IsTasks t queue free
    → (add_task callback arg priority t ≡ none) ↔ ((callback ≡ 0) ⊎ (free ≡ []))
unfolding add_task task_alloc_node
add_task-fails {t} {queue} {free = []} callback arg priority w =
    (λ e. inr refl, λ h. ground (arith, w.unused))
add_task-fails {t} {queue} {free = n ∷ free} callback arg priority w = (there, back)
  where
    there : add_task callback arg priority t ≡ none → (callback ≡ 0) ⊎ (n ∷ free ≡ [])
    there e = elim (ℕ_discrete callback 0) [
      | yes z ↦ inl z
      | no nz ↦
          let done = add_task-IsTasks n callback arg priority nz w in
          absurd (ground (arith, e, done.1))
    ]

    back : (callback ≡ 0) ⊎ (n ∷ free ≡ []) → add_task callback arg priority t ≡ none
    back (inl z) = ground (arith, z)
    back (inr e) = ground (arith, e)
