-- ===== src/Thread/Queue.antt =====
-- The circular run queue of lab6/OrangePiVer/Src/thread.c: what its insertions, its removals and its
-- search do to the order of the tasks.
use native.Mathlib.Decide.{ℕ_discrete}
use nycu_osc_lab.Prelude.{
  ℕ, zero, suc, ◌+◌, ◌-◌, ◌≤◌, ◌<◌, ◌≡◌, ◌≢◌, refl, Bool, true, false, ltb, ◌==◌, if◌then◌else◌,
  update, some, arith,
}
use nycu_osc_lab.Thread.{TaskPtr, find_prev}

-- The tasks for which `on` holds stand in the queue at the places `pos`, the tail at the last one:
-- `next` leads from each to the one behind it, and from the tail to the first.
pub record IsQueue (next : TaskPtr → TaskPtr) (tail : TaskPtr) (on : TaskPtr → Bool)
    (pos : TaskPtr → ℕ) (n : ℕ) : Type 0 where
  pub tail_last : pos tail + 1 ≡ n
  pub tail_on : on tail ≡ true
  pub links :
      (p : TaskPtr) → on p ≡ true → p ≢ tail → (on (next p) ≡ true) × (pos (next p) ≡ pos p + 1)
  pub wraps : (on (next tail) ≡ true) × (pos (next tail) ≡ 0)
  pub apart : (p q : TaskPtr) → on p ≡ true → on q ≡ true → pos p ≡ pos q → p ≡ q
  pub within : (p : TaskPtr) → on p ≡ true → pos p < n
  pub pool : (p : TaskPtr) → on p ≡ true → (0 < p) × (p ≤ 16)
  pub off : (p : TaskPtr) → on p ≡ false → next p ≡ 0

module _ {next : TaskPtr → TaskPtr} {tail : TaskPtr} {on : TaskPtr → Bool} {pos : TaskPtr → ℕ}
    {n : ℕ} (q : IsQueue next tail on pos n) where
  -- A new task goes behind the tail.
  pub IsQueue-add :
      (x : TaskPtr)
      → on x ≡ false
      → 0 < x
      → x ≤ 16
      → IsQueue
          (update (update next x (next tail)) tail x)
          x
          (update on x true)
          (update pos x n)
          (n + 1)
  IsQueue-add x new lo hi = record {
    tail_last = ground arith;
    tail_on = ground arith;
    links = λ p h ne. ground (arith, q.links p, q.tail_last, q.tail_on, q.off);
    wraps = ground (arith, q.wraps, q.tail_on);
    apart = λ a b ha hb e. ground (arith, q.apart a b, q.within a, q.within b);
    within = λ p h. ground (arith, q.within p);
    pool = λ p h. ground (arith, q.pool p);
    off = λ p h. ground (arith, q.off p, q.tail_on);
  }

  -- What stands before a task.
  before : (p : TaskPtr) → on p ≡ true → on (next p) ≡ true
  before p h = elim (ℕ_discrete p tail) [
    | yes e ↦ ground (arith, e, q.wraps)
    | no ne ↦ (q.links p h ne).0
  ]

  -- A task leaves the queue.
  module _ (x r : TaskPtr) (on_x : on x ≡ true) (on_r : on r ≡ true) (ne : r ≢ x)
      (e : next r ≡ x) where
    abbrev pub closer : TaskPtr → ℕ
    closer p = if ltb (pos x) (pos p) then pos p - 1 else pos p

    abbrev pub left_tail : TaskPtr
    left_tail = if tail == x then r else tail

    abbrev pub unlinked : TaskPtr → TaskPtr
    unlinked = update (update next r (next x)) x 0

    -- Where `x` stands, next to `r` and to the tail.
    behind_r : r ≢ tail → pos x ≡ pos r + 1
    behind_r h = ground (arith, q.links r on_r h, e)

    first : r ≡ tail → pos x ≡ 0
    first h = ground (arith, q.wraps, e, h)

    inner : x ≢ tail → pos x < pos tail
    inner h = ground (arith, q.apart x tail, q.within x, q.tail_last, q.tail_on)

    last : x ≡ tail → pos x + 1 ≡ n
    last h = ground (arith, h, q.tail_last)

    moves_on : next x ≢ x
    moves_on h = elim (ℕ_discrete x tail) [
      | yes t ↦ ground (arith, h, q.wraps, last t, q.within r on_r, q.apart r x on_r on_x)
      | no t ↦ ground (arith, h, q.links x on_x t)
    ]

    other : (p : TaskPtr) → on p ≡ true → p ≢ tail → p ≢ r → next p ≢ x
    other p h t t' e' = elim (ℕ_discrete r tail) [
      | yes u ↦ ground (arith, q.links p h t, first u)
      | no u ↦ ground (arith, q.links p h t, behind_r u, q.apart p r h on_r)
    ]

    new_wraps : (update on x false (unlinked left_tail) ≡ true) × (closer (unlinked left_tail) ≡ 0)
    new_wraps = elim (ℕ_discrete tail x) [
      | yes t ↦ ground (arith, t, q.wraps, moves_on, ne)
      | no t ↦ elim (ℕ_discrete r tail) [
        | yes u ↦ ground (arith, t, u, first u, moves_on, q.links x on_x)
        | no u ↦ ground (arith, t, u, q.wraps, other tail q.tail_on, behind_r u, e)
      ]
    ]

    new_links :
        (p : TaskPtr)
        → update on x false p ≡ true
        → p ≢ left_tail
        → (update on x false (unlinked p) ≡ true) × (closer (unlinked p) ≡ closer p + 1)
    new_links p h t = elim (ℕ_discrete p r) [
      | yes u ↦ ground (arith, u, t, behind_r, moves_on, q.links x on_x, ne)
      | no u ↦ ground (arith, u, t, q.links p, other p, q.apart p x)
    ]

    pub IsQueue-remove : IsQueue unlinked left_tail (update on x false) closer (n - 1)
    IsQueue-remove = record {
      tail_last = ground (arith, behind_r, inner, last, q.tail_last);
      tail_on = ground (arith, q.tail_on, on_r, ne);
      links = new_links;
      wraps = new_wraps;
      apart = λ a b ha hb e'. ground (arith, q.apart a b, q.apart a x, q.apart b x);
      within = λ p h. ground (arith, q.within p, q.within x, q.apart p x);
      pool = λ p h. ground (arith, q.pool p);
      off = λ p h. ground (arith, q.off p, on_r);
    }

  -- From a task `p`, the search finds what stands before `x`, which is `d` places behind `next p`.
  pub find_prev_lem :
      (fuel d : ℕ) (x p : TaskPtr)
      → on x ≡ true
      → on p ≡ true
      → pos (next p) + d ≡ pos x
      → d < fuel
      → (r : TaskPtr) × (find_prev fuel next tail x p ≡ some r) × (on r ≡ true) × (next r ≡ x)
  unfolding find_prev
  find_prev_lem zero d x p hx hp e h = absurd (omega arith)
  find_prev_lem (suc fuel) zero x p hx hp e h =
      let here : next p ≡ x = q.apart (next p) x (before p hp) hx (omega arith) in
      let t : (next p == x) ≡ true = ground arith in (p, rw t refl, hp, here)
  find_prev_lem (suc fuel) (suc d) x p hx hp e h =
      let inside : pos x < n = q.within x hx in
      let far : (next p == x) ≡ false = ground arith in
      let more : (next p == tail) ≡ false = ground (arith, q.tail_last) in
      let step = q.links (next p) (before p hp) (ground arith) in
      rw (far, more) (find_prev_lem fuel d x (next p) hx (before p hp) (omega arith) (omega arith))
