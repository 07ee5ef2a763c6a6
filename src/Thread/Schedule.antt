-- ===== src/Thread/Schedule.antt =====
-- schedule of lab6/OrangePiVer/Src/thread.c: round robin.
use mathlib.Core.Path.{subst}
use native.Mathlib.Decide.{ℕ_discrete, dec_le}
use nycu_osc_lab.Prelude.{
  ℕ, zero, suc, ◌+◌, ◌-◌, ◌<◌, ◌≡◌, ◌≢◌, refl, sym, ap, ◌∙◌, ◌⊎◌, inl, inr, true, false, ◌==◌,
  if◌then◌else◌, update, Bool-cases, arith,
}
use nycu_osc_lab.Thread.State.{TaskPtr, runnable, running, Threads, is_runnable_state}
use nycu_osc_lab.Thread.{is_runnable, pick_loop, pick_next, schedule}
use nycu_osc_lab.Thread.Wf.{on, count, Wf, Sound, sound, SameQueue, SameQueue-Wf}

-- The search stops at once where the next task may run.
pick_next_first :
    (p : TaskPtr) (t : Threads)
    → t.next p ≢ 0
    → is_runnable_state (t.state (t.next p)) ≡ true
    → pick_next p t ≡ t.next p
unfolding pick_next pick_loop is_runnable
pick_next_first p t nz h =
    let found : (t.next p == 0) ≡ false = ground arith in
    elim (Bool-cases (t.next p == p)) [
      | inl same ↦ let e : t.next p ≡ p = ground (arith, same) in rw same (sym e)
      | inr other ↦ rw (other, found, h) refl
    ]

-- What schedule does with the task that it picks.
abbrev pub switched : TaskPtr → Threads → Threads
switched x t =
    if x == t.current
    then t
    else record t { state = update (update t.state t.current runnable) x running; current = x }

schedule-switched :
    (x : TaskPtr) (t : Threads)
    → t.current ≢ 0
    → t.run_queue_tail ≢ 0
    → t.state t.current ≡ running
    → pick_next t.current t ≡ x
    → schedule t ≡ switched x t
unfolding schedule
schedule-switched x t a b r e =
    let a' : (t.current == 0) ≡ false = ground arith in
    let b' : (t.run_queue_tail == 0) ≡ false = ground arith in rw (a', b', e, r) refl

switched-SameQueue :
    (x : TaskPtr) (t : Threads)
    → t.state t.current ≡ running
    → is_runnable_state (t.state x) ≡ true
    → ((p : TaskPtr) → t.state p ≡ running → p ≡ t.current)
    → SameQueue t (switched x t)
switched-SameQueue x t r h one = elim (Bool-cases (x == t.current)) [
  | inl same ↦ rw same (record {
    next = λ p. refl;
    tail = refl;
    on = λ p. refl;
    idle = refl;
    current_runs = r;
    only = one;
  })
  | inr other ↦ rw other (record {
    next = λ p. refl;
    tail = refl;
    on = λ p. ground (arith, other, r, h);
    idle = refl;
    current_runs = ground arith;
    only = λ p g. ground (arith, one p, g);
  })
]

pub current_on : (t : Threads) → t.state t.current ≡ running → on t t.current ≡ true
current_on t r = rw r refl

-- Who stands behind a task that may run.
pub next_on :
    {t : Threads} {pos : TaskPtr → ℕ} {n : ℕ} (p : TaskPtr)
    → Wf t pos n
    → on t p ≡ true
    → on t (t.next p) ≡ true
next_on {t} p w h = elim (ℕ_discrete p t.run_queue_tail) [
  | yes e ↦ ap (λ x. on t (t.next x)) e ∙ w.queue.wraps.0
  | no ne ↦ (w.queue.links p h ne).0
]

module _ {t : Threads} {pos : TaskPtr → ℕ} {n : ℕ} (w : Wf t pos n) where
  pub in_pool : (p : TaskPtr) → on t p ≡ true → p ≢ 0
  in_pool p h e = omega (arith, w.queue.pool p h, e)

  -- Every task of the queue may run, so the search stops at the first one.
  pub pick_next-next : (p : TaskPtr) → on t p ≡ true → pick_next p t ≡ t.next p
  pick_next-next p h = pick_next_first p t (in_pool (t.next p) (next_on p w h)) (next_on p w h)

  schedule_form : schedule t ≡ switched (t.next t.current) t
  schedule_form =
      schedule-switched (t.next t.current) t (in_pool t.current (current_on t w.current_runs))
        (in_pool t.run_queue_tail w.queue.tail_on) w.current_runs
        (pick_next-next t.current (current_on t w.current_runs))

  -- schedule keeps the invariant, with every task at its place in the queue.
  pub schedule-Wf : Wf (schedule t) pos n
  schedule-Wf =
      subst (λ u. Wf u pos n) (sym schedule_form)
        (SameQueue-Wf
          (switched-SameQueue (t.next t.current) t w.current_runs
            (next_on t.current w (current_on t w.current_runs)) w.only)
          w)

  -- The CPU goes to the next task of the queue.
  pub schedule-next : (schedule t).current ≡ t.next t.current
  schedule-next = ap (λ u. u.current) schedule_form ∙ ground arith

  schedule-links : (schedule t).next ≡ t.next
  schedule-links = ap (λ u. u.next) schedule_form ∙ ground arith

  schedule-on : (p : TaskPtr) → on (schedule t) p ≡ on t p
  schedule-on p =
      subst (λ u. on u p ≡ on t p) (sym schedule_form)
        ((switched-SameQueue (t.next t.current) t w.current_runs
            (next_on t.current w (current_on t w.current_runs)) w.only).on
          p)

-- Calls of schedule, one after the other.
pub rounds : ℕ → Threads → Threads
rounds zero t = t
rounds (suc k) t = rounds k (schedule t)

-- How far the task at place `b` is behind the one at place `a`.
abbrev Behind : ℕ → ℕ → ℕ → ℕ → Type 0
Behind n a b d = (b ≡ a + d) ⊎ (b + n ≡ a + d)

-- One call brings the CPU one place nearer.
Behind-next :
    {t : Threads} {pos : TaskPtr → ℕ} {n : ℕ} (p : TaskPtr) (d : ℕ)
    → Wf t pos n
    → on t p ≡ true
    → Behind n (pos t.current) (pos p) (suc d)
    → Behind n (pos (t.next t.current)) (pos p) d
Behind-next {t} {pos} {n} p d w h b =
    let in_range = w.queue.within p h in
    let c = current_on t w.current_runs in
    elim (ℕ_discrete t.current t.run_queue_tail) [
      | yes e ↦
          let last : pos t.current + 1 ≡ n = ap (λ x. pos x + 1) e ∙ w.queue.tail_last in
          let start : pos (t.next t.current) ≡ 0 = ap (λ x. pos (t.next x)) e ∙ w.queue.wraps.1 in
          wrap b in_range last start
      | no ne ↦ let step = (w.queue.links t.current c ne).1 in onward b step
    ]
  where
    wrap :
        Behind n (pos t.current) (pos p) (suc d)
        → pos p < n
        → pos t.current + 1 ≡ n
        → pos (t.next t.current) ≡ 0
        → Behind n (pos (t.next t.current)) (pos p) d
    wrap (inl e) lt last start = absurd (omega arith)
    wrap (inr e) lt last start = inl (omega arith)

    onward :
        Behind n (pos t.current) (pos p) (suc d)
        → pos (t.next t.current) ≡ pos t.current + 1
        → Behind n (pos (t.next t.current)) (pos p) d
    onward (inl e) step = inl (omega arith)
    onward (inr e) step = inr (omega arith)

Behind-zero :
    {t : Threads} {pos : TaskPtr → ℕ} {n : ℕ} (p : TaskPtr)
    → Wf t pos n
    → on t p ≡ true
    → Behind n (pos t.current) (pos p) 0
    → t.current ≡ p
Behind-zero {t} p w h (inl e) =
    w.queue.apart t.current p (current_on t w.current_runs) h (omega (arith, e))
Behind-zero {t} p w h (inr e) =
    absurd (omega (arith, e, w.queue.within t.current (current_on t w.current_runs)))

rounds-Behind :
    (d : ℕ) (t : Threads) {pos : TaskPtr → ℕ} {n : ℕ} (p : TaskPtr)
    → Wf t pos n
    → on t p ≡ true
    → Behind n (pos t.current) (pos p) d
    → (rounds d t).current ≡ p
unfolding rounds
rounds-Behind zero t p w h b = Behind-zero p w h b
rounds-Behind (suc d) t {pos} {n} p w h b =
    rounds-Behind d (schedule t) p (schedule-Wf w) (schedule-on w p ∙ h)
      (subst (λ x. Behind n (pos x) (pos p) d) (sym (schedule-next w)) (Behind-next p d w h b))

rounds-within :
    {t : Threads} {pos : TaskPtr → ℕ} {n : ℕ} (p : TaskPtr)
    → Wf t pos n
    → on t p ≡ true
    → (k : ℕ) × (k < n) × ((rounds k t).current ≡ p)
rounds-within {t} {pos} {n} p w h =
    let c = w.queue.within t.current (current_on t w.current_runs) in
    let q = w.queue.within p h in
    elim (dec_le (pos t.current) (pos p)) [
      | yes le ↦ (pos p - pos t.current, omega arith, rounds-Behind _ t p w h (inl (omega arith)))
      | no gt ↦
          (pos p + n - pos t.current, omega arith, rounds-Behind _ t p w h (inr (omega arith)))
    ]

-- In a state with the invariant, every task that may run gets the CPU after fewer calls of schedule than there are such tasks, when
-- the tasks that run meanwhile only give the CPU up.
pub rounds-current :
    {t : Threads} (p : TaskPtr)
    → Sound t
    → on t p ≡ true
    → (k : ℕ) × (k < count 16 (on t)) × ((rounds k t).current ≡ p)
rounds-current {t} p (sound w) h =
    let (k, lt, e) = rounds-within p w h in (k, omega (arith, w.counted), e)
