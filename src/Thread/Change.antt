-- ===== src/Thread/Change.antt =====
-- What the operations of lab6/OrangePiVer/Src/thread.c that change the run queue do to it.
use mathlib.Core.Path.{subst, fun_ext}
use native.Mathlib.Decide.{ℕ_discrete}
use nycu_osc_lab.Prelude.{
  ℕ, ◌+◌, ◌-◌, ◌≤◌, ◌<◌, ◌≡◌, ◌≢◌, refl, sym, ap, ◌∙◌, Bool, true, false, ◌==◌, if◌then◌else◌,
  update, arith, ==_ne,
}
use nycu_osc_lab.Thread.State.{TaskPtr, running, Threads, is_runnable_state}
use nycu_osc_lab.Thread.{unlink, runq_remove}
use nycu_osc_lab.Thread.Queue.{IsQueue, IsQueue-add, IsQueue-remove, find_prev_lem}
use nycu_osc_lab.Thread.Wf.{on, count, count-le, count-add, count-remove, Wf, Sound, sound}
use nycu_osc_lab.Thread.Schedule.{in_pool}

IsQueue-congr :
    {f g : TaskPtr → TaskPtr} {x y : TaskPtr} {a b : TaskPtr → Bool} {pos : TaskPtr → ℕ} {n : ℕ}
    → ((p : TaskPtr) → g p ≡ f p)
    → y ≡ x
    → ((p : TaskPtr) → b p ≡ a p)
    → IsQueue f x a pos n
    → IsQueue g y b pos n
IsQueue-congr {f} {g} {x} {y} {a} {b} {pos} {n} h e k q =
    subst (λ u. IsQueue u y b pos n) (sym (fun_ext h))
      (subst (λ u. IsQueue f u b pos n) (sym e)
        (subst (λ u. IsQueue f x u pos n) (sym (fun_ext k)) q))

-- `t'` is `t` with the task `x` at the end of the queue.
pub record Joins (t t' : Threads) (x : TaskPtr) : Type 0 where
  pub next :
      (p : TaskPtr)
      → t'.next p ≡ update (update t.next x (t.next t.run_queue_tail)) t.run_queue_tail x p
  pub tail : t'.run_queue_tail ≡ x
  pub on : (p : TaskPtr) → is_runnable_state (t'.state p) ≡ update (on t) x true p
  pub idle : t'.idle_task ≡ t.idle_task
  pub current_runs : t'.state t'.current ≡ running
  pub only : (p : TaskPtr) → t'.state p ≡ running → p ≡ t'.current

pub Joins-Wf :
    {t t' : Threads} {pos : TaskPtr → ℕ} {n : ℕ} {x : TaskPtr}
    → Wf t pos n
    → on t x ≡ false
    → 0 < x
    → x ≤ 16
    → Joins t t' x
    → Wf t' (update pos x n) (n + 1)
Joins-Wf {t} {t'} {pos} {n} {x} w new lo hi j = record {
  queue = IsQueue-congr j.next j.tail j.on (IsQueue-add w.queue x new lo hi);
  counted =
      ap (count 16) (fun_ext j.on) ∙ omega (arith, count-add 16 x (on t) lo hi new, w.counted);
  idle_is = omega (arith, j.idle, w.idle_is);
  idle_on = j.on 1 ∙ ground (arith, w.idle_on);
  current_runs = j.current_runs;
  only = j.only;
}

-- `t'` is `t` without the task `x` in the queue, where `r` stands before `x`.
pub record Leaves (t t' : Threads) (x r : TaskPtr) : Type 0 where
  pub next : (p : TaskPtr) → t'.next p ≡ update (update t.next r (t.next x)) x 0 p
  pub tail : t'.run_queue_tail ≡ (if t.run_queue_tail == x then r else t.run_queue_tail)
  pub on : (p : TaskPtr) → is_runnable_state (t'.state p) ≡ update (on t) x false p
  pub idle : t'.idle_task ≡ t.idle_task
  pub current_runs : t'.state t'.current ≡ running
  pub only : (p : TaskPtr) → t'.state p ≡ running → p ≡ t'.current

-- `r` stands before `x`.
pub record Before (t : Threads) (x r : TaskPtr) : Type 0 where
  pub on_r : on t r ≡ true
  pub apart : r ≢ x
  pub link : t.next r ≡ x

pub Leaves-Sound :
    {t t' : Threads} {pos : TaskPtr → ℕ} {n : ℕ} {x r : TaskPtr}
    → Wf t pos n
    → on t x ≡ true
    → x ≢ 1
    → Before t x r
    → Leaves t t' x r
    → Sound t'
Leaves-Sound {t} {t'} {pos} {n} {x} {r} w h other b l = sound (record {
  queue = IsQueue-congr l.next l.tail l.on (IsQueue-remove w.queue x r h b.on_r b.apart b.link);
  counted = ap (count 16) (fun_ext l.on) ∙ fewer;
  idle_is = omega (arith, l.idle, w.idle_is);
  idle_on = l.on 1 ∙ ground (arith, w.idle_on);
  current_runs = l.current_runs;
  only = l.only;
})
  where
    fewer : count 16 (update (on t) x false) ≡ n - 1
    fewer =
        let (lo, hi) = w.queue.pool x h in
        omega (arith, count-remove 16 x (on t) lo hi h, w.counted)

-- The queue has a task besides `x`, the idle task, so `x` is not its own successor.
next_moves :
    {t : Threads} {pos : TaskPtr → ℕ} {n : ℕ} (x : TaskPtr)
    → Wf t pos n
    → on t x ≡ true
    → x ≢ 1
    → t.next x ≢ x
next_moves {t} {pos} {n} x w h other e = elim (ℕ_discrete x t.run_queue_tail) [
  | yes last ↦
      let first : pos x ≡ 0 = ap pos (sym e) ∙ (ap (λ u. pos (t.next u)) last ∙ w.queue.wraps.1) in
      let one : pos x + 1 ≡ n = ap (λ u. pos u + 1) last ∙ w.queue.tail_last in
      let idle_in = w.queue.within 1 w.idle_on in
      other (w.queue.apart x 1 h w.idle_on (omega arith))
  | no ne ↦
      let step = (w.queue.links x h ne).1 in
      let stays : pos (t.next x) ≡ pos x = ap pos e in absurd (omega arith)
]

-- runq_remove takes a task of the queue out of its place.
pub runq_remove-unlink :
    {t : Threads} {pos : TaskPtr → ℕ} {n : ℕ} (x : TaskPtr)
    → Wf t pos n
    → on t x ≡ true
    → x ≢ 1
    → (r : TaskPtr) × Before t x r × (runq_remove x t ≡ unlink r x t)
unfolding runq_remove
runq_remove-unlink {t} {pos} {n} x w h other =
    let few = count-le 16 (on t) in
    let inside = w.queue.within x h in
    let size = w.counted in
    let (r, found, on_r, link) =
      find_prev_lem w.queue 16 (pos x) x t.run_queue_tail h w.queue.tail_on
        (omega (arith, w.queue.wraps.1)) (omega arith) in
    let moves = next_moves x w h other in
    let a : (t.run_queue_tail == 0) ≡ false =
      ==_ne _ _ (in_pool w t.run_queue_tail w.queue.tail_on) in
    let b : (x == 0) ≡ false = ==_ne _ _ (in_pool w x h) in
    let c : (t.next x == x) ≡ false = ==_ne _ _ moves in
    (
      r,
      record { on_r = on_r; apart = λ e. moves (ap t.next (sym e) ∙ link); link = link },
      rw (a, b, c, found) refl,
    )
