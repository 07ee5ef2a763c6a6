-- ===== src/Thread/Find.antt =====
-- task_find_by_pid of lab6/OrangePiVer/Src/thread.c.
use native.Mathlib.Decide.{ℕ_discrete}
use nycu_osc_lab.Prelude.{
  ℕ, zero, suc, ◌+◌, ◌≤◌, ◌<◌, ◌≡◌, ◌≢◌, refl, ◌⊎◌, inl, inr, Bool, true, false, ◌==◌, not, ◌&&◌,
  Bool-cases, arith,
}
use nycu_osc_lab.Thread.State.{
  TaskPtr, TaskState, unused, runnable, running, zombie, Threads, is_unused, sign_extend,
}
use nycu_osc_lab.Thread.{find_scan, task_find_by_pid}

-- The entry has a task, and it has the pid.
abbrev has_pid : ℕ → Threads → TaskPtr → Bool
has_pid pid t p = not (is_unused (t.state p)) && (sign_extend (t.pid p) == pid)

find_scan_lem :
    (left i pid : ℕ) (t : Threads)
    → ((find_scan left i pid t ≡ 0)
        × ((p : TaskPtr) → i < p → p ≤ i + left → has_pid pid t p ≡ false))
      ⊎ ((i < find_scan left i pid t)
          × (find_scan left i pid t ≤ i + left)
          × (has_pid pid t (find_scan left i pid t) ≡ true)
          × ((p : TaskPtr) → i < p → p < find_scan left i pid t → has_pid pid t p ≡ false))
unfolding find_scan
find_scan_lem zero i pid t = inl (refl, λ p lo hi. absurd (omega arith))
find_scan_lem (suc left) i pid t = elim (Bool-cases (has_pid pid t (1 + i))) [
  | inl found ↦ rw found (inr (omega arith, omega arith, found, λ p lo hi. absurd (omega arith)))
  | inr other ↦ rw other (elim (find_scan_lem left (i + 1) pid t) [
    | inl (e, all) ↦ inl (
      e,
      λ p lo hi. elim (ℕ_discrete p (1 + i)) [
        | yes at_i ↦ rw at_i other
        | no ne ↦ all p (omega arith) (omega arith)
      ],
    )
    | inr (lo, hi, found, all) ↦ inr (
      omega arith,
      omega arith,
      found,
      λ p a b. elim (ℕ_discrete p (1 + i)) [
        | yes at_i ↦ rw at_i other
        | no ne ↦ all p (omega arith) b
      ],
    )
  ])
]

-- task_find_by_pid returns the first task of the table that has the pid, or NULL when none has it.
pub task_find_by_pid_lem :
    (pid : ℕ) (t : Threads)
    → let x = task_find_by_pid pid t in
      ((x ≡ 0) × ((p : TaskPtr) → 0 < p → p ≤ 16 → has_pid pid t p ≡ false))
      ⊎ ((0 < x)
          × (x ≤ 16)
          × (has_pid pid t x ≡ true)
          × ((p : TaskPtr) → 0 < p → p < x → has_pid pid t p ≡ false))
unfolding task_find_by_pid
task_find_by_pid_lem pid t = find_scan_lem 16 0 pid t

-- The entry has a task with the pid, which is compared as a long.
abbrev pub HasPid : ℕ → Threads → TaskPtr → Type 0
HasPid pid t p = (t.state p ≢ unused) × (sign_extend (t.pid p) ≡ pid)

-- `x` is the first task of the table with the pid, or NULL when there is none.
abbrev pub FirstWith : ℕ → Threads → TaskPtr → Type 0
FirstWith pid t x =
    ((x ≡ 0) × ((p : TaskPtr) → 0 < p → p ≤ 16 → HasPid pid t p → ⊥))
    ⊎ ((0 < x) × (x ≤ 16) × HasPid pid t x × ((p : TaskPtr) → 0 < p → p < x → HasPid pid t p → ⊥))

used_ne : (s : TaskState) → is_unused s ≡ false → s ≢ unused
used_ne unused h e = cc h
used_ne runnable h e = cc e
used_ne running h e = cc e
used_ne zombie h e = cc e

ne_used : (s : TaskState) → s ≢ unused → is_unused s ≡ false
ne_used unused h = absurd (h refl)
ne_used runnable h = refl
ne_used running h = refl
ne_used zombie h = refl

has_pid-HasPid : (pid : ℕ) (t : Threads) (p : TaskPtr) → has_pid pid t p ≡ true → HasPid pid t p
has_pid-HasPid pid t p h = (used_ne (t.state p) (ground (arith, h)), ground (arith, h))

no_HasPid : (pid : ℕ) (t : Threads) (p : TaskPtr) → has_pid pid t p ≡ false → HasPid pid t p → ⊥
no_HasPid pid t p h (u, e) = let used = ne_used (t.state p) u in ground (arith, h, used, e)

pub task_find_by_pid-FirstWith : (pid : ℕ) (t : Threads) → FirstWith pid t (task_find_by_pid pid t)
task_find_by_pid-FirstWith pid t = elim (task_find_by_pid_lem pid t) [
  | inl (e, all) ↦ inl (e, λ p lo hi. no_HasPid pid t p (all p lo hi))
  | inr (lo, hi, here, first) ↦ inr (
    lo,
    hi,
    has_pid-HasPid pid t (task_find_by_pid pid t) here,
    λ p a b. no_HasPid pid t p (first p a b),
  )
]
