-- ===== src/Thread/Reap.antt =====
-- kill_zombies of lab6/OrangePiVer/Src/thread.c: what its loop over the table does.
use mathlib.Core.Path.{subst}
use native.Mathlib.Decide.{ℕ_discrete, dec_lt, dec_le}
use nycu_osc_lab.Prelude.{
  ℕ, zero, suc, ◌+◌, ◌≤◌, ◌<◌, ◌≡◌, ◌≢◌, ◌↔◌, refl, sym, ◌∙◌, ◌⊎◌, inl, inr, Bool, true, false,
  ◌==◌, not, ◌&&◌, if◌then◌else◌, Bool-cases, arith, ==_iff,
}
use nycu_osc_lab.Thread.State.{
  TaskPtr, TaskState, unused, runnable, running, zombie, Threads, is_unused, is_zombie,
}
use nycu_osc_lab.Thread.{task_reap, awaited, reap_loop, kill_zombies}
use nycu_osc_lab.Thread.Wf.{Sound, sound}

-- A zombie that no user process may still wait for.
abbrev forgotten : Threads → TaskPtr → Bool
forgotten t p = is_zombie (t.state p) && not (awaited p t)

task_reap_other : (x p : TaskPtr) (t : Threads) → x ≢ p → (task_reap x t).state p ≡ t.state p
unfolding task_reap
task_reap_other x p t ne = ground arith

task_reap_unused :
    (x : TaskPtr) (t : Threads)
    → x ≢ 0
    → x ≢ t.idle_task
    → is_zombie (t.state x) ≡ true
    → (task_reap x t).state x ≡ unused
unfolding task_reap
task_reap_unused x t nz ni z = ground arith

task_reap-idle_task : (x : TaskPtr) (t : Threads) → (task_reap x t).idle_task ≡ t.idle_task
unfolding task_reap
task_reap-idle_task x t = ground arith

-- A reaped task was a zombie, and nobody's children were waiting for it.
task_reap-awaited : (x p : TaskPtr) (t : Threads) → x ≢ p → awaited p (task_reap x t) ≡ awaited p t
unfolding task_reap awaited
task_reap-awaited x p t ne = ground arith

-- One turn of the loop.
abbrev turn : TaskPtr → Threads → Threads
turn x t = if not (is_zombie (t.state x)) then t else if awaited x t then t else task_reap x t

turn-idle_task : (x : TaskPtr) (t : Threads) → (turn x t).idle_task ≡ t.idle_task
turn-idle_task x t = ground (arith, task_reap-idle_task x t)

turn_other :
    (x p : TaskPtr) (t : Threads)
    → x ≢ p
    → ((turn x t).state p ≡ t.state p) × (awaited p (turn x t) ≡ awaited p t)
turn_other x p t ne =
    let a = task_reap_other x p t ne in
    let b = task_reap-awaited x p t ne in
    elim (Bool-cases (is_zombie (t.state x))) [
      | inr lives ↦ rw lives (refl, refl)
      | inl dead ↦ elim (Bool-cases (awaited x t)) [
        | inl waits ↦ rw (dead, waits) (refl, refl)
        | inr free ↦ rw (dead, free) (a, b)
      ]
    ]

turn_lem :
    (x : TaskPtr) (t : Threads)
    → x ≢ 0
    → x ≢ t.idle_task
    → (turn x t).state x ≡ (if forgotten t x then unused else t.state x)
turn_lem x t nz ni = elim (Bool-cases (is_zombie (t.state x))) [
  | inr lives ↦ rw lives refl
  | inl dead ↦ elim (Bool-cases (awaited x t)) [
    | inl waits ↦ rw (dead, waits) refl
    | inr free ↦ rw (dead, free) (task_reap_unused x t nz ni dead)
  ]
]

-- The loop leaves an entry alone that it has not to go to,
reap_loop-out :
    (left i p : ℕ) (t : Threads)
    → (p ≤ i) ⊎ (i + left < p)
    → (reap_loop left i t).state p ≡ t.state p
unfolding reap_loop
reap_loop-out zero i p t h = refl
reap_loop-out (suc left) i p t h =
    let ne : 1 + i ≢ p = λ e. omega (arith, h) in
    reap_loop-out left (i + 1) p (turn (1 + i) t) (omega (arith, h)) ∙ (turn_other (1 + i) p t ne).0

-- and frees one that it comes to when it is a forgotten zombie's.
reap_loop-in :
    (left i p : ℕ) (t : Threads)
    → t.idle_task ≡ 1
    → 0 < i
    → i < p
    → p ≤ i + left
    → (reap_loop left i t).state p ≡ (if forgotten t p then unused else t.state p)
unfolding reap_loop
reap_loop-in zero i p t e pos lo hi = absurd (omega arith)
reap_loop-in (suc left) i p t e pos lo hi = elim (ℕ_discrete (1 + i) p) [
  | yes at_i ↦
      reap_loop-out left (i + 1) p (turn (1 + i) t) (inl (omega arith))
      ∙ subst (λ x. (turn (1 + i) t).state x ≡ (if forgotten t x then unused else t.state x)) at_i
          (turn_lem (1 + i) t (λ z. omega arith) (λ z. omega arith))
  | no ne ↦
      let (a, b) = turn_other (1 + i) p t ne in
      reap_loop-in left (i + 1) p (turn (1 + i) t) (turn-idle_task (1 + i) t ∙ e) (omega arith)
        (omega arith) (omega arith)
      ∙ rw (a, b) refl
]

-- A zombie whose parent does not live as a user process that may still wait for it.
abbrev pub Forgotten : Threads → TaskPtr → Type 0
Forgotten t p =
    (t.state p ≡ zombie)
    × ((t.parent p ≡ 0)
        ⊎ ((t.is_user (t.parent p) ≡ false)
            ⊎ ((t.state (t.parent p) ≡ unused) ⊎ (t.state (t.parent p) ≡ zombie))))

zombie_iff : (s : TaskState) → (is_zombie s ≡ true) ↔ (s ≡ zombie)
zombie_iff unused = (λ e. absurd (cc e), λ e. absurd (cc e))
zombie_iff runnable = (λ e. absurd (cc e), λ e. absurd (cc e))
zombie_iff running = (λ e. absurd (cc e), λ e. absurd (cc e))
zombie_iff zombie = (λ e. refl, λ e. refl)

unused_iff : (s : TaskState) → (is_unused s ≡ true) ↔ (s ≡ unused)
unused_iff unused = (λ e. refl, λ e. refl)
unused_iff runnable = (λ e. absurd (cc e), λ e. absurd (cc e))
unused_iff running = (λ e. absurd (cc e), λ e. absurd (cc e))
unused_iff zombie = (λ e. absurd (cc e), λ e. absurd (cc e))

not_true : {b : Bool} → b ≡ false → b ≡ true → ⊥
not_true h e = absurd (cc (sym h ∙ e))

-- The test of the loop decides it.
forgotten_cases :
    (t : Threads) (p : TaskPtr)
    → ((forgotten t p ≡ true) × Forgotten t p) ⊎ ((forgotten t p ≡ false) × (Forgotten t p → ⊥))
unfolding awaited
forgotten_cases t p = elim (Bool-cases (is_zombie (t.state p))) [
  | inr lives ↦ inr (rw lives refl, λ f. not_true lives ((zombie_iff (t.state p)).1 f.0))
  | inl dead ↦
      let is_dead = (zombie_iff (t.state p)).0 dead in
      elim (Bool-cases (parent == 0)) [
        | inl none ↦ inl (rw (dead, none) refl, (is_dead, inl ((==_iff parent 0).0 none)))
        | inr has ↦ elim (Bool-cases (t.is_user parent)) [
          | inr kernel ↦ inl (rw (dead, has, kernel) refl, (is_dead, inr (inl kernel)))
          | inl user ↦ elim (Bool-cases (is_unused (t.state parent))) [
            | inl empty ↦ inl (
              rw (dead, has, user, empty) refl,
              (is_dead, inr (inr (inl ((unused_iff (t.state parent)).0 empty)))),
            )
            | inr taken ↦ elim (Bool-cases (is_zombie (t.state parent))) [
              | inl over ↦ inl (
                rw (dead, has, user, taken, over) refl,
                (is_dead, inr (inr (inr ((zombie_iff (t.state parent)).0 over)))),
              )
              | inr waits ↦ inr (
                rw (dead, has, user, taken, waits) refl,
                λ f. elim f.1 [
                  | inl z ↦ not_true has ((==_iff parent 0).1 z)
                  | inr (inl k) ↦ absurd (cc (sym user ∙ k))
                  | inr (inr (inl u)) ↦ not_true taken ((unused_iff (t.state parent)).1 u)
                  | inr (inr (inr z)) ↦ not_true waits ((zombie_iff (t.state parent)).1 z)
                ],
              )
            ]
          ]
        ]
      ]
]
  where
    parent : TaskPtr
    parent = t.parent p

-- In a state with the invariant, kill_zombies frees exactly those entries of the table behind the first
-- one that have a zombie without a parent, or whose parent is no user process or does not live; every
-- other entry keeps its state.
pub kill_zombies-state :
    {t : Threads} (p : TaskPtr)
    → Sound t
    → ((1 < p) × (p ≤ 16) × Forgotten t p × ((kill_zombies t).state p ≡ unused))
      ⊎ (((1 < p) × (p ≤ 16) × Forgotten t p → ⊥) × ((kill_zombies t).state p ≡ t.state p))
unfolding kill_zombies
kill_zombies-state {t} p (sound w) = elim (dec_lt 1 p) [
  | no first ↦ inr (λ h. first h.0, reap_loop-out 15 1 p t (inl (omega arith)))
  | yes lo ↦ elim (dec_le p 16) [
    | no behind ↦ inr (λ h. behind h.1, reap_loop-out 15 1 p t (inr (omega arith)))
    | yes hi ↦
        let at = reap_loop-in 15 1 p t w.idle_is (omega arith) lo hi in
        elim (forgotten_cases t p) [
          | inl (e, f) ↦ inl (lo, hi, f, at ∙ rw e refl)
          | inr (e, f) ↦ inr (λ h. f h.2, at ∙ rw e refl)
        ]
  ]
]
