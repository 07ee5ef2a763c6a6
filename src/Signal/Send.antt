-- ===== src/Signal/Send.antt =====
-- sys_kill and sys_signal of lab6/OrangePiVer/Src/signal.c.
use mathlib.Core.Path.{subst}
use nycu_osc_lab.Prelude.{
  ℕ, ◌-◌, ◌^◌, ◌≤◌, ◌<◌, ◌≡◌, ◌≢◌, refl, sym, ap, ◌∙◌, ◌⊎◌, inl, inr, true, false, ◌||◌, update,
  Option, none, some, Bool-cases, arith, ==_ne, ==_iff,
}
use native.Mathlib.Decide.{ℕ_discrete}
use nycu_osc_lab.Thread.State.{TaskPtr, Threads, is_unused, is_zombie}
use nycu_osc_lab.Thread.{task_find_by_pid, task_kill}
use nycu_osc_lab.Thread.Find.{FirstWith, task_find_by_pid-FirstWith}
use nycu_osc_lab.Thread.Wf.{Sound, sound}
use nycu_osc_lab.Thread.Kill.{Kills, Gone, dead-Gone, task_kill_found}
use nycu_osc_lab.Signal.{negated, valid_signal, sys_kill}

-- Whom a signal may reach: a live user process.
pub record Reachable (t : Threads) (x signum : ℕ) : Type 0 where
  pub valid : (0 < signum) × (signum < 32)
  pub found : x ≢ 0
  pub user : t.is_user x ≡ true
  pub live : Gone t x → ⊥

pub record Pended (t t' : Threads) (x signum : ℕ) : Type 0 where
  pub valid : Sound t'
  pub pending : t'.pending_signals x signum ≡ true
  pub others : (p i : ℕ) → (p ≢ x) ⊎ (i ≢ signum) → t'.pending_signals p i ≡ t.pending_signals p i
  pub states : t'.state ≡ t.state
  pub stays : t'.current ≡ t.current

-- sys_kill to the task `x`.
pub data Sends (t : Threads) (x signum : ℕ) : Option Threads → Type 0 where
  refused :
      {r : Option Threads}
      → r ≡ none
      → ((signum ≡ 0) ⊎ (32 ≤ signum)) ⊎ ((x ≡ 0) ⊎ ((t.is_user x ≡ false) ⊎ Gone t x))
      → Sends t x signum r
  default_action :
      {r : Option Threads}
      → Reachable t x signum
      → t.signal_handlers x signum ≡ 0
      → Kills t x (2 ^ 32 - signum) r
      → Sends t x signum r
  pends :
      {r : Option Threads} {t' : Threads}
      → r ≡ some t'
      → Reachable t x signum
      → t.signal_handlers x signum ≢ 0
      → Pended t t' x signum
      → Sends t x signum r

abbrev pended : TaskPtr → ℕ → Threads → Threads
pended x signum t = record t {
  pending_signals = update t.pending_signals x (update (t.pending_signals x) signum true);
}

pended-Pended : (x signum : ℕ) {t : Threads} → Sound t → Pended t (pended x signum t) x signum
pended-Pended x signum {t} (sound w) = record {
  valid = sound (record {
    queue = w.queue;
    counted = w.counted;
    idle_is = w.idle_is;
    idle_on = w.idle_on;
    current_runs = w.current_runs;
    only = w.only;
  });
  pending = ground arith;
  others = λ p i ne. ground (arith, ne);
  states = refl;
  stays = refl;
}

live_not-Gone :
    (t : Threads) (x : TaskPtr)
    → (is_unused (t.state x) || is_zombie (t.state x)) ≡ false
    → Gone t x
    → ⊥
live_not-Gone t x h g = elim g [
  | inl e ↦ absurd (cc (sym h ∙ ap (λ s. is_unused s || is_zombie s) e))
  | inr e ↦ absurd (cc (sym h ∙ ap (λ s. is_unused s || is_zombie s) e))
]

-- In a state with the invariant, sys_kill looks for the first task of the table with the pid. It is
-- refused for a number that is no signal, and when there is no such task, or it is no live user process;
-- without a handler the signal ends the process, as task_kill does with the status -signum; with one,
-- it becomes pending, and no other signal does.
pub sys_kill-Sends :
    (pid signum : ℕ) {t : Threads}
    → Sound t
    → (x : TaskPtr) × FirstWith pid t x × Sends t x signum (sys_kill pid signum t)
unfolding sys_kill
sys_kill-Sends pid signum {t} h = (x, task_find_by_pid-FirstWith pid t, sends_x)
  where
    x : TaskPtr
    x = task_find_by_pid pid t

    sends_x : Sends t x signum (sys_kill pid signum t)
    sends_x = elim (Bool-cases (valid_signal signum)) [
      | inr invalid ↦ refused (rw invalid refl) (inl (ground (arith, invalid)))
      | inl valid ↦ elim (ℕ_discrete x 0) [
        | yes z ↦ refused (rw (valid, (==_iff x 0).1 z) refl) (inr (inl z))
        | no nz ↦ elim (Bool-cases (t.is_user x)) [
          | inr kernel ↦ refused (rw (valid, ==_ne _ _ nz, kernel) refl) (inr (inr (inl kernel)))
          | inl user ↦ elim (Bool-cases (is_unused (t.state x) || is_zombie (t.state x))) [
            | inl dead ↦
                refused (rw (valid, ==_ne _ _ nz, user, dead) refl)
                  (inr (inr (inr (dead-Gone t x dead))))
            | inr live ↦
                let to : Reachable t x signum = record {
                  valid = (ground (arith, valid), ground (arith, valid));
                  found = nz;
                  user = user;
                  live = live_not-Gone t x live;
                } in
                let status : negated signum ≡ 2 ^ 32 - signum = omega (arith, to.valid) in
                elim (ℕ_discrete (t.signal_handlers x signum) 0) [
                  | yes unset ↦
                      rw (valid, ==_ne _ _ nz, user, live, (==_iff _ 0).1 unset)
                        (default_action to unset (
                          subst (λ n. Kills t x n (task_kill pid (negated signum) t)) status
                            (task_kill_found pid (negated signum) h)))
                  | no set ↦
                      rw (valid, ==_ne _ _ nz, user, live, ==_ne _ _ set)
                        (pends refl to set (pended-Pended x signum h))
                ]
          ]
        ]
      ]
    ]
