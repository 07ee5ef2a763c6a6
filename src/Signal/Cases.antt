-- ===== src/Signal/Cases.antt =====
-- The branches of signal_try_deliver in lab6/OrangePiVer/Src/signal.c, and the return from a handler.
use nycu_osc_lab.Prelude.{
  ℕ, zero, suc, ◌+◌, ◌-◌, ◌*◌, ◌/◌, ◌≤◌, ◌<◌, ◌≡◌, ◌≢◌, refl, ◌∙◌, ◌⊎◌, inl, inr, Bool, true, false,
  ◌==◌, update, some, Bool-cases, arith, ==_ne, ==_iff, update_here,
}
use mathlib.Core.Path.{fun_ext}
use native.Mathlib.Decide.{ℕ_discrete}
use nycu_osc_lab.Thread.State.{TaskPtr, Threads, Layout}
use nycu_osc_lab.Signal.{
  TrapFrame, user_sigtramp_base, pending_scan, find_pending_signal, to_handler, deliver,
  signal_try_deliver, sys_sigreturn, kill_current,
}

-- The lowest pending signal, or 0 when none is pending.
pub pending_scan_lem :
    (left signum : ℕ) (pending : ℕ → Bool)
    → 0 < signum
    → ((pending_scan left signum pending ≡ 0)
        × ((i : ℕ) → signum ≤ i → i < signum + left → pending i ≡ false))
      ⊎ ((signum ≤ pending_scan left signum pending)
          × (pending_scan left signum pending < signum + left)
          × (pending (pending_scan left signum pending) ≡ true)
          × ((i : ℕ) → signum ≤ i → i < pending_scan left signum pending → pending i ≡ false))
unfolding pending_scan
pending_scan_lem zero s p lo = inl (refl, λ i a b. absurd (omega arith))
pending_scan_lem (suc left) s p lo = elim (Bool-cases (p s)) [
  | inl set ↦ rw set (inr (omega arith, omega arith, set, λ i a b. absurd (omega arith)))
  | inr clear ↦ rw clear (elim (pending_scan_lem left (s + 1) p (omega arith)) [
    | inl (e, all) ↦ inl (
      e,
      λ i a b. elim (ℕ_discrete i s) [
        | yes at_s ↦ rw at_s clear
        | no ne ↦ all i (omega arith) (omega arith)
      ],
    )
    | inr (a, b, set, all) ↦ inr (
      omega arith,
      omega arith,
      set,
      λ i c d. elim (ℕ_discrete i s) [ yes at_s ↦ rw at_s clear | no ne ↦ all i (omega arith) d ],
    )
  ])
]

-- The signal is the lowest one of those that are pending for the task.
pub record Lowest (t : Threads) (x signum : ℕ) : Type 0 where
  pub valid : (0 < signum) × (signum < 32)
  pub pending : t.pending_signals x signum ≡ true
  pub first : (i : ℕ) → 0 < i → i < signum → t.pending_signals x i ≡ false

find_pending_signal_lem :
    (x : TaskPtr) (t : Threads)
    → ((find_pending_signal x t ≡ 0) × ((i : ℕ) → 0 < i → i < 32 → t.pending_signals x i ≡ false))
      ⊎ Lowest t x (find_pending_signal x t)
unfolding find_pending_signal
find_pending_signal_lem x t = elim (pending_scan_lem 31 1 (t.pending_signals x) (omega arith)) [
  | inl (e, all) ↦ inl (e, λ i lo hi. all i (omega arith) (omega arith))
  | inr (lo, hi, set, all) ↦ inr (record {
    valid = (omega arith, omega arith);
    pending = set;
    first = λ i a b. all i (omega arith) b;
  })
]

-- The state when the handler has returned: that before the signal, which is no longer pending.
abbrev pub after : ℕ → Threads → Threads
after signum t = record t {
  pending_signals =
      update t.pending_signals t.current (update (t.pending_signals t.current) signum false);
  handling_signal = update t.handling_signal t.current false;
  current_signal = update t.current_signal t.current 0;
  signal_saved_tf = update t.signal_saved_tf t.current (λ i. 0);
}

-- The program goes on in the handler, with the signal as its argument, on the task's signal stack and
-- with the trampoline to return to; what the handler leaves in the trap frame does not matter, the
-- program goes on where it was.
pub record Delivered (l : Layout) (tf tf' : TrapFrame) (t t' : Threads) (signum : ℕ) : Type 0 where
  pub sepc_is : tf' 31 ≡ t.signal_handlers t.current signum
  pub ra_is : tf' 0 ≡ user_sigtramp_base
  pub sp_is :
      (tf' 1 ≤ l.signal_stacks + t.current * 16384)
      × (l.signal_stacks + t.current * 16384 < tf' 1 + 16)
  pub a0_is : tf' 9 ≡ signum
  pub others : (i : ℕ) → i ≢ 31 → i ≢ 0 → i ≢ 1 → i ≢ 9 → tf' i ≡ tf i
  pub busy : (tf2 : TrapFrame) → signal_try_deliver l tf2 t' ≡ (tf2, t')
  pub returns : (tf2 : TrapFrame) → sys_sigreturn tf2 t' ≡ some (tf, after signum t)

update_twice {ℓ} :
    {A : Type ℓ} (f : ℕ → A) (p : ℕ) (a b : A) → update (update f p a) p b ≡ update f p b
update_twice f p a b = fun_ext (λ q. ground arith)

deliver_sp :
    (a p : ℕ)
    → p ≢ 0
    → ((a + (p - 1 + 1) * 16384) / 16 * 16 ≤ a + p * 16384)
      × (a + p * 16384 < (a + (p - 1 + 1) * 16384) / 16 * 16 + 16)
deliver_sp a p nz = omega arith

-- No signal is delivered while a handler runs.
signal_try_deliver-busy :
    (l : Layout) (tf : TrapFrame) (t : Threads)
    → t.handling_signal t.current ≡ true
    → signal_try_deliver l tf t ≡ (tf, t)
unfolding signal_try_deliver
signal_try_deliver-busy l tf t h = elim (Bool-cases (t.current == 0)) [
  | inl null ↦ rw null refl
  | inr found ↦ elim (Bool-cases (t.is_user t.current)) [
    | inr kernel ↦ rw (found, kernel) refl
    | inl user ↦ rw (found, user, h) refl
  ]
]

sys_sigreturn-some :
    (tf : TrapFrame) (t : Threads)
    → t.current ≢ 0
    → t.is_user t.current ≡ true
    → t.handling_signal t.current ≡ true
    → sys_sigreturn tf t
      ≡ some (
        t.signal_saved_tf t.current,
        record t {
          handling_signal = update t.handling_signal t.current false;
          current_signal = update t.current_signal t.current 0;
          signal_saved_tf = update t.signal_saved_tf t.current (λ i. 0);
        },
      )
unfolding sys_sigreturn
sys_sigreturn-some tf t nz user h = rw (==_ne _ _ nz, user, h) refl

deliver-returns :
    (l : Layout) (signum : ℕ) (tf tf2 : TrapFrame) (t : Threads)
    → t.current ≢ 0
    → t.is_user t.current ≡ true
    → sys_sigreturn tf2 (deliver l signum tf t).1 ≡ some (tf, after signum t)
unfolding deliver
deliver-returns l signum tf tf2 t nz user =
    sys_sigreturn-some tf2 (deliver l signum tf t).1 nz user
      (update_here t.handling_signal t.current true)
    ∙ rw
        (
          update_here t.signal_saved_tf t.current tf,
          update_twice t.handling_signal t.current true false,
          update_twice t.current_signal t.current signum 0,
          update_twice t.signal_saved_tf t.current tf (λ i. 0),
        )
        refl

deliver-Delivered :
    (l : Layout) (signum : ℕ) (tf : TrapFrame) (t : Threads)
    → t.current ≢ 0
    → t.is_user t.current ≡ true
    → Delivered l tf (deliver l signum tf t).0 t (deliver l signum tf t).1 signum
unfolding deliver to_handler
deliver-Delivered l signum tf t nz user = record {
  sepc_is = refl;
  ra_is = refl;
  sp_is = deliver_sp l.signal_stacks t.current nz;
  a0_is = refl;
  others = λ i a b c d. ground (arith, a, b, c, d);
  busy = λ tf2.
      signal_try_deliver-busy l tf2 (deliver l signum tf t).1
        (update_here t.handling_signal t.current true);
  returns = λ tf2. deliver-returns l signum tf tf2 t nz user;
}

-- A delivery is possible.
pub record Ready (t : Threads) : Type 0 where
  pub found : t.current ≢ 0
  pub user : t.is_user t.current ≡ true
  pub idle : t.handling_signal t.current ≡ false

-- The branches of signal_try_deliver.
pub data Cases (l : Layout) (tf : TrapFrame) (t : Threads) : TrapFrame × Threads → Type 0 where
  -- nothing to do
  leaves :
      {r : TrapFrame × Threads}
      → r ≡ (tf, t)
      → (t.current ≡ 0)
        ⊎ ((t.is_user t.current ≡ false)
            ⊎ ((t.handling_signal t.current ≡ true)
                ⊎ ((i : ℕ) → 0 < i → i < 32 → t.pending_signals t.current i ≡ false)))
      → Cases l tf t r
  -- no handler: the task is killed
  kills :
      {r : TrapFrame × Threads} (signum : ℕ)
      → Ready t
      → Lowest t t.current signum
      → t.signal_handlers t.current signum ≡ 0
      → r ≡ (tf, kill_current signum t)
      → Cases l tf t r
  starts :
      {r : TrapFrame × Threads} (signum : ℕ)
      → Ready t
      → Lowest t t.current signum
      → t.signal_handlers t.current signum ≢ 0
      → Delivered l tf r.0 t r.1 signum
      → Cases l tf t r

pub signal_try_deliver-Cases :
    (l : Layout) (tf : TrapFrame) (t : Threads) → Cases l tf t (signal_try_deliver l tf t)
unfolding signal_try_deliver
signal_try_deliver-Cases l tf t = elim (ℕ_discrete t.current 0) [
  | yes z ↦ leaves (rw ((==_iff t.current 0).1 z) refl) (inl z)
  | no nz ↦ elim (Bool-cases (t.is_user t.current)) [
    | inr kernel ↦ leaves (rw (==_ne _ _ nz, kernel) refl) (inr (inl kernel))
    | inl user ↦ elim (Bool-cases (t.handling_signal t.current)) [
      | inl busy ↦ leaves (rw (==_ne _ _ nz, user, busy) refl) (inr (inr (inl busy)))
      | inr idle ↦ elim (find_pending_signal_lem t.current t) [
        | inl (e, all) ↦ leaves (rw (==_ne _ _ nz, user, idle, e) refl) (inr (inr (inr all)))
        | inr lowest ↦
            let ready : Ready t = record { found = nz; user = user; idle = idle } in
            let due : (signum == 0) ≡ false = ==_ne _ _ (λ e. omega (arith, lowest.valid, e)) in
            elim (ℕ_discrete (t.signal_handlers t.current signum) 0) [
              | yes unset ↦
                  kills signum ready lowest unset
                    (rw (==_ne _ _ nz, user, idle, due, (==_iff _ 0).1 unset) refl)
              | no set ↦ starts signum ready lowest set (
                  rw (==_ne _ _ nz, user, idle, due, ==_ne _ _ set)
                    (deliver-Delivered l signum tf t nz user))
            ]
      ]
    ]
  ]
]
  where
    signum : ℕ
    signum = find_pending_signal t.current t
