-- ===== src/Signal/Drain.antt =====
-- The pending signals of a process, one after the other: lab6/OrangePiVer/Src/signal.c.
use mathlib.Core.Path.{subst}
use native.Mathlib.Decide.{ℕ_discrete}
use nycu_osc_lab.Prelude.{
  ℕ, zero, suc, ◌≤◌, ◌<◌, ◌≡◌, ◌≢◌, refl, sym, ap, ◌∙◌, ◌⊎◌, inl, inr, Bool, true, false, update,
  if◌then◌else◌, List, [], ◌∷◌, ◌+◌, Option, none, some, Bool-cases, arith, update_here, ==_ne,
  ==_iff, ◌==◌,
}
use nycu_osc_lab.Thread.State.{Threads, Layout}
use nycu_osc_lab.Thread.Wf.{count, count-remove}
use nycu_osc_lab.Signal.{TrapFrame, signal_try_deliver, sys_sigreturn}
use nycu_osc_lab.Signal.Cases.{
  leaves, kills, starts, Ready, Lowest, after, signal_try_deliver-Cases,
}

-- The handler returns at once.
abbrev or_else : TrapFrame × Threads → Option (TrapFrame × Threads) → TrapFrame × Threads
or_else r none = r
or_else r (some r') = r'

pub returned : TrapFrame × Threads → TrapFrame × Threads
returned r = or_else r (sys_sigreturn r.0 r.1)

-- A signal is delivered, and its handler returns.
pub handled : Layout → TrapFrame × Threads → TrapFrame × Threads
handled l r = returned (signal_try_deliver l r.0 r.1)

pub handled_times : ℕ → Layout → TrapFrame × Threads → TrapFrame × Threads
handled_times zero l r = r
handled_times (suc k) l r = handled_times k l (handled l r)

-- Where the program goes on after a delivery, and the argument it finds in a0.
pub started : Layout → TrapFrame × Threads → ℕ × ℕ
started l r = let tf = (signal_try_deliver l r.0 r.1).0 in (tf 31, tf 9)

pub started_times : ℕ → Layout → TrapFrame × Threads → List (ℕ × ℕ)
started_times zero l r = []
started_times (suc k) l r = started l r ∷ started_times k l (handled l r)

-- The handlers, with the signals, of those of the `left` signals from `signum` on that are in `f`.
abbrev pub handlers_of : (ℕ → ℕ) → ℕ → ℕ → (ℕ → Bool) → List (ℕ × ℕ)
handlers_of h zero signum f = []
handlers_of h (suc left) signum f =
    let rest = handlers_of h left (signum + 1) f in
    if f signum then (h signum, signum) ∷ rest else rest

handlers_of_none :
    (h : ℕ → ℕ) (left signum : ℕ) (f : ℕ → Bool)
    → ((i : ℕ) → signum ≤ i → i < signum + left → f i ≡ false)
    → handlers_of h left signum f ≡ []
handlers_of_none h zero s f all = refl
handlers_of_none h (suc left) s f all =
    rw (all s (omega arith) (omega arith))
      (handlers_of_none h left (s + 1) f (λ i a b. all i (omega arith) (omega arith)))

handlers_of_below :
    (h : ℕ → ℕ) (left signum n : ℕ) (f : ℕ → Bool)
    → n < signum
    → handlers_of h left signum (update f n false) ≡ handlers_of h left signum f
handlers_of_below h zero s n f lt = refl
handlers_of_below h (suc left) s n f lt =
    let apart : (s == n) ≡ false = ==_ne s n (λ e. omega (arith, e, lt)) in
    rw (apart, handlers_of_below h left (s + 1) n f (omega arith)) refl

handlers_of_first :
    (h : ℕ → ℕ) (left signum n : ℕ) (f : ℕ → Bool)
    → signum ≤ n
    → n < signum + left
    → f n ≡ true
    → ((i : ℕ) → signum ≤ i → i < n → f i ≡ false)
    → handlers_of h left signum f ≡ (h n, n) ∷ handlers_of h left signum (update f n false)
handlers_of_first h zero s n f lo hi set low = absurd (omega arith)
handlers_of_first h (suc left) s n f lo hi set low = elim (ℕ_discrete s n) [
  | yes e ↦
      let set_s : f s ≡ true = ap f e ∙ set in
      rw (set_s, (==_iff s n).1 e, handlers_of_below h left (s + 1) n f (omega (arith, e)), e) refl
  | no ne ↦
      rw (low s (omega arith) (omega (arith, ne)), ==_ne s n ne)
        (handlers_of_first h left (s + 1) n f (omega (arith, ne)) (omega arith) set
          (λ i a b. low i (omega arith) b))
]

-- Every signal has a handler.
abbrev pub HasHandlers : Threads → Type 0
HasHandlers t = (i : ℕ) → 0 < i → i < 32 → t.signal_handlers t.current i ≢ 0

abbrev pub pending_count : Threads → ℕ
pending_count t = count 31 (t.pending_signals t.current)

count-none : (k : ℕ) (f : ℕ → Bool) → count k f ≡ 0 → (i : ℕ) → 0 < i → i ≤ k → f i ≡ false
count-none zero f h i lo hi = absurd (omega arith)
count-none (suc k) f h i lo hi = elim (ℕ_discrete i (suc k)) [
  | yes e ↦ ground (arith, e, h)
  | no ne ↦ count-none k f (ground (arith, h)) i lo (omega arith)
]

returned_lem : (r r' : TrapFrame × Threads) → sys_sigreturn r.0 r.1 ≡ some r' → returned r ≡ r'
unfolding returned
returned_lem r r' e = ap (or_else r) e

leaves_absurd :
    {t : Threads}
    → Ready t
    → (i : ℕ) → 0 < i
    → i < 32
    → t.pending_signals t.current i ≡ true
    → (t.current ≡ 0)
      ⊎ ((t.is_user t.current ≡ false)
          ⊎ ((t.handling_signal t.current ≡ true)
              ⊎ ((i : ℕ) → 0 < i → i < 32 → t.pending_signals t.current i ≡ false)))
    → ⊥
leaves_absurd ready i lo hi set (inl z) = ready.found z
leaves_absurd ready i lo hi set (inr (inl k)) = absurd (cc (sym k ∙ ready.user))
leaves_absurd ready i lo hi set (inr (inr (inl b))) = absurd (cc (sym ready.idle ∙ b))
leaves_absurd ready i lo hi set (inr (inr (inr all))) = absurd (cc (sym (all i lo hi) ∙ set))

-- One turn, when a signal is pending: it is no longer pending, and the trap frame is as it was.
handled-after :
    (l : Layout) (tf : TrapFrame) (t : Threads)
    → Ready t
    → HasHandlers t
    → (i : ℕ) → 0 < i
    → i < 32
    → t.pending_signals t.current i ≡ true
    → (signum : ℕ) × Lowest t t.current signum
      × (handled l (tf, t) ≡ (tf, after signum t))
      × (started l (tf, t) ≡ (t.signal_handlers t.current signum, signum))
unfolding handled started
handled-after l tf t ready has i lo hi set = elim (signal_try_deliver-Cases l tf t) [
  | leaves e why ↦ absurd (leaves_absurd ready i lo hi set why)
  | kills signum r lowest unset e ↦ absurd (has signum lowest.valid.0 lowest.valid.1 unset)
  | starts signum r lowest given d ↦ (
    signum,
    lowest,
    returned_lem _ _ (d.returns (signal_try_deliver l tf t).0),
    ap (λ a. (a, (signal_try_deliver l tf t).0 9)) d.sepc_is
        ∙ ap (λ b. (t.signal_handlers t.current signum, b)) d.a0_is,
  )
]

after-Ready : (signum : ℕ) {t : Threads} → Ready t → Ready (after signum t)
after-Ready signum {t} r = record { found = r.found; user = r.user; idle = ground arith }

after-HasHandlers : (signum : ℕ) (t : Threads) → HasHandlers t → HasHandlers (after signum t)
after-HasHandlers signum t h = h

pending_some :
    (k : ℕ) (f : ℕ → Bool) (c : ℕ) → count k f ≡ suc c → (i : ℕ) × (0 < i) × (i ≤ k) × (f i ≡ true)
pending_some zero f c h = absurd (omega arith)
pending_some (suc k) f c h = elim (Bool-cases (f (suc k))) [
  | inl set ↦ (suc k, omega arith, omega arith, set)
  | inr clear ↦
      let rest : count k f ≡ suc c = ground (arith, h, clear) in
      let (i, lo, hi, set) = pending_some k f c rest in (i, lo, omega arith, set)
]

count-after :
    (signum c : ℕ) (t : Threads)
    → Lowest t t.current signum
    → pending_count t ≡ suc c
    → pending_count (after signum t) ≡ c
count-after signum c t lowest h =
    let fewer =
      count-remove 31 signum (t.pending_signals t.current) lowest.valid.0
        (omega (arith, lowest.valid)) lowest.pending in
    ap (count 31)
      (update_here t.pending_signals t.current (update (t.pending_signals t.current) signum false))
    ∙ omega (arith, fewer, h)

-- All is delivered: nothing pends, no handler runs, and the program is where it was.
pub record Drained (tf : TrapFrame) (t : Threads) (r : TrapFrame × Threads) : Type 0 where
  pub frame : r.0 ≡ tf
  pub none_pends : (i : ℕ) → 0 < i → i < 32 → r.1.pending_signals r.1.current i ≡ false
  pub stays : r.1.current ≡ t.current
  pub idle : r.1.handling_signal r.1.current ≡ false
  pub states : r.1.state ≡ t.state

handled_times-by :
    (c : ℕ) (l : Layout) (tf : TrapFrame) (t : Threads)
    → Ready t
    → HasHandlers t
    → pending_count t ≡ c
    → Drained tf t (handled_times c l (tf, t))
unfolding handled_times
handled_times-by zero l tf t ready has e = record {
  frame = refl;
  none_pends = λ i lo hi. count-none 31 (t.pending_signals t.current) e i lo (omega arith);
  stays = refl;
  idle = ready.idle;
  states = refl;
}
handled_times-by (suc c) l tf t ready has e =
    let (i, lo, hi, set) = pending_some 31 (t.pending_signals t.current) c e in
    let (signum, lowest, to, first) = handled-after l tf t ready has i lo (omega arith) set in
    let d : Drained tf (after signum t) (handled_times c l (tf, after signum t)) =
      handled_times-by c l tf (after signum t) (after-Ready signum ready)
        (after-HasHandlers signum t has) (count-after signum c t lowest e) in
    subst (λ r. Drained tf t (handled_times c l r)) (sym to)
      (record {
        frame = d.frame;
        none_pends = d.none_pends;
        stays = d.stays;
        idle = d.idle;
        states = d.states;
      })

started_times-by :
    (c : ℕ) (l : Layout) (tf : TrapFrame) (t : Threads)
    → Ready t
    → HasHandlers t
    → pending_count t ≡ c
    → started_times c l (tf, t)
      ≡ handlers_of (t.signal_handlers t.current) 31 1 (t.pending_signals t.current)
unfolding started_times
started_times-by zero l tf t ready has e = sym (
    handlers_of_none (t.signal_handlers t.current) 31 1 (t.pending_signals t.current)
      (λ i a b. count-none 31 (t.pending_signals t.current) e i (omega arith) (omega arith)))
started_times-by (suc c) l tf t ready has e =
    let (i, lo, hi, set) = pending_some 31 (t.pending_signals t.current) c e in
    let (signum, lowest, to, first) = handled-after l tf t ready has i lo (omega arith) set in
    let rest =
      started_times-by c l tf (after signum t) (after-Ready signum ready)
        (after-HasHandlers signum t has) (count-after signum c t lowest e) in
    let left = ap (handlers_of (t.signal_handlers t.current) 31 1) (
      update_here t.pending_signals t.current
        (update (t.pending_signals t.current) signum false)) in
    let all =
      handlers_of_first (t.signal_handlers t.current) 31 1 signum (t.pending_signals t.current)
        (omega (arith, lowest.valid)) (omega (arith, lowest.valid)) lowest.pending
        (λ j a b. lowest.first j (omega arith) b) in
    ap (λ x. x ∷ started_times c l (handled l (tf, t))) first
    ∙ (ap (λ r. (t.signal_handlers t.current signum, signum) ∷ started_times c l r) to
        ∙ (ap (λ r. (t.signal_handlers t.current signum, signum) ∷ r) (rest ∙ left) ∙ sym all))

-- The current process, when it is a user process, runs no handler and has a handler for every signal,
-- gets every pending signal: by as many deliveries as signals were pending, each with the return from its
-- handler, the handler of each of them is started once, with the signal as its argument, in ascending
-- order; then none pends, and the process goes on with the trap frame that it had.
pub handled_times-Drained :
    (l : Layout) (tf : TrapFrame) (t : Threads)
    → Ready t
    → HasHandlers t
    → (started_times (pending_count t) l (tf, t)
        ≡ handlers_of (t.signal_handlers t.current) 31 1 (t.pending_signals t.current))
      × Drained tf t (handled_times (pending_count t) l (tf, t))
handled_times-Drained l tf t ready has = (
  started_times-by (pending_count t) l tf t ready has refl,
  handled_times-by (pending_count t) l tf t ready has refl,
)
