-- ===== src/Signal.antt =====
-- The signals of lab6/OrangePiVer/Src/signal.c. A trap frame is a function from the number of its
-- word (Inc/trap.h); it is on the kernel stack, apart from the table of tasks.
mod Cases
mod Deliver
mod Send
mod Drain
mod Tests
use nycu_osc_lab.Prelude.{
  ℕ, zero, suc, ◌+◌, ◌-◌, ◌*◌, ◌%◌, ◌^◌, Bool, true, false, not, ◌||◌, ◌&&◌, ltb, ◌==◌,
  if◌then◌else◌, update, Option, none, some,
}
use nycu_osc_lab.Thread.State.{TaskPtr, Threads, Layout, is_unused, is_zombie, aligned, sign_extend}
use nycu_osc_lab.Thread.{task_find_by_pid, task_kill}

abbrev pub TrapFrame : Type 0
TrapFrame = ℕ → ℕ

abbrev pub max_signals : ℕ
max_signals = 32

abbrev pub signal_stack_size : ℕ
signal_stack_size = 16384

abbrev pub user_sigtramp_base : ℕ
user_sigtramp_base = 0x03000000 + 0x00400000 - 0x1000

-- signum > 0 && signum < MAX_SIGNALS, on the 32-bit pattern of an int.
abbrev pub valid_signal : ℕ → Bool
valid_signal signum = ltb 0 signum && ltb signum max_signals

-- -signum, for an int.
abbrev pub negated : ℕ → ℕ
negated signum = (2 ^ 32 - signum) % 2 ^ 32

unfoldable pub signal_fork : TaskPtr → TaskPtr → Threads → Threads
signal_fork parent child t = if (parent == 0) || (child == 0) then t else record t {
  signal_handlers = update t.signal_handlers child (t.signal_handlers parent);
  pending_signals = update t.pending_signals child (λ i. false);
  handling_signal = update t.handling_signal child false;
  current_signal = update t.current_signal child 0;
  signal_saved_tf = update t.signal_saved_tf child (λ i. 0);
}

-- The three instructions that call sigreturn; memory is a function from the addresses of its 32-bit words.
pub signal_install_trampoline : (ℕ → ℕ) → ℕ → ℕ
signal_install_trampoline m =
    let m1 = update m user_sigtramp_base 0x00b00893 in
    let m2 = update m1 (user_sigtramp_base + 4) 0x00000073 in
    update m2 (user_sigtramp_base + 8) 0x0000006f

-- `none` is the result -1, with nothing changed.
pub sys_signal : ℕ → ℕ → Threads → Option (ℕ × Threads)
sys_signal signum handler t =
    let current = t.current in
    let old = t.signal_handlers current signum in
    if (current == 0) || not (t.is_user current)
    then none
    else if not (valid_signal signum)
    then none
    else some (
      old,
      record t {
        signal_handlers =
            update t.signal_handlers current (update (t.signal_handlers current) signum handler);
      },
    )

-- `none` is the result -1, with nothing changed, and `some` the result 0.
pub sys_kill : ℕ → ℕ → Threads → Option Threads
sys_kill pid signum t =
    let task = task_find_by_pid pid t in
    if not (valid_signal signum)
    then none
    else if task == 0
    then none
    else if not (t.is_user task)
    then none
    else if is_unused (t.state task) || is_zombie (t.state task)
    then none
    else if t.signal_handlers task signum == 0
    then task_kill pid (negated signum) t
    else some (record t {
      pending_signals = update t.pending_signals task (update (t.pending_signals task) signum true);
    })

-- for (signum = 1; signum < MAX_SIGNALS; signum++), from `signum` on.
pub pending_scan : ℕ → ℕ → (ℕ → Bool) → ℕ
pending_scan zero signum pending = 0
pending_scan (suc left) signum pending =
    let rest = pending_scan left (signum + 1) pending in if pending signum then signum else rest

pub find_pending_signal : TaskPtr → Threads → ℕ
find_pending_signal task t = pending_scan 31 1 (t.pending_signals task)

-- The trap frame that starts a handler.
pub to_handler : Layout → TaskPtr → ℕ → ℕ → TrapFrame → TrapFrame
to_handler l current signum handler tf =
    let idx = current - 1 in
    let sig_sp = aligned (l.signal_stacks + (idx + 1) * signal_stack_size) in
    let tf1 = update tf 31 handler in
    let tf2 = update tf1 0 user_sigtramp_base in
    let tf3 = update tf2 1 sig_sp in update tf3 9 signum

-- signal_try_deliver from the point where the signal has a handler.
pub deliver : Layout → ℕ → TrapFrame → Threads → TrapFrame × Threads
deliver l signum tf t =
    let current = t.current in
    (
      to_handler l current signum (t.signal_handlers current signum) tf,
      record t {
        pending_signals =
            update t.pending_signals current (update (t.pending_signals current) signum false);
        signal_saved_tf = update t.signal_saved_tf current tf;
        handling_signal = update t.handling_signal current true;
        current_signal = update t.current_signal current signum;
      },
    )

pub kill_current : ℕ → Threads → Threads
kill_current signum t = elim (task_kill (sign_extend (t.pid t.current)) (negated signum) t) [
  | none ↦ t
  | some t' ↦ t'
]

pub signal_try_deliver : Layout → TrapFrame → Threads → TrapFrame × Threads
signal_try_deliver l tf t =
    let current = t.current in
    let signum = find_pending_signal current t in
    if current == 0
    then (tf, t)
    else if not (t.is_user current)
    then (tf, t)
    else if t.handling_signal current
    then (tf, t)
    else if signum == 0
    then (tf, t)
    else if t.signal_handlers current signum == 0
    then (tf, kill_current signum t)
    else deliver l signum tf t

-- `none` is the result -1, with nothing changed, and `some` the result 0. The message on the console is
-- left out.
pub sys_sigreturn : TrapFrame → Threads → Option (TrapFrame × Threads)
sys_sigreturn tf t =
    let current = t.current in
    if (current == 0) || not (t.is_user current)
    then none
    else if not (t.handling_signal current)
    then none
    else some (
      t.signal_saved_tf current,
      record t {
        handling_signal = update t.handling_signal current false;
        current_signal = update t.current_signal current 0;
        signal_saved_tf = update t.signal_saved_tf current (λ i. 0);
      },
    )
