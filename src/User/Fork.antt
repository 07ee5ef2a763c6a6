-- ===== src/User/Fork.antt =====
-- user_fork of lab6/OrangePiVer/Src/user.c.
use nycu_osc_lab.Prelude.{ℕ, ◌+◌, ◌-◌, ◌*◌, ◌≤◌, ◌<◌, ◌≡◌, ◌≢◌, ◌⊎◌, true, false, update}
use nycu_osc_lab.Thread.State.{TaskPtr, runnable, Threads, Layout, is_unused, sign_extend}
use nycu_osc_lab.Thread.{kill_zombies}
use nycu_osc_lab.Thread.Wf.{Sound}
use nycu_osc_lab.Thread.Create.{Created}
use nycu_osc_lab.Thread.Keep.{Kept}
use nycu_osc_lab.Signal.{TrapFrame}
use nycu_osc_lab.User.{Memory, failed, mem_copy, forked_frame, set_stack}

-- A pointer into the parent's stack becomes the one to the same place of the child's; another stays.
abbrev pub Moved : Threads → TaskPtr → TaskPtr → ℕ → ℕ → Type 0
Moved t parent child a b =
    (t.user_stack_base parent ≤ a
      → a ≤ t.user_stack_top parent
      → b + t.user_stack_base parent ≡ a + t.user_stack_base child)
    × ((a < t.user_stack_base parent) ⊎ (t.user_stack_top parent < a) → b ≡ a)

-- What fork_task does, field by field.
abbrev forked : Layout → TaskPtr → TaskPtr → TrapFrame → Threads → Threads
forked l parent child tf t =
    let t1 = set_stack l child (record t {
      is_user = update t.is_user child true;
      exit_status = update t.exit_status child 0;
    }) in
    record t1 {
      trapframe = update t1.trapframe child (forked_frame l parent child tf t1);
      parent = update t1.parent child parent;
      signal_handlers = update t.signal_handlers child (t.signal_handlers parent);
      pending_signals = update t.pending_signals child (λ i. false);
      handling_signal = update t.handling_signal child false;
      current_signal = update t.current_signal child 0;
      signal_saved_tf = update t.signal_saved_tf child (λ i. 0);
    }

-- The child of the current task, after user_fork has made it: it goes on like its parent, from the same
-- registers, in a copy of the stack, but user_fork returns 0 to it; it has the parent's handlers and no
-- signal. The parent's state and the rest of the memory are as they were.
pub record Forked (l : Layout) (tf : TrapFrame) (m m' : Memory) (t t' : Threads) (child pid : ℕ)
    : Type 0 where
  pub valid : Sound t'
  pub fresh : is_unused ((kill_zombies t).state child) ≡ true
  pub waits : t'.state child ≡ runnable
  pub returned : pid ≡ sign_extend (t'.pid child)
  pub child_returned : t'.trapframe child 9 ≡ 0
  pub registers : (i : ℕ) → i ≢ 1 → i ≢ 3 → i ≢ 7 → i ≢ 9 → t'.trapframe child i ≡ tf i
  pub tp : t'.trapframe child 3 ≡ l.task_addr child
  pub sp : Moved t' t.current child (tf 1) (t'.trapframe child 1)
  pub s0 : Moved t' t.current child (tf 7) (t'.trapframe child 7)
  pub stack :
      (k : ℕ) → k < 16384 → m' (t'.user_stack_base child + k) ≡ m (t.user_stack_base t.current + k)
  pub other_memory :
      (a : ℕ) → (a < t'.user_stack_base child) ⊎ (t'.user_stack_base child + 16384 ≤ a) → m' a ≡ m a
  pub handlers : t'.signal_handlers child ≡ t.signal_handlers t.current
  pub no_signals : (i : ℕ) → t'.pending_signals child i ≡ false
  pub not_handling : t'.handling_signal child ≡ false
  pub user : t'.is_user child ≡ true
  pub family : t'.parent child ≡ t.current
  pub parent_kept : Kept t t' t.current

-- The memory with the stack of `x` copied to that of `c`.
abbrev copied : Layout → TaskPtr → TaskPtr → Memory → Memory
copied l c x m =
    mem_copy 16384 0 (l.user_stacks + (c - 1) * 16384) (l.user_stacks + (x - 1) * 16384) m

module _ (l : Layout) (c : TaskPtr) (tf : TrapFrame) (m : Memory) {t t1 : Threads}
    (created : Created t t1 l.user_process_entry c) (kept : Kept t t1 t.current)
    (apart : c ≢ t.current) (one : 0 < t.current)
    (base : t.user_stack_base t.current ≡ l.user_stacks + (t.current - 1) * 16384) where
  -- The table before the child's frame is made.
  started : Threads
  started =
      set_stack l c
        (record t1 { is_user = update t1.is_user c true; exit_status = update t1.exit_status c 0 })

-- user_fork makes a child, or returns -1 because every entry of the table is taken.
abbrev pub Forks : Layout → TrapFrame → Memory → Threads → ℕ × Memory × Threads → Type 0
Forks l tf m t r =
    ((child : TaskPtr) × Forked l tf m r.1 t r.2 child r.0)
    ⊎ ((r.0 ≡ failed)
        × (r.1 ≡ m)
        × Sound r.2
        × ((p : TaskPtr) → 0 < p → p ≤ 16 → is_unused (r.2.state p) ≡ false))
