-- ===== src/Vm/Memory.antt =====
-- The writes of lab6/OrangePiVer/Src/vm.c to the memory of the allocator.
use native.Mathlib.Decide.{ℕ_discrete}
use nycu_osc_lab.Prelude.{ℕ, zero, suc, ◌+◌, ◌*◌, ◌%◌, ◌≤◌, ◌<◌, ◌≡◌, ◌≢◌, refl, ◌∙◌, Bool, arith}
use nycu_osc_lab.Mm.State.{Mm}
use nycu_osc_lab.Mm.Buddy.Frames.{Sound, sound}
use nycu_osc_lab.Vm.{entry, set_entry, clear_loop, clear_table, share_loop}

-- Entries of tables are apart.
pub entry_apart :
    (p q j i : ℕ)
    → p % 4096 ≡ 0
    → q % 4096 ≡ 0
    → j < 512
    → i < 512
    → p + 8 * j ≡ q + 8 * i
    → (p ≡ q) × (j ≡ i)
entry_apart p q j i hp hq hj hi e = (omega arith, omega arith)

-- The allocator does not look at what is in the memory.
pub memory-Sound :
    {m : Mm} {used : ℕ → Bool} (memory : ℕ → ℕ)
    → Sound m used
    → Sound (record m { memory = memory }) used
memory-Sound memory (sound {age} {clock} w) = sound {age = age} {clock = clock} (record {
  links = λ p h.
      let a = w.links p h in
      record {
        next_live = a.next_live;
        prev_live = a.prev_live;
        prev_next = a.prev_next;
        next_prev = a.next_prev;
        same_list = a.same_list;
        older = a.older;
        born = a.born;
      };
  block = λ i h. record {
    small = (w.block i h).small;
    aligned = (w.block i h).aligned;
    inside = (w.block i h).inside;
  };
  apart = w.apart;
  free_only = w.free_only;
  flags = w.flags;
})

-- Only the memory differs.
abbrev pub OnlyMemory : Mm → Mm → Type 0
OnlyMemory m m' = m' ≡ record m { memory = m'.memory }

clear_loop-OnlyMemory : (left i table : ℕ) (m : Mm) → OnlyMemory m (clear_loop left i table m)
unfolding clear_loop
clear_loop-OnlyMemory zero i table m = refl
clear_loop-OnlyMemory (suc left) i table m =
    clear_loop-OnlyMemory left (i + 1) table (set_entry table i 0 m)

clear_loop_out :
    (left i table a : ℕ) (m : Mm)
    → ((j : ℕ) → i ≤ j → j < i + left → a ≢ table + 8 * j)
    → (clear_loop left i table m).memory a ≡ m.memory a
unfolding clear_loop
clear_loop_out zero i table a m h = refl
clear_loop_out (suc left) i table a m h =
    clear_loop_out left (i + 1) table a (set_entry table i 0 m)
      (λ j lo hi. h j (omega arith) (omega arith))
    ∙ ground (arith, h i)

clear_loop_in :
    (left i table j : ℕ) (m : Mm)
    → i ≤ j
    → j < i + left
    → entry (clear_loop left i table m) table j ≡ 0
unfolding clear_loop
clear_loop_in zero i table j m lo hi = absurd (omega arith)
clear_loop_in (suc left) i table j m lo hi = elim (ℕ_discrete j i) [
  | yes e ↦
      clear_loop_out left (i + 1) table (table + 8 * j) (set_entry table i 0 m)
        (λ k a b c. omega arith)
      ∙ ground (arith, e)
  | no ne ↦ clear_loop_in left (i + 1) table j (set_entry table i 0 m) (omega arith) (omega arith)
]

pub clear_table-OnlyMemory : (table : ℕ) (m : Mm) → OnlyMemory m (clear_table table m)
unfolding clear_table
clear_table-OnlyMemory table m = clear_loop-OnlyMemory 512 0 table m

-- The entries of the table are 0, and those of other tables are as they were.
pub clear_table_in : (table j : ℕ) (m : Mm) → j < 512 → entry (clear_table table m) table j ≡ 0
unfolding clear_table
clear_table_in table j m h = clear_loop_in 512 0 table j m (omega arith) h

pub clear_table_out :
    (table t j : ℕ) (m : Mm)
    → table % 4096 ≡ 0
    → t % 4096 ≡ 0
    → t ≢ table
    → j < 512
    → entry (clear_table table m) t j ≡ entry m t j
unfolding clear_table
clear_table_out table t j m a b ne h =
    clear_loop_out 512 0 table (t + 8 * j) m
      (λ k lo hi e. ne (entry_apart t table j k b a h hi e).0)

pub share_loop-OnlyMemory :
    (left i table : ℕ) (early_pgd : ℕ → ℕ) (m : Mm)
    → OnlyMemory m (share_loop left i table early_pgd m)
unfolding share_loop
share_loop-OnlyMemory zero i table early_pgd m = refl
share_loop-OnlyMemory (suc left) i table early_pgd m =
    share_loop-OnlyMemory left (i + 1) table early_pgd (set_entry table i (early_pgd i) m)

-- share_loop writes nothing but the entries of its range.
pub share_loop_else :
    (left i table a : ℕ) (early_pgd : ℕ → ℕ) (m : Mm)
    → ((j : ℕ) → i ≤ j → j < i + left → a ≢ table + 8 * j)
    → (share_loop left i table early_pgd m).memory a ≡ m.memory a
unfolding share_loop
share_loop_else zero i table a early_pgd m h = refl
share_loop_else (suc left) i table a early_pgd m h =
    share_loop_else left (i + 1) table a early_pgd (set_entry table i (early_pgd i) m)
      (λ j lo hi. h j (omega arith) (omega arith))
    ∙ ground (arith, h i)

pub share_loop_out :
    (left i table j : ℕ) (early_pgd : ℕ → ℕ) (m : Mm)
    → j < i
    → entry (share_loop left i table early_pgd m) table j ≡ entry m table j
share_loop_out left i table j early_pgd m lt =
    share_loop_else left i table (table + 8 * j) early_pgd m (λ k lo hi e. omega arith)

pub share_loop_in :
    (left i table j : ℕ) (early_pgd : ℕ → ℕ) (m : Mm)
    → i ≤ j
    → j < i + left
    → entry (share_loop left i table early_pgd m) table j ≡ early_pgd j
unfolding share_loop
share_loop_in zero i table j early_pgd m lo hi = absurd (omega arith)
share_loop_in (suc left) i table j early_pgd m lo hi = elim (ℕ_discrete j i) [
  | yes e ↦
      share_loop_else left (i + 1) table (table + 8 * j) early_pgd
        (set_entry table i (early_pgd i) m) (λ k a b c. omega arith)
      ∙ ground (arith, e)
  | no ne ↦
      share_loop_in left (i + 1) table j early_pgd (set_entry table i (early_pgd i) m) (omega arith)
        (omega arith)
]
