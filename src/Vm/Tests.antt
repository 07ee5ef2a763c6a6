-- ===== src/Vm/Tests.antt =====
-- The theorems on lab6/OrangePiVer/Src/vm.c at concrete states: six frames at 0x80000000, of which the
-- first and the last are the tables of two processes and the others are free.
use native.Mathlib.Decide.{ℕ_discrete}
use nycu_osc_lab.Prelude.{
  ℕ, ◌+◌, ◌*◌, ◌^◌, ◌<◌, ◌≡◌, ◌≢◌, refl, sym, ap, ◌∙◌, Bool, true, false, ◌==◌, ltb, if◌then◌else◌,
  update, arith, ==_ne,
}
use nycu_osc_lab.Mm.State.{Mm, frame_addr, phys_to_virt_addr}
use nycu_osc_lab.Mm.PageList.{add_free_block, list_empty, remove_free_block}
use nycu_osc_lab.Mm.Buddy.{alloc_pages, alloc_loop, take_block, split_loop, split_block, mark_used}
use nycu_osc_lab.Mm.Buddy.Wf.{Wf, put-Wf}
use nycu_osc_lab.Mm.Buddy.Frames.{Sound, sound}
use nycu_osc_lab.Mm.Buddy.Alloc.{Placed, frame_va}
use nycu_osc_lab.Vm.{is_valid, is_leaf, map_pages_to, vm_create_user_pgd}
use nycu_osc_lab.Vm.Entry.{zero-is_valid}
use nycu_osc_lab.Vm.Tree.{translate, Role, other, root}
use nycu_osc_lab.Vm.Grow.{Env}
use nycu_osc_lab.Vm.Map.{Maps, map_pages_to-Maps}
use nycu_osc_lab.Vm.Create.{Creates, vm_create_user_pgd-Creates}
use nycu_osc_lab.Vm.Apart.{Beside, map_pages_to-Beside, vm_create_user_pgd-Beside}

abbrev all_given : Mm
all_given = record {
  managed_base = 0x80000000;
  managed_size = 24576;
  frame_count = 6;
  order = λ p. if ltb p 20 then (if ltb p 14 then 4294967295 else 0) else 4294967295;
  state = λ p. 1;
  in_free_list = λ p. 0;
  chunk_size = λ p. 0;
  chunk_pool = λ p. 4294967295;
  prev = λ p. if ltb p 14 then p else 0;
  next = λ p. if ltb p 14 then p else 0;
  chunk_free_list = λ p. 0;
  memory = λ a. 0;
}

abbrev every : ℕ → Bool
every i = ltb i 6

all_given-Wf : Wf all_given every (λ p. 0) 1
all_given-Wf = record {
  links = λ p h. ground arith;
  block = λ i h. ground arith;
  apart = λ i j hi hj lt. ground arith;
  free_only = λ i h. ground arith;
  flags = λ p. omega arith;
}

-- The second to the fifth frame are given back.
abbrev four_free : Mm
four_free =
    add_free_block 4 0 (add_free_block 3 0 (add_free_block 2 0 (add_free_block 1 0 all_given)))

abbrev two_used : ℕ → Bool
two_used = update (update (update (update every 1 false) 2 false) 3 false) 4 false

four_free-Sound : Sound four_free two_used
unfolding add_free_block
four_free-Sound = sound (put-Wf (put-Wf (put-Wf (put-Wf all_given-Wf 1 refl) 2 refl) 3 refl) 4 refl)

four_free-Placed : Placed four_free
unfolding add_free_block
four_free-Placed = omega arith

four_free-memory : (a : ℕ) → four_free.memory a ≡ 0
unfolding add_free_block
four_free-memory a = refl

four_free_count : four_free.frame_count ≡ 6
unfolding add_free_block
four_free_count = refl

-- A process with an empty table.
abbrev only : ℕ → ℕ → Role
only pgd p = if p == pgd then root else other

only_at : (pgd p : ℕ) → only pgd p ≢ other → p ≡ pgd
only_at pgd p h = elim (ℕ_discrete p pgd) [
  | yes e ↦ e
  | no ne ↦ absurd (h (rw (==_ne _ _ ne) refl))
]

empty-Env :
    (i : ℕ)
    → i < 6
    → two_used i ≡ true
    → Env four_free two_used (only (frame_va four_free i)) (frame_va four_free i)
empty-Env i lt on = record {
  valid = four_free-Sound;
  placed = four_free-Placed;
  tree = record {
    root_is = ground arith;
    taken = λ p h. (i, omega (arith, four_free_count), on, only_at (frame_va four_free i) p h);
    down = λ p j wide valid.
        absurd (cc (sym valid ∙ (ap is_valid (four_free-memory (p + 8 * j)) ∙ zero-is_valid)));
    leaves = λ p k l j is_low small valid.
        absurd (cc (sym valid ∙ (ap is_valid (four_free-memory (p + 8 * j)) ∙ zero-is_valid)));
  };
}

frames_apart : (a : ℕ) → a ≡ frame_va four_free 5 → a ≢ frame_va four_free 0
unfolding add_free_block phys_to_virt_addr
frames_apart a e d = omega (arith, e, d)

two : Beside four_free (frame_va four_free 0) (frame_va four_free 5)
two = record {
  used = two_used;
  role = only (frame_va four_free 0);
  role2 = only (frame_va four_free 5);
  env = empty-Env 0 (omega arith) refl;
  env2 = empty-Env 5 (omega arith) refl;
  apart =
      λ a h. let ne = frames_apart a (only_at (frame_va four_free 5) a h) in rw (==_ne _ _ ne) refl;
}

rights : is_leaf 27 ≡ true
unfolding is_leaf
rights = refl

created_at : (vm_create_user_pgd (λ i. i) four_free).0 ≡ 0xffffffc080004000
unfolding vm_create_user_pgd alloc_pages alloc_loop take_block split_loop split_block mark_used
    list_empty add_free_block remove_free_block frame_addr phys_to_virt_addr
created_at = refl

created : (vm_create_user_pgd (λ i. i) four_free).0 ≢ 0
created z = omega (arith, sym z ∙ created_at)

map_pages_to-Maps_example :
    Maps four_free two_used
      (only (frame_va four_free 0))
      (frame_va four_free 0)
      0x40001000
      0x80200000
      27
      2
      (map_pages_to (frame_va four_free 0) 0x40001000 5000 0x80200000 27 four_free)
map_pages_to-Maps_example =
    map_pages_to-Maps (frame_va four_free 0) 0x40001000 5000 0x80200000 27
      (empty-Env 0 (omega arith) refl) refl refl (omega arith) (omega arith) (omega arith)
      (omega arith) rights

vm_create_user_pgd-Creates_example :
    Creates four_free two_used (λ i. i) (vm_create_user_pgd (λ i. i) four_free)
vm_create_user_pgd-Creates_example =
    vm_create_user_pgd-Creates (λ i. i) four_free-Sound four_free-Placed

map_pages_to-Beside_example :
    Beside
      (map_pages_to (frame_va four_free 0) 0x40001000 5000 0x80200000 27 four_free).1
      (frame_va four_free 0)
      (frame_va four_free 5)
    × ((x : ℕ)
        → x < 2 ^ 38
        → translate
            (map_pages_to (frame_va four_free 0) 0x40001000 5000 0x80200000 27 four_free).1
            (frame_va four_free 5)
            x
          ≡ translate four_free (frame_va four_free 5) x)
map_pages_to-Beside_example =
    map_pages_to-Beside (frame_va four_free 0) 0x40001000 5000 0x80200000 27 (frame_va four_free 5)
      two refl refl (omega arith) (omega arith) (omega arith) (omega arith) rights

vm_create_user_pgd-Beside_example :
    Beside
      (vm_create_user_pgd (λ i. i) four_free).1
      (vm_create_user_pgd (λ i. i) four_free).0
      (frame_va four_free 5)
    × ((x : ℕ)
        → x < 2 ^ 38
        → translate (vm_create_user_pgd (λ i. i) four_free).1 (frame_va four_free 5) x
          ≡ translate four_free (frame_va four_free 5) x)
vm_create_user_pgd-Beside_example =
    vm_create_user_pgd-Beside (λ i. i) (frame_va four_free 5) (empty-Env 5 (omega arith) refl)
      created
