-- ===== src/Vm/Tree.antt =====
-- The tree of page tables that lab6/OrangePiVer/Src/vm.c builds for a user process, and the address
-- translation of the CPU (RISC-V Sv39) on it.
use nycu_osc_lab.Prelude.{
  ℕ, ◌+◌, ◌*◌, ◌/◌, ◌%◌, ◌^◌, ◌<◌, ◌≡◌, ◌≢◌, refl, ap, ◌∙◌, inl, inr, Bool, true, false, not, ◌&&◌,
  if◌then◌else◌, Option, none, some, Bool-cases, arith,
}
use nycu_osc_lab.Mm.State.{Mm}
use nycu_osc_lab.Mm.Buddy.Alloc.{Placed, frame_va}
use nycu_osc_lab.Vm.{entry, is_valid, is_leaf, pte_to_pa, vpn0, vpn1, vpn2}
use nycu_osc_lab.Vm.Entry.{next_table, IsPage, zero-is_valid}

-- What the CPU makes of a virtual address: the physical address and the flags of the entry. Where it
-- reads physical memory, the model reads it through the linear mapping.
pub translate : Mm → ℕ → ℕ → Option (ℕ × ℕ)
translate m pgd va =
    let e2 = entry m pgd (va / 2 ^ 30 % 512) in
    let e1 = entry m (next_table e2) (va / 2 ^ 21 % 512) in
    let e0 = entry m (next_table e1) (va / 2 ^ 12 % 512) in
    if not (is_valid e2)
    then none
    else if is_leaf e2
    then some (pte_to_pa e2 / 2 ^ 30 * 2 ^ 30 + va % 2 ^ 30, e2 % 2 ^ 10)
    else if not (is_valid e1)
    then none
    else if is_leaf e1
    then some (pte_to_pa e1 / 2 ^ 21 * 2 ^ 21 + va % 2 ^ 21, e1 % 2 ^ 10)
    else if is_valid e0 && is_leaf e0
    then some (pte_to_pa e0 + va % 2 ^ 12, e0 % 2 ^ 10)
    else none

-- The part of a page in the tree: the table of the process, the table below its entry k, and the one
-- below the entry j of that.
pub data Role : Type 0 where
  other root : Role
  mid : ℕ → Role
  low : ℕ → ℕ → Role

abbrev pub child : Role → ℕ → Role
child other i = other
child root i = mid i
child (mid k) i = low k i
child (low k j) i = other

-- How many entries of the page lead to tables of the process: the upper half of the root is the kernel's.
abbrev pub span : Role → ℕ
span other = 0
span root = 256
span (mid k) = 512
span (low k j) = 0

pub span_small : (r : Role) (i : ℕ) → i < span r → i < 512
span_small other i h = absurd (omega arith)
span_small root i h = omega arith
span_small (mid k) i h = omega arith
span_small (low k j) i h = absurd (omega arith)

-- The page is one that the allocator gave out.
abbrev pub Taken : Mm → (ℕ → Bool) → ℕ → Type 0
Taken m used p = (i : ℕ) × (i < m.frame_count) × (used i ≡ true) × (p ≡ frame_va m i)

pub record Tree (m : Mm) (used : ℕ → Bool) (role : ℕ → Role) (pgd : ℕ) : Type 0 where
  pub root_is : role pgd ≡ root
  pub taken : (p : ℕ) → role p ≢ other → Taken m used p
  pub down :
      (p i : ℕ)
      → i < span (role p)
      → is_valid (entry m p i) ≡ true
      → (is_leaf (entry m p i) ≡ false) × (role (next_table (entry m p i)) ≡ child (role p) i)
  pub leaves :
      (p k j i : ℕ)
      → role p ≡ low k j
      → i < 512
      → is_valid (entry m p i) ≡ true
      → is_leaf (entry m p i) ≡ true

pub Taken-IsPage : {m : Mm} {used : ℕ → Bool} {p : ℕ} → Placed m → Taken m used p → IsPage p
Taken-IsPage {m} pl (i, lt, u, e) = omega (arith, pl.mapped, pl.size_is, pl.base_aligned)

-- The way of an address through the tables of the tree.
pub data Way (m : Mm) (role : ℕ → Role) (pgd va : ℕ) : Type 0 where
  ends : is_valid (entry m pgd (vpn2 va)) ≡ false → Way m role pgd va
  ends_mid :
      (p : ℕ)
      → is_valid (entry m pgd (vpn2 va)) ≡ true
      → is_leaf (entry m pgd (vpn2 va)) ≡ false
      → next_table (entry m pgd (vpn2 va)) ≡ p
      → role p ≡ mid (vpn2 va)
      → is_valid (entry m p (vpn1 va)) ≡ false
      → Way m role pgd va
  arrives :
      (p q : ℕ)
      → is_valid (entry m pgd (vpn2 va)) ≡ true
      → is_leaf (entry m pgd (vpn2 va)) ≡ false
      → next_table (entry m pgd (vpn2 va)) ≡ p
      → role p ≡ mid (vpn2 va)
      → is_valid (entry m p (vpn1 va)) ≡ true
      → is_leaf (entry m p (vpn1 va)) ≡ false
      → next_table (entry m p (vpn1 va)) ≡ q
      → role q ≡ low (vpn2 va) (vpn1 va)
      → Way m role pgd va

pub user_vpn2 : (va : ℕ) → va < 2 ^ 38 → vpn2 va < 256
unfolding vpn2
user_vpn2 va h = omega arith

pub vpn1_lt : (va : ℕ) → vpn1 va < 512
unfolding vpn1
vpn1_lt va = omega arith

pub vpn0_lt : (va : ℕ) → vpn0 va < 512
unfolding vpn0
vpn0_lt va = omega arith

-- The way of a user address never leaves the tree.
pub Tree-Way :
    {m : Mm} {used : ℕ → Bool} {role : ℕ → Role} {pgd : ℕ} (va : ℕ)
    → Tree m used role pgd
    → va < 2 ^ 38
    → Way m role pgd va
Tree-Way {m} {used} {role} {pgd} va t h = elim (Bool-cases (is_valid (entry m pgd (vpn2 va)))) [
  | inr off ↦ ends off
  | inl on ↦
      let p = next_table (entry m pgd (vpn2 va)) in
      let wide : vpn2 va < span (role pgd) = ground (arith, t.root_is, user_vpn2 va h) in
      let (inner, r) = t.down pgd (vpn2 va) wide on in
      let is_mid : role p ≡ mid (vpn2 va) = r ∙ ap (λ x. child x (vpn2 va)) t.root_is in
      elim (Bool-cases (is_valid (entry m p (vpn1 va)))) [
        | inr off ↦ ends_mid p on inner refl is_mid off
        | inl on1 ↦
            let wide1 : vpn1 va < span (role p) = ground (arith, is_mid, vpn1_lt va) in
            let (inner1, r1) = t.down p (vpn1 va) wide1 on1 in
            arrives p (next_table (entry m p (vpn1 va))) on inner refl is_mid on1 inner1 refl
              (r1 ∙ ap (λ x. child x (vpn1 va)) is_mid)
      ]
]

-- What the last entry says.
pub last : ℕ → ℕ → Option (ℕ × ℕ)
last pte va =
    if is_valid pte && is_leaf pte then some (pte_to_pa pte + va % 2 ^ 12, pte % 2 ^ 10) else none

pub translate-ends :
    (m : Mm) (pgd va : ℕ) → is_valid (entry m pgd (vpn2 va)) ≡ false → translate m pgd va ≡ none
unfolding translate vpn2 vpn1 vpn0
translate-ends m pgd va h = rw h refl

pub translate-ends_mid :
    (m : Mm) (pgd va p : ℕ)
    → is_valid (entry m pgd (vpn2 va)) ≡ true
    → is_leaf (entry m pgd (vpn2 va)) ≡ false
    → next_table (entry m pgd (vpn2 va)) ≡ p
    → is_valid (entry m p (vpn1 va)) ≡ false
    → translate m pgd va ≡ none
unfolding translate vpn2 vpn1 vpn0
translate-ends_mid m pgd va p a b e c = rw (a, b, e, c) refl

pub translate-arrives :
    (m : Mm) (pgd va p q : ℕ)
    → is_valid (entry m pgd (vpn2 va)) ≡ true
    → is_leaf (entry m pgd (vpn2 va)) ≡ false
    → next_table (entry m pgd (vpn2 va)) ≡ p
    → is_valid (entry m p (vpn1 va)) ≡ true
    → is_leaf (entry m p (vpn1 va)) ≡ false
    → next_table (entry m p (vpn1 va)) ≡ q
    → translate m pgd va ≡ last (entry m q (vpn0 va)) va
unfolding translate last vpn2 vpn1 vpn0
translate-arrives m pgd va p q a b e c d f = rw (a, b, e, c, d, f) refl

pub last-zero : (va : ℕ) → last 0 va ≡ none
unfolding last
last-zero va = rw zero-is_valid refl

pub last-mapped :
    (pte va : ℕ)
    → is_valid pte ≡ true
    → is_leaf pte ≡ true
    → last pte va ≡ some (pte_to_pa pte + va % 2 ^ 12, pte % 2 ^ 10)
unfolding last
last-mapped pte va on maps = rw (on, maps) refl

pub last-invalid : (pte va : ℕ) → is_valid pte ≡ false → last pte va ≡ none
unfolding last
last-invalid pte va off = rw off refl
