-- ===== src/Vm/Map.antt =====
-- map_pages_to of lab6/OrangePiVer/Src/vm.c against the translation of the CPU.
use mathlib.Core.Path.{subst}
use nycu_osc_lab.Prelude.{
  ℕ, zero, suc, ◌+◌, ◌-◌, ◌*◌, ◌/◌, ◌%◌, ◌^◌, ◌≤◌, ◌<◌, ◌≡◌, ◌≢◌, refl, sym, ap, ◌∙◌, ◌⊎◌, inl, inr,
  Bool, true, false, arith, none, ==_ne, u64, minus_one,
}
use nycu_osc_lab.Mm.State.{Mm, page_size}
use nycu_osc_lab.Vm.{is_leaf, map_page, map_loop, map_pages_to}
use nycu_osc_lab.Vm.Tree.{translate, Role, Taken-IsPage}
use nycu_osc_lab.Vm.Grow.{Env, Full}
use nycu_osc_lab.Vm.Spares.{Spares-refl}
use nycu_osc_lab.Vm.Page.{Mapped, Mapped-none, Mapped-append, Stopped, map_page-TurnOf}

-- 0 and all pages, or -1 and the pages before the one that could not be mapped.
pub data Maps (m : Mm) (used0 : ℕ → Bool) (role0 : ℕ → Role) (pgd va pa prot pages : ℕ)
    : ℕ × Mm → Type 0 where
  all_mapped :
      {r : ℕ × Mm}
      → r.0 ≡ 0
      → Mapped m used0 role0 r.1 pgd va pa prot pages
      → Maps m used0 role0 pgd va pa prot pages r
  stops :
      {r : ℕ × Mm} (n : ℕ)
      → r.0 ≡ minus_one
      → n < pages
      → Stopped m used0 role0 r.1 pgd va pa prot n
      → Maps m used0 role0 pgd va pa prot pages r

module _ (pgd va0 pa0 prot left i va pa : ℕ) (m : Mm) (at : u64 (va0 + i * 4096) ≡ va)
    (at_pa : u64 (pa0 + i * 4096) ≡ pa) where
  loop_goes :
      (map_page pgd va pa prot m).0 ≡ true
      → map_loop (suc left) i pgd va0 pa0 prot m
        ≡ map_loop left (i + 1) pgd va0 pa0 prot (map_page pgd va pa prot m).1
  unfolding map_loop
  loop_goes t = rw (at, at_pa, t) refl

  loop_stops :
      (map_page pgd va pa prot m).0 ≡ false
      → map_loop (suc left) i pgd va0 pa0 prot m ≡ (minus_one, (map_page pgd va pa prot m).1)
  unfolding map_loop
  loop_stops t = rw (at, at_pa, t) refl

Maps-step :
    {m m1 : Mm} {used0 : ℕ → Bool} {role0 : ℕ → Role} (pgd va pa prot left : ℕ) {r : ℕ × Mm}
    → va + 4096 + left * 4096 ≤ 2 ^ 38
    → (a : Mapped m used0 role0 m1 pgd va pa prot 1)
    → Maps m1 a.used a.role pgd (va + 4096) (pa + 4096) prot left r
    → Maps m used0 role0 pgd va pa prot (suc left) r
Maps-step {m} {m1} pgd va pa prot left room a (all_mapped {r} e b) =
    all_mapped e (Mapped-append m m1 r.1 pgd va pa prot left room a b)
Maps-step {m} {m1} pgd va pa prot left room a (stops {r} n e lt (b, why)) =
    stops (suc n) e (omega arith)
      (Mapped-append m m1 r.1 pgd va pa prot n (omega arith) a b, later why)
  where
    later :
        Full r.1 ⊎ (translate m1 pgd (va + 4096 + n * 4096) ≢ none)
        → Full r.1 ⊎ (translate m pgd (va + suc n * 4096) ≢ none)
    later (inl full) = inl full
    later (inr ne) = inr (λ z. ne (
        a.outside (va + 4096 + n * 4096) (omega arith) (λ lo hi. omega arith)
        ∙ (ap (translate m pgd) (omega arith) ∙ z)))

loop_ends : (i pgd va0 pa0 prot : ℕ) (m : Mm) → map_loop 0 i pgd va0 pa0 prot m ≡ (0, m)
unfolding map_loop
loop_ends i pgd va0 pa0 prot m = refl

map_loop-Maps :
    (left i pgd va0 pa0 prot va pa : ℕ) {m : Mm} {used : ℕ → Bool} {role : ℕ → Role}
    → va0 + i * 4096 ≡ va
    → pa0 + i * 4096 ≡ pa
    → va + left * 4096 ≤ 2 ^ 38
    → pa + left * 4096 ≤ 2 ^ 56
    → va % 4096 ≡ 0
    → pa % 4096 ≡ 0
    → prot < 2 ^ 10
    → is_leaf prot ≡ true
    → Env m used role pgd
    → Maps m used role pgd va pa prot left (map_loop left i pgd va0 pa0 prot m)
map_loop-Maps zero i pgd va0 pa0 prot va pa {m} {used} {role} at at_pa h h_pa al al_pa small maps
      env =
    subst (Maps m used role pgd va pa prot 0) (sym (loop_ends i pgd va0 pa0 prot m))
      (all_mapped refl (Mapped-none va pa prot env (Spares-refl m used role) (λ x lt. refl)))
map_loop-Maps (suc left) i pgd va0 pa0 prot va pa {m} {used} {role} at at_pa h h_pa al al_pa small
      maps env =
    let word : u64 (va0 + i * 4096) ≡ va = omega arith in
    let word_pa : u64 (pa0 + i * 4096) ≡ pa = omega arith in
    elim (map_page-TurnOf pgd va pa prot (omega arith) al al_pa (omega arith) small maps env) [
      | inl (t, a) ↦
          subst (Maps m used role pgd va pa prot (suc left))
            (sym (loop_goes pgd va0 pa0 prot left i va pa m word word_pa t))
            (Maps-step pgd va pa prot left (omega arith) a (
              map_loop-Maps left (i + 1) pgd va0 pa0 prot (va + 4096) (pa + 4096) (omega arith)
                (omega arith) (omega arith) (omega arith) (omega arith) (omega arith) small maps
                a.env))
      | inr (t, s) ↦
          subst (Maps m used role pgd va pa prot (suc left))
            (sym (loop_stops pgd va0 pa0 prot left i va pa m word word_pa t))
            (stops 0 refl (omega arith) s)
    ]

map_pages_to_loop :
    (pgd va size pa prot : ℕ) (m : Mm)
    → pgd ≢ 0
    → size ≢ 0
    → map_pages_to pgd va size pa prot m
      ≡ map_loop (u64 (size + page_size - 1) / page_size) 0 pgd va pa prot m
unfolding map_pages_to
map_pages_to_loop pgd va size pa prot m a b = rw (==_ne _ _ a, ==_ne _ _ b) refl

-- For the table `pgd` of a process, a range of user addresses and one of physical addresses that both
-- begin at a page, and flags with at least one right: map_pages_to returns 0, all pages of the range led
-- nowhere before and now lead to the physical range with the flags and PTE_V; or it returns -1, this is
-- so for `n` pages, fewer than all, and memory has run out or the page behind them led somewhere
-- already. In both cases no other user address leads elsewhere than before, and the allocator and the
-- tree of tables stay sound.
pub map_pages_to-Maps :
    (pgd va size pa prot : ℕ) {m : Mm} {used : ℕ → Bool} {role : ℕ → Role}
    → Env m used role pgd
    → va % 4096 ≡ 0
    → pa % 4096 ≡ 0
    → 0 < size
    → va + size ≤ 2 ^ 38
    → pa + size ≤ 2 ^ 56
    → prot < 2 ^ 10
    → is_leaf prot ≡ true
    → Maps m used role pgd va pa prot ((size + 4095) / 4096) (map_pages_to pgd va size pa prot m)
map_pages_to-Maps pgd va size pa prot {m} {used} {role} env al al_pa some_size room room_pa small
      maps =
    let page =
      Taken-IsPage env.placed (env.tree.taken pgd (λ e. absurd (cc (sym env.tree.root_is ∙ e)))) in
    let pages : u64 (size + page_size - 1) / page_size ≡ (size + 4095) / 4096 = omega arith in
    subst (Maps m used role pgd va pa prot ((size + 4095) / 4096))
      (sym (
        map_pages_to_loop pgd va size pa prot m (λ e. omega (arith, page)) (λ e. omega arith)
        ∙ ap (λ n. map_loop n 0 pgd va pa prot m) pages))
      (map_loop-Maps ((size + 4095) / 4096) 0 pgd va pa prot va pa (omega arith) (omega arith)
        (omega arith) (omega arith) al al_pa small maps env)
