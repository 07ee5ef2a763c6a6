-- ===== src/Vm/Create.antt =====
-- vm_create_user_pgd of lab6/OrangePiVer/Src/vm.c.
use mathlib.Core.Path.{subst}
use native.Mathlib.Decide.{ℕ_discrete}
use nycu_osc_lab.Prelude.{
  ℕ, ◌+◌, ◌*◌, ◌^◌, ◌≤◌, ◌<◌, ◌≡◌, ◌≢◌, refl, sym, ap, ◌∙◌, inl, inr, Bool, true, false, ◌==◌,
  if◌then◌else◌, update, arith, none, ==_ne, ==_iff,
}
use nycu_osc_lab.Mm.State.{Mm}
use nycu_osc_lab.Mm.Buddy.{alloc_pages}
use nycu_osc_lab.Mm.Buddy.Frames.{Sound}
use nycu_osc_lab.Mm.Buddy.Alloc.{Placed, alloc_pages-Allocates}
use nycu_osc_lab.Vm.{entry, clear_table, share_loop, vm_create_user_pgd, is_valid, vpn2}
use nycu_osc_lab.Vm.Entry.{zero-is_valid}
use nycu_osc_lab.Vm.Memory.{
  entry_apart, clear_table_out, share_loop_else, clear_table_in, share_loop-OnlyMemory,
  share_loop_in, share_loop_out,
}
use nycu_osc_lab.Vm.Tree.{
  translate, Role, other, root, span, Taken, Taken-IsPage, Tree, translate-ends, user_vpn2,
}
use nycu_osc_lab.Vm.Spares.{Spares}
use nycu_osc_lab.Vm.Grow.{
  Full, Taken_mono, unlike_new, Env, NewPage, new_page, new-IsPage, new_is_taken, cleared-Sound,
  cleared-SameManaged, SameManaged, SameManaged-Placed, OnlyMemory-Sound, OnlyMemory-SameManaged,
}

-- What vm_create_user_pgd does.
pub data Creates (m : Mm) (used : ℕ → Bool) (early_pgd : ℕ → ℕ) : ℕ × Mm → Type 0 where
  no_memory : {r : ℕ × Mm} → r ≡ (0, m) → Full m → Creates m used early_pgd r
  creates :
      {r : ℕ × Mm} {role : ℕ → Role} (f : ℕ)
      → used f ≡ false
      → Env r.1 (update used f true) role r.0
      → Spares m used (λ p. other) r.1 (update used f true) role
      → ((x : ℕ) → x < 2 ^ 38 → translate r.1 r.0 x ≡ none)
      → ((i : ℕ) → 256 ≤ i → i < 512 → entry r.1 r.0 i ≡ early_pgd i)
      → Creates m used early_pgd r

create_null :
    (early_pgd : ℕ → ℕ) (m : Mm)
    → (alloc_pages 0 m).0 ≡ 0
    → vm_create_user_pgd early_pgd m ≡ (0, (alloc_pages 0 m).1)
unfolding vm_create_user_pgd
create_null early_pgd m z = rw ((==_iff _ _).1 z) refl

create_pgd :
    (early_pgd : ℕ → ℕ) (m : Mm)
    → (alloc_pages 0 m).0 ≢ 0
    → vm_create_user_pgd early_pgd m ≡ (
      (alloc_pages 0 m).0,
      share_loop 256 256
          (alloc_pages 0 m).0
          early_pgd
          (clear_table (alloc_pages 0 m).0 (alloc_pages 0 m).1),
    )
unfolding vm_create_user_pgd
create_pgd early_pgd m nz = rw (==_ne _ _ nz) refl

module _ {m : Mm} {used : ℕ → Bool} (placed : Placed m) (early_pgd : ℕ → ℕ) {m1 : Mm} {f q : ℕ}
    (new : NewPage m used q m1 f) where
  shared : Mm
  shared = share_loop 256 256 q early_pgd (clear_table q m1)

  shared-SameManaged : SameManaged m shared
  unfolding shared
  shared-SameManaged =
      let o = share_loop-OnlyMemory 256 256 q early_pgd (clear_table q m1) in
      let s = OnlyMemory-SameManaged (clear_table q m1) shared o in
      let c = cleared-SameManaged placed new in (s.0 ∙ c.0, s.1 ∙ c.1, s.2 ∙ c.2)

  only_root : ℕ → Role
  only_root p = if p == q then root else other

  root_is_q : (p : ℕ) → only_root p ≢ other → p ≡ q
  unfolding only_root
  root_is_q p h = elim (ℕ_discrete p q) [ yes e ↦ e | no ne ↦ absurd (h (rw (==_ne _ _ ne) refl)) ]

  low_half : (i : ℕ) → i < 256 → is_valid (entry shared q i) ≡ false
  unfolding shared
  low_half i lt =
      ap is_valid (
        share_loop_out 256 256 q i early_pgd (clear_table q m1) lt
        ∙ clear_table_in q i m1 (omega arith))
      ∙ zero-is_valid

  root_at_q : only_root q ≡ root
  unfolding only_root
  root_at_q = ground arith

  shared-taken : Taken shared (update used f true) q
  shared-taken =
      let (i, lt, u, e) = new_is_taken placed new in
      (i, omega (arith, shared-SameManaged, lt), u, omega (arith, shared-SameManaged, e))

  shared-Tree : Tree shared (update used f true) only_root q
  shared-Tree = record {
    root_is = root_at_q;
    taken = λ p h. subst (Taken shared (update used f true)) (sym (root_is_q p h)) shared-taken;
    down = λ p i wide on.
        let is_q : p ≡ q = root_is_q p (λ e. omega (arith, wide, ap span e)) in
        let lt : i < 256 = omega (arith, wide, ap span (ap only_root is_q ∙ root_at_q)) in
        absurd (cc (sym on ∙ (ap (λ t. is_valid (entry shared t i)) is_q ∙ low_half i lt)));
    leaves = λ p k j i is_low lt on.
        let is_q : p ≡ q = root_is_q p (λ e. absurd (cc (sym is_low ∙ e))) in
        absurd (cc (sym is_low ∙ (ap only_root is_q ∙ root_at_q)));
  }

  shared-Env : Env shared (update used f true) only_root q
  unfolding shared
  shared-Env = record {
    valid =
        OnlyMemory-Sound (share_loop-OnlyMemory 256 256 q early_pgd (clear_table q m1))
          (cleared-Sound placed new);
    placed = SameManaged-Placed shared-SameManaged placed;
    tree = shared-Tree;
  }

  shared-Spares : Spares m used (λ p. other) shared (update used f true) only_root
  unfolding shared only_root
  shared-Spares = record {
    still_taken = λ a h. Taken_mono m shared f shared-SameManaged h;
    not_in = λ a h e. let ne = unlike_new placed new a h in rw (==_ne _ _ ne) refl;
    same = λ a j h e lt.
        let page = Taken-IsPage placed h in
        let page_q = new-IsPage placed new in
        let ne = unlike_new placed new a h in
        share_loop_else 256 256 q (a + 8 * j) early_pgd (clear_table q m1)
          (λ k lo hi d. ne (entry_apart a q j k page.0 page_q.0 lt hi d).0)
        ∙ (clear_table_out q a j m1 page_q.0 page.0 ne lt ∙ ap (λ x. x (a + 8 * j)) new.range.4);
  }

  untranslated : (x : ℕ) → x < 2 ^ 38 → translate shared q x ≡ none
  untranslated x h = translate-ends shared q x (low_half (vpn2 x) (user_vpn2 x h))

  shared_kernel : (i : ℕ) → 256 ≤ i → i < 512 → entry shared q i ≡ early_pgd i
  unfolding shared
  shared_kernel i lo hi = share_loop_in 256 256 q i early_pgd (clear_table q m1) lo hi

-- vm_create_user_pgd returns 0 when no page is free, and changes nothing. Otherwise it takes a page for
-- a table that translates no user address, has the kernel's entries in its upper half, and spares the
-- pages that were given out before.
pub vm_create_user_pgd-Creates :
    (early_pgd : ℕ → ℕ) {m : Mm} {used : ℕ → Bool}
    → Sound m used
    → Placed m
    → Creates m used early_pgd (vm_create_user_pgd early_pgd m)
unfolding shared
vm_create_user_pgd-Creates early_pgd {m} {used} valid placed =
    elim (new_page (alloc_pages-Allocates 0 valid placed)) [
      | inl (z, same, full) ↦ no_memory (create_null early_pgd m z ∙ ap (λ x. (0, x)) same) full
      | inr (f, new) ↦
          let page = new-IsPage placed new in
          subst (Creates m used early_pgd)
            (sym (create_pgd early_pgd m (λ z. omega (arith, page, z))))
            (creates f new.unused (shared-Env placed early_pgd new)
              (shared-Spares placed early_pgd new) (untranslated placed early_pgd new)
              (shared_kernel placed early_pgd new))
    ]
