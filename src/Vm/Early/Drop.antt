-- ===== src/Vm/Early/Drop.antt =====
-- drop_identity_map of lab6/OrangePiVer/Src/vm.c.
use mathlib.Core.Path.{subst}
use native.Mathlib.Decide.{ℕ_discrete}
use nycu_osc_lab.Prelude.{
  ℕ, zero, suc, ◌+◌, ◌*◌, ◌/◌, ◌%◌, ◌^◌, ◌≤◌, ◌<◌, ◌≡◌, refl, sym, ap, ◌∙◌, update, arith, none,
  some,
}
use nycu_osc_lab.Mm.State.{kernel_va_offset}
use nycu_osc_lab.Vm.{vpn2}
use nycu_osc_lab.Vm.Entry.{zero-is_valid}
use nycu_osc_lab.Vm.Early.{Addresses, Early, setup_vm, drop_loop, drop_identity_map}
use nycu_osc_lab.Vm.Early.Tables.{to_table}
use nycu_osc_lab.Vm.Early.Window.{Sliced, setup_vm-Sliced}
use nycu_osc_lab.Vm.Early.Translate.{word, early_translate, Laid, word_pgd, ends_at_root}
use nycu_osc_lab.Vm.Early.Map.{flags_of, Inner, setup_vm-Inner, upper_translate}

-- drop_loop clears entries of the root and nothing else.
drop_loop_form :
    (left i : ℕ) (s : Early)
    → drop_loop left i s ≡ record s { early_pgd = (drop_loop left i s).early_pgd }
unfolding drop_loop
drop_loop_form zero i s = refl
drop_loop_form (suc left) i s =
    drop_loop_form left (i + 1) (record s { early_pgd = update s.early_pgd i 0 })

drop_loop_out :
    (left i j : ℕ) (s : Early)
    → (i ≤ j → j < i + left → ⊥)
    → (drop_loop left i s).early_pgd j ≡ s.early_pgd j
unfolding drop_loop
drop_loop_out zero i j s h = refl
drop_loop_out (suc left) i j s h =
    drop_loop_out left (i + 1) j (record s { early_pgd = update s.early_pgd i 0 })
      (λ lo hi. h (omega arith) (omega arith))
    ∙ ground (arith, h)

drop_loop_in :
    (left i j : ℕ) (s : Early) → i ≤ j → j < i + left → (drop_loop left i s).early_pgd j ≡ 0
unfolding drop_loop
drop_loop_in zero i j s lo hi = absurd (omega arith)
drop_loop_in (suc left) i j s lo hi =
    let s1 = record s { early_pgd = update s.early_pgd i 0 } in
    elim (ℕ_discrete j i) [
      | yes e ↦ drop_loop_out left (i + 1) j s1 (λ a b. omega arith) ∙ ground (arith, e)
      | no ne ↦ drop_loop_in left (i + 1) j s1 (omega arith) (omega arith)
    ]

with_pgd-Inner :
    (a : Addresses) (s : Early) (table : ℕ → ℕ)
    → Inner a s
    → Inner a (record s { early_pgd = table })
with_pgd-Inner a s table w = record { root = w.root; big = w.big; slice = w.slice; pages = w.pages }

user_vpn2 : (va : ℕ) → va < 2 ^ 38 → vpn2 va < 256
unfolding vpn2
user_vpn2 va h = omega arith

-- When the three tables are at pages of their own: after setup_vm and drop_identity_map, no virtual
-- address of the lower half leads anywhere, and every physical address below 10 GiB is still reached at
-- KERNEL_VA_OFFSET plus it, with the same flags.
pub drop_identity_map-early_translate :
    (a : Addresses) (s : Early)
    → Laid a
    → ((va : ℕ) → va < 2 ^ 38 → early_translate a (drop_identity_map (setup_vm a s)) va ≡ none)
      × ((pa : ℕ)
          → pa < 10 * 2 ^ 30
          → early_translate a (drop_identity_map (setup_vm a s)) (kernel_va_offset + pa)
            ≡ some (pa, flags_of pa))
unfolding drop_identity_map
drop_identity_map-early_translate a s l = (
  λ va h.
      let lt = user_vpn2 va h in
      ends_at_root a s2 va 0 0 (at_root va (omega (arith, lt)) ∙ gone (vpn2 va) lt) zero-is_valid,
  λ pa h. upper_translate pa l inner upper h,
)
  where
    s1 : Early
    s1 = setup_vm a s

    s2 : Early
    s2 = drop_loop 10 0 s1

    w : Sliced a 3 s1
    w = setup_vm-Sliced a s

    inner : Inner a s2
    inner =
        subst (Inner a) (sym (drop_loop_form 10 0 s1))
          (with_pgd-Inner a s1 s2.early_pgd (setup_vm-Inner a s l))

    upper : (g : ℕ) → g < 10 → s2.early_pgd (256 + g) ≡ to_table (a.pmd + 4096 * g)
    upper g h = drop_loop_out 10 0 (256 + g) s1 (λ lo hi. omega arith) ∙ w.upper g h

    gone : (i : ℕ) → i < 256 → s2.early_pgd i ≡ 0
    gone i h = elim (ℕ_discrete (i / 10) 0) [
      | yes e ↦ drop_loop_in 10 0 i s1 (omega arith) (omega arith)
      | no ne ↦ drop_loop_out 10 0 i s1 (λ lo hi. omega arith) ∙ w.rest i (omega arith) h
    ]

    at_root :
        (va : ℕ)
        → vpn2 va < 512
        → word a s2 (s2.satp % 2 ^ 44 * 2 ^ 12 + 8 * vpn2 va) ≡ s2.early_pgd (vpn2 va)
    at_root va h = ap (λ r. word a s2 (r + 8 * vpn2 va)) inner.root ∙ word_pgd l s2 (vpn2 va) h
