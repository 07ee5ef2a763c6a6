-- ===== src/Vm/Descend.antt =====
-- walk_create of lab6/OrangePiVer/Src/vm.c, which makes the tables that are missing.
use mathlib.Core.Path.{subst}
use nycu_osc_lab.Prelude.{
  ℕ, ◌+◌, ◌*◌, ◌^◌, ◌<◌, ◌≡◌, ◌≢◌, refl, sym, ap, ◌∙◌, inl, inr, Bool, true, false, update, arith,
  update_here, Bool-cases, Option, none, some, ==_ne, ==_iff,
}
use nycu_osc_lab.Mm.State.{Mm}
use nycu_osc_lab.Mm.Buddy.{alloc_pages}
use nycu_osc_lab.Mm.Buddy.Alloc.{alloc_pages-Allocates}
use nycu_osc_lab.Vm.{
  entry, set_entry, clear_table, is_valid, is_leaf, descend, walk_create, walk_pmd, pte_slot, vpn0,
  vpn1, vpn2,
}
use nycu_osc_lab.Vm.Entry.{next_table, IsLink, link}
use nycu_osc_lab.Vm.Tree.{translate, Role, other, mid, low, child, span, user_vpn2, vpn1_lt}
use nycu_osc_lab.Vm.Walk.{
  Grown, grown_role, Grown-translate, keeps, old_role, root_alive, IsLink-at,
}
use nycu_osc_lab.Vm.Grow.{Full, Env, new_page, new-IsPage, made, made-Grown, made-Env, made-Spares}
use nycu_osc_lab.Vm.Spares.{Spares, Spares-refl, Spares-trans}

-- What one level of walk_create does.
pub data Descends (m : Mm) (used : ℕ → Bool) (role : ℕ → Role) (pgd p i : ℕ)
    : Option ℕ × Mm → Type 0 where
  out_of_memory : {r : Option ℕ × Mm} → r ≡ (none, m) → Full m → Descends m used role pgd p i r
  there :
      {r : Option ℕ × Mm} (q : ℕ)
      → r ≡ (some q, m)
      → IsLink (entry m p i) q
      → role q ≡ child (role p) i
      → Descends m used role pgd p i r
  makes :
      {r : Option ℕ × Mm} {m' : Mm} (q f : ℕ)
      → r ≡ (some q, m')
      → Grown m m' role p i q
      → Env m' (update used f true) (grown_role role p i q) pgd
      → Spares m used role m' (update used f true) (grown_role role p i q)
      → Descends m used role pgd p i r

descend_new :
    (p i : ℕ) (m : Mm)
    → is_valid (entry m p i) ≡ false
    → (alloc_pages 0 m).0 ≢ 0
    → descend p i m ≡ (
      some (alloc_pages 0 m).0,
      set_entry p i
          (link (alloc_pages 0 m).0)
          (clear_table (alloc_pages 0 m).0 (alloc_pages 0 m).1),
    )
unfolding descend link
descend_new p i m off nz = rw (off, ==_ne _ _ nz) refl

descend_null :
    (p i : ℕ) (m : Mm)
    → is_valid (entry m p i) ≡ false
    → (alloc_pages 0 m).0 ≡ 0
    → descend p i m ≡ (none, (alloc_pages 0 m).1)
unfolding descend
descend_null p i m off z = rw (off, (==_iff _ _).1 z) refl

descend_there :
    (p i : ℕ) (m : Mm)
    → is_valid (entry m p i) ≡ true
    → is_leaf (entry m p i) ≡ false
    → descend p i m ≡ (some (next_table (entry m p i)), m)
unfolding descend next_table
descend_there p i m on inner = rw (on, inner) refl

pub descend-Descends :
    {m : Mm} {used : ℕ → Bool} {role : ℕ → Role} {pgd : ℕ} (p i : ℕ)
    → Env m used role pgd
    → i < span (role p)
    → Descends m used role pgd p i (descend p i m)
unfolding made
descend-Descends {m} {used} {role} {pgd} p i env wide = elim (Bool-cases (is_valid (entry m p i))) [
  | inl on ↦
      let (inner, r) = env.tree.down p i wide on in
      there (next_table (entry m p i)) (descend_there p i m on inner)
        (record { valid = on; inner = inner; to = refl }) r
  | inr off ↦ elim (new_page (alloc_pages-Allocates 0 env.valid env.placed)) [
    | inl (z, same, full) ↦ out_of_memory (descend_null p i m off z ∙ ap (λ x. (none, x)) same) full
    | inr (f, new) ↦
        let page = new-IsPage env.placed new in
        makes (alloc_pages 0 m).0 f (descend_new p i m off (λ z. omega (arith, page, z)))
          (made-Grown env new p i wide off) (made-Env env new p i wide off)
          (made-Spares env new p i wide off)
  ]
]

-- What walk_create does: no translation of a user address changes; and unless memory runs out, the
-- result is the entry for the page of `va` in the last table.
pub data Walks (m : Mm) (used0 : ℕ → Bool) (role0 : ℕ → Role) (pgd va : ℕ)
    : Option ℕ × Mm → Type 0 where
  fails_to :
      {r : Option ℕ × Mm} {used : ℕ → Bool} {role : ℕ → Role}
      → r.0 ≡ none
      → Full r.1
      → Env r.1 used role pgd
      → Spares m used0 role0 r.1 used role
      → ((x : ℕ) → x < 2 ^ 38 → translate r.1 pgd x ≡ translate m pgd x)
      → Walks m used0 role0 pgd va r
  finds :
      {r : Option ℕ × Mm} {used : ℕ → Bool} {role : ℕ → Role} (p q : ℕ)
      → r.0 ≡ some (q + 8 * vpn0 va)
      → Env r.1 used role pgd
      → Spares m used0 role0 r.1 used role
      → ((x : ℕ) → x < 2 ^ 38 → translate r.1 pgd x ≡ translate m pgd x)
      → IsLink (entry r.1 pgd (vpn2 va)) p
      → role p ≡ mid (vpn2 va)
      → IsLink (entry r.1 p (vpn1 va)) q
      → role q ≡ low (vpn2 va) (vpn1 va)
      → Walks m used0 role0 pgd va r

walk_stops :
    (pgd va : ℕ) (m m1 : Mm)
    → descend pgd (vpn2 va) m ≡ (none, m1)
    → walk_create pgd va m ≡ (none, m1)
unfolding walk_create walk_pmd pte_slot
walk_stops pgd va m m1 e = ap (walk_pmd va) e

walk_stops_below :
    (pgd va p : ℕ) (m m1 m2 : Mm)
    → descend pgd (vpn2 va) m ≡ (some p, m1)
    → descend p (vpn1 va) m1 ≡ (none, m2)
    → walk_create pgd va m ≡ (none, m2)
unfolding walk_create walk_pmd pte_slot
walk_stops_below pgd va p m m1 m2 e d = ap (walk_pmd va) e ∙ ap (pte_slot va) d

walk_arrives :
    (pgd va p q : ℕ) (m m1 m2 : Mm)
    → descend pgd (vpn2 va) m ≡ (some p, m1)
    → descend p (vpn1 va) m1 ≡ (some q, m2)
    → walk_create pgd va m ≡ (some (q + 8 * vpn0 va), m2)
unfolding walk_create walk_pmd pte_slot
walk_arrives pgd va p q m m1 m2 e d = ap (walk_pmd va) e ∙ ap (pte_slot va) d

-- The second level, from the table that the first one led to.
walk_below :
    {m m1 : Mm} {used0 used : ℕ → Bool} {role0 role : ℕ → Role} {pgd : ℕ} (va p : ℕ)
    → descend pgd (vpn2 va) m ≡ (some p, m1)
    → Env m1 used role pgd
    → Spares m used0 role0 m1 used role
    → va < 2 ^ 38
    → ((x : ℕ) → x < 2 ^ 38 → translate m1 pgd x ≡ translate m pgd x)
    → IsLink (entry m1 pgd (vpn2 va)) p
    → role p ≡ mid (vpn2 va)
    → Walks m used0 role0 pgd va (walk_create pgd va m)
walk_below {m} {m1} {used0} {used} {role0} {role} {pgd} va p e env spared h same to_p is_mid =
    let wide : vpn1 va < span (role p) = ground (arith, is_mid, vpn1_lt va) in
    let small : vpn2 va < 512 = omega (arith, user_vpn2 va h) in
    elim (descend-Descends p (vpn1 va) env wide) [
      | out_of_memory d full ↦
          subst (Walks m used0 role0 pgd va) (sym (walk_stops_below pgd va p m m1 m1 e d))
            (fails_to refl full env spared same)
      | there q d to_q r ↦
          subst (Walks m used0 role0 pgd va) (sym (walk_arrives pgd va p q m m1 m1 e d)) (
            finds p q refl env spared same to_p is_mid to_q
              (r ∙ ap (λ x. child x (vpn1 va)) is_mid))
      | makes {m'} q f d g env' spared' ↦
          let kept =
            keeps env.tree g wide pgd (vpn2 va) (root_alive env.tree g wide) small to_p.valid in
          let alive : role p ≢ other = λ o. absurd (cc (sym is_mid ∙ o)) in
          subst (Walks m used0 role0 pgd va) (sym (walk_arrives pgd va p q m m1 m' e d)) (
            finds p q refl env' (Spares-trans spared spared')
              (λ x lt. Grown-translate env.tree g wide x lt ∙ same x lt) (IsLink-at kept to_p)
              (old_role env.tree g wide p alive ∙ is_mid) g.now
              (update_here role q (child (role p) (vpn1 va)) ∙ ap (λ x. child x (vpn1 va)) is_mid))
    ]

pub walk_create-Walks :
    {m : Mm} {used : ℕ → Bool} {role : ℕ → Role} {pgd : ℕ} (va : ℕ)
    → Env m used role pgd
    → va < 2 ^ 38
    → Walks m used role pgd va (walk_create pgd va m)
walk_create-Walks {m} {used} {role} {pgd} va env h =
    let wide : vpn2 va < span (role pgd) = ground (arith, env.tree.root_is, user_vpn2 va h) in
    elim (descend-Descends pgd (vpn2 va) env wide) [
      | out_of_memory d full ↦
          subst (Walks m used role pgd va) (sym (walk_stops pgd va m m d))
            (fails_to refl full env (Spares-refl m used role) (λ x lt. refl))
      | there p d to_p r ↦
          walk_below va p d env (Spares-refl m used role) h (λ x lt. refl) to_p
            (r ∙ ap (λ x. child x (vpn2 va)) env.tree.root_is)
      | makes p f d g env' spared ↦
          walk_below va p d env' spared h (λ x lt. Grown-translate env.tree g wide x lt) g.now
            (update_here role p (child (role pgd) (vpn2 va))
              ∙ ap (λ x. child x (vpn2 va)) env.tree.root_is)
    ]
