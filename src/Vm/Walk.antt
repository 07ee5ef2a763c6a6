-- ===== src/Vm/Walk.antt =====
-- A new table in the tree of lab6/OrangePiVer/Src/vm.c changes no translation.
use mathlib.Core.Path.{subst}
use native.Mathlib.Decide.{ℕ_discrete}
use nycu_osc_lab.Prelude.{
  ℕ, ◌+◌, ◌*◌, ◌^◌, ◌<◌, ◌≡◌, ◌≢◌, refl, sym, ap, ◌∙◌, ◌⊎◌, inl, inr, Bool, true, false, update,
  arith, update_here,
}
use nycu_osc_lab.Mm.State.{Mm}
use nycu_osc_lab.Vm.{entry, is_valid, is_leaf, vpn0, vpn1, vpn2}
use nycu_osc_lab.Vm.Entry.{next_table, IsLink, zero-is_valid}
use nycu_osc_lab.Vm.Tree.{
  translate, Role, other, root, mid, low, child, span, Taken, Tree, ends, ends_mid, arrives,
  Tree-Way, last, last-zero, translate-ends, translate-ends_mid, translate-arrives, vpn0_lt,
  user_vpn2, vpn1_lt,
}

-- The entry `i` of the page `p` of the tree now leads to the new and empty table `q`.
pub record Grown (m m' : Mm) (role : ℕ → Role) (p i q : ℕ) : Type 0 where
  pub fresh : role q ≡ other
  pub was : is_valid (entry m p i) ≡ false
  pub now : IsLink (entry m' p i) q
  pub same :
      (t j : ℕ) → role t ≢ other → j < 512 → ((t ≡ p) × (j ≡ i) → ⊥) → entry m' t j ≡ entry m t j
  pub zero : (j : ℕ) → j < 512 → entry m' q j ≡ 0

pub at_or_not : (t j p i : ℕ) → ((t ≡ p) × (j ≡ i)) ⊎ ((t ≡ p) × (j ≡ i) → ⊥)
at_or_not t j p i = elim (ℕ_discrete t p) [
  | no ne ↦ inr (λ e. ne e.0)
  | yes a ↦ elim (ℕ_discrete j i) [ yes b ↦ inl (a, b) | no ne ↦ inr (λ e. ne e.1) ]
]

span-other : (r : Role) (i : ℕ) → i < span r → (r ≢ other) × (i < 512) × (child r i ≢ other)
span-other other i h = absurd (omega arith)
span-other root i h = (λ e. cc, omega arith, λ e. cc)
span-other (mid k) i h = (λ e. cc, omega arith, λ e. cc)
span-other (low k j) i h = absurd (omega arith)

-- The part of the new table.
abbrev pub grown_role : (ℕ → Role) → ℕ → ℕ → ℕ → ℕ → Role
grown_role role p i q = update role q (child (role p) i)

pub entry_at : (m : Mm) (a p j i : ℕ) → a ≡ p → j ≡ i → entry m a j ≡ entry m p i
entry_at m a p j i e d = ap (λ x. m.memory (x + 8 * j)) e ∙ ap (λ y. m.memory (p + 8 * y)) d

pub IsLink-at : {a b q : ℕ} → a ≡ b → IsLink b q → IsLink a q
IsLink-at {q = q} e l = subst (λ x. IsLink x q) (sym e) l

not_both : {b : Bool} → b ≡ true → b ≡ false → ⊥
not_both h k = absurd (cc (sym h ∙ k))

module _ {m m' : Mm} {used : ℕ → Bool} {role : ℕ → Role} {pgd p i q : ℕ} (t : Tree m used role pgd)
    (g : Grown m m' role p i q) (wide : i < span (role p)) where
  ne-fresh : (a : ℕ) → role a ≢ other → a ≢ q
  ne-fresh a h e = h (ap role e ∙ g.fresh)

  pub old_role : (a : ℕ) → role a ≢ other → grown_role role p i q a ≡ role a
  old_role a h = let ne = ne-fresh a h in ground arith

  empty : (j : ℕ) → j < 512 → is_valid (entry m' q j) ≡ false
  empty j lt = ap is_valid (g.zero j lt) ∙ zero-is_valid

  grown-down :
      (a j : ℕ)
      → j < span (grown_role role p i q a)
      → is_valid (entry m' a j) ≡ true
      → (is_leaf (entry m' a j) ≡ false)
        × (grown_role role p i q (next_table (entry m' a j)) ≡ child (grown_role role p i q a) j)
  grown-down a j h v = elim (ℕ_discrete a q) [
    | yes e ↦
        let lt = (span-other (grown_role role p i q a) j h).1 in
        absurd (not_both v (ap is_valid (entry_at m' a q j j e refl) ∙ empty j lt))
    | no ne ↦
        let kept : grown_role role p i q a ≡ role a = ground arith in
        let wide_a : j < span (role a) = subst (λ r. j < span r) kept h in
        let (alive, lt, alive_child) = span-other (role a) j wide_a in
        elim (at_or_not a j p i) [
          | inl (e, d) ↦
              let link : IsLink (entry m' a j) q = IsLink-at (entry_at m' a p j i e d) g.now in
              let part : child (grown_role role p i q a) j ≡ child (role p) i =
                ap (λ r. child r j) (kept ∙ ap role e) ∙ ap (child (role p)) d in
              (
                link.inner,
                ap (grown_role role p i q) link.to
                    ∙ (update_here role q (child (role p) i) ∙ sym part),
              )
          | inr off ↦
              let s = g.same a j alive lt off in
              let (inner, r) = t.down a j wide_a (ap is_valid (sym s) ∙ v) in
              (
                ap is_leaf s ∙ inner,
                ap (grown_role role p i q) (ap next_table s)
                    ∙ (old_role (next_table (entry m a j)) (λ e. alive_child (sym r ∙ e))
                        ∙ (r ∙ ap (λ x. child x j) (sym kept))),
              )
        ]
  ]

  grown-leaves :
      (a k j b : ℕ)
      → grown_role role p i q a ≡ low k j
      → b < 512
      → is_valid (entry m' a b) ≡ true
      → is_leaf (entry m' a b) ≡ true
  grown-leaves a k j b r lt v = elim (ℕ_discrete a q) [
    | yes e ↦ absurd (not_both v (ap is_valid (entry_at m' a q b b e refl) ∙ empty b lt))
    | no ne ↦
        let was_low : role a ≡ low k j = ground (arith, r, ne) in
        let s =
          g.same a b (λ e. absurd (cc (sym was_low ∙ e))) lt
            (λ e. omega (arith, wide, ap span (sym (ap role e.0) ∙ was_low))) in
        ap is_leaf s ∙ t.leaves a k j b was_low lt (ap is_valid (sym s) ∙ v)
  ]

  pub root_alive : role pgd ≢ other
  root_alive e = absurd (cc (sym t.root_is ∙ e))

  pub Grown-Tree :
      (used' : ℕ → Bool)
      → ((a : ℕ) → grown_role role p i q a ≢ other → Taken m' used' a)
      → Tree m' used' (grown_role role p i q) pgd
  Grown-Tree used' taken = record {
    root_is = old_role pgd root_alive ∙ t.root_is;
    taken = taken;
    down = grown-down;
    leaves = grown-leaves;
  }

  pub keeps :
      (a j : ℕ)
      → role a ≢ other
      → j < 512
      → is_valid (entry m a j) ≡ true
      → entry m' a j ≡ entry m a j
  keeps a j h lt v =
      g.same a j h lt (λ e. not_both v (ap is_valid (entry_at m a p j i e.0 e.1) ∙ g.was))

  pub Grown-translate : (va : ℕ) → va < 2 ^ 38 → translate m' pgd va ≡ translate m pgd va
  Grown-translate va h =
      let lt : vpn2 va < 512 = omega (arith, user_vpn2 va h) in
      elim (Tree-Way va t h) [
        | ends off ↦ elim (at_or_not pgd (vpn2 va) p i) [
          | inl (e, d) ↦
              let link : IsLink (entry m' pgd (vpn2 va)) q =
                IsLink-at (entry_at m' pgd p (vpn2 va) i e d) g.now in
              translate-ends_mid m' pgd va q link.valid link.inner link.to
                (empty (vpn1 va) (vpn1_lt va))
              ∙ sym (translate-ends m pgd va off)
          | inr ne ↦
              translate-ends m' pgd va (ap is_valid (g.same pgd (vpn2 va) root_alive lt ne) ∙ off)
              ∙ sym (translate-ends m pgd va off)
        ]
        | ends_mid p1 on inner to is_mid off ↦
            let s = keeps pgd (vpn2 va) root_alive lt on in
            let alive : role p1 ≢ other = λ e. absurd (cc (sym is_mid ∙ e)) in
            elim (at_or_not p1 (vpn1 va) p i) [
              | inl (e, d) ↦
                  let link : IsLink (entry m' p1 (vpn1 va)) q =
                    IsLink-at (entry_at m' p1 p (vpn1 va) i e d) g.now in
                  translate-arrives m' pgd va p1 q (ap is_valid s ∙ on) (ap is_leaf s ∙ inner)
                    (ap next_table s ∙ to) link.valid link.inner link.to
                  ∙ (ap (λ x. last x va) (g.zero (vpn0 va) (vpn0_lt va))
                      ∙ (last-zero va ∙ sym (translate-ends_mid m pgd va p1 on inner to off)))
              | inr ne ↦
                  translate-ends_mid m' pgd va p1 (ap is_valid s ∙ on) (ap is_leaf s ∙ inner)
                    (ap next_table s ∙ to)
                    (ap is_valid (g.same p1 (vpn1 va) alive (vpn1_lt va) ne) ∙ off)
                  ∙ sym (translate-ends_mid m pgd va p1 on inner to off)
            ]
        | arrives p1 q1 on inner to is_mid on1 inner1 to1 is_low ↦
            let s = keeps pgd (vpn2 va) root_alive lt on in
            let s1 = keeps p1 (vpn1 va) (λ e. absurd (cc (sym is_mid ∙ e))) (vpn1_lt va) on1 in
            let apart : (q1 ≡ p) × (vpn0 va ≡ i) → ⊥ =
              λ e. omega (arith, wide, ap span (sym (ap role e.0) ∙ is_low)) in
            let s2 = g.same q1 (vpn0 va) (λ e. absurd (cc (sym is_low ∙ e))) (vpn0_lt va) apart in
            translate-arrives m' pgd va p1 q1 (ap is_valid s ∙ on) (ap is_leaf s ∙ inner)
              (ap next_table s ∙ to) (ap is_valid s1 ∙ on1) (ap is_leaf s1 ∙ inner1)
              (ap next_table s1 ∙ to1)
            ∙ (ap (λ x. last x va) s2
                ∙ sym (translate-arrives m pgd va p1 q1 on inner to on1 inner1 to1))
      ]
