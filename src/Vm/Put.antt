-- ===== src/Vm/Put.antt =====
-- A mapping in a last table of the tree of lab6/OrangePiVer/Src/vm.c.
use nycu_osc_lab.Prelude.{
  ℕ, ◌+◌, ◌*◌, ◌^◌, ◌<◌, ◌≡◌, ◌≢◌, refl, sym, ap, ◌∙◌, inl, inr, Bool, true, update, arith,
  update_here, ==_ne,
}
use nycu_osc_lab.Mm.State.{Mm}
use nycu_osc_lab.Vm.{entry, set_entry, is_valid, is_leaf, vpn0, vpn1, vpn2}
use nycu_osc_lab.Vm.Entry.{next_table, IsLink}
use nycu_osc_lab.Vm.Memory.{entry_apart, memory-Sound}
use nycu_osc_lab.Vm.Tree.{
  translate, Role, other, mid, low, span, Taken-IsPage, ends, ends_mid, arrives, Tree-Way, last,
  span_small, translate-ends, translate-ends_mid, translate-arrives, vpn0_lt, user_vpn2, vpn1_lt,
}
use nycu_osc_lab.Vm.Spares.{Spares}
use nycu_osc_lab.Vm.Walk.{at_or_not, entry_at, IsLink-at}
use nycu_osc_lab.Vm.Grow.{Env}

low_injective : {k l k' l' : ℕ} → low k l ≡ low k' l' → (k ≡ k') × (l ≡ l')
low_injective e = (cc, cc)

module _ {m : Mm} {used : ℕ → Bool} {role : ℕ → Role} {pgd k l q : ℕ} (env : Env m used role pgd)
    (is_low : role q ≡ low k l) (i : ℕ) (lt : i < 512) (pte : ℕ) where
  q_alive : role q ≢ other
  q_alive e = absurd (cc (sym is_low ∙ e))

  put_out :
      (t j : ℕ)
      → role t ≢ other
      → j < 512
      → ((t ≡ q) × (j ≡ i) → ⊥)
      → entry (set_entry q i pte m) t j ≡ entry m t j
  put_out t j alive small off =
      let page = Taken-IsPage env.placed (env.tree.taken t alive) in
      let page_q = Taken-IsPage env.placed (env.tree.taken q q_alive) in
      let ne : t + 8 * j ≢ q + 8 * i = λ e. off (entry_apart t q j i page.0 page_q.0 small lt e) in
      rw (==_ne _ _ ne) refl

  put_inner :
      (t j : ℕ) → j < span (role t) → j < 512 → entry (set_entry q i pte m) t j ≡ entry m t j
  put_inner t j wide small =
      put_out t j (λ e. omega (arith, wide, ap span e)) small
        (λ e. omega (arith, wide, ap span (ap role e.0 ∙ is_low)))

  pub put-Env : is_leaf pte ≡ true → Env (set_entry q i pte m) used role pgd
  put-Env maps = record {
    valid = memory-Sound (update m.memory (q + 8 * i) pte) env.valid;
    placed = record {
      base_aligned = env.placed.base_aligned;
      size_is = env.placed.size_is;
      mapped = env.placed.mapped;
    };
    tree = record {
      root_is = env.tree.root_is;
      taken = env.tree.taken;
      down = λ t j wide on.
          let s = put_inner t j wide (span_small (role t) j wide) in
          let (inner, r) = env.tree.down t j wide (ap is_valid (sym s) ∙ on) in
          (ap is_leaf s ∙ inner, ap role (ap next_table s) ∙ r);
      leaves = λ t a b j is_low_t small on. elim (at_or_not t j q i) [
        | inl (e, d) ↦
            ap is_leaf (entry_at (set_entry q i pte m) t q j i e d)
            ∙ (ap is_leaf (update_here m.memory (q + 8 * i) pte) ∙ maps)
        | inr off ↦
            let s = put_out t j (λ e. absurd (cc (sym is_low_t ∙ e))) small off in
            ap is_leaf s ∙ env.tree.leaves t a b j is_low_t small (ap is_valid (sym s) ∙ on)
      ];
    };
  }

  pub put_elsewhere :
      (x : ℕ)
      → x < 2 ^ 38
      → ((vpn2 x ≡ k) × (vpn1 x ≡ l) × (vpn0 x ≡ i) → ⊥)
      → translate (set_entry q i pte m) pgd x ≡ translate m pgd x
  put_elsewhere x h off =
      let wide : vpn2 x < span (role pgd) = ground (arith, env.tree.root_is, user_vpn2 x h) in
      let s = put_inner pgd (vpn2 x) wide (span_small (role pgd) (vpn2 x) wide) in
      elim (Tree-Way x env.tree h) [
        | ends no_e ↦
            translate-ends (set_entry q i pte m) pgd x (ap is_valid s ∙ no_e)
            ∙ sym (translate-ends m pgd x no_e)
        | ends_mid p on inner to is_mid no_e ↦
            let wide1 : vpn1 x < span (role p) = ground (arith, is_mid, vpn1_lt x) in
            translate-ends_mid (set_entry q i pte m) pgd x p (ap is_valid s ∙ on)
              (ap is_leaf s ∙ inner) (ap next_table s ∙ to)
              (ap is_valid (put_inner p (vpn1 x) wide1 (vpn1_lt x)) ∙ no_e)
            ∙ sym (translate-ends_mid m pgd x p on inner to no_e)
        | arrives p q1 on inner to is_mid on1 inner1 to1 is_low1 ↦
            let wide1 : vpn1 x < span (role p) = ground (arith, is_mid, vpn1_lt x) in
            let s1 = put_inner p (vpn1 x) wide1 (vpn1_lt x) in
            let apart : (q1 ≡ q) × (vpn0 x ≡ i) → ⊥ = λ e.
              let same = low_injective (sym is_low1 ∙ (ap role e.0 ∙ is_low)) in
              off (same.0, same.1, e.1) in
            let s2 = put_out q1 (vpn0 x) (λ e. absurd (cc (sym is_low1 ∙ e))) (vpn0_lt x) apart in
            translate-arrives (set_entry q i pte m) pgd x p q1 (ap is_valid s ∙ on)
              (ap is_leaf s ∙ inner) (ap next_table s ∙ to) (ap is_valid s1 ∙ on1)
              (ap is_leaf s1 ∙ inner1) (ap next_table s1 ∙ to1)
            ∙ (ap (λ e. last e x) s2
                ∙ sym (translate-arrives m pgd x p q1 on inner to on1 inner1 to1))
      ]

  pub put_here :
      (x p : ℕ)
      → x < 2 ^ 38
      → IsLink (entry m pgd (vpn2 x)) p
      → role p ≡ mid (vpn2 x)
      → IsLink (entry m p (vpn1 x)) q
      → vpn0 x ≡ i
      → translate (set_entry q i pte m) pgd x ≡ last pte x
  put_here x p h to_p is_mid to_q at_i =
      let wide : vpn2 x < span (role pgd) = ground (arith, env.tree.root_is, user_vpn2 x h) in
      let s = put_inner pgd (vpn2 x) wide (span_small (role pgd) (vpn2 x) wide) in
      let wide1 : vpn1 x < span (role p) = ground (arith, is_mid, vpn1_lt x) in
      let s1 = put_inner p (vpn1 x) wide1 (vpn1_lt x) in
      let l = IsLink-at s to_p in
      let l1 = IsLink-at s1 to_q in
      translate-arrives (set_entry q i pte m) pgd x p q l.valid l.inner l.to l1.valid l1.inner l1.to
      ∙ ap (λ e. last e x)
          (entry_at (set_entry q i pte m) q q (vpn0 x) i refl at_i
            ∙ update_here m.memory (q + 8 * i) pte)

  pub put-Spares : Spares m used role (set_entry q i pte m) used role
  put-Spares = record {
    still_taken = λ a h. h;
    not_in = λ a h e. e;
    same = λ a j h e small.
        let page = Taken-IsPage env.placed h in
        let page_q = Taken-IsPage env.placed (env.tree.taken q q_alive) in
        let ne : a + 8 * j ≢ q + 8 * i =
          λ d. q_alive (sym (ap role (entry_apart a q j i page.0 page_q.0 small lt d).0) ∙ e) in
        rw (==_ne _ _ ne) refl;
  }
