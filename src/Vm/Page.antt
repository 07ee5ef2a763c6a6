-- ===== src/Vm/Page.antt =====
-- One turn of the loop of map_pages_to of lab6/OrangePiVer/Src/vm.c, against the translation of the
-- CPU.
use mathlib.Core.Path.{subst}
use nycu_osc_lab.Prelude.{
  ℕ, suc, ◌+◌, ◌-◌, ◌*◌, ◌/◌, ◌%◌, ◌^◌, ◌≤◌, ◌<◌, ◌≡◌, ◌≢◌, refl, sym, ap, ◌∙◌, ◌⊎◌, inl, inr, Bool,
  true, false, ltb, arith, Bool-cases, none, some,
}
use nycu_osc_lab.Mm.State.{Mm}
use nycu_osc_lab.Vm.{
  entry, set_entry, is_valid, is_leaf, vpn0, vpn1, vpn2, walk_create, write_pte, map_page,
}
use nycu_osc_lab.Vm.Entry.{leaf, leaf-IsLeaf, leaf_flags, IsLink}
use nycu_osc_lab.Vm.Tree.{
  translate, Role, mid, low, last, last-mapped, last-invalid, translate-arrives, vpn0_lt,
}
use nycu_osc_lab.Vm.Grow.{Env, Full}
use nycu_osc_lab.Vm.Descend.{fails_to, finds, walk_create-Walks}
use nycu_osc_lab.Vm.Walk.{IsLink-at}
use nycu_osc_lab.Vm.Put.{put-Env, put-Spares, put_elsewhere, put_here}
use nycu_osc_lab.Vm.Spares.{Spares, Spares-trans}

-- The process now has `n` pages from `va` on, which lead to those from `pa` on. They led nowhere
-- before; and no other user address leads elsewhere.
pub record Mapped (m : Mm) (used0 : ℕ → Bool) (role0 : ℕ → Role) (m' : Mm) (pgd va pa prot n : ℕ)
    : Type 0 where
  pub used : ℕ → Bool
  pub role : ℕ → Role
  pub env : Env m' used role pgd
  pub spared : Spares m used0 role0 m' used role
  pub before : (x : ℕ) → x < 2 ^ 38 → va ≤ x → x < va + n * 4096 → translate m pgd x ≡ none
  pub inside :
      (x : ℕ)
      → x < 2 ^ 38
      → va ≤ x
      → x < va + n * 4096
      → translate m' pgd x ≡ some (pa + (x - va), prot / 2 * 2 + 1)
  pub outside :
      (x : ℕ)
      → x < 2 ^ 38
      → (va ≤ x → x < va + n * 4096 → ⊥)
      → translate m' pgd x ≡ translate m pgd x

pub Mapped-none :
    {m m' : Mm} {used0 used : ℕ → Bool} {role0 role : ℕ → Role} {pgd : ℕ} (va pa prot : ℕ)
    → Env m' used role pgd
    → Spares m used0 role0 m' used role
    → ((x : ℕ) → x < 2 ^ 38 → translate m' pgd x ≡ translate m pgd x)
    → Mapped m used0 role0 m' pgd va pa prot 0
Mapped-none {used = used} {role = role} va pa prot env spared same = record {
  used = used;
  role = role;
  env = env;
  spared = spared;
  before = λ x h lo hi. absurd (omega arith);
  inside = λ x h lo hi. absurd (omega arith);
  outside = λ x h off. same x h;
}

below_or_not : (a b : ℕ) → (a < b) ⊎ (b ≤ a)
below_or_not a b = elim (Bool-cases (ltb a b)) [
  | inl h ↦ inl (ground (arith, h))
  | inr h ↦ inr (ground (arith, h))
]

-- A page, and then the ones behind it.
pub Mapped-append :
    (m m1 m2 : Mm) {used0 : ℕ → Bool} {role0 : ℕ → Role} (pgd va pa prot n : ℕ)
    → va + 4096 + n * 4096 ≤ 2 ^ 38
    → (a : Mapped m used0 role0 m1 pgd va pa prot 1)
    → Mapped m1 a.used a.role m2 pgd (va + 4096) (pa + 4096) prot n
    → Mapped m used0 role0 m2 pgd va pa prot (suc n)
Mapped-append m m1 m2 pgd va pa prot n room a b = record {
  used = b.used;
  role = b.role;
  env = b.env;
  spared = Spares-trans a.spared b.spared;
  before = λ x h lo hi. elim (below_or_not x (va + 4096)) [
    | inl first ↦ a.before x h lo (omega arith)
    | inr later ↦ sym (a.outside x h (λ c d. omega arith)) ∙ b.before x h later (omega arith)
  ];
  inside = λ x h lo hi. elim (below_or_not x (va + 4096)) [
    | inl first ↦ b.outside x h (λ c d. omega arith) ∙ a.inside x h lo (omega arith)
    | inr later ↦
        b.inside x h later (omega arith) ∙ ap (λ y. some (y, prot / 2 * 2 + 1)) (omega arith)
  ];
  outside = λ x h off.
      b.outside x h (λ c d. off (omega arith) (omega arith))
      ∙ a.outside x h (λ c d. off c (omega arith));
}

same_page :
    (x va : ℕ)
    → x < 2 ^ 38
    → va < 2 ^ 38
    → vpn2 x ≡ vpn2 va
    → vpn1 x ≡ vpn1 va
    → vpn0 x ≡ vpn0 va
    → x / 4096 ≡ va / 4096
unfolding vpn0 vpn1 vpn2
same_page x va h k a b c = omega arith

page_of :
    (x va : ℕ)
    → va % 4096 ≡ 0
    → va ≤ x
    → x < va + 1 * 4096
    → (vpn2 x ≡ vpn2 va) × (vpn1 x ≡ vpn1 va) × (vpn0 x ≡ vpn0 va)
unfolding vpn0 vpn1 vpn2
page_of x va al lo hi = (omega arith, omega arith, omega arith)

last-leaf :
    (x va pa prot : ℕ)
    → va % 4096 ≡ 0
    → va ≤ x
    → x < va + 1 * 4096
    → pa % 4096 ≡ 0
    → pa < 2 ^ 56
    → prot < 2 ^ 10
    → is_leaf prot ≡ true
    → last (leaf pa prot) x ≡ some (pa + (x - va), prot / 2 * 2 + 1)
last-leaf x va pa prot al lo hi al_pa small h maps =
    let l = leaf-IsLeaf pa prot al_pa small h maps in
    last-mapped (leaf pa prot) x l.valid l.mapped
    ∙ (ap (λ y. some (y, leaf pa prot % 2 ^ 10)) (omega (arith, l.page_is))
        ∙ ap (λ y. some (pa + (x - va), y)) (leaf_flags pa prot h))

-- After `n` pages: memory has run out, or the next page is mapped already.
abbrev pub Stopped : Mm → (ℕ → Bool) → (ℕ → Role) → Mm → ℕ → ℕ → ℕ → ℕ → ℕ → Type 0
Stopped m used0 role0 m' pgd va pa prot n =
    Mapped m used0 role0 m' pgd va pa prot n × (Full m' ⊎ (translate m pgd (va + n * 4096) ≢ none))

map_page_fails :
    (pgd va pa prot : ℕ) (m : Mm)
    → (walk_create pgd va m).0 ≡ none
    → map_page pgd va pa prot m ≡ (false, (walk_create pgd va m).1)
unfolding map_page write_pte
map_page_fails pgd va pa prot m e = ap (λ o. write_pte pa prot (o, (walk_create pgd va m).1)) e

map_page_taken :
    (pgd va pa prot slot : ℕ) (m : Mm)
    → (walk_create pgd va m).0 ≡ some slot
    → is_valid ((walk_create pgd va m).1.memory slot) ≡ true
    → map_page pgd va pa prot m ≡ (false, (walk_create pgd va m).1)
unfolding map_page write_pte
map_page_taken pgd va pa prot slot m e on =
    ap (λ o. write_pte pa prot (o, (walk_create pgd va m).1)) e ∙ rw on refl

map_page_writes :
    (pgd va pa prot q i : ℕ) (m : Mm)
    → (walk_create pgd va m).0 ≡ some (q + 8 * i)
    → is_valid (entry (walk_create pgd va m).1 q i) ≡ false
    → map_page pgd va pa prot m ≡ (true, set_entry q i (leaf pa prot) (walk_create pgd va m).1)
unfolding map_page write_pte leaf
map_page_writes pgd va pa prot q i m e off =
    ap (λ o. write_pte pa prot (o, (walk_create pgd va m).1)) e ∙ rw off refl

-- What one turn of the loop does.
abbrev pub TurnOf : Mm → (ℕ → Bool) → (ℕ → Role) → ℕ → ℕ → ℕ → ℕ → Bool × Mm → Type 0
TurnOf m used role pgd va pa prot r =
    ((r.0 ≡ true) × Mapped m used role r.1 pgd va pa prot 1)
    ⊎ ((r.0 ≡ false) × Stopped m used role r.1 pgd va pa prot 0)

module _ (pgd va pa prot : ℕ) (small : va < 2 ^ 38) (al : va % 4096 ≡ 0) (al_pa : pa % 4096 ≡ 0)
    (small_pa : pa < 2 ^ 56) (small_prot : prot < 2 ^ 10) (maps : is_leaf prot ≡ true) where
  -- The entry is free.
  writes :
      {m m1 : Mm} {used0 used : ℕ → Bool} {role0 role : ℕ → Role} (p q : ℕ)
      → Env m1 used role pgd
      → Spares m used0 role0 m1 used role
      → ((x : ℕ) → x < 2 ^ 38 → translate m1 pgd x ≡ translate m pgd x)
      → IsLink (entry m1 pgd (vpn2 va)) p
      → role p ≡ mid (vpn2 va)
      → IsLink (entry m1 p (vpn1 va)) q
      → role q ≡ low (vpn2 va) (vpn1 va)
      → is_valid (entry m1 q (vpn0 va)) ≡ false
      → Mapped m used0 role0 (set_entry q (vpn0 va) (leaf pa prot) m1) pgd va pa prot 1
  writes {m} {m1} {used0} {used} {role0} {role} p q env spared same to_p is_mid to_q is_low off =
      record {
        used = used;
        role = role;
        env =
            put-Env env is_low (vpn0 va) (vpn0_lt va) (leaf pa prot)
              (leaf-IsLeaf pa prot al_pa small_pa small_prot maps).mapped;
        spared = Spares-trans spared (put-Spares env is_low (vpn0 va) (vpn0_lt va) (leaf pa prot));
        before = λ x h lo hi.
            let (a, b, c) = page_of x va al lo hi in
            let l = IsLink-at (ap (entry m1 pgd) a) to_p in
            let l1 = IsLink-at (ap (entry m1 p) b) to_q in
            sym (same x h)
            ∙ (translate-arrives m1 pgd x p q l.valid l.inner l.to l1.valid l1.inner l1.to
                ∙ last-invalid (entry m1 q (vpn0 x)) x (ap (λ i. is_valid (entry m1 q i)) c ∙ off));
        inside = λ x h lo hi.
            let (a, b, c) = page_of x va al lo hi in
            let l = IsLink-at (ap (entry m1 pgd) a) to_p in
            let l1 = IsLink-at (ap (entry m1 p) b) to_q in
            put_here env is_low (vpn0 va) (vpn0_lt va) (leaf pa prot) x p h l
              (is_mid ∙ ap mid (sym a)) l1 c
            ∙ last-leaf x va pa prot al lo hi al_pa small_pa small_prot maps;
        outside = λ x h away.
            put_elsewhere env is_low (vpn0 va) (vpn0_lt va) (leaf pa prot) x h (λ (a, b, c).
              let e = same_page x va h small a b c in away (omega arith) (omega arith))
            ∙ same x h;
      }

  pub map_page-TurnOf :
      {m : Mm} {used : ℕ → Bool} {role : ℕ → Role}
      → Env m used role pgd
      → TurnOf m used role pgd va pa prot (map_page pgd va pa prot m)
  map_page-TurnOf {m} {used} {role} env = elim (walk_create-Walks va env small) [
    | fails_to e full env' spared same ↦
        subst (TurnOf m used role pgd va pa prot) (sym (map_page_fails pgd va pa prot m e))
          (inr (refl, (Mapped-none va pa prot env' spared same, inl full)))
    | finds p q e env' spared same to_p is_mid to_q is_low ↦
        elim (Bool-cases (is_valid (entry (walk_create pgd va m).1 q (vpn0 va)))) [
          | inl on ↦
              let m1 = (walk_create pgd va m).1 in
              let known =
                last-mapped (entry m1 q (vpn0 va)) va on
                  (env'.tree.leaves q (vpn2 va) (vpn1 va) (vpn0 va) is_low (vpn0_lt va) on) in
              let to_last =
                translate-arrives m1 pgd va p q to_p.valid to_p.inner to_p.to to_q.valid to_q.inner
                  to_q.to in
              subst (TurnOf m used role pgd va pa prot)
                (sym (map_page_taken pgd va pa prot (q + 8 * vpn0 va) m e on))
                (inr (
                  refl,
                  (
                    Mapped-none va pa prot env' spared same,
                    inr (λ z. absurd (
                        cc (
                          sym (to_last ∙ known)
                          ∙ (same va small ∙ (ap (translate m pgd) (omega arith) ∙ z))))),
                  ),
                ))
          | inr off ↦
              subst (TurnOf m used role pgd va pa prot)
                (sym (map_page_writes pgd va pa prot q (vpn0 va) m e off))
                (inl (refl, writes p q env' spared same to_p is_mid to_q is_low off))
        ]
  ]
