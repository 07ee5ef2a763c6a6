-- ===== src/Vm/Apart.antt =====
-- Two processes: what lab6/OrangePiVer/Src/vm.c does to the tables of one changes nothing for the other.
use nycu_osc_lab.Prelude.{
  ℕ, ◌+◌, ◌%◌, ◌^◌, ◌≤◌, ◌<◌, ◌≡◌, ◌≢◌, refl, sym, ap, ◌∙◌, Bool, true, arith,
}
use nycu_osc_lab.Mm.State.{Mm}
use nycu_osc_lab.Vm.{entry, is_valid, is_leaf, map_pages_to, vm_create_user_pgd, vpn0, vpn1, vpn2}
use nycu_osc_lab.Vm.Entry.{next_table}
use nycu_osc_lab.Vm.Tree.{
  translate, Role, other, span, span_small, Tree, Tree-Way, ends, ends_mid, arrives, last,
  translate-ends, translate-ends_mid, translate-arrives, user_vpn2, vpn0_lt, vpn1_lt,
}
use nycu_osc_lab.Vm.Spares.{Spares}
use nycu_osc_lab.Vm.Grow.{Env}
use nycu_osc_lab.Vm.Map.{all_mapped, stops, map_pages_to-Maps}
use nycu_osc_lab.Vm.Create.{no_memory, creates, vm_create_user_pgd-Creates}

-- The tables of the second process are not those of the first.
abbrev pub Disjoint : (ℕ → Role) → (ℕ → Role) → Type 0
Disjoint role role2 = (a : ℕ) → role2 a ≢ other → role a ≡ other

module _ {m m' : Mm} {used used' : ℕ → Bool} {role role' role2 : ℕ → Role} {pgd2 : ℕ}
    (s : Spares m used role m' used' role') (env : Env m used role2 pgd2)
    (apart : Disjoint role role2) where
  alive_same : (a j : ℕ) → role2 a ≢ other → j < 512 → entry m' a j ≡ entry m a j
  alive_same a j alive lt = s.same a j (env.tree.taken a alive) (apart a alive) lt

  stays-Disjoint : Disjoint role' role2
  stays-Disjoint a alive = s.not_in a (env.tree.taken a alive) (apart a alive)

  stays-Tree : Tree m' used' role2 pgd2
  stays-Tree = record {
    root_is = env.tree.root_is;
    taken = λ p alive. s.still_taken p (env.tree.taken p alive);
    down = λ p i wide on.
        let e =
          alive_same p i (λ o. omega (arith, wide, ap span o)) (span_small (role2 p) i wide) in
        let (inner, r) = env.tree.down p i wide (ap is_valid (sym e) ∙ on) in
        (ap is_leaf e ∙ inner, ap role2 (ap next_table e) ∙ r);
    leaves = λ p k j i is_low lt on.
        let e = alive_same p i (λ o. absurd (cc (sym is_low ∙ o))) lt in
        ap is_leaf e ∙ env.tree.leaves p k j i is_low lt (ap is_valid (sym e) ∙ on);
  }

  stays-translate : (x : ℕ) → x < 2 ^ 38 → translate m' pgd2 x ≡ translate m pgd2 x
  stays-translate x h =
      let lt : vpn2 x < 512 = omega (arith, user_vpn2 x h) in
      let e = alive_same pgd2 (vpn2 x) (λ o. absurd (cc (sym env.tree.root_is ∙ o))) lt in
      elim (Tree-Way x env.tree h) [
        | ends off ↦
            translate-ends m' pgd2 x (ap is_valid e ∙ off) ∙ sym (translate-ends m pgd2 x off)
        | ends_mid p on inner to is_mid off ↦
            let e1 = alive_same p (vpn1 x) (λ o. absurd (cc (sym is_mid ∙ o))) (vpn1_lt x) in
            translate-ends_mid m' pgd2 x p (ap is_valid e ∙ on) (ap is_leaf e ∙ inner)
              (ap next_table e ∙ to) (ap is_valid e1 ∙ off)
            ∙ sym (translate-ends_mid m pgd2 x p on inner to off)
        | arrives p q on inner to is_mid on1 inner1 to1 is_low ↦
            let e1 = alive_same p (vpn1 x) (λ o. absurd (cc (sym is_mid ∙ o))) (vpn1_lt x) in
            let e2 = alive_same q (vpn0 x) (λ o. absurd (cc (sym is_low ∙ o))) (vpn0_lt x) in
            translate-arrives m' pgd2 x p q (ap is_valid e ∙ on) (ap is_leaf e ∙ inner)
              (ap next_table e ∙ to) (ap is_valid e1 ∙ on1) (ap is_leaf e1 ∙ inner1)
              (ap next_table e1 ∙ to1)
            ∙ (ap (λ y. last y x) e2
                ∙ sym (translate-arrives m pgd2 x p q on inner to on1 inner1 to1))
      ]

-- Two processes whose tables are sound and apart.
pub record Beside (m : Mm) (pgd pgd2 : ℕ) : Type 0 where
  pub used : ℕ → Bool
  pub role : ℕ → Role
  pub role2 : ℕ → Role
  pub env : Env m used role pgd
  pub env2 : Env m used role2 pgd2
  pub apart : Disjoint role role2

stays :
    {m m' : Mm} {used used' : ℕ → Bool} {role role' role2 : ℕ → Role} {pgd pgd2 : ℕ}
    → Spares m used role m' used' role'
    → Env m' used' role' pgd
    → Env m used role2 pgd2
    → Disjoint role role2
    → Beside m' pgd pgd2 × ((x : ℕ) → x < 2 ^ 38 → translate m' pgd2 x ≡ translate m pgd2 x)
stays {used' = used'} {role' = role'} {role2 = role2} s env' env2 apart = (
  record {
    used = used';
    role = role';
    role2 = role2;
    env = env';
    env2 = record { valid = env'.valid; placed = env'.placed; tree = stays-Tree s env2 apart };
    apart = stays-Disjoint s env2 apart;
  },
  stays-translate s env2 apart,
)

-- For two processes whose tables are sound and apart: what map_pages_to does for the first changes no
-- translation of a user address of the second, and the tables stay sound and apart. The conditions on
-- the arguments are that both ranges begin at a page and end below 2^38 and 2^56, the size is not 0, and
-- the flags have a right.
pub map_pages_to-Beside :
    (pgd va size pa prot pgd2 : ℕ) {m : Mm}
    → Beside m pgd pgd2
    → va % 4096 ≡ 0
    → pa % 4096 ≡ 0
    → 0 < size
    → va + size ≤ 2 ^ 38
    → pa + size ≤ 2 ^ 56
    → prot < 2 ^ 10
    → is_leaf prot ≡ true
    → Beside (map_pages_to pgd va size pa prot m).1 pgd pgd2
      × ((x : ℕ)
          → x < 2 ^ 38
          → translate (map_pages_to pgd va size pa prot m).1 pgd2 x ≡ translate m pgd2 x)
map_pages_to-Beside pgd va size pa prot pgd2 b al al_pa some_size room room_pa small maps =
    elim (map_pages_to-Maps pgd va size pa prot b.env al al_pa some_size room room_pa small maps) [
      | all_mapped e a ↦ stays a.spared a.env b.env2 b.apart
      | stops n e lt (a, why) ↦ stays a.spared a.env b.env2 b.apart
    ]

-- vm_create_user_pgd, when it returns a table, gives a process whose tables are sound and apart from
-- those of every process there is, and no translation of a user address of these changes.
pub vm_create_user_pgd-Beside :
    (early_pgd : ℕ → ℕ) (pgd2 : ℕ) {m : Mm} {used : ℕ → Bool} {role2 : ℕ → Role}
    → Env m used role2 pgd2
    → (vm_create_user_pgd early_pgd m).0 ≢ 0
    → Beside (vm_create_user_pgd early_pgd m).1 (vm_create_user_pgd early_pgd m).0 pgd2
      × ((x : ℕ)
          → x < 2 ^ 38
          → translate (vm_create_user_pgd early_pgd m).1 pgd2 x ≡ translate m pgd2 x)
vm_create_user_pgd-Beside early_pgd pgd2 env2 nz =
    elim (vm_create_user_pgd-Creates early_pgd env2.valid env2.placed) [
      | no_memory e full ↦ absurd (nz (ap (λ r. r.0) e))
      | creates f off env s none_yet kernel ↦ stays s env env2 (λ a h. refl)
    ]
