-- ===== src/Vm/Grow.antt =====
-- A page from the allocator becomes a new table in the tree of lab6/OrangePiVer/Src/vm.c.
use mathlib.Core.Path.{subst}
use native.Mathlib.Decide.{ℕ_discrete}
use nycu_osc_lab.Prelude.{
  ℕ, ◌+◌, ◌*◌, ◌%◌, ◌^◌, ◌<◌, ◌≡◌, ◌≢◌, refl, sym, ap, ◌∙◌, ◌⊎◌, inl, inr, Bool, true, false, ◌==◌,
  if◌then◌else◌, update, arith, update_here, ==_ne,
}
use nycu_osc_lab.Mm.State.{Mm}
use nycu_osc_lab.Mm.Buddy.Wf.{listed}
use nycu_osc_lab.Mm.Buddy.Frames.{Sound, sound, SameRange}
use nycu_osc_lab.Mm.Buddy.Alloc.{Placed, frame_va, Allocates, gives, fails}
use nycu_osc_lab.Vm.{entry, set_entry, clear_table, is_valid}
use nycu_osc_lab.Vm.Entry.{IsLink, IsPage, link, link-IsLink}
use nycu_osc_lab.Vm.Memory.{
  entry_apart, memory-Sound, OnlyMemory, clear_table-OnlyMemory, clear_table_in, clear_table_out,
}
use nycu_osc_lab.Vm.Tree.{Role, other, root, mid, low, span, Taken, Taken-IsPage, Tree, span_small}
use nycu_osc_lab.Vm.Spares.{Spares}
use nycu_osc_lab.Vm.Walk.{Grown, grown_role, Grown-Tree}

-- The page `q` comes from the allocator.
pub record NewPage (m : Mm) (used : ℕ → Bool) (q : ℕ) (m1 : Mm) (f : ℕ) : Type 0 where
  pub at_frame : q ≡ frame_va m f
  pub inside : f < m.frame_count
  pub unused : used f ≡ false
  pub valid : Sound m1 (update used f true)
  pub range : SameRange m m1

block_inside :
    {m : Mm} {used : ℕ → Bool} (f : ℕ)
    → Sound m used
    → used f ≡ true
    → m.order (14 + f) ≡ 0
    → f < m.frame_count
block_inside {m} {used} f (sound w) h e =
    let b = (w.block f (ground (arith, h))).inside in
    let one : 2 ^ m.order (14 + f) ≡ 1 = ap (λ o. 2 ^ o) e in omega arith

-- No page is free.
abbrev pub Full : Mm → Type 0
Full m = (i : ℕ) → listed m i ≡ true → ⊥

pub new_page :
    {m : Mm} {used : ℕ → Bool} {r : ℕ × Mm}
    → Allocates m used 0 r
    → ((r.0 ≡ 0) × (r.1 ≡ m) × Full m) ⊎ ((f : ℕ) × NewPage m used r.0 r.1 f)
new_page (fails e same all) = inl (e, same, λ i h. omega (arith, all i h))
new_page {m} {used} (gives i e a) = inr (
  i,
  record {
    at_frame = e;
    inside = omega (arith, block_inside i a.valid (update_here used i true) a.order_is, a.range.0);
    unused = a.unused;
    valid = a.valid;
    range = a.range;
  },
)

-- What the functions of vm.c rely on, and keep.
pub record Env (m : Mm) (used : ℕ → Bool) (role : ℕ → Role) (pgd : ℕ) : Type 0 where
  pub valid : Sound m used
  pub placed : Placed m
  pub tree : Tree m used role pgd

-- What the allocator keeps.
abbrev pub SameManaged : Mm → Mm → Type 0
SameManaged m m' =
    (m'.frame_count ≡ m.frame_count)
    × (m'.managed_base ≡ m.managed_base)
    × (m'.managed_size ≡ m.managed_size)

pub SameManaged-Placed : {m m' : Mm} → SameManaged m m' → Placed m → Placed m'
SameManaged-Placed s p = omega (arith, s.0, s.1, s.2, p.base_aligned, p.size_is, p.mapped)

-- A page that is given out stays so.
pub Taken_mono :
    (m m' : Mm) {used : ℕ → Bool} {a : ℕ} (f : ℕ)
    → SameManaged m m'
    → Taken m used a
    → Taken m' (update used f true) a
Taken_mono m m' f s (i, lt, u, e) =
    (i, omega (arith, s.0, lt), ground (arith, u), omega (arith, s.1, e))

pub OnlyMemory-SameManaged : (m m' : Mm) → OnlyMemory m m' → SameManaged m m'
OnlyMemory-SameManaged m m' e =
    (ap (λ x. x.frame_count) e, ap (λ x. x.managed_base) e, ap (λ x. x.managed_size) e)

pub OnlyMemory-Sound :
    {m m' : Mm} {used : ℕ → Bool} → OnlyMemory m m' → Sound m used → Sound m' used
OnlyMemory-Sound {m} {m'} {used} e h = subst (λ x. Sound x used) (sym e) (memory-Sound m'.memory h)

module _ {m : Mm} {used : ℕ → Bool} (placed : Placed m) {m1 : Mm} {f q : ℕ}
    (new : NewPage m used q m1 f) where
  -- The new page, clear.
  pub cleared-Sound : Sound (clear_table q m1) (update used f true)
  cleared-Sound = OnlyMemory-Sound (clear_table-OnlyMemory q m1) new.valid

  pub cleared-SameManaged : SameManaged m (clear_table q m1)
  cleared-SameManaged =
      let s = OnlyMemory-SameManaged m1 (clear_table q m1) (clear_table-OnlyMemory q m1) in
      (s.0 ∙ new.range.0, s.1 ∙ new.range.1, s.2 ∙ new.range.2)

  pub new_is_taken : Taken m (update used f true) q
  new_is_taken = (f, new.inside, update_here used f true, new.at_frame)

  pub new-IsPage : IsPage q
  new-IsPage = Taken-IsPage placed new_is_taken

  pub unlike_new : (a : ℕ) → Taken m used a → a ≢ q
  unlike_new a (i, lt, u, e) d =
      let same : i ≡ f = omega (arith, new.at_frame, e, d) in
      absurd (cc (sym u ∙ (ap used same ∙ new.unused)))

module _ {m : Mm} {used : ℕ → Bool} {role : ℕ → Role} {pgd : ℕ} (env : Env m used role pgd)
    {m1 : Mm} {f q : ℕ} (new : NewPage m used q m1 f) where
  q-IsPage : IsPage q
  q-IsPage = new-IsPage env.placed new

  -- No page of the tree is the new one.
  pub new_is_fresh : role q ≡ other
  new_is_fresh = elim (role-cases (role q)) [
    | inl e ↦ e
    | inr ne ↦ absurd (unlike_new env.placed new q (env.tree.taken q ne) refl)
  ]
    where
      role-cases : (r : Role) → (r ≡ other) ⊎ (r ≢ other)
      role-cases other = inl refl
      role-cases root = inr (λ e. cc)
      role-cases (mid k) = inr (λ e. cc)
      role-cases (low k j) = inr (λ e. cc)

  module _ (p i : ℕ) (wide : i < span (role p)) (was : is_valid (entry m p i) ≡ false) where
    unfoldable pub made : Mm
    made = set_entry p i (link q) (clear_table q m1)

    p_alive : role p ≢ other
    p_alive e = omega (arith, wide, ap span e)

    p-IsPage : IsPage p
    p-IsPage = Taken-IsPage env.placed (env.tree.taken p p_alive)

    i_small : i < 512
    i_small = span_small (role p) i wide

    not_new : (a : ℕ) → role a ≢ other → a ≢ q
    not_new a h e = h (ap role e ∙ new_is_fresh)

    -- What the writes do to the entries of a page of the tree.
    written :
        (t j : ℕ)
        → t % 4096 ≡ 0
        → t ≢ q
        → j < 512
        → entry made t j ≡ (if t + 8 * j == p + 8 * i then link q else entry m t j)
    unfolding made
    written t j al ne lt =
        let out = clear_table_out q t j m1 q-IsPage.0 al ne lt in
        let old : m1.memory (t + 8 * j) ≡ m.memory (t + 8 * j) =
          ap (λ x. x (t + 8 * j)) new.range.4 in
        ground (arith, out, old)

    pub made-Grown : Grown m made role p i q
    unfolding made
    made-Grown = record {
      fresh = new_is_fresh;
      was = was;
      now =
          subst (λ x. IsLink x q) (sym (update_here (clear_table q m1).memory (p + 8 * i) (link q)))
            (link-IsLink q q-IsPage);
      same = λ t j alive lt off.
          let page = Taken-IsPage env.placed (env.tree.taken t alive) in
          let ne : t + 8 * j ≢ p + 8 * i =
            λ e. off (entry_apart t p j i page.0 p-IsPage.0 lt i_small e) in
          written t j page.0 (not_new t alive) lt ∙ rw (==_ne _ _ ne) refl;
      zero = λ j lt.
          let ne : q + 8 * j ≢ p + 8 * i = λ e.
            not_new p p_alive (sym (entry_apart q p j i q-IsPage.0 p-IsPage.0 lt i_small e).0) in
          ground (arith, clear_table_in q j m1 lt, ne);
    }

    made-SameManaged : SameManaged m made
    unfolding made
    made-SameManaged = cleared-SameManaged env.placed new

    made-Sound : Sound made (update used f true)
    unfolding made
    made-Sound =
        memory-Sound (update (clear_table q m1).memory (p + 8 * i) (link q))
          (cleared-Sound env.placed new)

    pub made-Env : Env made (update used f true) (grown_role role p i q) pgd
    made-Env = record {
      valid = made-Sound;
      placed = SameManaged-Placed made-SameManaged env.placed;
      tree = Grown-Tree env.tree made-Grown wide (update used f true) made-taken;
    }
      where
        made-taken : (a : ℕ) → grown_role role p i q a ≢ other → Taken made (update used f true) a
        made-taken a h = elim (ℕ_discrete a q) [
          | yes e ↦ (
            f,
            omega (arith, made-SameManaged.0, new.inside),
            update_here used f true,
            omega (arith, e, new.at_frame, made-SameManaged.1),
          )
          | no ne ↦
              let alive : role a ≢ other = λ o. h (ground (arith, o)) in
              Taken_mono m made f made-SameManaged (env.tree.taken a alive)
        ]

    pub made-Spares : Spares m used role made (update used f true) (grown_role role p i q)
    unfolding made
    made-Spares = record {
      still_taken = λ a h. Taken_mono m made f made-SameManaged h;
      not_in = λ a h e. let ne = unlike_new env.placed new a h in rw (==_ne _ _ ne) e;
      same = λ a j h e lt.
          let page = Taken-IsPage env.placed h in
          let ne : a + 8 * j ≢ p + 8 * i = λ d.
            p_alive (sym (ap role (entry_apart a p j i page.0 p-IsPage.0 lt i_small d).0) ∙ e) in
          written a j page.0 (unlike_new env.placed new a h) lt ∙ rw (==_ne _ _ ne) refl;
    }
