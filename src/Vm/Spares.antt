-- ===== src/Vm/Spares.antt =====
-- The pages that lab6/OrangePiVer/Src/vm.c leaves alone: those that are given out and not in the tree.
use nycu_osc_lab.Prelude.{ℕ, ◌<◌, ◌≡◌, refl, ◌∙◌, Bool}
use nycu_osc_lab.Mm.State.{Mm}
use nycu_osc_lab.Vm.{entry}
use nycu_osc_lab.Vm.Tree.{Role, other, Taken}

-- From a state and its tree to a later state and its tree.
pub record Spares (m : Mm) (used : ℕ → Bool) (role : ℕ → Role) (m' : Mm) (used' : ℕ → Bool)
    (role' : ℕ → Role) : Type 0 where
  pub still_taken : (a : ℕ) → Taken m used a → Taken m' used' a
  pub not_in : (a : ℕ) → Taken m used a → role a ≡ other → role' a ≡ other
  pub same : (a j : ℕ) → Taken m used a → role a ≡ other → j < 512 → entry m' a j ≡ entry m a j

pub Spares-refl : (m : Mm) (used : ℕ → Bool) (role : ℕ → Role) → Spares m used role m used role
Spares-refl m used role = record {
  still_taken = λ a h. h;
  not_in = λ a h e. e;
  same = λ a j h e lt. refl;
}

pub Spares-trans :
    {m m1 m2 : Mm} {used used1 used2 : ℕ → Bool} {role role1 role2 : ℕ → Role}
    → Spares m used role m1 used1 role1
    → Spares m1 used1 role1 m2 used2 role2
    → Spares m used role m2 used2 role2
Spares-trans s t = record {
  still_taken = λ a h. t.still_taken a (s.still_taken a h);
  not_in = λ a h e. t.not_in a (s.still_taken a h) (s.not_in a h e);
  same = λ a j h e lt. t.same a j (s.still_taken a h) (s.not_in a h e) lt ∙ s.same a j h e lt;
}
