-- ===== src/Prelude/Ranges.antt =====
-- Lists of consecutive nodes, what the loops that build a pool's free list leave.
use Prim.Native.Nat.{ℕ, zero, suc, ◌+◌, ◌≤◌, ◌<◌}
use mathlib.Core.Path.{◌≡◌, refl, ap, ◌∙◌, sym}
use mathlib.Core.Logic.{◌≢◌}
use mathlib.Core.List.{List, [], ◌∷◌}
use native.Mathlib.Omega.{arith}
use nycu_osc_lab.Prelude.Lists.{length}
use nycu_osc_lab.Prelude.Chains.{Chain, NotIn, Nodup, Disjoint}

abbrev pub range : ℕ → ℕ → List ℕ
range p zero = []
range p (suc k) = p ∷ range (suc p) k

pub length-range : (p k : ℕ) → length (range p k) ≡ k
length-range p zero = refl
length-range p (suc k) = omega (arith, length-range (suc p) k)

NotIn-range : (a p k : ℕ) → a < p → NotIn a (range p k)
NotIn-range a p zero h = tt
NotIn-range a p (suc k) h = (omega arith, NotIn-range a (suc p) k (omega arith))

pub Nodup-range : (p k : ℕ) → Nodup (range p k)
Nodup-range p zero = tt
Nodup-range p (suc k) = (NotIn-range p (suc p) k (omega arith), Nodup-range (suc p) k)

pub Disjoint-empty : (xs : List ℕ) → Disjoint xs []
Disjoint-empty [] = tt
Disjoint-empty (x ∷ xs) = (tt, Disjoint-empty xs)

-- Each node from `p` on links to the next one, and the last one to NULL.
pub Chain-range :
    (f : ℕ → ℕ) (p k : ℕ)
    → p ≢ 0
    → ((q : ℕ) → p ≤ q → q < p + k → f q ≡ suc q)
    → f (p + k) ≡ 0
    → Chain f p (range p (suc k))
Chain-range f p zero nz links last =
    let e : p + 0 ≡ p = omega arith in (refl, nz, ap f (sym e) ∙ last)
Chain-range f p (suc k) nz links last =
    let next : f p ≡ suc p = links p (omega arith) (omega arith) in
    let end : suc p + k ≡ p + suc k = omega arith in
    (
      refl,
      nz,
      rw next (
          Chain-range f (suc p) k (omega arith) (λ q lo hi. links q (omega arith) (omega arith))
            (ap f end ∙ last)),
    )

pub Disjoint-range : (a p k : ℕ) → a < p → Disjoint (range p k) (a ∷ [])
Disjoint-range a p zero h = tt
Disjoint-range a p (suc k) h = ((omega arith, tt), Disjoint-range a (suc p) k (omega arith))
