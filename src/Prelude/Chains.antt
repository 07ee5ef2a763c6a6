-- ===== src/Prelude/Chains.antt =====
-- Singly linked lists that end with NULL, the shape of the kernel's free lists and queues: `next` is
-- the link field, and pointers are numbers with 0 for NULL.
use Prim.Native.Nat.{ℕ, zero, suc, ◌<◌}
use mathlib.Core.Path.{◌≡◌, sym, ◌∙◌}
use mathlib.Core.Logic.{◌≢◌, inl, inr}
use mathlib.Core.Bool.{Bool, false, not, ◌&&◌}
use mathlib.Core.List.{List, [], ◌∷◌}
use native.Mathlib.Omega.{arith}
use nycu_osc_lab.Prelude.Tests.{◌==◌, if◌then◌else◌, update, Bool-cases}
use nycu_osc_lab.Prelude.Lists.{length}

-- From `p` the links lead through the nodes `xs` to NULL.
abbrev pub Chain : (ℕ → ℕ) → ℕ → List ℕ → Type 0
Chain next p [] = p ≡ 0
Chain next p (x ∷ xs) = (p ≡ x) × (x ≢ 0) × Chain next (next x) xs

abbrev pub NotIn : ℕ → List ℕ → Type 0
NotIn a [] = Unit {0}
NotIn a (x ∷ xs) = (a ≢ x) × NotIn a xs

abbrev pub Nodup : List ℕ → Type 0
Nodup [] = Unit {0}
Nodup (x ∷ xs) = NotIn x xs × Nodup xs

abbrev pub Disjoint : List ℕ → List ℕ → Type 0
Disjoint [] ys = Unit {0}
Disjoint (x ∷ xs) ys = NotIn x ys × Disjoint xs ys

pub Chain-update :
    (next : ℕ → ℕ) (a v p : ℕ) (xs : List ℕ)
    → Chain next p xs
    → NotIn a xs
    → Chain (update next a v) p xs
Chain-update next a v p [] c n = c
Chain-update next a v p (x ∷ xs) (e, nz, c) (ne, n) =
    (e, nz, ground (arith, Chain-update next a v (next x) xs c n))

-- The insertion walk of the kernel's queues: while (cur->next && before(cur->next)) cur = cur->next;
unfoldable pub walk : ℕ → (ℕ → ℕ) → (ℕ → Bool) → ℕ → ℕ
walk zero next before cur = cur
walk (suc fuel) next before cur =
    let rest = walk fuel next before (next cur) in
    if not (next cur == 0) && before (next cur) then rest else cur

-- n->next = cur->next; cur->next = n;
abbrev pub link_after : (ℕ → ℕ) → ℕ → ℕ → ℕ → ℕ
link_after next n cur = update (update next n (next cur)) cur n

-- The new node goes behind the nodes at the front for which `before` holds.
unfoldable pub insert : (ℕ → Bool) → ℕ → List ℕ → List ℕ
insert before n [] = n ∷ []
insert before n (x ∷ xs) = if before x then x ∷ insert before n xs else n ∷ x ∷ xs

module _ (next : ℕ → ℕ) (before : ℕ → Bool) (n : ℕ) (nz : n ≢ 0) where
  -- What the walk from `p`, with `xs` behind it, and the two writes do.
  pub record Inserted (p r : ℕ) (xs : List ℕ) : Type 0 where
    pub chain : Chain (link_after next n r) (link_after next n r p) (insert before n xs)
    pub same : (a : ℕ) → a ≢ p → a ≢ n → NotIn a xs → link_after next n r a ≡ next a

  -- The node goes in right behind `p`.
  insert_here :
      (p x : ℕ) (xs : List ℕ)
      → next p ≡ x
      → x ≢ 0
      → Chain next (next x) xs
      → NotIn p (x ∷ xs)
      → n ≢ p
      → NotIn n (x ∷ xs)
      → before x ≡ false
      → Inserted p p (x ∷ xs)
  unfolding insert
  insert_here p x xs e nz' c out ne fresh b =
      let at_x : link_after next n p x ≡ next x = ground arith in
      let tail =
        Chain-update (update next n (next p)) p n (next x) xs
          (Chain-update next n (next p) (next x) xs c fresh.1) out.1 in
      record {
        chain = rw b (ground arith, nz, (ground arith, nz', rw at_x tail));
        same = λ a h h' i. ground arith;
      }

  pub walk-Inserted :
      (fuel p : ℕ) (xs : List ℕ)
      → Chain next (next p) xs
      → NotIn p xs
      → Nodup xs
      → n ≢ p
      → NotIn n xs
      → length xs < fuel
      → Inserted p (walk fuel next before p) xs
  unfolding walk insert
  walk-Inserted zero p xs c out nd ne fresh enough = absurd (omega arith)
  walk-Inserted (suc fuel) p [] c out nd ne fresh enough =
      rw c (record { chain = ground arith; same = λ a h h' i. ground arith })
  walk-Inserted (suc fuel) p (x ∷ xs) (e, nz', c) out nd ne fresh enough =
      let full : (x == 0) ≡ false = ground arith in
      let rest = walk-Inserted fuel x xs c nd.0 nd.1 fresh.0 fresh.1 (omega arith) in
      elim (Bool-cases (before x)) [
        | inl b ↦
            let at_p = rest.same p out.0 (λ q. ne (sym q)) out.1 in
            rw (e, full, b)
              (record {
                chain = rw b (at_p ∙ e, nz', rest.chain);
                same = λ a h h' i. rest.same a i.0 h' i.1;
              })
        | inr b ↦ rw (e, full, b) (insert_here p x xs e nz' c out ne fresh b)
      ]
