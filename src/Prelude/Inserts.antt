-- ===== src/Prelude/Inserts.antt =====
-- `insert`, what a queue's walk and writes come to: its nodes, its length and its order.
use Prim.Native.Nat.{ℕ, suc, ◌≤◌}
use mathlib.Core.Path.{◌≡◌, refl, sym}
use mathlib.Core.Logic.{◌≢◌, ◌⊎◌, inl, inr}
use mathlib.Core.Bool.{Bool, true, false}
use mathlib.Core.List.{List, [], ◌∷◌}
use native.Mathlib.Omega.{arith}
use nycu_osc_lab.Prelude.Tests.{◌==◌, update, Bool-cases}
use nycu_osc_lab.Prelude.Lists.{length}
use nycu_osc_lab.Prelude.Chains.{
  Chain, NotIn, Nodup, Disjoint, Chain-update, walk, link_after, insert, walk-Inserted,
}

-- `R x y` for every node `x` and every node `y` behind it.
abbrev pub Each : (ℕ → Type 0) → List ℕ → Type 0
Each P [] = Unit {0}
Each P (x ∷ xs) = P x × Each P xs

abbrev pub Ordered : (ℕ → ℕ → Type 0) → List ℕ → Type 0
Ordered R [] = Unit {0}
Ordered R (x ∷ xs) = Each (R x) xs × Ordered R xs

pub Each-map : {P Q : ℕ → Type 0} (xs : List ℕ) → ((x : ℕ) → P x → Q x) → Each P xs → Each Q xs
Each-map [] f h = tt
Each-map (x ∷ xs) f (p, h) = (f x p, Each-map xs f h)

pub NotIn-Each : (a : ℕ) (xs : List ℕ) → NotIn a xs → Each (λ x. a ≢ x) xs
NotIn-Each a [] h = tt
NotIn-Each a (x ∷ xs) (p, h) = (p, NotIn-Each a xs h)

pub Each-NotIn : (a : ℕ) (xs : List ℕ) → Each (λ x. a ≢ x) xs → NotIn a xs
Each-NotIn a [] h = tt
Each-NotIn a (x ∷ xs) (p, h) = (p, Each-NotIn a xs h)

module _ (before : ℕ → Bool) (n : ℕ) where
  pub Each-insert : (P : ℕ → Type 0) (xs : List ℕ) → P n → Each P xs → Each P (insert before n xs)
  unfolding insert
  Each-insert P [] p h = (p, tt)
  Each-insert P (x ∷ xs) p (q, h) = elim (Bool-cases (before x)) [
    | inl b ↦ rw b (q, Each-insert P xs p h)
    | inr b ↦ rw b (p, (q, h))
  ]

  pub NotIn-insert : (a : ℕ) (xs : List ℕ) → a ≢ n → NotIn a xs → NotIn a (insert before n xs)
  NotIn-insert a xs ne h =
      Each-NotIn a (insert before n xs) (Each-insert (λ x. a ≢ x) xs ne (NotIn-Each a xs h))

  pub Nodup-insert : (xs : List ℕ) → NotIn n xs → Nodup xs → Nodup (insert before n xs)
  unfolding insert
  Nodup-insert [] h nd = (tt, tt)
  Nodup-insert (x ∷ xs) h nd = elim (Bool-cases (before x)) [
    | inl b ↦ rw b (NotIn-insert x xs (λ e. h.0 (sym e)) nd.0, Nodup-insert xs h.1 nd.1)
    | inr b ↦ rw b (h, nd)
  ]

  pub Disjoint-insert :
      (xs ys : List ℕ) → NotIn n xs → Disjoint xs ys → Disjoint xs (insert before n ys)
  Disjoint-insert [] ys h d = tt
  Disjoint-insert (x ∷ xs) ys h d =
      (NotIn-insert x ys (λ e. h.0 (sym e)) d.0, Disjoint-insert xs ys h.1 d.1)

  pub length-insert : (xs : List ℕ) → length (insert before n xs) ≡ suc (length xs)
  unfolding insert
  length-insert [] = refl
  length-insert (x ∷ xs) = elim (Bool-cases (before x)) [
    | inl b ↦ rw b (omega (arith, length-insert xs))
    | inr b ↦ rw b refl
  ]

  pub Ordered-insert :
      (R : ℕ → ℕ → Type 0) (xs : List ℕ)
      → ((x : ℕ) → before x ≡ true → R x n)
      → ((x : ℕ) → before x ≡ false → R n x)
      → ((x y : ℕ) → R n x → R x y → R n y)
      → Ordered R xs
      → Ordered R (insert before n xs)
  unfolding insert
  Ordered-insert R [] f g tr o = (tt, tt)
  Ordered-insert R (x ∷ xs) f g tr (a, o) = elim (Bool-cases (before x)) [
    | inl b ↦ rw b (Each-insert (R x) xs (f x b) a, Ordered-insert R xs f g tr o)
    | inr b ↦ rw b ((g x b, Each-map xs (λ y h. tr x y (g x b) h) a), (a, o))
  ]

-- The whole insertion into a queue that starts at `head`: the new node becomes the head, or it goes
-- in behind it.
module _ (next : ℕ → ℕ) (before : ℕ → Bool) (n head : ℕ) (nz : n ≢ 0) where
  pub Chain-insert_front :
      (xs : List ℕ)
      → Chain next head xs
      → NotIn n xs
      → ((head == 0) ≡ true) ⊎ (before head ≡ false)
      → Chain (update next n head) n (insert before n xs)
  unfolding insert
  Chain-insert_front [] c h w = (refl, nz, ground arith)
  Chain-insert_front (x ∷ xs) (e, nz', c) h (inl w) = absurd (ground arith)
  Chain-insert_front (x ∷ xs) (e, nz', c) h (inr w) =
      let b : before x ≡ false = rw (← e) w in
      let own : update next n head n ≡ x = ground arith in
      let at_x : update next n head x ≡ next x = ground arith in
      rw b (refl, nz, (own, nz', rw at_x (Chain-update next n head (next x) xs c h.1)))

  pub Chain-insert_behind :
      (fuel : ℕ) (xs : List ℕ)
      → Chain next head xs
      → Nodup xs
      → NotIn n xs
      → length xs ≤ fuel
      → (head == 0) ≡ false
      → before head ≡ true
      → let f = link_after next n (walk fuel next before head) in
        Chain f head (insert before n xs) × ((a : ℕ) → a ≢ n → NotIn a xs → f a ≡ next a)
  unfolding insert
  Chain-insert_behind fuel [] c nd h enough full b = absurd (ground arith)
  Chain-insert_behind fuel (x ∷ xs) (e, nz', c) nd h enough full b =
      let b' : before x ≡ true = rw (← e) b in
      let done = walk-Inserted next before n nz fuel x xs c nd.0 nd.1 h.0 h.1 (omega arith) in
      rw (e, b') ((refl, nz', done.chain), λ a ne i. done.same a i.0 ne i.1)

update-other : (f : ℕ → ℕ) (a v x : ℕ) → a ≢ x → update f a v x ≡ f x
update-other f a v x ne = ground arith

-- A key of a node that is not on the list may change.
pub Each-update :
    (P : ℕ → Type 0) (f : ℕ → ℕ) (a v : ℕ) (xs : List ℕ)
    → NotIn a xs
    → Each (λ y. P (f y)) xs
    → Each (λ y. P (update f a v y)) xs
Each-update P f a v [] h e = tt
Each-update P f a v (x ∷ xs) (ne, h) (p, e) =
    (rw (update-other f a v x ne) p, Each-update P f a v xs h e)

pub Ordered-update :
    (Q : ℕ → ℕ → Type 0) (f : ℕ → ℕ) (a v : ℕ) (xs : List ℕ)
    → NotIn a xs
    → Ordered (λ x y. Q (f x) (f y)) xs
    → Ordered (λ x y. Q (update f a v x) (update f a v y)) xs
Ordered-update Q f a v [] h o = tt
Ordered-update Q f a v (x ∷ xs) (ne, h) (e, o) = (
  rw (update-other f a v x ne) (Each-update (Q (f x)) f a v xs h e),
  Ordered-update Q f a v xs h o,
)

-- A list away from the nodes that changed keeps its links.
pub Chain-Each :
    (f next : ℕ → ℕ) (p : ℕ) (xs : List ℕ)
    → Each (λ a. f a ≡ next a) xs
    → Chain next p xs
    → Chain f p xs
Chain-Each f next p [] e c = c
Chain-Each f next p (x ∷ xs) (e, es) (h, nz, c) = (h, nz, rw e (Chain-Each f next (next x) xs es c))

pub Disjoint-Each :
    (P : ℕ → Type 0) (n : ℕ) (xs ys : List ℕ)
    → NotIn n xs
    → Disjoint xs ys
    → ((a : ℕ) → a ≢ n → NotIn a ys → P a)
    → Each P xs
Disjoint-Each P n [] ys h d f = tt
Disjoint-Each P n (x ∷ xs) ys h d f =
    (f x (λ e. h.0 (sym e)) d.0, Disjoint-Each P n xs ys h.1 d.1 f)

pub Disjoint-head : (n : ℕ) (xs ys : List ℕ) → Disjoint xs (n ∷ ys) → NotIn n xs
Disjoint-head n [] ys d = tt
Disjoint-head n (x ∷ xs) ys d = (λ e. d.0.0 (sym e), Disjoint-head n xs ys d.1)

pub Disjoint-tail : (n : ℕ) (xs ys : List ℕ) → Disjoint xs (n ∷ ys) → Disjoint xs ys
Disjoint-tail n [] ys d = tt
Disjoint-tail n (x ∷ xs) ys d = (d.0.1, Disjoint-tail n xs ys d.1)
