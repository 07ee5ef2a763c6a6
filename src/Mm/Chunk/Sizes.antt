-- ===== src/Mm/Chunk/Sizes.antt =====
-- The sizes of lab6/OrangePiVer/Src/mm.c: find_pool and size_to_order choose the smallest pool and
-- the smallest block that hold the request.
use nycu_osc_lab.Prelude.{
  ℕ, zero, suc, ◌+◌, ◌-◌, ◌*◌, ◌/◌, ◌^◌, ◌≤◌, ◌<◌, ◌≡◌, refl, ap, ◌∙◌, ◌⊎◌, inl, inr, List, [], ◌∷◌,
  get_or, length, u64, ltb, leb, Option, none, some, Bool-cases, arith,
}
use native.Mathlib.Decide.{dec_le}
use nycu_osc_lab.Mm.Buddy.Align.{pow-le-pow_add, pow-suc_two}
use nycu_osc_lab.Mm.Chunk.{
  pool_size, pool_sizes, find_pool_loop, find_pool, order_loop, size_to_order,
}

-- The loop of find_pool finds the first size that is large enough.
abbrev FirstFit : List ℕ → ℕ → ℕ → Option ℕ → Type 0
FirstFit sizes i size r =
    ((r ≡ none) × ((j : ℕ) → j < length sizes → get_or sizes j 0 < size))
    ⊎ ((k : ℕ) × (r ≡ some (i + k))
        × (k < length sizes)
        × (size ≤ get_or sizes k 0)
        × ((j : ℕ) → j < k → get_or sizes j 0 < size))

FirstFit-cons :
    (s : ℕ) (sizes : List ℕ) (i size : ℕ) {r : Option ℕ}
    → s < size
    → FirstFit sizes (i + 1) size r
    → FirstFit (s ∷ sizes) i size r
FirstFit-cons s sizes i size lt (inl (e, small)) = inl (e, below)
  where
    below : (j : ℕ) → j < length (s ∷ sizes) → get_or (s ∷ sizes) j 0 < size
    below zero h = lt
    below (suc j) h = small j (omega arith)
FirstFit-cons s sizes i size lt (inr (k, e, inside, fits, small)) =
    inr (suc k, e ∙ ap some (omega arith), omega arith, fits, below)
  where
    below : (j : ℕ) → j < suc k → get_or (s ∷ sizes) j 0 < size
    below zero h = lt
    below (suc j) h = small j (omega arith)

find_pool_loop-FirstFit :
    (sizes : List ℕ) (i size : ℕ) → FirstFit sizes i size (find_pool_loop sizes i size)
unfolding find_pool_loop
find_pool_loop-FirstFit [] i size = inl (refl, λ j h. elim h [ ])
find_pool_loop-FirstFit (s ∷ sizes) i size = elim (Bool-cases (leb size s)) [
  | inl fits ↦
      rw fits (inr (0, ap some (omega arith), omega arith, ground arith, λ j h. elim h [ ]))
  | inr big ↦
      rw big
        (FirstFit-cons s sizes i size (ground arith) (find_pool_loop-FirstFit sizes (i + 1) size))
]

-- find_pool returns no pool exactly for a size above 2048, and otherwise the smallest that fits.
pub find_pool_lem :
    (size : ℕ)
    → ((2048 < size) × (find_pool size ≡ none))
      ⊎ ((pool : ℕ) × (find_pool size ≡ some pool)
          × (pool < 8)
          × (size ≤ pool_size pool)
          × ((j : ℕ) → j < pool → pool_size j < size))
unfolding find_pool
find_pool_lem size = elim (find_pool_loop-FirstFit pool_sizes 0 size) [
  | inl (e, small) ↦ inl (small 7 (omega arith), e)
  | inr (k, e, inside, fits, small) ↦ inr (k, e ∙ ap some (omega arith), inside, fits, small)
]

pow-le-pow_of_le : (a b : ℕ) → a ≤ b → 2 ^ a ≤ 2 ^ b
pow-le-pow_of_le a b h =
    let e : 2 ^ (a + (b - a)) ≡ 2 ^ b = ap (λ t. 2 ^ t) (omega arith) in
    omega (arith, e, pow-le-pow_add a (b - a))

-- The loop of size_to_order, at n = 2 ^ order.
order_loop_lem :
    (fuel order pages : ℕ)
    → order + fuel ≤ 63
    → pages ≤ 2 ^ (order + fuel)
    → (order ≡ 0) ⊎ (2 ^ (order - 1) < pages)
    → let r = order_loop fuel (2 ^ order) pages order in
      (pages ≤ 2 ^ r) × ((r ≡ 0) ⊎ (2 ^ (r - 1) < pages))
unfolding order_loop
order_loop_lem zero order pages cap enough low =
    let e : 2 ^ (order + 0) ≡ 2 ^ order = ap (λ t. 2 ^ t) (omega arith) in (omega (arith, e), low)
order_loop_lem (suc fuel) order pages cap enough low = elim (Bool-cases (ltb (2 ^ order) pages)) [
  | inl more ↦
      let next : u64 (2 ^ order * 2) ≡ 2 ^ suc order =
        omega (arith, pow-suc_two order, pow-le-pow_of_le (suc order) 63 (omega arith)) in
      let step : order + 1 ≡ suc order = omega arith in
      let e : 2 ^ (order + suc fuel) ≡ 2 ^ (suc order + fuel) = ap (λ t. 2 ^ t) (omega arith) in
      rw (more, next, step)
        (order_loop_lem fuel (suc order) pages (omega arith) (omega (arith, e))
          (inr (ground arith)))
  | inr done ↦ rw done (ground arith, low)
]

-- For a size up to MAX_ALLOC_SIZE: size_to_order is the least order whose block holds the size, and at
-- most MAX_ORDER.
pub size_to_order_lem :
    (size : ℕ)
    → size ≤ 16777216
    → (size ≤ 2 ^ size_to_order size * 4096)
      × ((size_to_order size ≡ 0) ⊎ (2 ^ (size_to_order size - 1) * 4096 < size))
      × (size_to_order size ≤ 12)
unfolding size_to_order
size_to_order_lem size h =
    (omega (arith, found.0), from_low found.1, small (size_to_order size) found.1)
  where
    pages : ℕ
    pages = u64 (size + 4095) / 4096

    found :
        (pages ≤ 2 ^ size_to_order size)
        × ((size_to_order size ≡ 0) ⊎ (2 ^ (size_to_order size - 1) < pages))
    found = order_loop_lem 63 0 pages (omega arith) (omega arith) (inl refl)

    from_low :
        (size_to_order size ≡ 0) ⊎ (2 ^ (size_to_order size - 1) < pages)
        → (size_to_order size ≡ 0) ⊎ (2 ^ (size_to_order size - 1) * 4096 < size)
    from_low (inl e) = inl e
    from_low (inr lt) = inr (omega arith)

    small : (r : ℕ) → (r ≡ 0) ⊎ (2 ^ (r - 1) < pages) → r ≤ 12
    small r (inl e) = omega arith
    small r (inr lt) = elim (dec_le r 12) [
      | yes le ↦ le
      | no gt ↦ absurd (omega (arith, pow-le-pow_of_le 12 (r - 1) (omega arith)))
    ]
