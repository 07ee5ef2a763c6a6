-- ===== src/Mm/Chunk/Lists.antt =====
-- The free lists of chunks of lab6/OrangePiVer/Src/mm.c: the link of a free chunk is its first word.
use nycu_osc_lab.Prelude.{
  ℕ, zero, suc, ◌+◌, ◌*◌, ◌^◌, ◌≤◌, ◌<◌, ◌≡◌, ◌≢◌, refl, true, false, ◌==◌, leb, List, [], ◌∷◌,
  update, u64, ◌⊎◌, inl, inr, arith,
}
use nycu_osc_lab.Prelude.Chains.{Chain, NotIn, Chain-update}
use native.Mathlib.Decide.{dec_lt}
use nycu_osc_lab.Mm.State.{Mm}
use nycu_osc_lab.Mm.Chunk.{push_chunk, pop_chunk, refill_loop}

-- The free list of `pool` holds the chunks `xs`, in this order.
abbrev pub IsPool : Mm → ℕ → List ℕ → Type 0
IsPool m pool xs = Chain m.memory (m.chunk_free_list pool) xs

-- push_chunk puts a chunk in front of its list, and leaves the lists of the other pools.
pub push_chunk-IsPool :
    (m : Mm) (pool ptr : ℕ) (xs : List ℕ)
    → ptr ≢ 0
    → IsPool m pool xs
    → NotIn ptr xs
    → IsPool (push_chunk pool ptr m) pool (ptr ∷ xs)
      × ((q : ℕ) (ys : List ℕ)
          → q ≢ pool
          → IsPool m q ys
          → NotIn ptr ys
          → IsPool (push_chunk pool ptr m) q ys)
unfolding push_chunk
push_chunk-IsPool m pool ptr xs nz c n = ((ground arith, nz, rw self (kept pool xs c n)), other)
  where
    self : update m.memory ptr (m.chunk_free_list pool) ptr ≡ m.chunk_free_list pool
    self = ground arith

    kept :
        (q : ℕ) (ys : List ℕ)
        → IsPool m q ys
        → NotIn ptr ys
        → Chain (update m.memory ptr (m.chunk_free_list pool)) (m.chunk_free_list q) ys
    kept q ys = Chain-update m.memory ptr (m.chunk_free_list pool) (m.chunk_free_list q) ys

    other :
        (q : ℕ) (ys : List ℕ)
        → q ≢ pool
        → IsPool m q ys
        → NotIn ptr ys
        → IsPool (push_chunk pool ptr m) q ys
    other q ys ne c' n' =
        let e : update m.chunk_free_list pool ptr q ≡ m.chunk_free_list q = ground arith in
        rw e (kept q ys c' n')

-- pop_chunk takes the first chunk off a list that has one, and returns NULL with nothing changed
-- from a list that has none; the lists of the other pools stay.
pub pop_chunk-IsPool :
    (m : Mm) (pool : ℕ) (xs : List ℕ)
    → IsPool m pool xs
    → ((xs ≡ []) × (pop_chunk pool m ≡ (0, m)))
      ⊎ ((x : ℕ) × (ys : List ℕ) × (xs ≡ x ∷ ys)
          × ((pop_chunk pool m).0 ≡ x)
          × IsPool (pop_chunk pool m).1 pool ys
          × ((pop_chunk pool m).1.memory ≡ m.memory)
          × ((q : ℕ) → q ≢ pool → (pop_chunk pool m).1.chunk_free_list q ≡ m.chunk_free_list q))
unfolding pop_chunk
pop_chunk-IsPool m pool [] c = inl (refl, ground arith)
pop_chunk-IsPool m pool (x ∷ ys) (e, nz, c) =
    let full : (m.chunk_free_list pool == 0) ≡ false = ground arith in
    inr (x, ys, refl, e, rw full (rw self (rw e c)), rw full, λ q ne. ground arith)
  where
    self :
        update m.chunk_free_list pool (m.memory (m.chunk_free_list pool)) pool
        ≡ m.memory (m.chunk_free_list pool)
    self = ground arith

-- The chunks cut from a page, the last one first.
pub cut : ℕ → ℕ → ℕ → List ℕ
cut base size zero = []
cut base size (suc n) = (base + n * size) ∷ cut base size n

NotIn-cut : (a base size n : ℕ) → 0 < size → base + n * size ≤ a → NotIn a (cut base size n)
unfolding cut
NotIn-cut a base size zero pos h = tt
NotIn-cut a base size (suc n) pos h = (ground arith, NotIn-cut a base size n pos (ground arith))

mul_room : (n total size : ℕ) → n < total → n * size + size ≤ total * size
mul_room n total size h = grind arith

-- refill_loop cuts the rest of a page into chunks.
refill_loop-IsPool :
    (fuel n total pool size base : ℕ) (m : Mm)
    → 0 < size
    → 0 < base
    → base + 4096 ≤ 2 ^ 64
    → total * size ≤ 4096
    → 4096 < total * size + size
    → n ≤ total
    → total < n + fuel
    → IsPool m pool (cut base size n)
    → IsPool (refill_loop fuel pool size base (n * size) m) pool (cut base size total)
unfolding refill_loop cut
refill_loop-IsPool zero n total pool size base m pos nz room fits full le enough c =
    absurd (omega arith)
refill_loop-IsPool (suc fuel) n total pool size base m pos nz room fits full le enough c =
    elim (dec_lt n total) [
      | yes lt ↦
          let go : leb (n * size + size) 4096 ≡ true = ground (arith, mul_room n total size lt) in
          let addr : u64 (base + n * size) ≡ base + n * size =
            omega (arith, mul_room n total size lt) in
          let next : n * size + size ≡ suc n * size = omega arith in
          rw (go, addr, next)
            (refill_loop-IsPool fuel (suc n) total pool size base
              (push_chunk pool (base + n * size) m) pos nz room fits full lt (omega arith)
              (push_chunk-IsPool m pool (base + n * size) (cut base size n) (omega arith) c
                (NotIn-cut (base + n * size) base size n pos (omega arith))).0)
      | no ge ↦
          let e : total ≡ n = omega arith in
          let stop : leb (n * size + size) 4096 ≡ false = ground (arith, e) in rw (stop, e) c
    ]

-- A refill of an empty pool with a page at `base` leaves the page's `4096 / size` chunks on the list.
pub refill_loop-cut :
    (total pool size base : ℕ) (m : Mm)
    → total * size ≡ 4096
    → 16 ≤ size
    → 0 < base
    → base + 4096 ≤ 2 ^ 64
    → IsPool m pool []
    → IsPool (refill_loop 257 pool size base 0 m) pool (cut base size total)
unfolding cut
refill_loop-cut total pool size base m e pos nz room c =
    let z : 0 * size ≡ 0 = omega arith in
    rw (← z) (
      refill_loop-IsPool 257 0 total pool size base m (omega arith) nz room (omega (arith, e))
        (omega (arith, e)) (omega arith) (grind arith) c)
