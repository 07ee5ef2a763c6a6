-- ===== src/Mm/Startup/Find.antt =====
-- What startup_alloc of lab6/OrangePiVer/Src/mm.c finds.
use native.Mathlib.Decide.{dec_le}
use nycu_osc_lab.Prelude.{
  ℕ, zero, suc, ◌+◌, ◌*◌, ◌/◌, ◌%◌, ◌^◌, ◌≤◌, ◌<◌, ◌≡◌, refl, ap, ◌∙◌, ◌⊎◌, inl, inr, ◌&&◌, ltb,
  leb, if◌then◌else◌, Option, none, some, List, [], ◌∷◌, length, u64, Bool-cases, arith,
}
use nycu_osc_lab.Mm.State.{kernel_va_offset, phys_to_virt_addr}
use nycu_osc_lab.Mm.Startup.{
  Region, Startup, align_up, range_overlap, conflict, startup_loop, startup_alloc, hand_out,
}

-- No reserved range has a byte from `a` on below `b`.
abbrev pub Avoids : ℕ → ℕ → List Region → Type 0
Avoids a b [] = Unit
Avoids a b (r ∷ rs) = ((r.end ≤ a) ⊎ (b ≤ r.start)) × Avoids a b rs

abbrev pub EndsBelow : ℕ → List Region → Type 0
EndsBelow n [] = Unit
EndsBelow n (r ∷ rs) = (r.end < n) × EndsBelow n rs

-- How many ranges end after `a`.
abbrev ahead : ℕ → List Region → ℕ
ahead a [] = 0
ahead a (r ∷ rs) = (if ltb a r.end then 1 else 0) + ahead a rs

ahead-le : (a : ℕ) (rs : List Region) → ahead a rs ≤ length rs
ahead-le a [] = omega arith
ahead-le a (r ∷ rs) = ground (arith, ahead-le a rs)

ahead_mono : (a b : ℕ) (rs : List Region) → a ≤ b → ahead b rs ≤ ahead a rs
ahead_mono a b [] h = omega arith
ahead_mono a b (r ∷ rs) h = ground (arith, ahead_mono a b rs h)

-- What the search for a conflict finds: the range of bytes is free, or some reserved range is in the
-- way, and then it is in the way of every candidate from there up to its end.
conflict_lem :
    (a b : ℕ) (rs : List Region)
    → a < b
    → ((conflict a b rs ≡ none) × Avoids a b rs)
      ⊎ ((e : ℕ) × (conflict a b rs ≡ some e)
          × (a < e)
          × ((x : ℕ) → e ≤ x → ahead x rs < ahead a rs)
          × ((x y : ℕ) → a ≤ x → x < e → b ≤ y → Avoids x y rs → ⊥)
          × ((n : ℕ) → EndsBelow n rs → e < n))
unfolding conflict range_overlap
conflict_lem a b [] lt = inl (refl, tt)
conflict_lem a b (r ∷ rs) lt = elim (Bool-cases (ltb a r.end && ltb r.start b)) [
  | inl hit ↦ rw hit (
      inr (
        r.end,
        refl,
        ground (arith, hit),
        λ x le. ground (arith, hit, le, ahead_mono a x rs),
        λ x y lo hi le v. ground (arith, v.0, hit, lo, hi, le),
        λ n v. v.0,
      ))
  | inr miss ↦ rw miss (elim (conflict_lem a b rs lt) [
    | inl (e, v) ↦ inl (e, (ground (arith, miss), v))
    | inr (e, eq, lt_e, fewer, blocks, below) ↦ inr (
      e,
      eq,
      lt_e,
      λ x le. ground (arith, fewer x le, le, lt_e),
      λ x y lo hi le v. blocks x y lo hi le v.1,
      λ n v. below n v.1,
    )
  ])
]

-- The address is the first one from `from` on that is aligned and has room for `size` bytes.
pub record Found (from size end : ℕ) (rs : List Region) (a : ℕ) : Type 0 where
  pub aligned : a % 4096 ≡ 0
  pub above : from ≤ a
  pub fits : a + size ≤ end
  pub free : Avoids a (a + size) rs
  pub first : (x : ℕ) → from ≤ x → x < a → x % 4096 ≡ 0 → Avoids x (x + size) rs → ⊥

pub NoRoom : ℕ → ℕ → ℕ → List Region → Type 0
NoRoom from size end rs =
    (x : ℕ) → from ≤ x → x % 4096 ≡ 0 → x + size ≤ end → Avoids x (x + size) rs → ⊥

align_up_lem : (v : ℕ) → v < 2 ^ 63 → align_up v 4096 ≡ (v + 4095) / 4096 * 4096
unfolding align_up
align_up_lem v h = omega arith

-- Between a candidate and the next one, no aligned address has room.
skipped : {e x : ℕ} → x % 4096 ≡ 0 → x < (e + 4095) / 4096 * 4096 → x < e
skipped h lt = omega arith

-- No aligned address from `a` on below `c` has room.
abbrev Skips : ℕ → ℕ → ℕ → List Region → Type 0
Skips a c size rs = (x : ℕ) → a ≤ x → x < c → x % 4096 ≡ 0 → Avoids x (x + size) rs → ⊥

Found-Skips :
    {a c size end : ℕ} {rs : List Region} {b : ℕ}
    → a ≤ c
    → Skips a c size rs
    → Found c size end rs b
    → Found a size end rs b
Found-Skips {a} {c} le skips f = record {
  aligned = f.aligned;
  above = omega (arith, f.above);
  fits = f.fits;
  free = f.free;
  first = λ x lo hi al v. elim (dec_le c x) [
    | yes later ↦ f.first x later hi al v
    | no sooner ↦ skips x lo (omega arith) al v
  ];
}

NoRoom-Skips :
    (a c size end : ℕ) (rs : List Region)
    → Skips a c size rs
    → NoRoom c size end rs
    → NoRoom a size end rs
unfolding NoRoom
NoRoom-Skips a c size end rs skips full x lo al fit v = elim (dec_le c x) [
  | yes later ↦ full x later al fit v
  | no sooner ↦ skips x lo (omega arith) al v
]

startup_loop_lem :
    (fuel size end : ℕ) (rs : List Region) (a : ℕ)
    → 0 < size
    → size < 2 ^ 62
    → end < 2 ^ 62
    → EndsBelow (2 ^ 62) rs
    → a % 4096 ≡ 0
    → a < 2 ^ 63
    → ahead a rs < fuel
    → ((b : ℕ) × (startup_loop fuel size 4096 end rs a ≡ some b) × Found a size end rs b)
      ⊎ ((startup_loop fuel size 4096 end rs a ≡ none) × NoRoom a size end rs)
unfolding startup_loop NoRoom
startup_loop_lem zero size end rs a s0 s1 e1 r1 al lt en = absurd (omega arith)
startup_loop_lem (suc fuel) size end rs a s0 s1 e1 r1 al lt en =
    let nowrap : u64 (a + size) ≡ a + size = omega arith in
    rw nowrap (elim (Bool-cases (leb (a + size) end)) [
      | inr out ↦ rw out (inr (refl, λ x le al2 fit v. ground (arith, out, le, fit)))
      | inl room ↦ rw room (elim (conflict_lem a (a + size) rs (omega arith)) [
        | inl (e, v) ↦ rw e (
            inl (
              a,
              refl,
              record {
                aligned = al;
                above = omega arith;
                fits = ground (arith, room);
                free = v;
                first = λ x lo hi al2 v2. omega arith;
              },
            ))
        | inr (e, eq, lt_e, fewer, blocks, below) ↦
            let e_small : e < 2 ^ 62 = below (2 ^ 62) r1 in
            let c = (e + 4095) / 4096 * 4096 in
            let le_c : e ≤ c = omega arith in
            let skips : Skips a c size rs =
              λ x lo hi al2 v. blocks x (x + size) lo (skipped al2 hi) (omega arith) v in
            let less = fewer c le_c in
            rw (eq, align_up_lem e (omega arith))
              (elim (startup_loop_lem fuel size end rs c s0 s1 e1 r1 (omega arith) (omega arith)
                (omega arith)) [
                  | inl (b, to, f) ↦ inl (b, to, Found-Skips (omega arith) skips f)
                  | inr (to, full) ↦ inr (to, NoRoom-Skips _ _ _ _ _ skips full)
                ])
      ])
    ])

-- The size in whole pages.
abbrev pub pages : ℕ → ℕ
pages size = (size + 4095) / 4096 * 4096

startup_alloc_form :
    (size : ℕ) (s : Startup)
    → size < 2 ^ 62
    → s.startup_ptr < 2 ^ 62
    → startup_alloc size 4096 s
      ≡ hand_out (pages size) s (
          startup_loop
            (suc (length s.early_reserved))
            (pages size)
            4096
            s.startup_end
            s.early_reserved
            (pages s.startup_ptr))
unfolding startup_alloc
startup_alloc_form size s s1 p1 =
    ap
      (λ n. hand_out n s (
        startup_loop (suc (length s.early_reserved)) n 4096 s.startup_end s.early_reserved
          (align_up s.startup_ptr 4096)))
      (align_up_lem size (omega arith))
    ∙ ap
        (λ p. hand_out (pages size) s (
          startup_loop (suc (length s.early_reserved)) (pages size) 4096 s.startup_end
            s.early_reserved p))
        (align_up_lem s.startup_ptr (omega arith))

hand_out-some :
    (n a : ℕ) (s : Startup) {r : Option ℕ}
    → r ≡ some a
    → a < 2 ^ 38
    → a + n < 2 ^ 64
    → hand_out n s r ≡ (kernel_va_offset + a, record s { startup_ptr = a + n })
unfolding hand_out phys_to_virt_addr
hand_out-some n a s e low lt =
    let nowrap : u64 (a + n) ≡ a + n = omega arith in
    let mapped : u64 (a + kernel_va_offset) ≡ kernel_va_offset + a = omega arith in
    ap (hand_out n s) e
    ∙ (ap (λ v. (v, record s { startup_ptr = u64 (a + n) })) mapped
        ∙ ap (λ p. (kernel_va_offset + a, record s { startup_ptr = p })) nowrap)

hand_out-none : (n : ℕ) (s : Startup) {r : Option ℕ} → r ≡ none → hand_out n s r ≡ (0, s)
unfolding hand_out
hand_out-none n s e = ap (hand_out n s) e

-- For startup_end up to 2^38, and a size, a startup_ptr and reserved ranges for which no sum wraps around:
-- startup_alloc with page alignment finds the first page-aligned address at or after startup_ptr where the
-- size, in whole pages, fits below startup_end and overlaps no reserved range, moves startup_ptr behind it
-- and returns its address in the kernel's high half. It returns NULL, and moves nothing, only when there
-- is no such address.
pub startup_alloc-Found :
    (size : ℕ) (s : Startup)
    → 0 < size
    → size < 2 ^ 61
    → s.startup_ptr < 2 ^ 62
    → s.startup_end ≤ 2 ^ 38
    → EndsBelow (2 ^ 62) s.early_reserved
    → ((a : ℕ) × (startup_alloc size 4096 s
          ≡ (kernel_va_offset + a, record s { startup_ptr = a + pages size }))
        × Found s.startup_ptr (pages size) s.startup_end s.early_reserved a)
      ⊎ ((startup_alloc size 4096 s ≡ (0, s))
          × NoRoom s.startup_ptr (pages size) s.startup_end s.early_reserved)
startup_alloc-Found size s s0 s1 p1 e1 r1 =
    let rs = s.early_reserved in
    let form = startup_alloc_form size s (omega arith) p1 in
    let skips : Skips s.startup_ptr (pages s.startup_ptr) (pages size) rs =
      λ x lo hi al v. omega arith in
    elim (startup_loop_lem (suc (length rs)) (pages size) s.startup_end rs (pages s.startup_ptr)
      (omega arith) (omega arith) (omega arith) r1 (omega arith) (omega arith)
      (omega (arith, ahead-le (pages s.startup_ptr) rs))) [
        | inl (a, e, f) ↦
            let f2 = Found-Skips (omega arith) skips f in
            inl (
              a,
              form
                  ∙ hand_out-some (pages size) a s e (omega (arith, f.fits))
                      (omega (arith, f.fits)),
              f2,
            )
        | inr (e, full) ↦
            inr (form ∙ hand_out-none (pages size) s e, NoRoom-Skips _ _ _ _ _ skips full)
      ]
