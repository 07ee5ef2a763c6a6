-- ===== src/Mm/Init/Build.antt =====
-- The loop of mm_init of lab6/OrangePiVer/Src/mm.c that puts all frames on the free lists.
use native.Mathlib.Decide.{dec_lt}
use nycu_osc_lab.Prelude.{
  ℕ, zero, suc, ◌+◌, ◌%◌, ◌^◌, ◌≤◌, ◌<◌, ◌≡◌, ◌≢◌, refl, ◌∙◌, inl, inr, true, false, ◌&&◌, leb, ltb,
  ◌==◌, update, some, arith, Bool-cases,
}
use nycu_osc_lab.Mm.State.{Mm, PagePtr, frame_array, max_order}
use nycu_osc_lab.Mm.PageList.{add_free_block}
use nycu_osc_lab.Mm.PageList.Links.{add_free_block-Links}
use nycu_osc_lab.Mm.Buddy.Align.{pow_pos}
use nycu_osc_lab.Mm.Buddy.Wf.{Wf, listed, size}
use nycu_osc_lab.Mm.Buddy.Frames.{Sound, sound, FreeFrame, free_frame, SameRange}
use nycu_osc_lab.Mm.Init.{select_order, build_loop}

-- The frames below `idx` are in free blocks, and nothing else is.
pub record Built (m : Mm) (idx : ℕ) : Type 0 where
  pub age : PagePtr → ℕ
  pub clock : ℕ
  pub valid : Wf m (λ i. false) age clock
  pub below : (j : ℕ) → listed m j ≡ true → j + size m j ≤ idx
  pub all_free : (k : ℕ) → k < idx → FreeFrame m k

module _ (m : Mm) (idx o : ℕ) (b : Built m idx) (al : idx % 2 ^ o ≡ 0) (small : o ≤ 12)
    (inside : idx + 2 ^ o ≤ m.frame_count) where
  unlisted : listed m idx ≡ false
  unlisted = ground (arith, b.below idx, pow_pos (m.order (frame_array idx)))

  add-Wf :
      Wf
        (add_free_block idx o m)
        (λ i. false)
        (update b.age (frame_array idx) b.clock)
        (b.clock + 1)
  unfolding add_free_block
  add-Wf = record {
    links = add_free_block-Links idx o b.valid.links (ground (arith, unlisted)) small;
    block = λ j h. ground (arith, b.valid.block j, al, small, inside);
    apart = λ j k hj hk lt. ground (
      arith,
      b.valid.apart j k,
      b.below j,
      b.below k,
      pow_pos o,
      pow_pos (m.order (frame_array k)),
    );
    free_only = λ j h. ground (arith, b.valid.free_only j);
    flags = λ p. ground (arith, b.valid.flags p);
  }

  add_old : (k : ℕ) → FreeFrame m k → FreeFrame (add_free_block idx o m) k
  unfolding add_free_block
  add_old k (free_frame j h lo hi) =
      let ne : j ≢ idx = λ e. ground (arith, unlisted, h, e) in
      free_frame j (ground (arith, h, ne)) lo (ground (arith, hi, ne))

  add_new : (k : ℕ) → idx ≤ k → k < idx + 2 ^ o → FreeFrame (add_free_block idx o m) k
  unfolding add_free_block
  add_new k lo hi = free_frame idx (ground arith) lo (ground (arith, hi))

  add-Built : Built (add_free_block idx o m) (idx + 2 ^ o)
  unfolding add_free_block
  add-Built = record {
    age = update b.age (frame_array idx) b.clock;
    clock = b.clock + 1;
    valid = add-Wf;
    below = λ j h. ground (arith, b.below j);
    all_free = λ k h. elim (dec_lt k idx) [
      | yes lt ↦ add_old k (b.all_free k lt)
      | no ge ↦ add_new k (omega arith) h
    ];
  }

-- The order that the loop selects: the block is aligned and inside.
record Fits (o idx n : ℕ) : Type 0 where
  pub aligned : idx % 2 ^ o ≡ 0
  pub inside : idx + 2 ^ o ≤ n

select_order-Fits :
    (order idx n : ℕ)
    → idx < n
    → Fits (select_order order idx n) idx n × (select_order order idx n ≤ order)
unfolding select_order
select_order-Fits zero idx n lt =
    (record { aligned = omega arith; inside = omega arith }, omega arith)
select_order-Fits (suc order) idx n lt =
    let (fits, le) = select_order-Fits order idx n lt in
    elim (Bool-cases ((idx % 2 ^ suc order == 0) && leb (idx + 2 ^ suc order) n)) [
      | inl on ↦
          rw on (record { aligned = ground (arith, on); inside = ground (arith, on) }, omega arith)
      | inr off ↦ rw off (fits, omega arith)
    ]

-- What the loop leaves: all frames are free and none is given out.
pub record AllFree (m m' : Mm) : Type 0 where
  pub valid : Sound m' (λ i. false)
  pub free : (k : ℕ) → k < m.frame_count → FreeFrame m' k
  pub range : SameRange m m'

AllFree-add : {m m' : Mm} (idx o : ℕ) → AllFree (add_free_block idx o m) m' → AllFree m m'
unfolding add_free_block
AllFree-add idx o r = record { valid = r.valid; free = r.free; range = r.range }

count_kept : (idx o : ℕ) (m : Mm) → (add_free_block idx o m).frame_count ≡ m.frame_count
unfolding add_free_block
count_kept idx o m = refl

loop_ends :
    (fuel idx : ℕ) (m : Mm) → ltb idx m.frame_count ≡ false → build_loop (suc fuel) idx m ≡ some m
unfolding build_loop
loop_ends fuel idx m off = rw off refl

loop_goes :
    (fuel idx : ℕ) (m : Mm)
    → ltb idx m.frame_count ≡ true
    → build_loop (suc fuel) idx m
      ≡ build_loop fuel
          (idx + 2 ^ select_order max_order idx m.frame_count)
          (add_free_block idx (select_order max_order idx m.frame_count) m)
unfolding build_loop
loop_goes fuel idx m on = rw on refl

pub build_loop-AllFree :
    (fuel idx : ℕ) (m : Mm)
    → m.frame_count < idx + fuel
    → idx ≤ m.frame_count
    → Built m idx
    → (m' : Mm) × (build_loop fuel idx m ≡ some m') × AllFree m m'
build_loop-AllFree zero idx m enough le b = absurd (omega arith)
build_loop-AllFree (suc fuel) idx m enough le b = elim (Bool-cases (ltb idx m.frame_count)) [
  | inr off ↦
      let whole : m.frame_count ≤ idx = ground (arith, off) in
      (
        m,
        loop_ends fuel idx m off,
        record {
          valid = sound b.valid;
          free = λ k h. b.all_free k (omega arith);
          range = (refl, refl, refl, refl, refl);
        },
      )
  | inl on ↦
      let o = select_order max_order idx m.frame_count in
      let (fits, small) = select_order-Fits max_order idx m.frame_count (ground (arith, on)) in
      let (m', e, r) =
        build_loop-AllFree fuel (idx + 2 ^ o) (add_free_block idx o m)
          (omega (arith, count_kept idx o m, pow_pos o))
          (omega (arith, count_kept idx o m, fits.inside))
          (add-Built m idx o b fits.aligned small fits.inside) in
      (m', loop_goes fuel idx m on ∙ e, AllFree-add idx o r)
]
