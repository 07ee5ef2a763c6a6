-- ===== src/Mm/Buddy/Merge.antt =====
-- The merge loop of free_pages of lab6/OrangePiVer/Src/mm.c.
use Prim.Native.Nat.{bit_xor}
use mathlib.Core.Path.{subst, fun_ext}
use native.Mathlib.Decide.{dec_le, dec_lt}
use nycu_osc_lab.Prelude.{
  ℕ, suc, ◌+◌, ◌%◌, ◌^◌, ◌≤◌, ◌<◌, ◌≡◌, ◌≢◌, refl, ap, ◌↔◌, ◌⊎◌, inl, inr, Bool, true, false,
  update, arith, ltb, if◌then◌else◌,
}
use nycu_osc_lab.Mm.State.{Mm, PagePtr, frame_array, frame_free}
use nycu_osc_lab.Mm.PageList.{remove_free_block}
use nycu_osc_lab.Mm.Buddy.{cannot_merge, merge_block}
use nycu_osc_lab.Mm.Buddy.Align.{pow_pos, pow-suc_two, right, left, buddy_at}
use nycu_osc_lab.Mm.Buddy.Wf.{listed, size, Wf, Retags, take-Wf, join-Wf}
use nycu_osc_lab.Mm.Buddy.Frames.{SameRange, Sound, sound, FreeFrame, In, take-Parts, Retags-Parts}

pub Sound-congr :
    {m : Mm} {used used' : ℕ → Bool} → ((i : ℕ) → used i ≡ used' i) → Sound m used → Sound m used'
Sound-congr {m} e = subst (Sound m) (fun_ext e)

-- What a block joined from the halves at `lo` and `lo + 2 ^ o` looks like.
pub grown : ℕ → ℕ → ℕ → Mm → Mm
grown lo b o m =
    let m1 = remove_free_block (frame_array b) m in
    record m1 {
      order = update m1.order (frame_array lo) (o + 1);
      state = update m1.state (frame_array lo) frame_free;
    }

-- The step at a free buddy `b` of the block `i`, `lo` the lower of the two and `hi` the upper.
module _ {m : Mm} {age : PagePtr → ℕ} {clock : ℕ} (base : ℕ → Bool) (i b lo o : ℕ)
    (w : Wf m (update base i true) age clock) (out : base i ≡ false)
    (e : m.order (frame_array i) ≡ o) (small : o < 12) (on : listed m b ≡ true)
    (e' : m.order (frame_array b) ≡ o) (al : lo % 2 ^ suc o ≡ 0)
    (sides : ((lo ≡ i) × (b ≡ i + 2 ^ o)) ⊎ ((lo ≡ b) × (i ≡ b + 2 ^ o))) where
  base_out : base b ≡ false
  base_out = ground (arith, w.free_only b, out)

  pub grown-out : base lo ≡ false
  grown-out = ground (arith, base_out, out)

  pub grown-order : (grown lo b o m).order (frame_array lo) ≡ suc o
  unfolding grown
  grown-order = ground arith

  grown-Retags : Retags lo (remove_free_block (frame_array b) m) (grown lo b o m)
  unfolding grown
  grown-Retags = record {
    next = λ p. refl;
    prev = λ p. refl;
    listed = λ p. refl;
    order = λ p ne. ground arith;
    state = λ p ne. ground arith;
    frame_count = refl;
  }

  pub grown-Sound : Sound (grown lo b o m) (update base lo true)
  unfolding grown remove_free_block
  grown-Sound =
      Sound-congr (λ j. ground (arith, base_out, pow_pos o))
        (sound (
          join-Wf (take-Wf w b on) lo (ground arith) grown-Retags o (ground arith) (ground arith)
            (ground arith) small al (ground arith)))

  grown-unlisted : listed (remove_free_block (frame_array b) m) lo ≡ false
  unfolding remove_free_block
  grown-unlisted = ground (arith, w.free_only i, pow_pos o)

  grown-frames :
      (k : ℕ)
      → (FreeFrame m k ⊎ In i (2 ^ o) k) ↔ (FreeFrame (grown lo b o m) k ⊎ In lo (2 ^ suc o) k)
  grown-frames k = (there, back)
    where
      marks : FreeFrame (remove_free_block (frame_array b) m) k ↔ FreeFrame (grown lo b o m) k
      marks = Retags-Parts lo grown-unlisted grown-Retags k

      half : size m b ≡ 2 ^ o
      half = ap (λ t. 2 ^ t) e'

      from_taken :
          FreeFrame (remove_free_block (frame_array b) m) k ⊎ In b (size m b) k
          → FreeFrame (grown lo b o m) k ⊎ In lo (2 ^ suc o) k
      from_taken (inl f) = inl (marks.0 f)
      from_taken (inr r) = inr (omega (arith, half, pow-suc_two o))

      there : FreeFrame m k ⊎ In i (2 ^ o) k → FreeFrame (grown lo b o m) k ⊎ In lo (2 ^ suc o) k
      there (inl f) = from_taken ((take-Parts m b on k).0 f)
      there (inr r) = inr (omega (arith, pow-suc_two o))

      back : FreeFrame (grown lo b o m) k ⊎ In lo (2 ^ suc o) k → FreeFrame m k ⊎ In i (2 ^ o) k
      back (inl f) = inl ((take-Parts m b on k).1 (inl (marks.1 f)))
      back (inr r) = elim (dec_le i k) [
        | yes le ↦ elim (dec_lt k (i + 2 ^ o)) [
          | yes lt ↦ inr (le, lt)
          | no ge ↦ inl ((take-Parts m b on k).1 (inr (omega (arith, half, pow-suc_two o))))
        ]
        | no gt ↦ inl ((take-Parts m b on k).1 (inr (omega (arith, half, pow-suc_two o))))
      ]

-- Why the merge stops at a block of order `o` at `i`: there is no larger order, the buddy is
-- beyond the last frame, or it is no free block of the same order.
pub data Stops (m : Mm) (i o : ℕ) : Type 0 where
  largest : 12 ≤ o → Stops m i o
  beyond : m.frame_count ≤ bit_xor i (2 ^ o) → Stops m i o
  busy :
      (listed m (bit_xor i (2 ^ o)) ≡ true → m.order (frame_array (bit_xor i (2 ^ o))) ≢ o)
      → Stops m i o

-- What the merge loop does to the block of order `o` at `i`, `base` being the other blocks that
-- are given out: the free frames together with the block's frames stay the same set.
pub record Merged (m : Mm) (base : ℕ → Bool) (i o : ℕ) (r : ℕ × ℕ × Mm) : Type 0 where
  pub valid : Sound r.2 (update base r.0 true)
  pub out : base r.0 ≡ false
  pub order_is : r.2.order (frame_array r.0) ≡ r.1
  pub frames : (k : ℕ) → (FreeFrame m k ⊎ In i (2 ^ o) k) ↔ (FreeFrame r.2 k ⊎ In r.0 (2 ^ r.1) k)
  pub covers : (k : ℕ) → In i (2 ^ o) k → In r.0 (2 ^ r.1) k
  pub others : (j : ℕ) → base j ≡ true → r.2.order (frame_array j) ≡ m.order (frame_array j)
  pub stops : Stops r.2 r.0 r.1
  pub range : SameRange m r.2

pub stay :
    {m : Mm} {base : ℕ → Bool} {i o : ℕ}
    → Sound m (update base i true)
    → base i ≡ false
    → m.order (frame_array i) ≡ o
    → Stops m i o
    → Merged m base i o (i, o, m)
stay w out e s = record {
  valid = w;
  out = out;
  order_is = e;
  frames = λ k. (λ f. f, λ f. f);
  covers = λ k h. h;
  others = λ j h. refl;
  stops = s;
  range = (refl, refl, refl, refl, refl);
}

-- The test of the merge, for a buddy `b`.
module _ {m : Mm} {used : ℕ → Bool} {age : PagePtr → ℕ} {clock : ℕ} (w : Wf m used age clock)
    (b o : ℕ) where
  pub cannot_merge_busy :
      cannot_merge (frame_array b) o m ≡ true → listed m b ≡ true → m.order (frame_array b) ≢ o
  unfolding cannot_merge
  cannot_merge_busy h on = ground (arith, w.free_only b)

  pub can_merge :
      cannot_merge (frame_array b) o m ≡ false → (listed m b ≡ true) × (m.order (frame_array b) ≡ o)
  unfolding cannot_merge
  can_merge h = ground (arith, w.flags (frame_array b))

-- The rounds after the join with the buddy `b`.
module _ {m : Mm} {age : PagePtr → ℕ} {clock : ℕ} (base : ℕ → Bool) (i b lo o : ℕ) {r : ℕ × ℕ × Mm}
    (w : Wf m (update base i true) age clock) (out : base i ≡ false)
    (e : m.order (frame_array i) ≡ o) (small : o < 12) (on : listed m b ≡ true)
    (e' : m.order (frame_array b) ≡ o) (al : lo % 2 ^ suc o ≡ 0)
    (sides : ((lo ≡ i) × (b ≡ i + 2 ^ o)) ⊎ ((lo ≡ b) × (i ≡ b + 2 ^ o)))
    (rest : Merged (grown lo b o m) base lo (suc o) r) where
  pub Merged-grown : Merged m base i o r
  unfolding grown remove_free_block
  Merged-grown = record {
    valid = rest.valid;
    out = rest.out;
    order_is = rest.order_is;
    frames = λ k.
        let first = grown-frames base i b lo o w out e small on e' al sides k in
        (λ f. (rest.frames k).0 (first.0 f), λ f. first.1 ((rest.frames k).1 f));
    covers = λ k h. rest.covers k (omega (arith, pow-suc_two o));
    others = λ j h.
        ground (arith, rest.others j, base_out base i b lo o w out e small on e' al sides, out);
    stops = rest.stops;
    range = rest.range;
  }

pub lower : ℕ → ℕ → ℕ
lower i b = if ltb b i then b else i

pub merge_block-grown :
    (i o : ℕ) (m : Mm)
    → merge_block i o m
      ≡ (lower i (bit_xor i (2 ^ o)), grown (lower i (bit_xor i (2 ^ o))) (bit_xor i (2 ^ o)) o m)
unfolding merge_block grown lower
merge_block-grown i o m = refl

-- The lower half is aligned for the joined block.
pub lower_sides :
    (i o : ℕ)
    → i % 2 ^ o ≡ 0
    → let b = bit_xor i (2 ^ o) in
      (lower i b % 2 ^ suc o ≡ 0)
      × (((lower i b ≡ i) × (b ≡ i + 2 ^ o)) ⊎ ((lower i b ≡ b) × (i ≡ b + 2 ^ o)))
unfolding lower
lower_sides i o al = elim (buddy_at i o al) [
  | right x a ↦ ground (arith, pow_pos o)
  | left x a ↦ ground (arith, pow_pos o)
]
