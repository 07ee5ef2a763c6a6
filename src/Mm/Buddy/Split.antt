-- ===== src/Mm/Buddy/Split.antt =====
-- The split loop of alloc_pages of lab6/OrangePiVer/Src/mm.c: it keeps the first part of the block,
-- and the rest goes on the free lists.
use nycu_osc_lab.Prelude.{
  ℕ, zero, suc, ◌+◌, ◌^◌, ◌≤◌, ◌<◌, ◌≡◌, ◌≢◌, refl, ap, ◌↔◌, ◌⊎◌, inl, inr, Bool, true, false,
  arith,
}
use native.Mathlib.Decide.{dec_lt}
use nycu_osc_lab.Mm.State.{Mm, PagePtr, frame_array}
use nycu_osc_lab.Mm.PageList.{add_free_block}
use nycu_osc_lab.Mm.Buddy.{split_loop}
use nycu_osc_lab.Mm.Buddy.Align.{pow-le-pow_add, pow-add_suc}
use nycu_osc_lab.Mm.Buddy.Wf.{head, halved, split_block-halved, Wf, half_fresh, halved-Wf}
use nycu_osc_lab.Mm.Buddy.Frames.{SameRange, Sound, sound, FreeFrame, In, Parts, halved-Parts}

-- What the split loop has done to the block at `i`: of its `2 ^ (o + d)` frames it keeps the first
-- `2 ^ o`, and the others are free.
pub record Split (m m' : Mm) (used : ℕ → Bool) (i o d : ℕ) : Type 0 where
  pub valid : Sound m' used
  pub order_is : m'.order (frame_array i) ≡ o
  pub frames :
      (k : ℕ) → FreeFrame m' k ↔ (FreeFrame m k ⊎ ((i + 2 ^ o ≤ k) × (k < i + 2 ^ (o + d))))
  pub others : (j : ℕ) → used j ≡ true → j ≢ i → m'.order (frame_array j) ≡ m.order (frame_array j)
  pub range : SameRange m m'

module _ {m m' m'' : Mm} {used : ℕ → Bool} (i o d : ℕ)
    (first : Parts m' m (i + 2 ^ (o + d)) (2 ^ (o + d))) (rest : Split m' m'' used i o d) where
  Split-frames :
      (k : ℕ) → FreeFrame m'' k ↔ (FreeFrame m k ⊎ ((i + 2 ^ o ≤ k) × (k < i + 2 ^ (o + suc d))))
  Split-frames k = (λ f. from_rest ((rest.frames k).0 f), λ s. (rest.frames k).1 (to_rest s))
    where
      from_first :
          FreeFrame m k ⊎ In (i + 2 ^ (o + d)) (2 ^ (o + d)) k
          → FreeFrame m k ⊎ ((i + 2 ^ o ≤ k) × (k < i + 2 ^ (o + suc d)))
      from_first (inl f) = inl f
      from_first (inr r) = inr (omega (arith, pow-le-pow_add o d), omega (arith, pow-add_suc o d))

      from_rest :
          FreeFrame m' k ⊎ ((i + 2 ^ o ≤ k) × (k < i + 2 ^ (o + d)))
          → FreeFrame m k ⊎ ((i + 2 ^ o ≤ k) × (k < i + 2 ^ (o + suc d)))
      from_rest (inl f) = from_first ((first k).0 f)
      from_rest (inr r) = inr (r.0, omega (arith, pow-add_suc o d))

      to_rest :
          FreeFrame m k ⊎ ((i + 2 ^ o ≤ k) × (k < i + 2 ^ (o + suc d)))
          → FreeFrame m' k ⊎ ((i + 2 ^ o ≤ k) × (k < i + 2 ^ (o + d)))
      to_rest (inl f) = inl ((first k).1 (inl f))
      to_rest (inr r) = elim (dec_lt k (i + 2 ^ (o + d))) [
        | yes lt ↦ inr (r.0, lt)
        | no ge ↦ inl ((first k).1 (inr (omega arith, omega (arith, pow-add_suc o d))))
      ]

-- One round of the split, and the rounds that follow it.
module _ {m m'' : Mm} {used : ℕ → Bool} {age : PagePtr → ℕ} {clock : ℕ} (i o d : ℕ)
    (w : Wf m used age clock) (on : used i ≡ true) (e : m.order (frame_array i) ≡ suc (o + d))
    (rest : Split (halved i (o + d) m) m'' used i o d) where
  Split-halved : Split m m'' used i o (suc d)
  unfolding halved add_free_block
  Split-halved = record {
    valid = rest.valid;
    order_is = rest.order_is;
    frames =
        Split-frames i o d
          (halved-Parts m i (o + d) (ground (arith, w.free_only i)) (ground (arith, fresh))) rest;
    others = λ j h ne. ground (arith, rest.others j, fresh);
    range = rest.range;
  }
    where
      fresh : head m used (i + 2 ^ (o + d)) ≡ false
      fresh = half_fresh w i (o + d) on e

halved-order_self : (i c : ℕ) (m : Mm) → (halved i c m).order (frame_array i) ≡ c
unfolding halved add_free_block
halved-order_self i c m = ground arith

pub split_loop-Split :
    (d o i : ℕ) (m : Mm) (used : ℕ → Bool)
    → Sound m used
    → used i ≡ true
    → m.order (frame_array i) ≡ o + d
    → Split m (split_loop d (frame_array i) o m) used i o d
unfolding split_loop
split_loop-Split zero o i m used w on e = record {
  valid = w;
  order_is = omega (arith, e);
  frames = λ k. (inl, λ s. elim s [ inl f ↦ f | inr r ↦ absurd (empty k r) ]);
  others = λ j h ne. refl;
  range = (refl, refl, refl, refl, refl);
}
  where
    empty : (k : ℕ) → (i + 2 ^ o ≤ k) × (k < i + 2 ^ (o + 0)) → ⊥
    empty k r = let e' : 2 ^ (o + 0) ≡ 2 ^ o = ap (λ t. 2 ^ t) (omega arith) in omega (arith, e')
split_loop-Split (suc d) o i m used (sound w) on e =
    let e' : m.order (frame_array i) ≡ suc (o + d) = omega (arith, e) in
    rw (split_block-halved i (o + d) m) (
      Split-halved i o d w on e' (
        split_loop-Split d o i (halved i (o + d) m) used (sound (halved-Wf w i (o + d) on e')) on
          (halved-order_self i (o + d) m)))
