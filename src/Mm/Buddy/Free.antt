-- ===== src/Mm/Buddy/Free.antt =====
-- free_pages of lab6/OrangePiVer/Src/mm.c: the block goes back, joined with its free buddies.
use Prim.Native.Nat.{bit_xor}
use mathlib.Core.Path.{subst}
use nycu_osc_lab.Prelude.{
  ℕ, zero, suc, ◌+◌, ◌-◌, ◌*◌, ◌%◌, ◌^◌, ◌≤◌, ◌<◌, ◌≡◌, ◌≢◌, refl, ap, ◌↔◌, ◌⊎◌, inl, inr, Bool,
  true, false, ◌==◌, leb, update, arith, Bool-cases,
}
use nycu_osc_lab.Mm.State.{
  Mm, PagePtr, frame_array, kernel_ptr_to_phys, addr_in_managed_range, addr_to_frame_index,
}
use nycu_osc_lab.Mm.PageList.{add_free_block}
use nycu_osc_lab.Mm.Buddy.{cannot_merge, merge_loop, release_block, free_pages}
use nycu_osc_lab.Mm.Buddy.Align.{pow_pos, right, left, buddy_at}
use nycu_osc_lab.Mm.Buddy.Wf.{listed, size, Wf, Retags, put-Wf, Retags-Wf}
use nycu_osc_lab.Mm.Buddy.Frames.{
  SameRange, Sound, sound, FreeFrame, In, Parts, put-Parts, Retags-Parts,
}
use nycu_osc_lab.Mm.Buddy.Alloc.{Placed, frame_va}
use nycu_osc_lab.Mm.Buddy.Merge.{
  Sound-congr, grown-Sound, lower, lower_sides, merge_block-grown, Stops, largest, beyond, busy,
  Merged, stay, Merged-grown, cannot_merge_busy, can_merge, grown-out, grown-order,
}

merge_loop-Merged :
    (rounds i o : ℕ) {m : Mm} (base : ℕ → Bool)
    → Sound m (update base i true)
    → base i ≡ false
    → m.order (frame_array i) ≡ o
    → o + rounds ≡ 12
    → Merged m base i o (merge_loop rounds i o m)
unfolding merge_loop
merge_loop-Merged zero i o base w out e fuel = stay w out e (largest (omega arith))
merge_loop-Merged (suc rounds) i o {m} base (sound w) out e fuel =
    elim (Bool-cases (leb m.frame_count b)) [
      | inl out_of_range ↦ rw out_of_range (stay (sound w) out e (beyond (ground arith)))
      | inr in_range ↦ elim (Bool-cases (cannot_merge (frame_array b) o m)) [
        | inl stop ↦
            rw (in_range, stop) (stay (sound w) out e (busy (cannot_merge_busy w b o stop)))
        | inr go ↦
            let (al, sides) = lower_sides i o (ground (arith, w.block i)) in
            let (on, e') = can_merge w b o go in
            let more : o + 1 ≡ suc o = omega arith in
            let joins = grown-Sound base i b (lower i b) o w out e (omega arith) on e' al sides in
            rw (in_range, go, merge_block-grown i o m, more)
              (Merged-grown base i b (lower i b) o w out e (omega arith) on e' al sides (
                merge_loop-Merged rounds (lower i b) (suc o) base joins
                  (grown-out base i b (lower i b) o w out e (omega arith) on e' al sides)
                  (grown-order base i b (lower i b) o w out e (omega arith) on e' al sides)
                  (omega arith)))
      ]
    ]
  where
    b : ℕ
    b = bit_xor i (2 ^ o)

-- Frame `i` lies in a free block whose buddy is no free block of the same order.
pub record Coalesced (m : Mm) (i : ℕ) : Type 0 where
  pub block : ℕ
  pub on_list : listed m block ≡ true
  pub covers : In block (size m block) i
  pub unmerged :
      let o = m.order (frame_array block) in
      o < 12
      → bit_xor block (2 ^ o) < m.frame_count
      → listed m (bit_xor block (2 ^ o)) ≡ true
      → m.order (frame_array (bit_xor block (2 ^ o))) ≢ o

-- What free_pages does with the block at frame `i`: its frames are free again, as part of a block
-- that cannot be joined further, no other frame changes hands, and no other block that is given out
-- changes its order.
pub record Freed (m m' : Mm) (used : ℕ → Bool) (i : ℕ) : Type 0 where
  pub valid : Sound m' (update used i false)
  pub frames : Parts m' m i (size m i)
  pub coalesced : Coalesced m' i
  pub others : (j : ℕ) → j ≢ i → used j ≡ true → m'.order (frame_array j) ≡ m.order (frame_array j)
  pub range : SameRange m m'

-- The block that the merge loop leaves goes on its list.
module _ {m m2 : Mm} {base : ℕ → Bool} {age : PagePtr → ℕ} {clock : ℕ} (i o j o' : ℕ)
    (merged : Merged m base i o (j, o', m2)) (w : Wf m2 (update base j true) age clock) where
  abbrev final : Mm
  final = add_free_block j (m2.order (frame_array j)) m2

  final-Sound : Sound final base
  final-Sound = Sound-congr (λ k. ground (arith, merged.out)) (sound (put-Wf w j (ground arith)))

  unlisted : listed m2 j ≡ false
  unlisted = ground (arith, w.free_only j)

  final-frames : (k : ℕ) → FreeFrame final k ↔ (FreeFrame m k ⊎ In i (2 ^ o) k)
  final-frames k = (
    λ f. (merged.frames k).1 (resize ((put-Parts m2 j unlisted k).0 f)),
    λ f. (put-Parts m2 j unlisted k).1 (size_back ((merged.frames k).0 f)),
  )
    where
      whole : size m2 j ≡ 2 ^ o'
      whole = ap (λ t. 2 ^ t) merged.order_is

      resize : FreeFrame m2 k ⊎ In j (size m2 j) k → FreeFrame m2 k ⊎ In j (2 ^ o') k
      resize (inl f) = inl f
      resize (inr r) = inr (omega (arith, whole))

      size_back : FreeFrame m2 k ⊎ In j (2 ^ o') k → FreeFrame m2 k ⊎ In j (size m2 j) k
      size_back (inl f) = inl f
      size_back (inr r) = inr (omega (arith, whole))

  final-order : final.order (frame_array j) ≡ o'
  unfolding add_free_block
  final-order = ground (arith, merged.order_is)

  unmerged_at :
      Stops m2 j o'
      → o' < 12
      → bit_xor j (2 ^ o') < final.frame_count
      → listed final (bit_xor j (2 ^ o')) ≡ true
      → final.order (frame_array (bit_xor j (2 ^ o'))) ≢ o'
  unfolding add_free_block
  unmerged_at (largest h) lt inside on = absurd (omega arith)
  unmerged_at (beyond h) lt inside on = absurd (omega arith)
  unmerged_at (busy h) lt inside on =
      elim (buddy_at j o' (ground (arith, w.block j, merged.order_is))) [
        | right x a ↦ ground (arith, pow_pos o', h)
        | left x a ↦ ground (arith, pow_pos o', h)
      ]

  final-Coalesced : j ≤ i → i < j + 2 ^ o' → Coalesced final i
  unfolding add_free_block
  final-Coalesced lo hi = record {
    block = j;
    on_list = ground arith;
    covers = (lo, ground (arith, final-order));
    unmerged = rw final-order (unmerged_at merged.stops);
  }

  final-Freed :
      (j ≤ i) × (i < j + 2 ^ o')
      → ((k : ℕ) → base k ≡ true → final.order (frame_array k) ≡ m.order (frame_array k))
        × SameRange m final
  unfolding add_free_block
  final-Freed h = (λ k on. ground (arith, merged.others k, merged.out), merged.range)

-- The metadata that free_pages writes before the merge.
abbrev unmarked : ℕ → Mm → Mm
unmarked idx m = record m {
  state = update m.state (frame_array idx) 0;
  chunk_size = update m.chunk_size (frame_array idx) 0;
  chunk_pool = update m.chunk_pool (frame_array idx) 4294967295;
}

unmarked-Retags : (m : Mm) (i : ℕ) → Retags i m (unmarked i m)
unmarked-Retags m i = record {
  next = λ p. refl;
  prev = λ p. refl;
  listed = λ p. refl;
  order = λ p ne. refl;
  state = λ p ne. ground arith;
  frame_count = refl;
}

-- From the merge loop's result to free_pages' own.
module _ {m : Mm} {used : ℕ → Bool} {age : PagePtr → ℕ} {clock : ℕ} (i : ℕ)
    (w : Wf m used age clock) (on : used i ≡ true) where
  unmarked-Sound : Sound (unmarked i m) (update (update used i false) i true)
  unmarked-Sound =
      Sound-congr (λ j. ground arith) (sound (Retags-Wf w i on (unmarked-Retags m i) refl))

  abbrev Merges : ℕ × ℕ × Mm → Type 0
  Merges r = Merged (unmarked i m) (update used i false) i (m.order (frame_array i)) r

  Freed-Merged :
      (r : ℕ × ℕ × Mm)
      → Merges r
      → Sound r.2 (update (update used i false) r.0 true)
      → Freed m (add_free_block r.0 (r.2.order (frame_array r.0)) r.2) used i
  Freed-Merged r merged (sound v) = record {
    valid = final-Sound i o r.0 r.1 merged v;
    frames = λ k. (
      λ f. to_m k ((final-frames i o r.0 r.1 merged v k).0 f),
      λ f. (final-frames i o r.0 r.1 merged v k).1 (from_m k f),
    );
    coalesced = final-Coalesced i o r.0 r.1 merged v inside.0 inside.1;
    others = λ j ne h. rest.0 j (ground arith);
    range = rest.1;
  }
    where
      o : ℕ
      o = m.order (frame_array i)

      inside : (r.0 ≤ i) × (i < r.0 + 2 ^ r.1)
      inside = merged.covers i (omega arith, omega (arith, pow_pos o))

      rest :
          ((k : ℕ)
            → update used i false k ≡ true
            → (final i o r.0 r.1 merged v).order (frame_array k)
              ≡ (unmarked i m).order (frame_array k))
          × SameRange (unmarked i m) (final i o r.0 r.1 merged v)
      rest = final-Freed i o r.0 r.1 merged v inside

      same : (k : ℕ) → FreeFrame m k ↔ FreeFrame (unmarked i m) k
      same = Retags-Parts i (ground (arith, w.free_only i)) (unmarked-Retags m i)

      to_m : (k : ℕ) → FreeFrame (unmarked i m) k ⊎ In i (2 ^ o) k → FreeFrame m k ⊎ In i (2 ^ o) k
      to_m k (inl f) = inl ((same k).1 f)
      to_m k (inr h) = inr h

      from_m :
          (k : ℕ) → FreeFrame m k ⊎ In i (2 ^ o) k → FreeFrame (unmarked i m) k ⊎ In i (2 ^ o) k
      from_m k (inl f) = inl ((same k).0 f)
      from_m k (inr h) = inr h

  release_block-Freed : Freed m (release_block i m) used i
  unfolding release_block
  release_block-Freed =
      subst (λ t. Freed m (add_free_block r.0 t r.2) used i) merged.order_is
        (Freed-Merged r merged merged.valid)
    where
      r : ℕ × ℕ × Mm
      r = merge_loop (12 - m.order (frame_array i)) i (m.order (frame_array i)) (unmarked i m)

      merged : Merges r
      merged =
          merge_loop-Merged (12 - m.order (frame_array i)) i (m.order (frame_array i))
            (update used i false) unmarked-Sound (ground arith) refl (ground (arith, w.block i))

-- The way back from a block's address to its frame.
module _ {m : Mm} (i : ℕ) (p : Placed m) (inside : i < m.frame_count) where
  pub phys_of_frame : kernel_ptr_to_phys (frame_va m i) ≡ m.managed_base + i * 4096
  unfolding kernel_ptr_to_phys
  phys_of_frame = ground (arith, p.mapped, p.size_is)

  pub in_managed_range : addr_in_managed_range m (m.managed_base + i * 4096) ≡ true
  unfolding addr_in_managed_range
  in_managed_range = ground (arith, p.mapped, p.size_is)

  pub index_of_frame : addr_to_frame_index m (m.managed_base + i * 4096) ≡ i
  unfolding addr_to_frame_index
  index_of_frame = omega (arith, p.mapped, p.size_is)

  pub free_pages-release_block : free_pages (frame_va m i) m ≡ release_block i m
  unfolding free_pages
  free_pages-release_block =
      let aligned : ((m.managed_base + i * 4096) % 4096 == 0) ≡ true =
        ground (arith, p.base_aligned) in
      let nonnull : (frame_va m i == 0) ≡ false = ground arith in
      rw (nonnull, phys_of_frame, in_managed_range, aligned, index_of_frame)

-- On a well-formed allocator, free_pages of the address of a block that was given out gives its
-- frames back and joins buddies as far as it can (`Freed`).
pub free_pages-Freed :
    (i : ℕ) {m : Mm} {used : ℕ → Bool}
    → Sound m used
    → Placed m
    → used i ≡ true
    → Freed m (free_pages (frame_va m i) m) used i
free_pages-Freed i {m} (sound w) p on =
    rw (free_pages-release_block i p (ground (arith, w.block i, pow_pos (m.order (frame_array i)))))
      (release_block-Freed i w on)
