-- ===== src/Mm/Buddy/Frames.antt =====
-- The free frames of the buddy system of lab6/OrangePiVer/Src/mm.c, and what taking, splitting,
-- joining and putting back a block does to them.
use nycu_osc_lab.Prelude.{ℕ, ◌+◌, ◌^◌, ◌≤◌, ◌<◌, ◌≡◌, ◌↔◌, ◌⊎◌, inl, inr, Bool, true, false, arith}
use native.Mathlib.Decide.{ℕ_discrete}
use nycu_osc_lab.Mm.State.{Mm, PagePtr, frame_array}
use nycu_osc_lab.Mm.PageList.{add_free_block, remove_free_block}
use nycu_osc_lab.Mm.Buddy.Align.{pow_pos}
use nycu_osc_lab.Mm.Buddy.Wf.{listed, size, halved, Wf, Retags}

-- What no operation on blocks writes: the managed range, the chunk lists and the memory itself.
abbrev pub SameRange : Mm → Mm → Type 0
SameRange m m' =
    (m'.frame_count ≡ m.frame_count)
    × (m'.managed_base ≡ m.managed_base)
    × (m'.managed_size ≡ m.managed_size)
    × (m'.chunk_free_list ≡ m.chunk_free_list)
    × (m'.memory ≡ m.memory)

-- The invariant, whatever the ages of the pages are.
pub data Sound (m : Mm) (used : ℕ → Bool) : Type 0 where
  sound : {age : PagePtr → ℕ} {clock : ℕ} → Wf m used age clock → Sound m used

-- Frame `k` lies in a block that is on a free list.
pub data FreeFrame (m : Mm) (k : ℕ) : Type 0 where
  free_frame : (i : ℕ) → listed m i ≡ true → i ≤ k → k < i + size m i → FreeFrame m k

-- Frame `k` lies in the `n` frames from `i` on.
abbrev pub In : ℕ → ℕ → ℕ → Type 0
In i n k = (i ≤ k) × (k < i + n)

-- The free frames of `m` are those of `m'` and the `n` frames from `i` on.
abbrev pub Parts : Mm → Mm → ℕ → ℕ → Type 0
Parts m m' i n = (k : ℕ) → FreeFrame m k ↔ (FreeFrame m' k ⊎ In i n k)

pub take-Parts :
    (m : Mm) (i : ℕ)
    → listed m i ≡ true
    → Parts m (remove_free_block (frame_array i) m) i (size m i)
unfolding remove_free_block
take-Parts m i on k = (there, back)
  where
    there : FreeFrame m k → FreeFrame (remove_free_block (frame_array i) m) k ⊎ In i (size m i) k
    there (free_frame j h a b) = elim (ℕ_discrete j i) [
      | yes e ↦ inr (ground arith)
      | no ne ↦ inl (free_frame j (ground arith) a b)
    ]

    back : FreeFrame (remove_free_block (frame_array i) m) k ⊎ In i (size m i) k → FreeFrame m k
    back (inl (free_frame j h a b)) = free_frame j (ground arith) a b
    back (inr (a, b)) = free_frame i on a b

pub put-Parts :
    (m : Mm) (i : ℕ)
    → listed m i ≡ false
    → Parts (add_free_block i (m.order (frame_array i)) m) m i (size m i)
unfolding add_free_block
put-Parts m i off k = (there, back)
  where
    there :
        FreeFrame (add_free_block i (m.order (frame_array i)) m) k
        → FreeFrame m k ⊎ In i (size m i) k
    there (free_frame j h a b) = elim (ℕ_discrete j i) [
      | yes e ↦ inr (ground arith)
      | no ne ↦ inl (free_frame j (ground arith) a (ground arith))
    ]

    back :
        FreeFrame m k ⊎ In i (size m i) k
        → FreeFrame (add_free_block i (m.order (frame_array i)) m) k
    back (inl (free_frame j h a b)) = free_frame j (ground arith) a (ground arith)
    back (inr (a, b)) = free_frame i (ground arith) a (ground arith)

pub halved-Parts :
    (m : Mm) (i c : ℕ)
    → listed m i ≡ false
    → listed m (i + 2 ^ c) ≡ false
    → Parts (halved i c m) m (i + 2 ^ c) (2 ^ c)
unfolding halved add_free_block
halved-Parts m i c off off' k = (there, back)
  where
    there : FreeFrame (halved i c m) k → FreeFrame m k ⊎ In (i + 2 ^ c) (2 ^ c) k
    there (free_frame j h a b) = elim (ℕ_discrete j (i + 2 ^ c)) [
      | yes e ↦ inr (ground (arith, pow_pos c))
      | no ne ↦ inl (free_frame j (ground arith) a (ground arith))
    ]

    back : FreeFrame m k ⊎ In (i + 2 ^ c) (2 ^ c) k → FreeFrame (halved i c m) k
    back (inl (free_frame j h a b)) = free_frame j (ground arith) a (ground arith)
    back (inr (a, b)) = free_frame (i + 2 ^ c) (ground arith) a (ground (arith, pow_pos c))

-- Changing a frame that is on no list changes no free frame.
pub Retags-Parts :
    {m m' : Mm} (i : ℕ)
    → listed m i ≡ false
    → Retags i m m'
    → (k : ℕ) → FreeFrame m k ↔ FreeFrame m' k
Retags-Parts {m} {m'} i off r k = (there, back)
  where
    there : FreeFrame m k → FreeFrame m' k
    there (free_frame j h a b) =
        free_frame j (ground (arith, r.listed (frame_array j))) a
          (ground (arith, r.order (frame_array j)))

    back : FreeFrame m' k → FreeFrame m k
    back (free_frame j h a b) =
        free_frame j (ground (arith, r.listed (frame_array j))) a
          (ground (arith, r.order (frame_array j), r.listed (frame_array j)))
