-- ===== src/Mm/Buddy/Alloc.antt =====
-- alloc_pages of lab6/OrangePiVer/Src/mm.c: the block that it returns, and when it returns NULL.
use nycu_osc_lab.Prelude.{
  ℕ, zero, suc, ◌+◌, ◌-◌, ◌*◌, ◌%◌, ◌^◌, ◌≤◌, ◌<◌, ◌≡◌, ◌≢◌, refl, ap, ◌↔◌, ◌⊎◌, inl, inr, Bool,
  true, false, update, arith, Bool-cases, ◌==◌, ==_iff, ltb,
}
use native.Mathlib.Decide.{dec_lt}
use nycu_osc_lab.Mm.State.{
  Mm, PagePtr, free_area, frame_array, frame_index, frame_used, frame_addr, phys_to_virt_addr,
  kernel_va_offset,
}
use nycu_osc_lab.Mm.PageList.{list_empty, remove_free_block}
use nycu_osc_lab.Mm.PageList.Links.{Links, LinkAt, empty-list_of}
use nycu_osc_lab.Mm.Buddy.{split_loop, mark_used, take_block, alloc_loop, alloc_pages}
use nycu_osc_lab.Mm.Buddy.Align.{pow_pos, pow-le-pow_add}
use nycu_osc_lab.Mm.Buddy.Wf.{listed, size, Wf, Retags, take-Wf, Retags-Wf}
use nycu_osc_lab.Mm.Buddy.Frames.{
  SameRange, Sound, sound, FreeFrame, In, Parts, take-Parts, Retags-Parts,
}
use nycu_osc_lab.Mm.Buddy.Split.{Split, split_loop-Split}

-- What alloc_pages does when it gives out the block of order `o` at frame `i`: the block was free
-- and is free no more, every other free frame stays free, and no other block that is given out
-- changes its order.
pub record Allocated (m m' : Mm) (used : ℕ → Bool) (i o : ℕ) : Type 0 where
  pub valid : Sound m' (update used i true)
  pub unused : used i ≡ false
  pub order_is : m'.order (frame_array i) ≡ o
  pub marked : m'.state (frame_array i) ≡ frame_used
  pub page_block : m'.chunk_size (frame_array i) ≡ 0
  pub frames : Parts m m' i (2 ^ o)
  pub others : (j : ℕ) → used j ≡ true → m'.order (frame_array j) ≡ m.order (frame_array j)
  pub range : SameRange m m'

module _ {m : Mm} {used : ℕ → Bool} {age : PagePtr → ℕ} {clock : ℕ} (w : Wf m used age clock)
    (i o d : ℕ) (on : listed m i ≡ true) (e : m.order (frame_array i) ≡ o + d) where
  abbrev taken : Mm
  taken = remove_free_block (frame_array i) m

  abbrev split : Mm
  split = split_loop d (frame_array i) o (remove_free_block (frame_array i) m)

  split_lem : Split (remove_free_block (frame_array i) m) split (update used i true) i o d
  unfolding remove_free_block
  split_lem = split_loop-Split d o i _ _ (sound (take-Wf w i on)) (ground arith) (ground (arith, e))

  split-unlisted : split.in_free_list (frame_array i) ≡ 0
  split-unlisted = elim split_lem.valid [
    | sound v ↦ ground (arith, v.free_only i, v.flags (frame_array i))
  ]

  mark_used-Retags : Retags i split (mark_used (frame_array i) o split)
  unfolding mark_used
  mark_used-Retags = record {
    next = λ p. refl;
    prev = λ p. refl;
    listed = λ p. ground (arith, split-unlisted);
    order = λ p ne. ground arith;
    state = λ p ne. ground arith;
    frame_count = refl;
  }

  mark_used-Sound :
      Sound split (update used i true)
      → Sound (mark_used (frame_array i) o split) (update used i true)
  unfolding mark_used
  mark_used-Sound (sound v) =
      sound (Retags-Wf v i (ground arith) mark_used-Retags (ground (arith, split_lem.order_is)))

  block-Parts : Parts m (mark_used (frame_array i) o split) i (2 ^ o)
  block-Parts k = (there, back)
    where
      whole : size m i ≡ 2 ^ (o + d)
      whole = ap (λ t. 2 ^ t) e

      marks : FreeFrame split k ↔ FreeFrame (mark_used (frame_array i) o split) k
      marks = Retags-Parts i (ground (arith, split-unlisted)) mark_used-Retags k

      from_taken :
          FreeFrame taken k ⊎ In i (size m i) k
          → FreeFrame (mark_used (frame_array i) o split) k ⊎ In i (2 ^ o) k
      from_taken (inl f) = inl (marks.0 ((split_lem.frames k).1 (inl f)))
      from_taken (inr r) = elim (dec_lt k (i + 2 ^ o)) [
        | yes lt ↦ inr (r.0, lt)
        | no ge ↦ inl (marks.0 ((split_lem.frames k).1 (inr (omega arith, omega (arith, whole)))))
      ]

      from_split : FreeFrame taken k ⊎ ((i + 2 ^ o ≤ k) × (k < i + 2 ^ (o + d))) → FreeFrame m k
      from_split (inl f) = (take-Parts m i on k).1 (inl f)
      from_split (inr r) = (take-Parts m i on k).1 (inr (omega arith, omega (arith, whole)))

      there : FreeFrame m k → FreeFrame (mark_used (frame_array i) o split) k ⊎ In i (2 ^ o) k
      there f = from_taken ((take-Parts m i on k).0 f)

      back : FreeFrame (mark_used (frame_array i) o split) k ⊎ In i (2 ^ o) k → FreeFrame m k
      back (inl f) = from_split ((split_lem.frames k).0 (marks.1 f))
      back (inr r) = (take-Parts m i on k).1 (inr (r.0, omega (arith, whole, pow-le-pow_add o d)))

  Allocated_lem : Allocated m (mark_used (frame_array i) o split) used i o
  unfolding mark_used remove_free_block
  Allocated_lem = record {
    valid = mark_used-Sound split_lem.valid;
    unused = ground (arith, w.free_only i);
    order_is = ground arith;
    marked = ground arith;
    page_block = ground arith;
    frames = block-Parts;
    others = λ j h. ground (arith, split_lem.others j, w.free_only i);
    range = split_lem.range;
  }

-- The page that the scan finds: the frame behind the head of a list that is not empty.
record FirstOf (m : Mm) (c : ℕ) : Type 0 where
  idx : ℕ
  is_first : m.next (free_area c) ≡ frame_array idx
  on_list : listed m idx ≡ true
  has_order : m.order (frame_array idx) ≡ c

first_listed :
    {m : Mm} {age : PagePtr → ℕ} {clock : ℕ} (c : ℕ)
    → Links m age clock
    → c ≤ 12
    → m.next (free_area c) ≢ free_area c
    → FirstOf m c
first_listed {m} {age} {clock} c l small ne = record {
  idx = m.next (free_area c) - 14;
  is_first = first;
  on_list = ground (arith, at_head.next_live, at_head.same_list, first);
  has_order = ground (arith, at_head.next_live, at_head.same_list, first);
}
  where
    at_head : LinkAt m age clock (free_area c)
    at_head = l (free_area c) (ground arith)

    first : m.next (free_area c) ≡ frame_array (m.next (free_area c) - 14)
    first = ground (arith, at_head.next_live, at_head.same_list)

-- The address of frame `i` in the kernel's half.
abbrev pub frame_va : Mm → ℕ → ℕ
frame_va m i = m.managed_base + i * 4096 + kernel_va_offset

-- The managed memory lies below 2 ^ 38, where the kernel's linear mapping ends.
pub record Placed (m : Mm) : Type 0 where
  pub base_aligned : m.managed_base % 4096 ≡ 0
  pub size_is : m.managed_size ≡ m.frame_count * 4096
  pub mapped : m.managed_base + m.managed_size ≤ 2 ^ 38

frame_va_lem :
    (m m' : Mm) (i : ℕ)
    → Placed m
    → i < m.frame_count
    → m'.managed_base ≡ m.managed_base
    → phys_to_virt_addr (frame_addr m' (frame_index (frame_array i))) ≡ frame_va m i
unfolding phys_to_virt_addr frame_addr
frame_va_lem m m' i p lt e = omega (arith, p.mapped, p.size_is, e)

-- alloc_pages gives out a block, or there is none of the order asked for or above.
pub data Allocates (m : Mm) (used : ℕ → Bool) (o : ℕ) : ℕ × Mm → Type 0 where
  gives :
      {m' : Mm} {va : ℕ} (i : ℕ)
      → va ≡ frame_va m i
      → Allocated m m' used i o
      → Allocates m used o (va, m')
  fails :
      {m' : Mm} {va : ℕ}
      → va ≡ 0
      → m' ≡ m
      → ((i : ℕ) → listed m i ≡ true → m.order (frame_array i) < o)
      → Allocates m used o (va, m')

take_block-Allocates :
    {m : Mm} {used : ℕ → Bool} {age : PagePtr → ℕ} {clock : ℕ} (c o : ℕ)
    → Wf m used age clock
    → Placed m
    → o ≤ c
    → c ≤ 12
    → m.next (free_area c) ≢ free_area c
    → Allocates m used o (take_block (m.next (free_area c)) c o m)
unfolding take_block
take_block-Allocates {m} {used} {age} {clock} c o w p le small ne =
    rw f.is_first (gives f.idx (frame_va_lem m _ f.idx p inside a.range.1) a)
  where
    f : FirstOf m c
    f = first_listed c w.links small ne

    inside : f.idx < m.frame_count
    inside = ground (arith, f.on_list, w.block f.idx, pow_pos (m.order (frame_array f.idx)))

    a :
        Allocated m
          (mark_used
            (frame_array f.idx)
            o
            (split_loop (c - o) (frame_array f.idx) o (remove_free_block (frame_array f.idx) m)))
          used
          f.idx
          o
    a = Allocated_lem w f.idx o (c - o) f.on_list (omega (arith, f.has_order))

-- No list from the order asked for up to `c` holds a block.
abbrev NoneBelow : Mm → ℕ → ℕ → Type 0
NoneBelow m o c =
    (i : ℕ) → listed m i ≡ true → o ≤ m.order (frame_array i) → c ≤ m.order (frame_array i)

alloc_loop-Allocates :
    {m : Mm} {used : ℕ → Bool} {age : PagePtr → ℕ} {clock : ℕ} (left c o : ℕ)
    → Wf m used age clock
    → Placed m
    → o ≤ c
    → c + left ≡ 13
    → NoneBelow m o c
    → Allocates m used o (alloc_loop left c o m)
unfolding alloc_loop list_empty
alloc_loop-Allocates zero c o w p le e none =
    fails refl refl (λ i h. ground (arith, none i, w.block i))
alloc_loop-Allocates {m} (suc left) c o w p le e none =
    elim (Bool-cases (m.next (free_area c) == free_area c)) [
      | inl empty ↦ rw empty (
          alloc_loop-Allocates left (c + 1) o w p (omega arith) (omega arith)
            (λ i h le'. ground (arith, none i, empty-list_of c w.links ((==_iff _ _).0 empty) i)))
      | inr full ↦ rw full (take_block-Allocates c o w p le (omega arith) (λ q. ground arith))
    ]

-- On a well-formed allocator, alloc_pages either returns the address of a block of the order asked
-- for that was free (`Allocated`), or returns NULL, changes nothing, and every free block is of a
-- smaller order.
pub alloc_pages-Allocates :
    (o : ℕ) {m : Mm} {used : ℕ → Bool}
    → Sound m used
    → Placed m
    → Allocates m used o (alloc_pages o m)
unfolding alloc_pages
alloc_pages-Allocates o {m} (sound w) p = elim (Bool-cases (ltb 12 o)) [
  | inl big ↦ rw big (fails refl refl (λ i h. ground (arith, w.block i)))
  | inr fits ↦
      rw fits (alloc_loop-Allocates (13 - o) o o w p (omega arith) (ground arith) (λ i h le. le))
]
