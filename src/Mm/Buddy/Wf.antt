-- ===== src/Mm/Buddy/Wf.antt =====
-- The well-formedness of the buddy system of lab6/OrangePiVer/Src/mm.c, and the steps that
-- alloc_pages and free_pages are made of.
use nycu_osc_lab.Prelude.{
  ℕ, suc, ◌+◌, ◌%◌, ◌^◌, ◌≤◌, ◌<◌, ◌≡◌, ◌≢◌, refl, ap, Bool, true, false, ◌||◌, ◌==◌, update, arith,
}
use nycu_osc_lab.Mm.State.{Mm, PagePtr, frame_array, frame_index}
use nycu_osc_lab.Mm.PageList.{add_free_block, remove_free_block}
use nycu_osc_lab.Mm.PageList.Links.{Links, LinkAt, add_free_block-Links, remove_free_block-Links}
use nycu_osc_lab.Mm.Buddy.{split_block}
use nycu_osc_lab.Mm.Buddy.Align.{pow_pos, pow-suc_two, halves_aligned}

abbrev pub listed : Mm → ℕ → Bool
listed m i = m.in_free_list (frame_array i) == 1

-- Frame `i` is the first of a block, free or given out.
abbrev pub head : Mm → (ℕ → Bool) → ℕ → Bool
head m used i = used i || listed m i

abbrev pub size : Mm → ℕ → ℕ
size m i = 2 ^ m.order (frame_array i)

pub record BlockAt (m : Mm) (i : ℕ) : Type 0 where
  pub small : m.order (frame_array i) ≤ 12
  pub aligned : i % size m i ≡ 0
  pub inside : i + size m i ≤ m.frame_count

-- `used` says which frames are the first of a block that is given out: the clients' view, which
-- the program does not store. The blocks, free and given out, are aligned, inside the frame array
-- and disjoint.
pub record Wf (m : Mm) (used : ℕ → Bool) (age : PagePtr → ℕ) (clock : ℕ) : Type 0 where
  pub links : Links m age clock
  pub block : (i : ℕ) → head m used i ≡ true → BlockAt m i
  pub apart : (i j : ℕ) → head m used i ≡ true → head m used j ≡ true → i < j → i + size m i ≤ j
  pub free_only : (i : ℕ) → listed m i ≡ true → (used i ≡ false) × (m.state (frame_array i) ≡ 0)
  pub flags : (p : PagePtr) → m.in_free_list p ≤ 1

module _ {m : Mm} {used : ℕ → Bool} {age : PagePtr → ℕ} {clock : ℕ} (w : Wf m used age clock) where
  -- Taking a block off its list.
  pub take-Wf :
      (i : ℕ)
      → listed m i ≡ true
      → Wf (remove_free_block (frame_array i) m) (update used i true) age clock
  unfolding remove_free_block
  take-Wf i on = record {
    links = remove_free_block-Links i w.links (ground arith);
    block = λ j h. ground (arith, w.block j);
    apart = λ j k hj hk lt. ground (arith, w.apart j k);
    free_only = λ j h. ground (arith, w.free_only j);
    flags = λ p. ground (arith, w.flags p);
  }

  -- Putting a block that is given out back on the list of its order.
  pub put-Wf :
      (i : ℕ)
      → used i ≡ true
      → Wf
          (add_free_block i (m.order (frame_array i)) m)
          (update used i false)
          (update age (frame_array i) clock)
          (clock + 1)
  unfolding add_free_block
  put-Wf i on = record {
    links =
        add_free_block-Links i (m.order (frame_array i)) w.links (ground (arith, w.free_only i))
          (ground (arith, w.block i));
    block = λ j h. ground (arith, w.block j);
    apart = λ j k hj hk lt. ground (arith, w.apart j k);
    free_only = λ j h. ground (arith, w.free_only j);
    flags = λ p. ground (arith, w.flags p);
  }

-- `m'` differs from `m` in the fields of one frame only, and not in its links.
pub record Retags (i : ℕ) (m m' : Mm) : Type 0 where
  pub next : (p : PagePtr) → m'.next p ≡ m.next p
  pub prev : (p : PagePtr) → m'.prev p ≡ m.prev p
  pub listed : (p : PagePtr) → m'.in_free_list p ≡ m.in_free_list p
  pub order : (p : PagePtr) → p ≢ frame_array i → m'.order p ≡ m.order p
  pub state : (p : PagePtr) → p ≢ frame_array i → m'.state p ≡ m.state p
  pub frame_count : m'.frame_count ≡ m.frame_count

-- A page that is on no list may change its fields.
pub Retags-Links :
    {m m' : Mm} {age : PagePtr → ℕ} {clock : ℕ} (i : ℕ)
    → Links m age clock
    → listed m i ≡ false
    → Retags i m m'
    → Links m' age clock
Retags-Links {m} {m'} {age} {clock} i l off r p h = record {
  next_live = ground (arith, a.next_live, r.next p, r.listed (m.next p));
  prev_live = ground (arith, a.prev_live, r.prev p, r.listed (m.prev p));
  prev_next = ground (arith, a.prev_next, r.next p, r.prev (m.next p));
  next_prev = ground (arith, a.next_prev, r.prev p, r.next (m.prev p));
  same_list =
      ground (arith, a.next_live, a.same_list, r.next p, r.order p, r.order (m.next p), r.listed p);
  older = ground (arith, a.older, r.next p);
  born = a.born;
}
  where
    a : LinkAt m age clock p
    a = l p (ground (arith, r.listed p))

-- One round of the split, at a frame.
unfoldable pub halved : ℕ → ℕ → Mm → Mm
halved i c m =
    let m1 = add_free_block (i + 2 ^ c) c m in
    record m1 { order = update m1.order (frame_array i) c }

pub split_block-halved : (i c : ℕ) (m : Mm) → split_block (frame_array i) c m ≡ halved i c m
unfolding split_block halved
split_block-halved i c m =
    let e : frame_index (frame_array i) ≡ i = omega arith in
    ap
      (λ t.
        let m1 = add_free_block (t + 2 ^ c) c m in
        record m1 { order = update m1.order (frame_array i) c })
      e

module _ {m : Mm} {used : ℕ → Bool} {age : PagePtr → ℕ} {clock : ℕ} (w : Wf m used age clock)
    (i c : ℕ) (on : used i ≡ true) (e : m.order (frame_array i) ≡ suc c) where
  -- The second half of a block is no block of its own.
  pub half_fresh : head m used (i + 2 ^ c) ≡ false
  half_fresh = ground (arith, w.apart i (i + 2 ^ c), pow-suc_two c, pow_pos c)

  halves :
      (i % 2 ^ c ≡ 0) × ((i + 2 ^ c) % 2 ^ c ≡ 0) × (c ≤ 11) × (i + 2 ^ c + 2 ^ c ≤ m.frame_count)
  halves = ground (arith, w.block i, halves_aligned i c, pow-suc_two c)

  pub halved-Wf : Wf (halved i c m) used (update age (frame_array (i + 2 ^ c)) clock) (clock + 1)
  unfolding halved add_free_block
  halved-Wf = record {
    links =
        Retags-Links i
          (add_free_block-Links (i + 2 ^ c) c w.links (ground (arith, half_fresh))
            (ground (arith, halves)))
          (ground (arith, w.free_only i, pow_pos c))
          (record {
            next = λ p. refl;
            prev = λ p. refl;
            listed = λ p. refl;
            order = λ p ne. ground arith;
            state = λ p ne. refl;
            frame_count = refl;
          });
    block = λ j h. ground (arith, w.block j, halves, pow_pos c);
    apart = λ j k hj hk lt. ground (
      arith,
      w.apart j k,
      w.apart i k,
      w.apart j i,
      w.apart i j,
      pow_pos c,
      half_fresh,
      pow-suc_two c,
    );
    free_only = λ j h. ground (arith, w.free_only j, half_fresh);
    flags = λ p. ground (arith, w.flags p);
  }

module _ {m m' : Mm} {used : ℕ → Bool} {age : PagePtr → ℕ} {clock : ℕ} (w : Wf m used age clock)
    (i : ℕ) (on : used i ≡ true) (r : Retags i m m') where
  -- Writing the metadata of a block that is given out, its order apart.
  pub Retags-Wf : m'.order (frame_array i) ≡ m.order (frame_array i) → Wf m' used age clock
  Retags-Wf e = record {
    links = Retags-Links i w.links (ground (arith, w.free_only i)) r;
    block = λ j h.
        ground (arith, w.block j, r.order (frame_array j), r.listed (frame_array j), r.frame_count);
    apart = λ j k hj hk lt. ground (
      arith,
      w.apart j k,
      r.order (frame_array j),
      r.listed (frame_array j),
      r.listed (frame_array k),
    );
    free_only =
        λ j h. ground (arith, w.free_only j, r.listed (frame_array j), r.state (frame_array j));
    flags = λ p. ground (arith, w.flags p, r.listed p);
  }

  -- Joining two halves that are given out: the second is no block any more.
  pub join-Wf :
      (o : ℕ)
      → used (i + 2 ^ o) ≡ true
      → m.order (frame_array i) ≡ o
      → m.order (frame_array (i + 2 ^ o)) ≡ o
      → o < 12
      → i % 2 ^ suc o ≡ 0
      → m'.order (frame_array i) ≡ suc o
      → Wf m' (update used (i + 2 ^ o) false) age clock
  join-Wf o on' e e' small al e'' = record {
    links = Retags-Links i w.links (ground (arith, w.free_only i)) r;
    block = λ j h. ground (
      arith,
      w.block j,
      w.block (i + 2 ^ o),
      w.free_only j,
      pow-suc_two o,
      r.order (frame_array j),
      r.listed (frame_array j),
      r.frame_count,
    );
    apart = λ j k hj hk lt. ground (
      arith,
      w.apart j k,
      w.apart (i + 2 ^ o) k,
      w.apart k (i + 2 ^ o),
      w.free_only k,
      pow_pos o,
      pow-suc_two o,
      r.order (frame_array j),
      r.listed (frame_array j),
      r.listed (frame_array k),
    );
    free_only =
        λ j h. ground (arith, w.free_only j, r.listed (frame_array j), r.state (frame_array j));
    flags = λ p. ground (arith, w.flags p, r.listed p);
  }
