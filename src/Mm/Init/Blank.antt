-- ===== src/Mm/Init/Blank.antt =====
-- The initialised pages of mm_init of lab6/OrangePiVer/Src/mm.c, and the free lists that it builds.
use mathlib.Core.Path.{subst}
use nycu_osc_lab.Prelude.{ℕ, zero, suc, ◌+◌, ◌-◌, ◌≤◌, ◌<◌, ◌≡◌, refl, sym, ap, ◌∙◌, update, arith}
use nycu_osc_lab.Mm.State.{Mm, PagePtr, frame_array, free_area}
use nycu_osc_lab.Mm.PageList.{list_init}
use nycu_osc_lab.Mm.PageList.Links.{LinkAt}
use nycu_osc_lab.Mm.Buddy.Frames.{SameRange}
use nycu_osc_lab.Mm.Init.{init_areas, init_frame, init_frames, init_pools}
use nycu_osc_lab.Mm.Init.Build.{Built}

-- The first `i` list heads are empty lists.
abbrev pub Heads : Mm → ℕ → Type 0
Heads m i = (o : ℕ) → o < i → (m.next (1 + o) ≡ 1 + o) × (m.prev (1 + o) ≡ 1 + o)

list_init-Heads : (m : Mm) (i : ℕ) → Heads m i → Heads (list_init (free_area i) m) (i + 1)
unfolding list_init
list_init-Heads m i h o lt = (ground (arith, h o), ground (arith, h o))

pub init_areas-Heads : (left i : ℕ) (m : Mm) → Heads m i → Heads (init_areas left i m) (i + left)
unfolding init_areas
init_areas-Heads zero i m h = λ o lt. h o (omega arith)
init_areas-Heads (suc left) i m h =
    let e : i + 1 + left ≡ i + suc left = omega arith in
    subst (Heads (init_areas left (i + 1) (list_init (free_area i) m))) e
      (init_areas-Heads left (i + 1) (list_init (free_area i) m) (list_init-Heads m i h))

pub init_areas_rest :
    (left i : ℕ) (m : Mm)
    → ((init_areas left i m).in_free_list ≡ m.in_free_list) × SameRange m (init_areas left i m)
unfolding init_areas list_init
init_areas_rest zero i m = (refl, (refl, refl, refl, refl, refl))
init_areas_rest (suc left) i m = init_areas_rest left (i + 1) (list_init (free_area i) m)

-- After `i` rounds of the loop on the frames.
pub record Cleared (m m' : Mm) (i : ℕ) : Type 0 where
  pub heads : Heads m' 13
  pub unlisted : (p : PagePtr) → 14 ≤ p → p < 14 + i → m'.in_free_list p ≡ 0
  pub others : (p : PagePtr) → (14 ≤ p → p < 14 + i → ⊥) → m'.in_free_list p ≡ m.in_free_list p
  pub range : SameRange m m'

init_frame-Cleared : (m m' : Mm) (i : ℕ) → Cleared m m' i → Cleared m (init_frame i m') (i + 1)
unfolding init_frame
init_frame-Cleared m m' i c = record {
  heads = λ o lt. (ground (arith, c.heads o), ground (arith, c.heads o));
  unlisted = λ p lo hi. ground (arith, c.unlisted p);
  others = λ p off. ground (arith, c.others p, off);
  range = c.range;
}

pub init_frames-Cleared :
    (left i : ℕ) (m m' : Mm) → Cleared m m' i → Cleared m (init_frames left i m') (i + left)
unfolding init_frames
init_frames-Cleared zero i m m' c = let e : i ≡ i + 0 = omega arith in subst (Cleared m m') e c
init_frames-Cleared (suc left) i m m' c =
    let e : i + 1 + left ≡ i + suc left = omega arith in
    subst (Cleared m (init_frames left (i + 1) (init_frame i m'))) e
      (init_frames-Cleared left (i + 1) m (init_frame i m') (init_frame-Cleared m m' i c))

-- Only the chunk lists differ.
pub init_pools_form :
    (left i : ℕ) (m : Mm)
    → init_pools left i m ≡ record m { chunk_free_list = (init_pools left i m).chunk_free_list }
unfolding init_pools
init_pools_form zero i m = refl
init_pools_form (suc left) i m =
    init_pools_form left (i + 1) (record m { chunk_free_list = update m.chunk_free_list i 0 })

pub empty-Built : (m : Mm) → Heads m 13 → ((p : PagePtr) → m.in_free_list p ≡ 0) → Built m 0
empty-Built m h none_listed = record {
  age = λ p. 0;
  clock = 1;
  valid = record {
    links = λ p on. head_at p (ground (arith, on, none_listed p));
    block = λ i on. ground (arith, on, none_listed (frame_array i));
    apart = λ i j on on' lt. ground (arith, on, none_listed (frame_array i));
    free_only = λ i on. ground (arith, on, none_listed (frame_array i));
    flags = λ p. omega (arith, none_listed p);
  };
  below = λ j on. ground (arith, on, none_listed (frame_array j));
  all_free = λ k lt. absurd (omega arith);
}
  where
    head_at : (p : PagePtr) → (1 ≤ p) × (p ≤ 13) → LinkAt m (λ q. 0) 1 p
    head_at p r =
        let e : 1 + (p - 1) ≡ p = omega arith in
        let next_is : m.next p ≡ p = ap m.next (sym e) ∙ ((h (p - 1) (omega arith)).0 ∙ e) in
        let prev_is : m.prev p ≡ p = ap m.prev (sym e) ∙ ((h (p - 1) (omega arith)).1 ∙ e) in
        record {
          next_live = rw next_is (ground (arith, r));
          prev_live = rw prev_is (ground (arith, r));
          prev_next = rw next_is prev_is;
          next_prev = rw prev_is next_is;
          same_list = rw next_is refl;
          older = λ a b. absurd (omega arith);
          born = omega arith;
        }
