-- ===== src/Mm/Init/Start.antt =====
-- What mm_init of lab6/OrangePiVer/Src/mm.c has made before it takes the reserved ranges out.
use mathlib.Core.Path.{subst}
use native.Mathlib.Decide.{dec_lt}
use nycu_osc_lab.Prelude.{
  ℕ, suc, ◌+◌, ◌*◌, ◌^◌, ◌≤◌, ◌<◌, ◌≡◌, refl, sym, ap, ◌∙◌, false, some, arith,
}
use nycu_osc_lab.Mm.State.{Mm, PagePtr}
use nycu_osc_lab.Mm.Startup.{align_up, align_down}
use nycu_osc_lab.Mm.Buddy.Frames.{Sound, FreeFrame, SameRange}
use nycu_osc_lab.Mm.Buddy.Alloc.{Placed}
use nycu_osc_lab.Mm.Init.{set_range, init_areas, init_frames, init_pools, build_loop, init_buddy}
use nycu_osc_lab.Mm.Init.Build.{Built, build_loop-AllFree}
use nycu_osc_lab.Mm.Init.Blank.{
  init_areas-Heads, init_areas_rest, Cleared, init_frames-Cleared, init_pools_form, empty-Built,
}

-- The list heads are static, so they are on no list; behind the frame array there are no pages.
abbrev pub NoStray : Mm → ℕ → Type 0
NoStray m n = (p : PagePtr) → (p < 14 → m.in_free_list p ≡ 0) × (14 + n ≤ p → m.in_free_list p ≡ 0)

-- The allocator is sound, all frames are free, and they lie in the region.
pub record Started (m : Mm) (base size : ℕ) : Type 0 where
  pub valid : Sound m (λ i. false)
  pub free : (k : ℕ) → k < m.frame_count → FreeFrame m k
  pub placed : Placed m
  pub from_base : base ≤ m.managed_base
  pub to_end : m.managed_base + m.managed_size ≤ base + size
  pub whole : size < m.managed_size + 2 * 4096

pages_ready : Mm → Mm
pages_ready m = init_pools 8 0 (init_frames m.frame_count 0 (init_areas 13 0 m))

pages_ready_lem :
    (m : Mm)
    → NoStray m m.frame_count
    → Built (pages_ready m) 0
      × ((pages_ready m).frame_count ≡ m.frame_count)
      × ((pages_ready m).managed_base ≡ m.managed_base)
      × ((pages_ready m).managed_size ≡ m.managed_size)
unfolding pages_ready
pages_ready_lem m stray = (
  subst (λ x. Built x 0) (sym form)
      (empty-Built (record framed { chunk_free_list = (pages_ready m).chunk_free_list }) c.heads
        none_listed),
  ap (λ x. x.frame_count) form ∙ (c.range.0 ∙ area_rest.1.0),
  ap (λ x. x.managed_base) form ∙ (c.range.1 ∙ area_rest.1.1),
  ap (λ x. x.managed_size) form ∙ (c.range.2 ∙ area_rest.1.2),
)
  where
    areas : Mm
    areas = init_areas 13 0 m

    framed : Mm
    framed = init_frames m.frame_count 0 areas

    area_rest : (areas.in_free_list ≡ m.in_free_list) × SameRange m areas
    area_rest = init_areas_rest 13 0 m

    c : Cleared areas framed m.frame_count
    c =
        let e : 0 + m.frame_count ≡ m.frame_count = omega arith in
        subst (Cleared areas framed) e (
          init_frames-Cleared m.frame_count 0 areas areas (record {
            heads = init_areas-Heads 13 0 m (λ o lt. absurd (omega arith));
            unlisted = λ p lo hi. absurd (omega arith);
            others = λ p off. refl;
            range = (refl, refl, refl, refl, refl);
          }))

    form : pages_ready m ≡ record framed { chunk_free_list = (pages_ready m).chunk_free_list }
    form = init_pools_form 8 0 framed

    none_listed : (p : PagePtr) → framed.in_free_list p ≡ 0
    none_listed p = elim (dec_lt p 14) [
      | yes head ↦ c.others p (λ a b. omega arith) ∙ (ap (λ x. x p) area_rest.0 ∙ (stray p).0 head)
      | no page ↦ elim (dec_lt p (14 + m.frame_count)) [
        | yes frame ↦ c.unlisted p (omega arith) frame
        | no behind ↦
            c.others p (λ a b. behind b) ∙ (ap (λ x. x p) area_rest.0 ∙ (stray p).1 (omega arith))
      ]
    ]

-- The managed range is made of the whole pages of the region.
set_range_lem :
    (base size : ℕ) (m : Mm)
    → base + size ≤ 2 ^ 38
    → 4096 ≤ size
    → Placed (set_range base size m)
      × (base ≤ (set_range base size m).managed_base)
      × ((set_range base size m).managed_base + (set_range base size m).managed_size ≤ base + size)
      × (size < (set_range base size m).managed_size + 2 * 4096)
unfolding set_range align_up align_down
set_range_lem base size m room some_pages = (
  record { base_aligned = omega arith; size_is = omega arith; mapped = omega arith },
  omega arith,
  omega arith,
  omega arith,
)

range_stray : (base size : ℕ) (m : Mm) (n : ℕ) → NoStray m n → NoStray (set_range base size m) n
unfolding set_range
range_stray base size m n h = h

init_buddy_form : (m : Mm) → init_buddy m ≡ build_loop (suc m.frame_count) 0 (pages_ready m)
unfolding init_buddy pages_ready
init_buddy_form m = refl

-- For a memory region below 2^38 of a page at least, when no page is marked as listed outside the frame
-- array: from the managed range that mm_init sets, its part up to the reserved ranges ends. All frames
-- are free and none is given out, the lists and the blocks are sound, and the managed range is inside the
-- region and leaves out less than two pages of it.
pub init_buddy-Started :
    (base size : ℕ) (m : Mm)
    → base + size ≤ 2 ^ 38
    → 4096 ≤ size
    → NoStray m (set_range base size m).frame_count
    → (m' : Mm) × (init_buddy (set_range base size m) ≡ some m') × Started m' base size
init_buddy-Started base size m room some_pages stray =
    let m1 = set_range base size m in
    let (placed, from_base, to_end, whole) = set_range_lem base size m room some_pages in
    let (built, count, base_is, size_is) =
      pages_ready_lem m1 (range_stray base size m m1.frame_count stray) in
    let (m', e, r) =
      build_loop-AllFree (suc m1.frame_count) 0 (pages_ready m1) (omega (arith, count))
        (omega arith) built in
    (
      m',
      init_buddy_form m1 ∙ e,
      record {
        valid = r.valid;
        free = λ k h. r.free k (omega (arith, h, r.range.0));
        placed = record {
          base_aligned = omega (arith, placed.base_aligned, base_is, r.range.1);
          size_is = omega (arith, placed.size_is, size_is, count, r.range.0, r.range.2);
          mapped = omega (arith, placed.mapped, base_is, size_is, r.range.1, r.range.2);
        };
        from_base = omega (arith, from_base, base_is, r.range.1);
        to_end = omega (arith, to_end, base_is, size_is, r.range.1, r.range.2);
        whole = omega (arith, whole, size_is, r.range.2);
      },
    )
