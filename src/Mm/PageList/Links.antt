-- ===== src/Mm/PageList/Links.antt =====
-- The links of the free lists of lab6/OrangePiVer/Src/mm.c: what holds at each list head and at
-- each listed page, and that adding and removing a block keeps it.
use nycu_osc_lab.Prelude.{
  ℕ, zero, suc, ◌+◌, ◌-◌, ◌≤◌, ◌<◌, ◌≡◌, ◌≢◌, Bool, true, false, ◌&&◌, ◌||◌, leb, ◌==◌, update,
  if◌then◌else◌, arith,
}
use native.Mathlib.Decide.{ℕ_discrete, dec_le}
use nycu_osc_lab.Mm.State.{Mm, PagePtr, free_area, frame_array}
use nycu_osc_lab.Mm.PageList.{add_free_block, remove_free_block}

-- A list head, or a page that is on a list.
abbrev pub live : Mm → PagePtr → Bool
live m p = leb 1 p && (leb p 13 || m.in_free_list p == 1)

-- The order of the list that a head or a listed page belongs to.
abbrev pub list_of : Mm → PagePtr → ℕ
list_of m p = if leb p 13 then p - 1 else m.order p

-- At a live pointer both links lead to live pointers of the same list and are inverse. The number
-- `age` gives each page grows towards the head, so `next` comes to the head and is no other cycle.
pub record LinkAt (m : Mm) (age : PagePtr → ℕ) (clock : ℕ) (p : PagePtr) : Type 0 where
  pub next_live : live m (m.next p) ≡ true
  pub prev_live : live m (m.prev p) ≡ true
  pub prev_next : m.prev (m.next p) ≡ p
  pub next_prev : m.next (m.prev p) ≡ p
  pub same_list : list_of m (m.next p) ≡ list_of m p
  pub older : 14 ≤ p → 14 ≤ m.next p → age (m.next p) < age p
  pub born : age p < clock

abbrev pub Links : Mm → (PagePtr → ℕ) → ℕ → Type 0
Links m age clock = (p : PagePtr) → live m p ≡ true → LinkAt m age clock p

-- The links of `add_free_block`, and of the pointers that it leaves alone.
module _ {m : Mm} {age : PagePtr → ℕ} {clock : ℕ} (idx order : ℕ)
    (fresh : live m (frame_array idx) ≡ false) (small : order ≤ 12)
    (at_head : LinkAt m age clock (free_area order))
    (at_first : LinkAt m age clock (m.next (free_area order))) where
  add-LinkAt_frame :
      LinkAt
        (add_free_block idx order m)
        (update age (frame_array idx) clock)
        (clock + 1)
        (frame_array idx)
  unfolding add_free_block
  add-LinkAt_frame = record {
    next_live = ground (arith, at_head.next_live);
    prev_live = ground arith;
    prev_next = ground (arith, at_head.next_live);
    next_prev = ground (arith, at_head.next_live);
    same_list = ground (arith, at_head.next_live, at_head.same_list);
    older = ground (arith, at_first.born);
    born = ground arith;
  }

  add-LinkAt_head :
      LinkAt
        (add_free_block idx order m)
        (update age (frame_array idx) clock)
        (clock + 1)
        (free_area order)
  unfolding add_free_block
  add-LinkAt_head = record {
    next_live = ground (arith, at_head.next_live);
    prev_live = ground (arith, at_head.prev_live);
    prev_next = ground (arith, at_head.next_live);
    next_prev = ground (arith, at_head.next_live, at_head.prev_live, at_head.next_prev);
    same_list = ground (arith, at_head.next_live, at_head.same_list);
    older = ground (arith, at_first.born);
    born = ground (arith, at_head.born);
  }

  add-LinkAt_other :
      (p : PagePtr)
      → live m p ≡ true
      → p ≢ free_area order
      → LinkAt m age clock p
      → LinkAt (add_free_block idx order m) (update age (frame_array idx) clock) (clock + 1) p
  unfolding add_free_block
  add-LinkAt_other p on ne a = record {
    next_live = ground (arith, a.next_live);
    prev_live = ground (arith, a.prev_live);
    prev_next = ground (arith, a.next_live, a.prev_next, at_head.prev_next);
    next_prev = ground (arith, a.prev_live, a.next_prev, at_head.next_live);
    same_list = ground (arith, a.next_live, a.same_list);
    older = ground (arith, a.older, a.next_live);
    born = ground (arith, a.born);
  }

-- The links after `remove_free_block`, at every pointer but the removed page.
module _ {m : Mm} {age : PagePtr → ℕ} {clock : ℕ} (idx : ℕ) (on : live m (frame_array idx) ≡ true)
    (at_page : LinkAt m age clock (frame_array idx))
    (at_next : LinkAt m age clock (m.next (frame_array idx)))
    (at_prev : LinkAt m age clock (m.prev (frame_array idx))) where
  remove-LinkAt :
      (p : PagePtr)
      → live m p ≡ true
      → p ≢ frame_array idx
      → LinkAt m age clock p
      → LinkAt (remove_free_block (frame_array idx) m) age clock p
  unfolding remove_free_block
  remove-LinkAt p here ne a = record {
    next_live = ground (
      arith, a.next_live, a.next_prev, a.prev_next, at_page.next_live, at_page.prev_next,
      at_page.next_prev,
    );
    prev_live = ground (
      arith, a.prev_live, a.next_prev, a.prev_next, at_page.prev_live, at_page.prev_next,
      at_page.next_prev,
    );
    prev_next = ground (arith, a.prev_next, at_page.prev_next, at_page.next_prev);
    next_prev = ground (arith, a.next_prev, at_page.prev_next, at_page.next_prev);
    same_list =
        ground (arith, a.same_list, at_page.same_list, at_prev.same_list, at_page.next_prev);
    older = ground (
      arith, a.older, a.prev_next, at_page.older, at_page.next_live, at_prev.older,
      at_page.prev_next, at_page.next_prev,
    );
    born = ground (arith, a.born);
  }

-- What is live, and in which list, after each operation.
pub live-add_free_block :
    (m : Mm) (idx order : ℕ) (p : PagePtr)
    → live (add_free_block idx order m) p ≡ (p == frame_array idx || live m p)
unfolding add_free_block
live-add_free_block m idx order p = ground arith

pub live-remove_free_block :
    (m : Mm) (idx : ℕ) (p : PagePtr)
    → live (remove_free_block (frame_array idx) m) p
      ≡ (if p == frame_array idx then false else live m p)
unfolding remove_free_block
live-remove_free_block m idx p = ground arith

-- When a page that is on no list is put on the list of an order up to 12, the circular lists stay
-- intact: each page still leads back to its head and `prev` undoes `next`.
pub add_free_block-Links :
    {m : Mm} {age : PagePtr → ℕ} {clock : ℕ} (idx order : ℕ)
    → Links m age clock
    → live m (frame_array idx) ≡ false
    → order ≤ 12
    → Links (add_free_block idx order m) (update age (frame_array idx) clock) (clock + 1)
add_free_block-Links {m} {age} {clock} idx order l fresh small p h =
    elim (ℕ_discrete p (frame_array idx)) [
      | yes e ↦ rw e (add-LinkAt_frame idx order fresh small at_head at_first)
      | no ne ↦ elim (ℕ_discrete p (free_area order)) [
        | yes e ↦ rw e (add-LinkAt_head idx order fresh small at_head at_first)
        | no ne' ↦
            let on : live m p ≡ true = ground (arith, live-add_free_block m idx order p) in
            add-LinkAt_other idx order fresh small at_head at_first p on ne' (l p on)
      ]
    ]
  where
    at_head : LinkAt m age clock (free_area order)
    at_head = l (free_area order) (ground arith)

    at_first : LinkAt m age clock (m.next (free_area order))
    at_first = l (m.next (free_area order)) at_head.next_live

-- When a page that is on a list is taken off, the circular lists stay intact.
pub remove_free_block-Links :
    {m : Mm} {age : PagePtr → ℕ} {clock : ℕ} (idx : ℕ)
    → Links m age clock
    → live m (frame_array idx) ≡ true
    → Links (remove_free_block (frame_array idx) m) age clock
remove_free_block-Links {m} {age} {clock} idx l on p h =
    remove-LinkAt idx on at_page (l (m.next (frame_array idx)) at_page.next_live)
      (l (m.prev (frame_array idx)) at_page.prev_live) p here
      (λ e. ground (arith, live-remove_free_block m idx p)) (l p here)
  where
    at_page : LinkAt m age clock (frame_array idx)
    at_page = l (frame_array idx) on

    here : live m p ≡ true
    here = ground (arith, live-remove_free_block m idx p)

-- If the head points at itself, no listed page has its order: from such a page `prev` would lead
-- to the head, through pages of growing age.
empty_list :
    {m : Mm} {age : PagePtr → ℕ} {clock : ℕ} (fuel order : ℕ)
    → Links m age clock
    → m.next (free_area order) ≡ free_area order
    → (p : PagePtr) → 14 ≤ p
    → live m p ≡ true
    → clock ≤ age p + fuel
    → m.order p ≢ order
empty_list zero order l empty p frame on h e = omega (arith, (l p on).born)
empty_list {m} {age} {clock} (suc fuel) order l empty p frame on h e = elim (dec_le 14 (m.prev p)) [
  | yes q ↦
      empty_list fuel order l empty (m.prev p) q at_p.prev_live (ground (arith, at_p, at_prev))
        (ground (arith, at_p, at_prev))
  | no q ↦ ground (arith, at_p, at_prev)
]
  where
    at_p : LinkAt m age clock p
    at_p = l p on

    at_prev : LinkAt m age clock (m.prev p)
    at_prev = l (m.prev p) at_p.prev_live

-- When a list's head points at itself, no page that is on a list has that list's order.
pub empty-list_of :
    {m : Mm} {age : PagePtr → ℕ} {clock : ℕ} (order : ℕ)
    → Links m age clock
    → m.next (free_area order) ≡ free_area order
    → (idx : ℕ) → live m (frame_array idx) ≡ true
    → m.order (frame_array idx) ≢ order
empty-list_of {clock} order l empty idx on =
    empty_list clock order l empty (frame_array idx) (omega arith) on (omega arith)
