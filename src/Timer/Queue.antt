-- ===== src/Timer/Queue.antt =====
-- add_timer of lab6/OrangePiVer/Src/timer.c: the queue is a list in order of expiry, and the hardware
-- timer is set to the first event.
use nycu_osc_lab.Prelude.{
  ℕ, ◌+◌, ◌*◌, ◌≤◌, ◌<◌, ◌^◌, ◌≡◌, ◌≢◌, ◌⊎◌, refl, inl, inr, Bool, true, false, not, ◌||◌, ◌&&◌,
  ltb, leb, ◌==◌, if◌then◌else◌, update, some, List, [], ◌∷◌, length, Bool-cases, arith, u64,
}
use nycu_osc_lab.Prelude.Chains.{
  Chain, NotIn, Nodup, Disjoint, Chain-update, insert, walk, link_after,
}
use nycu_osc_lab.Prelude.Inserts.{
  Ordered, Chain-insert_front, Chain-insert_behind, Nodup-insert, Disjoint-insert, length-insert,
  Ordered-insert, Ordered-update, Chain-Each, Disjoint-Each,
}
use nycu_osc_lab.Timer.{Timers, timer_alloc_node, timer_program_next_locked, add_timer}

-- The timers of the list wait, the first one to expire first, and the nodes of the other list are
-- free.
pub record IsTimers (t : Timers) (queue free : List ℕ) : Type 0 where
  pub queued : Chain t.next t.head queue
  pub unused : Chain t.next t.free_list free
  pub once : Nodup queue
  pub free_once : Nodup free
  pub apart : Disjoint free queue
  pub total : length queue + length free ≡ 32
  pub ordered : Ordered (λ x y. t.expires_at x ≤ t.expires_at y) queue

-- The time of the next event: the scheduler's tick, or the first timer when it expires before that.
unfoldable pub next_event : Timers → ℕ
next_event t =
    if not (t.head == 0) && ltb (t.expires_at t.head) t.sched_next_tick
    then t.expires_at t.head
    else t.sched_next_tick

-- The hardware timer is on and set to the next event.
abbrev pub Armed : Timers → Type 0
Armed t = (t.programmed ≡ next_event t) × (t.stie ≡ true)

pub timer_program_next_locked-Armed : (t : Timers) → Armed (timer_program_next_locked t)
unfolding timer_program_next_locked next_event
timer_program_next_locked-Armed t = (refl, refl)

-- What add_timer changes besides the links and the hardware timer.
pub record Added (t t' : Timers) (n callback arg expiry : ℕ) : Type 0 where
  pub expires_is : t'.expires_at ≡ update t.expires_at n expiry
  pub callback_is : t'.callback ≡ update t.callback n callback
  pub arg_is : t'.arg ≡ update t.arg n arg
  pub tick_is : t'.sched_next_tick ≡ t.sched_next_tick

-- The head of a list that is not empty is on the list.
head-other :
    (next : ℕ → ℕ) (n p : ℕ) (xs : List ℕ)
    → Chain next p xs
    → NotIn n xs
    → (p == 0) ≡ false
    → (p == n) ≡ false
head-other next n p [] c h full = absurd (ground arith)
head-other next n p (x ∷ xs) (e, nz, c) (ne, h) full = ground (arith, ne)

module _ {t : Timers} {queue free : List ℕ} (n callback arg expiry : ℕ)
    (w : IsTimers t queue (n ∷ free)) where
  -- The state after the node is taken from the pool and filled in.
  abbrev pub filled : Timers
  filled = record t {
    free_list = t.next n;
    expires_at = update t.expires_at n expiry;
    callback = update t.callback n callback;
    arg = update t.arg n arg;
    next = update (update t.next n 0) n 0;
  }

  abbrev pub before : ℕ → Bool
  before x = leb (filled.expires_at x) (filled.expires_at n)

  fresh : NotIn n queue
  fresh = w.apart.0

  filled-queue : Chain filled.next t.head queue
  filled-queue =
      Chain-update (update t.next n 0) n 0 t.head queue
        (Chain-update t.next n 0 t.head queue w.queued fresh) fresh

  filled-free : Chain filled.next (t.next n) free
  filled-free =
      Chain-update (update t.next n 0) n 0 (t.next n) free
        (Chain-update t.next n 0 (t.next n) free w.unused.2 w.free_once.0) w.free_once.0

  insert-Ordered :
      Ordered (λ x y. filled.expires_at x ≤ filled.expires_at y) (insert before n queue)
  insert-Ordered =
      Ordered-insert before n (λ x y. filled.expires_at x ≤ filled.expires_at y) queue
        (λ x b. ground (arith, b)) (λ x b. ground (arith, b)) (λ x y h h'. omega (arith, h, h'))
        (Ordered-update (λ p q. p ≤ q) t.expires_at n expiry queue fresh w.ordered)

  -- Either way the rest of the invariant is the same, whatever the hardware timer is set to.
  IsTimers-insert :
      (f : ℕ → ℕ) (h p : ℕ) (b : Bool)
      → Chain f h (insert before n queue)
      → Chain f (t.next n) free
      → IsTimers
          (record filled { next = f; head = h; programmed = p; stie = b })
          (insert before n queue)
          free
  IsTimers-insert f h p b c c' = record {
    queued = c;
    unused = c';
    once = Nodup-insert before n queue fresh w.once;
    free_once = w.free_once.1;
    apart = Disjoint-insert before n free queue w.free_once.0 w.apart.1;
    total = omega (arith, w.total, length-insert before n queue);
    ordered = insert-Ordered;
  }

  abbrev pub front : Timers
  front = record filled { next = update filled.next n t.head; head = n }

  abbrev pub behind : Timers
  behind = record filled { next = link_after filled.next n (walk 33 filled.next before t.head) }

  front-IsTimers :
      ((t.head == 0) ≡ true) ⊎ (before t.head ≡ false)
      → let t' = timer_program_next_locked front in
        IsTimers t' (insert (λ x. leb (t'.expires_at x) (t'.expires_at n)) n queue) free
  unfolding timer_program_next_locked
  front-IsTimers h =
      IsTimers-insert front.next n _ true
        (Chain-insert_front filled.next before n t.head w.unused.1 queue filled-queue fresh h)
        (Chain-update filled.next n t.head (t.next n) free filled-free w.free_once.0)

  front-Added : Added t (timer_program_next_locked front) n callback arg expiry
  unfolding timer_program_next_locked
  front-Added = record { expires_is = refl; callback_is = refl; arg_is = refl; tick_is = refl }

  behind-IsTimers :
      (t.head == 0) ≡ false → before t.head ≡ true → IsTimers behind (insert before n queue) free
  behind-IsTimers full b =
      let done =
        Chain-insert_behind filled.next before n t.head w.unused.1 33 queue filled-queue w.once
          fresh (omega (arith, w.total)) full b in
      IsTimers-insert behind.next t.head t.programmed t.stie done.0 (
        Chain-Each behind.next filled.next (t.next n) free
          (Disjoint-Each (λ a. behind.next a ≡ filled.next a) n free queue w.free_once.0 w.apart.1
            done.1)
          filled-free)

  -- The new node is not the head.
  behind-Armed : (t.head == 0) ≡ false → Armed t → Armed behind
  unfolding next_event
  behind-Armed full (e, on) = (rw e (ground (arith, head_old)), on)
    where
      head_old : (t.head == n) ≡ false
      head_old = head-other t.next n t.head queue w.queued fresh full

-- With a callback, a number of seconds that is not negative and a free node, add_timer succeeds: the
-- node joins the queue behind the timers that expire no later and in front of the others, so the
-- queue stays in order of expiry; the hardware timer is set to the next event before and after; and
-- no other timer changes.
pub add_timer-IsTimers :
    {t : Timers} {queue free : List ℕ} (n now callback arg sec : ℕ)
    → callback ≢ 0
    → sec < 2 ^ 31
    → IsTimers t queue (n ∷ free)
    → Armed t
    → (t' : Timers) × (add_timer now callback arg sec t ≡ some t')
      × IsTimers t' (insert (λ x. leb (t'.expires_at x) (t'.expires_at n)) n queue) free
      × Armed t'
      × Added t t' n callback arg (u64 (now + u64 (sec * 24000000)))
unfolding add_timer timer_alloc_node
add_timer-IsTimers {t} {queue} {free} n now callback arg sec nz small w a =
    elim (Bool-cases ((t.head == 0) || ltb (s.expires_at n) (s.expires_at t.head))) [
      | inl first ↦ (
        timer_program_next_locked (front n callback arg expiry w),
        rw (given, w.unused.0, found, first) refl,
        front-IsTimers n callback arg expiry w (ground (arith, first)),
        timer_program_next_locked-Armed (front n callback arg expiry w),
        front-Added n callback arg expiry w,
      )
      | inr later ↦ (
        behind n callback arg expiry w,
        rw (given, w.unused.0, found, later) refl,
        behind-IsTimers n callback arg expiry w (ground (arith, later)) (ground (arith, later)),
        behind-Armed n callback arg expiry w (ground (arith, later)) a,
        record { expires_is = refl; callback_is = refl; arg_is = refl; tick_is = refl },
      )
    ]
  where
    expiry : ℕ
    expiry = u64 (now + u64 (sec * 24000000))

    s : Timers
    s = filled n callback arg expiry w

    given : ((callback == 0) || leb (2 ^ 31) sec) ≡ false
    given = ground arith

    found : (n == 0) ≡ false
    found = ground (arith, w.unused.1)
