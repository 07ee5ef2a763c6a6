-- ===== src/Uart/Ring.antt =====
-- The ring buffers of lab6/OrangePiVer/Src/uart.c are queues of at most 511 characters.
use mathlib.Core.Path.{subst}
use nycu_osc_lab.Prelude.{
  ℕ, zero, suc, ◌+◌, ◌%◌, ◌<◌, ◌≡◌, refl, ap, ◌∙◌, inl, inr, Bool, true, false, not, ◌==◌, ltb,
  if◌then◌else◌, update, Option, none, some, List, [], ◌∷◌, ◌++◌, length, length-append, Bool-cases,
  arith,
}
use nycu_osc_lab.Uart.{
  Uart, next_idx, newline, receive, receive_loop, read_rx, uart_tx_kick_locked, kick_loop,
  uart_handle_irq, drain_rx, poll_rx, uart_try_getc,
}

-- From the index `r` on, the buffer holds the characters of the list, up to `w`.
abbrev pub Holds : (ℕ → ℕ) → ℕ → ℕ → List ℕ → Type 0
Holds buf r w [] = w ≡ r
Holds buf r w (c ∷ cs) = (buf r ≡ c) × Holds buf (next_idx r) w cs

-- The receive buffer holds the characters of the list, the first one to be read first.
pub record Receives (u : Uart) (cs : List ℕ) : Type 0 where
  pub in_range : u.rx_r < 512
  pub small : length cs < 512
  pub at_end : u.rx_w ≡ (u.rx_r + length cs) % 512
  pub holds : Holds u.rx_buf u.rx_r u.rx_w cs

Holds-append :
    (buf : ℕ → ℕ) (c r w : ℕ) (cs : List ℕ)
    → r < 512
    → length cs < 512
    → w ≡ (r + length cs) % 512
    → Holds buf r w cs
    → Holds (update buf w c) r (next_idx w) (cs ++ c ∷ [])
Holds-append buf c r w [] lt small e h = (ground (arith, h), ground (arith, h))
Holds-append buf c r w (d ∷ cs) lt small e h =
    let ne : (r == w) ≡ false = ground arith in
    (
      ground (arith, ne, h.0),
      Holds-append buf c (next_idx r) w cs (omega arith) (omega arith) (omega arith) h.1,
    )

-- What a queue of at most 511 characters does with one more.
abbrev pub offered : List ℕ → ℕ → List ℕ
offered cs c = if ltb (length cs) 511 then cs ++ c ∷ [] else cs

abbrev pub all_offered : List ℕ → List ℕ → List ℕ
all_offered cs [] = cs
all_offered cs (c ∷ incoming) = all_offered (offered cs c) incoming

receive-Receives :
    (c : ℕ) (u : Uart) (cs : List ℕ) → Receives u cs → Receives (receive c u) (offered cs c)
unfolding receive
receive-Receives c u cs w = elim (Bool-cases (next_idx u.rx_w == u.rx_r)) [
  | inl full ↦
      let many : ltb (length cs) 511 ≡ false =
        ground (arith, full, w.at_end, w.small, w.in_range) in
      rw (full, many)
        (record { in_range = w.in_range; small = w.small; at_end = w.at_end; holds = w.holds })
  | inr room ↦
      let few : ltb (length cs) 511 ≡ true = ground (arith, room, w.at_end, w.small, w.in_range) in
      let longer : length (cs ++ c ∷ []) ≡ length cs + 1 = length-append cs (c ∷ []) in
      rw (room, few)
        (record {
          in_range = w.in_range;
          small = ground (arith, longer, few);
          at_end = omega (arith, longer, w.at_end, w.in_range);
          holds = Holds-append u.rx_buf c u.rx_r u.rx_w cs w.in_range w.small w.at_end w.holds;
        })
]

-- The receive loop of the interrupt handler puts the characters that arrive behind those of the
-- buffer, in order, and drops the ones that come when it holds 511.
pub receive_loop-Receives :
    (incoming : List ℕ) (u : Uart) (cs : List ℕ)
    → Receives u cs
    → Receives (receive_loop incoming u) (all_offered cs incoming)
unfolding receive_loop
receive_loop-Receives [] u cs w = w
receive_loop-Receives (c ∷ incoming) u cs w =
    receive_loop-Receives incoming (receive c u) (offered cs c) (receive-Receives c u cs w)

-- What reading the buffer gives.
abbrev pub Reads : Uart → List ℕ → Option ℕ × Uart → Type 0
Reads u [] r = r ≡ (none, u)
Reads u (c ∷ cs) r = (r.0 ≡ some (newline c)) × Receives r.1 cs

-- Reading the receive buffer takes its first character, a carriage return as a newline, and leaves
-- the others; from an empty buffer it takes nothing and changes nothing.
pub read_rx-Reads : (u : Uart) (cs : List ℕ) → Receives u cs → Reads u cs (read_rx u)
unfolding read_rx
read_rx-Reads u [] w =
    let empty : (u.rx_r == u.rx_w) ≡ true = ground (arith, w.holds) in rw empty refl
read_rx-Reads u (c ∷ cs) w =
    let full : (u.rx_r == u.rx_w) ≡ false = ground (arith, w.at_end, w.small, w.in_range) in
    rw full (
      rw w.holds.0 refl,
      record {
        in_range = omega arith;
        small = omega (arith, w.small);
        at_end = omega (arith, w.at_end, w.in_range);
        holds = w.holds.1;
      },
    )

-- The transmit side leaves the receive buffer alone.
kick_loop-Receives :
    (ready : ℕ) (u : Uart) (cs : List ℕ) → Receives u cs → Receives (kick_loop ready u) cs
unfolding kick_loop
kick_loop-Receives zero u cs w = w
kick_loop-Receives (suc ready) u cs w = elim (Bool-cases (u.tx_r == u.tx_w)) [
  | inl done ↦ rw done w
  | inr more ↦ rw more (
      kick_loop-Receives ready
        (record u { sent = u.tx_buf u.tx_r ∷ u.sent; tx_r = next_idx u.tx_r }) cs
        (record { in_range = w.in_range; small = w.small; at_end = w.at_end; holds = w.holds }))
]

uart_tx_kick_locked-Receives :
    (ready : ℕ) (u : Uart) (cs : List ℕ) → Receives u cs → Receives (uart_tx_kick_locked ready u) cs
unfolding uart_tx_kick_locked
uart_tx_kick_locked-Receives ready u cs w =
    let k = kick_loop-Receives ready u cs w in
    record { in_range = k.in_range; small = k.small; at_end = k.at_end; holds = k.holds }

try_getc_branch :
    (incoming : List ℕ) (ready : ℕ) (u : Uart) (b : Bool)
    → u.uart_async_enabled ≡ true
    → (u.rx_r == u.rx_w) ≡ b
    → uart_try_getc incoming ready u ≡ (if not b then read_rx u else drain_rx incoming ready u)
unfolding uart_try_getc
try_getc_branch incoming ready u b on e =
    ap
      (λ a.
        if not a
        then (poll_rx incoming, u)
        else if not (u.rx_r == u.rx_w)
        then read_rx u
        else drain_rx incoming ready u)
      on
    ∙ ap (λ a. if not a then read_rx u else drain_rx incoming ready u) e

-- What a call of uart_try_getc sees: the buffer, or when that is empty what the device delivers.
abbrev pub visible : List ℕ → List ℕ → List ℕ
visible [] incoming = all_offered [] incoming
visible (c ∷ cs) incoming = c ∷ cs

all_offered-head :
    (c : ℕ) (cs incoming : List ℕ) → (ys : List ℕ) × (all_offered (c ∷ cs) incoming ≡ c ∷ ys)
all_offered-head c cs [] = (cs, refl)
all_offered-head c cs (d ∷ incoming) = elim (Bool-cases (ltb (length (c ∷ cs)) 511)) [
  | inl few ↦ rw few (all_offered-head c (cs ++ d ∷ []) incoming)
  | inr many ↦ rw many (all_offered-head c cs incoming)
]

-- In interrupt mode uart_try_getc takes the first character of the buffer, and when the buffer is
-- empty the first one that the device has, with the others put into the buffer; it fails only when
-- both have none.
pub uart_try_getc-Reads :
    (incoming : List ℕ) (ready : ℕ) (u : Uart) (cs : List ℕ)
    → u.uart_async_enabled ≡ true
    → Receives u cs
    → Reads u (visible cs incoming) (uart_try_getc incoming ready u)
unfolding uart_try_getc drain_rx uart_handle_irq
uart_try_getc-Reads incoming ready u (c ∷ cs) on w =
    let full : (u.rx_r == u.rx_w) ≡ false = ground (arith, w.at_end, w.small, w.in_range) in
    rw (try_getc_branch incoming ready u false on full) (read_rx-Reads u (c ∷ cs) w)
uart_try_getc-Reads [] ready u [] on w =
    let empty : (u.rx_r == u.rx_w) ≡ true = ground (arith, w.holds) in
    rw (try_getc_branch [] ready u true on empty) refl
uart_try_getc-Reads (d ∷ incoming) ready u [] on w =
    let empty : (u.rx_r == u.rx_w) ≡ true = ground (arith, w.holds) in
    let handled = uart_handle_irq (d ∷ incoming) ready u in
    let h = read_rx-Reads handled (all_offered [] (d ∷ incoming)) (
      uart_tx_kick_locked-Receives ready (receive_loop (d ∷ incoming) u)
        (all_offered [] (d ∷ incoming)) (receive_loop-Receives (d ∷ incoming) u [] w)) in
    let (ys, e) = all_offered-head d [] incoming in
    rw (try_getc_branch (d ∷ incoming) ready u true on empty, e)
      (subst (λ l. Reads handled l (read_rx handled)) e h)
