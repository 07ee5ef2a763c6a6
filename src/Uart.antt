-- ===== src/Uart.antt =====
-- The UART driver of lab6/OrangePiVer/Src/uart.c: the receive and transmit ring buffers and the
-- transfers from and to the device. The register addresses are left out.
mod Ring
mod Print
mod Hex
mod Tests
use nycu_osc_lab.Prelude.{
  ℕ, zero, suc, ◌+◌, ◌-◌, ◌*◌, ◌/◌, ◌%◌, ◌^◌, ltb, Bool, true, false, not, ◌==◌, if◌then◌else◌,
  update, Option, none, some, List, [], ◌∷◌,
}

abbrev pub uart_buf_size : ℕ
uart_buf_size = 512

pub record Uart : Type 0 where
  pub rx_buf : ℕ → ℕ
  pub tx_buf : ℕ → ℕ
  pub rx_r : ℕ
  pub rx_w : ℕ
  pub tx_r : ℕ
  pub tx_w : ℕ
  pub uart_async_enabled : Bool
  pub rx_overflow : ℕ
  -- the flags IER_RX_ENABLE and IER_TX_ENABLE, and what has been written to the register THR
  pub rx_enable : Bool
  pub tx_enable : Bool
  pub sent : List ℕ

abbrev pub next_idx : ℕ → ℕ
next_idx idx = (idx + 1) % uart_buf_size

pub uart_init : Uart → Uart
uart_init u = record u {
  rx_r = 0;
  rx_w = 0;
  tx_r = 0;
  tx_w = 0;
  rx_overflow = 0;
  uart_async_enabled = false;
}

pub uart_enable_interrupt : Uart → Uart
uart_enable_interrupt u = record u {
  rx_r = 0;
  rx_w = 0;
  tx_r = 0;
  tx_w = 0;
  rx_overflow = 0;
  uart_async_enabled = true;
  rx_enable = true;
  tx_enable = false;
}

-- The loop of uart_tx_kick_locked: `ready` is how often the register LSR says that the device takes a
-- character.
pub kick_loop : ℕ → Uart → Uart
kick_loop zero u = u
kick_loop (suc ready) u =
    let rest =
      kick_loop ready (record u { sent = u.tx_buf u.tx_r ∷ u.sent; tx_r = next_idx u.tx_r }) in
    if u.tx_r == u.tx_w then u else rest

pub uart_tx_kick_locked : ℕ → Uart → Uart
uart_tx_kick_locked ready u =
    let u1 = kick_loop ready u in record u1 { tx_enable = not (u1.tx_r == u1.tx_w) }

-- One character goes to the receive buffer, or is counted as lost.
pub receive : ℕ → Uart → Uart
receive c u =
    let n = next_idx u.rx_w in
    if not (n == u.rx_r)
    then record u { rx_buf = update u.rx_buf u.rx_w c; rx_w = n }
    else record u { rx_overflow = (u.rx_overflow + 1) % 2 ^ 32 }

-- The loop of uart_handle_irq, with the characters that the device delivers until LSR_DR is clear.
pub receive_loop : List ℕ → Uart → Uart
receive_loop [] u = u
receive_loop (c ∷ incoming) u = receive_loop incoming (receive c u)

pub uart_handle_irq : List ℕ → ℕ → Uart → Uart
uart_handle_irq incoming ready u = uart_tx_kick_locked ready (receive_loop incoming u)

-- (c == '\r') ? '\n' : c
abbrev pub newline : ℕ → ℕ
newline c = if c == 13 then 10 else c

-- Reads the receive buffer.
pub read_rx : Uart → Option ℕ × Uart
read_rx u =
    if not (u.rx_r == u.rx_w)
    then (some (newline (u.rx_buf u.rx_r)), record u { rx_r = next_idx u.rx_r })
    else (none, u)

-- The case of uart_try_getc where the buffer is empty: when the device has something, the interrupt
-- handler's work is done by hand.
pub drain_rx : List ℕ → ℕ → Uart → Option ℕ × Uart
drain_rx [] ready u = (none, u)
drain_rx (c ∷ incoming) ready u = read_rx (uart_handle_irq (c ∷ incoming) ready u)

-- Polling mode: the first character that the device delivers.
pub poll_rx : List ℕ → Option ℕ
poll_rx [] = none
poll_rx (c ∷ incoming) = some (newline c)

-- With an `out` that is not NULL.
pub uart_try_getc : List ℕ → ℕ → Uart → Option ℕ × Uart
uart_try_getc incoming ready u =
    if not u.uart_async_enabled
    then (poll_rx incoming, u)
    else if not (u.rx_r == u.rx_w)
    then read_rx u
    else drain_rx incoming ready u

-- The characters that uart_putc sends for one.
pub uart_putc : ℕ → List ℕ
uart_putc c = if c == 10 then 13 ∷ 10 ∷ [] else c ∷ []

-- The loop that fills buf from its start; the last one stored is the first one to be printed.
pub dec_loop : ℕ → ℕ → List ℕ → List ℕ
dec_loop zero x buf = buf
dec_loop (suc fuel) x buf =
    let rest = dec_loop fuel (x / 10) ((48 + x % 10) ∷ buf) in if x == 0 then buf else rest

-- The characters of uart_dec. A 64-bit number has at most 20 digits.
pub uart_dec : ℕ → List ℕ
uart_dec x = if x == 0 then 48 ∷ [] else dec_loop 20 x []

-- for (i = 60; i >= 0; i -= 4), from i = 4 * (left - 1) on.
pub hex_loop : ℕ → ℕ → List ℕ
hex_loop zero x = []
hex_loop (suc left) x =
    let n = x / 2 ^ (4 * left) % 16 in (if ltb n 10 then 48 + n else 97 + n - 10) ∷ hex_loop left x

-- The characters of uart_hex, after "0x".
pub uart_hex : ℕ → List ℕ
uart_hex x = 48 ∷ 120 ∷ hex_loop 16 x
