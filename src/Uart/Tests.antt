-- ===== src/Uart/Tests.antt =====
-- The driver of lab6/OrangePiVer/Src/uart.c at concrete states.
use nycu_osc_lab.Prelude.{
  ℕ, List, ◌≡◌, refl, true, false, ◌==◌, if◌then◌else◌, [], ◌∷◌, length, arith,
}
use nycu_osc_lab.Uart.{Uart, receive_loop, uart_try_getc, uart_hex}
use nycu_osc_lab.KString.{hextoi}
use nycu_osc_lab.Uart.Ring.{
  Receives, Reads, all_offered, visible, receive_loop-Receives, uart_try_getc-Reads,
}
use nycu_osc_lab.Uart.Hex.{hextoi-uart_hex}

-- The buffer holds the characters 97 and 13, across its end.
abbrev two_received : Uart
two_received = record {
  rx_buf = λ i. if i == 511 then 97 else 13;
  tx_buf = λ i. 0;
  rx_r = 511;
  rx_w = 1;
  tx_r = 0;
  tx_w = 0;
  uart_async_enabled = true;
  rx_overflow = 0;
  rx_enable = true;
  tx_enable = false;
  sent = [];
}

two_received-Receives : Receives two_received (97 ∷ 13 ∷ [])
two_received-Receives = record {
  in_range = omega arith;
  small = omega arith;
  at_end = refl;
  holds = (refl, (refl, refl));
}

receive_loop-Receives_example :
    Receives (receive_loop (98 ∷ 99 ∷ []) two_received) (all_offered (97 ∷ 13 ∷ []) (98 ∷ 99 ∷ []))
receive_loop-Receives_example =
    receive_loop-Receives (98 ∷ 99 ∷ []) two_received (97 ∷ 13 ∷ []) two_received-Receives

uart_try_getc-Reads_example :
    Reads two_received (visible (97 ∷ 13 ∷ []) (98 ∷ [])) (uart_try_getc (98 ∷ []) 0 two_received)
uart_try_getc-Reads_example =
    uart_try_getc-Reads (98 ∷ []) 0 two_received (97 ∷ 13 ∷ []) refl two_received-Receives

hextoi-uart_hex_example :
    (s : List ℕ) × (uart_hex 3735928559 ≡ 48 ∷ 120 ∷ s) × (length s ≡ 16) × (hextoi s ≡ 3735928559)
hextoi-uart_hex_example = hextoi-uart_hex 3735928559 (omega arith)
