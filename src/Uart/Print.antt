-- ===== src/Uart/Print.antt =====
-- The numbers that lab6/OrangePiVer/Src/uart.c prints.
use nycu_osc_lab.Prelude.{
  ℕ, zero, suc, ◌+◌, ◌-◌, ◌*◌, ◌/◌, ◌<◌, ◌≤◌, ◌≡◌, get_or, List, [], ◌∷◌, length,
}

-- What the digits stand for, read from the left with `v` before them.
abbrev pub value_from : ℕ → List ℕ → ℕ
value_from v [] = v
value_from v (c ∷ cs) = value_from (v * 10 + (c - 48)) cs

pub decimal : List ℕ → ℕ
decimal cs = value_from 0 cs

abbrev Short : ℕ → ℕ → Type 0
Short zero x = x ≡ 0
Short (suc fuel) x = Short fuel (x / 10)

-- Digits, of which the first is not 0.
abbrev Digits : List ℕ → Type 0
Digits cs = (i : ℕ) → i < length cs → (48 ≤ get_or cs i 48) × (get_or cs i 48 ≤ 57)
