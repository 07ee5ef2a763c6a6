-- ===== src/Uart/Hex.antt =====
-- The hexadecimal numbers that uart_hex of lab6/OrangePiVer/Src/uart.c prints, and hextoi of
-- Src/kstring.c reads.
use native.Mathlib.Nat.{div-div-eq-div-mul, pow-suc, div-le_self}
use nycu_osc_lab.Prelude.{
  ℕ, zero, suc, ◌+◌, ◌-◌, ◌*◌, ◌/◌, ◌%◌, ◌^◌, ◌<◌, ◌≤◌, ◌≡◌, refl, sym, ap, ◌∙◌, ltb, if◌then◌else◌,
  List, ◌∷◌, length, arith,
}
use nycu_osc_lab.KString.{digit, hextoi_loop, hextoi}
use nycu_osc_lab.Uart.{hex_loop, uart_hex}

-- The character of a digit has its value.
digit_lem : (n : ℕ) → n < 16 → digit (if ltb n 10 then 48 + n else 97 + n - 10) ≡ n
digit_lem n h = ground arith

-- What is left of x without its k lowest digits.
abbrev top_digits : ℕ → ℕ → ℕ
top_digits k x = x / 2 ^ (4 * k)

four_bits : (k : ℕ) → 2 ^ (4 * suc k) ≡ 2 ^ (4 * k) * 16
four_bits k =
    let n = 4 * k in
    let e : 4 * suc k ≡ suc (suc (suc (suc n))) = omega arith in
    ap (λ i. 2 ^ i) e
    ∙ omega (
      arith,
      pow-suc 2 n,
      pow-suc 2 (suc n),
      pow-suc 2 (suc (suc n)),
      pow-suc 2 (suc (suc (suc n))),
    )

top_digits-suc : (k x : ℕ) → top_digits (suc k) x ≡ top_digits k x / 16
top_digits-suc k x = ap (λ n. x / n) (four_bits k) ∙ sym (div-div-eq-div-mul x (2 ^ (4 * k)) 16)

top_digits-le : (k x : ℕ) → top_digits k x ≤ x
top_digits-le k x = div-le_self x (2 ^ (4 * k))

joined : {y : ℕ} → y < 2 ^ 64 → (y / 16 * 2 ^ 4 % 2 ^ 64 + y % 16) % 2 ^ 64 ≡ y
joined h = omega arith

-- The digit that hex_loop prints next.
abbrev char : ℕ → ℕ
char n = if ltb n 10 then 48 + n else 97 + n - 10

next_digit :
    (k x : ℕ)
    → x < 2 ^ 64
    → (top_digits (suc k) x * 2 ^ 4 % 2 ^ 64 + digit (char (top_digits k x % 16))) % 2 ^ 64
      ≡ top_digits k x
next_digit k x h =
    let y = top_digits k x in
    ap (λ d. (top_digits (suc k) x * 2 ^ 4 % 2 ^ 64 + d) % 2 ^ 64)
      (digit_lem (y % 16) (omega arith))
    ∙ (ap (λ z. (z * 2 ^ 4 % 2 ^ 64 + y % 16) % 2 ^ 64) (top_digits-suc k x)
        ∙ joined (omega (arith, top_digits-le k x)))

hextoi_loop-hex_loop : (k x : ℕ) → x < 2 ^ 64 → hextoi_loop (top_digits k x) (hex_loop k x) ≡ x
unfolding hextoi_loop hex_loop
hextoi_loop-hex_loop zero x h = omega arith
hextoi_loop-hex_loop (suc k) x h =
    ap (λ r. hextoi_loop r (hex_loop k x)) (next_digit k x h) ∙ hextoi_loop-hex_loop k x h

-- uart_hex prints "0x" and digits from which hextoi reads the 64-bit number back.
pub hextoi-uart_hex :
    (x : ℕ)
    → x < 2 ^ 64
    → (s : List ℕ) × (uart_hex x ≡ 48 ∷ 120 ∷ s) × (length s ≡ 16) × (hextoi s ≡ x)
unfolding hextoi uart_hex hex_loop
hextoi-uart_hex x h = (
  hex_loop 16 x,
  refl,
  refl,
  ap (λ r. hextoi_loop r (hex_loop 16 x)) (omega arith) ∙ hextoi_loop-hex_loop 16 x h,
)
