-- ===== src/Initrd/Places.antt =====
-- The numbers in the headers that lab6/OrangePiVer/Src/initrd.c reads, and the places it finds with them.
use nycu_osc_lab.Prelude.{
  ℕ, zero, suc, ◌+◌, ◌-◌, ◌*◌, ◌/◌, ◌%◌, ◌^◌, ◌≤◌, ◌<◌, ◌≡◌, refl, u64, arith,
}
use nycu_osc_lab.KString.{hextoi, hextoi_loop, digit}
use nycu_osc_lab.User.{Memory}
use nycu_osc_lab.Initrd.{
  bytes_at, filesize, namesize, align_up_val, data_off, next_off, header_size,
}

-- The number of the `n` hexadecimal digits at `a`, with `r` for those before them.
abbrev hex_at : ℕ → ℕ → Memory → ℕ → ℕ
hex_at zero r m a = r
hex_at (suc n) r m a = hex_at n (r * 16 + digit (m a)) m (a + 1)

-- c_namesize and c_filesize of the header at `p`, and where, counted from there, the data of the entry
-- begins and the next entry does: both at a multiple of four.
abbrev pub name_size : Memory → ℕ → ℕ
name_size m p = hex_at 8 0 m (p + 94)

abbrev pub file_size : Memory → ℕ → ℕ
file_size m p = hex_at 8 0 m (p + 54)

abbrev pub data_place : Memory → ℕ → ℕ
data_place m p = (110 + name_size m p + 3) / 4 * 4

abbrev pub next_place : Memory → ℕ → ℕ
next_place m p = (data_place m p + file_size m p + 3) / 4 * 4

-- One digit more.
next_digit :
    (c b : ℕ) {x y : ℕ}
    → (x ≡ y) × (y < b)
    → b ≤ 2 ^ 56
    → ((x * 2 ^ 4 % 2 ^ 64 + digit c) % 2 ^ 64 ≡ y * 16 + digit c) × (y * 16 + digit c < 16 * b)
next_digit c b {x} {y} h small =
    let d : digit c < 16 = ground arith in (omega (arith, h, d), omega (arith, h, d))

hextoi-hex_at :
    (m : Memory) (a : ℕ) → (hextoi (bytes_at 8 m a) ≡ hex_at 8 0 m a) × (hex_at 8 0 m a < 2 ^ 32)
unfolding hextoi hextoi_loop bytes_at
hextoi-hex_at m a =
    next_digit (m (a + 1 + 1 + 1 + 1 + 1 + 1 + 1)) (2 ^ 28)
      (next_digit (m (a + 1 + 1 + 1 + 1 + 1 + 1)) (2 ^ 24)
        (next_digit (m (a + 1 + 1 + 1 + 1 + 1)) (2 ^ 20)
          (next_digit (m (a + 1 + 1 + 1 + 1)) (2 ^ 16)
            (next_digit (m (a + 1 + 1 + 1)) (2 ^ 12)
              (next_digit (m (a + 1 + 1)) (2 ^ 8)
                (next_digit (m (a + 1)) (2 ^ 4)
                  (next_digit (m a) 1 {x = 0} (refl, omega arith) (omega arith)) (omega arith))
                (omega arith))
              (omega arith))
            (omega arith))
          (omega arith))
        (omega arith))
      (omega arith)

pub namesize_eq : (m : Memory) (p : ℕ) → namesize m p ≡ name_size m p
unfolding namesize
namesize_eq m p = (hextoi-hex_at m (p + 94)).0

pub filesize_eq : (m : Memory) (p : ℕ) → filesize m p ≡ file_size m p
unfolding filesize
filesize_eq m p = (hextoi-hex_at m (p + 54)).0

pub data_off_eq : (m : Memory) (p : ℕ) → data_off m p ≡ data_place m p
unfolding data_off align_up_val
data_off_eq m p = data_place_of (name_size m p) (namesize_eq m p) (hextoi-hex_at m (p + 94)).1
  where
    data_place_of :
        (n : ℕ)
        → namesize m p ≡ n
        → n < 2 ^ 32
        → u64 (header_size + namesize m p + 4 - 1) / 4 * 4 ≡ (110 + n + 3) / 4 * 4
    data_place_of n e lt = omega (arith, e, lt)

pub next_off_eq : (m : Memory) (p : ℕ) → next_off m p ≡ next_place m p
unfolding next_off align_up_val
next_off_eq m p =
    next_place_of (data_place m p) (file_size m p) (name_size m p) (data_off_eq m p)
      (filesize_eq m p) (hextoi-hex_at m (p + 94)).1 (hextoi-hex_at m (p + 54)).1 refl
  where
    next_place_of :
        (d f n : ℕ)
        → data_off m p ≡ d
        → filesize m p ≡ f
        → n < 2 ^ 32
        → f < 2 ^ 32
        → d ≡ (110 + n + 3) / 4 * 4
        → u64 (data_off m p + filesize m p + 4 - 1) / 4 * 4 ≡ (d + f + 3) / 4 * 4
    next_place_of d f n e g n1 f1 h = omega (arith, e, g, n1, f1, h)
