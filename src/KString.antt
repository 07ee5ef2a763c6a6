-- ===== src/KString.antt =====
-- The string functions of lab6/OrangePiVer/Src/kstring.c. A string is the list of its characters, as
-- unsigned numbers, before the NUL; hextoi has the list of those that it reads.
pub mod Laws
mod Tests
use nycu_osc_lab.Prelude.{
  ℕ, zero, suc, ◌+◌, ◌-◌, ◌*◌, ◌%◌, ◌^◌, Bool, true, false, ◌&&◌, leb, ◌==◌, if◌then◌else◌, List,
  [], ◌∷◌,
}

-- The difference of two characters as the pattern of a 32-bit int.
abbrev pub difference : ℕ → ℕ → ℕ
difference a b = (a + 2 ^ 32 - b) % 2 ^ 32

pub kstrlen : List ℕ → ℕ
kstrlen [] = 0
kstrlen (c ∷ s) = suc (kstrlen s)

unfoldable pub kstrcmp : List ℕ → List ℕ → ℕ
kstrcmp [] [] = difference 0 0
kstrcmp [] (d ∷ b) = difference 0 d
kstrcmp (c ∷ a) [] = difference c 0
kstrcmp (c ∷ a) (d ∷ b) = let rest = kstrcmp a b in if c == d then rest else difference c d

unfoldable pub kstrncmp : List ℕ → List ℕ → ℕ → ℕ
kstrncmp a b zero = 0
kstrncmp [] [] (suc n) = difference 0 0
kstrncmp [] (d ∷ b) (suc n) = difference 0 d
kstrncmp (c ∷ a) [] (suc n) = difference c 0
kstrncmp (c ∷ a) (d ∷ b) (suc n) =
    let rest = kstrncmp a b n in if c == d then rest else difference c d

unfoldable pub str_eq : List ℕ → List ℕ → Bool
str_eq a b = kstrcmp a b == 0

pub starts_with : List ℕ → List ℕ → Bool
starts_with s [] = true
starts_with [] (p ∷ prefix) = false
starts_with (c ∷ s) (p ∷ prefix) = let rest = starts_with s prefix in if c == p then rest else false

pub skip_spaces : List ℕ → List ℕ
skip_spaces [] = []
skip_spaces (c ∷ s) = let rest = skip_spaces s in if c == 32 then rest else c ∷ s

-- The value of a hexadecimal digit; another character adds nothing.
abbrev pub digit : ℕ → ℕ
digit c =
    if leb 48 c && leb c 57
    then c - 48
    else if leb 97 c && leb c 102
    then c - 97 + 10
    else if leb 65 c && leb c 70
    then c - 65 + 10
    else 0

-- while (n-- > 0), on the n characters that it reads, with `r` from those before them.
unfoldable pub hextoi_loop : ℕ → List ℕ → ℕ
hextoi_loop r [] = r
hextoi_loop r (c ∷ s) = hextoi_loop ((r * 2 ^ 4 % 2 ^ 64 + digit c) % 2 ^ 64) s

-- The n characters from `s` on, whatever they are.
unfoldable pub hextoi : List ℕ → ℕ
hextoi s = hextoi_loop 0 s
