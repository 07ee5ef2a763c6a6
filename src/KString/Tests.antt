-- ===== src/KString/Tests.antt =====
-- The string functions of lab6/OrangePiVer/Src/kstring.c at concrete strings.
use nycu_osc_lab.Prelude.{ℕ, ◌≡◌, List, [], ◌∷◌, arith}
use nycu_osc_lab.KString.{kstrcmp, kstrncmp}
use nycu_osc_lab.KString.Laws.{IsString, take, kstrncmp-take}

-- "ls" and "lsx".
abbrev ls : List ℕ
ls = 108 ∷ 115 ∷ []

abbrev lsx : List ℕ
lsx = 108 ∷ 115 ∷ 120 ∷ []

ls-IsString : IsString ls
ls-IsString = (omega arith, omega arith, (omega arith, omega arith, tt))

lsx-IsString : IsString lsx
lsx-IsString =
    (omega arith, omega arith, (omega arith, omega arith, (omega arith, omega arith, tt)))

kstrncmp-take_example : kstrncmp ls lsx 2 ≡ kstrcmp (take 2 ls) (take 2 lsx)
kstrncmp-take_example = kstrncmp-take ls lsx 2
