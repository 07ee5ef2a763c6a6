-- ===== src/Initrd/Sample.antt =====
-- A cpio archive for lab6/OrangePiVer/Src/initrd.c at 0x10000: a file "a" with the byte 7, and the
-- trailer.
use nycu_osc_lab.Prelude.{
  ℕ, ◌+◌, ◌<◌, ◌≡◌, refl, Bool, true, ltb, ◌&&◌, ◌==◌, arith, if◌then◌else◌, List, [], ◌∷◌,
}
use nycu_osc_lab.User.{Memory}
use nycu_osc_lab.Initrd.Bytes.{IsBytes}
use nycu_osc_lab.Initrd.{magic, trailer}

abbrev put : List ℕ → ℕ → Memory → Memory
put [] at m = m
put (c ∷ s) at m = let rest = put s (at + 1) m in λ a. if a == at then c else rest a

-- The digits of the headers are all '0' but the last ones of the sizes.
abbrev zeros : Memory
zeros a = 48

-- The entry at 0x10000 has its name at 0x1006e and its data at 0x10070, the trailer is at 0x10074.
abbrev pub archive : Memory
archive = put magic 0x10000 (
    put (49 ∷ []) 0x1003d (
      put (50 ∷ []) 0x10065 (
        put (97 ∷ 0 ∷ 7 ∷ 0 ∷ []) 0x1006e (
          put magic 0x10074
            (put (66 ∷ []) 0x100d9 (put trailer 0x100e2 (put (0 ∷ []) 0x100ec zeros)))))))

abbrev all_bytes : List ℕ → Bool
all_bytes [] = true
all_bytes (c ∷ s) = let rest = all_bytes s in ltb c 256 && rest

put-IsBytes :
    (s : List ℕ) (at : ℕ) (m : Memory) → all_bytes s ≡ true → IsBytes m → IsBytes (put s at m)
put-IsBytes [] at m h b a = b a
put-IsBytes (c ∷ s) at m h b a =
    let rest : put s (at + 1) m a < 256 = put-IsBytes s (at + 1) m (ground (arith, h)) b a in
    ground (arith, h, rest)

pub archive-IsBytes : IsBytes archive
archive-IsBytes = put-IsBytes magic 0x10000 _ refl (
    put-IsBytes (49 ∷ []) 0x1003d _ refl (
      put-IsBytes (50 ∷ []) 0x10065 _ refl (
        put-IsBytes (97 ∷ 0 ∷ 7 ∷ 0 ∷ []) 0x1006e _ refl (
          put-IsBytes magic 0x10074 _ refl (
            put-IsBytes (66 ∷ []) 0x100d9 _ refl (
              put-IsBytes trailer 0x100e2 _ refl
                (put-IsBytes (0 ∷ []) 0x100ec zeros refl (λ a. omega arith))))))))
