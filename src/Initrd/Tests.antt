-- ===== src/Initrd/Tests.antt =====
-- Searches in an archive by lab6/OrangePiVer/Src/initrd.c, and the loading of a program from it.
use nycu_osc_lab.Prelude.{ℕ, ◌≡◌, refl, inl, Bool, true, Option, none, some, [], ◌∷◌, arith}
use nycu_osc_lab.KString.{kstrcmp, kstrncmp, str_eq, hextoi, hextoi_loop}
use nycu_osc_lab.User.{Memory}
use nycu_osc_lab.Initrd.{
  initrd_find_file, find_loop, has_magic, string_at, bytes_at, equals_at, filename_match, filesize,
  namesize, data_off, next_off, align_up_val, user_load_image_from_initrd,
}
use nycu_osc_lab.Initrd.Sample.{archive, archive-IsBytes}
use nycu_osc_lab.Initrd.Locate.{Locates, initrd_find_file-Locates}
use nycu_osc_lab.Initrd.Load.{Loads, user_load_image_from_initrd-Loads}

file_found : initrd_find_file 0x10000 0x10100 (97 ∷ []) archive ≡ some (some (0x10070, 1))
unfolding initrd_find_file find_loop has_magic string_at bytes_at equals_at filename_match filesize
    namesize data_off next_off align_up_val kstrcmp kstrncmp str_eq hextoi hextoi_loop
file_found = refl

file_missing : initrd_find_file 0x10000 0x10100 (98 ∷ []) archive ≡ some none
unfolding initrd_find_file find_loop has_magic string_at bytes_at equals_at filename_match filesize
    namesize data_off next_off align_up_val kstrcmp kstrncmp str_eq hextoi hextoi_loop
file_missing = refl

initrd_find_file-Locates_example :
    (r : Option (ℕ × ℕ)) × (initrd_find_file 0x10000 0x10100 (97 ∷ []) archive ≡ some r)
    × Locates archive 0x10100 (97 ∷ []) 0x10000 r
initrd_find_file-Locates_example =
    initrd_find_file-Locates 0x10000 0x10100 (97 ∷ []) archive archive-IsBytes
      (λ e. omega arith, omega arith, tt) (λ e. omega arith) (omega arith) (omega arith)

user_load_image_from_initrd-Loads_example :
    (r : Bool × Memory) × (user_load_image_from_initrd 0x10000 0x10100 (some (97 ∷ [])) true archive
      ≡ some r)
    × Loads archive 0x10000 0x10100 (some (97 ∷ [])) true r
user_load_image_from_initrd-Loads_example =
    user_load_image_from_initrd-Loads 0x10000 0x10100 (some (97 ∷ [])) true archive
      (λ e. omega arith) (omega arith) (omega arith) (inl (omega arith))
