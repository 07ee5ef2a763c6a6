-- ===== src/Initrd.antt =====
-- The cpio archive in lab6/OrangePiVer/Src/initrd.c, and the loading of a program from it in
-- user_loader.c. Memory is a function from addresses to bytes. The console output is left out.
mod Bytes
mod Entry
mod Find
mod Locate
mod Places
pub mod Load
pub mod Sample
mod Tests
use nycu_osc_lab.Prelude.{
  ℕ, zero, suc, ◌+◌, ◌-◌, ◌*◌, ◌/◌, ◌%◌, ◌^◌, Bool, true, false, not, ◌&&◌, ◌||◌, ltb, ◌==◌,
  if◌then◌else◌, update, Option, none, some, List, [], ◌∷◌, length, u64,
}
use nycu_osc_lab.KString.{kstrncmp, str_eq, hextoi}
use nycu_osc_lab.User.{Memory, mem_zero, mem_copy}

-- The first `n` characters at `a`, as far as the NUL.
pub string_at : ℕ → Memory → ℕ → List ℕ
string_at zero m a = []
string_at (suc n) m a = let rest = string_at n m (a + 1) in if m a == 0 then [] else m a ∷ rest

pub bytes_at : ℕ → Memory → ℕ → List ℕ
bytes_at zero m a = []
bytes_at (suc n) m a = m a ∷ bytes_at n m (a + 1)

-- str_eq of the string at `a` with `want`, of which it reads no more than one character beyond.
pub equals_at : Memory → ℕ → List ℕ → Bool
equals_at m a want = str_eq (string_at (suc (length want)) m a) want

-- sizeof(struct cpio_newc_header).
abbrev pub header_size : ℕ
header_size = 110

-- "070701" and "TRAILER!!!".
abbrev pub magic : List ℕ
magic = 48 ∷ 55 ∷ 48 ∷ 55 ∷ 48 ∷ 49 ∷ []

abbrev pub trailer : List ℕ
trailer = 84 ∷ 82 ∷ 65 ∷ 73 ∷ 76 ∷ 69 ∷ 82 ∷ 33 ∷ 33 ∷ 33 ∷ []

pub has_magic : Memory → ℕ → Bool
has_magic m p = kstrncmp (string_at 6 m p) magic 6 == 0

-- c_filesize and c_namesize.
pub filesize : Memory → ℕ → ℕ
filesize m p = hextoi (bytes_at 8 m (p + 54))

pub namesize : Memory → ℕ → ℕ
namesize m p = hextoi (bytes_at 8 m (p + 94))

-- For a power of two, as every caller has.
pub align_up_val : ℕ → ℕ → ℕ
align_up_val val align = u64 (val + align - 1) / align * align

pub filename_match : Memory → ℕ → List ℕ → Bool
filename_match m name want =
    equals_at m name want
    || ((m name == 46) && ((m (name + 1) == 47) && equals_at m (name + 2) want))

-- Where the data of the entry at `p` begins, and where the next entry does.
pub data_off : Memory → ℕ → ℕ
data_off m p = align_up_val (header_size + namesize m p) 4

pub next_off : Memory → ℕ → ℕ
next_off m p = align_up_val (data_off m p + filesize m p) 4

-- The loop of initrd_find_file, with fuel. The inner `none` is the result -1.
pub find_loop : ℕ → ℕ → List ℕ → Memory → ℕ → Option (Option (ℕ × ℕ))
find_loop zero end path m p = none
find_loop (suc fuel) end path m p =
    let name = p + header_size in
    let file_data = u64 (p + data_off m p) in
    let rest = find_loop fuel end path m (u64 (p + next_off m p)) in
    if ltb end (u64 (p + header_size))
    then some none
    else if not (has_magic m p)
    then some none
    else if ltb end (u64 (name + namesize m p))
    then some none
    else if equals_at m name trailer
    then some none
    else if ltb end (u64 (file_data + filesize m p))
    then some none
    else if filename_match m name path
    then some (some (file_data, filesize m p))
    else rest

-- The address and the size of the file. Each entry is longer than its header, so the fuel is enough.
pub initrd_find_file : ℕ → ℕ → List ℕ → Memory → Option (Option (ℕ × ℕ))
initrd_find_file start end path m =
    if (start == 0) || ((end == 0) || not (ltb start end))
    then some none
    else find_loop (suc (end - start)) end path m start

-- USER_PROG_BASE, USER_PROG_MAX_SIZE and USER_SIGTRAMP_BASE.
abbrev pub user_prog_base : ℕ
user_prog_base = 0x03000000

abbrev pub user_prog_max_size : ℕ
user_prog_max_size = 0x00400000

abbrev pub sigtramp_base : ℕ
sigtramp_base = 0x033ff000

-- An instruction, byte by byte.
pub put_code : ℕ → ℕ → Memory → Memory
put_code a code m =
    let m1 = update m a (code % 2 ^ 8) in
    let m2 = update m1 (a + 1) (code / 2 ^ 8 % 2 ^ 8) in
    let m3 = update m2 (a + 2) (code / 2 ^ 16 % 2 ^ 8) in update m3 (a + 3) (code / 2 ^ 24 % 2 ^ 8)

-- signal_install_trampoline, on bytes.
pub install_trampoline : Memory → Memory
install_trampoline m =
    put_code (sigtramp_base + 8) 0x0000006f
      (put_code (sigtramp_base + 4) 0x00000073 (put_code sigtramp_base 0x00b00893 m))

-- user_load_image_from_initrd from the point where it has searched the file; `false` is -1.
pub load_image : Memory → Option (ℕ × ℕ) → Bool × Memory
load_image m none = (false, m)
load_image m (some (file_data, file_size)) =
    let cleared = mem_zero user_prog_max_size 0 user_prog_base m in
    let loaded = mem_copy file_size 0 user_prog_base file_data cleared in
    if (file_size == 0) || ltb user_prog_max_size file_size
    then (false, m)
    else (true, install_trampoline loaded)

pub load_found : Memory → Option (Option (ℕ × ℕ)) → Option (Bool × Memory)
load_found m none = none
load_found m (some r) = some (load_image m r)

-- The path, `none` for NULL, and whether the place for the entry is not NULL. The outer `none` is the
-- search out of fuel. On success the entry is user_prog_base.
pub user_load_image_from_initrd : ℕ → ℕ → Option (List ℕ) → Bool → Memory → Option (Bool × Memory)
user_load_image_from_initrd start end none entry m = some (false, m)
user_load_image_from_initrd start end (some path) false m = some (false, m)
user_load_image_from_initrd start end (some path) true m =
    load_found m (initrd_find_file start end path m)
