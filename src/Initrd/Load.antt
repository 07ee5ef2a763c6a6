-- ===== src/Initrd/Load.antt =====
-- user_load_image_from_initrd of lab6/OrangePiVer/Src/user_loader.c.
use mathlib.Core.Path.{subst}
use nycu_osc_lab.Prelude.{
  ℕ, ◌+◌, ◌*◌, ◌^◌, ◌≤◌, ◌<◌, ◌≡◌, ◌≢◌, refl, sym, ◌∙◌, ◌⊎◌, inl, inr, Bool, true, false, ◌||◌, ltb,
  ◌==◌, Option, none, some, List, arith, Bool-cases,
}
use nycu_osc_lab.User.{Memory, mem_zero, mem_copy}
use nycu_osc_lab.User.Copy.{mem_copy_in, mem_copy_out, mem_zero_in, mem_zero_out}
use nycu_osc_lab.Initrd.{
  initrd_find_file, user_prog_base, user_prog_max_size, sigtramp_base, put_code, install_trampoline,
  load_image, load_found, user_load_image_from_initrd,
}
use nycu_osc_lab.Initrd.Entry.{Passes, here, past, Finds, found}
use nycu_osc_lab.Initrd.Find.{initrd_find_file-Finds}

Passes-le : {m : Memory} {end : ℕ} {path : List ℕ} {p q : ℕ} → Passes m end path p q → p ≤ q
Passes-le here = omega arith
Passes-le (past e f s) = let h = Passes-le s in omega (arith, h)

-- What is found lies in the archive.
found_inside :
    {m : Memory} {start end : ℕ} {path : List ℕ} {file_data file_size : ℕ}
    → Finds m end path start (some (file_data, file_size))
    → (start ≤ file_data) × (file_data + file_size ≤ end)
found_inside {m} (found q s e f) = (omega (arith, Passes-le s), omega (arith, e.data_inside))

-- A word, from its bytes.
abbrev pub code_at : Memory → ℕ → ℕ
code_at m a = m a + m (a + 1) * 2 ^ 8 + m (a + 2) * 2 ^ 16 + m (a + 3) * 2 ^ 24

-- The program area but for the trampoline's 12 bytes.
abbrev pub NotTrampoline : ℕ → Type 0
NotTrampoline k = (k < 0x3ff000) ⊎ (0x3ff00c ≤ k)

-- The program area holds the file and zeros, but for the trampoline, which is that of signals.
pub record Loaded (m m' : Memory) (file_data file_size : ℕ) : Type 0 where
  pub file : (k : ℕ) → k < file_size → NotTrampoline k → m' (user_prog_base + k) ≡ m (file_data + k)
  pub zeros :
      (k : ℕ)
      → file_size ≤ k
      → k < user_prog_max_size
      → NotTrampoline k
      → m' (user_prog_base + k) ≡ 0
  pub calls : code_at m' sigtramp_base ≡ 0x00b00893
  pub enters : code_at m' (sigtramp_base + 4) ≡ 0x00000073
  pub stays : code_at m' (sigtramp_base + 8) ≡ 0x0000006f
  pub elsewhere :
      (a : ℕ) → (a < user_prog_base) ⊎ (user_prog_base + user_prog_max_size ≤ a) → m' a ≡ m a

install_out :
    (m : Memory) (a : ℕ)
    → (a < sigtramp_base) ⊎ (sigtramp_base + 12 ≤ a)
    → install_trampoline m a ≡ m a
unfolding install_trampoline put_code
install_out m a h = ground (arith, h)

install_codes :
    (m : Memory)
    → (code_at (install_trampoline m) sigtramp_base ≡ 0x00b00893)
      × (code_at (install_trampoline m) (sigtramp_base + 4) ≡ 0x00000073)
      × (code_at (install_trampoline m) (sigtramp_base + 8) ≡ 0x0000006f)
unfolding install_trampoline put_code
install_codes m = (refl, refl, refl)

module _ (m : Memory) (file_data file_size : ℕ) (small : file_size ≤ user_prog_max_size)
    (apart : (file_data + file_size ≤ user_prog_base)
      ⊎ (user_prog_base + user_prog_max_size ≤ file_data)) where
  loaded : Memory
  loaded = install_trampoline (
      mem_copy file_size 0 user_prog_base file_data
        (mem_zero user_prog_max_size 0 user_prog_base m))

  loaded-Loaded : Loaded m loaded file_data file_size
  unfolding loaded
  loaded-Loaded =
      let cleared = mem_zero user_prog_max_size 0 user_prog_base m in
      let copied = mem_copy file_size 0 user_prog_base file_data cleared in
      let codes = install_codes copied in
      record {
        file = λ k lt apart_k.
            install_out copied (user_prog_base + k) (omega (arith, apart_k))
            ∙ (mem_copy_in file_size 0 user_prog_base file_data file_size k cleared (omega arith)
                  (omega (arith, apart, small)) (omega arith) lt
                ∙ mem_zero_out user_prog_max_size 0 user_prog_base (file_data + k) m
                    (omega (arith, apart)));
        zeros = λ k ge below apart_k.
            install_out copied (user_prog_base + k) (omega (arith, apart_k))
            ∙ (mem_copy_out file_size 0 user_prog_base file_data (user_prog_base + k) cleared
                  (inr (omega arith))
                ∙ mem_zero_in user_prog_max_size 0 user_prog_base k m (omega arith) (omega arith));
        calls = codes.0;
        enters = codes.1;
        stays = codes.2;
        elsewhere = λ a out.
            install_out copied a (omega (arith, out))
            ∙ (mem_copy_out file_size 0 user_prog_base file_data a cleared
                  (omega (arith, out, small))
                ∙ mem_zero_out user_prog_max_size 0 user_prog_base a m (omega (arith, out)));
      }

-- What user_load_image_from_initrd does. `false` is its -1.
pub data Loads (m : Memory) (start end : ℕ) (path : Option (List ℕ)) (entry : Bool)
    : Bool × Memory → Type 0 where
  null_pointer : (path ≡ none) ⊎ (entry ≡ false) → Loads m start end path entry (false, m)
  no_file :
      {name : List ℕ}
      → path ≡ some name
      → Finds m end name start none
      → Loads m start end path entry (false, m)
  bad_size :
      {name : List ℕ} (file_data file_size : ℕ)
      → path ≡ some name
      → Finds m end name start (some (file_data, file_size))
      → (file_size ≡ 0) ⊎ (user_prog_max_size < file_size)
      → Loads m start end path entry (false, m)
  loads :
      {name : List ℕ} (file_data file_size : ℕ) {m' : Memory}
      → path ≡ some name
      → entry ≡ true
      → Finds m end name start (some (file_data, file_size))
      → 0 < file_size
      → file_size ≤ user_prog_max_size
      → Loaded m m' file_data file_size
      → Loads m start end path entry (true, m')

load_image_bad :
    (m : Memory) (file_data file_size : ℕ)
    → ((file_size == 0) || ltb user_prog_max_size file_size) ≡ true
    → load_image m (some (file_data, file_size)) ≡ (false, m)
unfolding load_image
load_image_bad m file_data file_size h = rw h refl

load_image_good :
    (m : Memory) (file_data file_size : ℕ) (small : file_size ≤ user_prog_max_size)
    (apart : (file_data + file_size ≤ user_prog_base)
      ⊎ (user_prog_base + user_prog_max_size ≤ file_data))
    → ((file_size == 0) || ltb user_prog_max_size file_size) ≡ false
    → load_image m (some (file_data, file_size)) ≡ (true, loaded m file_data file_size small apart)
unfolding load_image loaded
load_image_good m file_data file_size small apart h = rw h refl

load_image_missing : (m : Memory) → load_image m none ≡ (false, m)
unfolding load_image
load_image_missing m = refl

load_image-Loads :
    {m : Memory} {start end : ℕ} {path : List ℕ} (r : Option (ℕ × ℕ))
    → Finds m end path start r
    → (end ≤ user_prog_base) ⊎ (user_prog_base + user_prog_max_size ≤ start)
    → Loads m start end (some path) true (load_image m r)
load_image-Loads {m} {start} {end} {path} none f apart =
    subst (Loads m start end (some path) true) (sym (load_image_missing m)) (no_file refl f)
load_image-Loads {m} {start} {end} {path} (some (file_data, file_size)) f apart =
    elim (Bool-cases ((file_size == 0) || ltb user_prog_max_size file_size)) [
      | inl bad ↦
          subst (Loads m start end (some path) true)
            (sym (load_image_bad m file_data file_size bad))
            (bad_size file_data file_size refl f (ground (arith, bad)))
      | inr good ↦
          let inside = found_inside f in
          let small : file_size ≤ user_prog_max_size = ground (arith, good) in
          let away : (file_data + file_size ≤ user_prog_base)
              ⊎ (user_prog_base + user_prog_max_size ≤ file_data) =
            ground (arith, apart, inside) in
          subst (Loads m start end (some path) true)
            (sym (load_image_good m file_data file_size small away good))
            (loads file_data file_size refl refl f (ground (arith, good)) small
              (loaded-Loaded m file_data file_size small away))
    ]

load_found_form :
    (start end : ℕ) (path : List ℕ) (m : Memory) (r : Option (ℕ × ℕ))
    → initrd_find_file start end path m ≡ some r
    → user_load_image_from_initrd start end (some path) true m ≡ some (load_image m r)
unfolding user_load_image_from_initrd load_found
load_found_form start end path m r e = rw e refl

null_path :
    (start end : ℕ) (entry : Bool) (m : Memory)
    → user_load_image_from_initrd start end none entry m ≡ some (false, m)
unfolding user_load_image_from_initrd
null_path start end entry m = refl

null_entry :
    (start end : ℕ) (path : List ℕ) (m : Memory)
    → user_load_image_from_initrd start end (some path) false m ≡ some (false, m)
unfolding user_load_image_from_initrd
null_entry start end path m = refl

-- For an archive in memory apart from the program area, and not in the last 2^35 addresses:
-- user_load_image_from_initrd ends. It fails and changes nothing when the path or the place for the entry
-- is NULL, there is no such file, or its size is 0 or beyond USER_PROG_MAX_SIZE. Otherwise the signal
-- trampoline is at the start of the last page of the program area, whose other bytes are those of the
-- file and zeros behind it, and no byte outside changes. A file that reaches into the last page is not
-- refused: the 12 bytes of the trampoline take the place of its own.
pub user_load_image_from_initrd-Loads :
    (start end : ℕ) (path : Option (List ℕ)) (entry : Bool) (m : Memory)
    → start ≢ 0
    → start < end
    → end + 2 ^ 35 < 2 ^ 64
    → (end ≤ user_prog_base) ⊎ (user_prog_base + user_prog_max_size ≤ start)
    → (r : Bool × Memory) × (user_load_image_from_initrd start end path entry m ≡ some r)
      × Loads m start end path entry r
user_load_image_from_initrd-Loads start end none entry m a lt room apart =
    ((false, m), null_path start end entry m, null_pointer (inl refl))
user_load_image_from_initrd-Loads start end (some path) false m a lt room apart =
    ((false, m), null_entry start end path m, null_pointer (inr refl))
user_load_image_from_initrd-Loads start end (some path) true m a lt room apart =
    let (r, e, f) = initrd_find_file-Finds start end path m a lt room in
    (load_image m r, load_found_form start end path m r e, load_image-Loads r f apart)
