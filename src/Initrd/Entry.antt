-- ===== src/Initrd/Entry.antt =====
-- The entries of a cpio archive as lab6/OrangePiVer/Src/initrd.c reads them, and one turn of its search.
use nycu_osc_lab.Prelude.{
  ℕ, suc, ◌+◌, ◌*◌, ◌%◌, ◌^◌, ◌≤◌, ◌<◌, ◌≡◌, refl, true, false, not, ltb, if◌then◌else◌, Option,
  none, some, List, u64, arith,
}
use nycu_osc_lab.KString.{hextoi, hextoi_loop, digit}
use nycu_osc_lab.User.{Memory}
use nycu_osc_lab.Initrd.{
  bytes_at, equals_at, header_size, trailer, has_magic, filesize, namesize, align_up_val,
  filename_match, data_off, next_off, find_loop,
}

digit_lt : (c : ℕ) → digit c < 16
digit_lt c = ground arith

next_digit : (r c bound : ℕ) → r < bound → (r * 2 ^ 4 % 2 ^ 64 + digit c) % 2 ^ 64 < 16 * bound
next_digit r c bound h = omega (arith, digit_lt c)

-- Eight digits make a number below 2^32.
hextoi_bound : (m : Memory) (a : ℕ) → hextoi (bytes_at 8 m a) < 2 ^ 32
unfolding hextoi hextoi_loop bytes_at
hextoi_bound m a = next_digit _ (m (a + 1 + 1 + 1 + 1 + 1 + 1 + 1)) _ (
    next_digit _ (m (a + 1 + 1 + 1 + 1 + 1 + 1)) _ (
      next_digit _ (m (a + 1 + 1 + 1 + 1 + 1)) _ (
        next_digit _ (m (a + 1 + 1 + 1 + 1)) _ (
          next_digit _ (m (a + 1 + 1 + 1)) _ (
            next_digit _ (m (a + 1 + 1)) _
              (next_digit _ (m (a + 1)) _ (next_digit 0 (m a) 1 (omega arith))))))))

filesize_bound : (m : Memory) (p : ℕ) → filesize m p < 2 ^ 32
unfolding filesize
filesize_bound m p = hextoi_bound m (p + 54)

namesize_bound : (m : Memory) (p : ℕ) → namesize m p < 2 ^ 32
unfolding namesize
namesize_bound m p = hextoi_bound m (p + 94)

pub data_off_lem :
    (m : Memory) (p : ℕ)
    → (header_size + namesize m p ≤ data_off m p) × (data_off m p < header_size + namesize m p + 4)
unfolding data_off align_up_val
data_off_lem m p = omega (arith, namesize_bound m p)

pub next_off_lem :
    (m : Memory) (p : ℕ)
    → (data_off m p + filesize m p ≤ next_off m p) × (next_off m p < 2 ^ 33 + 2 ^ 10)
unfolding next_off align_up_val
next_off_lem m p = omega (arith, namesize_bound m p, filesize_bound m p, data_off_lem m p)

pub next_off_near : (m : Memory) (p : ℕ) → next_off m p < data_off m p + filesize m p + 4
unfolding next_off align_up_val
next_off_near m p = omega (arith, namesize_bound m p, filesize_bound m p, data_off_lem m p)

-- The entry at `p` is whole, and is not the last.
pub record EntryAt (m : Memory) (end p : ℕ) : Type 0 where
  pub header : p + header_size ≤ end
  pub magic_is : has_magic m p ≡ true
  pub name_inside : p + header_size + namesize m p ≤ end
  pub not_trailer : equals_at m (p + header_size) trailer ≡ false
  pub data_inside : p + data_off m p + filesize m p ≤ end

-- What stops the search: no room for a header, no magic number, a name or data beyond the end of the
-- archive, or the trailer.
pub data Ends (m : Memory) (end p : ℕ) : Type 0 where
  no_header : end < p + header_size → Ends m end p
  bad_magic : has_magic m p ≡ false → Ends m end p
  bad_name : end < p + header_size + namesize m p → Ends m end p
  at_trailer : equals_at m (p + header_size) trailer ≡ true → Ends m end p
  bad_data : end < p + data_off m p + filesize m p → Ends m end p

-- From the entry at `p`, past whole entries of other names, to `q`.
pub data Passes (m : Memory) (end : ℕ) (path : List ℕ) : ℕ → ℕ → Type 0 where
  here : {p : ℕ} → Passes m end path p p
  past :
      {p q : ℕ}
      → EntryAt m end p
      → filename_match m (p + header_size) path ≡ false
      → Passes m end path (p + next_off m p) q
      → Passes m end path p q

-- The first entry of that name, or none.
pub data Finds (m : Memory) (end : ℕ) (path : List ℕ) (p : ℕ) : Option (ℕ × ℕ) → Type 0 where
  not_found : (q : ℕ) → Passes m end path p q → Ends m end q → Finds m end path p none
  found :
      (q : ℕ)
      → Passes m end path p q
      → EntryAt m end q
      → filename_match m (q + header_size) path ≡ true
      → Finds m end path p (some (q + data_off m q, filesize m q))

pub Finds-past :
    {m : Memory} {end : ℕ} {path : List ℕ} {p : ℕ} {r : Option (ℕ × ℕ)}
    → EntryAt m end p
    → filename_match m (p + header_size) path ≡ false
    → Finds m end path (p + next_off m p) r
    → Finds m end path p r
Finds-past e no_match (not_found q s w) = not_found q (past e no_match s) w
Finds-past e no_match (found q s at m) = found q (past e no_match s) at m

module _ (fuel end : ℕ) (path : List ℕ) (m : Memory) (p : ℕ) (room : p + 2 ^ 34 < 2 ^ 64) where
  word_head : u64 (p + header_size) ≡ p + header_size
  word_head = omega arith

  word_name : u64 (p + header_size + namesize m p) ≡ p + header_size + namesize m p
  word_name = omega (arith, namesize_bound m p)

  word_data : u64 (p + data_off m p) ≡ p + data_off m p
  word_data = omega (arith, data_off_lem m p, namesize_bound m p)

  word_end : u64 (p + data_off m p + filesize m p) ≡ p + data_off m p + filesize m p
  word_end = omega (arith, data_off_lem m p, namesize_bound m p, filesize_bound m p)

  word_next : u64 (p + next_off m p) ≡ p + next_off m p
  word_next = omega (arith, next_off_lem m p)

  -- One turn of the loop.
  pub find_turn : find_loop (suc fuel) end path m p ≡ (
      if ltb end (p + header_size)
      then some none
      else if not (has_magic m p)
      then some none
      else if ltb end (p + header_size + namesize m p)
      then some none
      else if equals_at m (p + header_size) trailer
      then some none
      else if ltb end (p + data_off m p + filesize m p)
      then some none
      else if filename_match m (p + header_size) path
      then some (some (p + data_off m p, filesize m p))
      else find_loop fuel end path m (p + next_off m p))
  unfolding find_loop
  find_turn = rw (word_head, word_name, word_data, word_end, word_next) refl

pub fields :
    {end : ℕ} {m : Memory} {p : ℕ}
    → ltb end (p + header_size) ≡ false
    → has_magic m p ≡ true
    → ltb end (p + header_size + namesize m p) ≡ false
    → equals_at m (p + header_size) trailer ≡ false
    → ltb end (p + data_off m p + filesize m p) ≡ false
    → EntryAt m end p
fields a b c d e = record {
  header = ground (arith, a);
  magic_is = b;
  name_inside = ground (arith, c);
  not_trailer = d;
  data_inside = ground (arith, e);
}
