-- ===== src/Initrd/Locate.antt =====
-- What initrd_find_file of lab6/OrangePiVer/Src/initrd.c finds, in the bytes of the archive.
use mathlib.Core.Path.{subst}
use nycu_osc_lab.Prelude.{ℕ, ◌+◌, ◌^◌, ◌≤◌, ◌<◌, ◌≡◌, ◌≢◌, sym, ap, ◌∙◌, Option, none, some, List}
use nycu_osc_lab.KString.Laws.{IsString}
use nycu_osc_lab.User.{Memory}
use nycu_osc_lab.Initrd.{magic, trailer, filesize, initrd_find_file}
use nycu_osc_lab.Initrd.Bytes.{
  IsBytes, BytesAt, StringAt, NameAt, equals_at_iff, has_magic_iff, filename_match_iff,
  trailer-IsString,
}
use nycu_osc_lab.Initrd.Places.{
  name_size, file_size, data_place, next_place, namesize_eq, filesize_eq, data_off_eq, next_off_eq,
}
use nycu_osc_lab.Initrd.Entry.{
  EntryAt, Ends, no_header, bad_magic, bad_name, at_trailer, bad_data, Passes, here, past, Finds,
  not_found, found,
}
use nycu_osc_lab.Initrd.Find.{initrd_find_file-Finds}

-- At `p` there is an entry: its header of 110 bytes, its name and its data are inside the archive, and it
-- is not the trailer.
pub record Whole (m : Memory) (end p : ℕ) : Type 0 where
  pub header : p + 110 ≤ end
  pub magic_is : BytesAt m p magic
  pub name_inside : p + 110 + name_size m p ≤ end
  pub not_trailer : StringAt m (p + 110) trailer → ⊥
  pub data_inside : p + data_place m p + file_size m p ≤ end

-- There is none at `p`.
pub data Stops (m : Memory) (end p : ℕ) : Type 0 where
  no_room : end < p + 110 → Stops m end p
  no_magic : (BytesAt m p magic → ⊥) → Stops m end p
  long_name : end < p + 110 + name_size m p → Stops m end p
  last : StringAt m (p + 110) trailer → Stops m end p
  long_data : end < p + data_place m p + file_size m p → Stops m end p

-- From the entry at `p`, past entries of other names, to `q`.
pub data Skips (m : Memory) (end : ℕ) (path : List ℕ) : ℕ → ℕ → Type 0 where
  stay : {p : ℕ} → Skips m end path p p
  skip :
      {p q : ℕ}
      → Whole m end p
      → (NameAt m (p + 110) path → ⊥)
      → Skips m end path (p + next_place m p) q
      → Skips m end path p q

-- The place and the size of the data of the first entry of that name, or none.
pub data Locates (m : Memory) (end : ℕ) (path : List ℕ) (p : ℕ) : Option (ℕ × ℕ) → Type 0 where
  missing : (q : ℕ) → Skips m end path p q → Stops m end q → Locates m end path p none
  located :
      {r : Option (ℕ × ℕ)} (q : ℕ)
      → Skips m end path p q
      → Whole m end q
      → NameAt m (q + 110) path
      → r ≡ some (q + data_place m q, file_size m q)
      → Locates m end path p r

module _ (m : Memory) (end : ℕ) (path : List ℕ) (b : IsBytes m) (h : IsString path) where
  EntryAt-Whole : {p : ℕ} → EntryAt m end p → Whole m end p
  EntryAt-Whole {p} e = record {
    header = e.header;
    magic_is = (has_magic_iff m p b).0 e.magic_is;
    name_inside = subst (λ n. p + 110 + n ≤ end) (namesize_eq m p) e.name_inside;
    not_trailer =
        λ k. cc (sym ((equals_at_iff m (p + 110) trailer b trailer-IsString).1 k) ∙ e.not_trailer);
    data_inside =
        subst (λ n. p + data_place m p + n ≤ end) (filesize_eq m p)
          (subst (λ n. p + n + filesize m p ≤ end) (data_off_eq m p) e.data_inside);
  }

  Ends-Stops : {p : ℕ} → Ends m end p → Stops m end p
  Ends-Stops {p} (no_header lt) = no_room lt
  Ends-Stops {p} (bad_magic e) = no_magic (λ k. cc (sym ((has_magic_iff m p b).1 k) ∙ e))
  Ends-Stops {p} (bad_name lt) = long_name (subst (λ n. end < p + 110 + n) (namesize_eq m p) lt)
  Ends-Stops {p} (at_trailer e) = last ((equals_at_iff m (p + 110) trailer b trailer-IsString).0 e)
  Ends-Stops {p} (bad_data lt) = long_data (
      subst (λ n. end < p + data_place m p + n) (filesize_eq m p)
        (subst (λ n. end < p + n + filesize m p) (data_off_eq m p) lt))

  Passes-Skips : {p q : ℕ} → Passes m end path p q → Skips m end path p q
  Passes-Skips here = stay
  Passes-Skips {p} {q} (past e other s) =
      skip (EntryAt-Whole e) (λ k. cc (sym ((filename_match_iff m (p + 110) path b h).1 k) ∙ other))
        (subst (λ n. Skips m end path (p + n) q) (next_off_eq m p) (Passes-Skips s))

  Finds-Locates : {p : ℕ} {r : Option (ℕ × ℕ)} → Finds m end path p r → Locates m end path p r
  Finds-Locates (not_found q s w) = missing q (Passes-Skips s) (Ends-Stops w)
  Finds-Locates (found q s e f) =
      located q (Passes-Skips s) (EntryAt-Whole e) ((filename_match_iff m (q + 110) path b h).0 f) (
        ap (λ n. some (q + n, filesize m q)) (data_off_eq m q)
        ∙ ap (λ n. some (q + data_place m q, n)) (filesize_eq m q))

-- For an archive of bytes that does not reach to the last 2^35 addresses, and a path without NUL:
-- initrd_find_file ends. An entry has the bytes 070701 of the magic number, its name behind the header of
-- 110 bytes and its data at the next multiple of four, and the next entry stands at the multiple of four
-- after that. The result is the place and the size of the data of the first entry named by the path, or
-- by "./" and the path, where it and those before it are inside the archive; or there is none before the
-- trailer or the first place without a whole entry.
pub initrd_find_file-Locates :
    (start end : ℕ) (path : List ℕ) (m : Memory)
    → IsBytes m
    → IsString path
    → start ≢ 0
    → start < end
    → end + 2 ^ 35 < 2 ^ 64
    → (r : Option (ℕ × ℕ)) × (initrd_find_file start end path m ≡ some r)
      × Locates m end path start r
initrd_find_file-Locates start end path m b h a lt room =
    let (r, e, f) = initrd_find_file-Finds start end path m a lt room in
    (r, e, Finds-Locates m end path b h f)
