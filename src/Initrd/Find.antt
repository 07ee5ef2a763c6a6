-- ===== src/Initrd/Find.antt =====
-- initrd_find_file of lab6/OrangePiVer/Src/initrd.c ends, and stays inside the archive.
use nycu_osc_lab.Prelude.{
  ℕ, zero, suc, ◌+◌, ◌-◌, ◌^◌, ◌≤◌, ◌<◌, ◌≡◌, ◌≢◌, refl, ◌∙◌, inl, inr, ltb, Option, none, some,
  List, arith, Bool-cases,
}
use nycu_osc_lab.User.{Memory}
use nycu_osc_lab.Initrd.{
  equals_at, header_size, trailer, has_magic, filesize, namesize, filename_match, data_off,
  next_off, find_loop, initrd_find_file,
}
use nycu_osc_lab.Initrd.Entry.{
  data_off_lem, next_off_lem, next_off_near, EntryAt, no_header, bad_magic, bad_name, at_trailer,
  bad_data, here, Finds, not_found, found, Finds-past, find_turn, fields,
}

module _ (fuel end : ℕ) (path : List ℕ) (m : Memory) (p : ℕ) (room : p + 2 ^ 34 < 2 ^ 64) where
  Searched : Type 0
  Searched =
      (r : Option (ℕ × ℕ)) × (find_loop (suc fuel) end path m p ≡ some r) × Finds m end path p r

  -- The last turn, or one before it.
  turn-Searched :
      (EntryAt m end p
        → (r : Option (ℕ × ℕ)) × (find_loop fuel end path m (p + next_off m p) ≡ some r)
          × Finds m end path (p + next_off m p) r)
      → Searched
  unfolding Searched
  turn-Searched rest = elim (Bool-cases (ltb end (p + header_size))) [
    | inl a ↦ (
      none,
      find_turn fuel end path m p room ∙ rw a refl,
      not_found p here (no_header (ground (arith, a))),
    )
    | inr a ↦ elim (Bool-cases (has_magic m p)) [
      | inr b ↦
          (none, find_turn fuel end path m p room ∙ rw (a, b) refl, not_found p here (bad_magic b))
      | inl b ↦ elim (Bool-cases (ltb end (p + header_size + namesize m p))) [
        | inl c ↦ (
          none,
          find_turn fuel end path m p room ∙ rw (a, b, c) refl,
          not_found p here (bad_name (ground (arith, c))),
        )
        | inr c ↦ elim (Bool-cases (equals_at m (p + header_size) trailer)) [
          | inl d ↦ (
            none,
            find_turn fuel end path m p room ∙ rw (a, b, c, d) refl,
            not_found p here (at_trailer d),
          )
          | inr d ↦ elim (Bool-cases (ltb end (p + data_off m p + filesize m p))) [
            | inl e ↦ (
              none,
              find_turn fuel end path m p room ∙ rw (a, b, c, d, e) refl,
              not_found p here (bad_data (ground (arith, e))),
            )
            | inr e ↦ elim (Bool-cases (filename_match m (p + header_size) path)) [
              | inl f ↦ (
                some (p + data_off m p, filesize m p),
                find_turn fuel end path m p room ∙ rw (a, b, c, d, e, f) refl,
                found p here (fields a b c d e) f,
              )
              | inr f ↦
                  let (r, g, w) = rest (fields a b c d e) in
                  (
                    r,
                    find_turn fuel end path m p room ∙ rw (a, b, c, d, e, f) g,
                    Finds-past (fields a b c d e) f w,
                  )
            ]
          ]
        ]
      ]
    ]
  ]

find_loop-Finds :
    (fuel end : ℕ) (path : List ℕ) (m : Memory) (p : ℕ)
    → end + 2 ^ 35 < 2 ^ 64
    → p < end + 2 ^ 34
    → 1 ≤ fuel
    → end < p + fuel
    → (r : Option (ℕ × ℕ)) × (find_loop fuel end path m p ≡ some r) × Finds m end path p r
unfolding Searched
find_loop-Finds zero end path m p room at some_fuel enough = absurd (omega arith)
find_loop-Finds (suc fuel) end path m p room at some_fuel enough =
    turn-Searched fuel end path m p (omega arith) (λ e.
      let inside = e.data_inside in
      let header = e.header in
      let next = next_off_lem m p in
      let offset = data_off_lem m p in
      find_loop-Finds fuel end path m (p + next_off m p) room
        (omega (arith, inside, next_off_near m p)) (omega (arith, header))
        (omega (arith, next, offset)))

find_file_loop :
    (start end : ℕ) (path : List ℕ) (m : Memory)
    → start ≢ 0
    → start < end
    → initrd_find_file start end path m ≡ find_loop (suc (end - start)) end path m start
unfolding initrd_find_file
find_file_loop start end path m a lt = ground (arith, a, lt)

-- For an archive in memory that does not reach to the last 2^35 addresses, initrd_find_file ends. The
-- result is the place and the size of the data of the first entry of that name, all of it inside the
-- archive, where the entries before it are whole and of other names; or there is none before the
-- trailer or the first entry that is no whole one.
pub initrd_find_file-Finds :
    (start end : ℕ) (path : List ℕ) (m : Memory)
    → start ≢ 0
    → start < end
    → end + 2 ^ 35 < 2 ^ 64
    → (r : Option (ℕ × ℕ)) × (initrd_find_file start end path m ≡ some r) × Finds m end path start r
initrd_find_file-Finds start end path m a lt room =
    let (r, e, f) =
      find_loop-Finds (suc (end - start)) end path m start room (omega arith) (omega arith)
        (omega arith) in
    (r, find_file_loop start end path m a lt ∙ e, f)
