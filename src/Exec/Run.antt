-- ===== src/Exec/Run.antt =====
-- What user_process_create_from_file and user_exec_current of lab6/OrangePiVer/Src/user.c do.
use nycu_osc_lab.Prelude.{
  ℕ, ◌+◌, ◌^◌, ◌≤◌, ◌<◌, ◌≡◌, ◌≢◌, refl, ap, ◌∙◌, ◌⊎◌, inl, inr, Bool, true, false, ◌==◌, Option,
  some, List, Bool-cases,
}
use nycu_osc_lab.Thread.State.{TaskPtr, Threads, Layout}
use nycu_osc_lab.Thread.Wf.{Sound}
use nycu_osc_lab.Thread.{thread_create}
use nycu_osc_lab.User.{Memory, user_process_create}
use nycu_osc_lab.User.Create.{Starts, user_process_create-Starts}
use nycu_osc_lab.Initrd.{user_prog_base, user_prog_max_size, user_load_image_from_initrd}
use nycu_osc_lab.Initrd.Load.{Loads, user_load_image_from_initrd-Loads}
use nycu_osc_lab.Exec.{create_loaded, user_process_create_from_file}

-- The archive is in memory, apart from the program area, and not in the last 2^35 addresses.
pub record Archive (start end : ℕ) : Type 0 where
  pub some_start : start ≢ 0
  pub not_empty : start < end
  pub room : end + 2 ^ 35 < 2 ^ 64
  pub apart : (end ≤ user_prog_base) ⊎ (user_prog_base + user_prog_max_size ≤ start)

-- Nothing is made where the image cannot be loaded; otherwise a process is made for it.
pub data StartsFile (l : Layout) (sstatus start end : ℕ) (path : Option (List ℕ)) (m : Memory)
    (t : Threads) : TaskPtr × Memory × Threads → Type 0 where
  no_image :
      {m1 : Memory}
      → Loads m start end path true (false, m1)
      → StartsFile l sstatus start end path m t (0, m1, t)
  starts :
      {m1 : Memory} {r : TaskPtr × Memory × Threads}
      → Loads m start end path true (true, m1)
      → Starts l sstatus user_prog_base m1 t r
      → StartsFile l sstatus start end path m t r

create_loaded_good :
    (l : Layout) (sstatus : ℕ) (m : Memory) (t : Threads)
    → create_loaded l sstatus t (some (true, m))
      ≡ some (user_process_create l sstatus user_prog_base m t)
unfolding create_loaded user_process_create
create_loaded_good l sstatus m t =
    elim (Bool-cases ((thread_create l l.user_process_entry t).0 == 0)) [
      | inl e ↦ rw e refl
      | inr e ↦ rw e refl
    ]

create_loaded_bad :
    (l : Layout) (sstatus : ℕ) (m : Memory) (t : Threads)
    → create_loaded l sstatus t (some (false, m)) ≡ some (0, m, t)
unfolding create_loaded
create_loaded_bad l sstatus m t = refl

create_loaded-StartsFile :
    (l : Layout) (sstatus : ℕ) {start end : ℕ} {path : Option (List ℕ)} {m : Memory} {t : Threads}
    (loaded : Bool × Memory)
    → Sound t
    → Loads m start end path true loaded
    → (r : TaskPtr × Memory × Threads) × (create_loaded l sstatus t (some loaded) ≡ some r)
      × StartsFile l sstatus start end path m t r
create_loaded-StartsFile l sstatus {t = t} (false, m1) s w =
    ((0, m1, t), create_loaded_bad l sstatus m1 t, no_image w)
create_loaded-StartsFile l sstatus {t = t} (true, m1) s w = (
  user_process_create l sstatus user_prog_base m1 t,
  create_loaded_good l sstatus m1 t,
  starts w (user_process_create-Starts l sstatus user_prog_base m1 s),
)

create_form :
    (l : Layout) (sstatus start end : ℕ) (path : Option (List ℕ)) (m : Memory) (t : Threads)
    (loaded : Bool × Memory)
    → user_load_image_from_initrd start end path true m ≡ some loaded
    → user_process_create_from_file l sstatus start end path m t
      ≡ create_loaded l sstatus t (some loaded)
unfolding user_process_create_from_file
create_form l sstatus start end path m t loaded e = ap (create_loaded l sstatus t) e

-- With a sound table of tasks, and an archive apart from the program area: user_process_create_from_file
-- ends. When the image cannot be loaded it returns NULL, and tasks and memory are as they were. When it
-- is loaded, it does what user_process_create does for an entry at USER_PROG_BASE: it makes a process
-- that starts there, or there is no unused task.
pub user_process_create_from_file-StartsFile :
    (l : Layout) (sstatus start end : ℕ) (path : Option (List ℕ)) (m : Memory) {t : Threads}
    → Sound t
    → Archive start end
    → (r : TaskPtr × Memory × Threads) × (user_process_create_from_file l sstatus start end path m t
        ≡ some r)
      × StartsFile l sstatus start end path m t r
user_process_create_from_file-StartsFile l sstatus start end path m {t} s a =
    let (loaded, e, w) =
      user_load_image_from_initrd-Loads start end path true m a.some_start a.not_empty a.room
        a.apart in
    let (r, f, h) = create_loaded-StartsFile l sstatus loaded s w in
    (r, create_form l sstatus start end path m t loaded e ∙ f, h)
