-- ===== src/Exec/Tests.antt =====
-- A program of an archive that becomes a process, and one that takes the place of another, by
-- lab6/OrangePiVer/Src/user.c.
use nycu_osc_lab.Prelude.{◌+◌, ◌≡◌, inl, true, some, [], ◌∷◌, arith}
use nycu_osc_lab.Thread.State.{TaskPtr, Threads}
use nycu_osc_lab.Thread.Sample.{layout, image-Blank, booted}
use nycu_osc_lab.Thread.Reach.{thread_init-Sound}
use nycu_osc_lab.Signal.{TrapFrame}
use nycu_osc_lab.User.{Memory}
use nycu_osc_lab.Initrd.Sample.{archive}
use nycu_osc_lab.Exec.{user_process_create_from_file}
use nycu_osc_lab.Exec.Run.{Archive, StartsFile, user_process_create_from_file-StartsFile}

in_memory : Archive 0x10000 0x10100
in_memory = record {
  some_start = λ e. omega arith;
  not_empty = omega arith;
  room = omega arith;
  apart = inl (omega arith);
}

user_process_create_from_file-StartsFile_example :
    (r : TaskPtr × Memory × Threads) × (user_process_create_from_file layout 256 0x10000 0x10100
        (some (97 ∷ []))
        archive
        booted
      ≡ some r)
    × StartsFile layout 256 0x10000 0x10100 (some (97 ∷ [])) archive booted r
user_process_create_from_file-StartsFile_example =
    user_process_create_from_file-StartsFile layout 256 0x10000 0x10100 (some (97 ∷ [])) archive
      (thread_init-Sound layout image-Blank) in_memory

-- The first task as a user process.
abbrev process : Threads
process = record booted { is_user = λ p. true }

abbrev frame : TrapFrame
frame i = 1048576 + i
