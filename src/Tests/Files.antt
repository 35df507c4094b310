-- ===== src/Tests/Files.antt =====
-- A file system of one file, `a`, whose three bytes stand at address 1000.
use ref_arm_os.Base.{
  length, get_or, pos, find_free, ℕ, zero, suc, ◌+◌, ◌^◌, ◌≤◌, ◌<◌, ◌≡◌, refl, ◌↔◌, ◌⊎◌, false,
  some, List, [], ◌∷◌, arith,
}
use ref_arm_os.Errno.{e_ok, e_ptr}
use ref_arm_os.Memory.{Memory, store, strcmp}
use ref_arm_os.Memory.Compare.{NoNul}
use ref_arm_os.FsOps.{FsLaws}
use ref_arm_os.Ramfs.{File, no_file, lookup_from, lookup, ramfs_ops}
use ref_arm_os.Ramfs.Laws.{IsTable, start_of, size_of, ramfs_ops-FsLaws}
use ref_arm_os.Vfs.{
  Vfs, vfs_init, find_mount_slot, mount, find_fs, filename, find_fd_slot, alloc_fd, open_on, opened,
  vfs_open, bad_fd, vfs_read,
}
use ref_arm_os.Vfs.Valid.{IsValid}
use ref_arm_os.Vfs.Open.{Opened, vfs_open-Opened}
use ref_arm_os.Vfs.Run.{Call, opens, reads, step, run, booted, run-booted-Good}
use ref_arm_os.User.{user_start, user_end, validate_user_pointer, validate_user_pointer_lem}
use ref_arm_os.Vfs.Stream.{HasRead, vfs_read-HasRead}

abbrev pub one_file : List File
one_file = record { name = b'a' ∷ []; start = 1000; size = 3 } ∷ []

pub one_file-IsTable : IsTable one_file
one_file-IsTable = record {
  count_small = omega arith;
  size_small = λ i h. small i h;
  short_names = λ i h. short i h;
  names = λ i h. named i h;
}
  where
    small : (i : ℕ) → i < 1 → size_of one_file i < 2 ^ 31
    small zero h = omega arith
    small (suc i) h = absurd (omega arith)

    short : (i : ℕ) → i < 1 → length (get_or one_file i no_file).name < 32
    short zero h = omega arith
    short (suc i) h = absurd (omega arith)

    named : (i : ℕ) → i < 1 → NoNul (get_or one_file i no_file).name
    named zero h = (omega arith, record {})
    named (suc i) h = absurd (omega arith)

-- The path "/a" at address 500.
abbrev pub with_path : Memory
with_path = store (store (λ a. 0) 500 (b'/')) 501 (b'a')

abbrev script : List Call
script = opens with_path 500 (pos 0) ∷ reads with_path (pos 3) 2000 2 ∷ []

script-kept :
    IsValid 1 (size_of one_file) (run (booted (ramfs_ops one_file)) script)
    × (find_fs (run (booted (ramfs_ops one_file)) script).mounts ≡ some (ramfs_ops one_file))
script-kept = run-booted-Good one_file script one_file-IsTable

one_file_laws : FsLaws (ramfs_ops one_file) 1 (start_of one_file) (size_of one_file)
one_file_laws = ramfs_ops-FsLaws one_file one_file-IsTable

abbrev pub with_a_open : Vfs
with_a_open = run (booted (ramfs_ops one_file)) (opens with_path 500 (pos 0) ∷ [])

pub three_is_open : bad_fd with_a_open (pos 3) ≡ false
unfolding run step booted mount vfs_init find_fs vfs_open opened open_on alloc_fd find_fd_slot
    find_mount_slot find_free ramfs_ops lookup lookup_from strcmp
three_is_open = refl

reading :
    HasRead
      (ramfs_ops one_file)
      1
      (start_of one_file)
      (size_of one_file)
      one_file_laws
      with_a_open
      with_path
      3
      2000
      2
      (vfs_read with_a_open with_path (pos 3) 2000 2)
reading =
    vfs_read-HasRead (ramfs_ops one_file) 1 (start_of one_file) (size_of one_file) one_file_laws
      with_a_open with_path (pos 3) 2000 2
      (run-booted-Good one_file (opens with_path 500 (pos 0) ∷ []) one_file-IsTable).0
      (run-booted-Good one_file (opens with_path 500 (pos 0) ∷ []) one_file-IsTable).1 three_is_open

opening :
    Opened
      (booted (ramfs_ops one_file))
      (filename with_path 500)
      (pos 0)
      (vfs_open (booted (ramfs_ops one_file)) with_path 500 (pos 0))
opening = vfs_open-Opened (booted (ramfs_ops one_file)) with_path 500 (pos 0)

wrap_refused :
    ((validate_user_pointer user_start 0xFFFFFFFF ≡ e_ok)
      ↔ ((user_start ≤ user_start) × (user_start + 0xFFFFFFFF ≤ user_end)))
    × ((validate_user_pointer user_start 0xFFFFFFFF ≡ e_ok)
        ⊎ (validate_user_pointer user_start 0xFFFFFFFF ≡ e_ptr))
    × ((◌≡◌ {A = ℕ} 0xFFFFFFFF 0)
        ⊎ ((validate_user_pointer user_start 0xFFFFFFFF ≡ e_ok) ↔ (
            (i : ℕ)
            → i < 0xFFFFFFFF
            → (user_start ≤ user_start + i) × (user_start + i < user_end))))
wrap_refused = validate_user_pointer_lem user_start 0xFFFFFFFF (omega arith) (omega arith)
