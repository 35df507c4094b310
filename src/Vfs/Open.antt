-- ===== src/Vfs/Open.antt =====
-- What `vfs_open` and `vfs_close` do to the table, on every branch.
use ref_arm_os.Base.{
  Bool-cases, Option-cases, ℤ, pos, is_neg, is_zero, to_ℕ, to_u32, ℕ, ◌≡◌, ◌≢◌, ◌⊎◌, inl, inr, true,
  false, none, some, arith,
}
use ref_arm_os.Errno.{e_ok, e_arg, e_noent, e_badf, e_mfile}
use ref_arm_os.Memory.{Memory, Reader}
use ref_arm_os.FsOps.{FsOps}
use ref_arm_os.Vfs.{
  Fd, Vfs, free_fd, find_fs, filename, alloc_fd, open_on, opened, vfs_open, bad_fd, vfs_close,
}
use ref_arm_os.Vfs.Valid.{set_fd}
use ref_arm_os.Vfs.Slots.{IsLowest, AllOpen, find_fd_slot_cases}

abbrev fresh : ℕ → Fd
fresh i = record { in_use = true; file_index = i; offset = 0 }

-- The lowest free descriptor is handed out at offset 0, or none is free.
pub data Alloc (v : Vfs) (i : ℕ) : ℤ × Vfs → Type 0 where
  given : (n : ℕ) → IsLowest v n → Alloc v i (pos n, set_fd v n (fresh i))
  full : AllOpen v → Alloc v i (e_mfile, v)

alloc_fd-Alloc : (v : Vfs) (i : ℕ) → Alloc v i (alloc_fd v i)
unfolding alloc_fd
alloc_fd-Alloc v i = elim (find_fd_slot_cases v) [
  | inl (n, e, low) ↦ rw (e, alloc_fd) (given n low)
  | inr (e, all) ↦ rw (e, alloc_fd) (full all)
]

-- The outcomes of `vfs_open`, each with what led to it.
pub data Opened (v : Vfs) (name : Reader) (flags : ℤ) : ℤ × Vfs → Type 0 where
  bad_flags : flags ≢ pos 0 → Opened v name flags (e_arg, v)
  no_fs : find_fs v.mounts ≡ none → Opened v name flags (e_noent, v)
  not_found :
      (ops : FsOps)
      → find_fs v.mounts ≡ some ops
      → is_neg (ops.lookup name) ≡ true
      → Opened v name flags (e_noent, v)
  found :
      {r : ℤ × Vfs} (ops : FsOps)
      → find_fs v.mounts ≡ some ops
      → is_neg (ops.lookup name) ≡ false
      → Alloc v (to_u32 (ops.lookup name)) r
      → Opened v name flags r

nonzero→ne : (i : ℤ) → is_zero i ≡ false → i ≢ pos 0
nonzero→ne i h e = ground arith

opened-Opened :
    (v : Vfs) (m : Memory) (path : ℕ) (flags : ℤ)
    → Opened v (filename m path) flags (opened v m path)
unfolding opened open_on
opened-Opened v m path flags = elim (Option-cases (find_fs v.mounts)) [
  | inl e ↦ rw (e, opened) (no_fs e)
  | inr (ops, e) ↦ elim (Bool-cases (is_neg (ops.lookup (filename m path)))) [
    | inl neg ↦ rw (e, opened, neg) (not_found ops e neg)
    | inr ok ↦ rw (e, opened, ok) (found ops e ok (alloc_fd-Alloc v _))
  ]
]

-- `vfs_open` either refuses the flags, finds no file system or no file, finds every descriptor
-- open, or hands out the lowest free descriptor from 3 on, at offset 0 of the file found; in the
-- other outcomes it changes nothing.
pub vfs_open-Opened :
    (v : Vfs) (m : Memory) (path : ℕ) (flags : ℤ)
    → Opened v (filename m path) flags (vfs_open v m path flags)
unfolding vfs_open
vfs_open-Opened v m path flags = elim (Bool-cases (is_zero flags)) [
  | inl z ↦ rw z (opened-Opened v m path flags)
  | inr nz ↦ rw nz (bad_flags (nonzero→ne flags nz))
]

-- `vfs_close` frees an open descriptor, and answers `E_BADF` to any other number and changes
-- nothing.
pub vfs_close_lem :
    (v : Vfs) (fd : ℤ)
    → ((bad_fd v fd ≡ true) × (vfs_close v fd ≡ (e_badf, v)))
      ⊎ ((bad_fd v fd ≡ false) × (vfs_close v fd ≡ (e_ok, set_fd v (to_ℕ fd) free_fd)))
unfolding vfs_close
vfs_close_lem v fd = elim (Bool-cases (bad_fd v fd)) [
  | inl b ↦ inl (b, rw b)
  | inr g ↦ inr (g, rw g)
]
