-- ===== src/Vfs.antt =====
-- VinixOS/kernel/src/kernel/fs/vfs.c: the table of file descriptors, the mount table, and the
-- calls on them.
pub mod Slots
pub mod Run
pub mod Stream
pub mod Open
pub mod Valid
use ref_arm_os.Base.{
  leb, ◌==◌, if◌then◌else◌, set, get_or, drop, replicate, ℤ, pos, add32, is_neg, is_pos, is_zero,
  to_ℕ, to_i32, to_u32, find_free, ℕ, zero, suc, ◌+◌, ◌*◌, Bool, true, false, not, ◌&&◌, ◌||◌,
  Option, none, some, List, [], ◌∷◌,
}
use ref_arm_os.Errno.{e_ok, e_fail, e_arg, e_noent, e_badf, e_mfile}
use ref_arm_os.Memory.{Memory, Reader, at, literal, strcmp, is_match}
use ref_arm_os.FsOps.{FsOps}

abbrev pub max_fds : ℕ
max_fds = 16

abbrev pub max_mounts : ℕ
max_mounts = 4

-- `struct vfs_fd`
pub record Fd : Type 0 where
  pub in_use : Bool
  pub file_index : ℕ
  pub offset : ℕ

-- `struct vfs_mount`; `none` is `NULL`.
pub record Mount : Type 0 where
  pub mount_point : Option (List ℕ)
  pub fs_ops : Option FsOps
  pub in_use : Bool

-- `fd_table` and `mount_table`
pub record Vfs : Type 0 where
  pub fds : List Fd
  pub mounts : List Mount

abbrev pub free_fd : Fd
free_fd = record { in_use = false; file_index = 0; offset = 0 }

abbrev pub free_mount : Mount
free_mount = record { mount_point = none; fs_ops = none; in_use = false }

-- `vfs_init`
unfoldable pub vfs_init : Vfs
vfs_init = record { fds = replicate max_fds free_fd; mounts = replicate max_mounts free_mount }

-- The first entry that is not in use, counted from `i`.
unfoldable pub find_mount_slot : List Mount → ℕ → Option ℕ
unfolding find_free
find_mount_slot = find_free (λ e. e.in_use)

unfoldable pub mount : Vfs → List ℕ → FsOps → ℤ × Vfs
unfolding find_mount_slot
mount v point ops = elim (find_mount_slot v.mounts 0) [
  | none ↦ (e_fail, v)
  | some i ↦
      let e : Mount = record { mount_point = some point; fs_ops = some ops; in_use = true } in
      (e_ok, record v { mounts = set v.mounts i e })
]

abbrev pub root : List ℕ
root = b'/' ∷ []

-- `strcmp(mount_point, "/") == 0`; a slot without a mount point is never in use.
abbrev pub is_root : Option (List ℕ) → Bool
is_root none = false
is_root (some point) = is_match (strcmp 2 (literal point) (literal root))

-- The code looks at the mount points only, whatever the path.
unfoldable pub find_fs : List Mount → Option FsOps
find_fs [] = none
find_fs (e ∷ es) = if e.in_use && is_root e.mount_point then e.fs_ops else find_fs es

-- A leading slash is skipped.
abbrev pub filename : Memory → ℕ → Reader
filename m path = if m path == b'/' then at m (path + 1) else at m path

-- The first descriptor that is not in use, counted from `i`.
unfoldable pub find_fd_slot : List Fd → ℕ → Option ℕ
unfolding find_free
find_fd_slot = find_free (λ d. d.in_use)

-- `vfs_open` once the file is found: descriptors 0 to 2 are reserved.
unfoldable pub alloc_fd : Vfs → ℕ → ℤ × Vfs
unfolding find_fd_slot
alloc_fd v file_index = elim (find_fd_slot (drop 3 v.fds) 3) [
  | none ↦ (e_mfile, v)
  | some fd ↦
      let d : Fd = record { in_use = true; file_index = file_index; offset = 0 } in
      (pos fd, record v { fds = set v.fds fd d })
]

unfoldable pub open_on : FsOps → Vfs → Reader → ℤ × Vfs
unfolding alloc_fd
open_on ops v name =
    let i = ops.lookup name in if is_neg i then (e_noent, v) else alloc_fd v (to_u32 i)

-- `vfs_open` past its test of the flags.
unfoldable pub opened : Vfs → Memory → ℕ → ℤ × Vfs
unfolding open_on find_fs
opened v m path = elim (find_fs v.mounts) [
  | none ↦ (e_noent, v)
  | some ops ↦ open_on ops v (filename m path)
]

unfoldable pub vfs_open : Vfs → Memory → ℕ → ℤ → ℤ × Vfs
unfolding opened
vfs_open v m path flags = if is_zero flags then opened v m path else (e_arg, v)

abbrev pub fd_at : Vfs → ℕ → Fd
fd_at v n = get_or v.fds n free_fd

-- The guard of `vfs_read` and `vfs_close`.
abbrev pub bad_fd : Vfs → ℤ → Bool
bad_fd v fd = is_neg fd || leb max_fds (to_ℕ fd) || not (fd_at v (to_ℕ fd)).in_use

-- `vfs_read` past its guards: a positive result moves the offset on.
unfoldable pub read_on : FsOps → Vfs → Memory → ℕ → ℕ → ℕ → ℤ × Vfs × Memory
read_on ops v m n buf len =
    let d = fd_at v n in
    let (r, m') = ops.read (to_i32 d.file_index) d.offset buf len m in
    let d' : Fd = record d { offset = add32 d.offset (to_ℕ r) } in
    (r, if is_pos r then record v { fds = set v.fds n d' } else v, m')

-- `vfs_read` past the test of its descriptor.
unfoldable pub served : Vfs → Memory → ℤ → ℕ → ℕ → ℤ × Vfs × Memory
unfolding read_on find_fs
served v m fd buf len = elim (find_fs v.mounts) [
  | none ↦ (e_fail, v, m)
  | some ops ↦ read_on ops v m (to_ℕ fd) buf len
]

unfoldable pub vfs_read : Vfs → Memory → ℤ → ℕ → ℕ → ℤ × Vfs × Memory
unfolding served
vfs_read v m fd buf len = if bad_fd v fd then (e_badf, v, m) else served v m fd buf len

unfoldable pub vfs_close : Vfs → ℤ → ℤ × Vfs
vfs_close v fd =
    if bad_fd v fd then (e_badf, v) else (e_ok, record v { fds = set v.fds (to_ℕ fd) free_fd })

-- `sizeof(file_info_t)`: 32 bytes of name, then the size.
abbrev pub file_info_size : ℕ
file_info_size = 36

-- The loop of `vfs_listdir` over the files that are left, from file `i` on with `count` entries
-- filled; `limit` is `(int)max_entries`.
unfoldable pub fill_entries : FsOps → ℕ → ℕ → ℕ → ℤ → ℕ → Memory → ℕ × Memory
fill_entries ops zero i count limit entries m = (count, m)
fill_entries ops (suc left) i count limit entries m =
    let entry = entries + count * file_info_size in
    let (ret, m') = ops.get_file_info (pos i) entry (entry + 32) m in
    let rest =
      fill_entries ops left (i + 1) (if is_zero ret then count + 1 else count) limit entries m' in
    if is_neg limit || leb (to_ℕ limit) count then (count, m) else rest

-- `vfs_listdir` once the file system is found.
unfoldable pub listed : FsOps → Memory → ℕ → ℕ → ℕ → ℤ × Memory
unfolding fill_entries
listed ops m path entries max_entries =
    let n = ops.get_file_count in
    let (count, m') = fill_entries ops (to_ℕ n) 0 0 (to_i32 max_entries) entries m in
    if is_match (strcmp 2 (at m path) (literal root))
    then (if is_neg n then (n, m) else (pos count, m'))
    else (e_noent, m)

unfoldable pub vfs_listdir : Vfs → Memory → ℕ → ℕ → ℕ → ℤ × Memory
unfolding listed find_fs
vfs_listdir v m path entries max_entries = elim (find_fs v.mounts) [
  | none ↦ (e_noent, m)
  | some ops ↦ listed ops m path entries max_entries
]
