-- ===== src/Ramfs/Laws.antt =====
-- VinixOS/kernel/src/kernel/fs/ramfs.c against the laws that the virtual file system relies on.
use ref_arm_os.Base.{
  length, get_or, pos, is_neg, to_ℕ, ℕ, ◌+◌, ◌-◌, ◌^◌, ◌≤◌, ◌<◌, ◌≡◌, ◌⊎◌, false, List, [], ◌∷◌,
  arith,
}
use ref_arm_os.Memory.{Memory, Reader}
use ref_arm_os.Memory.Copy.{memcpy_frame, memcpy_copies, strcpy_frame}
use ref_arm_os.Memory.Compare.{NoNul}
use ref_arm_os.FsOps.{FsLaws, Apart, available}
use ref_arm_os.Ramfs.{File, no_file, min32, lookup_from, lookup, read, get_file_info, ramfs_ops}

abbrev pub start_of : List File → ℕ → ℕ
start_of fs i = (get_or fs i no_file).start

abbrev pub size_of : List File → ℕ → ℕ
size_of fs i = (get_or fs i no_file).size

-- What the build promises of the generated table: few files, small files, names that fit into
-- `file_info_t` and have no NUL.
pub record IsTable (fs : List File) : Type 0 where
  pub count_small : length fs < 2 ^ 31
  pub size_small : (i : ℕ) → i < length fs → size_of fs i < 2 ^ 31
  pub short_names : (i : ℕ) → i < length fs → length (get_or fs i no_file).name < 32
  pub names : (i : ℕ) → i < length fs → NoNul (get_or fs i no_file).name

lookup_from-range :
    (fs : List File) (i : ℕ) (name : Reader)
    → i + length fs < 2 ^ 31
    → is_neg (lookup_from fs i name) ≡ false
    → (i ≤ to_ℕ (lookup_from fs i name)) × (to_ℕ (lookup_from fs i name) < i + length fs)
unfolding lookup_from
lookup_from-range [] i name small h = cc
lookup_from-range (f ∷ fs) i name small h = ground (arith, lookup_from-range fs (i + 1) name)

read-count :
    (fs : List File)
    → IsTable fs
    → (i offset buf len : ℕ) (m : Memory) → i < length fs
    → (read fs (pos i) offset buf len m).0 ≡ pos (available (size_of fs i) offset len)
unfolding read
read-count fs t i offset buf len m h = ground (arith, t.size_small i)

read-bytes :
    (fs : List File)
    → (i offset buf len : ℕ) (m : Memory) (j : ℕ) → i < length fs
    → Apart buf len (start_of fs i) (size_of fs i)
    → j < available (size_of fs i) offset len
    → (read fs (pos i) offset buf len m).1 (buf + j) ≡ m (start_of fs i + offset + j)
unfolding read
read-bytes fs i offset buf len m j h apart k = ground (
  arith,
  memcpy_copies (min32 len (size_of fs i - offset)) buf (start_of fs i + offset) m j (buf + j)
      (start_of fs i + offset + j),
)

read-frame :
    (fs : List File)
    → (i offset buf len : ℕ) (m : Memory) (a : ℕ) → i < length fs
    → (a < buf) ⊎ (buf + available (size_of fs i) offset len ≤ a)
    → (read fs (pos i) offset buf len m).1 a ≡ m a
unfolding read
read-frame fs i offset buf len m a h out =
    ground
      (arith, memcpy_frame (min32 len (size_of fs i - offset)) buf (start_of fs i + offset) m a)

lookup-range :
    (fs : List File)
    → IsTable fs
    → (name : Reader) → is_neg (lookup fs name) ≡ false
    → to_ℕ (lookup fs name) < length fs
unfolding lookup
lookup-range fs t name h =
    omega (arith, lookup_from-range fs 0 name (let c = t.count_small in omega arith) h)

info-frame :
    (fs : List File)
    → IsTable fs
    → (i name_out size_out : ℕ) (m : Memory) (a : ℕ) → (a < name_out) ⊎ (name_out + 32 ≤ a)
    → (a < size_out) ⊎ (size_out + 4 ≤ a)
    → (get_file_info fs (pos i) name_out size_out m).1 a ≡ m a
unfolding get_file_info
info-frame fs t i name_out size_out m a out out' =
    ground (arith, t.short_names i, strcpy_frame (get_or fs i no_file).name name_out m a)

-- The operations of `ramfs_ops` over a table that the build promises meet every law of `FsLaws`:
-- a found index is in range, a read gives the bytes of the file that are left, at most as many as
-- asked for, and writes nowhere else; the entry of a file stays within its 32 bytes of name and four
-- of size.
pub ramfs_ops-FsLaws :
    (fs : List File) → IsTable fs → FsLaws (ramfs_ops fs) (length fs) (start_of fs) (size_of fs)
unfolding ramfs_ops
ramfs_ops-FsLaws fs t = record {
  count_small = t.count_small;
  size_small = t.size_small;
  lookup_range = lookup-range fs t;
  read_count = read-count fs t;
  read_bytes = read-bytes fs;
  read_frame = read-frame fs;
  info_frame = info-frame fs t;
}
