-- ===== src/Ramfs.antt =====
-- VinixOS/kernel/src/kernel/fs/ramfs.c: the read-only file system whose files are part of the
-- kernel image. The build generates the table of names and data and the table of end addresses;
-- they are arguments here.
pub mod Laws
pub mod Lookup
use ref_arm_os.Base.{
  ltb, leb, if◌then◌else◌, length, get_or, ℤ, pos, sub32, is_neg, to_ℕ, to_i32, ℕ, suc, ◌+◌, ◌-◌,
  Bool, ◌||◌, List, [], ◌∷◌,
}
use ref_arm_os.Errno.{e_ok, e_noent, e_badf}
use ref_arm_os.Memory.{Memory, Reader, literal, memcpy, strcmp, is_match, strcpy, store32}
use ref_arm_os.FsOps.{FsOps}

-- `struct ramfs_file`; `start` is the pointer `data`, and a name is its bytes without the NUL.
pub record File : Type 0 where
  pub name : List ℕ
  pub start : ℕ
  pub size : ℕ

-- What a read past the end of the table would find; the guards rule it out.
abbrev pub no_file : File
no_file = record { name = []; start = 0; size = 0 }

abbrev pub min32 : ℕ → ℕ → ℕ
min32 a b = if ltb a b then a else b

-- `ramfs_init`: each size from the end address of the same index.
unfoldable pub ramfs_init : List File → List ℕ → List File
ramfs_init [] ends = []
ramfs_init (f ∷ fs) [] = f ∷ fs
ramfs_init (f ∷ fs) (e ∷ ends) = record f { size = sub32 e f.start } ∷ ramfs_init fs ends

-- The loop of `ramfs_lookup` from index `i` on.
unfoldable pub lookup_from : List File → ℕ → Reader → ℤ
lookup_from [] i name = e_noent
lookup_from (f ∷ fs) i name =
    if is_match (strcmp (suc (length f.name)) (literal f.name) name)
    then to_i32 i
    else lookup_from fs (i + 1) name

unfoldable pub lookup : List File → Reader → ℤ
unfolding lookup_from
lookup fs name = lookup_from fs 0 name

-- The guard of `ramfs_read` and `ramfs_get_file_info`.
abbrev pub bad_index : List File → ℤ → Bool
bad_index fs i = is_neg i || leb (length fs) (to_ℕ i)

unfoldable pub read : List File → ℤ → ℕ → ℕ → ℕ → Memory → ℤ × Memory
read fs i offset buf len m =
    let f = get_or fs (to_ℕ i) no_file in
    let n = min32 len (f.size - offset) in
    if bad_index fs i
    then (e_badf, m)
    else if leb f.size offset
    then (pos 0, m)
    else (to_i32 n, memcpy buf (f.start + offset) n m)

unfoldable pub get_file_info : List File → ℤ → ℕ → ℕ → Memory → ℤ × Memory
get_file_info fs i name_out size_out m =
    let f = get_or fs (to_ℕ i) no_file in
    if bad_index fs i
    then (e_badf, m)
    else (e_ok, store32 (strcpy name_out f.name m) size_out f.size)

-- `ramfs_ops`, as `ramfs_get_operations` returns it.
unfoldable pub ramfs_ops : List File → FsOps
ramfs_ops fs = record {
  lookup = lookup fs;
  read = read fs;
  get_file_count = to_i32 (length fs);
  get_file_info = get_file_info fs;
}
