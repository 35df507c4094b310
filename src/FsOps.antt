-- ===== src/FsOps.antt =====
-- `struct vfs_operations` of VinixOS/kernel/include/vfs.h: what the virtual file system calls of a
-- mounted file system, and the laws that it relies on.
use ref_arm_os.Base.{
  ltb, leb, if◌then◌else◌, ℤ, pos, is_neg, to_ℕ, ℕ, ◌+◌, ◌-◌, ◌^◌, ◌≤◌, ◌<◌, ◌≡◌, ◌⊎◌, false,
}
use ref_arm_os.Memory.{Memory, Reader}

-- Results are `int`s; `read` and `get_file_info` write through their pointers.
pub record FsOps : Type 0 where
  pub lookup : Reader → ℤ
  pub read : ℤ → ℕ → ℕ → ℕ → Memory → ℤ × Memory
  pub get_file_count : ℤ
  pub get_file_info : ℤ → ℕ → ℕ → Memory → ℤ × Memory

-- Two regions of memory do not meet.
abbrev pub Apart : ℕ → ℕ → ℕ → ℕ → Type 0
Apart p n q k = (p + n ≤ q) ⊎ (q + k ≤ p)

-- `n` bytes that a read of `len` bytes at `offset` gives of a file of `size` bytes.
abbrev pub available : ℕ → ℕ → ℕ → ℕ
available size offset len =
    if leb size offset then 0 else if ltb len (size - offset) then len else size - offset

-- `count` files; file `i` has `size i` bytes, which stand in memory from `start i` on.
pub record FsLaws (ops : FsOps) (count : ℕ) (start size : ℕ → ℕ) : Type 0 where
  pub count_small : count < 2 ^ 31
  pub size_small : (i : ℕ) → i < count → size i < 2 ^ 31
  pub lookup_range :
      (name : Reader) → is_neg (ops.lookup name) ≡ false → to_ℕ (ops.lookup name) < count
  pub read_count :
      (i offset buf len : ℕ) (m : Memory)
      → i < count
      → (ops.read (pos i) offset buf len m).0 ≡ pos (available (size i) offset len)
  pub read_bytes :
      (i offset buf len : ℕ) (m : Memory) (j : ℕ)
      → i < count
      → Apart buf len (start i) (size i)
      → j < available (size i) offset len
      → (ops.read (pos i) offset buf len m).1 (buf + j) ≡ m (start i + offset + j)
  pub read_frame :
      (i offset buf len : ℕ) (m : Memory) (a : ℕ)
      → i < count
      → (a < buf) ⊎ (buf + available (size i) offset len ≤ a)
      → (ops.read (pos i) offset buf len m).1 a ≡ m a
  pub info_frame :
      (i name_out size_out : ℕ) (m : Memory) (a : ℕ)
      → (a < name_out) ⊎ (name_out + 32 ≤ a)
      → (a < size_out) ⊎ (size_out + 4 ≤ a)
      → (ops.get_file_info (pos i) name_out size_out m).1 a ≡ m a
