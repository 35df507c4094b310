-- ===== src/Vfs/Stream.antt =====
-- `vfs_read` over a file system that meets its laws.
use ref_arm_os.Base.{
  ltb, ◌==◌, if◌then◌else◌, Bool-cases, length, ℤ, pos, add32, to_ℕ, ℕ, ◌+◌, ◌^◌, ◌≤◌, ◌<◌, ◌≡◌,
  refl, ◌⊎◌, inl, inr, true, false, some, arith,
}
use ref_arm_os.Memory.{Memory}
use ref_arm_os.FsOps.{FsOps, FsLaws, Apart, available}
use ref_arm_os.Vfs.{Fd, Vfs, max_fds, find_fs, fd_at, bad_fd, read_on, served, vfs_read}
use ref_arm_os.Vfs.Valid.{IsValid, set_fd, fd_at-set_fd, set_fd-IsValid, good_fd}

-- Descriptor `n` moved on by `k` bytes, all others as they were.
abbrev pub Advanced : Vfs → ℕ → ℕ → Vfs → Type 0
Advanced v n k v' =
    (j : ℕ)
    → fd_at v' j
      ≡ (if n == j then record (fd_at v n) { offset = (fd_at v n).offset + k } else fd_at v j)

-- What `vfs_read` makes of the table when the file system has given `k` bytes.
advance : Vfs → ℕ → ℕ → Vfs
advance v n k =
    let d = fd_at v n in if ltb 0 k then set_fd v n (record d { offset = add32 d.offset k }) else v

advance-Advanced :
    (v : Vfs) (n k : ℕ)
    → n < length v.fds
    → (fd_at v n).offset + k < 2 ^ 32
    → Advanced v n k (advance v n k)
unfolding advance
advance-Advanced v n k h small j =
    ground (arith, fd_at-set_fd v n j (record (fd_at v n) { offset = add32 (fd_at v n).offset k }))

advance-mounts : (v : Vfs) (n k : ℕ) → (advance v n k).mounts ≡ v.mounts
unfolding advance
advance-mounts v n k = ground arith

advance-IsValid :
    {count : ℕ} {size : ℕ → ℕ} (v : Vfs) (n k : ℕ)
    → IsValid count size v
    → 3 ≤ n
    → n < max_fds
    → (fd_at v n).in_use ≡ true
    → (fd_at v n).offset + k < 2 ^ 32
    → (fd_at v n).offset + k ≤ size (fd_at v n).file_index
    → IsValid count size (advance v n k)
unfolding advance
advance-IsValid v n k w lo hi u small within = elim (Bool-cases (ltb 0 k)) [
  | inl p ↦ rw p (
      set_fd-IsValid v n (record (fd_at v n) { offset = add32 (fd_at v n).offset k }) w lo hi
        (λ _. w.names_file n u) (λ _. omega arith))
  | inr z ↦ rw z w
]

-- What a read of `len` bytes gives at descriptor `n`.
pub gives : (ℕ → ℕ) → Vfs → ℕ → ℕ → ℕ
gives size v n len = available (size (fd_at v n).file_index) (fd_at v n).offset len

pub gives-le :
    (size : ℕ → ℕ) (v : Vfs) (n len : ℕ)
    → (fd_at v n).offset ≤ size (fd_at v n).file_index
    → (fd_at v n).offset + gives size v n len ≤ size (fd_at v n).file_index
unfolding gives
gives-le size v n len h = ground arith

pub gives-len : (size : ℕ → ℕ) (v : Vfs) (n len : ℕ) → gives size v n len ≤ len
unfolding gives
gives-len size v n len = ground arith

pub gives-none :
    (size : ℕ → ℕ) (v : Vfs) (n len : ℕ)
    → size (fd_at v n).file_index ≤ (fd_at v n).offset
    → gives size v n len ≡ 0
unfolding gives
gives-none size v n len h = ground arith

pub gives-all :
    (size : ℕ → ℕ) (v : Vfs) (n len : ℕ)
    → 0 < len
    → (fd_at v n).offset + len ≤ size (fd_at v n).file_index
    → gives size v n len ≡ len
unfolding gives
gives-all size v n len lt h = ground arith

pub gives-rest :
    (size : ℕ → ℕ) (v : Vfs) (n len : ℕ)
    → (fd_at v n).offset < size (fd_at v n).file_index
    → size (fd_at v n).file_index < (fd_at v n).offset + len
    → gives size v n len + (fd_at v n).offset ≡ size (fd_at v n).file_index
unfolding gives
gives-rest size v n len lt h = ground arith

module _ (ops : FsOps) (count : ℕ) (start size : ℕ → ℕ) (laws : FsLaws ops count start size) where
  -- The outcome `(r, v', m')` of a read at the open descriptor `n`.
  pub record HasRead (v : Vfs) (m : Memory) (n buf len : ℕ) (out : ℤ × Vfs × Memory) : Type 0 where
    pub result : out.0 ≡ pos (gives size v n len)
    pub table : Advanced v n (gives size v n len) out.1
    pub mounts : out.1.mounts ≡ v.mounts
    pub valid : IsValid count size out.1
    pub bytes :
        Apart buf len (start (fd_at v n).file_index) (size (fd_at v n).file_index)
        → (j : ℕ) → j < gives size v n len
        → out.2 (buf + j) ≡ m (start (fd_at v n).file_index + (fd_at v n).offset + j)
    pub frame : (a : ℕ) → (a < buf) ⊎ (buf + gives size v n len ≤ a) → out.2 a ≡ m a

  read_on-eq :
      (v : Vfs) (m : Memory) (n buf len : ℕ)
      → (fd_at v n).file_index < count
      → read_on ops v m n buf len ≡ (
        pos (gives size v n len),
        advance v n (gives size v n len),
        (ops.read (pos (fd_at v n).file_index) (fd_at v n).offset buf len m).1,
      )
  unfolding read_on advance gives
  read_on-eq v m n buf len h =
      ground (
        arith,
        laws.count_small,
        laws.read_count (fd_at v n).file_index (fd_at v n).offset buf len m,
      )

  read_on-HasRead :
      (v : Vfs) (m : Memory) (n buf len : ℕ)
      → IsValid count size v
      → 3 ≤ n
      → n < max_fds
      → (fd_at v n).in_use ≡ true
      → HasRead v m n buf len (read_on ops v m n buf len)
  unfolding gives
  read_on-HasRead v m n buf len w lo hi u =
      rw (read_on-eq v m n buf len (w.names_file n u)) (record {
        result = refl;
        table = advance-Advanced v n _ (let e = w.length_fds in omega arith) wide;
        mounts = advance-mounts v n _;
        valid = advance-IsValid v n _ w lo hi u wide within;
        bytes = λ apart j lt.
            laws.read_bytes d.file_index d.offset buf len m j (w.names_file n u) apart lt;
        frame = λ a out. laws.read_frame d.file_index d.offset buf len m a (w.names_file n u) out;
      })
    where
      d : Fd
      d = fd_at v n

      within : d.offset + gives size v n len ≤ size d.file_index
      within = gives-le size v n len (w.in_file n u)

      small : size d.file_index < 2 ^ 31
      small = laws.size_small d.file_index (w.names_file n u)

      wide : d.offset + gives size v n len < 2 ^ 32
      wide = omega (arith, within, small)

  -- A read at a descriptor that passes the guard, with this file system mounted at the root: it
  -- returns the number of bytes that the file has left there, at most `len`; these are the bytes of
  -- the file from the offset on, if the buffer does not meet the file; the offset moves on by that
  -- number and no other descriptor changes; memory changes only where they went; and the invariant
  -- is kept.
  pub vfs_read-HasRead :
      (v : Vfs) (m : Memory) (fd : ℤ) (buf len : ℕ)
      → IsValid count size v
      → find_fs v.mounts ≡ some ops
      → bad_fd v fd ≡ false
      → HasRead v m (to_ℕ fd) buf len (vfs_read v m fd buf len)
  unfolding vfs_read served
  vfs_read-HasRead v m fd buf len w mounted good =
      let (_, lo, hi, u) = good_fd v fd w good in
      rw (good, served, mounted) (read_on-HasRead v m (to_ℕ fd) buf len w lo hi u)
