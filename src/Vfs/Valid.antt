-- ===== src/Vfs/Valid.antt =====
-- The invariant of the descriptor table, and the effect of a write to it.
use mathlib.Core.Bool.{false≢true}
use ref_arm_os.Base.{
  ◌==◌, if◌then◌else◌, length, set, length-set, get_or, replicate, get_or-set, get_or-replicate, ℤ,
  is_neg, to_ℕ, ℕ, ◌≤◌, ◌<◌, ◌≡◌, refl, sym, ap, ◌∙◌, true, false, arith,
}
use ref_arm_os.Vfs.{Fd, Vfs, max_fds, free_fd, vfs_init, fd_at, bad_fd}

-- With `count` files of the sizes `size`: 16 descriptors, of which 0 to 2 are never handed out; an
-- open one names a file, and its offset is within that file.
pub record IsValid (count : ℕ) (size : ℕ → ℕ) (v : Vfs) : Type 0 where
  pub length_fds : length v.fds ≡ max_fds
  pub reserved : (n : ℕ) → n < 3 → (fd_at v n).in_use ≡ false
  pub names_file : (n : ℕ) → (fd_at v n).in_use ≡ true → (fd_at v n).file_index < count
  pub in_file :
      (n : ℕ) → (fd_at v n).in_use ≡ true → (fd_at v n).offset ≤ size (fd_at v n).file_index

abbrev pub set_fd : Vfs → ℕ → Fd → Vfs
set_fd v n d = record v { fds = set v.fds n d }

pub fd_at-set_fd :
    (v : Vfs) (n k : ℕ) (d : Fd)
    → n < length v.fds
    → fd_at (set_fd v n d) k ≡ (if n == k then d else fd_at v k)
fd_at-set_fd v n k d h = get_or-set v.fds n k d free_fd h

module _ {count : ℕ} {size : ℕ → ℕ} where
  -- Writing a descriptor from 3 on keeps the invariant if the new entry is free or within its file.
  pub set_fd-IsValid :
      (v : Vfs) (n : ℕ) (d : Fd)
      → IsValid count size v
      → 3 ≤ n
      → n < max_fds
      → (d.in_use ≡ true → d.file_index < count)
      → (d.in_use ≡ true → d.offset ≤ size d.file_index)
      → IsValid count size (set_fd v n d)
  set_fd-IsValid v n d w lo hi fits within = record {
    length_fds = length-set v.fds n d ∙ w.length_fds;
    reserved = λ k lt. ground (arith, fd_at-set_fd v n k d, w.reserved k, w.length_fds);
    names_file = λ k u. ground (arith, fd_at-set_fd v n k d, w.names_file k, w.length_fds);
    in_file = λ k u. ground (arith, fd_at-set_fd v n k d, w.in_file k, w.length_fds);
  }

  -- A descriptor that passes the guard is open, and not one of the reserved.
  pub good_fd :
      (v : Vfs) (fd : ℤ)
      → IsValid count size v
      → bad_fd v fd ≡ false
      → (is_neg fd ≡ false)
        × (3 ≤ to_ℕ fd)
        × (to_ℕ fd < max_fds)
        × ((fd_at v (to_ℕ fd)).in_use ≡ true)
  good_fd v fd w h = ground (arith, w.reserved (to_ℕ fd))

  pub vfs_init-IsValid : IsValid count size vfs_init
  unfolding vfs_init
  vfs_init-IsValid = record {
    length_fds = refl;
    reserved = λ n lt. free n;
    names_file = λ n u. absurd (false≢true (sym (free n) ∙ u));
    in_file = λ n u. absurd (false≢true (sym (free n) ∙ u));
  }
    where
      free : (n : ℕ) → (get_or (replicate 16 free_fd) n free_fd).in_use ≡ false
      free n = ap (λ (d : Fd). d.in_use) (get_or-replicate 16 n free_fd)
