-- ===== src/Vfs/Run.antt =====
-- Sequences of opens, reads and closes after boot, and the invariant of the descriptor table. Each
-- call comes with the memory that it finds, so user code may write anything in between.
use ref_arm_os.Base.{
  Bool-cases, length, ℤ, is_neg, to_ℕ, to_u32, ℕ, ◌≤◌, ◌<◌, ◌≡◌, refl, ap, ◌∙◌, inl, inr, true,
  false, some, List, [], ◌∷◌, arith,
}
use ref_arm_os.Memory.{Memory, Reader, strcmp}
use ref_arm_os.FsOps.{FsOps, FsLaws}
use ref_arm_os.Ramfs.{File, ramfs_ops}
use ref_arm_os.Ramfs.Laws.{IsTable, start_of, size_of, ramfs_ops-FsLaws}
use ref_arm_os.Vfs.{
  Fd, Vfs, max_fds, free_fd, vfs_init, mount, root, find_fs, filename, vfs_open, bad_fd, vfs_read,
  vfs_close,
}
use ref_arm_os.Vfs.Valid.{IsValid, set_fd, set_fd-IsValid, good_fd, vfs_init-IsValid}
use ref_arm_os.Vfs.Open.{
  Alloc, Opened, given, full, bad_flags, no_fs, not_found, found, vfs_open-Opened,
}
use ref_arm_os.Vfs.Stream.{HasRead, vfs_read-HasRead}

pub data Call : Type 0 where
  opens : Memory → ℕ → ℤ → Call
  reads : Memory → ℤ → ℕ → ℕ → Call
  closes : ℤ → Call

unfoldable pub step : Vfs → Call → Vfs
step v (opens m path flags) = (vfs_open v m path flags).1
step v (reads m fd buf len) = (vfs_read v m fd buf len).1
step v (closes fd) = (vfs_close v fd).1

unfoldable pub run : Vfs → List Call → Vfs
run v [] = v
run v (c ∷ cs) = run (step v c) cs

-- The state after `vfs_init` and `vfs_mount("/", ops)`.
unfoldable pub booted : FsOps → Vfs
booted ops = (mount vfs_init root ops).1

pub find_fs-booted : (ops : FsOps) → find_fs (booted ops).mounts ≡ some ops
unfolding booted mount vfs_init find_fs strcmp
find_fs-booted ops = refl

module _ (ops : FsOps) (count : ℕ) (start size : ℕ → ℕ) (laws : FsLaws ops count start size) where
  -- The invariant, with the file system still mounted at the root.
  pub record Good (v : Vfs) : Type 0 where
    pub valid : IsValid count size v
    pub mounted : find_fs v.mounts ≡ some ops

  set_fd-Good :
      (v : Vfs) (n : ℕ) (d : Fd)
      → Good v
      → 3 ≤ n
      → n < max_fds
      → (d.in_use ≡ true → d.file_index < count)
      → (d.in_use ≡ true → d.offset ≤ size d.file_index)
      → Good (set_fd v n d)
  set_fd-Good v n d g lo hi fits within = record {
    valid = set_fd-IsValid v n d g.valid lo hi fits within;
    mounted = g.mounted;
  }

  Alloc-Good : (v : Vfs) (i : ℕ) {r : ℤ × Vfs} → Good v → i < count → Alloc v i r → Good r.1
  Alloc-Good v i g h (given n low) =
      set_fd-Good v n _ g low.above (let e = g.valid.length_fds in let b = low.below in omega arith)
        (λ _. h) (λ _. omega arith)
  Alloc-Good v i g h (full all) = g

  lookup-small :
      (name : Reader) → is_neg (ops.lookup name) ≡ false → to_u32 (ops.lookup name) < count
  lookup-small name h = ground (arith, laws.lookup_range name h, laws.count_small)

  Opened-Good :
      (v : Vfs) (name : Reader) (flags : ℤ) {r : ℤ × Vfs}
      → Good v
      → Opened v name flags r
      → Good r.1
  Opened-Good v name flags g (bad_flags ne) = g
  Opened-Good v name flags g (no_fs e) = g
  Opened-Good v name flags g (not_found ops' e neg) = g
  Opened-Good v name flags g (found ops' e ok a) =
      let same : ops' ≡ ops = (let g' = g.mounted in cc) in
      Alloc-Good v _ g (rw same (lookup-small name (rw same at ok))) a

  vfs_read-Good :
      (v : Vfs) (m : Memory) (fd : ℤ) (buf len : ℕ) → Good v → Good (vfs_read v m fd buf len).1
  unfolding vfs_read
  vfs_read-Good v m fd buf len g = elim (Bool-cases (bad_fd v fd)) [
    | inl b ↦ rw b g
    | inr ok ↦ keep (vfs_read-HasRead ops count start size laws v m fd buf len g.valid g.mounted ok)
  ]
    where
      keep :
          HasRead ops count start size laws v m (to_ℕ fd) buf len (vfs_read v m fd buf len)
          → Good (vfs_read v m fd buf len).1
      keep r = record { valid = r.valid; mounted = ap find_fs r.mounts ∙ g.mounted }

  vfs_close-Good : (v : Vfs) (fd : ℤ) → Good v → Good (vfs_close v fd).1
  unfolding vfs_close
  vfs_close-Good v fd g = elim (Bool-cases (bad_fd v fd)) [
    | inl b ↦ rw b g
    | inr ok ↦ rw ok (
        let (_, lo, hi, u) = good_fd v fd g.valid ok in
        set_fd-Good v (to_ℕ fd) free_fd g lo hi (λ e. cc) (λ e. cc))
  ]

  pub step-Good : (v : Vfs) (c : Call) → Good v → Good (step v c)
  unfolding step
  step-Good v (opens m path flags) g =
      Opened-Good v (filename m path) flags g (vfs_open-Opened v m path flags)
  step-Good v (reads m fd buf len) g = vfs_read-Good v m fd buf len g
  step-Good v (closes fd) g = vfs_close-Good v fd g

  pub run-Good : (cs : List Call) (v : Vfs) → Good v → Good (run v cs)
  unfolding run
  run-Good [] v g = g
  run-Good (c ∷ cs) v g = run-Good cs (step v c) (step-Good v c g)

  pub booted-Good : Good (booted ops)
  unfolding booted mount vfs_init
  booted-Good = record {
    valid = record {
      length_fds = w.length_fds;
      reserved = w.reserved;
      names_file = w.names_file;
      in_file = w.in_file;
    };
    mounted = find_fs-booted ops;
  }
    where
      w : IsValid count size vfs_init
      w = vfs_init-IsValid

-- After boot over a RAM file system table that the build promises, every sequence of opens, reads
-- and closes leaves 16 descriptors, keeps 0 to 2 closed, and keeps every open descriptor within a
-- file of the table; the RAM file system stays mounted at the root.
pub run-booted-Good :
    (fs : List File) (cs : List Call)
    → IsTable fs
    → IsValid (length fs) (size_of fs) (run (booted (ramfs_ops fs)) cs)
      × (find_fs (run (booted (ramfs_ops fs)) cs).mounts ≡ some (ramfs_ops fs))
run-booted-Good fs cs t =
    let laws = ramfs_ops-FsLaws fs t in
    let g =
      run-Good (ramfs_ops fs) (length fs) (start_of fs) (size_of fs) laws cs _
        (booted-Good (ramfs_ops fs) (length fs) (start_of fs) (size_of fs) laws) in
    (g.valid, g.mounted)
