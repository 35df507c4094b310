-- ===== src/Exec/Segments.antt =====
-- Where the loader `sys_exec` of VinixOS/kernel/src/kernel/core/svc_handler.c writes segments.
use ref_arm_os.Base.{
  ltb, Bool-cases, add32, ℕ, ◌+◌, ◌-◌, ◌≤◌, ◌<◌, ◌≡◌, refl, ◌∙◌, ◌⊎◌, inl, inr, arith,
}
use ref_arm_os.Memory.{Memory, load32}
use ref_arm_os.Memory.Copy.{memset_frame}
use ref_arm_os.FsOps.{Apart}
use ref_arm_os.User.{user_start, user_end}
use ref_arm_os.Exec.{Locals, chunk_size, ehdr_size, phdr_size, zero_rest}
use ref_arm_os.Exec.Loops.{Kept}

abbrev pub user_size : ℕ
user_size = 0x100000

-- The locals lie outside user memory and do not meet.
pub record Placed (l : Locals) : Type 0 where
  pub ehdr_out : Apart l.ehdr ehdr_size user_start user_size
  pub phdr_out : Apart l.phdr phdr_size user_start user_size
  pub tmp_out : Apart l.tmp chunk_size user_start user_size
  pub ehdr_phdr : Apart l.ehdr ehdr_size l.phdr phdr_size
  pub ehdr_tmp : Apart l.ehdr ehdr_size l.tmp chunk_size
  pub phdr_tmp : Apart l.phdr phdr_size l.tmp chunk_size

abbrev pub Outside : ℕ → ℕ → ℕ → Type 0
Outside p n a = (a < p) ⊎ (p + n ≤ a)

abbrev pub Inside : ℕ → ℕ → ℕ → Type 0
Inside p n a = (p ≤ a) × (a < p + n)

-- The addresses that loading the segments leaves alone.
abbrev pub Other : Locals → ℕ → Type 0
Other l a = Outside user_start user_size a × Outside l.phdr phdr_size a × Outside l.tmp chunk_size a

-- The addresses that `sys_exec` leaves alone.
abbrev pub Untouched : Locals → ℕ → Type 0
Untouched l a = Other l a × Outside l.ehdr ehdr_size a

pub load32-Kept :
    (p n a : ℕ) (m m' : Memory)
    → Kept (Inside p n) m m'
    → p ≤ a
    → a + 4 ≤ p + n
    → load32 m' a ≡ load32 m a
load32-Kept p n a m m' h lo hi =
    rw
      (
        h a (omega arith, omega arith),
        h (a + 1) (omega arith, omega arith),
        h (a + 2) (omega arith, omega arith),
        h (a + 3) (omega arith, omega arith),
      )
      refl

-- What `load_segment` has checked of the header in `phdr`.
pub record Checked (l : Locals) (m : Memory) : Type 0 where
  pub fits : load32 m (l.phdr + 16) ≤ load32 m (l.phdr + 20)
  pub above : user_start ≤ load32 m (l.phdr + 8)
  pub below : load32 m (l.phdr + 8) + load32 m (l.phdr + 20) ≤ user_end

pub Checked-Kept :
    (l : Locals) (m m' : Memory) → Checked l m → Kept (Inside l.phdr phdr_size) m m' → Checked l m'
Checked-Kept l m m' c h =
    let e8 = load32-Kept l.phdr phdr_size (l.phdr + 8) m m' h (omega arith) (omega arith) in
    let e16 = load32-Kept l.phdr phdr_size (l.phdr + 16) m m' h (omega arith) (omega arith) in
    let e20 = load32-Kept l.phdr phdr_size (l.phdr + 20) m m' h (omega arith) (omega arith) in
    record { fits = rw (e16, e20) c.fits; above = rw e8 c.above; below = rw (e8, e20) c.below }

pub zero_rest-Kept :
    (l : Locals) (m0 m : Memory)
    → Checked l m
    → Kept (Other l) m0 m
    → Kept (Other l) m0 (zero_rest l m)
unfolding zero_rest
zero_rest-Kept l m0 m c kept a ka = elim (Bool-cases (ltb filesz memsz)) [
  | inr small ↦ rw small (kept a ka)
  | inl more ↦ rw more (
      memset_frame (memsz - filesz) (add32 vaddr filesz) 0 m a
        (let f = c.fits in let lo = c.above in let hi = c.below in ground (arith, ka.0))
      ∙ kept a ka)
]
  where
    vaddr : ℕ
    vaddr = load32 m (l.phdr + 8)

    filesz : ℕ
    filesz = load32 m (l.phdr + 16)

    memsz : ℕ
    memsz = load32 m (l.phdr + 20)
