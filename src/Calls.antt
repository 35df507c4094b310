-- ===== src/Calls.antt =====
-- VinixOS/userspace/lib/syscall.c: the wrappers that a user task calls. Each of them sets the
-- registers, executes `svc #0`, which runs `svc_handler` of the kernel, and takes `r0`.
pub mod Handlers
use ref_arm_os.Base.{ℤ, to_i32, to_u32, ℕ, Option, none, some}
use ref_arm_os.Svc.{Image, Kernel, Ctx, Handled, done, away, stops, svc_handler}

-- The registers that a wrapper sets before `svc #0`; the rest keep what the task had in them.
unfoldable pub trap : Image → (number arg1 arg2 arg3 : ℕ) → Ctx → Kernel → Handled
trap im number arg1 arg2 arg3 regs k =
    svc_handler im (record regs { r7 = number; r0 = arg1; r1 = arg2; r2 = arg3 }) k

-- `mov %0, r0`, where the call comes back at once
unfoldable pub ret : Handled → Option (ℤ × Kernel)
ret (done e ctx k) = some (to_i32 ctx.r0, k)
ret (away a b e ctx k) = none
ret stops = none

module _ (im : Image) (regs : Ctx) where
  unfoldable pub user_yield : Kernel → Handled
  unfolding trap
  user_yield k = trap im 2 0 0 0 regs k

  unfoldable pub user_write : (buf len : ℕ) → Kernel → Handled
  unfolding trap
  user_write buf len k = trap im 0 buf len 0 regs k

  unfoldable pub user_exit : ℤ → Kernel → Handled
  unfolding trap
  user_exit status k = trap im 1 (to_u32 status) 0 0 regs k

  unfoldable pub user_read : (buf len : ℕ) → Kernel → Handled
  unfolding trap
  user_read buf len k = trap im 3 buf len 0 regs k

  unfoldable pub user_get_tasks : (buf max_count : ℕ) → Kernel → Handled
  unfolding trap
  user_get_tasks buf max_count k = trap im 4 buf max_count 0 regs k

  unfoldable pub user_get_meminfo : (buf : ℕ) → Kernel → Handled
  unfolding trap
  user_get_meminfo buf k = trap im 5 buf 0 0 regs k

  unfoldable pub user_open : (path : ℕ) (flags : ℤ) → Kernel → Handled
  unfolding trap
  user_open path flags k = trap im 6 path (to_u32 flags) 0 regs k

  unfoldable pub user_read_file : (fd : ℤ) (buf len : ℕ) → Kernel → Handled
  unfolding trap
  user_read_file fd buf len k = trap im 7 (to_u32 fd) buf len regs k

  unfoldable pub user_close : ℤ → Kernel → Handled
  unfolding trap
  user_close fd k = trap im 8 (to_u32 fd) 0 0 regs k

  unfoldable pub user_listdir : (path entries max_entries : ℕ) → Kernel → Handled
  unfolding trap
  user_listdir path entries max_entries k = trap im 9 path entries max_entries regs k

  unfoldable pub user_exec : (path : ℕ) → Kernel → Handled
  unfolding trap
  user_exec path k = trap im 10 path 0 0 regs k
