-- ===== src/Calls/Handlers.antt =====
-- The call numbers of VinixOS/userspace/lib/syscall.c against the `switch` of
-- VinixOS/kernel/src/kernel/core/svc_handler.c.
use ref_arm_os.Base.{ℤ, to_u32, ℕ, ◌≡◌, refl}
use ref_arm_os.Svc.{
  Image, Kernel, Ctx, Handled, done, away, stops, sys_write, sys_read, sys_yield, sys_exit,
  sys_get_tasks, sys_get_meminfo, sys_open, sys_read_file, sys_close, sys_listdir, sys_exec,
  dispatch, svc_handler,
}
use ref_arm_os.Calls.{
  trap, user_yield, user_write, user_exit, user_read, user_get_tasks, user_get_meminfo, user_open,
  user_read_file, user_close, user_listdir, user_exec,
}

-- the registers after the call: `r0` holds the code
abbrev pub answered : Handled → Handled
answered (done e c k) = done e (record c { r0 = to_u32 e }) k
answered (away a b e c k) = away a b e (record c { r0 = to_u32 e }) k
answered stops = stops

-- the registers that a call enters the kernel with
abbrev pub entry : (number arg1 arg2 arg3 : ℕ) → Ctx → Ctx
entry number arg1 arg2 arg3 regs = record regs { r7 = number; r0 = arg1; r1 = arg2; r2 = arg3 }

pub svc_handler-answered :
    (im : Image) (c : Ctx) (k : Kernel) → svc_handler im c k ≡ answered (dispatch im c.r7 c k)
unfolding svc_handler
svc_handler-answered im c k = by_outcome (dispatch im c.r7 c k)
  where
    by_outcome :
        (h : Handled)
        → (elim h [
          | done e c' k' ↦ done e (record c' { r0 = to_u32 e }) k'
          | away a b e c' k' ↦ away a b e (record c' { r0 = to_u32 e }) k'
          | stops ↦ stops
        ])
          ≡ answered h
    by_outcome (done e c' k') = refl
    by_outcome (away a b e c' k') = refl
    by_outcome stops = refl

module _ (im : Image) (regs : Ctx) where
  trap-answered :
      (n a b c : ℕ) (k : Kernel)
      → trap im n a b c regs k ≡ answered (dispatch im n (entry n a b c regs) k)
  unfolding trap
  trap-answered n a b c k = svc_handler-answered im (entry n a b c regs) k

  -- Every wrapper runs, in the kernel, the handler of its name on its arguments, and finds the
  -- handler's code in `r0`: the call numbers of the two sides agree, for all arguments.
  pub wrappers-Handlers :
      (p q n : ℕ) (i : ℤ) (k : Kernel)
      → (user_write im regs p n k ≡ answered (sys_write (entry 0 p n 0 regs) k))
        × (user_exit im regs i k ≡ answered (sys_exit im (entry 1 (to_u32 i) 0 0 regs) k))
        × (user_yield im regs k ≡ answered (sys_yield (entry 2 0 0 0 regs) k))
        × (user_read im regs p n k ≡ answered (sys_read (entry 3 p n 0 regs) k))
        × (user_get_tasks im regs p n k ≡ answered (sys_get_tasks (entry 4 p n 0 regs) k))
        × (user_get_meminfo im regs p k ≡ answered (sys_get_meminfo im (entry 5 p 0 0 regs) k))
        × (user_open im regs p i k ≡ answered (sys_open (entry 6 p (to_u32 i) 0 regs) k))
        × (user_read_file im regs i p n k
            ≡ answered (sys_read_file (entry 7 (to_u32 i) p n regs) k))
        × (user_close im regs i k ≡ answered (sys_close (entry 8 (to_u32 i) 0 0 regs) k))
        × (user_listdir im regs p q n k ≡ answered (sys_listdir (entry 9 p q n regs) k))
        × (user_exec im regs p k ≡ answered (sys_exec im (entry 10 p 0 0 regs) k))
  unfolding user_write user_exit user_yield user_read user_get_tasks user_get_meminfo user_open
      user_read_file user_close user_listdir user_exec dispatch
  wrappers-Handlers p q n i k = (
    trap-answered 0 p n 0 k,
    trap-answered 1 (to_u32 i) 0 0 k,
    trap-answered 2 0 0 0 k,
    trap-answered 3 p n 0 k,
    trap-answered 4 p n 0 k,
    trap-answered 5 p 0 0 k,
    trap-answered 6 p (to_u32 i) 0 k,
    trap-answered 7 (to_u32 i) p n k,
    trap-answered 8 (to_u32 i) 0 0 k,
    trap-answered 9 p q n k,
    trap-answered 10 p 0 0 k,
  )
