-- ===== src/Svc/Handler.antt =====
-- All of `svc_handler` of VinixOS/kernel/src/kernel/core/svc_handler.c against memory outside user
-- space.
use ref_arm_os.Base.{
  Bool-cases, sub32, mul32, to_ℕ, to_i32, to_u32, ℕ, zero, suc, ◌*◌, ◌^◌, ◌≤◌, ◌<◌, ◌≡◌, refl, ◌⊎◌,
  inl, inr, arith,
}
use ref_arm_os.Errno.{e_ok}
use ref_arm_os.FsOps.{FsOps, FsLaws}
use ref_arm_os.Vfs.{file_info_size}
use ref_arm_os.Vfs.Run.{Good, closes, step, step-Good}
use ref_arm_os.User.{validate_user_pointer, is_ok, valid_range}
use ref_arm_os.Sched.{process_info_size}
use ref_arm_os.Exec.{Progress, fine, failed, spins, e_entry, exec}
use ref_arm_os.Exec.Loops.{read-Keeps}
use ref_arm_os.Exec.Segments.{Placed, user_size, Untouched}
use ref_arm_os.Exec.Parts.{vfs_open-Good}
use ref_arm_os.Exec.Confined.{Loads, exec-Loads}
use ref_arm_os.Svc.{
  Image, Kernel, Ctx, Handled, done, away, stops, sys_get_tasks, mem_info_size, sys_get_meminfo,
  max_path, sys_open, sys_read_file, sys_close, sys_listdir, sys_exec, dispatch, svc_handler,
}
use ref_arm_os.Svc.Writes.{scheduler_get_tasks-Kept, vfs_listdir-Kept}
use ref_arm_os.Svc.Isolation.{
  user-Clear, put_meminfo_frame, Isolated, sys_write-Isolated, sys_read-Isolated,
  sys_yield-Isolated, sys_exit-Isolated,
}

-- What the handlers rely on: registers of 32 bits, the locals of the loader placed outside user
-- memory, a shell image that fits, and record buffers whose size does not wrap.
pub record Sane (im : Image) (ctx : Ctx) : Type 0 where
  pub r0_small : ctx.r0 < 2 ^ 32
  pub r1_small : ctx.r1 < 2 ^ 32
  pub r2_small : ctx.r2 < 2 ^ 32
  pub placed : Placed im.locals
  pub payload_fits : sub32 im.payload_end im.payload_start ≤ user_size
  pub tasks_fit : ctx.r7 ≡ 4 → ctx.r1 * process_info_size < 2 ^ 32
  pub entries_fit : ctx.r7 ≡ 9 → ctx.r2 * file_info_size < 2 ^ 32

-- The exit and the yield call.
abbrev pub Halts : Ctx → Type 0
Halts ctx = (ctx.r7 ≡ 1) ⊎ (ctx.r7 ≡ 2)

module _ (ops : FsOps) (count : ℕ) (start size : ℕ → ℕ) (laws : FsLaws ops count start size) where
  module _ (im : Image) (Stop : Type 0) (ctx : Ctx) (k : Kernel) where
    sys_get_tasks-Isolated :
        Good ops count start size laws k.vfs
        → Sane im ctx
        → ctx.r1 * process_info_size < 2 ^ 32
        → Isolated ops count start size laws im Stop k (sys_get_tasks ctx k)
    unfolding sys_get_tasks
    sys_get_tasks-Isolated g w fits =
        elim (Bool-cases (is_ok (validate_user_pointer ctx.r0 (mul32 ctx.r1 process_info_size)))) [
          | inr bad ↦ rw (sys_get_tasks, bad) (g, λ a ka. refl)
          | inl ok ↦
              let h0 = w.r0_small in
              let h1 = w.r1_small in
              let range = valid_range ctx.r0 (mul32 ctx.r1 process_info_size) h0 (omega arith) ok in
              rw (sys_get_tasks, ok)
                (
                  g,
                  scheduler_get_tasks-Kept (Untouched im.locals) k.sched ctx.r0 ctx.r1 k.mem (
                      user-Clear im.locals ctx.r0 (ctx.r1 * process_info_size)
                        (ground (arith, range))),
                )
        ]

    sys_get_meminfo-Isolated :
        Good ops count start size laws k.vfs
        → Sane im ctx
        → Isolated ops count start size laws im Stop k (sys_get_meminfo im ctx k)
    unfolding sys_get_meminfo
    sys_get_meminfo-Isolated g w =
        elim (Bool-cases (is_ok (validate_user_pointer ctx.r0 mem_info_size))) [
          | inr bad ↦ rw (sys_get_meminfo, bad) (g, λ a ka. refl)
          | inl ok ↦
              let range = valid_range ctx.r0 mem_info_size w.r0_small (omega arith) ok in
              rw (sys_get_meminfo, ok)
                (
                  g,
                  λ a ka.
                      put_meminfo_frame im ctx.r0 k.mem a
                        (user-Clear im.locals ctx.r0 mem_info_size range a ka),
                )
        ]

    sys_open-Isolated :
        Good ops count start size laws k.vfs
        → Isolated ops count start size laws im Stop k (sys_open ctx k)
    unfolding sys_open
    sys_open-Isolated g = elim (Bool-cases (is_ok (validate_user_pointer ctx.r0 max_path))) [
      | inr bad ↦ rw (sys_open, bad) (g, λ a ka. refl)
      | inl ok ↦
          rw (sys_open, ok)
            (
              vfs_open-Good ops count start size laws k.vfs k.mem ctx.r0 (to_i32 ctx.r1) g,
              λ a ka. refl,
            )
    ]

    sys_read_file-Isolated :
        Good ops count start size laws k.vfs
        → Sane im ctx
        → Isolated ops count start size laws im Stop k (sys_read_file ctx k)
    unfolding sys_read_file
    sys_read_file-Isolated g w = elim (Bool-cases (is_ok (validate_user_pointer ctx.r1 ctx.r2))) [
      | inr bad ↦ rw (sys_read_file, bad) (g, λ a ka. refl)
      | inl ok ↦
          let range = valid_range ctx.r1 ctx.r2 w.r1_small w.r2_small ok in
          let (g', kept, le) =
            read-Keeps ops count start size laws (Untouched im.locals) k.mem k.vfs k.mem
              (to_i32 ctx.r0) ctx.r1 ctx.r2 g (user-Clear im.locals ctx.r1 ctx.r2 range)
              (λ a ka. refl) in
          rw (sys_read_file, ok) (g', kept)
    ]

    sys_listdir-Isolated :
        Good ops count start size laws k.vfs
        → Sane im ctx
        → ctx.r2 * file_info_size < 2 ^ 32
        → Isolated ops count start size laws im Stop k (sys_listdir ctx k)
    unfolding sys_listdir
    sys_listdir-Isolated g w fits =
        elim (Bool-cases (is_ok (validate_user_pointer ctx.r0 max_path))) [
          | inr bad ↦ rw (sys_listdir, bad) (g, λ a ka. refl)
          | inl ok ↦
              elim (Bool-cases
                (is_ok (validate_user_pointer ctx.r1 (mul32 ctx.r2 file_info_size)))) [
                  | inr bad ↦ rw (sys_listdir, ok, bad) (g, λ a ka. refl)
                  | inl ok' ↦
                      let h1 = w.r1_small in
                      let h2 = w.r2_small in
                      let range =
                        valid_range ctx.r1 (mul32 ctx.r2 file_info_size) h1 (omega arith) ok' in
                      rw (sys_listdir, ok, ok')
                        (
                          g,
                          vfs_listdir-Kept ops laws (Untouched im.locals) k.vfs k.mem ctx.r0 ctx.r1
                              ctx.r2 g.mounted
                              (user-Clear im.locals ctx.r1 (to_ℕ (to_i32 ctx.r2) * file_info_size)
                                (ground (arith, range))),
                        )
                ]
        ]

    sys_exec-Isolated :
        Good ops count start size laws k.vfs
        → Sane im ctx
        → Isolated ops count start size laws im Stop k (sys_exec im ctx k)
    unfolding sys_exec
    sys_exec-Isolated g w =
        rest (exec im.locals k.vfs k.mem ctx.r0)
          (exec-Loads ops count start size laws im.locals w.placed k.vfs k.mem ctx.r0 g)
      where
        rest :
            (q : Progress)
            → Loads ops count start size laws im.locals w.placed k.mem q
            → Isolated ops count start size laws im Stop k (elim q [
              | spins ↦ stops
              | failed e v m ↦ done e ctx (record k { vfs = v; mem = m })
              | fine v m ↦
                  done e_ok
                    (record ctx { r0 = 0; r1 = 0; r2 = 0; r3 = 0; lr = e_entry m im.locals.ehdr })
                    (record k { vfs = v; mem = m })
            ])
        rest spins h = absurd h
        rest (failed e v m) h = h
        rest (fine v m) (g', kept, lo, hi) = (g', kept)

  dispatch-Isolated :
      (n : ℕ) (im : Image) (ctx : Ctx) (k : Kernel)
      → ctx.r7 ≡ n
      → Good ops count start size laws k.vfs
      → Sane im ctx
      → Isolated ops count start size laws im (Halts ctx) k (dispatch im n ctx k)
  unfolding dispatch sys_close step
  dispatch-Isolated zero im ctx k e g w = sys_write-Isolated ops count start size laws im _ ctx k g
  dispatch-Isolated (suc zero) im ctx k e g w =
      sys_exit-Isolated ops count start size laws im _ ctx k w.payload_fits (inl e) g
  dispatch-Isolated (suc (suc zero)) im ctx k e g w =
      sys_yield-Isolated ops count start size laws im _ ctx k (inr e) g
  dispatch-Isolated (suc (suc (suc zero))) im ctx k e g w =
      sys_read-Isolated ops count start size laws im _ ctx k g w.r0_small w.r1_small w.r2_small
  dispatch-Isolated (suc (suc (suc (suc zero)))) im ctx k e g w =
      sys_get_tasks-Isolated im _ ctx k g w (w.tasks_fit e)
  dispatch-Isolated (suc (suc (suc (suc (suc zero))))) im ctx k e g w =
      sys_get_meminfo-Isolated im _ ctx k g w
  dispatch-Isolated (suc (suc (suc (suc (suc (suc zero)))))) im ctx k e g w =
      sys_open-Isolated im _ ctx k g
  dispatch-Isolated (suc (suc (suc (suc (suc (suc (suc zero))))))) im ctx k e g w =
      sys_read_file-Isolated im _ ctx k g w
  dispatch-Isolated (suc (suc (suc (suc (suc (suc (suc (suc zero)))))))) im ctx k e g w =
      (step-Good ops count start size laws k.vfs (closes (to_i32 ctx.r0)) g, λ a ka. refl)
  dispatch-Isolated (suc (suc (suc (suc (suc (suc (suc (suc (suc zero))))))))) im ctx k e g w =
      sys_listdir-Isolated im _ ctx k g w (w.entries_fit e)
  dispatch-Isolated (suc (suc (suc (suc (suc (suc (suc (suc (suc (suc zero)))))))))) im ctx k e g
        w =
      sys_exec-Isolated im _ ctx k g w
  dispatch-Isolated (suc (suc (suc (suc (suc (suc (suc (suc (suc (suc (suc n))))))))))) im ctx k e g
        w =
      (g, λ a ka. refl)

  -- Memory isolation: whatever a system call asks for, the kernel writes to user memory only, and
  -- to the local variables of its program loader; a well-formed descriptor table stays well formed.
  -- The call comes back to its task or another one, unless it is the exit or the yield call. The
  -- conditions: a mounted file system that meets its laws, registers of 32 bits, loader variables
  -- placed outside user memory and apart from each other, a shell image of at most a megabyte, and
  -- for the two calls that fill a list of records, a number of records whose total size is below 2
  -- ^ 32.
  pub svc_handler-Isolated :
      (im : Image) (ctx : Ctx) (k : Kernel)
      → Good ops count start size laws k.vfs
      → Sane im ctx
      → Isolated ops count start size laws im (Halts ctx) k (svc_handler im ctx k)
  unfolding svc_handler
  svc_handler-Isolated im ctx k g w =
      rest (dispatch im ctx.r7 ctx k) (dispatch-Isolated ctx.r7 im ctx k refl g w)
    where
      rest :
          (h : Handled)
          → Isolated ops count start size laws im (Halts ctx) k h
          → Isolated ops count start size laws im (Halts ctx) k (elim h [
            | done e c k' ↦ done e (record c { r0 = to_u32 e }) k'
            | away a b e c k' ↦ away a b e (record c { r0 = to_u32 e }) k'
            | stops ↦ stops
          ])
      rest (done e c k') i = i
      rest (away a b e c k') i = i
      rest stops i = i
