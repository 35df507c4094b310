-- ===== src/Svc/Isolation.antt =====
-- `svc_handler` of VinixOS/kernel/src/kernel/core/svc_handler.c against memory outside user space.
use ref_arm_os.Base.{
  ltb, ◌==◌, Bool-cases, Option-cases, ℤ, pos, sub32, is_neg, ℕ, ◌+◌, ◌^◌, ◌≤◌, ◌<◌, ◌≡◌, refl, ◌∙◌,
  ◌⊎◌, inl, inr, not, ◌&&◌, some, arith,
}
use ref_arm_os.Memory.{Memory, store32}
use ref_arm_os.User.{user_start, user_end, validate_user_pointer, is_ok, valid_range}
use ref_arm_os.Exec.{Locals}
use ref_arm_os.Exec.Loops.{Clear, Kept}
use ref_arm_os.Exec.Segments.{user_size, Untouched}
use ref_arm_os.Svc.{
  Image, Kernel, Ctx, Handled, done, away, stops, user_buffer, sys_write, sys_read, after_yield,
  sys_yield, is_shell, restart_shell, sys_exit, mem_info_size, total_memory, free_memory,
  put_meminfo,
}
use ref_arm_os.FsOps.{FsOps, FsLaws}
use ref_arm_os.Vfs.Run.{Good}
use ref_arm_os.Sched.{Yielded, returns, switches, panics, faults, scheduler_terminate_task}
use ref_arm_os.Errno.{e_ok}
use ref_arm_os.Memory.Copy.{memcpy_frame}
use ref_arm_os.Uart.{uart_getc}

pub user-Clear :
    (l : Locals) (p n : ℕ) → (user_start ≤ p) × (p + n ≤ user_end) → Clear (Untouched l) p n
user-Clear l p n (lo, hi) a ka = ground (arith, ka.0.0)

store32_frame : (m : Memory) (p v a : ℕ) → (a < p) ⊎ (p + 4 ≤ a) → store32 m p v a ≡ m a
store32_frame m p v a out = ground arith

pub put_meminfo_frame :
    (im : Image) (p : ℕ) (m : Memory) (a : ℕ)
    → (a < p) ⊎ (p + mem_info_size ≤ a)
    → put_meminfo im p m a ≡ m a
unfolding put_meminfo
put_meminfo_frame im p m a out =
    let m1 = store32 m p total_memory in
    let m2 = store32 m1 (p + 8) (sub32 im.text_end im.text_start) in
    let m3 = store32 m2 (p + 12) (sub32 im.data_end im.data_start) in
    let m4 = store32 m3 (p + 16) (sub32 im.bss_end im.bss_start) in
    let m5 = store32 m4 (p + 20) (sub32 im.svc_stack_top im.stack_start) in
    let e1 = store32_frame m p total_memory a (ground arith) in
    let e2 = store32_frame m1 (p + 8) (sub32 im.text_end im.text_start) a (ground arith) in
    let e3 = store32_frame m2 (p + 12) (sub32 im.data_end im.data_start) a (ground arith) in
    let e4 = store32_frame m3 (p + 16) (sub32 im.bss_end im.bss_start) a (ground arith) in
    let e5 = store32_frame m4 (p + 20) (sub32 im.svc_stack_top im.stack_start) a (ground arith) in
    let e6 = store32_frame m5 (p + 4) (free_memory im) a (ground arith) in
    e6 ∙ (e5 ∙ (e4 ∙ (e3 ∙ (e2 ∙ e1))))

pub user_buffer-range :
    (ctx : Ctx) (d fd buf len : ℕ)
    → ctx.r0 < 2 ^ 32
    → ctx.r1 < 2 ^ 32
    → ctx.r2 < 2 ^ 32
    → user_buffer d ctx ≡ some (fd, buf, len)
    → (user_start ≤ buf) × (buf + len ≤ user_end)
unfolding user_buffer
user_buffer-range ctx d fd buf len h0 h1 h2 e =
    elim (Bool-cases (is_ok (validate_user_pointer ctx.r0 ctx.r1))) [
      | inl ok ↦ ground (arith, valid_range ctx.r0 ctx.r1 h0 h1 ok)
      | inr bad ↦ elim (Bool-cases (is_ok (validate_user_pointer ctx.r1 ctx.r2))) [
        | inl ok ↦ ground (arith, valid_range ctx.r1 ctx.r2 h1 h2 ok)
        | inr worse ↦ ground arith
      ]
    ]

module _ (ops : FsOps) (count : ℕ) (start size : ℕ → ℕ) (laws : FsLaws ops count start size) where
  -- Where the kernel goes on, the descriptor table is well formed, and memory is as it was but for
  -- user memory and the locals of the loader; `Stop` holds where it does not go on.
  abbrev pub Isolated : Image → Type 0 → Kernel → Handled → Type 0
  Isolated im Stop k (done e c k') =
      Good ops count start size laws k'.vfs × Kept (Untouched im.locals) k.mem k'.mem
  Isolated im Stop k (away a b e c k') =
      Good ops count start size laws k'.vfs × Kept (Untouched im.locals) k.mem k'.mem
  Isolated im Stop k stops = Stop

  after_yield-Isolated :
      (im : Image) (Stop : Type 0) (e : ℤ) (ctx : Ctx) (k : Kernel) (y : Yielded)
      → Stop
      → Good ops count start size laws k.vfs
      → Isolated im Stop k (after_yield e ctx k y)
  unfolding after_yield
  after_yield-Isolated im Stop e ctx k (returns s) stop g = (g, λ a ka. refl)
  after_yield-Isolated im Stop e ctx k (switches a b s) stop g = (g, λ c kc. refl)
  after_yield-Isolated im Stop e ctx k panics stop g = stop
  after_yield-Isolated im Stop e ctx k faults stop g = stop

  pub sys_write-Isolated :
      (im : Image) (Stop : Type 0) (ctx : Ctx) (k : Kernel)
      → Good ops count start size laws k.vfs
      → Isolated im Stop k (sys_write ctx k)
  unfolding sys_write
  sys_write-Isolated im Stop ctx k g = elim (Option-cases (user_buffer 1 ctx)) [
    | inl e ↦ rw (sys_write, e) (g, λ a ka. refl)
    | inr ((fd, buf, len), e) ↦ elim (Bool-cases (not (fd == 1) && not (fd == 2))) [
      | inl bad ↦ rw (sys_write, e, bad) (g, λ a ka. refl)
      | inr ok ↦ elim (Bool-cases (ltb 256 len)) [
        | inl long ↦ rw (sys_write, e, ok, long) (g, λ a ka. refl)
        | inr short ↦ rw (sys_write, e, ok, short) (g, λ a ka. refl)
      ]
    ]
  ]

  pub sys_read-Isolated :
      (im : Image) (Stop : Type 0) (ctx : Ctx) (k : Kernel)
      → Good ops count start size laws k.vfs
      → ctx.r0 < 2 ^ 32
      → ctx.r1 < 2 ^ 32
      → ctx.r2 < 2 ^ 32
      → Isolated im Stop k (sys_read ctx k)
  unfolding sys_read
  sys_read-Isolated im Stop ctx k g h0 h1 h2 = elim (Option-cases (user_buffer 0 ctx)) [
    | inl e ↦ rw (sys_read, e) (g, λ a ka. refl)
    | inr ((fd, buf, len), e) ↦ elim (Bool-cases (fd == 0)) [
      | inr bad ↦ rw (sys_read, e, bad) (g, λ a ka. refl)
      | inl ok ↦ elim (Bool-cases (is_ok (validate_user_pointer buf len))) [
        | inr bad ↦ rw (sys_read, e, ok, bad) (g, λ a ka. refl)
        | inl ok' ↦ elim (Bool-cases (len == 0)) [
          | inl none_asked ↦ rw (sys_read, e, ok, ok', none_asked) (g, λ a ka. refl)
          | inr some_asked ↦ elim (Bool-cases (is_neg (uart_getc k.rx).0)) [
            | inl empty ↦ rw (sys_read, e, ok, ok', some_asked, empty) (g, λ a ka. refl)
            | inr got ↦
                let range = user_buffer-range ctx 0 fd buf len h0 h1 h2 e in
                rw (sys_read, e, ok, ok', some_asked, got)
                  (g, λ a ka. let c = user-Clear im.locals buf len range a ka in ground arith)
          ]
        ]
      ]
    ]
  ]

  pub sys_yield-Isolated :
      (im : Image) (Stop : Type 0) (ctx : Ctx) (k : Kernel)
      → Stop
      → Good ops count start size laws k.vfs
      → Isolated im Stop k (sys_yield ctx k)
  unfolding sys_yield
  sys_yield-Isolated im Stop ctx k stop g = after_yield-Isolated im Stop e_ok ctx k _ stop g

  pub sys_exit-Isolated :
      (im : Image) (Stop : Type 0) (ctx : Ctx) (k : Kernel)
      → sub32 im.payload_end im.payload_start ≤ user_size
      → Stop
      → Good ops count start size laws k.vfs
      → Isolated im Stop k (sys_exit im ctx k)
  unfolding sys_exit restart_shell
  sys_exit-Isolated im Stop ctx k fits stop g = elim (Option-cases k.sched.current_task) [
    | inl e ↦ rw (sys_exit, e) stop
    | inr (c, e) ↦ elim (Bool-cases (is_shell (k.sched.structs c))) [
      | inl shell ↦
          rw (sys_exit, e, shell)
            (
              g,
              λ a ka.
                  memcpy_frame (sub32 im.payload_end im.payload_start) user_start im.payload_start
                    k.mem a (user-Clear im.locals user_start _ (omega arith, omega arith) a ka),
            )
      | inr other ↦
          rw (sys_exit, e, other)
            (after_yield-Isolated im Stop (pos 0) ctx k
              (scheduler_terminate_task k.mem k.sched (k.sched.structs c).id) stop g)
    ]
  ]
