-- ===== src/Svc.antt =====
-- VinixOS/kernel/src/kernel/core/svc_handler.c: the system calls and their dispatcher. Diagnostic
-- output of the kernel is left out; what a task writes is not.
pub mod Writes
pub mod Isolation
pub mod Handler
pub mod Console
use ref_arm_os.Base.{
  ltb, ◌==◌, if◌then◌else◌, ℤ, pos, sub32, mul32, is_neg, to_i32, to_u32, ℕ, zero, suc, ◌+◌, ◌%◌,
  Bool, true, false, not, ◌&&◌, Option, none, some, List, [], ◌∷◌, ◌++◌,
}
use ref_arm_os.Errno.{e_ok, e_inval, e_arg, e_ptr}
use ref_arm_os.Memory.{Memory, store, literal, memcpy, strcmp, is_match, store32}
use ref_arm_os.Vfs.{Vfs, vfs_open, vfs_read, vfs_close, file_info_size, vfs_listdir}
use ref_arm_os.User.{user_start, validate_user_pointer, is_ok}
use ref_arm_os.Exec.{Locals, fine, failed, spins, e_entry, exec}
use ref_arm_os.Sched.{
  Task, Sched, Yielded, returns, switches, panics, faults, scheduler_yield,
  scheduler_terminate_task, process_info_size, scheduler_get_tasks,
}
use ref_arm_os.Uart.{Rx, uart_getc}

-- What the linker places: the shell's image, the sections, and the locals of `sys_exec`.
pub record Image : Type 0 where
  pub payload_start : ℕ
  pub payload_end : ℕ
  pub text_start : ℕ
  pub text_end : ℕ
  pub data_start : ℕ
  pub data_end : ℕ
  pub bss_start : ℕ
  pub bss_end : ℕ
  pub stack_start : ℕ
  pub svc_stack_top : ℕ
  pub kernel_end : ℕ
  pub locals : Locals

-- `tx` is what tasks have written, as `uart_putc` sends it, in order.
pub record Kernel : Type 0 where
  pub mem : Memory
  pub vfs : Vfs
  pub sched : Sched
  pub rx : Rx
  pub tx : List ℕ

-- The registers of `struct svc_context` that the handlers use.
pub record Ctx : Type 0 where
  pub r0 : ℕ
  pub r1 : ℕ
  pub r2 : ℕ
  pub r3 : ℕ
  pub r7 : ℕ
  pub lr : ℕ

-- A handler returns a code; or the kernel switches away from task `prev` to `next`, and the code is
-- what `prev` finds when it is resumed; or the kernel stops, by a panic or a null pointer or a loop
-- that runs out of fuel.
pub data Handled : Type 0 where
  done : ℤ → Ctx → Kernel → Handled
  away : ℕ → ℕ → ℤ → Ctx → Kernel → Handled
  stops : Handled

-- The bytes of a region, and what `sys_write` sends for them: a CR before each LF.
abbrev pub bytes_at : Memory → ℕ → ℕ → List ℕ
bytes_at m p zero = []
bytes_at m p (suc n) = m p ∷ bytes_at m (p + 1) n

unfoldable pub crlf : List ℕ → List ℕ
crlf [] = []
crlf (c ∷ cs) = let rest = crlf cs in if c == 10 then 13 ∷ c ∷ rest else c ∷ rest

-- The two calling conventions of `sys_write` and `sys_read`: `(buf, len)` at descriptor `fd`, or
-- `(fd, buf, len)`.
unfoldable pub user_buffer : ℕ → Ctx → Option (ℕ × ℕ × ℕ)
user_buffer fd ctx =
    if is_ok (validate_user_pointer ctx.r0 ctx.r1)
    then some (fd, ctx.r0, ctx.r1)
    else if is_ok (validate_user_pointer ctx.r1 ctx.r2)
    then some (ctx.r0, ctx.r1, ctx.r2)
    else none

unfoldable pub sys_write : Ctx → Kernel → Handled
unfolding user_buffer crlf
sys_write ctx k = elim (user_buffer 1 ctx) [
  | none ↦ done e_ptr ctx k
  | some (fd, buf, len) ↦
      let sent = record k { tx = k.tx ++ crlf (bytes_at k.mem buf len) } in
      if not (fd == 1) && not (fd == 2)
      then done e_arg ctx k
      else if ltb 256 len
      then done e_arg ctx k
      else done (pos len) ctx sent
]

unfoldable pub sys_read : Ctx → Kernel → Handled
unfolding user_buffer
sys_read ctx k = elim (user_buffer 0 ctx) [
  | none ↦ done e_ptr ctx k
  | some (fd, buf, len) ↦
      let (c, rx') = uart_getc k.rx in
      let got = record k { rx = rx'; mem = store k.mem buf (to_u32 c % 256) } in
      if not (fd == 0)
      then done e_arg ctx k
      else if not (is_ok (validate_user_pointer buf len))
      then done e_ptr ctx k
      else if len == 0
      then done (pos 0) ctx k
      else if is_neg c
      then done (pos 0) ctx (record k { rx = rx' })
      else done (pos 1) ctx got
]

-- What a handler makes of `scheduler_yield` or `scheduler_terminate_task`.
unfoldable pub after_yield : ℤ → Ctx → Kernel → Yielded → Handled
after_yield e ctx k (returns s) = done e ctx (record k { sched = s })
after_yield e ctx k (switches a b s) = away a b e ctx (record k { sched = s })
after_yield e ctx k panics = stops
after_yield e ctx k faults = stops

unfoldable pub sys_yield : Ctx → Kernel → Handled
unfolding after_yield
sys_yield ctx k =
    after_yield e_ok ctx k (scheduler_yield k.mem (record k.sched { need_reschedule = true }))

-- "User App (Shell)"
abbrev pub shell_name : List ℕ
shell_name =
    b'U' ∷ b's' ∷ b'e' ∷ b'r' ∷ b' ' ∷ b'A' ∷ b'p' ∷ b'p' ∷ b' ' ∷ b'(' ∷ b'S' ∷ b'h' ∷ b'e' ∷ b'l'
    ∷ b'l' ∷ b')' ∷ []

-- A task without a name does not compare equal (the code would read through the null pointer; every
-- task that `kernel_main` adds has one).
abbrev pub is_shell : Task → Bool
is_shell t = elim t.name [
  | none ↦ false
  | some n ↦ is_match (strcmp 17 (literal n) (literal shell_name))
]

-- The shell's image copied back to the start of user memory, and a jump to it.
unfoldable pub restart_shell : Image → Ctx → Kernel → Handled
restart_shell im ctx k =
    done e_ok (record ctx { r0 = 0; r1 = 0; r2 = 0; r3 = 0; lr = user_start })
      (record k {
        mem = memcpy user_start im.payload_start (sub32 im.payload_end im.payload_start) k.mem;
      })

unfoldable pub sys_exit : Image → Ctx → Kernel → Handled
unfolding restart_shell after_yield
sys_exit im ctx k = elim k.sched.current_task [
  | none ↦ stops
  | some c ↦
      let t = k.sched.structs c in
      if is_shell t
      then restart_shell im ctx k
      else after_yield (pos 0) ctx k (scheduler_terminate_task k.mem k.sched t.id)
]

-- The size of the buffer is a product modulo 2 ^ 32.
unfoldable pub sys_get_tasks : Ctx → Kernel → Handled
sys_get_tasks ctx k =
    let (n, m') = scheduler_get_tasks k.sched ctx.r0 ctx.r1 k.mem in
    if is_ok (validate_user_pointer ctx.r0 (mul32 ctx.r1 process_info_size))
    then done (to_i32 n) ctx (record k { mem = m' })
    else done e_ptr ctx k

-- `sizeof(mem_info_t)` and the total of 128 MB
abbrev pub mem_info_size : ℕ
mem_info_size = 24

abbrev pub total_memory : ℕ
total_memory = 134217728

-- The field `free` of `mem_info_t`.
unfoldable pub free_memory : Image → ℕ
free_memory im = sub32 total_memory (sub32 im.kernel_end 0x80000000)

unfoldable pub put_meminfo : Image → ℕ → Memory → Memory
unfolding free_memory
put_meminfo im p m =
    let m1 = store32 m p total_memory in
    let m2 = store32 m1 (p + 8) (sub32 im.text_end im.text_start) in
    let m3 = store32 m2 (p + 12) (sub32 im.data_end im.data_start) in
    let m4 = store32 m3 (p + 16) (sub32 im.bss_end im.bss_start) in
    let m5 = store32 m4 (p + 20) (sub32 im.svc_stack_top im.stack_start) in
    store32 m5 (p + 4) (free_memory im)

unfoldable pub sys_get_meminfo : Image → Ctx → Kernel → Handled
unfolding put_meminfo
sys_get_meminfo im ctx k =
    if is_ok (validate_user_pointer ctx.r0 mem_info_size)
    then done e_ok ctx (record k { mem = put_meminfo im ctx.r0 k.mem })
    else done e_ptr ctx k

abbrev pub max_path : ℕ
max_path = 256

unfoldable pub sys_open : Ctx → Kernel → Handled
sys_open ctx k =
    let (fd, v) = vfs_open k.vfs k.mem ctx.r0 (to_i32 ctx.r1) in
    if is_ok (validate_user_pointer ctx.r0 max_path)
    then done fd ctx (record k { vfs = v })
    else done e_ptr ctx k

unfoldable pub sys_read_file : Ctx → Kernel → Handled
sys_read_file ctx k =
    let (n, v, m) = vfs_read k.vfs k.mem (to_i32 ctx.r0) ctx.r1 ctx.r2 in
    if is_ok (validate_user_pointer ctx.r1 ctx.r2)
    then done n ctx (record k { vfs = v; mem = m })
    else done e_ptr ctx k

unfoldable pub sys_close : Ctx → Kernel → Handled
sys_close ctx k = let (e, v) = vfs_close k.vfs (to_i32 ctx.r0) in done e ctx (record k { vfs = v })

unfoldable pub sys_listdir : Ctx → Kernel → Handled
sys_listdir ctx k =
    let (n, m) = vfs_listdir k.vfs k.mem ctx.r0 ctx.r1 ctx.r2 in
    if not (is_ok (validate_user_pointer ctx.r0 max_path))
    then done e_ptr ctx k
    else if not (is_ok (validate_user_pointer ctx.r1 (mul32 ctx.r2 file_info_size)))
    then done e_ptr ctx k
    else done n ctx (record k { mem = m })

unfoldable pub sys_exec : Image → Ctx → Kernel → Handled
sys_exec im ctx k = elim (exec im.locals k.vfs k.mem ctx.r0) [
  | spins ↦ stops
  | failed e v m ↦ done e ctx (record k { vfs = v; mem = m })
  | fine v m ↦
      done e_ok (record ctx { r0 = 0; r1 = 0; r2 = 0; r3 = 0; lr = e_entry m im.locals.ehdr })
        (record k { vfs = v; mem = m })
]

-- The `switch` on the system call number.
unfoldable pub dispatch : Image → ℕ → Ctx → Kernel → Handled
unfolding sys_write sys_exit sys_yield sys_read sys_get_tasks sys_get_meminfo sys_open sys_read_file
    sys_close sys_listdir sys_exec
dispatch im zero ctx k = sys_write ctx k
dispatch im (suc zero) ctx k = sys_exit im ctx k
dispatch im (suc (suc zero)) ctx k = sys_yield ctx k
dispatch im (suc (suc (suc zero))) ctx k = sys_read ctx k
dispatch im (suc (suc (suc (suc zero)))) ctx k = sys_get_tasks ctx k
dispatch im (suc (suc (suc (suc (suc zero))))) ctx k = sys_get_meminfo im ctx k
dispatch im (suc (suc (suc (suc (suc (suc zero)))))) ctx k = sys_open ctx k
dispatch im (suc (suc (suc (suc (suc (suc (suc zero))))))) ctx k = sys_read_file ctx k
dispatch im (suc (suc (suc (suc (suc (suc (suc (suc zero)))))))) ctx k = sys_close ctx k
dispatch im (suc (suc (suc (suc (suc (suc (suc (suc (suc zero))))))))) ctx k = sys_listdir ctx k
dispatch im (suc (suc (suc (suc (suc (suc (suc (suc (suc (suc zero)))))))))) ctx k =
    sys_exec im ctx k
dispatch im _ ctx k = done e_inval ctx k

-- `svc_handler`: the code goes to `r0` of the saved registers.
unfoldable pub svc_handler : Image → Ctx → Kernel → Handled
unfolding dispatch
svc_handler im ctx k = elim (dispatch im ctx.r7 ctx k) [
  | done e c k' ↦ done e (record c { r0 = to_u32 e }) k'
  | away a b e c k' ↦ away a b e (record c { r0 = to_u32 e }) k'
  | stops ↦ stops
]
