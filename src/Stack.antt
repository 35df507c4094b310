-- ===== src/Stack.antt =====
-- VinixOS/kernel/src/kernel/scheduler/task.c: the first frames on the stack of a task, and the idle
-- task of VinixOS/kernel/src/kernel/scheduler/idle.c. Diagnostic output is left out.
pub mod Push
pub mod Frames
use Prim.Native.Nat.{bit_or}
use ref_arm_os.Base.{
  leb, if◌then◌else◌, codes, add32, sub32, ℕ, zero, suc, true, Option, none, some,
}
use ref_arm_os.Memory.{Memory, store32}
use ref_arm_os.Sched.{Task, Sched, Yielded, ready, canary_value, scheduler_yield}

-- `stack_ptr`, and the memory that it points into
pub record Pushing : Type 0 where
  pub stack_ptr : ℕ
  pub mem : Memory

-- `*--stack_ptr = v`
unfoldable pub push : ℕ → Pushing → Pushing
push v s = let p = sub32 s.stack_ptr 4 in record { stack_ptr = p; mem = store32 s.mem p v }

-- "Push R0-R12": the registers below `n`, the highest first
unfoldable pub push_registers : (n : ℕ) → Pushing → Pushing
unfolding push
push_registers zero s = s
push_registers (suc i) s = push_registers i (push (bit_or 0x0BAD0000 i) s)

-- "Push R11-R3": `n` zeros
unfoldable pub push_zeros : (n : ℕ) → Pushing → Pushing
unfolding push
push_zeros zero s = s
push_zeros (suc n) s = push_zeros n (push 0 s)

-- the two frames, `trampoline` being the address of `svc_exit_trampoline`
unfoldable pub push_frames : (entry_point trampoline : ℕ) → Pushing → Pushing
unfolding push_zeros push_registers push
push_frames entry_point trampoline s =
    let spsr_mode = if leb 0xC0000000 entry_point then 0x13 else 0x10 in
    let user = push spsr_mode (push 0 (push_registers 13 (push entry_point s))) in
    push_zeros 9 (push trampoline user)

-- KERNEL_STACK_RESERVE
abbrev pub kernel_stack_reserve : ℕ
kernel_stack_reserve = 512

-- The fields of `struct task_context` that the function sets.
pub record Context : Type 0 where
  pub sp : ℕ
  pub sp_usr : ℕ
  pub lr_usr : ℕ

-- `task_stack_init`: the context, the task and the memory, or `none` for a panic.
unfoldable pub task_stack_init :
    (entry_point stack_base stack_size trampoline : ℕ)
    → Task
    → Memory
    → Option (Context × Task × Memory)
unfolding push_frames
task_stack_init entry_point stack_base stack_size trampoline t m =
    let top = add32 stack_base stack_size in
    let s =
      push_frames entry_point trampoline
        (record { stack_ptr = top; mem = store32 m stack_base canary_value }) in
    let sp_usr = sub32 top kernel_stack_reserve in
    if leb s.stack_ptr stack_base
    then none
    else if leb sp_usr stack_base
    then none
    else some (
      record { sp = s.stack_ptr; sp_usr = sp_usr; lr_usr = entry_point },
      record t { stack_base = stack_base; stack_size = stack_size; state = ready },
      s.mem,
    )

-- IDLE_STACK_SIZE
abbrev pub idle_stack_size : ℕ
idle_stack_size = 4096

-- `get_idle_task`, with the addresses of `idle_task` and of `idle_stack`
unfoldable pub get_idle_task :
    (idle_entry idle_stack trampoline : ℕ) → Memory → Option (Context × Task × Memory)
unfolding task_stack_init
get_idle_task idle_entry idle_stack trampoline m =
    task_stack_init idle_entry idle_stack idle_stack_size trampoline
      (record { stack_base = 0; stack_size = 0; state = ready; name = some (codes "idle"); id = 0 })
      m

-- One turn of `idle_task`: the count, and what `scheduler_yield` comes to, after which the processor
-- waits for an interrupt.
unfoldable pub idle_turn : ℕ → Memory → Sched → ℕ × Yielded
idle_turn counter m s = (add32 counter 1, scheduler_yield m (record s { need_reschedule = true }))
