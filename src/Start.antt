-- ===== src/Start.antt =====
-- Steps 1.6 to 4 of `kernel_main` (VinixOS/kernel/src/kernel/main.c): the file system, the shell's
-- program, the two tasks and the start of the scheduler. The addresses that the linker gives are
-- arguments.
pub mod Begun
pub mod Runs
use ref_arm_os.Base.{
  if◌then◌else◌, ◌>>=◌, codes, sub32, is_zero, ℕ, zero, suc, ◌+◌, ◌-◌, ◌*◌, Option, none, some,
  List,
}
use ref_arm_os.Memory.{Memory, store}
use ref_arm_os.Ramfs.{File, ramfs_init, ramfs_ops}
use ref_arm_os.Vfs.{Vfs, vfs_init, mount, root}
use ref_arm_os.Sched.{
  Task, Sched, ready, update_task, scheduler_init, scheduler_add_task, scheduler_start,
}
use ref_arm_os.Stack.{Context, task_stack_init, get_idle_task}

-- `_shell_payload_start` and `_shell_payload_end`, the code and the stack of the idle task,
-- `svc_exit_trampoline`, and where the two task structures lie
pub record Layout : Type 0 where
  pub payload_start : ℕ
  pub payload_end : ℕ
  pub idle_entry : ℕ
  pub idle_stack : ℕ
  pub trampoline : ℕ
  pub idle_task : ℕ
  pub shell_task : ℕ

abbrev pub user_space_va : ℕ
user_space_va = 0x40000000

-- USER_STACK_BASE and USER_STACK_SIZE
abbrev pub user_stack_base : ℕ
user_stack_base = user_space_va + 1 * 1024 * 1024

abbrev pub user_stack_size : ℕ
user_stack_size = 4096

-- "Initialize VFS and mount RAMFS"; `none` where the code halts. `ramfs_init` always gives E_OK.
unfoldable pub mount_root : List File → List ℕ → Option Vfs
mount_root files ends =
    let (ret, v) = mount vfs_init root (ramfs_ops (ramfs_init files ends)) in
    if is_zero ret then some v else none

-- `for (i = 0; i < payload_size; i++) dst[i] = src[i];` from `i` on, with `left` rounds left
unfoldable pub load_payload : (src dst left i : ℕ) → Memory → Memory
load_payload src dst zero i m = m
load_payload src dst (suc left) i m =
    load_payload src dst left (i + 1) (store m (dst + i) (m (src + i)))

-- the static `shell_task` with its name
abbrev pub shell_struct : Task
shell_struct = record {
  stack_base = 0;
  stack_size = 0;
  state = ready;
  name = some (codes "User App (Shell)");
  id = 0;
}

-- What the kernel is when the first task is entered.
pub record Running : Type 0 where
  pub vfs : Vfs
  pub mem : Memory
  pub sched : Sched
  pub idle_context : Context
  pub shell_context : Context

-- "Schedule Initialization" to the start; `none` where a stack is too small or the start fails.
unfoldable pub start_tasks : Layout → Vfs → Memory → Sched → Option Running
start_tasks l v m s = do
  (idle_context, idle, m1) ← get_idle_task l.idle_entry l.idle_stack l.trampoline m
  let (_, s1) = scheduler_add_task (update_task (scheduler_init s) l.idle_task idle) l.idle_task
  (shell_context, shell, m2) ←
      task_stack_init user_space_va (user_stack_base - user_stack_size) user_stack_size l.trampoline
        shell_struct m1
  let (_, s2) = scheduler_add_task (update_task s1 l.shell_task shell) l.shell_task
  s3 ← scheduler_start s2
  some (record {
    vfs = v;
    mem = m2;
    sched = s3;
    idle_context = idle_context;
    shell_context = shell_context;
  })

-- Steps 1.6 to 4.
unfoldable pub kernel_main : Layout → List File → List ℕ → Memory → Sched → Option Running
kernel_main l files ends m s = do
  v ← mount_root files ends
  let payload_size = sub32 l.payload_end l.payload_start
  start_tasks l v (load_payload l.payload_start user_space_va payload_size 0 m) s
