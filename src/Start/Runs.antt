-- ===== src/Start/Runs.antt =====
-- The kernel of VinixOS/kernel/src/kernel/main.c when the first task is entered.
use ref_arm_os.Base.{
  codes, sub32, ℕ, zero, suc, ◌+◌, ◌-◌, ◌^◌, ◌≤◌, ◌<◌, ◌≡◌, refl, ap, ◌∙◌, ◌≢◌, inl, inr, some,
  List, arith,
}
use ref_arm_os.Memory.{Memory, store, memcpy, load32}
use ref_arm_os.Ramfs.{File, ramfs_init, ramfs_ops}
use ref_arm_os.Vfs.{Vfs, vfs_init, mount}
use ref_arm_os.Vfs.Run.{booted}
use ref_arm_os.Sched.{Task, Sched, ready, running, state_of, canary_value, slot}
use ref_arm_os.Sched.Valid.{IsCurrent}
use ref_arm_os.Stack.{Context, task_stack_init, get_idle_task}
use ref_arm_os.Stack.Push.{StandBelow}
use ref_arm_os.Stack.Frames.{IsStack, frame_words, task_stack_init-Frames}
use ref_arm_os.Start.Begun.{Scheduled, scheduled, scheduled_lem}
use ref_arm_os.Start.{
  Layout, Running, user_space_va, user_stack_base, user_stack_size, mount_root, load_payload,
  shell_struct, start_tasks, kernel_main,
}
use ref_arm_os.Memory.Words.{load32-same}
use ref_arm_os.Sched.Fair.{Intact, yields, ready_task_runs}
use ref_arm_os.Memory.Copy.{memcpy_copies}

-- the loop of `kernel_main` is a `memcpy`
load_payload-memcpy :
    (n src dst i : ℕ) (m : Memory) → load_payload src dst n i m ≡ memcpy (dst + i) (src + i) n m
unfolding load_payload memcpy
load_payload-memcpy zero src dst i m = refl
load_payload-memcpy (suc n) src dst i m =
    let next : Memory = store m (dst + i) (m (src + i)) in
    load_payload-memcpy n src dst (i + 1) next
    ∙ ap (λ a. memcpy a (src + (i + 1)) n next) (omega arith)
    ∙ ap (λ a. memcpy (dst + i + 1) a n next) (omega arith)

mount_root_lem :
    (files : List File) (ends : List ℕ)
    → mount_root files ends ≡ some (booted (ramfs_ops (ramfs_init files ends)))
unfolding mount_root booted mount vfs_init
mount_root_lem files ends = refl

-- What the linker and the build promise: a program that leaves room for the stack in the megabyte,
-- kernel addresses above it, and two distinct task structures.
pub record IsLayout (l : Layout) (size : ℕ) : Type 0 where
  pub payload : l.payload_end ≡ l.payload_start + size
  pub small : size ≤ 0x100000 - 4096
  pub outside : 0x40100000 ≤ l.payload_start
  pub end_word : l.payload_end < 2 ^ 32
  pub entry_word : l.idle_entry < 2 ^ 32
  pub trampoline_word : l.trampoline < 2 ^ 32
  pub stack_outside : 0x40100000 ≤ l.idle_stack
  pub stack_word : l.idle_stack + 4096 < 2 ^ 32
  pub distinct : l.idle_task ≢ l.shell_task

-- The kernel runs the idle task, next to the shell, whose program stands at the entry point.
pub record Runs (l : Layout) (size : ℕ) (files : List File) (m : Memory) (r : Running)
    : Type 0 where
  pub mounted : r.vfs ≡ booted (ramfs_ops files)
  pub current : IsCurrent r.sched l.idle_task
  pub shell_ready : slot r.sched 1 ≡ some l.shell_task
  pub loaded : (i : ℕ) → i < size → r.mem (0x40000000 + i) ≡ m (l.payload_start + i)
  pub entry : r.shell_context.lr_usr ≡ 0x40000000
  pub user_stack : r.shell_context.sp_usr ≡ 0x400FFE00
  pub frames : StandBelow 0x40100000 (frame_words 0x40000000 l.trampoline) r.mem
  pub canary : load32 r.mem 0x400FF000 ≡ canary_value
  pub idle_stack : r.idle_context.sp ≡ l.idle_stack + 4096 - 104
  pub shell_runs :
      (n : ℕ) × (s' : Sched) × (n ≤ 3)
      × (yields r.mem n r.sched ≡ some s')
      × (s'.current_task ≡ some l.shell_task)
      × (state_of s' l.shell_task ≡ running)

-- a stack that is big enough
big_enough :
    (e t base size : ℕ) (task : Task) (m : Memory)
    → e < 2 ^ 32
    → t < 2 ^ 32
    → base + size < 2 ^ 32
    → 512 < size
    → (r : Context × Task × Memory) × (task_stack_init e base size t task m ≡ some r)
      × IsStack e t base size task m r
big_enough e t base size task m he ht h l =
    elim (task_stack_init-Frames e t base size task m he ht h (omega arith)) [
      | inl (_, r, e, made) ↦ (r, e, made)
      | inr (small, _) ↦ absurd (omega arith)
    ]

size_lem : (l : Layout) (size : ℕ) → IsLayout l size → sub32 l.payload_end l.payload_start ≡ size
size_lem l size w = let p = w.payload in let b = w.end_word in ground arith

abbrev idle_struct : Task
idle_struct = record {
  stack_base = 0;
  stack_size = 0;
  state = ready;
  name = some (codes "idle");
  id = 0;
}

-- `start_tasks` from what its calls give
start_tasks_lem :
    (l : Layout) (v : Vfs) (m : Memory) (s s' : Sched) (idle shell : Context × Task × Memory)
    → get_idle_task l.idle_entry l.idle_stack l.trampoline m ≡ some idle
    → task_stack_init user_space_va
        (user_stack_base - user_stack_size)
        user_stack_size
        l.trampoline
        shell_struct
        idle.2
      ≡ some shell
    → scheduled s l.idle_task l.shell_task idle.1 shell.1 ≡ some s'
    → start_tasks l v m s
      ≡ some (record {
        vfs = v;
        mem = shell.2;
        sched = s';
        idle_context = idle.0;
        shell_context = shell.0;
      })
unfolding start_tasks
start_tasks_lem l v m s s' idle shell e f g = rw (e, f, g) refl

idle_lem :
    (e k t : ℕ) (m : Memory) → get_idle_task e k t m ≡ task_stack_init e k 4096 t idle_struct m
unfolding get_idle_task
idle_lem e k t m = refl

-- a byte below the shell's stack, after both stacks were set up
below_stacks :
    (l : Layout) (size : ℕ) (m : Memory) (idle shell : Context × Task × Memory) (a : ℕ)
    → IsLayout l size
    → IsStack l.idle_entry l.trampoline l.idle_stack 4096 idle_struct m idle
    → IsStack 0x40000000 l.trampoline 0x400FF000 4096 shell_struct idle.2 shell
    → a < 0x400FF000
    → shell.2 a ≡ m a
below_stacks l size m idle shell a w i h low =
    h.rest a (inl low) ∙ i.rest a (inl (let k = w.stack_outside in omega arith))

-- the first turns of the two tasks
shell_runs_lem :
    (l : Layout) (size : ℕ) (m : Memory) (s' : Sched) (idle shell : Context × Task × Memory)
    → IsLayout l size
    → IsStack l.idle_entry l.trampoline l.idle_stack 4096 idle_struct m idle
    → IsStack 0x40000000 l.trampoline 0x400FF000 4096 shell_struct idle.2 shell
    → Scheduled s' l.idle_task l.shell_task idle.1 shell.1
    → (n : ℕ) × (s2 : Sched) × (n ≤ 3)
      × (yields shell.2 n s' ≡ some s2)
      × (s2.current_task ≡ some l.shell_task)
      × (state_of s2 l.shell_task ≡ running)
shell_runs_lem l size m s' idle shell w i h b =
    let idle_guard : load32 shell.2 l.idle_stack ≡ canary_value =
      load32-same idle.2 shell.2 l.idle_stack
        (λ a low high. h.rest a (inr (inr (let k = w.stack_outside in omega arith))))
      ∙ i.canary in
    let guards : Intact shell.2 s' =
      b.guarded shell.2 (ap (λ x. load32 shell.2 x.stack_base) i.task_eq ∙ idle_guard)
        (ap (λ x. load32 shell.2 x.stack_base) h.task_eq ∙ h.canary) in
    let two = b.counted in
    let first = b.first in
    ready_task_runs shell.2 s' l.idle_task 1 l.shell_task b.current b.idle_runs guards (omega arith)
      (omega arith) (omega arith) b.second b.shell_waits

payload_lem :
    (l : Layout) (size : ℕ) (m : Memory) (i : ℕ)
    → IsLayout l size
    → i < size
    → load_payload l.payload_start 0x40000000 size 0 m (0x40000000 + i) ≡ m (l.payload_start + i)
payload_lem l size m i w h =
    ap (λ n. n (0x40000000 + i)) (load_payload-memcpy size l.payload_start 0x40000000 0 m)
    ∙ memcpy_copies size (0x40000000 + 0) (l.payload_start + 0) m i (0x40000000 + i)
        (l.payload_start + i) (inl (let small = w.small in let out = w.outside in omega arith)) h
        (omega arith) (omega arith)

-- For a layout as the linker promises it: `kernel_main` reaches the first task. The RAM file system is
-- mounted, the scheduler's invariant holds with the idle task current and the shell behind it, each
-- byte of the shell's program stands at the entry point and up, both stacks having been set up after
-- it was copied, and the shell's stack holds the frames that enter user mode at that entry point. The shell is the current task
-- and RUNNING after at most three yields.
pub kernel_main-Runs :
    (l : Layout) (size : ℕ) (files : List File) (ends : List ℕ) (m : Memory) (s : Sched)
    → IsLayout l size
    → (r : Running) × (kernel_main l files ends m s ≡ some r)
      × Runs l size (ramfs_init files ends) m r
unfolding kernel_main
kernel_main-Runs l size files ends m s w =
    let loaded : Memory = load_payload l.payload_start 0x40000000 size 0 m in
    let (idle, e, idle_made) =
      big_enough l.idle_entry l.trampoline l.idle_stack 4096 idle_struct loaded w.entry_word
        w.trampoline_word w.stack_word (omega arith) in
    let (shell, f, shell_made) =
      big_enough 0x40000000 l.trampoline 0x400FF000 4096 shell_struct idle.2 (omega arith)
        w.trampoline_word (omega arith) (omega arith) in
    let (s', g, begins) = scheduled_lem s l.idle_task l.shell_task idle.1 shell.1 w.distinct in
    let v : Vfs = booted (ramfs_ops (ramfs_init files ends)) in
    let r : Running = record {
      vfs = v;
      mem = shell.2;
      sched = s';
      idle_context = idle.0;
      shell_context = shell.0;
    } in
    let begun : start_tasks l v loaded s ≡ some r =
      start_tasks_lem l v loaded s s' idle shell
        (idle_lem l.idle_entry l.idle_stack l.trampoline loaded ∙ e) f g in
    (
      r,
      rw (mount_root_lem files ends, size_lem l size w) begun,
      record {
        mounted = refl;
        current = begins.current;
        shell_ready = begins.second;
        loaded = λ i h.
            below_stacks l size loaded idle shell (0x40000000 + i) w idle_made shell_made
              (let small = w.small in omega arith)
            ∙ payload_lem l size m i w h;
        entry = shell_made.lr_usr_eq;
        user_stack = shell_made.sp_usr_eq;
        frames = shell_made.frames;
        canary = shell_made.canary;
        idle_stack = idle_made.sp_eq;
        shell_runs = shell_runs_lem l size loaded s' idle shell w idle_made shell_made begins;
      },
    )
