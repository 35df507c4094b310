-- ===== src/Tests/Starting.antt =====
-- The boot loader, a new stack and the timer on concrete inputs.
use ref_arm_os.Base.{
  ltb, if◌then◌else◌, replicate, add32, ℕ, ◌+◌, ◌-◌, ◌*◌, ◌%◌, ◌^◌, ◌≤◌, ◌<◌, ◌≡◌, refl, ◌⊎◌, true,
  false, none, some, List, [], ◌∷◌, ◌++◌, arith,
}
use ref_arm_os.Memory.{Memory}
use ref_arm_os.Sched.{Task, scheduler_tick}
use ref_arm_os.Irq.{Desc, Writes, intc_get_active_irq, empty_desc, irq_get_count, irq_dispatch}
use ref_arm_os.Stack.{Context, task_stack_init}
use ref_arm_os.Stack.Frames.{IsStack, task_stack_init-Frames}
use ref_arm_os.Timer.{Device, Ticking, poll, reload, not_reset, timer_init}
use ref_arm_os.Timer.Polling.{Polled, poll-Polled}
use ref_arm_os.Timer.Ticks.{Answers, start_writes, timer_init-Ticks}
use ref_arm_os.Start.{Layout, Running, kernel_main}
use ref_arm_os.Start.Runs.{IsLayout, Runs, kernel_main-Runs}
use ref_arm_os.Ramfs.{ramfs_init}
use ref_arm_os.Boot.{Card, is_kernel, boot_kernel}
use ref_arm_os.Boot.Kernel.{Prompt, Loaded, sector_word, boot_kernel-Loaded}
use ref_arm_os.Tests.Tasks.{blank, before}

abbrev no_memory : Memory
no_memory = λ a. 0

task_stack_init-Frames_example :
    ((512 < 4096)
      × (r : Context × Task × Memory) × (task_stack_init 0x40000000 0x80100000 4096 0xC0001000 blank
            no_memory
          ≡ some r)
      × IsStack 0x40000000 0xC0001000 0x80100000 4096 blank no_memory r)
    ⊎ ((4096 ≤ 512)
        × (task_stack_init 0x40000000 0x80100000 4096 0xC0001000 blank no_memory ≡ none))
task_stack_init-Frames_example =
    task_stack_init-Frames 0x40000000 0xC0001000 0x80100000 4096 blank no_memory (omega arith)
      (omega arith) (omega arith) (omega arith)

-- a register that is never ready
poll-Polled_example : Polled not_reset (λ n. 0) 3 0 (poll not_reset (λ n. 0) 3 0)
poll-Polled_example = poll-Polled not_reset (λ n. 0) 3 0

poll_missed : poll not_reset (λ n. 0) 3 0 ≡ 2 ^ 32 - 1
unfolding poll
poll_missed = refl

abbrev prompt_timer : Device
prompt_timer = record {
  l4ls_clkstctrl = λ n. if ltb n 3 then 1 else 2;
  timer2_clkctrl = λ n. 2;
  tistat = λ n. 1;
  tclr = 2;
}

prompt_timer-Answers : Answers prompt_timer 2 0 0
prompt_timer-Answers = record {
  awake = refl;
  awake_in_time = omega arith;
  functional = refl;
  in_time = omega arith;
  reset_done = refl;
  reset_in_time = omega arith;
}

abbrev no_ticks : Ticking
no_ticks = record { timer_ticks = 0; sched = before }

abbrev no_timers : List (Desc (Ticking × Writes))
no_timers = replicate 128 empty_desc

names_68 : intc_get_active_irq 68 ≡ 68
unfolding intc_get_active_irq
names_68 = refl

timer_init-Ticks_example :
    (table' : List (Desc (Ticking × Writes))) × (timer_init prompt_timer [] no_timers
      ≡ some (start_writes prompt_timer, table'))
    × ((2 ^ 32 - reload) * 1000 ≡ 24000000 * 10)
    × ((irq_dispatch 68 table' no_ticks []).1
        ≡ record { timer_ticks = add32 0 1; sched = scheduler_tick before })
    × ((irq_dispatch 68 table' no_ticks []).2
        ≡ ([] ++ ((0x48040028, 2) ∷ [])) ++ ((0x48200048, 1) ∷ []))
    × (irq_get_count (irq_dispatch 68 table' no_ticks []).0 68 ≡ 1)
timer_init-Ticks_example =
    timer_init-Ticks prompt_timer 2 0 0 no_timers 68 no_ticks [] prompt_timer-Answers refl refl
      names_68

-- a card that is ready at once, and whose words are all a branch
abbrev prompt_card : Card
prompt_card = record {
  sdhc_card = true;
  ready = λ t n. 0x20;
  status = λ t n. 0;
  finished = λ t n. 2;
  block = λ arg j. 0xEA000006;
}

prompt_card-Prompt : (t : ℕ) → Prompt prompt_card t
prompt_card-Prompt t = record {
  turns = 0;
  in_time = omega arith;
  no_error = λ k h. refl;
  brr = refl;
  reads = 0;
  done_in_time = omega arith;
  done_at = refl;
}

boot_kernel-Loaded_example :
    ((is_kernel (sector_word prompt_card 2048 0) ≡ true)
      × (m : Memory) × (boot_kernel prompt_card no_memory ≡ some m)
      × Loaded (λ i j. sector_word prompt_card (2048 + i) j) 2048 0x80000000 no_memory m)
    ⊎ ((is_kernel (sector_word prompt_card 2048 0) ≡ false)
        × (boot_kernel prompt_card no_memory ≡ none))
boot_kernel-Loaded_example =
    boot_kernel-Loaded prompt_card no_memory (λ arg j. omega arith) (λ t h. prompt_card-Prompt t)

-- a program of eight bytes in the image of the kernel
abbrev small_layout : Layout
small_layout = record {
  payload_start = 0xC0020000;
  payload_end = 0xC0020008;
  idle_entry = 0xC0003000;
  idle_stack = 0xC0030000;
  trampoline = 0xC0001000;
  idle_task = 10;
  shell_task = 11;
}

small_layout-IsLayout : IsLayout small_layout 8
small_layout-IsLayout = record {
  payload = refl;
  small = omega arith;
  outside = omega arith;
  end_word = omega arith;
  entry_word = omega arith;
  trampoline_word = omega arith;
  stack_outside = omega arith;
  stack_word = omega arith;
  distinct = omega arith;
}

abbrev image : Memory
image = λ a. a % 256

kernel_main-Runs_example :
    (r : Running) × (kernel_main small_layout [] [] image before ≡ some r)
    × Runs small_layout 8 (ramfs_init [] []) image r
kernel_main-Runs_example = kernel_main-Runs small_layout 8 [] [] image before small_layout-IsLayout
