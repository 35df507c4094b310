-- ===== src/Tests/Tasks.antt =====
-- The scheduler on the two tasks that `kernel_main` adds: task structures 10 and 11.
use ref_arm_os.Fault.Decode.{fault_status, decode_fault_status}
use ref_arm_os.Fault.Report.{
  ExceptionContext, handle_undefined_instruction, handle_svc, handle_irq, handle_fiq,
  data_abort_report, prefetch_abort_report,
}
use ref_arm_os.Fault.Printed.{Prints, registers, handlers-Print}
use ref_arm_os.Print.Fits.{AllWords}
use ref_arm_os.Base.{
  codes, ℕ, ◌%◌, ◌^◌, ◌≤◌, ◌<◌, ◌≡◌, refl, ◌≢◌, ◌⊎◌, true, false, none, some, [], ◌∷◌, arith,
}
use ref_arm_os.Memory.{Memory, store32}
use ref_arm_os.Sched.{
  Task, Sched, ready, running, canary_value, state_of, scheduler_yield, scheduler_terminate_task,
}
use ref_arm_os.Sched.Valid.{IsCurrent}
use ref_arm_os.Sched.Yield.{Outcome, cleared, scheduler_yield-Outcome, Ends, scheduler_yield-Runs}
use ref_arm_os.Sched.Fair.{yields, Intact, ready_task_runs}
use ref_arm_os.Sched.Dead.{StaysDead, Ended, scheduler_terminate_task-Ended}
use ref_arm_os.Fault.{halted, handle_data_abort, handle_prefetch_abort}
use ref_arm_os.Fault.Contained.{Contained, handle_abort_lem}
use ref_arm_os.Sched.Boot.{at_start, at_start-IsCurrent}

abbrev pub blank : Task
blank = record { stack_base = 64; stack_size = 0; state = ready; name = none; id = 0 }

abbrev pub before : Sched
before = record {
  structs = λ q. blank;
  tasks = [];
  task_count = 0;
  current_task = none;
  current_task_index = 0;
  scheduler_started = false;
  need_reschedule = false;
}

abbrev guarded : Memory
guarded = store32 (λ a. 0) 64 canary_value

abbrev two_tasks : Sched
two_tasks = at_start before 10 11

abbrev asked : Sched
asked = record two_tasks { need_reschedule = true }

two_tasks-IsCurrent : IsCurrent two_tasks 10
two_tasks-IsCurrent = at_start-IsCurrent before 10 11 (omega arith)

guarded-Intact : Intact guarded two_tasks
guarded-Intact i p e = ground arith

next_task_runs :
    (n : ℕ) × (s' : Sched) × (n ≤ 3)
    × (yields guarded n two_tasks ≡ some s')
    × (s'.current_task ≡ some 11)
    × (state_of s' 11 ≡ running)
next_task_runs =
    ready_task_runs guarded two_tasks 10 1 11 two_tasks-IsCurrent refl guarded-Intact (omega arith)
      (omega arith) (omega arith) refl refl

asked_yields : Outcome (cleared asked) 10 (scheduler_yield guarded asked)
asked_yields = scheduler_yield-Outcome guarded asked 10 refl refl refl refl

invariant_survives :
    Ends (λ p s'. IsCurrent s' p × (state_of s' p ≡ running)) 10 (scheduler_yield guarded two_tasks)
invariant_survives = scheduler_yield-Runs guarded two_tasks 10 two_tasks-IsCurrent refl

idle_killed :
    Ended guarded two_tasks 10 (scheduler_terminate_task guarded two_tasks 0)
    × StaysDead 10 (scheduler_terminate_task guarded two_tasks 0)
idle_killed = scheduler_terminate_task-Ended guarded two_tasks 0 10 (omega arith) refl

-- A data abort in user mode while the idle task is current.
user_abort :
    ((0x10 % 32 ≡ 16)
      × Contained guarded 10 two_tasks (handle_data_abort guarded two_tasks 0x10)
      × Contained guarded 10 two_tasks (handle_prefetch_abort guarded two_tasks 0x10))
    ⊎ ((0x10 % 32 ≢ 16)
        × (handle_data_abort guarded two_tasks 0x10 ≡ halted)
        × (handle_prefetch_abort guarded two_tasks 0x10 ≡ halted))
user_abort = handle_abort_lem guarded two_tasks 0x10 10 two_tasks-IsCurrent refl

abbrev at_fault : ExceptionContext
at_fault = record {
  spsr = 0x10;
  r0 = 1;
  r1 = 0;
  r2 = 0;
  r3 = 0;
  r4 = 0;
  r5 = 0;
  r6 = 0;
  r7 = 7;
  r8 = 0;
  r9 = 0;
  r10 = 0;
  r11 = 0;
  r12 = 0;
  lr = 0x40000104;
}

at_fault-AllWords : AllWords (0x805 ∷ 0xC0000000 ∷ registers at_fault)
at_fault-AllWords = ground arith

two_tasks-id : (t : ℕ) → two_tasks.current_task ≡ some t → (two_tasks.structs t).id < 2 ^ 32
two_tasks-id t e = ground arith

-- A write of a program to the kernel's memory, while the idle task is current.
handlers-Print_example :
    Prints (handle_undefined_instruction at_fault)
    × Prints (handle_svc at_fault)
    × Prints (prefetch_abort_report at_fault two_tasks)
    × Prints (data_abort_report 0x805 0xC0000000 at_fault two_tasks)
    × Prints (handle_irq at_fault)
    × Prints (handle_fiq at_fault)
handlers-Print_example =
    handlers-Print at_fault two_tasks 0x805 0xC0000000 at_fault-AllWords two_tasks-id

fault_described : decode_fault_status 0x805 ≡ codes "Translation fault (Section)"
unfolding decode_fault_status fault_status
fault_described = refl
