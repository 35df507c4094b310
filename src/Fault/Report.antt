-- ===== src/Fault/Report.antt =====
-- What the handlers of VinixOS/kernel/src/kernel/exceptions/exception_handlers.c report: their calls of
-- `uart_printf`, in order, each with its format and its arguments.
use Prim.Native.Nat.{bit_and}
use Prim.Native.String.{String}
use ref_arm_os.Base.{
  if◌then◌else◌, codes, ℕ, ◌-◌, ◌/◌, ◌^◌, Option, none, some, List, [], ◌∷◌, ◌++◌,
}
use ref_arm_os.Sched.{Sched}
use ref_arm_os.Fault.{from_user}
use ref_arm_os.Fault.Decode.{decode_cpu_mode, decode_fault_status, access_type}
use ref_arm_os.Print.{Arg, word, text}

-- `struct exception_context` of VinixOS/kernel/include/exception.h
pub record ExceptionContext : Type 0 where
  pub spsr : ℕ
  pub r0 : ℕ
  pub r1 : ℕ
  pub r2 : ℕ
  pub r3 : ℕ
  pub r4 : ℕ
  pub r5 : ℕ
  pub r6 : ℕ
  pub r7 : ℕ
  pub r8 : ℕ
  pub r9 : ℕ
  pub r10 : ℕ
  pub r11 : ℕ
  pub r12 : ℕ
  pub lr : ℕ

abbrev pub Report : Type 0
Report = List (List ℕ × List Arg)

abbrev prints : String → List Arg → List ℕ × List Arg
prints fmt args = (codes fmt, args)

-- `current ? current->id : -1` and `current ? current->name : "???"`
unfoldable pub task_id : Sched → ℕ
task_id s = elim s.current_task [ none ↦ 2 ^ 32 - 1 | some c ↦ (s.structs c).id ]

unfoldable pub task_name : Sched → Option (List ℕ)
task_name s = elim s.current_task [ none ↦ some (codes "???") | some c ↦ (s.structs c).name ]

unfoldable pub print_exception_context : ExceptionContext → Report
print_exception_context ctx =
    (prints "\n" []
      ∷ prints "Exception Context:\n" []
      ∷ prints "------------------\n" []
      ∷ prints "PC (LR):   0x%08x\n" (word ctx.lr ∷ [])
      ∷ prints "SPSR:      0x%08x\n" (word ctx.spsr ∷ [])
      ∷ prints "\n" []
      ∷ prints "Registers:\n" []
      ∷ prints "r0:  0x%08x    r1:  0x%08x\n" (word ctx.r0 ∷ word ctx.r1 ∷ [])
      ∷ prints "r2:  0x%08x    r3:  0x%08x\n" (word ctx.r2 ∷ word ctx.r3 ∷ [])
      ∷ prints "r4:  0x%08x    r5:  0x%08x\n" (word ctx.r4 ∷ word ctx.r5 ∷ [])
      ∷ prints "r6:  0x%08x    r7:  0x%08x\n" (word ctx.r6 ∷ word ctx.r7 ∷ [])
      ∷ prints "r8:  0x%08x    r9:  0x%08x\n" (word ctx.r8 ∷ word ctx.r9 ∷ [])
      ∷ prints "r10: 0x%08x    r11: 0x%08x\n" (word ctx.r10 ∷ word ctx.r11 ∷ [])
      ∷ prints "r12: 0x%08x\n" (word ctx.r12 ∷ [])
      ∷ prints "\n" []
      ∷ [])

unfoldable pub halt_kernel : Report
halt_kernel =
    (prints "\n" []
      ∷ prints "====================================\n" []
      ∷ prints "       KERNEL HALTED (FATAL)        \n" []
      ∷ prints "====================================\n" []
      ∷ prints "\n" []
      ∷ [])

unfoldable pub handle_undefined_instruction : ExceptionContext → Report
handle_undefined_instruction ctx =
    (prints "\n" []
      ∷ prints "!!!!!!!!!!!!!!!!!!!!!!!!!!!!!!!!!!!\n" []
      ∷ prints "!! UNDEFINED INSTRUCTION EXCEPTION\n" []
      ∷ prints "!!!!!!!!!!!!!!!!!!!!!!!!!!!!!!!!!!!\n" []
      ∷ prints "\n" []
      ∷ prints "The CPU encountered an invalid or unsupported instruction.\n" []
      ∷ prints "This is a FATAL exception.\n" []
      ∷ prints "\n" []
      ∷ prints "Possible causes:\n" []
      ∷ prints "  - Invalid opcode in code\n" []
      ∷ prints "  - VFP/NEON instruction without enabling coprocessor\n" []
      ∷ prints "  - Corrupted code in memory\n" []
      ∷ prints "  - Executing data as code\n" []
      ∷ prints "\n" []
      ∷ prints "CPU Mode: %s\n" (text (some (decode_cpu_mode ctx.spsr)) ∷ [])
      ∷ [])
    ++ (print_exception_context ctx ++ (halt_kernel))

unfoldable pub handle_svc : ExceptionContext → Report
handle_svc ctx =
    (prints "\n" []
      ∷ prints "!!!!!!!!!!!!!!!!!!!!!!!!!!!!!!!!!!!\n" []
      ∷ prints "!! SUPERVISOR CALL (SVC) EXCEPTION\n" []
      ∷ prints "!!!!!!!!!!!!!!!!!!!!!!!!!!!!!!!!!!!\n" []
      ∷ prints "\n" []
      ∷ prints "SVC instruction was executed.\n" []
      ∷ prints "System calls should be handled by svc_handler(), not here.\n" []
      ∷ prints "\n" []
      ∷ prints "CPU Mode: %s\n" (text (some (decode_cpu_mode ctx.spsr)) ∷ [])
      ∷ [])
    ++ (print_exception_context ctx ++ (halt_kernel))

unfoldable pub handle_irq : ExceptionContext → Report
handle_irq ctx =
    (prints "\n" []
      ∷ prints "!!!!!!!!!!!!!!!!!!!!!!!!!!!!!!!!!!!\n" []
      ∷ prints "!! UNEXPECTED IRQ EXCEPTION        \n" []
      ∷ prints "!!!!!!!!!!!!!!!!!!!!!!!!!!!!!!!!!!!\n" []
      ∷ prints "\n" []
      ∷ prints "IRQ exception occurred, but IRQ should be MASKED!\n" []
      ∷ prints "This indicates a kernel bug.\n" []
      ∷ prints "\n" []
      ∷ prints "CPU Mode: %s\n" (text (some (decode_cpu_mode ctx.spsr)) ∷ [])
      ∷ [])
    ++ (print_exception_context ctx ++ (halt_kernel))

unfoldable pub handle_fiq : ExceptionContext → Report
handle_fiq ctx =
    (prints "\n" []
      ∷ prints "!!!!!!!!!!!!!!!!!!!!!!!!!!!!!!!!!!!\n" []
      ∷ prints "!! UNEXPECTED FIQ EXCEPTION        \n" []
      ∷ prints "!!!!!!!!!!!!!!!!!!!!!!!!!!!!!!!!!!!\n" []
      ∷ prints "\n" []
      ∷ prints "FIQ exception occurred, but FIQ is NOT USED!\n" []
      ∷ prints "This indicates a serious kernel bug.\n" []
      ∷ prints "\n" []
      ∷ prints "CPU Mode: %s\n" (text (some (decode_cpu_mode ctx.spsr)) ∷ [])
      ∷ [])
    ++ (print_exception_context ctx ++ (halt_kernel))

-- `handle_prefetch_abort` up to the decision
unfoldable pub report_prefetch_abort : ExceptionContext → Report
report_prefetch_abort ctx =
    (prints "\n" []
      ∷ prints "!!!!!!!!!!!!!!!!!!!!!!!!!!!!!!!!!!!\n" []
      ∷ prints "!! PREFETCH ABORT EXCEPTION        \n" []
      ∷ prints "!!!!!!!!!!!!!!!!!!!!!!!!!!!!!!!!!!!\n" []
      ∷ prints "\n" []
      ∷ prints "Instruction fetch failed.\n" []
      ∷ prints "This is a FATAL exception.\n" []
      ∷ prints "\n" []
      ∷ prints "Possible causes:\n" []
      ∷ prints "  - Branching to invalid address\n" []
      ∷ prints "  - MMU permission fault (if MMU enabled)\n" []
      ∷ prints "  - Memory not present at fetch address\n" []
      ∷ prints "  - Alignment fault\n" []
      ∷ prints "\n" []
      ∷ prints "\n" []
      ∷ prints "CPU Mode: %s\n" (text (some (decode_cpu_mode ctx.spsr)) ∷ [])
      ∷ [])
    ++ (print_exception_context ctx)

-- its report on a fault of a task
unfoldable pub contained_prefetch_abort : Sched → Report
contained_prefetch_abort s =
    (prints "\n[FAULT] User Mode Prefetch Abort DETECTED!\n" []
      ∷ prints "[FAULT] Offending Task: %d ('%s')\n" (word (task_id s) ∷ text (task_name s) ∷ [])
      ∷ prints "[FAULT] Action: Terminating Task...\n" []
      ∷ [])

-- its report on a fault of the kernel
unfoldable pub fatal_prefetch_abort : Report
fatal_prefetch_abort =
    (prints "[FAULT] KERNEL PANIC: Prefetch Abort in Privileged Mode!\n" [] ∷ []) ++ (halt_kernel)

-- `handle_data_abort` up to the decision
unfoldable pub report_data_abort : (dfsr dfar : ℕ) → ExceptionContext → Report
report_data_abort dfsr dfar ctx =
    (prints "\n" []
      ∷ prints "!!!!!!!!!!!!!!!!!!!!!!!!!!!!!!!!!!!\n" []
      ∷ prints "!! DATA ABORT EXCEPTION            \n" []
      ∷ prints "!!!!!!!!!!!!!!!!!!!!!!!!!!!!!!!!!!!\n" []
      ∷ prints "\n" []
      ∷ prints "Data access (load/store) failed.\n" []
      ∷ prints "\n" []
      ∷ prints "Fault Details:\n" []
      ∷ prints "  DFAR (Fault Address): 0x%08x\n" (word dfar ∷ [])
      ∷ prints "  DFSR (Fault Status):  0x%08x\n" (word dfsr ∷ [])
      ∷ prints "  Fault Type: %s\n" (text (some (decode_fault_status dfsr)) ∷ [])
      ∷ prints "  Access Type: %s\n" (text (some (access_type dfsr)) ∷ [])
      ∷ prints "  Domain: %u\n" (word (bit_and (dfsr / 2 ^ 4) 0xF) ∷ [])
      ∷ prints "\n" []
      ∷ prints "CPU Mode: %s\n" (text (some (decode_cpu_mode ctx.spsr)) ∷ [])
      ∷ [])
    ++ (print_exception_context ctx)

-- its report on a fault of a task
unfoldable pub contained_data_abort : Sched → Report
contained_data_abort s =
    (prints "\n[FAULT] User Mode Data Abort DETECTED!\n" []
      ∷ prints "[FAULT] Offending Task: %d ('%s')\n" (word (task_id s) ∷ text (task_name s) ∷ [])
      ∷ prints "[FAULT] Action: Terminating Task...\n" []
      ∷ [])

-- its report on a fault of the kernel
unfoldable pub fatal_data_abort : Report
fatal_data_abort =
    (prints "[FAULT] KERNEL PANIC: Data Abort in Privileged Mode!\n" [] ∷ []) ++ (halt_kernel)

-- all that a data abort prints
abbrev pub data_abort_report : (dfsr dfar : ℕ) → ExceptionContext → Sched → Report
data_abort_report dfsr dfar ctx s =
    report_data_abort dfsr dfar ctx
    ++ (if from_user ctx.spsr then contained_data_abort s else fatal_data_abort)

-- all that a prefetch abort prints
abbrev pub prefetch_abort_report : ExceptionContext → Sched → Report
prefetch_abort_report ctx s =
    report_prefetch_abort ctx
    ++ (if from_user ctx.spsr then contained_prefetch_abort s else fatal_prefetch_abort)
