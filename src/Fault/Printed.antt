-- ===== src/Fault/Printed.antt =====
-- The reports of VinixOS/kernel/src/kernel/exceptions/exception_handlers.c go through `uart_printf`.
use Prim.Native.Nat.{bit_and}
use ref_arm_os.Base.{
  if◌then◌else◌, Bool-cases, Option-cases, bit_and_nibble, ℕ, ◌/◌, ◌^◌, ◌<◌, ◌≡◌, refl, inl, inr,
  Bool, true, false, some, List, [], ◌∷◌, ◌++◌, arith,
}
use ref_arm_os.Print.{in_text, uart_printf}
use ref_arm_os.Print.Fits.{fits, walk_format-fits, numbers, AllWords, numbers-AllWords}
use ref_arm_os.Fault.Report.{
  ExceptionContext, Report, task_id, print_exception_context, halt_kernel,
  handle_undefined_instruction, handle_svc, handle_irq, handle_fiq, report_prefetch_abort,
  contained_prefetch_abort, fatal_prefetch_abort, report_data_abort, contained_data_abort,
  fatal_data_abort, data_abort_report, prefetch_abort_report,
}
use ref_arm_os.Sched.{Sched}
use ref_arm_os.Fault.{from_user}

-- Every call of the report runs to the end of its format.
abbrev pub Prints : Report → Type 0
Prints [] = Unit
Prints ((fmt, args) ∷ calls) = ((out : List ℕ) × (uart_printf fmt args ≡ some out)) × Prints calls

abbrev all_fit : Report → Bool
all_fit [] = true
all_fit ((fmt, args) ∷ calls) = if fits in_text fmt args then all_fit calls else false

abbrev report_numbers : Report → List ℕ
report_numbers [] = []
report_numbers ((fmt, args) ∷ calls) = numbers args ++ report_numbers calls

all_fit-Prints : (r : Report) → all_fit r ≡ true → AllWords (report_numbers r) → Prints r
unfolding uart_printf
all_fit-Prints [] e h = tt
all_fit-Prints ((fmt, args) ∷ calls) e h = elim (Bool-cases (fits in_text fmt args)) [
  | inl t ↦
      let (ws, rest) = numbers-AllWords args (report_numbers calls) h in
      (walk_format-fits in_text fmt args ws t, all_fit-Prints calls (rw t at e) rest)
  | inr f ↦ absurd (let bad : false ≡ true = rw f at e in cc bad)
]

++-Prints : (a b : Report) → Prints a → Prints b → Prints (a ++ b)
++-Prints [] b x y = y
++-Prints (call ∷ a) b x y = (x.0, ++-Prints a b x.1 y)

abbrev pub registers : ExceptionContext → List ℕ
registers c =
    c.lr ∷ c.spsr ∷ c.r0 ∷ c.r1 ∷ c.r2 ∷ c.r3 ∷ c.r4 ∷ c.r5 ∷ c.r6 ∷ c.r7 ∷ c.r8 ∷ c.r9 ∷ c.r10
    ∷ c.r11 ∷ c.r12 ∷ []

undefined-Prints :
    (c : ExceptionContext) → AllWords (registers c) → Prints (handle_undefined_instruction c)
unfolding handle_undefined_instruction print_exception_context halt_kernel
undefined-Prints c h = all_fit-Prints (handle_undefined_instruction c) refl h

svc-Prints : (c : ExceptionContext) → AllWords (registers c) → Prints (handle_svc c)
unfolding handle_svc print_exception_context halt_kernel
svc-Prints c h = all_fit-Prints (handle_svc c) refl h

irq-Prints : (c : ExceptionContext) → AllWords (registers c) → Prints (handle_irq c)
unfolding handle_irq print_exception_context halt_kernel
irq-Prints c h = all_fit-Prints (handle_irq c) refl h

fiq-Prints : (c : ExceptionContext) → AllWords (registers c) → Prints (handle_fiq c)
unfolding handle_fiq print_exception_context halt_kernel
fiq-Prints c h = all_fit-Prints (handle_fiq c) refl h

task_id_lem :
    (s : Sched)
    → ((c : ℕ) → s.current_task ≡ some c → (s.structs c).id < 2 ^ 32)
    → task_id s < 2 ^ 32
unfolding task_id
task_id_lem s w = elim (Option-cases s.current_task) [
  | inl e ↦ rw (task_id, e) (omega arith)
  | inr (c, e) ↦ rw (task_id, e) (w c e)
]

-- A report that ends in one of two ways prints if both do.
ending-Prints :
    (b : Bool) (first user kernel : Report)
    → Prints first
    → Prints user
    → Prints kernel
    → Prints (first ++ (if b then user else kernel))
ending-Prints true first user kernel p y n = ++-Prints first user p y
ending-Prints false first user kernel p y n = ++-Prints first kernel p n

module _ (c : ExceptionContext) (s : Sched) (h : AllWords (registers c))
    (w : task_id s < 2 ^ 32) where
  data_abort-Prints :
      (dfsr dfar : ℕ) → dfsr < 2 ^ 32 → dfar < 2 ^ 32 → Prints (data_abort_report dfsr dfar c s)
  unfolding report_data_abort contained_data_abort fatal_data_abort print_exception_context
      halt_kernel
  data_abort-Prints dfsr dfar k l =
      let domain : bit_and (dfsr / 2 ^ 4) 0xF < 2 ^ 32 =
        rw (bit_and_nibble (dfsr / 2 ^ 4)) (omega arith) in
      ending-Prints (from_user c.spsr) (report_data_abort dfsr dfar c) (contained_data_abort s)
        fatal_data_abort (all_fit-Prints (report_data_abort dfsr dfar c) refl (l, (k, (domain, h))))
        (all_fit-Prints (contained_data_abort s) refl (w, tt))
        (all_fit-Prints fatal_data_abort refl tt)

  prefetch_abort-Prints : Prints (prefetch_abort_report c s)
  unfolding report_prefetch_abort contained_prefetch_abort fatal_prefetch_abort
      print_exception_context halt_kernel
  prefetch_abort-Prints =
      ending-Prints (from_user c.spsr) (report_prefetch_abort c) (contained_prefetch_abort s)
        fatal_prefetch_abort (all_fit-Prints (report_prefetch_abort c) refl h)
        (all_fit-Prints (contained_prefetch_abort s) refl (w, tt))
        (all_fit-Prints fatal_prefetch_abort refl tt)

-- If the saved registers, the fault registers and the id of the current task are 32-bit words, each
-- call of `uart_printf` in each of the six exception handlers runs to the end of its format: it finds
-- an argument of the right kind for every conversion, and no number needs more digits than the
-- buffer of `print_uint` holds.
pub handlers-Print :
    (c : ExceptionContext) (s : Sched) (dfsr dfar : ℕ)
    → AllWords (dfsr ∷ dfar ∷ registers c)
    → ((t : ℕ) → s.current_task ≡ some t → (s.structs t).id < 2 ^ 32)
    → Prints (handle_undefined_instruction c)
      × Prints (handle_svc c)
      × Prints (prefetch_abort_report c s)
      × Prints (data_abort_report dfsr dfar c s)
      × Prints (handle_irq c)
      × Prints (handle_fiq c)
handlers-Print c s dfsr dfar (k, (l, h)) w =
    let id = task_id_lem s w in
    (
      undefined-Prints c h,
      svc-Prints c h,
      prefetch_abort-Prints c s h id,
      data_abort-Prints c s h id dfsr dfar k l,
      irq-Prints c h,
      fiq-Prints c h,
    )
