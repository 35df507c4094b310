-- ===== src/Fault.antt =====
-- VinixOS/kernel/src/kernel/exceptions/exception_handlers.c: what an abort leads to. What
-- the handlers print stands in Fault/Report; the registers are those that they decide on.
pub mod Contained
pub mod Decode
pub mod Report
pub mod Printed
use Prim.Native.Nat.{bit_and}
use ref_arm_os.Base.{◌==◌, if◌then◌else◌, ℕ, Bool, not, none, some}
use ref_arm_os.Memory.{Memory}
use ref_arm_os.Sched.{Sched, Yielded, scheduler_terminate_task}

-- The handler comes back as `scheduler_terminate_task` does, the kernel panics, or it halts.
pub data Faulted : Type 0 where
  ends : Yielded → Faulted
  no_task : Faulted
  halted : Faulted

-- `(ctx->spsr & 0x1F) == 0x10`
abbrev pub from_user : ℕ → Bool
from_user spsr = bit_and spsr 0x1F == 0x10

-- "FAULT CONTAINMENT LOGIC"
unfoldable pub handle_data_abort : Memory → Sched → ℕ → Faulted
handle_data_abort m s spsr = if not (from_user spsr) then halted else elim s.current_task [
  | none ↦ no_task
  | some c ↦ ends (scheduler_terminate_task m s (s.structs c).id)
]

-- The same logic, written out a second time in the code.
unfoldable pub handle_prefetch_abort : Memory → Sched → ℕ → Faulted
handle_prefetch_abort m s spsr = if not (from_user spsr) then halted else elim s.current_task [
  | none ↦ no_task
  | some c ↦ ends (scheduler_terminate_task m s (s.structs c).id)
]
