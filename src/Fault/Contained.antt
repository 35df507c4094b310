-- ===== src/Fault/Contained.antt =====
-- The abort handlers of VinixOS/kernel/src/kernel/exceptions/exception_handlers.c and the tasks.
use ref_arm_os.Base.{
  leb, Bool-cases, bit_and_five, ℕ, ◌%◌, ◌<◌, ◌≡◌, refl, ◌≢◌, ◌⊎◌, inl, inr, true, false, some,
  arith,
}
use ref_arm_os.Memory.{Memory}
use ref_arm_os.Sched.{
  Sched, Yielded, zombie, max_tasks, slot, set_state, is_current, scheduler_terminate_task,
}
use ref_arm_os.Sched.Valid.{IsCurrent}
use ref_arm_os.Sched.Dead.{Leaves, StaysDead, Ended, scheduler_terminate_task-Ended}
use ref_arm_os.Sched.Spare.{Spares, scheduler_yield-Spares}
use Prim.Native.Nat.{bit_and}
use ref_arm_os.Fault.{
  Faulted, ends, no_task, halted, from_user, handle_data_abort, handle_prefetch_abort,
}

-- `c` is ended and left, and no other task has died.
abbrev pub Contained : Memory → ℕ → Sched → Faulted → Type 0
Contained m c s (ends y) = Leaves m s c y × StaysDead c y × Spares (set_state s c zombie) y
Contained m c s no_task = ⊥
Contained m c s halted = ⊥

terminate-Spares :
    (m : Memory) (s : Sched) (id p : ℕ)
    → id < max_tasks
    → slot s id ≡ some p
    → Spares (set_state s p zombie) (scheduler_terminate_task m s id)
unfolding scheduler_terminate_task
terminate-Spares m s id p h e =
    let in_table : leb max_tasks id ≡ false = ground arith in
    elim (Bool-cases (is_current s p)) [
      | inl cur ↦
          rw (in_table, scheduler_terminate_task, e, cur)
            (scheduler_yield-Spares (set_state s p zombie) m
              (record (set_state s p zombie) { need_reschedule = true }) (λ q dead. dead))
      | inr other ↦ rw (in_table, scheduler_terminate_task, e, other) (λ q dead. dead)
    ]

Ended-Leaves :
    (m : Memory) (s : Sched) (c : ℕ) (y : Yielded)
    → s.current_task ≡ some c
    → Ended m s c y
    → Leaves m s c y
Ended-Leaves m s c y cur (inl (_, left)) = left
Ended-Leaves m s c y cur (inr (apart, _)) = absurd (apart cur)

-- A data or a prefetch abort whose saved mode, the low five bits of SPSR, is 16 (user mode) ends the
-- current task, if its number is its index in the table: the kernel leaves it as
-- `scheduler_terminate_task` leaves the current task, so it goes on in that task only if there is no
-- other one; and no other task has died. An abort in any other mode halts the kernel.
pub handle_abort_lem :
    (m : Memory) (s : Sched) (spsr c : ℕ)
    → IsCurrent s c
    → (s.structs c).id ≡ s.current_task_index
    → ((spsr % 32 ≡ 16)
        × Contained m c s (handle_data_abort m s spsr)
        × Contained m c s (handle_prefetch_abort m s spsr))
      ⊎ ((spsr % 32 ≢ 16)
          × (handle_data_abort m s spsr ≡ halted)
          × (handle_prefetch_abort m s spsr ≡ halted))
unfolding handle_data_abort handle_prefetch_abort
handle_abort_lem m s spsr c w same =
    let mode : bit_and spsr 0x1F ≡ spsr % 32 = bit_and_five spsr in
    elim (Bool-cases (from_user spsr)) [
      | inr kernel ↦ inr (
        (λ user. ground arith),
        rw (kernel, handle_data_abort) refl,
        rw (kernel, handle_prefetch_abort) refl,
      )
      | inl user ↦
          let id = (s.structs c).id in
          let at : slot s id ≡ some c = rw same w.at_index in
          let lt : id < max_tasks = (let i = w.index_in in omega arith) in
          let cur = w.current in
          let (ended, dead) = scheduler_terminate_task-Ended m s id c lt at in
          let all : Contained m c s (ends (scheduler_terminate_task m s id)) =
            (Ended-Leaves m s c _ cur ended, dead, terminate-Spares m s id c lt at) in
          inl (
            ground arith,
            simp (user, handle_data_abort, cur) all,
            simp (user, handle_prefetch_abort, cur) all,
          )
    ]
