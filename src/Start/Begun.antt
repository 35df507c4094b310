-- ===== src/Start/Begun.antt =====
-- The scheduler when VinixOS/kernel/src/kernel/main.c has added its two tasks and started it.
use ref_arm_os.Base.{ℕ, ◌≡◌, refl, ◌≢◌, Option, some, arith}
use ref_arm_os.Memory.{Memory, load32}
use ref_arm_os.Sched.{
  Task, Sched, ready, running, canary_value, slot, state_of, update_task, scheduler_init,
  scheduler_add_task, scheduler_start,
}
use ref_arm_os.Sched.Valid.{IsCurrent}
use ref_arm_os.Sched.Fair.{Intact}
use ref_arm_os.Sched.Boot.{at_start, two-IsCurrent, two-Intact}

-- the scheduler's part, with what the stack set-up left in the two structures
abbrev pub scheduled : Sched → (idle shell : ℕ) → (idle_struct shell_struct : Task) → Option Sched
scheduled s idle shell ti ts =
    let (_, s1) = scheduler_add_task (update_task (scheduler_init s) idle ti) idle in
    let (_, s2) = scheduler_add_task (update_task s1 shell ts) shell in scheduler_start s2

-- What the start leaves to the scheduler, for any memory that holds both canaries.
pub record Scheduled (s' : Sched) (idle shell : ℕ) (ti ts : Task) : Type 0 where
  pub current : IsCurrent s' idle
  pub second : slot s' 1 ≡ some shell
  pub counted : s'.task_count ≡ 2
  pub first : s'.current_task_index ≡ 0
  pub idle_runs : state_of s' idle ≡ running
  pub shell_waits : state_of s' shell ≡ ready
  pub guarded :
      (m : Memory)
      → load32 m ti.stack_base ≡ canary_value
      → load32 m ts.stack_base ≡ canary_value
      → Intact m s'

scheduled-at_start :
    (s : Sched) (idle shell : ℕ) (ti ts : Task)
    → idle ≢ shell
    → (s' : Sched) × (scheduled s idle shell ti ts ≡ some s')
      × (s'.tasks ≡ (at_start s idle shell).tasks)
      × (s'.task_count ≡ 2)
      × (s'.current_task ≡ some idle)
      × (s'.current_task_index ≡ 0)
      × ((q : ℕ)
          → s'.structs q
            ≡ (at_start (update_task (update_task s idle ti) shell ts) idle shell).structs q)
unfolding scheduler_init scheduler_add_task scheduler_start
scheduled-at_start s idle shell ti ts ne = (_, refl, refl, refl, refl, refl, λ q. ground arith)

pub scheduled_lem :
    (s : Sched) (idle shell : ℕ) (ti ts : Task)
    → idle ≢ shell
    → (s' : Sched) × (scheduled s idle shell ti ts ≡ some s') × Scheduled s' idle shell ti ts
scheduled_lem s idle shell ti ts ne =
    let base : Sched = update_task (update_task s idle ti) shell ts in
    let (s', e, tasks, count, cur, index, structs) = scheduled-at_start s idle shell ti ts ne in
    (
      s',
      e,
      record {
        current = two-IsCurrent base s' idle shell ne tasks cur index structs;
        second = rw tasks;
        counted = count;
        first = index;
        idle_runs = ground (arith, structs idle);
        shell_waits = ground (arith, structs shell);
        guarded = λ m a b.
            two-Intact base s' idle shell m tasks structs (ground (arith, a)) (ground (arith, b));
      },
    )
