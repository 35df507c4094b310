-- ===== src/Sched/Boot.antt =====
-- The scheduler as `kernel_main` (VinixOS/kernel/src/kernel/main.c) sets it up: the idle task, then
-- the shell, then the start.
use ref_arm_os.Base.{
  ◌==◌, if◌then◌else◌, Bool-cases, length, get_or, ℕ, zero, suc, ◌≡◌, refl, sym, ap, ◌∙◌, ◌≢◌, ◌⊎◌,
  inl, inr, true, Option, none, some, [], ◌∷◌, arith,
}
use ref_arm_os.Sched.Valid.{IsCurrent}
use ref_arm_os.Memory.{Memory, load32}
use ref_arm_os.Sched.Fair.{Intact}
use ref_arm_os.Sched.{
  Sched, ready, running, canary_value, slot, scheduler_init, scheduler_add_task, scheduler_start,
}

-- Steps 2 to 4 of `kernel_main`.
pub started : Sched → ℕ → ℕ → Option Sched
started s idle shell =
    let (_, s1) = scheduler_add_task (scheduler_init s) idle in
    let (_, s2) = scheduler_add_task s1 shell in scheduler_start s2

-- The state in which the jump into the idle task is made.
abbrev pub at_start : Sched → ℕ → ℕ → Sched
at_start s idle shell = record s {
  tasks = some idle ∷ some shell ∷ none ∷ none ∷ [];
  task_count = 2;
  current_task = some idle;
  current_task_index = 0;
  scheduler_started = true;
  structs = λ q.
      if q == idle
      then record (s.structs idle) { id = 0; state = running }
      else if q == shell
      then record (s.structs shell) { id = 1; state = ready }
      else s.structs q;
}

-- the two entries of the table
entries :
    (idle shell i p : ℕ)
    → get_or (some idle ∷ some shell ∷ none ∷ none ∷ []) i none ≡ some p
    → ((i ≡ 0) × (p ≡ idle)) ⊎ ((i ≡ 1) × (p ≡ shell))
entries idle shell zero p e = ground arith
entries idle shell (suc zero) p e = ground arith
entries idle shell (suc (suc zero)) p e = cc
entries idle shell (suc (suc (suc zero))) p e = cc
entries idle shell (suc (suc (suc (suc i)))) p e = cc

-- The invariant in any state with this table, index and current task.
pub two-IsCurrent :
    (s s' : Sched) (idle shell : ℕ)
    → idle ≢ shell
    → s'.tasks ≡ (at_start s idle shell).tasks
    → s'.current_task ≡ some idle
    → s'.current_task_index ≡ 0
    → ((q : ℕ) → s'.structs q ≡ (at_start s idle shell).structs q)
    → IsCurrent s' idle
two-IsCurrent s s' idle shell ne tasks cur index structs = record {
  length_tasks = ap length tasks;
  index_in = omega arith;
  at_index = rw (index, tasks);
  current = cur;
  distinct = λ i j p a b. ground (arith, entries idle shell i p, entries idle shell j p, tasks);
  only = λ i p a r. ground (arith, entries idle shell i p, tasks, structs p);
}

-- Both canaries of such a state are all there are.
pub two-Intact :
    (s s' : Sched) (idle shell : ℕ) (m : Memory)
    → s'.tasks ≡ (at_start s idle shell).tasks
    → ((q : ℕ) → s'.structs q ≡ (at_start s idle shell).structs q)
    → load32 m (s.structs idle).stack_base ≡ canary_value
    → load32 m (s.structs shell).stack_base ≡ canary_value
    → Intact m s'
two-Intact s s' idle shell m tasks structs a b i p e =
    elim (entries idle shell i p (ap (λ x. get_or x i none) (sym tasks) ∙ e)) [
      | inl (_, same) ↦ base p same
      | inr (_, same) ↦ other p same
    ]
  where
    base : (p : ℕ) → p ≡ idle → load32 m (s'.structs p).stack_base ≡ canary_value
    base p same =
        ap (λ x. load32 m x.stack_base) (structs p)
        ∙ ap (λ x. load32 m x) (ground (arith, same))
        ∙ a

    other : (p : ℕ) → p ≡ shell → load32 m (s'.structs p).stack_base ≡ canary_value
    other p same = elim (Bool-cases (p == idle)) [
      | inl both ↦ base p (ground arith)
      | inr apart ↦
          ap (λ x. load32 m x.stack_base) (structs p)
          ∙ ap (λ x. load32 m x) (ground (arith, same))
          ∙ b
    ]

pub at_start-IsCurrent :
    (s : Sched) (idle shell : ℕ) → idle ≢ shell → IsCurrent (at_start s idle shell) idle
at_start-IsCurrent s idle shell ne =
    two-IsCurrent s (at_start s idle shell) idle shell ne refl refl refl (λ q. refl)

started-at_start :
    (s : Sched) (idle shell : ℕ)
    → idle ≢ shell
    → (s' : Sched) × (started s idle shell ≡ some s')
      × (s'.tasks ≡ (at_start s idle shell).tasks)
      × (s'.task_count ≡ 2)
      × (s'.current_task ≡ some idle)
      × (s'.current_task_index ≡ 0)
      × ((q : ℕ) → s'.structs q ≡ (at_start s idle shell).structs q)
unfolding started scheduler_init scheduler_add_task scheduler_start
started-at_start s idle shell ne = (_, refl, refl, refl, refl, refl, λ q. ground arith)

-- `kernel_main` starts the scheduler, if the two task structures are distinct, with idle as task 0,
-- RUNNING and current, and the shell as task 1, READY, and the scheduler's invariant holds.
pub started-IsCurrent :
    (s : Sched) (idle shell : ℕ)
    → idle ≢ shell
    → (s' : Sched) × (started s idle shell ≡ some s')
      × IsCurrent s' idle
      × (s'.structs idle ≡ record (s.structs idle) { id = 0; state = running })
      × (s'.structs shell ≡ record (s.structs shell) { id = 1; state = ready })
      × (slot s' 1 ≡ some shell)
      × (s'.task_count ≡ 2)
started-IsCurrent s idle shell ne =
    let (s', e, tasks, count, cur, index, structs) = started-at_start s idle shell ne in
    (
      s',
      e,
      two-IsCurrent s s' idle shell ne tasks cur index structs,
      ground (arith, structs idle),
      ground (arith, structs shell),
      rw tasks,
      count,
    )
