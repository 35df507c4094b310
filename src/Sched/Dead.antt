-- ===== src/Sched/Dead.antt =====
-- What `scheduler_terminate_task` makes of a task, by way of `scheduler_yield` for the current one.
use ref_arm_os.Base.{
  ◌==◌, Bool-cases, Option-cases, lt→leb, ℕ, ◌<◌, ◌≡◌, refl, ap, ◌∙◌, ◌≢◌, ◌⊎◌, inl, inr, true,
  false, none, some, arith,
}
use ref_arm_os.Memory.{Memory, load32}
use ref_arm_os.Sched.{
  Sched, Yielded, ready, running, zombie, returns, switches, panics, faults, max_tasks,
  canary_value, is_ready, is_zombie, slot, state_of, set_state, switch_to, check_ready, force_idle,
  no_other, pick_next, reschedule, scheduler_yield, is_current, scheduler_terminate_task,
}
use ref_arm_os.Sched.Search.{IsNext, around, ready_at, search_cases}
use ref_arm_os.Sched.Yield.{cleared, yield-reschedule, scheduler_yield-panics}

-- `p` is dead and the flag is clear: the state in which its last yield looks for another task.
abbrev pub buried : Sched → ℕ → Sched
buried s p = cleared (set_state s p zombie)

-- `n` at index `j` is entered.
abbrev pub entered : Sched → (n j : ℕ) → Sched
entered s n j = record (set_state s n running) { current_task_index = j; current_task = some n }

abbrev pub NoneReady : Sched → Type 0
NoneReady s = (l : ℕ) → l < max_tasks → ready_at s (around s.current_task_index l) ≡ false

abbrev pub StackIntact : Memory → Sched → ℕ → Type 0
StackIntact m s p = load32 m (s.structs p).stack_base ≡ canary_value

-- How the kernel leaves the current task `p` once it is dead. It goes on in `p` only if `p` is alone,
-- and it stops only over the canary of `p`, or where nothing is READY and there is no live task 0.
pub data Leaves (m : Memory) (s : Sched) (p : ℕ) : Yielded → Type 0 where
  alone : StackIntact m s p → s.task_count ≡ 1 → Leaves m s p (returns (buried s p))
  broken : ¬ StackIntact m s p → Leaves m s p panics
  hands_over :
      (k j n : ℕ)
      → StackIntact m s p
      → s.task_count ≢ 1
      → k < max_tasks
      → IsNext (buried s p) s.current_task_index k j n
      → n ≢ p
      → Leaves m s p (switches p n (entered (buried s p) n j))
  wakes_idle :
      (n : ℕ)
      → StackIntact m s p
      → s.task_count ≢ 1
      → NoneReady (buried s p)
      → slot s 0 ≡ some n
      → n ≢ p
      → state_of s n ≢ zombie
      → Leaves m s p (switches p n (entered (set_state (buried s p) n ready) n 0))
  stuck :
      StackIntact m s p
      → s.task_count ≢ 1
      → NoneReady (buried s p)
      → (slot s 0 ≡ none) ⊎ ((n : ℕ) × (slot s 0 ≡ some n) × (state_of (buried s p) n ≡ zombie))
      → Leaves m s p panics

module _ (m : Memory) (s : Sched) (p : ℕ) where
  dead_current :
      (t : Sched) (n j : ℕ)
      → state_of t p ≡ zombie
      → is_ready (state_of t n) ≡ true
      → check_ready t p n j ≡ switches p n (entered t n j)
  unfolding check_ready switch_to
  dead_current t n j dead ok =
      let z : is_zombie (state_of t p) ≡ true = rw dead refl in rw (ok, z) refl

  forced :
      StackIntact m s p
      → s.task_count ≢ 1
      → NoneReady (buried s p)
      → Leaves m s p (force_idle (buried s p) p (slot s 0))
  unfolding force_idle
  forced intact more none_ready = elim (Option-cases (slot s 0)) [
    | inl e ↦ rw (e) (stuck intact more none_ready (inl e))
    | inr (n, e) ↦ elim (Bool-cases (is_zombie (state_of (buried s p) n))) [
      | inl z ↦ rw (force_idle, e, z) (stuck intact more none_ready (inr (n, e, ground arith)))
      | inr alive ↦
          let other : n ≢ p = (λ same. ground arith) in
          rw
            (
              force_idle,
              e,
              alive,
              dead_current (set_state (buried s p) n ready) n 0 (ground arith) (ground arith),
            )
            (wakes_idle n intact more none_ready e other (λ z. ground arith))
    ]
  ]

  reschedule-Leaves : StackIntact m s p → Leaves m s p (reschedule (buried s p) p)
  unfolding reschedule pick_next no_other
  reschedule-Leaves intact =
      let dead : is_zombie (state_of (buried s p) p) ≡ true = ground arith in
      elim (Bool-cases (s.task_count == 1)) [
        | inl one ↦ rw (one) (alone intact (ground arith))
        | inr more ↦
            let several : s.task_count ≢ 1 = (λ one. ground arith) in
            elim (search_cases (buried s p) max_tasks s.current_task_index) [
              | inl (k, j, n, lt, e, found) ↦
                  let ok = found.chosen in
                  let other : n ≢ p = (λ same. ground arith) in
                  let apart : (n == p) ≡ false = ground arith in
                  rw (more, e, apart, dead_current (buried s p) n j (ground arith) ok)
                    (hands_over k j n intact several lt found other)
              | inr (e, all) ↦ rw (more, e, dead) (forced intact several all)
            ]
      ]

  scheduler_yield-Leaves :
      s.current_task ≡ some p
      → Leaves m s p (scheduler_yield m (record (set_state s p zombie) { need_reschedule = true }))
  scheduler_yield-Leaves cur =
      let asks : Sched = record (set_state s p zombie) { need_reschedule = true } in
      elim (Bool-cases (load32 m (s.structs p).stack_base == canary_value)) [
        | inl ok ↦
            rw (yield-reschedule m asks p refl cur (ground (arith, ok)))
              (reschedule-Leaves (ground arith))
        | inr bad ↦
            rw (scheduler_yield-panics m asks p refl cur (λ same. ground (arith, bad)))
              (broken (λ same. ground (arith, bad)))
      ]

-- A dead task has lost the processor: it is not the current one, unless it is the only task, and
-- it is not the one that is switched to.
abbrev pub StaysDead : ℕ → Yielded → Type 0
StaysDead p (returns t) = (state_of t p ≡ zombie) × (t.current_task ≡ some p → t.task_count ≡ 1)
StaysDead p (switches a n t) = (state_of t p ≡ zombie) × (n ≢ p) × (t.current_task ≡ some n)
StaysDead p panics = Unit {0}
StaysDead p faults = ⊥

Leaves-StaysDead : (m : Memory) (s : Sched) (p : ℕ) {y : Yielded} → Leaves m s p y → StaysDead p y
Leaves-StaysDead m s p (alone intact one) = (ground arith, λ cur. one)
Leaves-StaysDead m s p (broken bad) = tt
Leaves-StaysDead m s p (hands_over k j n intact more lt found other) = (ground arith, other, refl)
Leaves-StaysDead m s p (wakes_idle n intact more none_ready e other alive) =
    (ground arith, other, refl)
Leaves-StaysDead m s p (stuck intact more none_ready e) = tt

-- What ending the task `p` comes to: the current task is left, another one is only marked.
abbrev pub Ended : Memory → Sched → ℕ → Yielded → Type 0
Ended m s p y =
    ((s.current_task ≡ some p) × Leaves m s p y)
    ⊎ ((s.current_task ≢ some p) × (y ≡ returns (set_state s p zombie)))

-- `scheduler_terminate_task` of a number that is in the table ends that task. Another task than the
-- current one is only marked as dead. The current one is marked and left: the next READY task in
-- circular order is entered, or task 0 if nothing is READY and it is alive; the kernel goes on in the
-- dead task only if there is no other task, and panics only over its canary, or where nothing is READY
-- and task 0 is missing or dead.
pub scheduler_terminate_task-Ended :
    (m : Memory) (s : Sched) (id p : ℕ)
    → id < max_tasks
    → slot s id ≡ some p
    → Ended m s p (scheduler_terminate_task m s id) × StaysDead p (scheduler_terminate_task m s id)
unfolding scheduler_terminate_task
scheduler_terminate_task-Ended m s id p h e = elim (Bool-cases (is_current s p)) [
  | inl own ↦
      let cur : s.current_task ≡ some p = current_lem s p own in
      let left = scheduler_yield-Leaves m s p cur in
      simp (lt→leb id max_tasks h, e, own) (inl (cur, left), Leaves-StaysDead m s p left)
  | inr other ↦
      let apart : s.current_task ≢ some p =
        (λ cur. let bad : (p == p) ≡ false = rw cur at other in ground arith) in
      simp (lt→leb id max_tasks h, e, other)
        (inr (apart, refl), (ground arith, λ cur. absurd (apart cur)))
]
  where
    current_lem : (s : Sched) (p : ℕ) → is_current s p ≡ true → s.current_task ≡ some p
    current_lem s p own = elim (Option-cases s.current_task) [
      | inl nobody ↦ absurd (let bad : false ≡ true = rw nobody at own in cc bad)
      | inr (c, cur) ↦ let same : (c == p) ≡ true = rw cur at own in cur ∙ ap some (ground arith)
    ]
