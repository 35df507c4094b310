-- ===== src/Sched/Yield.antt =====
-- What `scheduler_yield` does when the current task is RUNNING and its stack is intact.
use ref_arm_os.Base.{
  ◌==◌, ==_iff, Bool-cases, ℕ, ◌<◌, ◌≡◌, ◌≢◌, ◌⊎◌, inl, inr, true, false, some, arith,
}
use ref_arm_os.Memory.{Memory, load32}
use ref_arm_os.Sched.{
  Sched, Yielded, running, returns, switches, panics, faults, max_tasks, canary_value, is_ready,
  state_of, switch_to, check_ready, no_other, pick_next, reschedule, scheduler_yield,
}
use ref_arm_os.Sched.Search.{IsNext, around, ready_at, search_cases}
use ref_arm_os.Sched.Valid.{IsCurrent, handed, handed-IsCurrent}

abbrev pub cleared : Sched → Sched
cleared s = record s { need_reschedule = false }

-- The yielding task `c` goes on, since nothing else is READY or there is one task only; or the next
-- READY task `p` in circular order takes over.
pub data Outcome (s : Sched) (c : ℕ) : Yielded → Type 0 where
  goes_on :
      (s.task_count ≡ 1)
        ⊎ ((l : ℕ) → l < max_tasks → ready_at s (around s.current_task_index l) ≡ false)
      → Outcome s c (returns s)
  hands_over :
      (k j p : ℕ)
      → k < max_tasks
      → IsNext s s.current_task_index k j p
      → Outcome s c (switches c p (handed s c p j))

no_other-running : (s : Sched) (c : ℕ) → state_of s c ≡ running → no_other s c ≡ returns s
unfolding no_other
no_other-running s c h = ground arith

pick_next-next :
    (s : Sched) (c j p : ℕ)
    → p ≢ c
    → is_ready (state_of s p) ≡ true
    → pick_next s c (some (j, p)) ≡ switches c p (handed s c p j)
unfolding pick_next check_ready switch_to
pick_next-next s c j p ne h = ground arith

pub reschedule-Outcome : (s : Sched) (c : ℕ) → state_of s c ≡ running → Outcome s c (reschedule s c)
unfolding reschedule
reschedule-Outcome s c h = elim (Bool-cases (s.task_count == 1)) [
  | inl one ↦ rw one (goes_on (inl (ground arith)))
  | inr more ↦ elim (search_cases s max_tasks s.current_task_index) [
    | inl (k, j, p, lt, e, n) ↦
        let r = n.chosen in
        rw (more, e, pick_next-next s c j p (λ same. ground arith) r) (hands_over k j p lt n)
    | inr (e, all) ↦ rw (more, e, pick_next) (rw (no_other-running s c h) (goes_on (inr all)))
  ]
]

pub yield-reschedule :
    (m : Memory) (s : Sched) (c : ℕ)
    → s.need_reschedule ≡ true
    → s.current_task ≡ some c
    → load32 m (s.structs c).stack_base ≡ canary_value
    → scheduler_yield m s ≡ reschedule (cleared s) c
unfolding scheduler_yield
yield-reschedule m s c flag cur intact = simp (flag, cur, (==_iff _ _).1 intact)

ne→== : (a b : ℕ) → a ≢ b → (a == b) ≡ false
ne→== a b h = ground arith

==→ne : (a b : ℕ) → (a == b) ≡ false → a ≢ b
==→ne a b h e = ground arith

unflagged : (m : Memory) (s : Sched) → s.need_reschedule ≡ false → scheduler_yield m s ≡ returns s
unfolding scheduler_yield
unflagged m s off = simp off

pub cleared-Runs :
    (s : Sched) (c : ℕ)
    → IsCurrent s c
    → state_of s c ≡ running
    → IsCurrent (cleared s) c × (state_of (cleared s) c ≡ running)
cleared-Runs s c w h = (
  record {
    length_tasks = w.length_tasks;
    index_in = w.index_in;
    at_index = w.at_index;
    current = w.current;
    distinct = w.distinct;
    only = w.only;
  },
  h,
)

-- `scheduler_yield` with the flag set, by a current task that is RUNNING and whose canary is intact,
-- clears the flag, and then either goes on in the same task, when no entry of the table is READY or
-- there is one task only, or switches to the first READY task in circular order after it; then the
-- task that yields becomes READY and the chosen one RUNNING and current.
pub scheduler_yield-Outcome :
    (m : Memory) (s : Sched) (c : ℕ)
    → s.need_reschedule ≡ true
    → s.current_task ≡ some c
    → state_of s c ≡ running
    → load32 m (s.structs c).stack_base ≡ canary_value
    → Outcome (cleared s) c (scheduler_yield m s)
scheduler_yield-Outcome m s c flag cur h intact =
    rw (yield-reschedule m s c flag cur intact) (reschedule-Outcome (cleared s) c h)

-- A corrupted canary of the current task stops the kernel instead of a switch.
pub scheduler_yield-panics :
    (m : Memory) (s : Sched) (c : ℕ)
    → s.need_reschedule ≡ true
    → s.current_task ≡ some c
    → load32 m (s.structs c).stack_base ≢ canary_value
    → scheduler_yield m s ≡ panics
unfolding scheduler_yield
scheduler_yield-panics m s c flag cur bad = simp (flag, cur, ne→== _ _ bad)

abbrev Runs : ℕ → Sched → Type 0
Runs p s = IsCurrent s p × (state_of s p ≡ running)

-- Where the kernel goes on after `scheduler_yield`, `P` holds of the current task and the state.
abbrev pub Ends : (ℕ → Sched → Type 0) → ℕ → Yielded → Type 0
Ends P c (returns s) = P c s
Ends P c (switches a b s) = P b s
Ends P c panics = Unit {0}
Ends P c faults = ⊥

Outcome-Runs : (s : Sched) (c : ℕ) {y : Yielded} → Runs c s → Outcome s c y → Ends Runs c y
Outcome-Runs s c w (goes_on why) = w
Outcome-Runs s c w (hands_over k j p lt n) = handed-IsCurrent s c k j p w.0 n

-- The invariant of the scheduler through a yield: from a state whose current
-- task is its one RUNNING task, `scheduler_yield` never reads a null pointer, and where it does not
-- stop the kernel, the task that goes on is the current one, is RUNNING, and is the only such.
pub scheduler_yield-Runs :
    (m : Memory) (s : Sched) (c : ℕ)
    → IsCurrent s c
    → state_of s c ≡ running
    → Ends (λ p s'. IsCurrent s' p × (state_of s' p ≡ running)) c (scheduler_yield m s)
scheduler_yield-Runs m s c w h = elim (Bool-cases s.need_reschedule) [
  | inr off ↦ rw (unflagged m s off) (w, h)
  | inl on ↦ elim (Bool-cases (load32 m (s.structs c).stack_base == canary_value)) [
    | inl ok ↦
        Outcome-Runs (cleared s) c (cleared-Runs s c w h)
          (scheduler_yield-Outcome m s c on w.current h ((==_iff _ _).0 ok))
    | inr bad ↦ rw (scheduler_yield-panics m s c on w.current (==→ne _ _ bad)) tt
  ]
]
