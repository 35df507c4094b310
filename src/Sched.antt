-- ===== src/Sched.antt =====
-- VinixOS/kernel/src/kernel/scheduler/scheduler.c: the round-robin scheduler. A `struct task_struct *`
-- is a number, and `structs` is what the pointers point to, so that one task entered twice is one
-- task. The switch itself is assembly (VinixOS/kernel/src/arch/arm/scheduler/context_switch.S): here
-- it is an outcome of `scheduler_yield`. Diagnostic output is left out.
pub mod Search
pub mod Valid
pub mod Boot
pub mod Dead
pub mod Spare
pub mod Fair
pub mod Yield
use ref_arm_os.Base.{
  ltb, leb, ◌==◌, if◌then◌else◌, set, get_or, take, replicate, ℤ, negsuc, to_i32, ℕ, zero, suc, ◌+◌,
  ◌*◌, ◌%◌, Bool, true, false, not, Option, none, some, List, [], ◌∷◌,
}
use ref_arm_os.Memory.{Memory, at, next, strcpy, store32, load32}

abbrev pub max_tasks : ℕ
max_tasks = 4

abbrev pub canary_value : ℕ
canary_value = 0xDEADBEEF

-- `TASK_STATE_*` of VinixOS/kernel/include/task.h.
pub data TaskState : Type 0 where
  ready running blocked zombie : TaskState

abbrev pub state_code : TaskState → ℕ
state_code ready = 0
state_code running = 1
state_code blocked = 2
state_code zombie = 3

abbrev pub is_ready : TaskState → Bool
is_ready ready = true
is_ready _ = false

abbrev pub is_zombie : TaskState → Bool
is_zombie zombie = true
is_zombie _ = false

-- `struct task_struct`, less the saved registers, which only the assembly uses.
pub record Task : Type 0 where
  pub stack_base : ℕ
  pub stack_size : ℕ
  pub state : TaskState
  pub name : Option (List ℕ)
  pub id : ℕ

pub record Sched : Type 0 where
  pub structs : ℕ → Task
  pub tasks : List (Option ℕ)
  pub task_count : ℕ
  pub current_task : Option ℕ
  pub current_task_index : ℕ
  pub scheduler_started : Bool
  pub need_reschedule : Bool

abbrev pub slot : Sched → ℕ → Option ℕ
slot s i = get_or s.tasks i none

abbrev pub state_of : Sched → ℕ → TaskState
state_of s p = (s.structs p).state

abbrev pub update_task : Sched → ℕ → Task → Sched
update_task s p t = record s { structs = λ q. if q == p then t else s.structs q }

abbrev pub set_state : Sched → ℕ → TaskState → Sched
set_state s p st = update_task s p (record (s.structs p) { state = st })

-- `scheduler_init`; the flag `need_reschedule` is not reset.
unfoldable pub scheduler_init : Sched → Sched
scheduler_init s = record s {
  tasks = replicate max_tasks none;
  task_count = 0;
  current_task = none;
  current_task_index = 0;
  scheduler_started = false;
}

unfoldable pub scheduler_add_task : Sched → ℕ → ℤ × Sched
scheduler_add_task s p =
    let entered = record s {
      tasks = set s.tasks s.task_count (some p);
      task_count = s.task_count + 1;
      structs = λ q.
          if q == p then record (s.structs p) { id = s.task_count; state = ready } else s.structs q;
    } in
    if leb max_tasks s.task_count then (negsuc 0, s) else (to_i32 s.task_count, entered)

-- `scheduler_start` up to the jump into the first task; `none` where the code halts (no task) or
-- reads through a null pointer.
unfoldable pub scheduler_start : Sched → Option Sched
scheduler_start s = if s.task_count == 0 then none else elim (slot s 0) [
  | none ↦ none
  | some p ↦ some (record (set_state s p running) {
    current_task = some p;
    current_task_index = 0;
    scheduler_started = true;
  })
]

unfoldable pub scheduler_tick : Sched → Sched
scheduler_tick s = if s.scheduler_started then record s { need_reschedule = true } else s

-- How `scheduler_yield` ends: it returns, it calls `context_switch(prev, next)` with the state as it
-- is at that call, it panics, or it reads through the null pointer `current_task`.
pub data Yielded : Type 0 where
  returns : Sched → Yielded
  switches : ℕ → ℕ → Sched → Yielded
  panics : Yielded
  faults : Yielded

-- The loop that looks for a READY task, with the rounds left, from the entry after `i` on.
unfoldable pub search_ready : Sched → ℕ → ℕ → Option (ℕ × ℕ)
search_ready s zero i = none
search_ready s (suc left) i =
    let j = (i + 1) % max_tasks in
    let rest = search_ready s left j in
    elim (slot s j) [ none ↦ rest | some p ↦ if is_ready (state_of s p) then some (j, p) else rest ]

-- The end of `scheduler_yield`: the new states, and the switch.
unfoldable pub switch_to : Sched → ℕ → ℕ → ℕ → Yielded
switch_to s prev next index =
    let s1 = if is_zombie (state_of s prev) then s else set_state s prev ready in
    let s2 = set_state s1 next running in
    switches prev next (record s2 { current_task_index = index; current_task = some next })

-- The second check: a next task that is not READY gives way to task 0.
unfoldable pub check_ready : Sched → ℕ → ℕ → ℕ → Yielded
unfolding switch_to
check_ready s prev next index =
    if is_ready (state_of s next) then switch_to s prev next index else elim (slot s 0) [
      | none ↦ panics
      | some idle ↦ switch_to (set_state s idle ready) prev idle 0
    ]

-- A dead task with no READY task beside it: task 0 is made READY, unless it is dead too.
unfoldable pub force_idle : Sched → ℕ → Option ℕ → Yielded
unfolding check_ready
force_idle s prev none = panics
force_idle s prev (some idle) =
    if is_zombie (state_of s idle) then panics else check_ready (set_state s idle ready) prev idle 0

-- The first check, where the search has come back to the task that yields.
unfoldable pub no_other : Sched → ℕ → Yielded
unfolding force_idle
no_other s prev = if is_zombie (state_of s prev) then force_idle s prev (slot s 0) else returns s

unfoldable pub pick_next : Sched → ℕ → Option (ℕ × ℕ) → Yielded
unfolding no_other check_ready
pick_next s prev none = no_other s prev
pick_next s prev (some (index, next)) =
    if next == prev then no_other s prev else check_ready s prev next index

-- Past the stack check, with the flag cleared.
unfoldable pub reschedule : Sched → ℕ → Yielded
unfolding pick_next search_ready
reschedule s prev =
    if s.task_count == 1
    then returns s
    else pick_next s prev (search_ready s max_tasks s.current_task_index)

-- With no current task the code goes on past the stack check, and reads `prev_task->state` unless
-- there is only one task.
unfoldable pub scheduler_yield : Memory → Sched → Yielded
unfolding reschedule
scheduler_yield m s0 =
    let s = record s0 { need_reschedule = false } in
    if not s0.need_reschedule then returns s0 else elim s0.current_task [
      | none ↦ if s.task_count == 1 then returns s else faults
      | some c ↦
          if load32 m (s.structs c).stack_base == canary_value then reschedule s c else panics
    ]

-- `current_task == task` on pointers.
abbrev pub is_current : Sched → ℕ → Bool
is_current s p = elim s.current_task [ none ↦ false | some c ↦ c == p ]

unfoldable pub scheduler_terminate_task : Memory → Sched → ℕ → Yielded
unfolding scheduler_yield
scheduler_terminate_task m s id = if leb max_tasks id then returns s else elim (slot s id) [
  | none ↦ returns s
  | some p ↦
      let killed = set_state s p zombie in
      if is_current s p
      then scheduler_yield m (record killed { need_reschedule = true })
      else returns killed
]

-- `process_info_t`: the number, 32 bytes of name, the state.
abbrev pub process_info_size : ℕ
process_info_size = 40

-- `strlen` up to 31 bytes of the name, and the copy.
abbrev pub unknown : List ℕ
unknown = b'u' ∷ b'n' ∷ b'k' ∷ b'n' ∷ b'o' ∷ b'w' ∷ b'n' ∷ []

abbrev pub shown_name : Option (List ℕ) → List ℕ
shown_name none = take 31 unknown
shown_name (some n) = take 31 n

unfoldable pub put_process : Memory → ℕ → Task → Memory
put_process m at t =
    store32 (strcpy (at + 4) (shown_name t.name) (store32 m at t.id)) (at + 36) (state_code t.state)

-- The loop of `scheduler_get_tasks` over the entries that are left.
unfoldable pub list_tasks : Sched → List (Option ℕ) → ℕ → ℕ → ℕ → Memory → ℕ × Memory
unfolding put_process
list_tasks s [] count max_count buf m = (count, m)
list_tasks s (none ∷ es) count max_count buf m = list_tasks s es count max_count buf m
list_tasks s (some p ∷ es) count max_count buf m =
    let rest =
      list_tasks s es (count + 1) max_count buf
        (put_process m (buf + count * process_info_size) (s.structs p)) in
    if ltb count max_count then rest else (count, m)

unfoldable pub scheduler_get_tasks : Sched → ℕ → ℕ → Memory → ℕ × Memory
unfolding list_tasks
scheduler_get_tasks s buf max_count m = list_tasks s s.tasks 0 max_count buf m
