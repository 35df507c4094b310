-- ===== src/Sched/Valid.antt =====
-- The invariant of the scheduler once it has started, and the state after a switch.
use ref_arm_os.Base.{
  ◌==◌, if◌then◌else◌, length, get_or, ℕ, ◌<◌, ◌≡◌, refl, sym, ap, ◌∙◌, not, ◌&&◌, none, some,
  arith,
}
use ref_arm_os.Sched.{Sched, ready, running, max_tasks, is_zombie, slot, state_of, set_state}
use ref_arm_os.Sched.Search.{IsNext}

-- The table has four entries and no task twice; the current task `c` stands at the current index,
-- and no other entry is RUNNING.
pub record IsCurrent (s : Sched) (c : ℕ) : Type 0 where
  pub length_tasks : length s.tasks ≡ max_tasks
  pub index_in : s.current_task_index < max_tasks
  pub at_index : slot s s.current_task_index ≡ some c
  pub current : s.current_task ≡ some c
  pub distinct : (i j p : ℕ) → slot s i ≡ some p → slot s j ≡ some p → i ≡ j
  pub only : (i p : ℕ) → slot s i ≡ some p → state_of s p ≡ running → i ≡ s.current_task_index

-- The state in which `c`, if it still lives, has handed over to the task `p` at index `j`.
abbrev pub handed : Sched → ℕ → ℕ → ℕ → Sched
handed s c p j =
    let s1 = if is_zombie (state_of s c) then s else set_state s c ready in
    record (set_state s1 p running) { current_task_index = j; current_task = some p }

pub state_of-handed :
    (s : Sched) (c p j q : ℕ)
    → state_of (handed s c p j) q ≡ (
        if q == p
        then running
        else if (q == c) && not (is_zombie (state_of s c))
        then ready
        else state_of s q)
state_of-handed s c p j q = ground arith

tasks-handed : (s : Sched) (c p j : ℕ) → (handed s c p j).tasks ≡ s.tasks
tasks-handed s c p j = ground arith

pub slot-handed : (s : Sched) (c p j i : ℕ) → slot (handed s c p j) i ≡ slot s i
slot-handed s c p j i = ap (λ ts. get_or ts i none) (tasks-handed s c p j)

-- Handing over to the next READY task keeps the invariant, and that task is RUNNING.
pub handed-IsCurrent :
    (s : Sched) (c k j p : ℕ)
    → IsCurrent s c
    → IsNext s s.current_task_index k j p
    → IsCurrent (handed s c p j) p × (state_of (handed s c p j) p ≡ running)
handed-IsCurrent s c k j p w n = (
  record {
    length_tasks = ap length (tasks-handed s c p j) ∙ w.length_tasks;
    index_in = rw (n.place) (omega arith);
    at_index = slot-handed s c p j j ∙ n.holds;
    current = refl;
    distinct = λ i l q a b.
        w.distinct i l q (sym (slot-handed s c p j i) ∙ a) (sym (slot-handed s c p j l) ∙ b);
    only = λ i q a r.
        alone i q (sym (slot-handed s c p j i) ∙ a) (sym (state_of-handed s c p j q) ∙ r);
  },
  ground (arith, state_of-handed s c p j p),
)
  where
    alone :
        (i q : ℕ)
        → slot s i ≡ some q
        → (if q == p
            then running
            else if (q == c) && not (is_zombie (state_of s c))
            then ready
            else state_of s q)
          ≡ running
        → i ≡ j
    alone i q a r = ground (arith, w.only i q a, w.distinct i j q a, n.holds, w.at_index)
