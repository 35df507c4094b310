-- ===== src/Sched/Spare.antt =====
-- What `scheduler_yield` makes of the tasks that are not dead.
use mathlib.Core.Path.{subst}
use ref_arm_os.Base.{◌==◌, ==_iff, Bool-cases, Option-cases, ℕ, ◌≡◌, sym, inl, inr, arith}
use ref_arm_os.Memory.{Memory, next, load32}
use ref_arm_os.Sched.Yield.{cleared, yield-reschedule}
use ref_arm_os.Sched.{
  Sched, Yielded, ready, zombie, returns, switches, panics, faults, max_tasks, canary_value,
  is_ready, is_zombie, slot, state_of, set_state, search_ready, switch_to, check_ready, force_idle,
  no_other, pick_next, reschedule, scheduler_yield,
}

-- Whoever is dead in `s` was dead in `s0`.
abbrev pub Spared : Sched → Sched → Type 0
Spared s0 s = (q : ℕ) → state_of s q ≡ zombie → state_of s0 q ≡ zombie

abbrev pub Spares : Sched → Yielded → Type 0
Spares s0 (returns s) = Spared s0 s
Spares s0 (switches a b s) = Spared s0 s
Spares s0 panics = Unit {0}
Spares s0 faults = Unit {0}

revived-Spared : (s0 s : Sched) (p : ℕ) → Spared s0 s → Spared s0 (set_state s p ready)
revived-Spared s0 s p h q dead = ground (arith, h q)

module _ (s0 : Sched) where
  switch_to-Spares :
      (s : Sched) (prev next index : ℕ) → Spared s0 s → Spares s0 (switch_to s prev next index)
  unfolding switch_to
  switch_to-Spares s prev next index h q dead = ground (arith, h q)

  check_ready-Spares :
      (s : Sched) (prev next index : ℕ) → Spared s0 s → Spares s0 (check_ready s prev next index)
  unfolding check_ready
  check_ready-Spares s prev next index h = elim (Bool-cases (is_ready (state_of s next))) [
    | inl ok ↦ rw (check_ready, ok) (switch_to-Spares s prev next index h)
    | inr bad ↦ elim (Option-cases (slot s 0)) [
      | inl e ↦ rw (check_ready, bad, e) tt
      | inr (idle, e) ↦
          rw (check_ready, bad, e)
            (switch_to-Spares (set_state s idle ready) prev idle 0 (revived-Spared s0 s idle h))
    ]
  ]

  no_other-Spares : (s : Sched) (prev : ℕ) → Spared s0 s → Spares s0 (no_other s prev)
  unfolding no_other force_idle
  no_other-Spares s prev h = elim (Bool-cases (is_zombie (state_of s prev))) [
    | inr live ↦ rw (no_other, live) h
    | inl dead ↦ elim (Option-cases (slot s 0)) [
      | inl e ↦ rw (no_other, dead, e) tt
      | inr (idle, e) ↦ elim (Bool-cases (is_zombie (state_of s idle))) [
        | inl gone ↦ rw (no_other, dead, e, force_idle, gone) tt
        | inr alive ↦
            rw (no_other, dead, e, force_idle, alive)
              (check_ready-Spares (set_state s idle ready) prev idle 0 (revived-Spared s0 s idle h))
      ]
    ]
  ]

  reschedule-Spares : (s : Sched) (prev : ℕ) → Spared s0 s → Spares s0 (reschedule s prev)
  unfolding reschedule pick_next
  reschedule-Spares s prev h = elim (Bool-cases (s.task_count == 1)) [
    | inl one ↦ rw (reschedule, one) h
    | inr more ↦ elim (Option-cases (search_ready s max_tasks s.current_task_index)) [
      | inl e ↦ rw (reschedule, more, e) (no_other-Spares s prev h)
      | inr ((index, next), e) ↦ elim (Bool-cases (next == prev)) [
        | inl same ↦ rw (reschedule, more, e, pick_next, same) (no_other-Spares s prev h)
        | inr other ↦
            rw (reschedule, more, e, pick_next, other) (check_ready-Spares s prev next index h)
      ]
    ]
  ]

  pub scheduler_yield-Spares :
      (m : Memory) (s : Sched) → Spared s0 s → Spares s0 (scheduler_yield m s)
  unfolding scheduler_yield
  scheduler_yield-Spares m s h = elim (Bool-cases s.need_reschedule) [
    | inr off ↦ simp off h
    | inl on ↦ elim (Option-cases s.current_task) [
      | inl e ↦ elim (Bool-cases (s.task_count == 1)) [
        | inl one ↦ simp (on, e, one) h
        | inr more ↦ simp (on, e, more) tt
      ]
      | inr (c, e) ↦ elim (Bool-cases (load32 m (s.structs c).stack_base == canary_value)) [
        | inl ok ↦
            subst (Spares s0) (sym (yield-reschedule m s c on e ((==_iff _ _).0 ok)))
              (reschedule-Spares (cleared s) c h)
        | inr bad ↦ simp (on, e, bad) tt
      ]
    ]
  ]
