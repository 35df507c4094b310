-- ===== src/Sched/Fair.antt =====
-- How long a READY task of VinixOS/kernel/src/kernel/scheduler/scheduler.c waits.
use mathlib.Core.Path.{subst}
use mathlib.Core.Bool.{false≢true}
use native.Mathlib.Decide.{dec_lt}
use ref_arm_os.Base.{
  ◌==◌, if◌then◌else◌, ℕ, zero, suc, ◌+◌, ◌-◌, ◌%◌, ◌≤◌, ◌<◌, ◌≡◌, refl, sym, ap, ◌∙◌, ◌≢◌, inl,
  inr, true, not, ◌&&◌, Option, none, some, arith,
}
use ref_arm_os.Memory.{Memory, load32}
use ref_arm_os.Sched.{
  Sched, Yielded, ready, running, returns, switches, panics, faults, max_tasks, canary_value,
  is_ready, is_zombie, slot, state_of, scheduler_yield,
}
use ref_arm_os.Sched.Search.{IsNext, around, ready_at}
use ref_arm_os.Sched.Yield.{
  Outcome, goes_on, hands_over, cleared, cleared-Runs, scheduler_yield-Outcome,
}
use ref_arm_os.Sched.Valid.{IsCurrent, handed, state_of-handed, slot-handed, handed-IsCurrent}

-- The flag set and `scheduler_yield` called, as `sys_yield` and the idle task do.
pub yield_now : Memory → Sched → Yielded
yield_now m s = scheduler_yield m (record s { need_reschedule = true })

-- `n` yields, each by the task that is current then; `none` if the kernel stops.
pub yields : Memory → ℕ → Sched → Option Sched
unfolding yield_now
yields m zero s = some s
yields m (suc n) s = elim (yield_now m s) [
  | returns s' ↦ yields m n s'
  | switches a b s' ↦ yields m n s'
  | panics ↦ none
  | faults ↦ none
]

-- The canary of every task in the table is intact.
abbrev pub Intact : Memory → Sched → Type 0
Intact m s = (i p : ℕ) → slot s i ≡ some p → load32 m (s.structs p).stack_base ≡ canary_value

-- `t` waits READY at `x`, which is `k + 1` places round from the current index, not all the way.
record Waits (s : Sched) (x t k : ℕ) : Type 0 where
  at : slot s x ≡ some t
  is_waiting : is_ready (state_of s t) ≡ true
  place : x ≡ around s.current_task_index k
  near : k < 3

stack_base-handed :
    (s : Sched) (c p j q : ℕ) → ((handed s c p j).structs q).stack_base ≡ (s.structs q).stack_base
stack_base-handed s c p j q = ground arith

Intact-handed : (m : Memory) (s : Sched) (c p j : ℕ) → Intact m s → Intact m (handed s c p j)
Intact-handed m s c p j h i q e =
    ap (load32 m) (stack_base-handed s c p j q) ∙ h i q (sym (slot-handed s c p j i) ∙ e)

ready_at-Waits :
    (s : Sched) (x t k : ℕ) → Waits s x t k → ready_at s (around s.current_task_index k) ≡ true
ready_at-Waits s x t k h = ground (arith, h.at, h.place, h.is_waiting)

-- The chosen task is `t`, or stands before it.
chosen-le :
    (s : Sched) (x t k k' j p : ℕ) → Waits s x t k → IsNext s s.current_task_index k' j p → k' ≤ k
chosen-le s x t k k' j p h n = ground (arith, ready_at-Waits s x t k h, n.skipped k)

chosen-eq :
    (s : Sched) (x t k j p : ℕ) → Waits s x t k → IsNext s s.current_task_index k j p → p ≡ t
chosen-eq s x t k j p h n = ground (arith, h.at, h.place, n.holds, n.place)

-- Otherwise `t` still waits, nearer than before.
Waits-handed :
    (s : Sched) (c x t k k' j p : ℕ)
    → IsCurrent s c
    → Waits s x t k
    → IsNext s s.current_task_index k' j p
    → k' < k
    → Waits (handed s c p j) x t (k - k' - 1)
Waits-handed s c x t k k' j p w h n lt = record {
  at = slot-handed s c p j x ∙ h.at;
  is_waiting = ap is_ready (state_of-handed s c p j t ∙ same) ∙ h.is_waiting;
  place = place;
  near = omega arith;
}
  where
    place : x ≡ around j (k - k' - 1)
    place = omega (arith, h.place, n.place, h.near, w.index_in)

    t≢p : t ≢ p
    t≢p e = ground (arith, w.distinct x j p, h.at, n.holds, h.place, n.place, h.near, w.index_in)

    t≢c : t ≢ c
    t≢c e =
        ground (
          arith,
          w.distinct x s.current_task_index c,
          h.at,
          w.at_index,
          h.place,
          h.near,
          w.index_in,
        )

    same :
        (if t == p
          then running
          else if (t == c) && not (is_zombie (state_of s c))
          then ready
          else state_of s t)
        ≡ state_of s t
    same = ground (arith, t≢p, t≢c)

abbrev Reaches : Memory → ℕ → ℕ → Sched → Type 0
Reaches m b t s =
    (n : ℕ) × (s' : Sched) × (n ≤ b)
    × (yields m n s ≡ some s')
    × (s'.current_task ≡ some t)
    × (state_of s' t ≡ running)

yield_now-Outcome :
    (m : Memory) (s : Sched) (c : ℕ)
    → IsCurrent s c
    → state_of s c ≡ running
    → Intact m s
    → Outcome (cleared s) c (yield_now m s)
unfolding yield_now
yield_now-Outcome m s c w h intact =
    scheduler_yield-Outcome m (record s { need_reschedule = true }) c refl w.current h
      (intact s.current_task_index c w.at_index)

-- One round: `t` is chosen, or waits nearer than before.
data Round (m : Memory) (s : Sched) (x t k : ℕ) : Type 0 where
  chosen : (c j : ℕ) → yield_now m s ≡ switches c t (handed (cleared s) c t j) → Round m s x t k
  nearer :
      (c p k' : ℕ) (s' : Sched)
      → yield_now m s ≡ switches c p s'
      → IsCurrent s' p
      → state_of s' p ≡ running
      → Intact m s'
      → s'.task_count ≡ s.task_count
      → k' < k
      → Waits s' x t k'
      → Round m s x t k

count-handed : (s : Sched) (c p j : ℕ) → (handed s c p j).task_count ≡ s.task_count
count-handed s c p j = ground arith

Waits-cleared : {s : Sched} {x t k : ℕ} → Waits s x t k → Waits (cleared s) x t k
Waits-cleared h = record { at = h.at; is_waiting = h.is_waiting; place = h.place; near = h.near }

round :
    (m : Memory) (s : Sched) (c x t k : ℕ) {y : Yielded}
    → IsCurrent s c
    → Intact m s
    → s.task_count ≢ 1
    → Waits s x t k
    → yield_now m s ≡ y
    → IsCurrent (cleared s) c
    → Outcome (cleared s) c y
    → Round m s x t k
round m s c x t k w intact more h e wc (goes_on (inl one)) = absurd (more one)
round m s c x t k w intact more h e wc (goes_on (inr all)) =
    absurd (false≢true (sym (all k (let n = h.near in omega arith)) ∙ ready_at-Waits s x t k h))
round m s c x t k w intact more h e wc (hands_over k' j p lt n) =
    let le = chosen-le (cleared s) x t k k' j p (Waits-cleared h) n in
    elim (dec_lt k' k) [
      | yes before ↦
          let next_runs = handed-IsCurrent (cleared s) c k' j p wc n in
          nearer c p (k - k' - 1) (handed (cleared s) c p j) e next_runs.0 next_runs.1
            (Intact-handed m (cleared s) c p j intact) (count-handed (cleared s) c p j)
            (omega arith) (Waits-handed (cleared s) c x t k k' j p wc (Waits-cleared h) n before)
      | no here ↦
          let same : k' ≡ k = omega arith in
          let hit : p ≡ t =
            chosen-eq (cleared s) x t k j p (Waits-cleared h)
              (subst (λ l. IsNext (cleared s) s.current_task_index l j p) same n) in
          chosen c j (subst (λ q. yield_now m s ≡ switches c q (handed (cleared s) c q j)) hit e)
    ]

Reaches-now :
    (m : Memory) (s : Sched) (c t j b : ℕ)
    → yield_now m s ≡ switches c t (handed (cleared s) c t j)
    → Reaches m (suc b) t s
unfolding yields
Reaches-now m s c t j b e = (
  1,
  handed (cleared s) c t j,
  omega arith,
  rw (e, yields) refl,
  refl,
  ground (arith, state_of-handed (cleared s) c t j t),
)

Reaches-later :
    (m : Memory) (s s' : Sched) (c p t b : ℕ)
    → yield_now m s ≡ switches c p s'
    → Reaches m b t s'
    → Reaches m (suc b) t s
unfolding yields
Reaches-later m s s' c p t b e (n, s'', le, run, cur, st) =
    (suc n, s'', omega arith, rw (e, yields) run, cur, st)

reaches :
    (b : ℕ) (m : Memory) (s : Sched) (c x t k : ℕ)
    → k < b
    → IsCurrent s c
    → state_of s c ≡ running
    → Intact m s
    → s.task_count ≢ 1
    → Waits s x t k
    → Reaches m b t s
reaches zero m s c x t k lt w r intact more h = elim lt [ ]
reaches (suc b) m s c x t k lt w r intact more h =
    elim (round m s c x t k w intact more h refl (cleared-Runs s c w r).0
      (yield_now-Outcome m s c w r intact)) [
        | chosen c' j e ↦ Reaches-now m s c' t j b e
        | nearer c' p k' s' e w' r' intact' same near h' ↦
            Reaches-later m s s' c' p t b e (
              reaches b m s' p x t k' (omega arith) w' r' intact' (λ one. more (sym same ∙ one)) h')
      ]

-- No task starves: in a state whose current task is its one RUNNING task, with all canaries intact
-- and more than one task counted, every READY task at another index of the table is the current
-- task and RUNNING after at most three yields, by whichever tasks are current in between.
pub ready_task_runs :
    (m : Memory) (s : Sched) (c x t : ℕ)
    → IsCurrent s c
    → state_of s c ≡ running
    → Intact m s
    → s.task_count ≢ 1
    → x < max_tasks
    → x ≢ s.current_task_index
    → slot s x ≡ some t
    → state_of s t ≡ ready
    → (n : ℕ) × (s' : Sched) × (n ≤ 3)
      × (yields m n s ≡ some s')
      × (s'.current_task ≡ some t)
      × (state_of s' t ≡ running)
ready_task_runs m s c x t w r intact more in_table other at_x waiting =
    let k = (x + 3 - s.current_task_index) % 4 in
    let i = w.index_in in
    reaches 3 m s c x t k (omega arith) w r intact more
      (record { at = at_x; is_waiting = rw waiting; place = omega arith; near = omega arith })
