-- ===== src/Sched/Search.antt =====
-- What the search of `scheduler_yield` finds: the first READY task in circular order.
use ref_arm_os.Base.{
  Bool-cases, Option-cases, ℕ, zero, suc, ◌+◌, ◌%◌, ◌<◌, ◌≡◌, refl, sym, ap, ◌∙◌, ◌⊎◌, inl, inr,
  Bool, true, false, none, some, arith,
}
use ref_arm_os.Sched.{Sched, max_tasks, is_ready, slot, state_of, search_ready}

-- the index `k + 1` places round the table from `i`
abbrev pub around : ℕ → ℕ → ℕ
around i k = (i + 1 + k) % max_tasks

-- Entry `j` holds a READY task.
abbrev pub ready_at : Sched → ℕ → Bool
ready_at s j = elim (slot s j) [ none ↦ false | some p ↦ is_ready (state_of s p) ]

-- The task `p` at `j` is READY, `k + 1` places round from `i`, and none before it is.
pub record IsNext (s : Sched) (i k j p : ℕ) : Type 0 where
  pub place : j ≡ around i k
  pub holds : slot s j ≡ some p
  pub chosen : is_ready (state_of s p) ≡ true
  pub skipped : (l : ℕ) → l < k → ready_at s (around i l) ≡ false

around-suc : (i l : ℕ) → around ((i + 1) % max_tasks) l ≡ around i (suc l)
around-suc i l = omega arith

cons-skipped :
    (s : Sched) (i k : ℕ)
    → ready_at s ((i + 1) % max_tasks) ≡ false
    → ((l : ℕ) → l < k → ready_at s (around ((i + 1) % max_tasks) l) ≡ false)
    → (l : ℕ) → l < suc k
    → ready_at s (around i l) ≡ false
cons-skipped s i k miss rest zero lt =
    let e : around i 0 ≡ (i + 1) % max_tasks = omega arith in rw e miss
cons-skipped s i k miss rest (suc l) lt =
    ap (ready_at s) (sym (around-suc i l)) ∙ rest l (omega arith)

search_step :
    (s : Sched) (left i : ℕ)
    → ready_at s ((i + 1) % max_tasks) ≡ false
    → search_ready s (suc left) i ≡ search_ready s left ((i + 1) % max_tasks)
unfolding search_ready
search_step s left i h = ground arith

search_hit :
    (s : Sched) (left i : ℕ)
    → ready_at s ((i + 1) % max_tasks) ≡ true
    → (p : ℕ) × (search_ready s (suc left) i ≡ some ((i + 1) % max_tasks, p))
      × (slot s ((i + 1) % max_tasks) ≡ some p)
      × (is_ready (state_of s p) ≡ true)
unfolding search_ready
search_hit s left i h = elim (Option-cases (slot s ((i + 1) % max_tasks))) [
  | inl e ↦ absurd (ground arith)
  | inr (p, e) ↦ (p, ground arith, e, ground arith)
]

abbrev NoneReady : Sched → ℕ → ℕ → Type 0
NoneReady s left i = (l : ℕ) → l < left → ready_at s (around i l) ≡ false

-- The search over `left` rounds finds the next READY task, or none is READY in that range.
pub search_cases :
    (s : Sched) (left i : ℕ)
    → ((k : ℕ) × (j : ℕ) × (p : ℕ) × (k < left)
        × (search_ready s left i ≡ some (j, p))
        × IsNext s i k j p)
      ⊎ ((search_ready s left i ≡ none) × NoneReady s left i)
unfolding search_ready
search_cases s zero i = inr (refl, λ l lt. elim lt [ ])
search_cases s (suc left) i = elim (Bool-cases (ready_at s ((i + 1) % max_tasks))) [
  | inl hit ↦
      let (p, e, at_j, ok) = search_hit s left i hit in
      inl (
        0,
        (i + 1) % max_tasks,
        p,
        omega arith,
        e,
        record { place = omega arith; holds = at_j; chosen = ok; skipped = λ l lt. elim lt [ ] },
      )
  | inr miss ↦ elim (search_cases s left ((i + 1) % max_tasks)) [
    | inl (k, j, p, lt, e, r) ↦ inl (
      suc k,
      j,
      p,
      omega arith,
      search_step s left i miss ∙ e,
      record {
        place = r.place ∙ around-suc i k;
        holds = r.holds;
        chosen = r.chosen;
        skipped = cons-skipped s i k miss r.skipped;
      },
    )
    | inr (e, all) ↦ inr (search_step s left i miss ∙ e, cons-skipped s i left miss all)
  ]
]
