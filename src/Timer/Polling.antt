-- ===== src/Timer/Polling.antt =====
-- What the waits of VinixOS/kernel/src/drivers/timer.c leave in `timeout`.
use ref_arm_os.Base.{
  Bool-cases, ℕ, zero, suc, ◌+◌, ◌-◌, ◌^◌, ◌≤◌, ◌<◌, ◌≡◌, refl, sym, ap, ◌∙◌, ◌⊎◌, inl, inr, Bool,
  true, false, arith,
}
use ref_arm_os.Timer.{poll}

-- The waits from read `i` on: ready at read `i + k`, the first that is, or at none of `t + 1` reads.
abbrev pub Polled : (waiting : ℕ → Bool) (reads : ℕ → ℕ) (t i out : ℕ) → Type 0
Polled waiting reads t i out =
    ((k : ℕ) × (k ≤ t)
      × ((j : ℕ) → j < k → waiting (reads (i + j)) ≡ true)
      × (waiting (reads (i + k)) ≡ false)
      × (out ≡ t - k))
    ⊎ (((j : ℕ) → j ≤ t → waiting (reads (i + j)) ≡ true) × (out ≡ 2 ^ 32 - 1))

module _ (waiting : ℕ → Bool) (reads : ℕ → ℕ) where
  move : (i j : ℕ) (b : Bool) → i ≡ j → waiting (reads i) ≡ b → waiting (reads j) ≡ b
  move i j b e h = ap (λ n. waiting (reads n)) (sym e) ∙ h

  first_too :
      (i n : ℕ)
      → waiting (reads i) ≡ true
      → ((j : ℕ) → j < n → waiting (reads (i + 1 + j)) ≡ true)
      → (j : ℕ) → j < suc n
      → waiting (reads (i + j)) ≡ true
  first_too i n e f zero h = move i (i + 0) true (omega arith) e
  first_too i n e f (suc j) h = move (i + 1 + j) (i + suc j) true (omega arith) (f j (omega arith))

  one_further :
      (t i out : ℕ)
      → waiting (reads i) ≡ true
      → Polled waiting reads t (i + 1) out
      → Polled waiting reads (suc t) i out
  one_further t i out e (inl (k, below, before, here, left)) = inl (
    suc k,
    omega arith,
    first_too i k e before,
    move (i + 1 + k) (i + suc k) false (omega arith) here,
    omega arith,
  )
  one_further t i out e (inr (all, left)) =
      inr ((λ j h. first_too i (suc t) e (λ l b. all l (omega arith)) j (omega arith)), left)

  ready_now : (t i : ℕ) → waiting (reads i) ≡ false → Polled waiting reads t i t
  ready_now t i e = inl (
    0,
    omega arith,
    (λ j h. absurd (omega arith)),
    move i (i + 0) false (omega arith) e,
    omega arith,
  )

-- For every register and every bound `t`: when the register is ready at one of the first t + 1
-- reads, the loop ends at the first such read and leaves `t` less the reads before it; when it is
-- ready at none of them, the loop leaves 2 ^ 32 - 1. So the test for a timeout, which is for zero,
-- misses every timeout, and is met only where the register became ready at the last read.
pub poll-Polled :
    (waiting : ℕ → Bool) (reads : ℕ → ℕ) (t i : ℕ)
    → Polled waiting reads t i (poll waiting reads t i)
unfolding poll
poll-Polled waiting reads zero i = elim (Bool-cases (waiting (reads i))) [
  | inl e ↦ rw (e) (inr ((λ j h. move waiting reads i (i + j) true (omega arith) e), refl))
  | inr e ↦ rw (e) (ready_now waiting reads 0 i e)
]
poll-Polled waiting reads (suc t) i = elim (Bool-cases (waiting (reads i))) [
  | inl e ↦ rw (e) (one_further waiting reads t i _ e (poll-Polled waiting reads t (i + 1)))
  | inr e ↦ rw (e) (ready_now waiting reads (suc t) i e)
]
