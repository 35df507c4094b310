-- ===== src/Stack/Push.antt =====
-- Words pushed on a stack in memory, for the frames of VinixOS/kernel/src/kernel/scheduler/task.c.
use mathlib.Core.Path.{subst}
use ref_arm_os.Base.{
  length, sub32, ℕ, ◌+◌, ◌-◌, ◌*◌, ◌^◌, ◌≤◌, ◌<◌, ◌≡◌, refl, sym, ap, ◌∙◌, ◌⊎◌, inl, inr, List, [],
  ◌∷◌, arith,
}
use ref_arm_os.Memory.{Memory, store32, load32}
use ref_arm_os.Memory.Words.{store32-apart, load32-store32, load32-same}
use ref_arm_os.Stack.{Pushing, push}

-- words pushed one after the other
abbrev pub push_all : List ℕ → Pushing → Pushing
unfolding push
push_all [] s = s
push_all (w ∷ ws) s = push_all ws (push w s)

abbrev pub AreWords : List ℕ → Type 0
AreWords [] = Unit
AreWords (w ∷ ws) = (w < 2 ^ 32) × AreWords ws

-- The words `ws` stand below `top`, and the rest of memory is that of `m`.
abbrev pub StandBelow : ℕ → List ℕ → Memory → Type 0
StandBelow top [] m' = Unit
StandBelow top (w ∷ ws) m' = (load32 m' (top - 4) ≡ w) × StandBelow (top - 4) ws m'

-- what pushing `ws` from `p` in memory `m` comes to
abbrev pub Pushed : List ℕ → ℕ → Memory → Pushing → Type 0
Pushed ws p m s =
    (s.stack_ptr ≡ p - 4 * length ws)
    × StandBelow p ws s.mem
    × ((a : ℕ) → (a < p - 4 * length ws) ⊎ (p ≤ a) → s.mem a ≡ m a)

push-down :
    (w p : ℕ) (m : Memory)
    → 4 ≤ p
    → p < 2 ^ 32
    → push w (record { stack_ptr = p; mem = m })
      ≡ record { stack_ptr = p - 4; mem = store32 m (p - 4) w }
unfolding push
push-down w p m l h =
    let down : sub32 p 4 ≡ p - 4 = omega arith in
    ap {B = Pushing} (λ q. record { stack_ptr = q; mem = store32 m q w }) down

push_one-Pushed :
    (w : ℕ) (ws : List ℕ) (p : ℕ) (m : Memory) (s : Pushing)
    → w < 2 ^ 32
    → 4 * length (w ∷ ws) ≤ p
    → Pushed ws (p - 4) (store32 m (p - 4) w) s
    → Pushed (w ∷ ws) p m s
push_one-Pushed w ws p m s small l (at_sp, below, apart) = (
  omega (arith, at_sp),
  (
    load32-same (store32 m (p - 4) w) s.mem (p - 4) (λ b lo hi. apart b (inr lo))
        ∙ load32-store32 m (p - 4) w small,
    below,
  ),
  λ a o. apart a (further a o) ∙ store32-apart m (p - 4) w a (not_here a o),
)
  where
    further :
        (a : ℕ)
        → (a < p - 4 * length (w ∷ ws)) ⊎ (p ≤ a)
        → (a < p - 4 - 4 * length ws) ⊎ (p - 4 ≤ a)
    further a (inl x) = inl (omega arith)
    further a (inr x) = inr (omega arith)

    not_here : (a : ℕ) → (a < p - 4 * length (w ∷ ws)) ⊎ (p ≤ a) → (a < p - 4) ⊎ (p - 4 + 4 ≤ a)
    not_here a (inl x) = inl (omega arith)
    not_here a (inr x) = inr (omega arith)

pub push_all-Pushed :
    (ws : List ℕ) (p : ℕ) (m : Memory)
    → AreWords ws
    → 4 * length ws ≤ p
    → p < 2 ^ 32
    → Pushed ws p m (push_all ws (record { stack_ptr = p; mem = m }))
unfolding push_all
push_all-Pushed [] p m r l h = (omega arith, tt, λ a o. refl)
push_all-Pushed (w ∷ ws) p m r l h =
    subst (Pushed (w ∷ ws) p m) (sym (ap (push_all ws) (push-down w p m (omega arith) h))) (
      push_one-Pushed w ws p m _ r.0 l
        (push_all-Pushed ws (p - 4) (store32 m (p - 4) w) r.1 (omega arith) (omega arith)))
