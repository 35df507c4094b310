-- ===== src/Stack/Frames.antt =====
-- What `task_stack_init` of VinixOS/kernel/src/kernel/scheduler/task.c leaves on the stack.
use mathlib.Core.Path.{subst}
use ref_arm_os.Base.{
  ltb, leb, if◌then◌else◌, Bool-cases, add32, sub32, ℕ, ◌+◌, ◌-◌, ◌^◌, ◌≤◌, ◌<◌, ◌≡◌, refl, sym, ap,
  ◌∙◌, ◌⊎◌, inl, inr, Bool, true, false, Option, none, some, List, [], ◌∷◌, arith,
}
use ref_arm_os.Memory.{Memory, store32, load32}
use ref_arm_os.Memory.Words.{store32-apart, load32-store32, load32-same}
use ref_arm_os.Sched.{Task, ready, canary_value}
use ref_arm_os.Stack.{Pushing, Context, push_registers, push_zeros, push_frames, task_stack_init}
use ref_arm_os.Stack.Push.{push_all, AreWords, StandBelow, Pushed, push_all-Pushed}

-- the words, from the highest address down
abbrev pub frame_words : (entry_point trampoline : ℕ) → List ℕ
frame_words entry_point trampoline =
    entry_point
    ∷ 0x0BAD000C
    ∷ 0x0BAD000B
    ∷ 0x0BAD000A
    ∷ 0x0BAD0009
    ∷ 0x0BAD0008
    ∷ 0x0BAD0007
    ∷ 0x0BAD0006
    ∷ 0x0BAD0005
    ∷ 0x0BAD0004
    ∷ 0x0BAD0003
    ∷ 0x0BAD0002
    ∷ 0x0BAD0001
    ∷ 0x0BAD0000
    ∷ 0
    ∷ (if leb 0xC0000000 entry_point then 0x13 else 0x10)
    ∷ trampoline
    ∷ 0
    ∷ 0
    ∷ 0
    ∷ 0
    ∷ 0
    ∷ 0
    ∷ 0
    ∷ 0
    ∷ 0
    ∷ []

push_frames-words : (e t : ℕ) (s : Pushing) → push_frames e t s ≡ push_all (frame_words e t) s
unfolding push_frames push_registers push_zeros
push_frames-words e t s = refl

frame_words-AreWords : (e t : ℕ) → e < 2 ^ 32 → t < 2 ^ 32 → AreWords (frame_words e t)
frame_words-AreWords e t h k = ground arith

-- The stack of a new task: its pointers, the 26 words below the top, and the rest of memory.
pub record IsStack (e t base size : ℕ) (task : Task) (m : Memory) (r : Context × Task × Memory)
    : Type 0 where
  pub sp_eq : r.0.sp ≡ base + size - 104
  pub sp_usr_eq : r.0.sp_usr ≡ base + size - 512
  pub lr_usr_eq : r.0.lr_usr ≡ e
  pub task_eq : r.1 ≡ record task { stack_base = base; stack_size = size; state = ready }
  pub frames : StandBelow (base + size) (frame_words e t) r.2
  pub canary : load32 r.2 base ≡ canary_value
  pub rest :
      (a : ℕ)
      → (a < base) ⊎ ((base + 4 ≤ a) × (a < base + size - 104)) ⊎ (base + size ≤ a)
      → r.2 a ≡ m a

module _ (base size a : ℕ) where
  outside :
      512 < size
      → (a < base) ⊎ ((base + 4 ≤ a) × (a < base + size - 104)) ⊎ (base + size ≤ a)
      → (a < base + size - 104) ⊎ (base + size ≤ a)
  outside l (inl x) = inl (omega arith)
  outside l (inr (inl (x, y))) = inl y
  outside l (inr (inr x)) = inr x

  off_canary :
      512 < size
      → (a < base) ⊎ ((base + 4 ≤ a) × (a < base + size - 104)) ⊎ (base + size ≤ a)
      → (a < base) ⊎ (base + 4 ≤ a)
  off_canary l (inl x) = inl x
  off_canary l (inr (inl (x, y))) = inr x
  off_canary l (inr (inr x)) = inr (omega arith)

module _ (e t base size : ℕ) (task : Task) (m : Memory) where
  start : Pushing
  start = record { stack_ptr = add32 base size; mem = store32 m base canary_value }

  start_lem :
      base + size < 2 ^ 32
      → start ≡ record { stack_ptr = base + size; mem = store32 m base canary_value }
  unfolding start
  start_lem h =
      let top : add32 base size ≡ base + size = omega arith in
      ap {B = Pushing} (λ q. record { stack_ptr = q; mem = store32 m base canary_value }) top

  pushed :
      e < 2 ^ 32
      → t < 2 ^ 32
      → base + size < 2 ^ 32
      → 104 ≤ base + size
      → Pushed (frame_words e t) (base + size) (store32 m base canary_value) (push_frames e t start)
  pushed he ht h l =
      subst (Pushed (frame_words e t) (base + size) (store32 m base canary_value))
        (sym (push_frames-words e t start ∙ ap (push_all (frame_words e t)) (start_lem h)))
        (push_all-Pushed (frame_words e t) (base + size) (store32 m base canary_value)
          (frame_words-AreWords e t he ht) l h)

  stacked : Context × Task × Memory
  stacked = (
    record {
      sp = (push_frames e t start).stack_ptr;
      sp_usr = sub32 (add32 base size) 512;
      lr_usr = e;
    },
    record task { stack_base = base; stack_size = size; state = ready },
    (push_frames e t start).mem,
  )

  stacked-IsStack :
      e < 2 ^ 32
      → t < 2 ^ 32
      → base + size < 2 ^ 32
      → 512 < size
      → IsStack e t base size task m stacked
  unfolding stacked
  stacked-IsStack he ht h l =
      let (at_sp, below, apart) = pushed he ht h (omega arith) in
      record {
        sp_eq = at_sp;
        sp_usr_eq = omega arith;
        lr_usr_eq = refl;
        task_eq = refl;
        frames = below;
        canary =
            load32-same (store32 m base canary_value) (push_frames e t start).mem base
              (λ b lo hi. apart b (inl (omega arith)))
            ∙ load32-store32 m base canary_value (omega arith);
        rest = λ a o.
            apart a (outside base size a l o)
            ∙ store32-apart m base canary_value a (off_canary base size a l o);
      }

  stacked_lem : task_stack_init e base size t task m ≡ (
      if leb (push_frames e t start).stack_ptr base
      then none
      else if leb (sub32 (add32 base size) 512) base
      then none
      else some stacked)
  unfolding task_stack_init stacked start
  stacked_lem = refl

either_none {ℓ} : {A : Type ℓ} (b : Bool) → (if◌then◌else◌ {A = Option A} b none none) ≡ none
either_none true = refl
either_none false = refl

-- For a stack that lies in the 32-bit address space, and words for the two addresses: when it has
-- more than 512 bytes, the function comes back, the 26 words of the two frames stand from the top
-- down in the order in which the assembly pops them, the user stack starts 512 bytes below the top,
-- the canary stands at the base, and no other byte has changed; when it has 512 bytes or less, and
-- ends at 512 or above, the function panics.
pub task_stack_init-Frames :
    (e t base size : ℕ) (task : Task) (m : Memory)
    → e < 2 ^ 32
    → t < 2 ^ 32
    → base + size < 2 ^ 32
    → 512 ≤ base + size
    → ((512 < size)
        × (r : Context × Task × Memory) × (task_stack_init e base size t task m ≡ some r)
        × IsStack e t base size task m r)
      ⊎ ((size ≤ 512) × (task_stack_init e base size t task m ≡ none))
task_stack_init-Frames e t base size task m he ht h l =
    let (at_sp, _, _) = pushed e t base size task m he ht h (omega arith) in
    elim (Bool-cases (ltb 512 size)) [
      | inl big ↦
          let sp_ok : leb (push_frames e t (start e t base size task m)).stack_ptr base ≡ false =
            ground (arith, at_sp) in
          let usr_ok : leb (sub32 (add32 base size) 512) base ≡ false = ground arith in
          inl (
            ground arith,
            stacked e t base size task m,
            stacked_lem e t base size task m ∙ (rw (sp_ok, usr_ok) refl),
            stacked-IsStack e t base size task m he ht h (ground arith),
          )
      | inr small ↦
          let usr_low : leb (sub32 (add32 base size) 512) base ≡ true = ground arith in
          inr (
            ground arith,
            stacked_lem e t base size task m
                ∙ (rw (usr_low) (
                    either_none
                      (leb (push_frames e t (start e t base size task m)).stack_ptr base))),
          )
    ]
