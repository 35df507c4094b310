-- ===== src/Base/Search.antt =====
-- The loop that the kernel's tables share: the first entry that is not in use.
use Prim.Native.Nat.{ℕ, zero, suc, ◌+◌, ◌<◌}
use mathlib.Core.Path.{◌≡◌, refl, ◌∙◌, ap}
use mathlib.Core.Logic.{◌⊎◌, inl, inr}
use mathlib.Core.Bool.{Bool, true, false}
use mathlib.Core.Option.{Option, none, some}
use mathlib.Core.List.{List, [], ◌∷◌}
use native.Mathlib.Omega.{arith}
use ref_arm_os.Base.Tests.{if◌then◌else◌, Bool-cases}
use ref_arm_os.Base.Lists.{length, get_or}

module _ {ℓ} {A : Type ℓ} (busy : A → Bool) where
  unfoldable pub find_free : List A → ℕ → Option ℕ
  find_free [] i = none
  find_free (x ∷ xs) i = if busy x then find_free xs (i + 1) else some i

  -- Entry `j` is free and all before it are in use.
  pub record IsFirst (xs : List A) (d : A) (j : ℕ) : Type 0 where
    pub in_range : j < length xs
    pub free : busy (get_or xs j d) ≡ false
    pub before : (k : ℕ) → k < j → busy (get_or xs k d) ≡ true

  abbrev pub AllBusy : List A → A → Type 0
  AllBusy xs d = (k : ℕ) → k < length xs → busy (get_or xs k d) ≡ true

  IsFirst-cons :
      (x : A) (xs : List A) (d : A) (j : ℕ)
      → busy x ≡ true
      → IsFirst xs d j
      → IsFirst (x ∷ xs) d (suc j)
  IsFirst-cons x xs d j b r = record {
    in_range = (let h = r.in_range in omega arith);
    free = r.free;
    before = before;
  }
    where
      before : (k : ℕ) → k < suc j → busy (get_or (x ∷ xs) k d) ≡ true
      before zero lt = b
      before (suc k) lt = r.before k (omega arith)

  AllBusy-cons : (x : A) (xs : List A) (d : A) → busy x ≡ true → AllBusy xs d → AllBusy (x ∷ xs) d
  AllBusy-cons x xs d b r zero lt = b
  AllBusy-cons x xs d b r (suc k) lt = r k (omega arith)

  pub find_free_cases :
      (xs : List A) (i : ℕ) (d : A)
      → ((j : ℕ) × (find_free xs i ≡ some (i + j)) × IsFirst xs d j)
        ⊎ ((find_free xs i ≡ none) × AllBusy xs d)
  unfolding find_free
  find_free_cases [] i d = inr (refl, λ k lt. elim lt [ ])
  find_free_cases (x ∷ xs) i d = elim (Bool-cases (busy x)) [
    | inl b ↦ elim (find_free_cases xs (i + 1) d) [
      | inl (j, e, r) ↦ inl (suc j, rw b (e ∙ ap some (omega arith)), IsFirst-cons x xs d j b r)
      | inr (e, r) ↦ inr (rw b e, AllBusy-cons x xs d b r)
    ]
    | inr f ↦ inl (
      0,
      rw f (ap some (omega arith)),
      record { in_range = omega arith; free = f; before = λ k lt. elim lt [ ] },
    )
  ]
