-- ===== src/User.antt =====
-- The window of user memory, and `validate_user_pointer` of
-- VinixOS/kernel/src/kernel/core/svc_handler.c; the constants are those of
-- VinixOS/kernel/include/mmu.h.
use ref_arm_os.Base.{
  ltb, leb, if◌then◌else◌, ℤ, add32, is_zero, ℕ, zero, suc, ◌+◌, ◌^◌, ◌≤◌, ◌<◌, ◌≡◌, refl, ◌↔◌, ◌⊎◌,
  inl, inr, Bool, true, ◌&&◌, arith,
}
use ref_arm_os.Errno.{e_ok, e_ptr}

-- `USER_SPACE_VA`, and the end of its one megabyte.
abbrev pub user_start : ℕ
user_start = 0x40000000

abbrev pub user_end : ℕ
user_end = 0x40100000

unfoldable pub validate_user_pointer : ℕ → ℕ → ℤ
validate_user_pointer start len =
    let end = add32 start len in
    if ltb end start
    then e_ptr
    else if leb user_start start && leb end user_end
    then e_ok
    else e_ptr

-- A pointer and a length pass exactly when the pointer is not below user memory and the true sum of
-- both is not above its end, so a range that wraps round the address space is refused. For a length
-- above 0 that is exactly when each byte of the range lies in user memory. What does not pass gives
-- `E_PTR`.
pub validate_user_pointer_lem :
    (start len : ℕ)
    → start < 2 ^ 32
    → len < 2 ^ 32
    → ((validate_user_pointer start len ≡ e_ok) ↔ ((user_start ≤ start) × (start + len ≤ user_end)))
      × ((validate_user_pointer start len ≡ e_ok) ⊎ (validate_user_pointer start len ≡ e_ptr))
      × ((len ≡ 0)
          ⊎ ((validate_user_pointer start len ≡ e_ok)
              ↔ ((i : ℕ) → i < len → (user_start ≤ start + i) × (start + i < user_end))))
unfolding validate_user_pointer
validate_user_pointer_lem start len hs hl = (inside, ground arith, bytes len inside)
  where
    inside :
        (validate_user_pointer start len ≡ e_ok) ↔ ((user_start ≤ start) × (start + len ≤ user_end))
    inside = ground arith

    bytes :
        {P : Type 0} (n : ℕ)
        → P ↔ ((user_start ≤ start) × (start + n ≤ user_end))
        → (n ≡ 0) ⊎ (P ↔ ((i : ℕ) → i < n → (user_start ≤ start + i) × (start + i < user_end)))
    bytes zero same = inl refl
    bytes (suc n) same = inr (
      (λ p i h. let (low, high) = same.0 p in (omega arith, omega arith)),
      (λ all.
          let (low, _) = all 0 (omega arith) in
          let (_, high) = all n (omega arith) in same.1 (omega arith, omega arith)),
    )

abbrev pub is_ok : ℤ → Bool
is_ok e = is_zero e

pub valid_range :
    (start len : ℕ)
    → start < 2 ^ 32
    → len < 2 ^ 32
    → is_ok (validate_user_pointer start len) ≡ true
    → (user_start ≤ start) × (start + len ≤ user_end)
unfolding validate_user_pointer
valid_range start len hs hl h = ground arith
