-- ===== src/RefLibc/Printed.antt =====
-- The numbers that CrossCompiler/toolchain/runtime/reflibc.c prints.
use mathlib.Core.List.{append-nil}
use native.Mathlib.Nat.{mod-lt}
use ref_arm_os.Base.{
  ◌==◌, Bool-cases, length, pos, negsuc, ℕ, zero, suc, ◌+◌, ◌/◌, ◌%◌, ◌^◌, ◌≤◌, ◌<◌, ◌≡◌, refl, sym,
  ap, ◌∙◌, inl, inr, true, false, some, List, [], ◌∷◌, arith,
}
use ref_arm_os.Print.Digits.{
  Reads, digit_char, digit_value, value, numeral, all_below, each_below, numeral-Reads,
}
use ref_arm_os.RefLibc.{dec_tmp, print_int, hex_tmp, print_hex}

digit_char_dec : (r : ℕ) → r < 10 → digit_char r ≡ 48 + r
unfolding digit_char all_below
digit_char_dec r h =
    let tested : (digit_char r == (48 + r)) ≡ true =
      each_below (λ k. digit_char k == (48 + k)) 10 refl r h in
    ground arith

dec_tmp-numeral : (room num : ℕ) (tmp : List ℕ) → dec_tmp room num tmp ≡ numeral room 10 num tmp
unfolding dec_tmp numeral
dec_tmp-numeral zero num tmp = refl
dec_tmp-numeral (suc room) num tmp =
    let digit : 48 + num % 10 ≡ digit_char (num % 10) =
      sym (digit_char_dec (num % 10) (mod-lt num {m = 10} (omega arith))) in
    rw (digit, dec_tmp-numeral room (num / 10) (digit_char (num % 10) ∷ tmp)) refl

hex_tmp-numeral : (room num : ℕ) (tmp : List ℕ) → hex_tmp room num tmp ≡ numeral room 16 num tmp
unfolding hex_tmp numeral
hex_tmp-numeral zero num tmp = refl
hex_tmp-numeral (suc room) num tmp =
    rw (hex_tmp-numeral room (num / 16) (digit_char (num % 16) ∷ tmp)) refl

-- the digits of a number other than zero
decimals :
    (n : ℕ)
    → n < 2 ^ 31
    → (ds : List ℕ) × (dec_tmp 16 n [] ≡ some ds) × (value 10 0 ds ≡ n) × (length ds ≤ 10)
decimals n h =
    let v : Reads 10 n 10 [] (numeral 16 10 n []) =
      numeral-Reads 10 16 10 n [] (omega arith) (omega arith) (omega arith) (omega arith) in
    (v.digits, dec_tmp-numeral 16 n [] ∙ v.made ∙ ap some (append-nil v.digits), v.reads, v.short)

-- For every `int` but the least: a value that is not negative is printed by at most ten digits that
-- read back as it, a negative one by a sign and such digits of its negation; neither overruns a buffer.
print_int-Reads :
    (n : ℕ)
    → n + 1 < 2 ^ 31
    → ((ds : List ℕ) × (print_int (pos n) ≡ some ds) × (value 10 0 ds ≡ n) × (length ds ≤ 10))
      × ((ds : List ℕ) × (print_int (negsuc n) ≡ some (45 ∷ ds))
          × (value 10 0 ds ≡ n + 1)
          × (length ds ≤ 10))
unfolding print_int value digit_value
print_int-Reads n h =
    let (ds, e, v, l) = decimals n (omega arith) in
    let (ns, f, x, m) = decimals (n + 1) h in
    let not_least : (n + 1 == 2 ^ 31) ≡ false = ground arith in
    (
      elim (Bool-cases (n == 0)) [
        | inl z ↦ rw (z) (48 ∷ [], refl, ground arith, omega arith)
        | inr z ↦ rw (z) (ds, e, v, l)
      ],
      (ns, rw (not_least, f) refl, x, m),
    )

-- For every `int`: zero and a positive value are printed in base 16 by at most eight digits that read
-- back as it, and a negative value prints nothing.
print_hex-Reads :
    (n : ℕ)
    → n < 2 ^ 31
    → ((ds : List ℕ) × (print_hex (pos n) ≡ some ds) × (value 16 0 ds ≡ n) × (length ds ≤ 8))
      × (print_hex (negsuc n) ≡ some [])
unfolding print_hex value digit_value
print_hex-Reads n h =
    let v : Reads 16 n 8 [] (numeral 16 16 n []) =
      numeral-Reads 8 16 16 n [] (omega arith) (omega arith) (omega arith) (omega arith) in
    (
      elim (Bool-cases (n == 0)) [
        | inl z ↦ rw (z) (48 ∷ [], refl, ground arith, omega arith)
        | inr z ↦ rw (z) (
          v.digits,
          hex_tmp-numeral 16 n [] ∙ v.made ∙ ap some (append-nil v.digits),
          v.reads,
          v.short,
        )
      ],
      refl,
    )
