-- ===== src/Print/Kernel.antt =====
-- The numbers that VinixOS/kernel/src/drivers/uart.c prints: `print_uint` over its own division.
use mathlib.Core.Option.{map as map_option}
use mathlib.Core.List.{append-nil}
use native.Mathlib.Nat.{div-le_self, pow-le-pow_left}
use ref_arm_os.Base.{
  ◌==◌, Bool-cases, length, ℕ, zero, suc, ◌/◌, ◌%◌, ◌^◌, ◌≤◌, ◌<◌, ◌≡◌, refl, ap, ◌∙◌, inl, inr,
  some, List, [], ◌∷◌, arith,
}
use ref_arm_os.Print.{fill_buf, print_uint}
use ref_arm_os.Print.Divide.{simple_udivmod-Exact}
use ref_arm_os.Print.Digits.{Reads, digit_char, digit_value, value, numeral, numeral-Reads}

fill_buf-numeral :
    (room base num : ℕ) (buf : List ℕ)
    → num < 2 ^ 32
    → 0 < base
    → fill_buf room base num buf ≡ numeral room base num buf
unfolding fill_buf numeral
fill_buf-numeral zero base num buf h p = refl
fill_buf-numeral (suc room) base num buf h p =
    let exact : _ = simple_udivmod-Exact num base h p in
    rw
      (
        exact.0,
        exact.1,
        fill_buf-numeral room base (num / base) (digit_char (num % base) ∷ buf)
            (omega (arith, div-le_self num base)) p,
      )
      refl

-- what `print_uint` prints: between one and `k` digits, which read back as the number
pub print_uint-Reads :
    (k num base : ℕ)
    → 0 < k
    → k ≤ 32
    → 2 ≤ base
    → base ≤ 16
    → num < 2 ^ 32
    → num < base ^ k
    → (digits : List ℕ) × (print_uint num base ≡ some digits)
      × (value base 0 digits ≡ num)
      × (0 < length digits)
      × (length digits ≤ k)
unfolding print_uint value digit_value
print_uint-Reads k num base p room l u w h = elim (Bool-cases (num == 0)) [
  | inl z ↦ rw (z) (48 ∷ [], refl, ground arith, omega arith, omega arith)
  | inr z ↦
      let v : Reads base num k [] (numeral 32 base num []) =
        numeral-Reads k 32 base num [] room l u h in
      rw (z) (
        v.digits,
        fill_buf-numeral 32 base num [] w (omega arith) ∙ v.made ∙ ap some (append-nil v.digits),
        v.reads,
        v.first (ground arith),
        v.short,
      )
]

pub word-pow : (num base : ℕ) → num < 2 ^ 32 → 2 ≤ base → num < base ^ 32
word-pow num base h l = omega (arith, pow-le-pow_left l 32)

-- For every word `num` and every base from 2 to 16, `print_uint` stays inside its buffer and the
-- digits that it prints, read in that base, are `num`.
pub print_uint-RoundTrip :
    (num base : ℕ)
    → num < 2 ^ 32
    → 2 ≤ base
    → base ≤ 16
    → map_option (value base 0) (print_uint num base) ≡ some num
print_uint-RoundTrip num base h l u =
    let (ds, e, v, _, _) =
      print_uint-Reads 32 num base (omega arith) (omega arith) l u h (word-pow num base h l) in
    rw (e) (ap some v)

-- For every word, the digits of base 10 are at least one and at most ten, and those of base 16 at
-- most eight: the 32 bytes of the buffer are enough, and the loop ends.
pub print_uint-Bounds :
    (num : ℕ)
    → num < 2 ^ 32
    → ((ds : List ℕ) × (print_uint num 10 ≡ some ds) × (0 < length ds) × (length ds ≤ 10))
      × ((ds : List ℕ) × (print_uint num 16 ≡ some ds) × (0 < length ds) × (length ds ≤ 8))
print_uint-Bounds num h =
    let (ds, e, _, p, l) =
      print_uint-Reads 10 num 10 (omega arith) (omega arith) (omega arith) (omega arith) h
        (omega arith) in
    let (hs, f, _, q, m) =
      print_uint-Reads 8 num 16 (omega arith) (omega arith) (omega arith) (omega arith) h
        (omega arith) in
    ((ds, e, p, l), (hs, f, q, m))
