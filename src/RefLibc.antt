-- ===== src/RefLibc.antt =====
-- CrossCompiler/toolchain/runtime/reflibc.c, the library that compiled programs are linked with: the
-- bytes that each function hands to `write`, call by call. `write` itself is made by the compiler, and
-- its result is a parameter where a function returns it.
pub mod Printed
use ref_arm_os.Base.{
  ◌==◌, if◌then◌else◌, take, ℤ, pos, negsuc, ℕ, zero, suc, ◌+◌, ◌/◌, ◌%◌, ◌^◌, Option, none, some,
  List, [], ◌∷◌,
}
use ref_arm_os.Print.Digits.{digit_char}

-- A string is its bytes; it ends before the first NUL, or where the list does.
unfoldable strlen : List ℕ → ℕ
strlen [] = 0
strlen (c ∷ s) = let rest = strlen s in if c == 0 then 0 else suc rest

-- `putchar`, `puts` and `print_str`: the buffers, and what is returned when `write` answers `r` to the
-- first of them
unfoldable putchar : (c : ℕ) (r : ℤ) → List (List ℕ) × ℤ
putchar c r = ((c % 256 ∷ []) ∷ [], r)

unfoldable puts : (str : List ℕ) (r : ℤ) → List (List ℕ) × ℤ
puts str r = (take (strlen str) str ∷ (10 ∷ []) ∷ [], r)

unfoldable print_str : List ℕ → List (List ℕ)
print_str str = take (strlen str) str ∷ []

-- The loop of `print_int` that fills `tmp`, and then `buf` after `front`: `none` is a store past the end.
unfoldable pub dec_tmp : (room num : ℕ) → List ℕ → Option (List ℕ)
dec_tmp zero num tmp = if num == 0 then some tmp else none
dec_tmp (suc room) num tmp =
    let rest = dec_tmp room (num / 10) ((48 + num % 10) ∷ tmp) in
    if num == 0 then some tmp else rest

abbrev pub after_sign : Option (List ℕ) → Option (List ℕ)
after_sign none = none
after_sign (some ds) = some (45 ∷ ds)

-- `print_int` of an `int`; the negation of the least `int` is undefined, as is a store past the end.
unfoldable pub print_int : ℤ → Option (List ℕ)
print_int (pos n) = if n == 0 then some (48 ∷ []) else dec_tmp 16 n []
print_int (negsuc n) = if n + 1 == 2 ^ 31 then none else after_sign (dec_tmp 16 (n + 1) [])

unfoldable pub hex_tmp : (room num : ℕ) → List ℕ → Option (List ℕ)
hex_tmp zero num tmp = if num == 0 then some tmp else none
hex_tmp (suc room) num tmp =
    let rest = hex_tmp room (num / 16) (digit_char (num % 16) ∷ tmp) in
    if num == 0 then some tmp else rest

-- `print_hex`: the loop is not entered for a negative value.
unfoldable pub print_hex : ℤ → Option (List ℕ)
print_hex (pos n) = if n == 0 then some (48 ∷ []) else hex_tmp 16 n []
print_hex (negsuc n) = some []
