-- ===== src/Base/Bits.antt =====
-- The bitwise operators `|` and `&` of the source, read as arithmetic where their operands allow it.
use Prim.Native.Nat.{
  ℕ, zero, suc, ◌+◌, ◌*◌, ◌/◌, ◌%◌, ◌^◌, ◌<◌, ◌≤◌, min, max, bit_and, bit_or, bit_and-bitwise,
  bit_or-bitwise, digits,
}
use mathlib.Core.Path.{sym, ◌≡◌, refl, ap, ◌∙◌}
use native.Mathlib.Omega.{arith}

or_zero : (n a : ℕ) → a ≤ n → digits (λ y. y) max n a 0 ≡ a
or_zero zero a h = omega arith
or_zero (suc n) zero h = refl
or_zero (suc n) (suc a) h = omega (arith, or_zero n (suc a / 2))

pub mul_pow_suc : (q k : ℕ) → q * 2 ^ suc k ≡ 2 * (q * 2 ^ k)
mul_pow_suc q k =
    let twice : 2 ^ suc k ≡ 2 * 2 ^ k = omega arith in ap (λ p. q * p) twice ∙ omega arith

no_more : (b : ℕ) → b ≡ 0 + b
no_more b = omega arith

or_digits : (k n a b q : ℕ) → a ≤ n → a ≡ q * 2 ^ k → b < 2 ^ k → digits (λ y. y) max n a b ≡ a + b
or_digits zero n a b q h e l =
    let none_left : b ≡ 0 = omega arith in
    ap (digits (λ y. y) max n a) none_left ∙ or_zero n a h ∙ omega arith
or_digits (suc k) zero zero b q h e l = no_more b
or_digits (suc k) (suc n) zero b q h e l = no_more b
or_digits (suc k) zero (suc a) b q h e l = omega arith
or_digits (suc k) (suc n) (suc a) b q h e l =
    let twice : suc a ≡ 2 * (q * 2 ^ k) = e ∙ mul_pow_suc q k in
    let half : suc a / 2 ≡ q * 2 ^ k = omega arith in
    let rest : digits (λ y. y) max n (suc a / 2) (b / 2) ≡ suc a / 2 + b / 2 =
      or_digits k n (suc a / 2) (b / 2) q (omega arith) half (omega arith) in
    ground arith

pub bit_or_add : (k q b : ℕ) → b < 2 ^ k → bit_or (q * 2 ^ k) b ≡ q * 2 ^ k + b
bit_or_add k q b l =
    bit_or-bitwise (q * 2 ^ k) b ∙ or_digits k (q * 2 ^ k) (q * 2 ^ k) b q (omega arith) refl l

and_zero : (n a : ℕ) → digits (λ y. 0) min n a 0 ≡ 0
and_zero zero a = refl
and_zero (suc n) zero = refl
and_zero (suc n) (suc a) = omega (arith, and_zero n (suc a / 2))

and_one : (a : ℕ) → digits (λ y. 0) min a a 1 ≡ a % 2
and_one zero = refl
and_one (suc a) = omega (arith, and_zero a (suc a / 2))

pub bit_and_one : (a : ℕ) → bit_and a 1 ≡ a % 2
bit_and_one a = bit_and-bitwise a 1 ∙ and_one a

-- `w` ones, and `w` ones before `k` zeros
abbrev pub ones : ℕ → ℕ
ones zero = 0
ones (suc w) = 2 * ones w + 1

abbrev pub mask : (k w : ℕ) → ℕ
mask zero w = ones w
mask (suc k) w = 2 * mask k w

and_ones : (w n a : ℕ) → a ≤ n → a < 2 ^ w → digits (λ y. 0) min n a (ones w) ≡ a
and_ones w zero a h l = omega arith
and_ones w (suc n) zero h l = refl
and_ones zero (suc n) (suc a) h l = absurd (omega arith)
and_ones (suc w) (suc n) (suc a) h l =
    let half : (2 * ones w + 1) / 2 ≡ ones w = omega arith in
    let rest : digits (λ y. 0) min n (suc a / 2) ((2 * ones w + 1) / 2) ≡ suc a / 2 =
      ap (digits (λ y. 0) min n (suc a / 2)) half
      ∙ and_ones w n (suc a / 2) (omega arith) (omega arith) in
    ground (arith, rest)

and_high :
    (k w n a q r : ℕ)
    → a ≤ n
    → a ≡ q * 2 ^ k + r
    → r < 2 ^ k
    → q < 2 ^ w
    → digits (λ y. 0) min n a (mask k w) ≡ q * 2 ^ k
and_high zero w n a q r h e l b =
    let same : a ≡ q = omega arith in and_ones w n a h (omega arith) ∙ omega arith
and_high (suc k) w zero a q r h e l b = omega arith
and_high (suc k) w (suc n) zero q r h e l b = omega arith
and_high (suc k) w (suc n) (suc a) q r h e l b =
    let twice : q * 2 ^ suc k ≡ 2 * (q * 2 ^ k) = mul_pow_suc q k in
    let half : 2 * mask k w / 2 ≡ mask k w = omega arith in
    let rest : digits (λ y. 0) min n (suc a / 2) (2 * mask k w / 2) ≡ q * 2 ^ k =
      ap (digits (λ y. 0) min n (suc a / 2)) half
      ∙ and_high k w n (suc a / 2) q (r / 2) (omega arith) (omega arith) (omega arith) b in
    ground (arith, rest)

-- `a & mask` keeps the digits from digit `k` on.
pub bit_and-mask :
    (k w q r : ℕ) → r < 2 ^ k → q < 2 ^ w → bit_and (q * 2 ^ k + r) (mask k w) ≡ q * 2 ^ k
bit_and-mask k w q r l b =
    bit_and-bitwise (q * 2 ^ k + r) (mask k w)
    ∙ and_high k w (q * 2 ^ k + r) (q * 2 ^ k + r) q r (omega arith) refl l b

and_low :
    (w n a q r : ℕ) → a ≤ n → a ≡ q * 2 ^ w + r → r < 2 ^ w → digits (λ y. 0) min n a (ones w) ≡ r
and_low zero n a q r h e l = and_zero n a ∙ omega arith
and_low (suc w) zero a q r h e l = omega arith
and_low (suc w) (suc n) zero q r h e l = omega arith
and_low (suc w) (suc n) (suc a) q r h e l =
    let twice : q * 2 ^ suc w ≡ 2 * (q * 2 ^ w) = mul_pow_suc q w in
    let half : (2 * ones w + 1) / 2 ≡ ones w = omega arith in
    let rest : digits (λ y. 0) min n (suc a / 2) ((2 * ones w + 1) / 2) ≡ r / 2 =
      ap (digits (λ y. 0) min n (suc a / 2)) half
      ∙ and_low w n (suc a / 2) q (r / 2) (omega arith) (omega arith) (omega arith) in
    ground (arith, rest)

-- `a & 0xF`
pub bit_and_nibble : (a : ℕ) → bit_and a 0xF ≡ a % 16
bit_and_nibble a =
    bit_and-bitwise a 0xF
    ∙ and_low 4 a a (a / 16) (a % 16) (omega arith) (omega arith) (omega arith)

-- `a & 0x7F` has no bit 7.
pub bit_and_seven : (a : ℕ) → bit_and (bit_and a 0x7F) 0x80 ≡ 0
bit_and_seven a =
    let low : bit_and a 0x7F ≡ a % 128 =
      bit_and-bitwise a 0x7F
      ∙ and_low 7 a a (a / 128) (a % 128) (omega arith) (omega arith) (omega arith) in
    let none_above : 0 * 2 ^ 7 + a % 128 ≡ a % 128 = omega arith in
    ap (λ x. bit_and x 0x80) (low ∙ sym none_above)
    ∙ bit_and-mask 7 1 0 (a % 128) (omega arith) (omega arith)

-- `a & 0x1F`
pub bit_and_five : (a : ℕ) → bit_and a 0x1F ≡ a % 32
bit_and_five a =
    bit_and-bitwise a 0x1F
    ∙ and_low 5 a a (a / 32) (a % 32) (omega arith) (omega arith) (omega arith)
