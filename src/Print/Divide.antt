-- ===== src/Print/Divide.antt =====
-- The division by shifts and subtractions of VinixOS/kernel/src/drivers/uart.c (`simple_udivmod`),
-- with what its loop keeps: above bit j, the quotient and the remainder are those of n / 2 ^ j.
use Prim.Native.Nat.{bit_and, bit_or}
use native.Mathlib.Nat.{
  div-div-eq-div-mul, div-le_self, one-le-pow, mul-add-div_right, mul-add-mod_self_right,
  div-eq_of_lt, mod-eq_of_lt,
}
use ref_arm_os.Base.{
  leb, ◌==◌, if◌then◌else◌, Bool-cases, mul_pow_suc, bit_or_add, bit_and_one, ℕ, zero, suc, ◌+◌,
  ◌-◌, ◌*◌, ◌/◌, ◌%◌, ◌^◌, ◌≤◌, ◌<◌, ◌≡◌, refl, sym, ap, ◌∙◌, inl, inr, false, arith,
}

pub record Division : Type 0 where
  pub quotient : ℕ
  pub remainder : ℕ

-- one turn of the loop, for bit `i` of `n`
unfoldable divide_bit : (n d i : ℕ) → Division → Division
divide_bit n d i s =
    let r : ℕ = bit_or (s.remainder * 2 % 2 ^ 32) (bit_and (n / 2 ^ i) 1) in
    if leb d r
    then record { quotient = bit_or s.quotient (2 ^ i); remainder = r - d }
    else record { quotient = s.quotient; remainder = r }

-- the turns for the bits below `j`, the highest first
unfoldable divide_bits : (j n d : ℕ) → Division → Division
divide_bits zero n d s = s
divide_bits (suc i) n d s = divide_bits i n d (divide_bit n d i s)

unfoldable pub simple_udivmod : (n d : ℕ) → Division
unfolding divide_bits divide_bit
simple_udivmod n d =
    if d == 0
    then record { quotient = 0; remainder = 0 }
    else divide_bits 32 n d (record { quotient = 0; remainder = 0 })

-- `s` is the division of the bits of `n` from bit j up, its quotient shifted up to bit j.
record Divided (n d j : ℕ) (s : Division) : Type 0 where
  part : ℕ
  shifted : s.quotient ≡ part * 2 ^ j
  divides : n / 2 ^ j ≡ part * d + s.remainder
  smaller : s.remainder < d

shift_in : (n r : ℕ) → r < 2 ^ 31 → bit_or (r * 2 % 2 ^ 32) (bit_and n 1) ≡ r * 2 + n % 2
shift_in n r h =
    let fits : r * 2 % 2 ^ 32 ≡ r * 2 ^ 1 = omega arith in
    rw (bit_and_one n, fits, bit_or_add 1 r (n % 2) (omega arith)) (omega arith)

halve : (n i : ℕ) → n / 2 ^ suc i ≡ n / 2 ^ i / 2
halve n i =
    let twice : 2 ^ suc i ≡ 2 ^ i * 2 = omega arith in
    ap (λ k. n / k) twice ∙ sym (div-div-eq-div-mul n (2 ^ i) 2)

-- the step of the invariant, on numbers: `a` is n / 2 ^ i, `p` the quotient so far
keeps_subtracted :
    (a p d r : ℕ)
    → a / 2 ≡ p * d + r
    → d ≤ r * 2 + a % 2
    → a ≡ (p * 2 + 1) * d + (r * 2 + a % 2 - d)
keeps_subtracted a p d r e h = omega arith

keeps_shifted : (a p d r : ℕ) → a / 2 ≡ p * d + r → a ≡ p * 2 * d + (r * 2 + a % 2)
keeps_shifted a p d r e = omega arith

add_bit : (i p q : ℕ) → q ≡ p * 2 ^ suc i → bit_or q (2 ^ i) ≡ (p * 2 + 1) * 2 ^ i
add_bit i p q e =
    let below : 2 ^ i < 2 ^ suc i = omega (arith, one-le-pow i 2 (omega arith)) in
    ap (λ k. bit_or k (2 ^ i)) e
    ∙ bit_or_add (suc i) p (2 ^ i) below
    ∙ omega (arith, mul_pow_suc p i)

divide_bit-Divided :
    (n d i : ℕ) (s : Division)
    → n < 2 ^ 32
    → Divided n d (suc i) s
    → Divided n d i (divide_bit n d i s)
unfolding divide_bit
divide_bit-Divided n d i s h v =
    let half : n / 2 ^ i / 2 ≡ v.part * d + s.remainder = sym (halve n i) ∙ v.divides in
    let r_eq : bit_or (s.remainder * 2 % 2 ^ 32) (bit_and (n / 2 ^ i) 1)
        ≡ s.remainder * 2 + n / 2 ^ i % 2 =
      shift_in (n / 2 ^ i) s.remainder (omega (arith, div-le_self n (2 ^ i))) in
    elim (Bool-cases (leb d (s.remainder * 2 + n / 2 ^ i % 2))) [
      | inl e ↦
          rw (r_eq, e)
            (record {
              part = v.part * 2 + 1;
              shifted = add_bit i v.part s.quotient v.shifted;
              divides = keeps_subtracted (n / 2 ^ i) v.part d s.remainder half (ground arith);
              smaller = ground (arith, v.smaller);
            })
      | inr e ↦
          rw (r_eq, e)
            (record {
              part = v.part * 2;
              shifted = v.shifted ∙ mul_pow_suc v.part i ∙ omega arith;
              divides = keeps_shifted (n / 2 ^ i) v.part d s.remainder half;
              smaller = ground arith;
            })
    ]

divide_bits-Divided :
    (j n d : ℕ) (s : Division) → n < 2 ^ 32 → Divided n d j s → Divided n d 0 (divide_bits j n d s)
unfolding divide_bits
divide_bits-Divided zero n d s h v = v
divide_bits-Divided (suc i) n d s h v =
    divide_bits-Divided i n d (divide_bit n d i s) h (divide_bit-Divided n d i s h v)

zeros-Divided :
    (n d : ℕ) → n < 2 ^ 32 → 0 < d → Divided n d 32 (record { quotient = 0; remainder = 0 })
zeros-Divided n d h p = record { part = 0; shifted = refl; divides = omega arith; smaller = p }

divided-quotient : (n d p q r : ℕ) → q ≡ p * 2 ^ 0 → n / 2 ^ 0 ≡ p * d + r → r < d → q ≡ n / d
divided-quotient n d p q r e v h =
    let split : n ≡ p * d + r = omega arith in
    omega (arith, ap (λ k. k / d) split ∙ mul-add-div_right (omega arith) p r, div-eq_of_lt h)

divided-remainder : (n d p r : ℕ) → n / 2 ^ 0 ≡ p * d + r → r < d → r ≡ n % d
divided-remainder n d p r v h =
    let split : n ≡ p * d + r = omega arith in
    omega (arith, ap (λ k. k % d) split ∙ mul-add-mod_self_right p d r, mod-eq_of_lt h)

-- For every two words `n` and `d` other than d = 0, the shift-and-subtract division leaves the
-- quotient and the remainder of `n` by `d`, also where `d` has its top bit set.
pub simple_udivmod-Exact :
    (n d : ℕ)
    → n < 2 ^ 32
    → 0 < d
    → ((simple_udivmod n d).quotient ≡ n / d) × ((simple_udivmod n d).remainder ≡ n % d)
unfolding simple_udivmod
simple_udivmod-Exact n d h p =
    let positive : (d == 0) ≡ false = ground arith in
    let v : Divided n d 0 (divide_bits 32 n d (record { quotient = 0; remainder = 0 })) =
      divide_bits-Divided 32 n d _ h (zeros-Divided n d h p) in
    rw (positive) (
      divided-quotient n d v.part _ _ v.shifted v.divides v.smaller,
      divided-remainder n d v.part _ v.divides v.smaller,
    )
