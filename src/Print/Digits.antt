-- ===== src/Print/Digits.antt =====
-- Numbers in a base of at most 16: the digits that the printing loops of the kernel and of the shell
-- collect from the last to the first, and how a reader takes them.
use native.Mathlib.Nat.{div-lt_iff_lt-mul, pow-suc, pow-zero, mod-lt, div-add-mod'}
use mathlib.Core.Path.{subst}
use mathlib.Core.List.{append_assoc}
use ref_arm_os.Base.{
  leb, ◌==◌, if◌then◌else◌, Bool-cases, length, length-append, get_or, ℕ, zero, suc, ◌+◌, ◌-◌, ◌*◌,
  ◌/◌, ◌%◌, ◌^◌, ◌≤◌, ◌<◌, ◌≡◌, refl, sym, ap, ◌∙◌, inl, inr, Bool, true, ◌&&◌, Option, none, some,
  List, [], ◌∷◌, ◌++◌, arith,
}

-- "0123456789abcdef"
abbrev pub digit_chars : List ℕ
digit_chars = 48 ∷ 49 ∷ 50 ∷ 51 ∷ 52 ∷ 53 ∷ 54 ∷ 55 ∷ 56 ∷ 57 ∷ 97 ∷ 98 ∷ 99 ∷ 100 ∷ 101 ∷ 102 ∷ []

unfoldable pub digit_char : ℕ → ℕ
digit_char r = get_or digit_chars r 0

-- The reader: what a digit stands for, and what a text of digits adds to those before it.
unfoldable pub digit_value : ℕ → ℕ
digit_value c = if leb c 57 then c - 48 else c - 87

unfoldable pub value : (base acc : ℕ) → List ℕ → ℕ
value base acc [] = acc
value base acc (c ∷ cs) = value base (acc * base + digit_value c) cs

-- The digits of `num` before those in `tmp`, at most `room` of them.
unfoldable pub numeral : (room base num : ℕ) → List ℕ → Option (List ℕ)
numeral zero base num tmp = if num == 0 then some tmp else none
numeral (suc room) base num tmp =
    let rest = numeral room base (num / base) (digit_char (num % base) ∷ tmp) in
    if num == 0 then some tmp else rest

unfoldable pub all_below : (ℕ → Bool) → ℕ → Bool
all_below p zero = true
all_below p (suc n) = p n && all_below p n

pub each_below : (p : ℕ → Bool) (n : ℕ) → all_below p n ≡ true → (i : ℕ) → i < n → p i ≡ true
unfolding all_below
each_below p zero e i h = absurd (omega arith)
each_below p (suc n) e i h = ground (arith, each_below p n (ground arith) i)

digit_value-digit_char : (r : ℕ) → r < 16 → digit_value (digit_char r) ≡ r
unfolding digit_value digit_char all_below
digit_value-digit_char r h =
    let tested : (digit_value (digit_char r) == r) ≡ true =
      each_below (λ k. digit_value (digit_char k) == k) 16 refl r h in
    ground arith

value-append :
    (base acc : ℕ) (ds : List ℕ) (c : ℕ)
    → value base acc (ds ++ c ∷ []) ≡ value base acc ds * base + digit_value c
unfolding value
value-append base acc [] c = refl
value-append base acc (d ∷ ds) c = value-append base (acc * base + digit_value d) ds c

-- `tmp` with digits before it that read back as `num`, at most `k` of them
pub record Reads (base num k : ℕ) (tmp : List ℕ) (out : Option (List ℕ)) : Type 0 where
  pub digits : List ℕ
  pub made : out ≡ some (digits ++ tmp)
  pub reads : value base 0 digits ≡ num
  pub short : length digits ≤ k
  pub first : 0 < num → 0 < length digits

none_left : (base num k : ℕ) (tmp : List ℕ) → num ≡ 0 → Reads base num k tmp (some tmp)
unfolding value
none_left base num k tmp e = record {
  digits = [];
  made = refl;
  reads = sym e;
  short = omega arith;
  first = λ p. omega arith;
}

below : (base num k : ℕ) → num < base ^ suc k → 2 ≤ base → num / base < base ^ k
below base num k h l = (div-lt_iff_lt-mul (omega arith)).1 (subst (λ n. num < n) (pow-suc base k) h)

one_more :
    (base num k : ℕ) (tmp : List ℕ) (out : Option (List ℕ))
    → 2 ≤ base
    → base ≤ 16
    → Reads base (num / base) k (digit_char (num % base) ∷ tmp) out
    → Reads base num (suc k) tmp out
one_more base num k tmp out l u v =
    let c : ℕ = digit_char (num % base) in
    let small : num % base < 16 = omega (arith, mod-lt num {m = base} (omega arith)) in
    record {
      digits = v.digits ++ c ∷ [];
      made = v.made ∙ ap some (sym (append_assoc v.digits (c ∷ []) tmp));
      reads =
          rw (value-append base 0 v.digits c, v.reads, digit_value-digit_char (num % base) small)
            (div-add-mod' num base);
      short = omega (arith, length-append v.digits (c ∷ []), v.short);
      first = λ p. omega (arith, length-append v.digits (c ∷ []));
    }

pub numeral-Reads :
    (k room base num : ℕ) (tmp : List ℕ)
    → k ≤ room
    → 2 ≤ base
    → base ≤ 16
    → num < base ^ k
    → Reads base num k tmp (numeral room base num tmp)
unfolding numeral
numeral-Reads zero zero base num tmp e l u h =
    let z : num ≡ 0 = omega (arith, pow-zero base) in
    subst (λ n. Reads base num 0 tmp (if n == 0 then some tmp else none)) (sym z)
      (none_left base num 0 tmp z)
numeral-Reads zero (suc room) base num tmp e l u h =
    let z : num ≡ 0 = omega (arith, pow-zero base) in
    let test : (num == 0) ≡ true = ground arith in rw (test) (none_left base num 0 tmp z)
numeral-Reads (suc k) zero base num tmp e l u h = absurd (omega arith)
numeral-Reads (suc k) (suc room) base num tmp e l u h = elim (Bool-cases (num == 0)) [
  | inl z ↦ rw (z) (none_left base num (suc k) tmp (ground arith))
  | inr z ↦ rw (z) (
      one_more base num k tmp _ l u
        (numeral-Reads k room base (num / base) _ (omega arith) l u (below base num k h l)))
]
