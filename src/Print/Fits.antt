-- ===== src/Print/Fits.antt =====
-- A check of a format of `uart_printf` of VinixOS/kernel/src/drivers/uart.c against its arguments, and
-- what it is worth.
use mathlib.Core.Path.{subst}
use ref_arm_os.Base.{
  ◌==◌, if◌then◌else◌, Bool-cases, ◌>>=◌, ℕ, ◌%◌, ◌^◌, ◌<◌, ◌≡◌, refl, ap, inl, inr, Bool, true,
  false, ◌||◌, Option, none, some, List, [], ◌∷◌, ◌++◌,
}
use ref_arm_os.Print.{
  Arg, Place, word, text, in_text, after_percent, in_width, uart_puts, next_word, next_text,
  or_null, convert, is_digit, then_plain, put_format, walk_format,
}
use ref_arm_os.Print.Kernel.{print_uint-Bounds}

abbrev drop_word : List Arg → Option (List Arg)
drop_word [] = none
drop_word (word w ∷ args) = some args
drop_word (text s ∷ args) = none

abbrev drop_text : List Arg → Option (List Arg)
drop_text [] = none
drop_text (word w ∷ args) = none
drop_text (text s ∷ args) = some args

-- the arguments that a conversion leaves
abbrev converted : ℕ → List Arg → Option (List Arg)
converted c args =
    if c == 100 || c == 117
    then drop_word args
    else if c == 120 || c == 88
    then drop_word args
    else if c == 115
    then drop_text args
    else if c == 99
    then drop_word args
    else some args

abbrev back_in_text : Option (List Arg) → Option (List Arg × Place)
back_in_text none = none
back_in_text (some args) = some (args, in_text)

abbrev walked : Place → ℕ → List Arg → Option (List Arg × Place)
walked in_text c args = some (args, (if c == 37 then after_percent else in_text))
walked after_percent c args =
    if c == 48 then some (args, in_width) else back_in_text (converted c args)
walked in_width c args =
    if is_digit c then some (args, in_width) else back_in_text (converted c args)

-- Each conversion finds an argument of its kind, and the format does not end inside one.
abbrev pub fits : Place → List ℕ → List Arg → Bool
fits in_text [] args = true
fits after_percent [] args = false
fits in_width [] args = false
fits place (c ∷ fmt) args = elim (walked place c args) [
  | none ↦ false
  | some (rest, next) ↦ fits next fmt rest
]

-- The numbers among the arguments are words.
abbrev pub AreWords : List Arg → Type 0
AreWords [] = Unit
AreWords (word w ∷ args) = (w < 2 ^ 32) × AreWords args
AreWords (text s ∷ args) = AreWords args

drop_word_lem :
    (args rest : List Arg)
    → AreWords args
    → drop_word args ≡ some rest
    → (w : ℕ) × (next_word args ≡ some (w, rest)) × (w < 2 ^ 32) × AreWords rest
unfolding next_word
drop_word_lem [] rest h e = absurd (cc e)
drop_word_lem (word w ∷ args) rest h e =
    let same : args ≡ rest = cc in (w, ap (λ r. some (w, r)) same, h.0, subst AreWords same h.1)
drop_word_lem (text s ∷ args) rest h e = absurd (cc e)

drop_text_lem :
    (args rest : List Arg)
    → AreWords args
    → drop_text args ≡ some rest
    → (s : Option (List ℕ)) × (next_text args ≡ some (s, rest)) × AreWords rest
unfolding next_text
drop_text_lem [] rest h e = absurd (cc e)
drop_text_lem (word w ∷ args) rest h e = absurd (cc e)
drop_text_lem (text s ∷ args) rest h e =
    let same : args ≡ rest = cc in (s, ap (λ r. some (s, r)) same, subst AreWords same h)

convert_lem :
    (c : ℕ) (args rest : List Arg)
    → AreWords args
    → converted c args ≡ some rest
    → AreWords rest × ((out : List ℕ) × (convert c args ≡ some (out, rest)))
unfolding convert
convert_lem c args rest h e = elim (Bool-cases (c == 100 || c == 117)) [
  | inl t ↦
      let taken : drop_word args ≡ some rest = rw t at e in
      let (w, n, b, rs) = drop_word_lem args rest h taken in
      let (ds, p, _, _) = (print_uint-Bounds w b).0 in (rs, (ds, rw (t, n, p) refl))
  | inr f ↦ elim (Bool-cases (c == 120 || c == 88)) [
    | inl t ↦
        let taken : drop_word args ≡ some rest = rw (f, t) at e in
        let (w, n, b, rs) = drop_word_lem args rest h taken in
        let (ds, p, _, _) = (print_uint-Bounds w b).1 in (rs, (ds, rw (f, t, n, p) refl))
    | inr g ↦ elim (Bool-cases (c == 115)) [
      | inl t ↦
          let taken : drop_text args ≡ some rest = rw (f, g, t) at e in
          let (s, n, rs) = drop_text_lem args rest h taken in
          (rs, (uart_puts (or_null s), rw (f, g, t, n) refl))
      | inr k ↦ elim (Bool-cases (c == 99)) [
        | inl t ↦
            let taken : drop_word args ≡ some rest = rw (f, g, k, t) at e in
            let (w, n, _, rs) = drop_word_lem args rest h taken in
            (rs, (w % 256 ∷ [], rw (f, g, k, t, n) refl))
        | inr l ↦
            let kept : ◌≡◌ {A = Option (List Arg)} (some args) (some rest) = rw (f, g, k, l) at e in
            let same : args ≡ rest = cc in
            (
              subst AreWords same h,
              elim (Bool-cases (c == 37)) [
                | inl t ↦ (37 ∷ [], rw (f, g, k, l, t, same) refl)
                | inr o ↦ (37 ∷ c ∷ [], rw (f, g, k, l, o, same) refl)
              ],
            )
      ]
    ]
  ]
]

then_plain_lem :
    (c : ℕ) (args rest : List Arg) (next : Place)
    → AreWords args
    → back_in_text (converted c args) ≡ some (rest, next)
    → AreWords rest × ((out : List ℕ) × (then_plain (convert c args) ≡ some (out, rest, next)))
then_plain_lem c args rest next h e = go (converted c args) refl e
  where
    go :
        (left : Option (List Arg))
        → converted c args ≡ left
        → back_in_text left ≡ some (rest, next)
        → AreWords rest × ((out : List ℕ) × (then_plain (convert c args) ≡ some (out, rest, next)))
    go none q e = absurd (cc e)
    go (some left) q e =
        let same : left ≡ rest = cc in
        let plain : in_text ≡ next = cc in
        let (rs, (out, r)) = convert_lem c args left h q in
        (subst AreWords same rs, (out, rw (r, same, plain) refl))

put_format_lem :
    (p : Place) (c : ℕ) (args rest : List Arg) (next : Place)
    → AreWords args
    → walked p c args ≡ some (rest, next)
    → AreWords rest × ((out : List ℕ) × (put_format p c args ≡ some (out, rest, next)))
unfolding put_format
put_format_lem in_text c args rest next h e =
    let same : args ≡ rest = cc in
    let place : ◌≡◌ {A = Place} (if c == 37 then after_percent else in_text) next = cc in
    elim (Bool-cases (c == 37)) [
      | inl t ↦
          let place : after_percent ≡ next = rw t at place in
          (subst AreWords same h, ([], rw (t, same, place) refl))
      | inr f ↦
          let place : in_text ≡ next = rw f at place in
          (
            subst AreWords same h,
            ((if c == 10 then 13 ∷ c ∷ [] else c ∷ []), rw (f, same, place) refl),
          )
    ]
put_format_lem after_percent c args rest next h e = elim (Bool-cases (c == 48)) [
  | inl t ↦
      let q : ◌≡◌ {A = Option (List Arg × Place)} (some (args, in_width)) (some (rest, next)) =
        rw t at e in
      let same : args ≡ rest = cc in
      let place : in_width ≡ next = cc in (subst AreWords same h, ([], rw (t, same, place) refl))
  | inr f ↦
      let q : back_in_text (converted c args) ≡ some (rest, next) = rw f at e in
      let (rs, (out, r)) = then_plain_lem c args rest next h q in (rs, (out, rw (f, r) refl))
]
put_format_lem in_width c args rest next h e = elim (Bool-cases (is_digit c)) [
  | inl t ↦
      let q : ◌≡◌ {A = Option (List Arg × Place)} (some (args, in_width)) (some (rest, next)) =
        rw t at e in
      let same : args ≡ rest = cc in
      let place : in_width ≡ next = cc in (subst AreWords same h, ([], rw (t, same, place) refl))
  | inr f ↦
      let q : back_in_text (converted c args) ≡ some (rest, next) = rw f at e in
      let (rs, (out, r)) = then_plain_lem c args rest next h q in (rs, (out, rw (f, r) refl))
]

abbrev go_on : List ℕ → Option (List Arg × Place) → Bool
go_on fmt none = false
go_on fmt (some (rest, next)) = fits next fmt rest

go_on_lem :
    (fmt : List ℕ) (step : Option (List Arg × Place))
    → go_on fmt step ≡ true
    → (rest : List Arg) × (next : Place) × (step ≡ some (rest, next)) × (fits next fmt rest ≡ true)
go_on_lem fmt none e = absurd (cc e)
go_on_lem fmt (some (rest, next)) e = (rest, next, refl, e)

walk_step :
    (p : Place) (c : ℕ) (fmt : List ℕ) (args : List Arg)
    → AreWords args
    → go_on fmt (walked p c args) ≡ true
    → ((rest : List Arg) (next : Place)
        → AreWords rest
        → fits next fmt rest ≡ true
        → (more : List ℕ) × (walk_format next fmt rest ≡ some more))
    → (printed : List ℕ) × ((do
      (out, rest, next) ← put_format p c args
      more ← walk_format next fmt rest
      some (out ++ more))
        ≡ some printed)
walk_step p c fmt args h e walk =
    let (rest, next, q, f) = go_on_lem fmt (walked p c args) e in
    let (rs, (out, r)) = put_format_lem p c args rest next h q in
    let (more, s) = walk rest next rs f in (out ++ more, rw (r, s) refl)

-- A format that fits its arguments is printed: no conversion lacks an argument, no number outgrows
-- the digits' buffer, and the walk ends at the NUL.
pub walk_format-fits :
    (p : Place) (fmt : List ℕ) (args : List Arg)
    → AreWords args
    → fits p fmt args ≡ true
    → (out : List ℕ) × (walk_format p fmt args ≡ some out)
unfolding walk_format
walk_format-fits in_text [] args h e = ([], refl)
walk_format-fits after_percent [] args h e = absurd (cc e)
walk_format-fits in_width [] args h e = absurd (cc e)
walk_format-fits in_text (c ∷ fmt) args h e =
    walk_step in_text c fmt args h e (λ rest next. walk_format-fits next fmt rest)
walk_format-fits after_percent (c ∷ fmt) args h e =
    walk_step after_percent c fmt args h e (λ rest next. walk_format-fits next fmt rest)
walk_format-fits in_width (c ∷ fmt) args h e =
    walk_step in_width c fmt args h e (λ rest next. walk_format-fits next fmt rest)

abbrev pub numbers : List Arg → List ℕ
numbers [] = []
numbers (word w ∷ args) = w ∷ numbers args
numbers (text s ∷ args) = numbers args

-- each is a 32-bit word
abbrev pub AllWords : List ℕ → Type 0
AllWords [] = Unit
AllWords (w ∷ ws) = (w < 2 ^ 32) × AllWords ws

pub numbers-AllWords :
    (args : List Arg) (more : List ℕ)
    → AllWords (numbers args ++ more)
    → AreWords args × AllWords more
numbers-AllWords [] more h = (tt, h)
numbers-AllWords (word w ∷ args) more h =
    let (ws, rest) = numbers-AllWords args more h.1 in ((h.0, ws), rest)
numbers-AllWords (text s ∷ args) more h = numbers-AllWords args more h
