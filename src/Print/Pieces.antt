-- ===== src/Print/Pieces.antt =====
-- What a format string of VinixOS/kernel/src/drivers/uart.c promises: a list of pieces, each with its
-- characters in `fmt`, the argument that it takes, and what it prints.
use mathlib.Core.List.{append_assoc}
use ref_arm_os.Base.{
  ◌==◌, if◌then◌else◌, ℕ, ◌%◌, ◌^◌, ◌≤◌, ◌<◌, ◌≡◌, refl, sym, ap, ◌∙◌, ◌≢◌, Bool, true, false, ◌&&◌,
  Option, none, some, List, [], ◌∷◌, ◌++◌, arith,
}
use ref_arm_os.Print.{
  Arg, Place, word, text, in_text, after_percent, in_width, uart_puts, print_uint, next_word,
  next_text, or_null, convert, is_digit, put_format, walk_format, uart_printf,
}
use ref_arm_os.Print.Kernel.{print_uint-Reads, word-pow}

-- A width after `%0` is a list of digits; `none` is a conversion without one.
pub data Piece : Type 0 where
  literal : ℕ → Piece
  percent_sign : Piece
  decimal : ℕ → Piece
  hexadecimal : Option (List ℕ) → ℕ → Piece
  string : Option (List ℕ) → Piece
  character : ℕ → Piece

abbrev pub zero_width : Option (List ℕ) → List ℕ
zero_width none = []
zero_width (some ds) = 48 ∷ ds

abbrev pub piece_format : Piece → List ℕ
piece_format (literal c) = c ∷ []
piece_format percent_sign = 37 ∷ 37 ∷ []
piece_format (decimal w) = 37 ∷ 100 ∷ []
piece_format (hexadecimal pad w) = 37 ∷ (zero_width pad ++ 120 ∷ [])
piece_format (string s) = 37 ∷ 115 ∷ []
piece_format (character w) = 37 ∷ 99 ∷ []

abbrev pub piece_args : Piece → List Arg
piece_args (literal c) = []
piece_args percent_sign = []
piece_args (decimal w) = word w ∷ []
piece_args (hexadecimal pad w) = word w ∷ []
piece_args (string s) = text s ∷ []
piece_args (character w) = word w ∷ []

abbrev pub or_empty : Option (List ℕ) → List ℕ
or_empty none = []
or_empty (some ds) = ds

abbrev pub shown : (num base : ℕ) → List ℕ
shown num base = or_empty (print_uint num base)

abbrev pub piece_output : Piece → List ℕ
piece_output (literal c) = if c == 10 then 13 ∷ c ∷ [] else c ∷ []
piece_output percent_sign = 37 ∷ []
piece_output (decimal w) = shown w 10
piece_output (hexadecimal pad w) = shown w 16
piece_output (string s) = uart_puts (or_null s)
piece_output (character w) = w % 256 ∷ []

abbrev pub digits_only : List ℕ → Bool
digits_only [] = true
digits_only (c ∷ cs) = is_digit c && digits_only cs

abbrev pub IsPiece : Piece → Type 0
IsPiece (literal c) = c ≢ 37
IsPiece percent_sign = Unit
IsPiece (decimal w) = w < 2 ^ 32
IsPiece (hexadecimal none w) = w < 2 ^ 32
IsPiece (hexadecimal (some ds) w) = (digits_only ds ≡ true) × (w < 2 ^ 32)
IsPiece (string s) = Unit
IsPiece (character w) = Unit

abbrev pub format_of : List Piece → List ℕ
format_of [] = []
format_of (p ∷ ps) = piece_format p ++ format_of ps

abbrev pub args_of : List Piece → List Arg
args_of [] = []
args_of (p ∷ ps) = piece_args p ++ args_of ps

abbrev pub output_of : List Piece → List ℕ
output_of [] = []
output_of (p ∷ ps) = piece_output p ++ output_of ps

abbrev pub ArePieces : List Piece → Type 0
ArePieces [] = Unit
ArePieces (p ∷ ps) = IsPiece p × ArePieces ps

print_uint-shown :
    (num base : ℕ)
    → num < 2 ^ 32
    → 2 ≤ base
    → base ≤ 16
    → print_uint num base ≡ some (shown num base)
print_uint-shown num base h l u =
    let (ds, e, _, _, _) =
      print_uint-Reads 32 num base (omega arith) (omega arith) l u h (word-pow num base h l) in
    e ∙ ap some (sym (ap or_empty e))

step :
    (place next : Place) (c : ℕ) (fmt : List ℕ) (args rest : List Arg) (out more : List ℕ)
    → put_format place c args ≡ some (out, rest, next)
    → walk_format next fmt rest ≡ some more
    → walk_format place (c ∷ fmt) args ≡ some (out ++ more)
unfolding walk_format
step in_text next c fmt args rest out more e f = rw (e, f) refl
step after_percent next c fmt args rest out more e f = rw (e, f) refl
step in_width next c fmt args rest out more e f = rw (e, f) refl

skip_width :
    (ds fmt : List ℕ) (args : List Arg) (out : List ℕ)
    → digits_only ds ≡ true
    → walk_format in_width fmt args ≡ some out
    → walk_format in_width (ds ++ fmt) args ≡ some out
unfolding put_format
skip_width [] fmt args out h e = e
skip_width (d ∷ ds) fmt args out h e =
    let left : is_digit d ≡ true = ground arith in
    let right : digits_only ds ≡ true = ground arith in
    step in_width in_width d (ds ++ fmt) args args [] out (rw (left) refl)
      (skip_width ds fmt args out right e)

literal_step :
    (c : ℕ) (args : List Arg)
    → c ≢ 37
    → put_format in_text c args ≡ some (piece_output (literal c), args, in_text)
unfolding put_format
literal_step c args h = let other : (c == 37) ≡ false = ground arith in rw (other) refl

walk-piece :
    (p : Piece) (fmt : List ℕ) (args : List Arg) (more : List ℕ)
    → IsPiece p
    → walk_format in_text fmt args ≡ some more
    → walk_format in_text (piece_format p ++ fmt) (piece_args p ++ args)
      ≡ some (piece_output p ++ more)
unfolding put_format convert next_word next_text
walk-piece (literal c) fmt args more h e =
    step in_text in_text c fmt args args _ more (literal_step c args h) e
walk-piece percent_sign fmt args more h e =
    step in_text after_percent 37 _ args args [] _ refl
      (step after_percent in_text 37 fmt args args (37 ∷ []) more refl e)
walk-piece (decimal w) fmt args more h e = step in_text after_percent 37 _ _ _ [] _ refl (
    step after_percent in_text 100 fmt (word w ∷ args) args (shown w 10) more
      (rw (print_uint-shown w 10 h (omega arith) (omega arith)) refl) e)
walk-piece (hexadecimal none w) fmt args more h e = step in_text after_percent 37 _ _ _ [] _ refl (
    step after_percent in_text 120 fmt (word w ∷ args) args (shown w 16) more
      (rw (print_uint-shown w 16 h (omega arith) (omega arith)) refl) e)
walk-piece (hexadecimal (some ds) w) fmt args more h e = rw (append_assoc ds (120 ∷ []) fmt) (
    step in_text after_percent 37 _ _ _ [] _ refl (
      step after_percent in_width 48 _ _ _ [] _ refl (
        skip_width ds (120 ∷ fmt) (word w ∷ args) _ h.0 (
          step in_width in_text 120 fmt (word w ∷ args) args (shown w 16) more
            (rw (print_uint-shown w 16 h.1 (omega arith) (omega arith)) refl) e))))
walk-piece (string s) fmt args more h e =
    step in_text after_percent 37 _ _ _ [] _ refl
      (step after_percent in_text 115 fmt (text s ∷ args) args _ more refl e)
walk-piece (character w) fmt args more h e =
    step in_text after_percent 37 _ _ _ [] _ refl
      (step after_percent in_text 99 fmt (word w ∷ args) args _ more refl e)

walk-pieces :
    (ps : List Piece)
    → ArePieces ps
    → walk_format in_text (format_of ps) (args_of ps) ≡ some (output_of ps)
unfolding walk_format
walk-pieces [] h = refl
walk-pieces (p ∷ ps) h =
    walk-piece p (format_of ps) (args_of ps) (output_of ps) h.0 (walk-pieces ps h.1)

-- For every list of pieces (characters of the text other than `%`, `%%`, `%d`, `%x` with or without
-- a width of digits after `%0`, `%s`, `%c`, with words for the numbers), `uart_printf` on the format
-- and the arguments that the pieces make prints what each piece prints, in order, and takes no
-- argument more; a width changes nothing.
pub uart_printf-Pieces :
    (ps : List Piece) → ArePieces ps → uart_printf (format_of ps) (args_of ps) ≡ some (output_of ps)
unfolding uart_printf
uart_printf-Pieces ps h = walk-pieces ps h
