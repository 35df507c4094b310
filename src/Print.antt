-- ===== src/Print.antt =====
-- VinixOS/kernel/src/drivers/uart.c, the console output of the kernel: what `uart_puts`,
-- `print_uint` and `uart_printf` send, as the list of the bytes that `uart_putc` writes to THR. The
-- wait for LSR before each of them is left out. A C string is the list of its characters before the NUL.
pub mod Divide
pub mod Digits
pub mod Kernel
pub mod Pieces
pub mod Fits
use ref_arm_os.Base.{
  leb, ◌==◌, if◌then◌else◌, ◌>>=◌, ℕ, zero, suc, ◌%◌, Bool, ◌&&◌, ◌||◌, Option, none, some, List,
  [], ◌∷◌, ◌++◌,
}
use ref_arm_os.Print.Divide.{simple_udivmod}
use ref_arm_os.Print.Digits.{digit_char}

-- `uart_puts`
unfoldable pub uart_puts : List ℕ → List ℕ
uart_puts [] = []
uart_puts (c ∷ cs) = (if c == 10 then 13 ∷ c ∷ [] else c ∷ []) ++ uart_puts cs

-- The loop of `print_uint` that fills `buf`, the last digit stored at the head; it has room for
-- `room` digits more, and `none` is a store past the end of the buffer.
unfoldable pub fill_buf : (room base num : ℕ) → List ℕ → Option (List ℕ)
fill_buf zero base num buf = if num == 0 then some buf else none
fill_buf (suc room) base num buf =
    let s = simple_udivmod num base in
    let rest = fill_buf room base s.quotient (digit_char s.remainder ∷ buf) in
    if num == 0 then some buf else rest

-- `print_uint`, with `char buf[32]`
unfoldable pub print_uint : (num base : ℕ) → Option (List ℕ)
print_uint num base = if num == 0 then some (48 ∷ []) else fill_buf 32 base num []

-- an argument that `va_arg` takes: a word, or a `char *`, which may be NULL
pub data Arg : Type 0 where
  word : ℕ → Arg
  text : Option (List ℕ) → Arg

-- where the walk over `fmt` stands: before a character of the text, at the one after `%`, or among
-- the digits of a width
pub data Place : Type 0 where
  in_text : Place
  after_percent : Place
  in_width : Place

-- `va_arg(args, uint32_t)` and `va_arg(args, const char *)`: `none` where no such argument is left.
unfoldable pub next_word : List Arg → Option (ℕ × List Arg)
next_word [] = none
next_word (word w ∷ args) = some (w, args)
next_word (text s ∷ args) = none

unfoldable pub next_text : List Arg → Option (Option (List ℕ) × List Arg)
next_text [] = none
next_text (word w ∷ args) = none
next_text (text s ∷ args) = some (s, args)

-- "(null)"
abbrev pub null_text : List ℕ
null_text = 40 ∷ 110 ∷ 117 ∷ 108 ∷ 108 ∷ 41 ∷ []

abbrev pub or_null : Option (List ℕ) → List ℕ
or_null none = null_text
or_null (some s) = s

-- The `switch` on the character after `%`: what it prints, and the arguments that it leaves.
unfoldable pub convert : ℕ → List Arg → Option (List ℕ × List Arg)
convert c args =
    if c == 100 || c == 117
    then (do (w, rest) ← next_word args; digits ← print_uint w 10; some (digits, rest))
    else if c == 120 || c == 88
    then (do (w, rest) ← next_word args; digits ← print_uint w 16; some (digits, rest))
    else if c == 115
    then (do (s, rest) ← next_text args; some (uart_puts (or_null s), rest))
    else if c == 99
    then (do (w, rest) ← next_word args; some (w % 256 ∷ [], rest))
    else if c == 37
    then some (37 ∷ [], args)
    else some (37 ∷ c ∷ [], args)

abbrev pub is_digit : ℕ → Bool
is_digit c = leb 48 c && leb c 57

-- after a conversion the walk is back in the text
abbrev pub then_plain : Option (List ℕ × List Arg) → Option (List ℕ × List Arg × Place)
then_plain none = none
then_plain (some (out, rest)) = some (out, rest, in_text)

-- what one character of `fmt` prints, the arguments left, and where the walk goes on
unfoldable pub put_format : Place → ℕ → List Arg → Option (List ℕ × List Arg × Place)
put_format in_text c args =
    if c == 37
    then some ([], args, after_percent)
    else some ((if c == 10 then 13 ∷ c ∷ [] else c ∷ []), args, in_text)
put_format after_percent c args =
    if c == 48 then some ([], args, in_width) else then_plain (convert c args)
put_format in_width c args =
    if is_digit c then some ([], args, in_width) else then_plain (convert c args)

-- The walk over `fmt`. A format that ends in a conversion makes it read on past the NUL: `none`.
unfoldable pub walk_format : Place → List ℕ → List Arg → Option (List ℕ)
walk_format in_text [] args = some []
walk_format after_percent [] args = none
walk_format in_width [] args = none
walk_format place (c ∷ fmt) args = do
  (out, rest, next) ← put_format place c args
  more ← walk_format next fmt rest
  some (out ++ more)

-- `uart_printf`
unfoldable pub uart_printf : List ℕ → List Arg → Option (List ℕ)
uart_printf fmt args = walk_format in_text fmt args
