-- ===== src/Shell/Output.antt =====
-- The output helpers of VinixOS/userspace/apps/shell/shell.c: `shell_putc`, `shell_puts` with its
-- buffer of 64 bytes, and `printf` with its flags and widths.
use ref_arm_os.Base.{
  leb, ◌==◌, if◌then◌else◌, ◌>>=◌, length, ℕ, zero, suc, ◌+◌, ◌-◌, ◌*◌, ◌/◌, ◌%◌, Bool, true, false,
  not, ◌&&◌, ◌||◌, Option, none, some, List, [], ◌∷◌, ◌++◌,
}
use ref_arm_os.Print.Digits.{digit_char}
use ref_arm_os.Print.{Arg, next_word, next_text, or_null, is_digit}

-- the buffers that `sys_write` is called with, in order
abbrev pub Chunks : Type 0
Chunks = List (List ℕ)

-- `shell_putc`
abbrev pub shell_putc : ℕ → Chunks
shell_putc c = (c ∷ []) ∷ []

-- `if (i > 0) sys_write(buf, i)`
abbrev pub flush : List ℕ → Chunks
flush [] = []
flush (c ∷ buf) = (c ∷ buf) ∷ []

-- The loop of `shell_puts`, with the `i` characters that stand in `buf`.
unfoldable pub puts_loop : List ℕ → List ℕ → Chunks
puts_loop buf [] = flush buf
puts_loop buf (c ∷ s) =
    let before = if c == 10 then flush buf ++ shell_putc 13 else [] in
    let filled = (if c == 10 then [] else buf) ++ c ∷ [] in
    let full = leb 64 (length filled) in
    let rest = puts_loop (if full then [] else filled) s in
    before ++ (if full then filled ∷ [] else []) ++ rest

unfoldable pub shell_puts : List ℕ → Chunks
unfolding puts_loop
shell_puts s = puts_loop [] s

-- `uint_to_buf`, with `char tmp[12]`: `none` is a store past the end of it.
unfoldable pub fill_tmp : (room base num : ℕ) → List ℕ → Option (List ℕ)
fill_tmp zero base num tmp = if num == 0 then some tmp else none
fill_tmp (suc room) base num tmp =
    let rest = fill_tmp room base (num / base) (digit_char (num % base) ∷ tmp) in
    if num == 0 then some tmp else rest

unfoldable pub uint_to_buf : (num base : ℕ) → Option (List ℕ)
uint_to_buf num base = if num == 0 then some (48 ∷ []) else fill_tmp 12 base num []

-- `pad_spaces`, and the same loop with '0'
unfoldable pub pad_with : (c count : ℕ) → Chunks
pad_with c zero = []
pad_with c (suc n) = shell_putc c ++ pad_with c n

abbrev pub pad_spaces : ℕ → Chunks
pad_spaces n = pad_with 32 n

-- `for (int i = 0; i < len; i++) shell_putc(nbuf[i])`
unfoldable pub put_chars : List ℕ → Chunks
put_chars [] = []
put_chars (c ∷ cs) = shell_putc c ++ put_chars cs

-- the flags and the width of a conversion
pub record Field : Type 0 where
  pub left_align : Bool
  pub zero_pad : Bool
  pub columns : ℕ

-- where the walk over `fmt` stands: before a character of the text, among the flags, in the width
pub data Place : Type 0 where
  plain : Place
  flags : Field → Place
  columns_of : Field → Place

-- the padding before and after `body`, which is `len` columns wide
unfoldable pub in_field : (left : Bool) (pad columns len : ℕ) → Chunks → Chunks
unfolding pad_with
in_field left pad columns len body =
    (if left then [] else pad_with pad (columns - len))
    ++ body
    ++ (if left then pad_spaces (columns - len) else [])

-- The `switch` on the conversion character, after "Left-align overrides zero-pad".
unfoldable pub convert : Field → ℕ → List Arg → Option (Chunks × List Arg)
convert f c args =
    if c == 100 || c == 117
    then (do
      (w, rest) ← next_word args
      nbuf ← uint_to_buf w 10
      some (in_field f.left_align 32 f.columns (length nbuf) (put_chars nbuf), rest))
    else if c == 120 || c == 88
    then (do
      (w, rest) ← next_word args
      nbuf ← uint_to_buf w 16
      let zeros = f.zero_pad && not f.left_align
      some (
        in_field f.left_align (if zeros then 48 else 32) f.columns (length nbuf) (put_chars nbuf),
        rest,
      ))
    else if c == 115
    then (do
      (s, rest) ← next_text args
      some (in_field f.left_align 32 f.columns (length (or_null s)) (shell_puts (or_null s)), rest))
    else if c == 99
    then (do (w, rest) ← next_word args; some (shell_putc (w % 256), rest))
    else if c == 37
    then some (shell_putc 37, args)
    else some (shell_putc 37 ++ shell_putc c, args)

abbrev pub then_plain : Option (Chunks × List Arg) → Option (Chunks × List Arg × Place)
then_plain none = none
then_plain (some (out, rest)) = some (out, rest, plain)

-- one character where the width is read: `width = width * 10 + (*p - '0')`
unfoldable pub put_width : Field → ℕ → List Arg → Option (Chunks × List Arg × Place)
put_width f c args =
    if is_digit c
    then some ([], args, columns_of (record f { columns = f.columns * 10 + (c - 48) }))
    else then_plain (convert f c args)

-- what one character of `fmt` prints, the arguments left, and where the walk goes on
unfoldable pub put_format : Place → ℕ → List Arg → Option (Chunks × List Arg × Place)
unfolding put_width
put_format plain c args =
    if c == 37
    then some ([], args, flags (record { left_align = false; zero_pad = false; columns = 0 }))
    else some ((if c == 10 then shell_putc 13 else []) ++ shell_putc c, args, plain)
put_format (flags f) c args =
    if c == 45
    then some ([], args, flags (record f { left_align = true }))
    else if c == 48
    then some ([], args, flags (record f { zero_pad = true }))
    else put_width f c args
put_format (columns_of f) c args = put_width f c args

-- The walk over `fmt`; a format that ends in a conversion makes it read on past the NUL: `none`.
unfoldable pub walk_format : Place → List ℕ → List Arg → Option Chunks
walk_format plain [] args = some []
walk_format (flags f) [] args = none
walk_format (columns_of f) [] args = none
walk_format place (c ∷ fmt) args = do
  (out, rest, next) ← put_format place c args
  more ← walk_format next fmt rest
  some (out ++ more)

unfoldable pub printf : List ℕ → List Arg → Option Chunks
printf fmt args = walk_format plain fmt args
