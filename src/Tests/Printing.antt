-- ===== src/Tests/Printing.antt =====
-- Division, printed numbers and formats on concrete inputs.
use mathlib.Core.Option.{map as map_option}
use ref_arm_os.Base.{codes, ◌/◌, ◌%◌, ◌≡◌, refl, none, some, List, [], ◌∷◌, arith}
use ref_arm_os.Print.{fill_buf, print_uint, put_format, walk_format, uart_printf}
use ref_arm_os.Print.Divide.{simple_udivmod, simple_udivmod-Exact}
use ref_arm_os.Print.Digits.{digit_char, value}
use ref_arm_os.Print.Kernel.{print_uint-RoundTrip}
use ref_arm_os.Print.Pieces.{
  Piece, literal, percent_sign, decimal, hexadecimal, string, character, format_of, args_of,
  output_of, ArePieces, uart_printf-Pieces,
}

-- a divisor with its top bit set
simple_udivmod-Exact_example :
    ((simple_udivmod 4000000000 3000000000).quotient ≡ 4000000000 / 3000000000)
    × ((simple_udivmod 4000000000 3000000000).remainder ≡ 4000000000 % 3000000000)
simple_udivmod-Exact_example =
    simple_udivmod-Exact 4000000000 3000000000 (omega arith) (omega arith)

print_uint_run : print_uint 48879 16 ≡ some (codes "beef")
unfolding print_uint simple_udivmod digit_char fill_buf
print_uint_run = refl

print_uint-RoundTrip_example : map_option (value 16 0) (print_uint 48879 16) ≡ some 48879
print_uint-RoundTrip_example =
    print_uint-RoundTrip 48879 16 (omega arith) (omega arith) (omega arith)

abbrev pieces : List Piece
pieces =
    literal 120
    ∷ literal 10
    ∷ percent_sign
    ∷ decimal 42
    ∷ hexadecimal (some (codes "8")) 255
    ∷ hexadecimal none 7
    ∷ string (some (codes "ab"))
    ∷ string none
    ∷ character 65
    ∷ []

pieces-ArePieces : ArePieces pieces
pieces-ArePieces = ground arith

pieces_format : format_of pieces ≡ codes "x\n%%%d%08x%x%s%s%c"
pieces_format = refl

uart_printf-Pieces_example :
    uart_printf (format_of pieces) (args_of pieces) ≡ some (output_of pieces)
uart_printf-Pieces_example = uart_printf-Pieces pieces pieces-ArePieces

-- a format that ends in `%` is read past its end
printf_past_end : uart_printf (codes "50%") [] ≡ none
unfolding uart_printf walk_format put_format
printf_past_end = refl
