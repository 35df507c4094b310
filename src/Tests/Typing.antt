-- ===== src/Tests/Typing.antt =====
-- The shell on concrete lines, and its calls of the kernel.
use ref_arm_os.Base.{
  if◌then◌else◌, length, replicate, codes, pos, negsuc, ℕ, ◌≤◌, ◌≡◌, refl, true, false, not, ◌&&◌,
  Option, none, some, List, [], ◌∷◌, ◌++◌, arith,
}
use ref_arm_os.User.{user_start}
use ref_arm_os.Svc.{
  Kernel, crlf, sys_write, sys_read, sys_yield, sys_exit, sys_get_tasks, sys_get_meminfo, sys_open,
  sys_read_file, sys_close, sys_listdir, sys_exec,
}
use ref_arm_os.Calls.{
  user_yield, user_write, user_exit, user_read, user_get_tasks, user_get_meminfo, user_open,
  user_read_file, user_close, user_listdir, user_exec,
}
use ref_arm_os.Calls.Handlers.{answered, entry, wrappers-Handlers}
use ref_arm_os.Shell.Output.{Field, Chunks, shell_puts, convert}
use ref_arm_os.Shell.Console.{send, shell_puts-Console}
use ref_arm_os.Shell.Parse.{runs, token, strcmp, execute_command}
use ref_arm_os.Shell.Tokens.{Spelled, line_of, words_of, IsWord, AreSpelled}
use ref_arm_os.Shell.Words.{Answers, execute_command-Words}
use ref_arm_os.Shell.Line.{Line, main_loop}
use ref_arm_os.Shell.Editor.{IsLine, submitted, executed}
use ref_arm_os.Shell.Editor.Steps.{main_loop-Editor}
use ref_arm_os.Print.{word, text, or_null}
use ref_arm_os.Print.Digits.{value}
use ref_arm_os.Shell.Chunks.{joined}
use ref_arm_os.Shell.Fields.{field, convert-Field}
use ref_arm_os.Shell.Commands.{◌then◌}
use ref_arm_os.Shell.Commands.Cat.{answers, content, ArePieces}
use ref_arm_os.Shell.Session.{Given, answer_line}
use ref_arm_os.Shell.Session.Typed.{answer_line-cat}
use ref_arm_os.Tests.Calls.{image, machine, read_two}

wrappers-Handlers_example :
    (user_write image read_two user_start 2 machine
      ≡ answered (sys_write (entry 0 user_start 2 0 read_two) machine))
    × (user_exit image read_two (pos 0) machine
        ≡ answered (sys_exit image (entry 1 0 0 0 read_two) machine))
    × (user_yield image read_two machine ≡ answered (sys_yield (entry 2 0 0 0 read_two) machine))
    × (user_read image read_two user_start 2 machine
        ≡ answered (sys_read (entry 3 user_start 2 0 read_two) machine))
    × (user_get_tasks image read_two user_start 2 machine
        ≡ answered (sys_get_tasks (entry 4 user_start 2 0 read_two) machine))
    × (user_get_meminfo image read_two user_start machine
        ≡ answered (sys_get_meminfo image (entry 5 user_start 0 0 read_two) machine))
    × (user_open image read_two user_start (pos 0) machine
        ≡ answered (sys_open (entry 6 user_start 0 0 read_two) machine))
    × (user_read_file image read_two (pos 0) user_start 2 machine
        ≡ answered (sys_read_file (entry 7 0 user_start 2 read_two) machine))
    × (user_close image read_two (pos 0) machine
        ≡ answered (sys_close (entry 8 0 0 0 read_two) machine))
    × (user_listdir image read_two user_start 5 2 machine
        ≡ answered (sys_listdir (entry 9 user_start 5 2 read_two) machine))
    × (user_exec image read_two user_start machine
        ≡ answered (sys_exec image (entry 10 user_start 0 0 read_two) machine))
wrappers-Handlers_example = wrappers-Handlers image read_two user_start 5 2 (pos 0) machine

shell_puts-Console_example :
    (k : Kernel) × (send image read_two user_start (shell_puts (codes "hi\n")) machine ≡ some k)
    × (k.tx ≡ [] ++ crlf (crlf (codes "hi\n")))
shell_puts-Console_example =
    shell_puts-Console image read_two user_start (codes "hi\n") machine (omega arith) (omega arith)

-- a newline reaches the wire with two carriage returns
newline_twice : crlf (crlf (codes "hi\n")) ≡ codes "hi" ++ 13 ∷ 13 ∷ 10 ∷ []
unfolding crlf
newline_twice = refl

-- " cat \t/hello"
abbrev cat_hello : Spelled
cat_hello = (codes "cat", 32 ∷ 9 ∷ []) ∷ (codes "/hello", []) ∷ []

cat_hello-AreSpelled : AreSpelled cat_hello
cat_hello-AreSpelled = ground arith

execute_command-Words_example :
    Answers (words_of cat_hello) (execute_command ((32 ∷ []) ++ line_of cat_hello))
execute_command-Words_example =
    execute_command-Words (32 ∷ []) cat_hello (refl, tt) cat_hello-AreSpelled

cat_hello_run : execute_command (codes " cat /hello") ≡ runs 5 (codes "cat" ∷ codes "/hello" ∷ [])
unfolding execute_command token strcmp
cat_hello_run = refl

abbrev empty_line : Line
empty_line = record { bytes = replicate 128 0; line_pos = 0 }

empty_line-IsLine : IsLine empty_line
empty_line-IsLine = record { size = refl; inside = omega arith; ended = refl; letters = tt }

-- "lx", a backspace, "s" and a return, with a read without a character between
abbrev keys : List (Option ℕ)
keys = some 108 ∷ some 120 ∷ none ∷ some 127 ∷ some 115 ∷ some 13 ∷ []

main_loop-Editor_example :
    (executed (main_loop keys empty_line).0 ≡ submitted keys [])
    × IsLine (main_loop keys empty_line).1
main_loop-Editor_example = main_loop-Editor keys empty_line empty_line-IsLine

keys_submit : submitted keys [] ≡ codes "ls" ∷ []
keys_submit = refl

-- "%-8d" of 7, and the same field for the other two
abbrev left_eight : Field
left_eight = record { left_align = true; zero_pad = false; columns = 8 }

convert-Field_example :
    ((ds : List ℕ) × (out : Chunks) × (convert left_eight 100 (word 7 ∷ []) ≡ some (out, []))
      × (joined out ≡ field true 32 8 (length ds) ds)
      × (value 10 0 ds ≡ 7)
      × (length ds ≤ 10))
    × ((ds : List ℕ) × (out : Chunks) × (convert left_eight 120 (word 7 ∷ []) ≡ some (out, []))
        × (joined out ≡ field true (if false && not true then 48 else 32) 8 (length ds) ds)
        × (value 16 0 ds ≡ 7)
        × (length ds ≤ 8))
    × ((out : Chunks) × (convert left_eight 115 (text (some (codes "idle")) ∷ []) ≡ some (out, []))
        × (joined out
            ≡ field true 32 8
                (length (or_null (some (codes "idle"))))
                (crlf (or_null (some (codes "idle"))))))
convert-Field_example = convert-Field left_eight 7 (some (codes "idle")) [] (omega arith)

-- a file in two pieces, the second in a buffer with bytes of the first
abbrev two_pieces : List (List ℕ × List ℕ)
two_pieces = (codes "abc\n", []) ∷ (codes "d", codes "bc\n") ∷ []

two_pieces-ArePieces : ArePieces two_pieces
two_pieces-ArePieces = ground arith

abbrev given : Given
given = record {
  tasks = (pos 0, []);
  meminfo = (
    pos 0,
    record {
      total = 0;
      free = 0;
      kernel_text = 0;
      kernel_data = 0;
      kernel_bss = 0;
      kernel_stack = 0;
    },
  );
  listing = λ path. (pos 0, []);
  fd = λ path. pos 3;
  reads = λ path. answers two_pieces;
  exec = λ path. negsuc 0;
}

slash_a-IsWord : IsWord (codes "/a")
slash_a-IsWord = ground arith

answer_line-cat_example :
    (out : Chunks) × ((answer_line given (codes "cat " ++ codes "/a")).out ≡ some out)
    × (joined out ≡ codes "\r\n" ++ (crlf (content two_pieces) ++ codes "\r\n"))
answer_line-cat_example =
    answer_line-cat given (codes "/a") 3 two_pieces slash_a-IsWord refl refl two_pieces-ArePieces
