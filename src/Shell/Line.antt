-- ===== src/Shell/Line.antt =====
-- The line buffer and the main loop of VinixOS/userspace/apps/shell/shell.c. What `execute_command`
-- does with a line is an `Act` that holds the line; the NULs that it writes into the buffer are left
-- out, since `line_buffer_init` empties the buffer next.
use ref_arm_os.Base.{
  ltb, leb, ◌==◌, if◌then◌else◌, set, codes, ℤ, pos, negsuc, is_zero, ℕ, ◌+◌, ◌-◌, ◌&&◌, ◌||◌,
  Option, none, some, List, [], ◌∷◌, ◌++◌,
}
use ref_arm_os.Shell.Output.{Chunks, shell_putc, put_chars}

-- SHELL_LINE_BUFFER_SIZE
abbrev pub line_buffer_size : ℕ
line_buffer_size = 128

-- `line_buffer`
pub record Line : Type 0 where
  pub bytes : List ℕ
  pub line_pos : ℕ

unfoldable pub line_buffer_init : Line → Line
line_buffer_init b = record { bytes = set b.bytes 0 0; line_pos = 0 }

unfoldable pub line_buffer_add : ℕ → Line → ℤ × Line
line_buffer_add c b = if leb (line_buffer_size - 1) b.line_pos then (negsuc 0, b) else (
  pos 0,
  record { bytes = set (set b.bytes b.line_pos c) (b.line_pos + 1) 0; line_pos = b.line_pos + 1 },
)

unfoldable pub line_buffer_backspace : Line → ℤ × Line
line_buffer_backspace b =
    if ltb 0 b.line_pos
    then (pos 0, record { bytes = set b.bytes (b.line_pos - 1) 0; line_pos = b.line_pos - 1 })
    else (negsuc 0, b)

-- the C string that stands in a buffer
unfoldable pub c_string : List ℕ → List ℕ
c_string [] = []
c_string (c ∷ cs) = let rest = c_string cs in if c == 0 then [] else c ∷ rest

-- What a pass of the main loop does, in order.
pub data Act : Type 0 where
  writes : Chunks → Act
  executes : List ℕ → Act
  yields : Act

-- A character that `sys_read` gave. "> " is printed after the command.
unfoldable pub main_char : ℕ → Line → List Act × Line
unfolding line_buffer_add line_buffer_backspace line_buffer_init c_string
main_char c b =
    if c == 13 || c == 10
    then (
      writes (shell_putc 10) ∷ executes (c_string b.bytes) ∷ writes (put_chars (codes "> ")) ∷ [],
      line_buffer_init b,
    )
    else if c == 8 || c == 127
    then (let (e, b') = line_buffer_backspace b in
        if is_zero e
        then (writes (shell_putc 8 ++ shell_putc 32 ++ shell_putc 8) ∷ [], b')
        else ([], b'))
    else if leb 32 c && leb c 126
    then (let (e, b') = line_buffer_add c b in
        if is_zero e then (writes (shell_putc c) ∷ [], b') else (writes (shell_putc 7) ∷ [], b'))
    else ([], b)

-- A pass of the loop: `none` where `sys_read` gave no character.
unfoldable pub main_pass : Option ℕ → Line → List Act × Line
unfolding main_char
main_pass none b = (yields ∷ [], b)
main_pass (some c) b = main_char c b

unfoldable pub main_loop : List (Option ℕ) → Line → List Act × Line
unfolding main_pass
main_loop [] b = ([], b)
main_loop (r ∷ rs) b =
    let (acts, b') = main_pass r b in let (more, b'') = main_loop rs b' in (acts ++ more, b'')
