-- ===== src/Shell/Commands.antt =====
-- The commands of VinixOS/userspace/apps/shell/commands.c. What the system calls of a command give is
-- its argument; what it prints are the buffers of its `sys_write` calls, `none` where `printf` would
-- read past its format.
pub mod Cat
use Prim.Native.String.{String}
use ref_arm_os.Base.{
  ltb, ◌==◌, if◌then◌else◌, length, get_or, take, drop, codes, ℤ, pos, negsuc, is_neg, is_pos,
  is_zero, to_ℕ, to_u32, ℕ, ◌/◌, Option, none, some, List, [], ◌∷◌, ◌++◌,
}
use ref_arm_os.Shell.Output.{Chunks, printf}
use ref_arm_os.Shell.Line.{c_string}
use ref_arm_os.Print.{Arg, word, text}

pub record Answer : Type 0 where
  pub code : ℤ
  pub out : Option Chunks

-- one output after another
infixr 20 ◌then◌
abbrev pub ◌then◌ : Option Chunks → Option Chunks → Option Chunks
none then q = none
some x then none = none
some x then some y = some (x ++ y)

-- `%d` of an `int`
abbrev pub int_arg : ℤ → Arg
int_arg i = word (to_u32 i)

abbrev pub say : String → List Arg → Option Chunks
say fmt args = printf (codes fmt) args

-- `name` and `description` of the entries of `cmd_table`
abbrev pub described : List (List ℕ × List ℕ)
described =
    (codes "help", codes "Show this help message")
    ∷ (codes "info", codes "Show system info")
    ∷ (codes "ps", codes "Show running tasks")
    ∷ (codes "mem", codes "Show memory usage")
    ∷ (codes "ls", codes "List directory contents")
    ∷ (codes "cat", codes "Display file contents")
    ∷ (codes "exec", codes "Execute binary file")
    ∷ (codes "echo", codes "Echo arguments")
    ∷ (codes "clear", codes "Clear screen")
    ∷ []

unfoldable pub help_lines : List (List ℕ × List ℕ) → Option Chunks
help_lines [] = some []
help_lines ((name, description) ∷ cs) =
    say "  %s\t: %s\n" (text (some name) ∷ text (some description) ∷ []) then help_lines cs

unfoldable pub cmd_help : Answer
unfolding help_lines
cmd_help = record {
  code = pos 0;
  out =
      say "\nAvailable Commands:\n" []
      then say "-------------------\n" []
      then help_lines described
      then say "\n" [];
}

unfoldable pub cmd_info : Answer
cmd_info = record {
  code = pos 0;
  out =
      say "\nVinixOS Info:\n" []
      then say "  OS Name  : VinixOS\n" []
      then say "  Platform : BeagleBone Black (Cortex-A8)\n" []
      then say "  Arch     : ARMv7-A\n" []
      then say "  Developer: Vinalinux <vinalinux2022@gmail.com>\n" []
      then say "\n" [];
}

unfoldable pub echo_words : List (List ℕ) → Option Chunks
echo_words [] = some []
echo_words (a ∷ args) = say "%s " (text (some a) ∷ []) then echo_words args

unfoldable pub cmd_echo : List (List ℕ) → Answer
unfolding echo_words
cmd_echo argv = record { code = pos 0; out = echo_words (drop 1 argv) then say "\n" [] }

-- the escape sequence for a clear screen
unfoldable pub cmd_clear : Answer
cmd_clear = record { code = pos 0; out = printf ((27 ∷ codes "[2J") ++ (27 ∷ codes "[H")) [] }

-- `process_info_t`, as `sys_get_tasks` fills it
pub record ProcessInfo : Type 0 where
  pub id : ℕ
  pub name : List ℕ
  pub state : ℕ

abbrev pub state_str : ℕ → List ℕ
state_str n =
    if n == 0
    then codes "READY"
    else if n == 1
    then codes "RUNNING"
    else if n == 2
    then codes "BLOCKED"
    else if n == 3
    then codes "ZOMBIE"
    else codes "UNKNOWN"

abbrev pub ps_row : List Arg → Option Chunks
ps_row args = say "%-8s%-32s%-16s\n" args

unfoldable pub ps_lines : List ProcessInfo → Option Chunks
ps_lines [] = some []
ps_lines (t ∷ ts) =
    say "%-8d%-32s%-16s\n" (word t.id ∷ text (some t.name) ∷ text (some (state_str t.state)) ∷ [])
    then ps_lines ts

-- `cmd_ps`, with the count and the entries that `sys_get_tasks` gave
unfoldable pub cmd_ps : ℤ → List ProcessInfo → Answer
unfolding ps_lines
cmd_ps count tasks =
    if is_neg count
    then record { code = negsuc 0; out = say "Error getting tasks\n" [] }
    else record {
      code = pos 0;
      out =
          say "\n%-8s%-32s%-16s\n" (
            text (some (codes "ID"))
            ∷ text (some (codes "NAME"))
            ∷ text (some (codes "STATE"))
            ∷ [])
          then ps_row (
              text (some (codes "--"))
              ∷ text (some (codes "----"))
              ∷ text (some (codes "-----"))
              ∷ [])
          then ps_lines (take (to_ℕ count) tasks)
          then say "\n" [];
    }

-- `mem_info_t`, as `sys_get_meminfo` fills it
pub record MemInfo : Type 0 where
  pub total : ℕ
  pub free : ℕ
  pub kernel_text : ℕ
  pub kernel_data : ℕ
  pub kernel_bss : ℕ
  pub kernel_stack : ℕ

unfoldable pub cmd_mem : ℤ → MemInfo → Answer
cmd_mem result info =
    if is_zero result
    then record {
      code = pos 0;
      out =
          say "\nMemory Layout (128MB Total):\n" []
          then say "  Kernel Text : %u bytes\n" (word info.kernel_text ∷ [])
          then say "  Kernel Data : %u bytes\n" (word info.kernel_data ∷ [])
          then say "  Kernel BSS  : %u bytes\n" (word info.kernel_bss ∷ [])
          then say "  Kernel Stack: %u bytes\n" (word info.kernel_stack ∷ [])
          then say "  Free Memory : %u bytes\n" (word info.free ∷ [])
          then say "\n" [];
    }
    else record { code = negsuc 0; out = say "Error getting mem info\n" [] }

unfoldable pub ls_lines : List (List ℕ) → Option Chunks
ls_lines [] = some []
ls_lines (name ∷ names) = say "  %s\n" (text (some name) ∷ []) then ls_lines names

-- the path that `cmd_ls` lists, and what it makes of the answer of `sys_listdir`
unfoldable pub ls_path : List (List ℕ) → List ℕ
ls_path argv = if ltb 1 (length argv) then get_or argv 1 [] else codes "/"

unfoldable pub cmd_ls : ℤ → List (List ℕ) → Answer
unfolding ls_lines
cmd_ls count names =
    if is_neg count
    then record { code = negsuc 0; out = say "Error listing directory: %d\n" (int_arg count ∷ []) }
    else record { code = pos 0; out = ls_lines (take (to_ℕ count) names) }

-- The loop of `cmd_cat` on what the calls of `sys_read_file` give, the count and the buffer: what is
-- printed, and the last count. A list that ends stands for a count of 0.
unfoldable pub cat_loop : List (ℤ × List ℕ) → Option Chunks × ℤ
unfolding c_string
cat_loop [] = (some [], pos 0)
cat_loop ((bytes_read, buffer) ∷ reads) =
    let (more, last) = cat_loop reads in
    if is_pos bytes_read
    then (say "%s" (text (some (c_string (take (to_ℕ bytes_read) buffer))) ∷ []) then more, last)
    else (some [], bytes_read)

unfoldable pub cmd_cat : List (List ℕ) → (fd : ℤ) → List (ℤ × List ℕ) → Answer
unfolding cat_loop
cmd_cat argv fd reads =
    let filename = get_or argv 1 [] in
    let (printed, last) = cat_loop reads in
    if ltb (length argv) 2
    then record {
      code = negsuc 0;
      out = say "Usage: cat <filename>\n" [] then say "Example: cat /README.txt\n" [];
    }
    else if is_neg fd
    then record {
      code = negsuc 0;
      out = say "Error opening file '%s': %d\n" (text (some filename) ∷ int_arg fd ∷ []);
    }
    else record {
      code = pos 0;
      out =
          say "\n" []
          then printed
          then (if is_neg last
              then say "\nError reading file: %d\n" (int_arg last ∷ [])
              else some [])
          then say "\n" [];
    }

-- `cmd_exec`, with the answer of `sys_exec` where it comes back
unfoldable pub cmd_exec : List (List ℕ) → ℤ → Answer
cmd_exec argv result =
    let filename = get_or argv 1 [] in
    if ltb (length argv) 2
    then record {
      code = negsuc 0;
      out = say "Usage: exec <filename>\n" [] then say "Example: exec hello_simple\n" [];
    }
    else record {
      code = negsuc 0;
      out =
          say "Executing '%s'...\n" (text (some filename) ∷ [])
          then (if is_neg result
              then say "exec failed for '%s': %d\n" (text (some filename) ∷ int_arg result ∷ [])
              else say "exec returned unexpectedly: %d\n" (int_arg result ∷ []));
    }
