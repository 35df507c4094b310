-- ===== src/Shell/Parse.antt =====
-- The command line of VinixOS/userspace/apps/shell/shell.c: `execute_command` with its tokenizer and
-- its search of `cmd_table` (VinixOS/userspace/apps/shell/commands.c). A handler of the table is its
-- place there, and what it does is a parameter.
use ref_arm_os.Base.{
  ◌==◌, if◌then◌else◌, ◌>>=◌, codes, ℤ, pos, is_zero, sub_ℕ, ℕ, zero, suc, ◌+◌, Bool, ◌||◌, Option,
  none, some, List, [], ◌∷◌, ◌++◌,
}
use ref_arm_os.Shell.Output.{Chunks, printf}
use ref_arm_os.Print.{text}

-- SHELL_MAX_ARGS
abbrev pub max_args : ℕ
max_args = 8

abbrev pub is_blank : ℕ → Bool
is_blank c = c == 32 || c == 9

unfoldable pub skip_blanks : List ℕ → List ℕ
skip_blanks [] = []
skip_blanks (c ∷ p) = let rest = skip_blanks p in if is_blank c then rest else c ∷ p

-- "Find end of token": the token, and what stands from its end on.
unfoldable pub token : List ℕ → List ℕ × List ℕ
token [] = ([], [])
token (c ∷ p) = let (tok, rest) = token p in if is_blank c then ([], c ∷ p) else (c ∷ tok, rest)

-- The loop of "Tokenize", with room for `room` arguments more.
unfoldable pub tokenize : (room : ℕ) → List ℕ → List (List ℕ)
tokenize zero p = []
tokenize (suc room) [] = []
tokenize (suc room) (c ∷ p) =
    let (tok, rest) = token (c ∷ p) in
    elim rest [ [] ↦ tok ∷ [] | b ∷ q ↦ tok ∷ tokenize room (skip_blanks q) ]

-- `strcmp` of the shell
unfoldable pub strcmp : List ℕ → List ℕ → ℤ
strcmp [] [] = pos 0
strcmp [] (d ∷ t) = sub_ℕ 0 d
strcmp (c ∷ s) [] = sub_ℕ c 0
strcmp (c ∷ s) (d ∷ t) = let rest = strcmp s t in if c == d then rest else sub_ℕ c d

-- the names of `cmd_table`, in order
abbrev pub cmd_table : List (List ℕ)
cmd_table =
    codes "help"
    ∷ codes "info"
    ∷ codes "ps"
    ∷ codes "mem"
    ∷ codes "ls"
    ∷ codes "cat"
    ∷ codes "exec"
    ∷ codes "echo"
    ∷ codes "clear"
    ∷ []

-- the place of the first entry from `i` on whose name compares equal
unfoldable pub find_command : List (List ℕ) → ℕ → List ℕ → Option ℕ
unfolding strcmp
find_command [] i cmd = none
find_command (name ∷ table) i cmd =
    let later = find_command table (i + 1) cmd in
    if is_zero (strcmp name cmd) then some i else later

-- "Unknown command: %s\n" and the hint after it
abbrev pub unknown_command : List ℕ → Option Chunks
unknown_command cmd = do
  first ← printf (codes "Unknown command: %s\n") (text (some cmd) ∷ [])
  second ← printf (codes "Type 'help' for available commands\n") []
  some (first ++ second)

-- What `execute_command` comes to: an empty line, a handler with its arguments, or no such command.
pub data Execution : Type 0 where
  nothing_typed : Execution
  runs : (handler : ℕ) (args : List (List ℕ)) → Execution
  unknown : (cmd : List ℕ) → Execution

abbrev pub first_arg : List (List ℕ) → List ℕ
first_arg [] = []
first_arg (a ∷ args) = a

-- "Dispatch": `cmd` points at the first token, which the tokenizer has terminated.
unfoldable pub dispatch_args : List (List ℕ) → Execution
unfolding find_command
dispatch_args args = elim (find_command cmd_table 0 (first_arg args)) [
  | none ↦ unknown (first_arg args)
  | some i ↦ runs i args
]

unfoldable pub execute_command : List ℕ → Execution
unfolding tokenize skip_blanks dispatch_args
execute_command line = elim (skip_blanks line) [
  | [] ↦ nothing_typed
  | c ∷ p ↦ dispatch_args (tokenize max_args (c ∷ p))
]
