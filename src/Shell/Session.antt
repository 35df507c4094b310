-- ===== src/Shell/Session.antt =====
-- A whole line in the shell: `execute_command` of VinixOS/userspace/apps/shell/shell.c with the handlers
-- of VinixOS/userspace/apps/shell/commands.c that `cmd_table` names.
pub mod Typed
use ref_arm_os.Base.{get_or, ℤ, pos, negsuc, ℕ, zero, suc, some, List, []}
use ref_arm_os.Shell.Parse.{
  Execution, nothing_typed, runs, unknown, unknown_command, execute_command,
}
use ref_arm_os.Shell.Commands.{
  Answer, ProcessInfo, MemInfo, cmd_help, cmd_info, cmd_echo, cmd_clear, cmd_ps, cmd_mem, ls_path,
  cmd_ls, cmd_cat, cmd_exec,
}

-- What the system calls of the commands give, by the path or the name that they are called with.
pub record Given : Type 0 where
  pub tasks : ℤ × List ProcessInfo
  pub meminfo : ℤ × MemInfo
  pub listing : List ℕ → ℤ × List (List ℕ)
  pub fd : List ℕ → ℤ
  pub reads : List ℕ → List (ℤ × List ℕ)
  pub exec : List ℕ → ℤ

abbrev pub second : List (List ℕ) → List ℕ
second argv = get_or argv 1 []

-- the handlers in the order of the table
unfoldable pub handler : Given → ℕ → List (List ℕ) → Answer
unfolding cmd_help cmd_info cmd_ps cmd_mem cmd_ls ls_path cmd_cat cmd_exec cmd_echo cmd_clear
handler g zero argv = cmd_help
handler g (suc zero) argv = cmd_info
handler g (suc (suc zero)) argv = cmd_ps g.tasks.0 g.tasks.1
handler g (suc (suc (suc zero))) argv = cmd_mem g.meminfo.0 g.meminfo.1
handler g (suc (suc (suc (suc zero)))) argv =
    cmd_ls (g.listing (ls_path argv)).0 (g.listing (ls_path argv)).1
handler g (suc (suc (suc (suc (suc zero))))) argv =
    cmd_cat argv (g.fd (second argv)) (g.reads (second argv))
handler g (suc (suc (suc (suc (suc (suc zero)))))) argv = cmd_exec argv (g.exec (second argv))
handler g (suc (suc (suc (suc (suc (suc (suc zero))))))) argv = cmd_echo argv
handler g _ argv = cmd_clear

-- what the dispatch comes to: the code that `execute_command` returns, and what is printed
unfoldable pub answer : Given → Execution → Answer
unfolding handler
answer g nothing_typed = record { code = pos 0; out = some [] }
answer g (runs i args) = handler g i args
answer g (unknown cmd) = record { code = negsuc 0; out = unknown_command cmd }

unfoldable pub answer_line : Given → List ℕ → Answer
answer_line g line = answer g (execute_command line)
