-- ===== src/Shell/Session/Typed.antt =====
-- The line `cat` with the name of a file, in the shell of VinixOS/userspace/apps/shell, from what is
-- typed to what is shown.
use mathlib.Core.List.{append-nil}
use mathlib.Core.Path.{ap₂}
use ref_arm_os.Base.{codes, pos, ℕ, ◌≡◌, refl, sym, ap, ◌∙◌, some, List, [], ◌∷◌, ◌++◌, arith}
use ref_arm_os.Svc.{crlf}
use ref_arm_os.Shell.Output.{Chunks}
use ref_arm_os.Shell.Chunks.{joined}
use ref_arm_os.Shell.Parse.{runs, tokenize, strcmp, find_command, dispatch_args, execute_command}
use ref_arm_os.Shell.Tokens.{Spelled, line_of, IsWord, AreSpelled, tokenize-words}
use ref_arm_os.Shell.Commands.Cat.{answers, content, ArePieces, cmd_cat-content}
use ref_arm_os.Shell.Session.{Given, answer, answer_line}
use ref_arm_os.Shell.Commands.{cmd_cat}

cat_line : List ℕ → Spelled
cat_line name = (codes "cat", 32 ∷ []) ∷ (name, []) ∷ []

cat_line-AreSpelled : (name : List ℕ) → IsWord name → AreSpelled (cat_line name)
unfolding cat_line
cat_line-AreSpelled name h =
    let cat_word : IsWord (codes "cat") = ground arith in
    (cat_word, (refl, tt), omega arith, (h, tt))

line_of-cat : (name : List ℕ) → line_of (cat_line name) ≡ codes "cat " ++ name
unfolding cat_line
line_of-cat name = ap (λ t. codes "cat " ++ t) (append-nil (name ++ []) ∙ append-nil name)

cat_found :
    (args : List (List ℕ)) → dispatch_args (codes "cat" ∷ args) ≡ runs 5 (codes "cat" ∷ args)
unfolding dispatch_args strcmp find_command
cat_found args = refl

execute-cat :
    (name : List ℕ)
    → IsWord name
    → execute_command (codes "cat " ++ name) ≡ runs 5 (codes "cat" ∷ name ∷ [])
unfolding execute_command cat_line
execute-cat name h =
    let split : tokenize 8 (codes "cat " ++ name) ≡ codes "cat" ∷ name ∷ [] =
      ap (tokenize 8) (sym (line_of-cat name))
      ∙ tokenize-words 8 (cat_line name) (cat_line-AreSpelled name h) in
    ap dispatch_args split ∙ cat_found (name ∷ [])

cat-given :
    (g : Given) (name : List ℕ)
    → (answer g (runs 5 (codes "cat" ∷ name ∷ []))).out
      ≡ (cmd_cat (codes "cat" ∷ name ∷ []) (g.fd name) (g.reads name)).out
unfolding answer
cat-given g name = refl

-- For every file name that is a word: when the open answers with a descriptor and the reads give the
-- content in pieces without a NUL, each of a byte at least, and then a count of 0, the line `cat` with
-- the name prints an empty line, the content with its newlines expanded, and a newline.
pub answer_line-cat :
    (g : Given) (name : List ℕ) (fd : ℕ) (ps : List (List ℕ × List ℕ))
    → IsWord name
    → g.fd name ≡ pos fd
    → g.reads name ≡ answers ps
    → ArePieces ps
    → (out : Chunks) × ((answer_line g (codes "cat " ++ name)).out ≡ some out)
      × (joined out ≡ codes "\r\n" ++ (crlf (content ps) ++ codes "\r\n"))
unfolding answer_line
answer_line-cat g name fd ps w o r h =
    let (out, e, t, _) = cmd_cat-content name fd ps h in
    (
      out,
      ap (λ x. (answer g x).out) (execute-cat name w)
          ∙ cat-given g name
          ∙ ap₂ (λ i rs. (cmd_cat (codes "cat" ∷ name ∷ []) i rs).out) o r
          ∙ e,
      t,
    )
