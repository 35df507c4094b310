-- ===== src/Shell/Commands/Cat.antt =====
-- What `cmd_cat` of VinixOS/userspace/apps/shell/commands.c shows of a file that is read in pieces.
use mathlib.Core.List.{append-nil}
use mathlib.Core.Path.{ap₂}
use ref_arm_os.Base.{
  ltb, ◌==◌, if◌then◌else◌, length, take, replicate, codes, ℤ, pos, is_neg, ℕ, ◌-◌, ◌<◌, ◌≡◌, refl,
  sym, ap, ◌∙◌, true, false, Option, some, List, [], ◌∷◌, ◌++◌, arith,
}
use ref_arm_os.Svc.{crlf}
use ref_arm_os.Shell.Output.{
  Chunks, shell_puts, in_field, convert, put_width, put_format, walk_format, printf,
}
use ref_arm_os.Shell.Chunks.{joined, joined-append, shell_puts-Chunks}
use ref_arm_os.Shell.Console.{crlf-append}
use ref_arm_os.Shell.Fields.{joined-in_field}
use ref_arm_os.Shell.Line.{c_string}
use ref_arm_os.Shell.Editor.{NoNul}
use ref_arm_os.Shell.Commands.{◌then◌, int_arg, say, cat_loop, cmd_cat}
use ref_arm_os.Print.{text, next_text}

-- the answers of `sys_read_file`: each piece in a buffer whose other bytes are not known
abbrev pub answers : List (List ℕ × List ℕ) → List (ℤ × List ℕ)
answers [] = []
answers ((piece, junk) ∷ ps) = (pos (length piece), piece ++ junk) ∷ answers ps

abbrev pub content : List (List ℕ × List ℕ) → List ℕ
content [] = []
content ((piece, junk) ∷ ps) = piece ++ content ps

abbrev pub ArePieces : List (List ℕ × List ℕ) → Type 0
ArePieces [] = Unit
ArePieces ((piece, junk) ∷ ps) = ((0 < length piece) × NoNul piece) × ArePieces ps

c_string_self : (xs : List ℕ) → NoNul xs → c_string xs ≡ xs
unfolding c_string
c_string_self [] p = refl
c_string_self (x ∷ xs) p =
    let more : (x == 0) ≡ false = ground (arith, p.0) in
    rw (more) (ap (λ t. x ∷ t) (c_string_self xs p.1))

take-append : (xs ys : List ℕ) → take (length xs) (xs ++ ys) ≡ xs
take-append [] ys = refl
take-append (x ∷ xs) ys = ap (λ t. x ∷ t) (take-append xs ys)

-- `printf("%s", s)`
say_text :
    (s : List ℕ)
    → (out : Chunks) × (say "%s" (text (some s) ∷ []) ≡ some out) × (joined out ≡ crlf s)
unfolding printf walk_format put_format convert put_width next_text
say_text s =
    let none_left : 0 - length s ≡ 0 = omega arith in
    let body : Chunks = in_field false 32 0 (length s) (shell_puts s) in
    (
      body ++ [],
      refl,
      ap joined (append-nil body)
          ∙ joined-in_field false 32 0 (length s) (shell_puts s) (crlf s) (shell_puts-Chunks s).0
          ∙ ap (λ n. replicate n 32 ++ crlf s) none_left,
    )

say_newline : say "\n" [] ≡ some ((13 ∷ []) ∷ (10 ∷ []) ∷ [])
unfolding printf walk_format put_format
say_newline = refl

cat_loop-content :
    (ps : List (List ℕ × List ℕ))
    → ArePieces ps
    → (out : Chunks) × (cat_loop (answers ps) ≡ (some out, pos 0))
      × (joined out ≡ crlf (content ps))
unfolding cat_loop crlf
cat_loop-content [] h = ([], refl, refl)
cat_loop-content ((piece, junk) ∷ ps) h =
    let (more, e, t) = cat_loop-content ps h.1 in
    let (out, f, u) = say_text piece in
    let whole : c_string (take (length piece) (piece ++ junk)) ≡ piece =
      ap c_string (take-append piece junk) ∙ c_string_self piece h.0.1 in
    let some_read : ltb 0 (length piece) ≡ true = ground (arith, h.0.0) in
    (
      out ++ more,
      rw (some_read, e, whole, f) refl,
      joined-append out more ∙ ap₂ (λ x y. x ++ y) u t ∙ sym (crlf-append piece (content ps)),
    )

-- what `cmd_cat` prints around the loop
around : Option Chunks × ℤ → Option Chunks
around (printed, last) =
    say "\n" []
    then printed
    then (if is_neg last then say "\nError reading file: %d\n" (int_arg last ∷ []) else some [])
    then say "\n" []

cmd_cat-around :
    (name : List ℕ) (fd : ℕ) (reads : List (ℤ × List ℕ))
    → (cmd_cat (codes "cat" ∷ name ∷ []) (pos fd) reads).out ≡ around (cat_loop reads)
unfolding cmd_cat around
cmd_cat-around name fd reads = refl

abbrev newline_out : Chunks
newline_out = (13 ∷ []) ∷ (10 ∷ []) ∷ []

around-some :
    (out : Chunks) → around (some out, pos 0) ≡ some (newline_out ++ (out ++ ([] ++ newline_out)))
unfolding around
around-some out = rw (say_newline) refl

-- For every file name and every content that `sys_read_file` gives in pieces without a NUL, each of
-- a byte at least, whatever else stands in the buffer, and then a count of 0: `cat` prints an empty
-- line, the content with its newlines expanded, and a newline, and returns 0.
pub cmd_cat-content :
    (name : List ℕ) (fd : ℕ) (ps : List (List ℕ × List ℕ))
    → ArePieces ps
    → (out : Chunks) × ((cmd_cat (codes "cat" ∷ name ∷ []) (pos fd) (answers ps)).out ≡ some out)
      × (joined out ≡ codes "\r\n" ++ (crlf (content ps) ++ codes "\r\n"))
      × ((cmd_cat (codes "cat" ∷ name ∷ []) (pos fd) (answers ps)).code ≡ pos 0)
unfolding cmd_cat
cmd_cat-content name fd ps h =
    let (out, e, t) = cat_loop-content ps h in
    (
      newline_out ++ (out ++ ([] ++ newline_out)),
      cmd_cat-around name fd (answers ps) ∙ ap around e ∙ around-some out,
      ap (λ x. 13 ∷ 10 ∷ x) (joined-append out newline_out ∙ ap (λ x. x ++ codes "\r\n") t),
      refl,
    )
