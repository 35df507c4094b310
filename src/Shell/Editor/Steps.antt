-- ===== src/Shell/Editor/Steps.antt =====
-- Every pass of the main loop of VinixOS/userspace/apps/shell/shell.c against a step of the plain text.
use mathlib.Core.Path.{ap₂}
use ref_arm_os.Base.{
  ltb, leb, ◌==◌, if◌then◌else◌, Bool-cases, length, take, pos, negsuc, is_zero, ℕ, ◌<◌, ◌≡◌, refl,
  sym, ap, ◌∙◌, inl, inr, true, false, ◌&&◌, ◌||◌, Option, none, some, List, [], ◌∷◌, ◌++◌, arith,
}
use ref_arm_os.Shell.Output.{shell_putc}
use ref_arm_os.Shell.Line.{
  Line, Act, writes, executes, yields, line_buffer_add, line_buffer_backspace, main_char, main_pass,
  main_loop,
}
use ref_arm_os.Shell.Editor.{
  IsLine, Holds, typed, c_string-take, drop_last, edit, submitted, executed, init-Holds,
  length-typed, add-Holds, backspace-Holds,
}

-- what a step leaves: the lines that it executed, and the text
record Follows (acts : List Act) (b : Line) (lines : List (List ℕ)) (t : List ℕ) : Type 0 where
  lines_eq : executed acts ≡ lines
  next : Holds b t

same_text : (b : Line) → IsLine b → Follows [] b [] (typed b)
same_text b w = record { lines_eq = refl; next = record { is_line = w; text_eq = refl } }

add_code : (c : ℕ) (b : Line) → leb 127 b.line_pos ≡ false → (line_buffer_add c b).0 ≡ pos 0
unfolding line_buffer_add
add_code c b e = rw (e) refl

add_full : (c : ℕ) (b : Line) → leb 127 b.line_pos ≡ true → line_buffer_add c b ≡ (negsuc 0, b)
unfolding line_buffer_add
add_full c b e = rw (e) refl

back_code : (b : Line) → ltb 0 b.line_pos ≡ true → (line_buffer_backspace b).0 ≡ pos 0
unfolding line_buffer_backspace
back_code b e = rw (e) refl

back_empty : (b : Line) → ltb 0 b.line_pos ≡ false → line_buffer_backspace b ≡ (negsuc 0, b)
unfolding line_buffer_backspace
back_empty b e = rw (e) refl

-- the part of the loop for a backspace, and the one for a character
abbrev after_back : Line → List Act × Line
after_back b =
    let (e, b') = line_buffer_backspace b in
    if is_zero e
    then (writes (shell_putc 8 ++ shell_putc 32 ++ shell_putc 8) ∷ [], b')
    else ([], b')

abbrev after_add : ℕ → Line → List Act × Line
after_add c b =
    let (e, b') = line_buffer_add c b in
    if is_zero e then (writes (shell_putc c) ∷ [], b') else (writes (shell_putc 7) ∷ [], b')

after_back-Follows :
    (b : Line) → IsLine b → Follows (after_back b).0 (after_back b).1 [] (drop_last (typed b))
after_back-Follows b w = elim (Bool-cases (ltb 0 b.line_pos)) [
  | inl e ↦ rw (back_code b e) (record { lines_eq = refl; next = backspace-Holds b w e })
  | inr e ↦
      let empty : b.line_pos ≡ 0 = ground arith in
      let nothing : drop_last (typed b) ≡ typed b =
        ap (λ n. drop_last (take n b.bytes)) empty ∙ ap (λ n. take n b.bytes) (sym empty) in
      rw (back_empty b e)
        (record { lines_eq = refl; next = record { is_line = w; text_eq = sym nothing } })
]

after_add-Follows :
    (c : ℕ) (b : Line)
    → IsLine b
    → 0 < c
    → Follows
        (after_add c b).0
        (after_add c b).1
        []
        (if ltb (length (typed b)) 127 then typed b ++ c ∷ [] else typed b)
after_add-Follows c b w p = elim (Bool-cases (leb 127 b.line_pos)) [
  | inl e ↦
      let full : ltb (length (typed b)) 127 ≡ false = ground (arith, length-typed b w) in
      rw (add_full c b e, full)
        (record { lines_eq = refl; next = record { is_line = w; text_eq = refl } })
  | inr e ↦
      let room : ltb (length (typed b)) 127 ≡ true = ground (arith, length-typed b w) in
      rw (add_code c b e, room) (record { lines_eq = refl; next = add-Holds c b w p e })
]

main_char-Follows :
    (c : ℕ) (b : Line)
    → IsLine b
    → Follows (main_char c b).0 (main_char c b).1 (edit c (typed b)).0 (edit c (typed b)).1
unfolding main_char
main_char-Follows c b w = elim (Bool-cases (c == 13 || c == 10)) [
  | inl e ↦ rw (e) (record {
    lines_eq = ap (λ t. t ∷ []) (c_string-take b.line_pos b.bytes w.ended w.letters);
    next = init-Holds b w.size;
  })
  | inr e ↦ elim (Bool-cases (c == 8 || c == 127)) [
    | inl f ↦ rw (e, f) (after_back-Follows b w)
    | inr f ↦ elim (Bool-cases (leb 32 c && leb c 126)) [
      | inl g ↦ rw (e, f, g) (after_add-Follows c b w (ground arith))
      | inr g ↦ rw (e, f, g) (same_text b w)
    ]
  ]
]

executed-append : (xs ys : List Act) → executed (xs ++ ys) ≡ executed xs ++ executed ys
executed-append [] ys = refl
executed-append (writes out ∷ xs) ys = executed-append xs ys
executed-append (executes line ∷ xs) ys = ap (λ t. line ∷ t) (executed-append xs ys)
executed-append (yields ∷ xs) ys = executed-append xs ys

-- For every sequence of reads, with and without a character, from a line buffer that is well formed,
-- the shell executes the lines that the plain text submits, in the same order: a character from 32 to
-- 126 goes to the end of a text shorter than 127, a backspace takes the last one off, and a return
-- submits the text and starts an empty one. The line buffer is well formed at the end.
pub main_loop-Editor :
    (rs : List (Option ℕ)) (b : Line)
    → IsLine b
    → (executed (main_loop rs b).0 ≡ submitted rs (typed b)) × IsLine (main_loop rs b).1
unfolding main_loop main_pass
main_loop-Editor [] b w = (refl, w)
main_loop-Editor (none ∷ rs) b w = main_loop-Editor rs b w
main_loop-Editor (some c ∷ rs) b w =
    let f : Follows (main_char c b).0 (main_char c b).1 (edit c (typed b)).0 (edit c (typed b)).1 =
      main_char-Follows c b w in
    let (later, good) = main_loop-Editor rs (main_char c b).1 f.next.is_line in
    (
      executed-append (main_char c b).0 (main_loop rs (main_char c b).1).0
          ∙ ap₂ (λ x y. x ++ y) f.lines_eq (later ∙ ap (submitted rs) f.next.text_eq),
      good,
    )
