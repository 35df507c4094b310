-- ===== src/Shell/Words.antt =====
-- The command that a line of words runs, in VinixOS/userspace/apps/shell/shell.c.
use mathlib.Core.Option.{some-injective}
use mathlib.Core.Path.{subst, ap₂}
use ref_arm_os.Base.{
  ◌==◌, if◌then◌else◌, Bool-cases, get_elem?, take, is_zero, sub_ℕ, ℕ, zero, suc, ◌+◌, ◌<◌, ◌≡◌,
  refl, sym, ap, ◌∙◌, ◌≢◌, inl, inr, true, false, Option, none, some, List, [], ◌∷◌, ◌++◌, arith,
}
use ref_arm_os.Shell.Parse.{
  Execution, nothing_typed, runs, unknown, max_args, skip_blanks, strcmp, cmd_table, find_command,
  dispatch_args, execute_command,
}
use ref_arm_os.Shell.Tokens.{
  Spelled, line_of, words_of, AreBlank, AreLetters, IsWord, AreSpelled, skip-blanks, starts,
  tokenize-words,
}

-- a table searched from place `i` on
abbrev Found : List (List ℕ) → ℕ → List ℕ → Option ℕ → Type 0
Found table i cmd none = (j : ℕ) → get_elem? table j ≢ some cmd
Found table i cmd (some k) =
    (j : ℕ) × (k ≡ i + j)
    × (get_elem? table j ≡ some cmd)
    × ((j' : ℕ) → j' < j → get_elem? table j' ≢ some cmd)

no_difference : (c d : ℕ) → (c == d) ≡ false → is_zero (sub_ℕ c d) ≡ true → ⊥
no_difference c d h e = ground arith

strcmp-equal : (s t : List ℕ) → AreLetters s → AreLetters t → is_zero (strcmp s t) ≡ true → s ≡ t
unfolding strcmp
strcmp-equal [] [] p q e = refl
strcmp-equal [] (d ∷ t) p q e = absurd (ground (arith, q.0.1))
strcmp-equal (c ∷ s) [] p q e = absurd (ground (arith, p.0.1))
strcmp-equal (c ∷ s) (d ∷ t) p q e = elim (Bool-cases (c == d)) [
  | inl same ↦
      ap₂ (λ x y. x ∷ y) (ground arith)
        (strcmp-equal s t p.1 q.1
          (subst (λ x. is_zero (if x then strcmp s t else sub_ℕ c d) ≡ true) same e))
  | inr other ↦ absurd (
      no_difference c d other
        (subst (λ x. is_zero (if x then strcmp s t else sub_ℕ c d) ≡ true) other e))
]

strcmp_self : (s : List ℕ) → is_zero (strcmp s s) ≡ true
unfolding strcmp
strcmp_self [] = refl
strcmp_self (c ∷ s) = let same : (c == c) ≡ true = ground arith in rw (same) (strcmp_self s)

abbrev AllLetters : List (List ℕ) → Type 0
AllLetters [] = Unit
AllLetters (n ∷ ns) = AreLetters n × AllLetters ns

module _ (name cmd : List ℕ) (table : List (List ℕ)) (ne : name ≢ cmd) where
  none_later :
      ((j : ℕ) → get_elem? table j ≢ some cmd) → (j : ℕ) → get_elem? (name ∷ table) j ≢ some cmd
  none_later f zero = λ e. ne (some-injective name cmd e)
  none_later f (suc j) = f j

  none_before :
      (n : ℕ)
      → ((j : ℕ) → j < n → get_elem? table j ≢ some cmd)
      → (j : ℕ) → j < suc n
      → get_elem? (name ∷ table) j ≢ some cmd
  none_before n f zero h = λ e. ne (some-injective name cmd e)
  none_before n f (suc j) h = f j (omega arith)

  later-Found : (i : ℕ) (o : Option ℕ) → Found table (i + 1) cmd o → Found (name ∷ table) i cmd o
  later-Found i none f = none_later f
  later-Found i (some k) (j, a, b, c) = (suc j, omega arith, b, none_before j c)

strcmp-differ : (n c : List ℕ) → is_zero (strcmp n c) ≡ false → n ≢ c
strcmp-differ n c e same =
    let zero_code : is_zero (strcmp n c) ≡ true =
      ap (λ x. is_zero (strcmp n x)) (sym same) ∙ strcmp_self n in
    ground arith

no_entry : (j : ℕ) (cmd : List ℕ) → get_elem? {A = List ℕ} [] j ≢ some cmd
no_entry j cmd e = ground arith

find_command-Found :
    (table : List (List ℕ)) (i : ℕ) (cmd : List ℕ)
    → AllLetters table
    → AreLetters cmd
    → Found table i cmd (find_command table i cmd)
unfolding find_command
find_command-Found [] i cmd p q = λ j. no_entry j cmd
find_command-Found (name ∷ table) i cmd p q = elim (Bool-cases (is_zero (strcmp name cmd))) [
  | inl e ↦
      rw (e) (0, omega arith, ap some (strcmp-equal name cmd p.0 q e), λ j' h. absurd (omega arith))
  | inr e ↦ rw (e) (
      later-Found name cmd table (strcmp-differ name cmd e) i (find_command table (i + 1) cmd)
        (find_command-Found table (i + 1) cmd p.1 q))
]

first-IsWord : (w g : List ℕ) (is : Spelled) → AreSpelled ((w, g) ∷ is) → IsWord w
first-IsWord w g [] h = h.0
first-IsWord w g (i ∷ is) h = h.0

-- What a line with the words `ws` is answered with.
abbrev pub Answers : List (List ℕ) → Execution → Type 0
Answers [] r = r ≡ nothing_typed
Answers (w ∷ ws) nothing_typed = ⊥
Answers (w ∷ ws) (runs i args) =
    (args ≡ take max_args (w ∷ ws))
    × (get_elem? cmd_table i ≡ some w)
    × ((j : ℕ) → j < i → get_elem? cmd_table j ≢ some w)
Answers (w ∷ ws) (unknown cmd) = (cmd ≡ w) × ((j : ℕ) → get_elem? cmd_table j ≢ some w)

cmd_table-AllLetters : AllLetters cmd_table
cmd_table-AllLetters = ground arith

dispatch_args-Answers :
    (w : List ℕ) (ws : List (List ℕ))
    → AreLetters w
    → Answers (w ∷ ws) (dispatch_args (take max_args (w ∷ ws)))
unfolding dispatch_args
dispatch_args-Answers w ws h =
    by_search (find_command cmd_table 0 w) (find_command-Found cmd_table 0 w cmd_table-AllLetters h)
  where
    by_search :
        (o : Option ℕ)
        → Found cmd_table 0 w o
        → Answers (w ∷ ws) (elim o [ none ↦ unknown w | some i ↦ runs i (take max_args (w ∷ ws)) ])
    by_search none f = (refl, f)
    by_search (some k) (j, a, b, c) =
        let here : j ≡ k = omega arith in
        let (at_k, none_before_k) =
          subst
            (λ n.
              (get_elem? cmd_table n ≡ some w) × ((x : ℕ) → x < n → get_elem? cmd_table x ≢ some w))
            here (b, c) in
        (refl, at_k, none_before_k)

-- For every line of words with blanks around them, a blank or more between each two: an empty line
-- is answered at once; any other one runs, with its first eight words as arguments, the first entry
-- of the table whose name is the first word, or is reported by its first word when there is none.
pub execute_command-Words :
    (g : List ℕ) (is : Spelled)
    → AreBlank g
    → AreSpelled is
    → Answers (words_of is) (execute_command (g ++ line_of is))
unfolding execute_command
execute_command-Words g [] hg h = rw (execute_command, skip-blanks g [] hg) refl
execute_command-Words g (([], gap) ∷ is) hg h = absurd (omega (arith, (first-IsWord [] gap is h).0))
execute_command-Words g ((c ∷ w, gap) ∷ is) hg h =
    let skipped : skip_blanks (g ++ line_of ((c ∷ w, gap) ∷ is)) ≡ line_of ((c ∷ w, gap) ∷ is) =
      skip-blanks g _ hg ∙ starts ((c ∷ w, gap) ∷ is) h in
    subst (Answers (words_of ((c ∷ w, gap) ∷ is)))
      (sym (
        rw (execute_command, skipped)
          (ap dispatch_args (tokenize-words max_args ((c ∷ w, gap) ∷ is) h))))
      (dispatch_args-Answers (c ∷ w) (words_of is) (first-IsWord (c ∷ w) gap is h).1)
