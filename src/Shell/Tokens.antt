-- ===== src/Shell/Tokens.antt =====
-- The tokenizer of VinixOS/userspace/apps/shell/shell.c on a line of words with blanks around them.
use mathlib.Core.List.{append_assoc, append-nil}
use ref_arm_os.Base.{
  length, take, ℕ, zero, suc, ◌<◌, ◌≡◌, refl, sym, ap, ◌∙◌, true, false, List, [], ◌∷◌, ◌++◌, arith,
}
use ref_arm_os.Shell.Parse.{is_blank, skip_blanks, token, tokenize}

-- a word, and the blanks after it
abbrev pub Spelled : Type 0
Spelled = List (List ℕ × List ℕ)

abbrev pub line_of : Spelled → List ℕ
line_of [] = []
line_of ((w, g) ∷ is) = w ++ g ++ line_of is

abbrev pub words_of : Spelled → List (List ℕ)
words_of [] = []
words_of ((w, g) ∷ is) = w ∷ words_of is

abbrev pub AreBlank : List ℕ → Type 0
AreBlank [] = Unit
AreBlank (c ∷ g) = (is_blank c ≡ true) × AreBlank g

abbrev pub AreLetters : List ℕ → Type 0
AreLetters [] = Unit
AreLetters (c ∷ w) = ((is_blank c ≡ false) × (0 < c)) × AreLetters w

-- A word has a character, and neither a blank nor a NUL.
abbrev pub IsWord : List ℕ → Type 0
IsWord w = (0 < length w) × AreLetters w

-- Words with a blank at least between each two.
abbrev pub AreSpelled : Spelled → Type 0
AreSpelled [] = Unit
AreSpelled ((w, g) ∷ []) = IsWord w × AreBlank g
AreSpelled ((w, g) ∷ i ∷ is) = IsWord w × AreBlank g × (0 < length g) × AreSpelled (i ∷ is)

pub skip-blanks : (g p : List ℕ) → AreBlank g → skip_blanks (g ++ p) ≡ skip_blanks p
unfolding skip_blanks
skip-blanks [] p h = refl
skip-blanks (c ∷ g) p h = rw (h.0) (skip-blanks g p h.1)

-- a line of spelled words starts with a letter, or is empty
pub starts : (is : Spelled) → AreSpelled is → skip_blanks (line_of is) ≡ line_of is
unfolding skip_blanks
starts [] h = refl
starts (([], g) ∷ []) h = absurd (omega (arith, h.0.0))
starts (([], g) ∷ i ∷ is) h = absurd (omega (arith, h.0.0))
starts ((c ∷ w, g) ∷ []) h = rw (h.0.1.0.0) refl
starts ((c ∷ w, g) ∷ i ∷ is) h = rw (h.0.1.0.0) refl

token-word-end : (w : List ℕ) → AreLetters w → token w ≡ (w, [])
unfolding token
token-word-end [] h = refl
token-word-end (c ∷ w) h = rw (h.0.0, token-word-end w h.1) refl

token-word :
    (w : List ℕ) (b : ℕ) (q : List ℕ)
    → AreLetters w
    → is_blank b ≡ true
    → token (w ++ b ∷ q) ≡ (w, b ∷ q)
unfolding token
token-word [] b q h e = rw (e) refl
token-word (c ∷ w) b q h e = rw (h.0.0, token-word w b q h.1 e) refl

tokenize-nil : (room : ℕ) → tokenize room [] ≡ []
unfolding tokenize
tokenize-nil zero = refl
tokenize-nil (suc room) = refl

-- one turn of the loop, for a token that is known
tokenize-token :
    (room c : ℕ) (p tok rest : List ℕ)
    → token (c ∷ p) ≡ (tok, rest)
    → tokenize (suc room) (c ∷ p)
      ≡ elim rest [ [] ↦ tok ∷ [] | b ∷ q ↦ tok ∷ tokenize room (skip_blanks q) ]
unfolding tokenize
tokenize-token room c p tok rest e =
    ap
      (λ (t : List ℕ × List ℕ). elim t.1 as (λ x. List (List ℕ)) [
        | [] ↦ t.0 ∷ []
        | b ∷ q ↦ t.0 ∷ tokenize room (skip_blanks q)
      ])
      e

tokenize-step :
    (room : ℕ) (w : List ℕ) (b : ℕ) (q : List ℕ)
    → IsWord w
    → is_blank b ≡ true
    → tokenize (suc room) (w ++ b ∷ q) ≡ w ∷ tokenize room (skip_blanks q)
unfolding tokenize
tokenize-step room [] b q h e = absurd (omega (arith, h.0))
tokenize-step room (c ∷ w) b q h e =
    tokenize-token room c (w ++ b ∷ q) (c ∷ w) (b ∷ q) (token-word (c ∷ w) b q h.1 e)

tokenize-last :
    (room : ℕ) (w g : List ℕ) → IsWord w → AreBlank g → tokenize (suc room) (w ++ g) ≡ w ∷ []
unfolding tokenize skip_blanks
tokenize-last room [] g h e = absurd (omega (arith, h.0))
tokenize-last room (c ∷ w) [] h e =
    ap (λ t. tokenize (suc room) (c ∷ t)) (append-nil w)
    ∙ tokenize-token room c w (c ∷ w) [] (token-word-end (c ∷ w) h.1)
tokenize-last room (c ∷ w) (b ∷ g) h e =
    tokenize-step room (c ∷ w) b g h e.0
    ∙ ap (λ p. (c ∷ w) ∷ tokenize room p)
        (ap skip_blanks (sym (append-nil g)) ∙ skip-blanks g [] e.1)
    ∙ ap (λ t. (c ∷ w) ∷ t) (tokenize-nil room)

take-nil : (room : ℕ) → take {A = List ℕ} room [] ≡ []
take-nil zero = refl
take-nil (suc room) = refl

pub tokenize-words :
    (room : ℕ) (is : Spelled) → AreSpelled is → tokenize room (line_of is) ≡ take room (words_of is)
unfolding tokenize
tokenize-words zero is h = refl
tokenize-words (suc room) [] h = refl
tokenize-words (suc room) ((w, g) ∷ []) h =
    ap (λ t. tokenize (suc room) t) (append-nil (w ++ g))
    ∙ tokenize-last room w g h.0 h.1
    ∙ ap (λ t. w ∷ t) (sym (take-nil room))
tokenize-words (suc room) ((w, []) ∷ i ∷ is) (hw, hb, hg, hs) = absurd (omega (arith, hg))
tokenize-words (suc room) ((w, b ∷ g) ∷ i ∷ is) (hw, hb, hg, hs) =
    ap (λ t. tokenize (suc room) t) (append_assoc w (b ∷ g) (line_of (i ∷ is)))
    ∙ tokenize-step room w b (g ++ line_of (i ∷ is)) hw hb.0
    ∙ ap (λ p. w ∷ tokenize room p) (skip-blanks g (line_of (i ∷ is)) hb.1 ∙ starts (i ∷ is) hs)
    ∙ ap (λ t. w ∷ t) (tokenize-words room (i ∷ is) hs)
