-- ===== src/Shell/Editor.antt =====
-- The line buffer of VinixOS/userspace/apps/shell/shell.c against a plain text that grows at its end.
pub mod Steps
use mathlib.Core.Option.{some-injective}
use mathlib.Core.Path.{subst}
use ref_arm_os.Base.{
  ltb, leb, ◌==◌, if◌then◌else◌, length, get_elem?, set, length-set, get_elem?-set_self, take,
  length-take, ℕ, zero, suc, ◌+◌, ◌-◌, ◌≤◌, ◌<◌, ◌≡◌, refl, sym, ap, ◌∙◌, true, false, ◌&&◌, ◌||◌,
  Option, none, some, List, [], ◌∷◌, ◌++◌, arith,
}
use ref_arm_os.Shell.Line.{
  Line, Act, writes, executes, yields, line_buffer_size, line_buffer_init, line_buffer_add,
  line_buffer_backspace, c_string,
}

abbrev pub NoNul : List ℕ → Type 0
NoNul [] = Unit
NoNul (c ∷ cs) = (0 < c) × NoNul cs

-- the characters typed so far
abbrev pub typed : Line → List ℕ
typed b = take b.line_pos b.bytes

-- The buffer has its size, and a NUL in it ends the characters typed.
pub record IsLine (b : Line) : Type 0 where
  pub size : length b.bytes ≡ line_buffer_size
  pub inside : b.line_pos < line_buffer_size
  pub ended : get_elem? b.bytes b.line_pos ≡ some 0
  pub letters : NoNul (typed b)

module _ {ℓ} {A : Type ℓ} where
  take-set : (n i : ℕ) (xs : List A) (v : A) → n ≤ i → take n (set xs i v) ≡ take n xs
  take-set zero i xs v h = refl
  take-set (suc n) i [] v h = refl
  take-set (suc n) zero (x ∷ xs) v h = absurd (omega arith)
  take-set (suc n) (suc i) (x ∷ xs) v h = ap (λ t. x ∷ t) (take-set n i xs v (omega arith))

  take-set_last :
      (n : ℕ) (xs : List A) (v : A)
      → n < length xs
      → take (suc n) (set xs n v) ≡ take n xs ++ v ∷ []
  take-set_last n [] v h = absurd (omega arith)
  take-set_last zero (x ∷ xs) v h = refl
  take-set_last (suc n) (x ∷ xs) v h = ap (λ t. x ∷ t) (take-set_last n xs v (omega arith))

  take-take : (m n : ℕ) (xs : List A) → m ≤ n → take m (take n xs) ≡ take m xs
  take-take zero n xs h = refl
  take-take (suc m) zero xs h = absurd (omega arith)
  take-take (suc m) (suc n) [] h = refl
  take-take (suc m) (suc n) (x ∷ xs) h = ap (λ t. x ∷ t) (take-take m n xs (omega arith))

NoNul-append : (xs : List ℕ) (c : ℕ) → NoNul xs → 0 < c → NoNul (xs ++ c ∷ [])
NoNul-append [] c p h = (h, tt)
NoNul-append (x ∷ xs) c p h = (p.0, NoNul-append xs c p.1 h)

NoNul-take : (n : ℕ) (xs : List ℕ) → NoNul xs → NoNul (take n xs)
NoNul-take zero xs p = tt
NoNul-take (suc n) [] p = tt
NoNul-take (suc n) (x ∷ xs) p = (p.0, NoNul-take n xs p.1)

pub c_string-take :
    (n : ℕ) (xs : List ℕ) → get_elem? xs n ≡ some 0 → NoNul (take n xs) → c_string xs ≡ take n xs
unfolding c_string
c_string-take n [] e p = absurd (ground arith)
c_string-take zero (x ∷ xs) e p =
    let nul : (x == 0) ≡ true = ground (arith, some-injective x 0 e) in rw (nul) refl
c_string-take (suc n) (x ∷ xs) e p =
    let more : (x == 0) ≡ false = ground (arith, p.0) in
    rw (more) (ap (λ t. x ∷ t) (c_string-take n xs e p.1))

-- The plain text: what a character makes of it, and the line that it submits, if any.
abbrev pub drop_last : List ℕ → List ℕ
drop_last t = take (length t - 1) t

abbrev pub edit : ℕ → List ℕ → List (List ℕ) × List ℕ
edit c t =
    if c == 13 || c == 10
    then (t ∷ [], [])
    else if c == 8 || c == 127
    then ([], drop_last t)
    else if leb 32 c && leb c 126
    then ([], if ltb (length t) 127 then t ++ c ∷ [] else t)
    else ([], t)

abbrev pub submitted : List (Option ℕ) → List ℕ → List (List ℕ)
submitted [] t = []
submitted (none ∷ rs) t = submitted rs t
submitted (some c ∷ rs) t = (edit c t).0 ++ submitted rs (edit c t).1

-- the lines that the acts of a loop execute
abbrev pub executed : List Act → List (List ℕ)
executed [] = []
executed (writes out ∷ acts) = executed acts
executed (executes line ∷ acts) = line ∷ executed acts
executed (yields ∷ acts) = executed acts

-- `b` is a line buffer that holds the text `t`.
pub record Holds (b : Line) (t : List ℕ) : Type 0 where
  pub is_line : IsLine b
  pub text_eq : typed b ≡ t

holds :
    (bs : List ℕ) (n : ℕ) (t : List ℕ)
    → length bs ≡ line_buffer_size
    → n < line_buffer_size
    → get_elem? bs n ≡ some 0
    → NoNul t
    → take n bs ≡ t
    → Holds (record { bytes = bs; line_pos = n }) t
holds bs n t l h e p q = record {
  is_line = record { size = l; inside = h; ended = e; letters = subst NoNul (sym q) p };
  text_eq = q;
}

pub init-Holds : (b : Line) → length b.bytes ≡ line_buffer_size → Holds (line_buffer_init b) []
unfolding line_buffer_init
init-Holds b h =
    holds (set b.bytes 0 0) 0 [] (length-set b.bytes 0 0 ∙ h) (omega arith)
      (get_elem?-set_self b.bytes 0 0 (omega arith)) tt refl

pub length-typed : (b : Line) → IsLine b → length (typed b) ≡ b.line_pos
length-typed b w = omega (arith, length-take b.line_pos b.bytes, w.size, w.inside)

pub add-Holds :
    (c : ℕ) (b : Line)
    → IsLine b
    → 0 < c
    → leb 127 b.line_pos ≡ false
    → Holds (line_buffer_add c b).1 (typed b ++ c ∷ [])
unfolding line_buffer_add
add-Holds c b w p e =
    let n : ℕ = b.line_pos in
    let stored : List ℕ = set b.bytes n c in
    let length_stored : length stored ≡ line_buffer_size = length-set b.bytes n c ∙ w.size in
    let room : n < 127 = ground arith in
    let next : n + 1 ≡ suc n = omega arith in
    rw (e) (
      holds (set stored (n + 1) 0) (n + 1) (typed b ++ c ∷ [])
        (length-set stored (n + 1) 0 ∙ length_stored) (omega arith)
        (get_elem?-set_self stored (n + 1) 0 (omega arith)) (NoNul-append (typed b) c w.letters p)
        (take-set (n + 1) (n + 1) stored 0 (omega arith)
          ∙ ap (λ k. take k stored) next
          ∙ take-set_last n b.bytes c (omega (arith, w.size))))

pub backspace-Holds :
    (b : Line)
    → IsLine b
    → ltb 0 b.line_pos ≡ true
    → Holds (line_buffer_backspace b).1 (drop_last (typed b))
unfolding line_buffer_backspace
backspace-Holds b w e =
    let n : ℕ = b.line_pos in
    let some_typed : 0 < n = ground arith in
    rw (e) (
      holds (set b.bytes (n - 1) 0) (n - 1) (drop_last (typed b))
        (length-set b.bytes (n - 1) 0 ∙ w.size) (omega (arith, w.inside))
        (get_elem?-set_self b.bytes (n - 1) 0 (omega (arith, w.size, w.inside)))
        (NoNul-take (length (typed b) - 1) (typed b) w.letters)
        (take-set (n - 1) (n - 1) b.bytes 0 (omega arith)
          ∙ sym (take-take (n - 1) n b.bytes (omega arith))
          ∙ ap (λ k. take (k - 1) (typed b)) (sym (length-typed b w))))
