-- ===== src/Shell/Fields.antt =====
-- What the conversions of `printf` in VinixOS/userspace/apps/shell/shell.c put into a field.
use mathlib.Core.List.{append-nil}
use mathlib.Core.Path.{ap₂}
use ref_arm_os.Base.{
  ◌==◌, if◌then◌else◌, Bool-cases, length, replicate, ℕ, zero, suc, ◌-◌, ◌/◌, ◌%◌, ◌^◌, ◌≤◌, ◌<◌,
  ◌≡◌, refl, ap, ◌∙◌, inl, inr, Bool, true, false, not, ◌&&◌, Option, some, List, [], ◌∷◌, ◌++◌,
  arith,
}
use ref_arm_os.Svc.{crlf}
use ref_arm_os.Print.Digits.{Reads, digit_char, digit_value, value, numeral, numeral-Reads}
use ref_arm_os.Shell.Output.{
  Field, Chunks, shell_puts, fill_tmp, uint_to_buf, pad_with, put_chars, in_field, convert,
}
use ref_arm_os.Print.{Arg, word, text, next_word, next_text, or_null}
use ref_arm_os.Shell.Chunks.{joined, joined-append, shell_puts-Chunks}

fill_tmp-numeral :
    (room base num : ℕ) (tmp : List ℕ) → fill_tmp room base num tmp ≡ numeral room base num tmp
unfolding fill_tmp numeral
fill_tmp-numeral zero base num tmp = refl
fill_tmp-numeral (suc room) base num tmp =
    rw (fill_tmp-numeral room base (num / base) (digit_char (num % base) ∷ tmp)) refl

-- the digits that `uint_to_buf` stores: they read back as the number and fit in `tmp`
pub uint_to_buf-Reads :
    (k num base : ℕ)
    → 0 < k
    → k ≤ 12
    → 2 ≤ base
    → base ≤ 16
    → num < base ^ k
    → (ds : List ℕ) × (uint_to_buf num base ≡ some ds) × (value base 0 ds ≡ num) × (length ds ≤ k)
unfolding uint_to_buf value digit_value
uint_to_buf-Reads k num base p room l u h = elim (Bool-cases (num == 0)) [
  | inl z ↦ rw (z) (48 ∷ [], refl, ground arith, omega arith)
  | inr z ↦
      let v : Reads base num k [] (numeral 12 base num []) =
        numeral-Reads k 12 base num [] room l u h in
      rw (z) (
        v.digits,
        fill_tmp-numeral 12 base num [] ∙ v.made ∙ ap some (append-nil v.digits),
        v.reads,
        v.short,
      )
]

joined-pad_with : (c n : ℕ) → joined (pad_with c n) ≡ replicate n c
unfolding pad_with
joined-pad_with c zero = refl
joined-pad_with c (suc n) = ap (λ t. c ∷ t) (joined-pad_with c n)

joined-put_chars : (cs : List ℕ) → joined (put_chars cs) ≡ cs
unfolding put_chars
joined-put_chars [] = refl
joined-put_chars (c ∷ cs) = ap (λ t. c ∷ t) (joined-put_chars cs)

-- `shown` in a field, for a text of `len` characters
abbrev pub field : (left : Bool) (pad columns len : ℕ) → List ℕ → List ℕ
field left pad columns len shown =
    if left then shown ++ replicate (columns - len) 32 else replicate (columns - len) pad ++ shown

pub joined-in_field :
    (left : Bool) (pad columns len : ℕ) (body : Chunks) (shown : List ℕ)
    → joined body ≡ shown
    → joined (in_field left pad columns len body) ≡ field left pad columns len shown
unfolding in_field
joined-in_field true pad columns len body shown e =
    joined-append body (pad_with 32 (columns - len))
    ∙ ap₂ (λ x y. x ++ y) e (joined-pad_with 32 (columns - len))
joined-in_field false pad columns len body shown e =
    ap joined (append-nil (pad_with pad (columns - len) ++ body))
    ∙ joined-append (pad_with pad (columns - len)) body
    ∙ ap₂ (λ x y. x ++ y) (joined-pad_with pad (columns - len)) e

-- For every field and every word: `%d` and `%x` print, in the field, the digits that read back as the
-- word in base 10 or 16, at most ten and at most eight of them, `%d` with blanks and `%x` with zeros
-- where the flag asks for them and the field is not aligned to the left; `%s` prints its string, or
-- "(null)", with its newlines expanded, in a field that counts the characters of the string. Each
-- takes one argument.
pub convert-Field :
    (f : Field) (w : ℕ) (s : Option (List ℕ)) (args : List Arg)
    → w < 2 ^ 32
    → ((ds : List ℕ) × (out : Chunks) × (convert f 100 (word w ∷ args) ≡ some (out, args))
        × (joined out ≡ field f.left_align 32 f.columns (length ds) ds)
        × (value 10 0 ds ≡ w)
        × (length ds ≤ 10))
      × ((ds : List ℕ) × (out : Chunks) × (convert f 120 (word w ∷ args) ≡ some (out, args))
          × (joined out
              ≡ field f.left_align
                  (if f.zero_pad && not f.left_align then 48 else 32)
                  f.columns
                  (length ds)
                  ds)
          × (value 16 0 ds ≡ w)
          × (length ds ≤ 8))
      × ((out : Chunks) × (convert f 115 (text s ∷ args) ≡ some (out, args))
          × (joined out ≡ field f.left_align 32 f.columns (length (or_null s)) (crlf (or_null s))))
unfolding convert next_word next_text
convert-Field f w s args h =
    let (ds, e, v, l) =
      uint_to_buf-Reads 10 w 10 (omega arith) (omega arith) (omega arith) (omega arith)
        (omega arith) in
    let (hs, g, x, m) =
      uint_to_buf-Reads 8 w 16 (omega arith) (omega arith) (omega arith) (omega arith)
        (omega arith) in
    let zeros : ℕ = if f.zero_pad && not f.left_align then 48 else 32 in
    (
      (
        ds,
        in_field f.left_align 32 f.columns (length ds) (put_chars ds),
        rw (e) refl,
        joined-in_field f.left_align 32 f.columns (length ds) (put_chars ds) ds
            (joined-put_chars ds),
        v,
        l,
      ),
      (
        hs,
        in_field f.left_align zeros f.columns (length hs) (put_chars hs),
        rw (g) refl,
        joined-in_field f.left_align zeros f.columns (length hs) (put_chars hs) hs
            (joined-put_chars hs),
        x,
        m,
      ),
      (
        in_field f.left_align 32 f.columns (length (or_null s)) (shell_puts (or_null s)),
        refl,
        joined-in_field f.left_align 32 f.columns (length (or_null s)) (shell_puts (or_null s))
            (crlf (or_null s)) ((shell_puts-Chunks (or_null s)).0),
      ),
    )
