-- ===== src/Shell/Chunks.antt =====
-- What `shell_puts` of VinixOS/userspace/apps/shell/shell.c hands to the system call: the text with
-- its newlines expanded, cut into pieces that the call accepts.
use mathlib.Core.List.{append_assoc, append-nil}
use ref_arm_os.Base.{
  leb, ◌==◌, if◌then◌else◌, Bool-cases, length, length-append, ℕ, ◌≤◌, ◌<◌, ◌≡◌, refl, sym, ap, ◌∙◌,
  inl, inr, List, [], ◌∷◌, ◌++◌, arith,
}
use ref_arm_os.Svc.{crlf}
use ref_arm_os.Shell.Output.{Chunks, shell_putc, flush, puts_loop, shell_puts}

abbrev pub joined : Chunks → List ℕ
joined [] = []
joined (b ∷ bs) = b ++ joined bs

-- every buffer has between one byte and 64
abbrev pub AreBuffers : Chunks → Type 0
AreBuffers [] = Unit
AreBuffers (b ∷ bs) = ((0 < length b) × (length b ≤ 64)) × AreBuffers bs

pub joined-append : (xs ys : Chunks) → joined (xs ++ ys) ≡ joined xs ++ joined ys
joined-append [] ys = refl
joined-append (x ∷ xs) ys = rw (joined-append xs ys) (sym (append_assoc x (joined xs) (joined ys)))

AreBuffers-append : (xs ys : Chunks) → AreBuffers xs → AreBuffers ys → AreBuffers (xs ++ ys)
AreBuffers-append [] ys p q = q
AreBuffers-append (x ∷ xs) ys p q = (p.0, AreBuffers-append xs ys p.1 q)

joined-flush : (buf : List ℕ) → joined (flush buf) ≡ buf
joined-flush [] = refl
joined-flush (c ∷ buf) = append-nil (c ∷ buf)

flush-AreBuffers : (buf : List ℕ) → length buf ≤ 64 → AreBuffers (flush buf)
flush-AreBuffers [] h = tt
flush-AreBuffers (c ∷ buf) h = ((omega arith, h), tt)

-- the buffer after a character went in
abbrev emptied : List ℕ → Chunks
emptied filled = if leb 64 (length filled) then filled ∷ [] else []

abbrev kept : List ℕ → List ℕ
kept filled = if leb 64 (length filled) then [] else filled

joined-full : (filled : List ℕ) → joined (emptied filled) ++ kept filled ≡ filled
joined-full filled = elim (Bool-cases (leb 64 (length filled))) [
  | inl e ↦ rw (e) (append-nil (filled ++ []) ∙ append-nil filled)
  | inr e ↦ rw (e) refl
]

kept-room : (filled : List ℕ) → length (kept filled) < 64
kept-room filled = ground arith

emptied-AreBuffers : (filled : List ℕ) → length filled ≤ 64 → AreBuffers (emptied filled)
emptied-AreBuffers filled h = elim (Bool-cases (leb 64 (length filled))) [
  | inl e ↦ rw (e) ((ground arith, h), tt)
  | inr e ↦ rw (e) tt
]

-- one turn of the loop without the newline's part
joined-turn :
    (filled out : List ℕ) (rest : Chunks)
    → joined rest ≡ kept filled ++ out
    → joined (emptied filled ++ rest) ≡ filled ++ out
joined-turn filled out rest e =
    joined-append (emptied filled) rest
    ∙ ap (λ t. joined (emptied filled) ++ t) e
    ∙ sym (append_assoc (joined (emptied filled)) (kept filled) out)
    ∙ ap (λ t. t ++ out) (joined-full filled)

newline : (buf : List ℕ) → joined (flush buf ++ shell_putc 13 ++ []) ≡ buf ++ 13 ∷ []
newline buf =
    ap joined (append-nil (flush buf ++ shell_putc 13))
    ∙ joined-append (flush buf) (shell_putc 13)
    ∙ ap (λ t. t ++ 13 ∷ []) (joined-flush buf)

puts_loop-joined : (s buf : List ℕ) → joined (puts_loop buf s) ≡ buf ++ crlf s
unfolding puts_loop crlf
puts_loop-joined [] buf = joined-flush buf ∙ sym (append-nil buf)
puts_loop-joined (c ∷ s) buf = elim (Bool-cases (c == 10)) [
  | inl e ↦ rw (e) (
      joined-append (flush buf ++ shell_putc 13 ++ []) (puts_loop (c ∷ []) s)
      ∙ ap (λ t. t ++ joined (puts_loop (c ∷ []) s)) (newline buf)
      ∙ ap (λ t. buf ++ 13 ∷ [] ++ t) (puts_loop-joined s (c ∷ []))
      ∙ append_assoc buf (13 ∷ []) (c ∷ crlf s))
  | inr e ↦ rw (e) (
      joined-turn (buf ++ c ∷ []) (crlf s) (puts_loop (kept (buf ++ c ∷ [])) s)
        (puts_loop-joined s (kept (buf ++ c ∷ [])))
      ∙ append_assoc buf (c ∷ []) (crlf s))
]

puts_loop-AreBuffers : (s buf : List ℕ) → length buf < 64 → AreBuffers (puts_loop buf s)
unfolding puts_loop
puts_loop-AreBuffers [] buf h = flush-AreBuffers buf (omega arith)
puts_loop-AreBuffers (c ∷ s) buf h = elim (Bool-cases (c == 10)) [
  | inl e ↦ rw (e) (
      AreBuffers-append (flush buf ++ shell_putc 13 ++ []) (puts_loop (c ∷ []) s)
        (AreBuffers-append (flush buf ++ shell_putc 13) []
          (AreBuffers-append (flush buf) (shell_putc 13) (flush-AreBuffers buf (omega arith))
            ((omega arith, omega arith), tt))
          tt)
        (puts_loop-AreBuffers s (c ∷ []) (omega arith)))
  | inr e ↦ rw (e) (
      AreBuffers-append (emptied (buf ++ c ∷ [])) (puts_loop (kept (buf ++ c ∷ [])) s)
        (emptied-AreBuffers (buf ++ c ∷ []) (omega (arith, length-append buf (c ∷ []))))
        (puts_loop-AreBuffers s (kept (buf ++ c ∷ [])) (kept-room (buf ++ c ∷ []))))
]

-- For every text, the buffers that `shell_puts` hands to `sys_write` hold, one after the other, the
-- text with a carriage return before each newline, and each holds between one byte and 64, so that
-- the limit of the call on a length is never met.
pub shell_puts-Chunks : (s : List ℕ) → (joined (shell_puts s) ≡ crlf s) × AreBuffers (shell_puts s)
unfolding shell_puts
shell_puts-Chunks s = (puts_loop-joined s [], puts_loop-AreBuffers s [] (omega arith))
