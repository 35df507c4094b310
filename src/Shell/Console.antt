-- ===== src/Shell/Console.antt =====
-- From `shell_puts` of VinixOS/userspace/apps/shell/shell.c to the UART: every buffer is written to
-- the stack of the task and goes through the system call.
use mathlib.Core.List.{append_assoc, append-nil}
use ref_arm_os.Base.{
  ltb, ◌==◌, Bool-cases, ◌>>=◌, length, pos, to_i32, to_u32, ℕ, zero, suc, ◌+◌, ◌≤◌, ◌<◌, ◌≡◌, refl,
  sym, ap, ◌∙◌, inl, inr, true, false, Option, some, List, [], ◌∷◌, ◌++◌, arith,
}
use ref_arm_os.Memory.{Memory, store}
use ref_arm_os.User.{user_start, user_end, validate_user_pointer, is_ok}
use ref_arm_os.Svc.{Image, Kernel, Ctx, done, bytes_at, crlf, user_buffer, sys_write}
use ref_arm_os.Svc.Console.{range-ok}
use ref_arm_os.Calls.{ret, user_write}
use ref_arm_os.Calls.Handlers.{answered, entry, wrappers-Handlers}
use ref_arm_os.Shell.Output.{Chunks, shell_puts}
use ref_arm_os.Shell.Chunks.{joined, AreBuffers, shell_puts-Chunks}

-- `buf[i] = c` for each character of a buffer at `p`
unfoldable pub store_chars : (p : ℕ) → List ℕ → Memory → Memory
store_chars p [] m = m
store_chars p (c ∷ cs) m = store (store_chars (p + 1) cs m) p c

module _ (im : Image) (regs : Ctx) (buf : ℕ) where
  -- The calls in order, each after its buffer was filled; `none` where one does not come back.
  unfoldable pub send : Chunks → Kernel → Option Kernel
  send [] k = some k
  send (b ∷ bs) k = do
    (code, k') ←
        ret (user_write im regs buf (length b) (record k { mem = store_chars buf b k.mem }))
    send bs k'

bytes_at-below :
    (n p q : ℕ) (m : Memory) (c : ℕ) → q < p → bytes_at (store m q c) p n ≡ bytes_at m p n
bytes_at-below zero p q m c h = refl
bytes_at-below (suc n) p q m c h =
    let other : (p == q) ≡ false = ground arith in
    rw (other) (ap (λ t. m p ∷ t) (bytes_at-below n (p + 1) q m c (omega arith)))

bytes_at-store_chars :
    (b : List ℕ) (p : ℕ) (m : Memory) → bytes_at (store_chars p b m) p (length b) ≡ b
unfolding store_chars
bytes_at-store_chars [] p m = refl
bytes_at-store_chars (c ∷ b) p m =
    let here : (p == p) ≡ true = ground arith in
    rw
      (
        here,
        bytes_at-below (length b) (p + 1) p (store_chars (p + 1) b m) c (omega arith),
        bytes_at-store_chars b (p + 1) m,
      )
      refl

pub crlf-append : (xs ys : List ℕ) → crlf (xs ++ ys) ≡ crlf xs ++ crlf ys
unfolding crlf
crlf-append [] ys = refl
crlf-append (x ∷ xs) ys = elim (Bool-cases (x == 10)) [
  | inl e ↦ rw (e, crlf-append xs ys) refl
  | inr e ↦ rw (e, crlf-append xs ys) refl
]

-- one call, on a buffer of at most 64 bytes inside user memory
write_lem :
    (im : Image) (regs : Ctx) (buf : ℕ) (b : List ℕ) (k : Kernel)
    → user_start ≤ buf
    → buf + 64 ≤ user_end
    → length b ≤ 64
    → sys_write (entry 0 buf (length b) 0 regs) (record k { mem = store_chars buf b k.mem })
      ≡ done
          (pos (length b))
          (entry 0 buf (length b) 0 regs)
          (record k { mem = store_chars buf b k.mem; tx = k.tx ++ crlf b })
unfolding sys_write user_buffer
write_lem im regs buf b k lo hi h =
    let ok : is_ok (validate_user_pointer buf (length b)) ≡ true =
      range-ok buf (length b) (lo, omega arith) in
    let short : ltb 256 (length b) ≡ false = ground arith in
    rw (sys_write, ok, short, bytes_at-store_chars b buf k.mem) refl

small_code : (n : ℕ) → n ≤ 64 → to_i32 (to_u32 (pos n)) ≡ pos n
small_code n h = ground arith

sent_lem :
    (im : Image) (regs : Ctx) (buf : ℕ) (b : List ℕ) (k : Kernel)
    → user_start ≤ buf
    → buf + 64 ≤ user_end
    → length b ≤ 64
    → ret (user_write im regs buf (length b) (record k { mem = store_chars buf b k.mem }))
      ≡ some (pos (length b), record k { mem = store_chars buf b k.mem; tx = k.tx ++ crlf b })
unfolding ret
sent_lem im regs buf b k lo hi h =
    ap ret (
      (wrappers-Handlers im regs buf 0 (length b) (pos 0)
        (record k { mem = store_chars buf b k.mem })).0
      ∙ ap answered (write_lem im regs buf b k lo hi h))
    ∙ ap (λ i. some (i, record k { mem = store_chars buf b k.mem; tx = k.tx ++ crlf b }))
        (small_code (length b) h)

send-tx :
    (im : Image) (regs : Ctx) (buf : ℕ) (bs : Chunks) (k : Kernel)
    → user_start ≤ buf
    → buf + 64 ≤ user_end
    → AreBuffers bs
    → (k' : Kernel) × (send im regs buf bs k ≡ some k') × (k'.tx ≡ k.tx ++ crlf (joined bs))
unfolding send crlf
send-tx im regs buf [] k lo hi h = (k, refl, sym (append-nil k.tx))
send-tx im regs buf (b ∷ bs) k lo hi h =
    let (k', e, t) =
      send-tx im regs buf bs (record k { mem = store_chars buf b k.mem; tx = k.tx ++ crlf b }) lo hi
        h.1 in
    (
      k',
      rw (sent_lem im regs buf b k lo hi h.0.1) e,
      t
          ∙ append_assoc k.tx (crlf b) (crlf (joined bs))
          ∙ ap (λ x. k.tx ++ x) (sym (crlf-append b (joined bs))),
    )

-- For every text and every buffer of 64 bytes inside user memory, the system calls that `shell_puts`
-- makes all succeed, and what they add to the bytes on the wire is the text with its newlines
-- expanded twice, once by the shell and once by `sys_write`.
pub shell_puts-Console :
    (im : Image) (regs : Ctx) (buf : ℕ) (s : List ℕ) (k : Kernel)
    → user_start ≤ buf
    → buf + 64 ≤ user_end
    → (k' : Kernel) × (send im regs buf (shell_puts s) k ≡ some k')
      × (k'.tx ≡ k.tx ++ crlf (crlf s))
shell_puts-Console im regs buf s k lo hi =
    let (text, sizes) = shell_puts-Chunks s in
    let (k', e, t) = send-tx im regs buf (shell_puts s) k lo hi sizes in
    (k', e, t ∙ ap (λ x. k.tx ++ crlf x) text)
