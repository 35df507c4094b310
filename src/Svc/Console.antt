-- ===== src/Svc/Console.antt =====
-- `sys_read` of VinixOS/kernel/src/kernel/core/svc_handler.c against the queue of received bytes.
use ref_arm_os.Base.{
  ◌==◌, pos, to_u32, ℕ, ◌+◌, ◌%◌, ◌^◌, ◌≤◌, ◌<◌, ◌≡◌, refl, ◌≢◌, ◌⊎◌, inl, inr, true, false, some,
  [], ◌∷◌, arith,
}
use ref_arm_os.Memory.{store}
use ref_arm_os.User.{user_start, user_end, validate_user_pointer, is_ok}
use ref_arm_os.Uart.{uart_getc}
use ref_arm_os.Uart.Queue.{IsRing, queued, uart_getc-queued}
use ref_arm_os.Svc.{Kernel, Ctx, done, user_buffer, sys_read}
use ref_arm_os.Svc.Isolation.{user_buffer-range}

pub range-ok :
    (p n : ℕ) → (user_start ≤ p) × (p + n ≤ user_end) → is_ok (validate_user_pointer p n) ≡ true
unfolding validate_user_pointer
range-ok p n (lo, hi) = ground arith

-- A read of standard input with a valid buffer that is not empty takes the byte that was received
-- first: the call answers 1, that byte is the first of the buffer, the rest of memory is as it was,
-- and the queue has lost that byte alone. When no byte waits, it answers 0 and changes nothing.
pub sys_read-queued :
    (ctx : Ctx) (k : Kernel) (buf len : ℕ)
    → ctx.r0 < 2 ^ 32
    → ctx.r1 < 2 ^ 32
    → ctx.r2 < 2 ^ 32
    → user_buffer 0 ctx ≡ some (0, buf, len)
    → 0 < len
    → IsRing k.rx
    → ((queued k.rx ≡ []) × (sys_read ctx k ≡ done (pos 0) ctx k))
      ⊎ ((x : ℕ) × (k' : Kernel) × (queued k.rx ≡ x ∷ queued k'.rx)
          × (sys_read ctx k ≡ done (pos 1) ctx k')
          × (k'.mem buf ≡ x % 2 ^ 32 % 256)
          × ((a : ℕ) → a ≢ buf → k'.mem a ≡ k.mem a)
          × IsRing k'.rx)
unfolding sys_read
sys_read-queued ctx k buf len h0 h1 h2 e some_asked w =
    let ok = range-ok buf len (user_buffer-range ctx 0 0 buf len h0 h1 h2 e) in
    let nonzero : (len == 0) ≡ false = ground arith in
    elim (uart_getc-queued k.rx w) [
      | inl (empty, got) ↦ inl (empty, rw (sys_read, e, ok, nonzero, got) refl)
      | inr (x, q, got, w') ↦ inr (
        x,
        record k {
          rx = (uart_getc k.rx).1;
          mem = store k.mem buf (to_u32 (uart_getc k.rx).0 % 256);
        },
        q,
        rw (sys_read, e, ok, nonzero, got) refl,
        rw got (ground arith),
        λ a ne. ground arith,
        w',
      )
    ]
