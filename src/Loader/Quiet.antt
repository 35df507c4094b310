-- ===== src/Loader/Quiet.antt =====
-- The messages of VinixOS/bootloader, for a monitor that takes no notice of the serial port.
use ref_arm_os.Base.{◌==◌, ℕ, zero, suc, ◌≡◌, Bool, true, false, some, List, [], ◌∷◌}
use ref_arm_os.Board.{Prog, reading, writing, await, ◌>>=◌, poll, poll_briefly}
use ref_arm_os.Board.Registers.{uart0_thr, uart0_lsr}
use ref_arm_os.Board.Rules.{
  Monitor, Allowed, read, wrote, by_done, by_stop, by_read, by_write, by_wait, by_if, by_bind,
  by_poll, by_poll_briefly,
}
use ref_arm_os.Loader.Uart.{uart_putc, uart_puts, put_nibbles, uart_print_hex}
use ref_arm_os.Loader.Main.{panic}

-- In the state `s` no access to `a` is forbidden, and none changes the state.
pub record Calm {S : Type 0} (m : Monitor S) (s : S) (a : ℕ) : Type 0 where
  pub on_read : (v : ℕ) → m.step s (read a v) ≡ some s
  pub on_write : (v : ℕ) → m.step s (wrote v a) ≡ some s

module _ {S A : Type 0} {m : Monitor S} {Q : A → S → Type 0} {s : S} {a : ℕ}
    (calm : Calm m s a) where
  pub calm_wait :
      {ready : ℕ → Bool} {p : Prog A} → Allowed m p Q s → Allowed m (await a ready p) Q s
  calm_wait next =
      by_wait (λ v possible e. calm.on_read v) (λ v possible e. rw (calm.on_read v) next)

  pub calm_read : {k : ℕ → Prog A} → ((v : ℕ) → Allowed m (k v) Q s) → Allowed m (reading a k) Q s
  calm_read next = by_read (λ v possible. rw (calm.on_read v) (next v))

  pub calm_write : {v : ℕ} {p : Prog A} → Allowed m p Q s → Allowed m (writing v a p) Q s
  calm_write {v} next = by_write (rw (calm.on_write v) next)

module _ {S : Type 0} {m : Monitor S} {s : S} {a : ℕ} (calm : Calm m s a) where
  pub calm_poll :
      (ready : ℕ → Bool) {Q : Bool → S → Type 0}
      → ((r : Bool) → Q r s)
      → (t : ℕ) → Allowed m (poll a ready t) Q s
  calm_poll ready next t =
      by_poll a ready t (λ v h e. calm.on_read v) (λ v h e. rw (calm.on_read v) (next true))
        (next false)

  pub calm_poll_briefly :
      (ready : ℕ → Bool) {Q : Unit {0} → S → Type 0}
      → Q tt s
      → (n : ℕ) → Allowed m (poll_briefly a ready n) Q s
  calm_poll_briefly ready next n =
      by_poll_briefly a ready n (λ v h e. calm.on_read v) (λ v h e. rw (calm.on_read v) next) next

-- the registers of the serial port that the messages touch
pub record Quiet {S : Type 0} (m : Monitor S) (s : S) : Type 0 where
  pub lsr : Calm m s uart0_lsr
  pub thr : Calm m s uart0_thr

module _ {S : Type 0} {m : Monitor S} {s : S} (quiet : Quiet m s) where
  putc_rule : {Q : Unit {0} → S → Type 0} → Q tt s → (c : ℕ) → Allowed m (uart_putc c) Q s
  unfolding uart_putc
  putc_rule next c =
      by_if (c == 10)
        (λ _. calm_wait quiet.lsr (
          calm_write quiet.thr (
            calm_wait quiet.lsr
              (calm_wait quiet.lsr (calm_write quiet.thr (calm_wait quiet.lsr (by_done next)))))))
        (λ _. calm_wait quiet.lsr (calm_write quiet.thr (calm_wait quiet.lsr (by_done next))))

  pub puts_rule :
      {Q : Unit {0} → S → Type 0} → Q tt s → (str : List ℕ) → Allowed m (uart_puts str) Q s
  unfolding uart_puts
  puts_rule next [] = by_done next
  puts_rule next (c ∷ str) = by_bind (uart_putc c) (putc_rule (puts_rule next str) c)

  nibbles_rule :
      {Q : Unit {0} → S → Type 0} → Q tt s → (n val : ℕ) → Allowed m (put_nibbles n val) Q s
  unfolding put_nibbles
  nibbles_rule next zero val = by_done next
  nibbles_rule next (suc n) val = by_bind (uart_putc _) (putc_rule (nibbles_rule next n val) _)

  hex_rule : {Q : Unit {0} → S → Type 0} → Q tt s → (val : ℕ) → Allowed m (uart_print_hex val) Q s
  unfolding uart_print_hex
  hex_rule next val = by_bind (uart_puts _) (puts_rule (nibbles_rule next 8 val) _)

  module _ {A : Type 0} {Q : A → S → Type 0} where
    pub by_putc :
        (c : ℕ) (f : Unit {0} → Prog A) → Allowed m (f tt) Q s → Allowed m (uart_putc c >>= f) Q s
    by_putc c f next = by_bind (uart_putc c) (putc_rule next c)

    pub by_puts :
        (str : List ℕ) (f : Unit {0} → Prog A)
        → Allowed m (f tt) Q s
        → Allowed m (uart_puts str >>= f) Q s
    by_puts str f next = by_bind (uart_puts str) (puts_rule next str)

    pub by_hex :
        (val : ℕ) (f : Unit {0} → Prog A)
        → Allowed m (f tt) Q s
        → Allowed m (uart_print_hex val >>= f) Q s
    by_hex val f next = by_bind (uart_print_hex val) (hex_rule next val)

    -- A panic does not come back.
    pub by_panic : (msg : List ℕ) → Allowed m (panic msg) Q s
    unfolding panic
    by_panic msg = by_puts _ _ (by_puts msg _ (by_puts _ _ by_stop))
